-- ===== src/Scraper/Logs/Merged.antt =====
-- What a merge of scraper logs shows: the latest, once each, in order of time.
use glanceus.Prelude.{
  ℕ, zero, suc, ◌-◌, ◌≤◌, ltb, ◌≡◌, sym, ap, ◌∙◌, subst, str_eq, eq_refl, eq_iff, String, Bool,
  true, false, [], ◌∷◌, ◌++◌, map, length, drop, length-drop, All, filter, includes, IsUnique,
  dedupe_from-IsUnique, includes-dedupe, if_rule, ◌⊎◌, inl, inr, Bool-cases, arith,
}
use glanceus.Prelude.Sort.{sort, AllLe, IsSorted, sort-IsSorted, sort-All}
use glanceus.Scraper.Logs.{
  ScraperLifecycleLog, Logs, scraper_log_limit, unseen_from, not_later, latest_logs, within_limit,
  merge_scraper_logs, error_logs_of, is_error_level,
}
use glanceus.Scraper.Logs.Keys.{
  All-drop, filter-All, drop-IsSorted, not_later_total, not_later_trans, includes-sort,
  sort-IsUnique, drop-IsUnique, map-unseen_from, unseen_from-All,
}

-- Within the limit, in order of time, and no two logs with one key.
abbrev pub IsTidy : (ScraperLifecycleLog → String) → Logs → Type 0
IsTidy key logs =
    (length logs ≤ scraper_log_limit) × IsSorted not_later logs × IsUnique (map key logs)

-- A log is shown, or the limit is used up by logs that are no earlier than the first with its key.
abbrev pub IsShown : (ScraperLifecycleLog → String) → Logs → ScraperLifecycleLog → Type 0
IsShown key result log =
    (includes (key log) (map key result) ≡ true)
    ⊎ ((length result ≡ scraper_log_limit)
        × ((r : ScraperLifecycleLog) × (key r ≡ key log) × AllLe not_later r result))

module _ (key : ScraperLifecycleLog → String) where
  -- A log that is cut off is no later than those that stay.
  cut_off :
      (n : ℕ) (k : String) (logs : Logs)
      → IsSorted not_later logs
      → includes k (map key logs) ≡ true
      → (includes k (map key (drop n logs)) ≡ true)
        ⊎ ((r : ScraperLifecycleLog) × (key r ≡ k) × AllLe not_later r (drop n logs))
  cut_off zero k logs s h = inl h
  cut_off (suc n) k [] s h = inl h
  cut_off (suc n) k (log ∷ logs) s h = elim (Bool-cases (str_eq k (key log))) [
    | inl same ↦ inr (
      log,
      sym ((eq_iff k (key log)).0 same),
      All-drop (λ x. not_later log x ≡ true) n logs (s.0),
    )
    | inr other ↦ cut_off n k logs (s.1) (ground (arith, h, other))
  ]

  latest_logs-IsTidy :
      (logs : Logs)
      → IsSorted not_later logs
      → IsUnique (map key logs)
      → IsTidy key (latest_logs logs)
  latest_logs-IsTidy logs s u = (
    omega (arith, length-drop (length logs - scraper_log_limit) logs),
    drop-IsSorted (length logs - scraper_log_limit) logs s,
    drop-IsUnique key (length logs - scraper_log_limit) logs u,
  )

  within_limit-IsTidy :
      (logs : Logs)
      → IsSorted not_later logs
      → IsUnique (map key logs)
      → IsTidy key (within_limit logs)
  within_limit-IsTidy logs s u =
      if_rule (IsTidy key) (ltb scraper_log_limit (length logs))
        (λ long. latest_logs-IsTidy logs s u) λ short. (ground (arith, short), s, u)

  within_limit-IsShown :
      (log : ScraperLifecycleLog) (logs : Logs)
      → IsSorted not_later logs
      → includes (key log) (map key logs) ≡ true
      → IsShown key (within_limit logs) log
  within_limit-IsShown log logs s h =
      if_rule (λ (l : Logs). IsShown key l log) (ltb scraper_log_limit (length logs))
        (λ long. elim (cut_off (length logs - scraper_log_limit) (key log) logs s h) [
          | inl there ↦ inl there
          | inr earlier ↦
              inr
                (ground (arith, length-drop (length logs - scraper_log_limit) logs, long), earlier)
        ])
        λ short. inl h

  within_limit-All {κ} :
      (P : ScraperLifecycleLog → Type κ) (logs : Logs) → All P logs → All P (within_limit logs)
  within_limit-All P logs h =
      if_rule (All P) (ltb scraper_log_limit (length logs))
        (λ long. All-drop P (length logs - scraper_log_limit) logs h) λ short. h

  -- The logs before the limit is applied.
  abbrev sorted_logs : Logs → Logs
  sorted_logs logs = sort not_later (unseen_from key [] logs)

  includes-sorted_logs :
      (k : String) (logs : Logs)
      → includes k (map key (sorted_logs logs)) ≡ includes k (map key logs)
  includes-sorted_logs k logs =
      includes-sort key k (unseen_from key [] logs)
      ∙ ap (includes k) (map-unseen_from key [] logs)
      ∙ includes-dedupe k (map key logs)

  sorted_logs-IsSorted : (logs : Logs) → IsSorted not_later (sorted_logs logs)
  sorted_logs-IsSorted logs =
      sort-IsSorted not_later not_later_total not_later_trans (unseen_from key [] logs)

  sorted_logs-IsUnique : (logs : Logs) → IsUnique (map key (sorted_logs logs))
  sorted_logs-IsUnique logs =
      sort-IsUnique key (unseen_from key [] logs) (
        subst IsUnique (sym (map-unseen_from key [] logs)) (dedupe_from-IsUnique [] (map key logs)))

  all-IsShown :
      (all_logs logs : Logs)
      → ((k : String) → includes k (map key logs) ≡ true → includes k (map key all_logs) ≡ true)
      → All (IsShown key (within_limit (sorted_logs all_logs))) logs
  all-IsShown all_logs [] h = tt
  all-IsShown all_logs (log ∷ logs) h = (
    within_limit-IsShown log (sorted_logs all_logs) (sorted_logs-IsSorted all_logs)
        (includes-sorted_logs (key log) all_logs ∙ h (key log) (ground (arith, eq_refl (key log)))),
    all-IsShown all_logs logs (λ k there. h k (ground (arith, there))),
  )

  -- A merge of new logs into others is tidy: within the limit, in order of time, and without two
  -- logs of one key. It shows only logs that it was given, and of each of them its key, unless
  -- the limit is used up by logs that are no earlier than one with that key.
  pub merge_scraper_logs_lem {κ} :
      (P : ScraperLifecycleLog → Type κ) (current : Logs) (log : ScraperLifecycleLog)
      (incoming : Logs)
      → All P (current ++ (log ∷ incoming))
      → let result = merge_scraper_logs key current (log ∷ incoming) in
        IsTidy key result × All P result × All (IsShown key result) (current ++ (log ∷ incoming))
  unfolding merge_scraper_logs
  merge_scraper_logs_lem P current log incoming h =
      let merged = current ++ (log ∷ incoming) in
      (
        within_limit-IsTidy (sorted_logs merged) (sorted_logs-IsSorted merged)
            (sorted_logs-IsUnique merged),
        within_limit-All P (sorted_logs merged)
            (sort-All not_later P (unseen_from key [] merged) (unseen_from-All key P [] merged h)),
        all-IsShown merged merged (λ k there. there),
      )

  -- Whatever is merged, tidy logs stay tidy.
  pub merge_scraper_logs-IsTidy :
      (current incoming : Logs)
      → IsTidy key current
      → IsTidy key (merge_scraper_logs key current incoming)
  unfolding merge_scraper_logs
  merge_scraper_logs-IsTidy current [] h = latest_logs-IsTidy current (h.1) (h.2)
  merge_scraper_logs-IsTidy current (log ∷ incoming) h =
      within_limit-IsTidy (sorted_logs (current ++ (log ∷ incoming)))
        (sorted_logs-IsSorted (current ++ (log ∷ incoming)))
        (sorted_logs-IsUnique (current ++ (log ∷ incoming)))

  includes-filter_logs :
      (k : String) (p : ScraperLifecycleLog → Bool) (logs : Logs)
      → includes k (map key logs) ≡ false
      → includes k (map key (filter p logs)) ≡ false
  includes-filter_logs k p [] h = h
  includes-filter_logs k p (log ∷ logs) h = ground (arith, includes-filter_logs k p logs, h)

  filter-IsTidy_parts :
      (p : ScraperLifecycleLog → Bool) (logs : Logs)
      → IsSorted not_later logs
      → IsUnique (map key logs)
      → IsSorted not_later (filter p logs) × IsUnique (map key (filter p logs))
  filter-IsTidy_parts p [] s u = (tt, tt)
  filter-IsTidy_parts p (log ∷ logs) s u =
      let rest = filter-IsTidy_parts p logs (s.1) (u.1) in
      if_rule (λ (l : Logs). IsSorted not_later l × IsUnique (map key l)) (p log)
        (λ kept. (
          (filter-All (λ x. not_later log x ≡ true) p logs (s.0), rest.0),
          (includes-filter_logs (key log) p logs (u.0), rest.1),
        ))
        λ dropped. rest

  -- So do the errors among tidy logs.
  pub errors-IsTidy :
      (logs : Logs) → IsTidy key logs → IsTidy key (latest_logs (error_logs_of logs))
  errors-IsTidy logs h =
      let parts = filter-IsTidy_parts (λ log. is_error_level log.level) logs (h.1) (h.2) in
      latest_logs-IsTidy (error_logs_of logs) (parts.0) (parts.1)
