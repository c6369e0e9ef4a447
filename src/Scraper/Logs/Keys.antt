-- ===== src/Scraper/Logs/Keys.antt =====
-- The keys and the order of scraper logs, through each step of a merge.
use glanceus.Prelude.{
  ℕ, zero, suc, ◌≡◌, refl, ap, ◌∙◌, eq_iff, String, Bool, true, List, [], ◌∷◌, map, drop, All,
  filter, includes, IsUnique, dedupe_from, if_rule, ◌⊎◌, inl, inr, Bool-cases, arith,
}
use glanceus.Prelude.Sort.{insert, sort, IsSorted}
use glanceus.Scraper.Logs.{ScraperLifecycleLog, Logs, unseen_from, not_later}

pub All-drop {ℓ κ} :
    {A : Type ℓ} (P : A → Type κ) (n : ℕ) (xs : List A) → All P xs → All P (drop n xs)
All-drop P zero xs h = h
All-drop P (suc n) [] h = tt
All-drop P (suc n) (x ∷ xs) h = All-drop P n xs (h.1)

pub filter-All {ℓ κ} :
    {A : Type ℓ} (P : A → Type κ) (p : A → Bool) (xs : List A) → All P xs → All P (filter p xs)
filter-All P p [] h = tt
filter-All P p (x ∷ xs) h =
    if_rule (All P) (p x) (λ kept. (h.0, filter-All P p xs (h.1)))
      λ dropped. filter-All P p xs (h.1)

pub drop-IsSorted :
    (n : ℕ) (logs : Logs) → IsSorted not_later logs → IsSorted not_later (drop n logs)
drop-IsSorted zero logs h = h
drop-IsSorted (suc n) [] h = h
drop-IsSorted (suc n) (log ∷ logs) h = drop-IsSorted n logs (h.1)

pub not_later_total : (a b : ScraperLifecycleLog) → (not_later a b ≡ true) ⊎ (not_later b a ≡ true)
not_later_total a b = ground arith

pub not_later_trans :
    (a b c : ScraperLifecycleLog)
    → not_later a b ≡ true
    → not_later b c ≡ true
    → not_later a c ≡ true
not_later_trans a b c h k = ground arith

module _ (key : ScraperLifecycleLog → String) where
  pub includes-insert :
      (k : String) (log : ScraperLifecycleLog) (logs : Logs)
      → includes k (map key (insert not_later log logs)) ≡ includes k (map key (log ∷ logs))
  unfolding insert
  includes-insert k log [] = refl
  includes-insert k log (x ∷ logs) = ground (arith, includes-insert k log logs)

  pub includes-sort :
      (k : String) (logs : Logs)
      → includes k (map key (sort not_later logs)) ≡ includes k (map key logs)
  unfolding sort
  includes-sort k [] = refl
  includes-sort k (log ∷ logs) =
      ground (arith, includes-insert k log (sort not_later logs), includes-sort k logs)

  pub insert-IsUnique :
      (log : ScraperLifecycleLog) (logs : Logs)
      → IsUnique (map key (log ∷ logs))
      → IsUnique (map key (insert not_later log logs))
  unfolding insert
  insert-IsUnique log [] h = h
  insert-IsUnique log (x ∷ logs) h =
      if_rule (λ (l : Logs). IsUnique (map key l)) (not_later log x) (λ first. h)
        λ after. (
          ground (
            arith,
            includes-insert (key x) log logs,
            eq_iff (key x) (key log),
            eq_iff (key log) (key x),
            h.0,
            h.1,
          ),
          insert-IsUnique log logs (ground (arith, h.0), h.1.1),
        )

  pub sort-IsUnique :
      (logs : Logs) → IsUnique (map key logs) → IsUnique (map key (sort not_later logs))
  unfolding sort
  sort-IsUnique [] h = h
  sort-IsUnique (log ∷ logs) h =
      insert-IsUnique log (sort not_later logs)
        (includes-sort (key log) logs ∙ h.0, sort-IsUnique logs (h.1))

  pub drop-IsUnique :
      (n : ℕ) (logs : Logs) → IsUnique (map key logs) → IsUnique (map key (drop n logs))
  drop-IsUnique zero logs h = h
  drop-IsUnique (suc n) [] h = h
  drop-IsUnique (suc n) (log ∷ logs) h = drop-IsUnique n logs (h.1)

  pub map-unseen_from :
      (seen : List String) (logs : Logs)
      → map key (unseen_from key seen logs) ≡ dedupe_from seen (map key logs)
  map-unseen_from seen [] = refl
  map-unseen_from seen (log ∷ logs) = elim (Bool-cases (includes (key log) seen)) [
    | inl old ↦ rw (old, dedupe_from, unseen_from) (map-unseen_from seen logs)
    | inr new ↦
        rw (new, dedupe_from, unseen_from)
          (ap (λ (ks : List String). key log ∷ ks) (map-unseen_from (key log ∷ seen) logs))
  ]

  pub unseen_from-All {κ} :
      (P : ScraperLifecycleLog → Type κ) (seen : List String) (logs : Logs)
      → All P logs
      → All P (unseen_from key seen logs)
  unseen_from-All P seen [] h = tt
  unseen_from-All P seen (log ∷ logs) h = elim (Bool-cases (includes (key log) seen)) [
    | inl old ↦ rw (old, unseen_from, All) (unseen_from-All P seen logs (h.1))
    | inr new ↦ rw (new, unseen_from, All) (h.0, unseen_from-All P (key log ∷ seen) logs (h.1))
  ]
