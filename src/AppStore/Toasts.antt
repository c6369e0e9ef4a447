-- ===== src/AppStore/Toasts.antt =====
-- Every toast that is shown has its timer, and the skipped scrapers are a set.
use glanceus.Prelude.{
  ℕ, zero, suc, ◌==◌, ◌≡◌, refl, String, true, false, Option, none, some, Bool-cases, List, [], ◌∷◌,
  ◌++◌, if_rule, includes, dedupe-IsUnique, includes-append, str_eq_sym, IsUnique, get_elem?, any,
  inl, inr, arith,
}
use glanceus.AppStore.{
  ToastData, AppState, initial_state, show_toast, unless_id, hide_expired, load_data, data_loaded,
  add_skipped_scraper, Action, set_sidebar_collapsed, toggle_sidebar, shows_toast, hide_toast,
  toast_expires, set_view_config, set_sources, set_data_map, set_loading, set_interact_source,
  set_is_add_dialog_open, set_deleting_source_id, set_active_scraper, set_skipped_scrapers,
  skips_scraper, clear_skipped_scrapers, set_integrations_selected_file,
  set_integrations_sidebar_collapsed, loads_data, data_answered, without, expire, act, acts,
}

-- The toast that is shown has a timer that has not fired.
abbrev pub IsTimed : Option ToastData → List (ℕ × ℕ) → Type 0
IsTimed none timers = Unit
IsTimed (some t) timers = any (λ e. e.1 == t.id) timers ≡ true

abbrev pub IsSound : AppState → Type 0
IsSound s = IsTimed s.toast s.toast_timers × IsUnique s.skipped_scrapers

any-without :
    (id due fired : ℕ) (timers : List (ℕ × ℕ)) (i : ℕ)
    → get_elem? timers i ≡ some (due, fired)
    → (id == fired) ≡ false
    → any (λ e. e.1 == id) timers ≡ true
    → any (λ e. e.1 == id) (without timers i) ≡ true
any-without id due fired [] i e other h = absurd (ground (arith, h))
any-without id due fired ((d, f) ∷ timers) zero e other h = ground arith
any-without id due fired ((d, f) ∷ timers) (suc i) e other h =
    ground (arith, any-without id due fired timers i e other)

expired-IsTimed :
    (t : Option ToastData) (due id : ℕ) (timers : List (ℕ × ℕ)) (i : ℕ)
    → get_elem? timers i ≡ some (due, id)
    → IsTimed t timers
    → IsTimed (unless_id id t) (without timers i)
expired-IsTimed none due id timers i e h = tt
expired-IsTimed (some t) due id timers i e h = elim (Bool-cases (t.id == id)) [
  | inl own ↦ rw own tt
  | inr other ↦ rw other (any-without t.id due id timers i e other h)
]

IsUnique-append_one :
    (id : String) (ids : List String)
    → includes id ids ≡ false
    → IsUnique ids
    → IsUnique (ids ++ (id ∷ []))
IsUnique-append_one id [] off h = (refl, tt)
IsUnique-append_one id (j ∷ ids) off h = (
  ground (arith, includes-append j ids (id ∷ []), h.0, off, str_eq_sym id j),
  IsUnique-append_one id ids (ground (arith, off)) (h.1),
)

expire-IsSound :
    (t : Option (ℕ × ℕ)) (i : ℕ) (s : AppState)
    → get_elem? s.toast_timers i ≡ t
    → IsSound s
    → IsSound (expire t i s)
unfolding hide_expired
expire-IsSound none i s e v = v
expire-IsSound (some (due, id)) i s e v =
    (expired-IsTimed s.toast due id s.toast_timers i e (v.0), v.1)

pub act-IsSound : (now : ℕ) (a : Action) (s : AppState) → IsSound s → IsSound (act now a s)
unfolding act show_toast load_data data_loaded add_skipped_scraper
act-IsSound now (set_sidebar_collapsed collapsed) s v = v
act-IsSound now toggle_sidebar s v = v
act-IsSound now (shows_toast message none) s v = (ground arith, v.1)
act-IsSound now (shows_toast message (some type)) s v = (ground arith, v.1)
act-IsSound now hide_toast s v = (tt, v.1)
act-IsSound now (toast_expires i) s v = expire-IsSound (get_elem? s.toast_timers i) i s refl v
act-IsSound now (set_view_config view) s v = v
act-IsSound now (set_sources sources) s v = v
act-IsSound now (set_data_map f) s v = v
act-IsSound now (set_loading loading) s v = v
act-IsSound now (set_interact_source source) s v = v
act-IsSound now (set_is_add_dialog_open open_now) s v = v
act-IsSound now (set_deleting_source_id id) s v = v
act-IsSound now (set_active_scraper id) s v = v
act-IsSound now (set_skipped_scrapers ids) s v = (v.0, dedupe-IsUnique ids)
act-IsSound now (skips_scraper id) s v = (
  v.0,
  if_rule IsUnique (includes id s.skipped_scrapers) (λ there. v.1)
      λ fresh. IsUnique-append_one id s.skipped_scrapers fresh (v.1),
)
act-IsSound now clear_skipped_scrapers s v = (v.0, tt)
act-IsSound now (set_integrations_selected_file file) s v = v
act-IsSound now (set_integrations_sidebar_collapsed collapsed) s v = v
act-IsSound now loads_data s v = if_rule IsSound _ (λ first. v) (λ again. v)
act-IsSound now (data_answered none) s v = v
act-IsSound now (data_answered (some l)) s v = v

acts-keep : (s : AppState) (ts : List (ℕ × Action)) → IsSound s → IsSound (acts s ts)
unfolding acts
acts-keep s [] v = v
acts-keep s ((now, a) ∷ ts) v = acts-keep (act now a s) ts (act-IsSound now a s v)

-- After any history of the store, a toast that is shown has a timer that has not fired, and no
-- skipped scraper is listed twice.
pub acts-IsSound : (ts : List (ℕ × Action)) → IsSound (acts initial_state ts)
acts-IsSound ts = acts-keep initial_state ts (tt, tt)
