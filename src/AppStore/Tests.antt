-- ===== src/AppStore/Tests.antt =====
-- The store after concrete actions.
use glanceus.Prelude.{ℕ, ◌≡◌, refl, Option, none, some, List, [], ◌∷◌}
use glanceus.AppStore.{
  ToastData, failure, AppState, initial_state, Action, shows_toast, toast_expires, skips_scraper,
  data_answered, acts,
}
use glanceus.AppStore.Toasts.{IsSound, acts-IsSound}

-- The timer of the first toast fires while the second one is shown.
abbrev actions : List (ℕ × Action)
actions =
    (10, shows_toast "saved" none)
    ∷ (2000, shows_toast "lost" (some failure))
    ∷ (2001, skips_scraper "a")
    ∷ (2002, skips_scraper "a")
    ∷ (3010, toast_expires 1)
    ∷ (3011, data_answered none)
    ∷ []

abbrev shown : Option ToastData
shown = some (record { message = "lost"; type = failure; id = 2000 })

second_toast : AppState.toast (acts initial_state actions) ≡ shown
unfolding acts
second_toast = refl

one_skipped : AppState.skipped_scrapers (acts initial_state actions) ≡ "a" ∷ []
unfolding acts
one_skipped = refl

acts-IsSound_example : IsSound (acts initial_state actions)
acts-IsSound_example = acts-IsSound actions
