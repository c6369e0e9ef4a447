-- ===== src/SaveQueue/Tests.antt =====
-- The save queue at concrete views.
use glanceus.Prelude.{ℕ, ◌≡◌, refl, true, false, none, List, [], ◌∷◌, map}
use glanceus.Prelude.Value.{undefined}
use glanceus.Config.{StoredView}
use glanceus.SaveQueue.{ViewSaveQueue, create_view_save_queue, idle, Turn, enqueues, answers, after}
use glanceus.SaveQueue.Newest.{
  IsSteady, IsCurrent, first_of, newest, last_enqueued, after-newest, after-rests, after-saves,
}

abbrev named : ℕ → StoredView
named n = record { id = "v"; name = n ∷ []; layout_columns = undefined; items = [] }

-- Two views come in while the first is saved.
abbrev turns : List Turn
turns = enqueues (named 1) ∷ enqueues (named 2) ∷ enqueues (named 3) ∷ answers false ∷ []

abbrev saving_third : ViewSaveQueue
saving_third = after create_view_save_queue turns

third_handed : map (λ v. v.name) saving_third.handed ≡ (3 ∷ []) ∷ (1 ∷ []) ∷ []
unfolding after
third_handed = refl

-- The first save was rejected.
none_saved : saving_third.saved ≡ []
unfolding after
none_saved = refl

after-newest_example :
    IsSteady (after create_view_save_queue turns)
    × IsCurrent (after create_view_save_queue turns)
    × (newest (after create_view_save_queue turns) ≡ last_enqueued none turns)
after-newest_example = after-newest turns

after-rests_example :
    let e = after saving_third (answers true ∷ answers false ∷ answers true ∷ []) in
    (e.phase ≡ idle)
    × (e.running ≡ false)
    × (e.pending ≡ none)
    × (first_of e.handed ≡ newest saving_third)
after-rests_example =
    after-rests saving_third true false true (after-newest turns).0 (after-newest turns).1

after-saves_example :
    first_of (after saving_third (answers true ∷ answers true ∷ answers false ∷ [])).saved
    ≡ newest saving_third
unfolding after
after-saves_example =
    after-saves saving_third false (after-newest turns).0 (after-newest turns).1 tt
