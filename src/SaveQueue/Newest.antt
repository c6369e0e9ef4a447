-- ===== src/SaveQueue/Newest.antt =====
-- The newest view reaches persistView, and what the queue has saved by then.
use glanceus.Prelude.{
  ℕ, ◌+◌, ◌≡◌, refl, Bool, true, false, Option, none, some, List, [], ◌∷◌, arith, max, ◌≤◌, ◌∙◌,
  sym,
}
use glanceus.Config.{StoredView}
use glanceus.SaveQueue.{
  Phase, idle, saving, draining, ViewSaveQueue, create_view_save_queue, run, enqueue, answered,
  Turn, enqueues, answers, turn, after,
}

-- The queue runs iff it awaits a callback, and at rest nothing is pending.
abbrev pub IsSteadyIn : Phase → Bool → Option StoredView → Type 0
IsSteadyIn idle running pending = (running ≡ false) × (pending ≡ none)
IsSteadyIn (saving view) running pending = running ≡ true
IsSteadyIn draining running pending = running ≡ true

abbrev pub IsSteady : ViewSaveQueue → Type 0
IsSteady c = IsSteadyIn c.phase c.running c.pending

abbrev pub first_of : List StoredView → Option StoredView
first_of [] = none
first_of (v ∷ vs) = some v

-- The pending view, or else the one that was handed to persistView last.
abbrev pub newest_in : Option StoredView → List StoredView → Option StoredView
newest_in none handed = first_of handed
newest_in (some view) handed = some view

abbrev pub newest : ViewSaveQueue → Option StoredView
newest c = newest_in c.pending c.handed

-- The last view that a history enqueues, or else the given one.
abbrev pub last_enqueued : Option StoredView → List Turn → Option StoredView
last_enqueued view [] = view
last_enqueued view (enqueues v ∷ ts) = last_enqueued (some v) ts
last_enqueued view (answers resolved ∷ ts) = last_enqueued view ts

-- The view whose save is awaited is the one that was handed over last.
abbrev pub IsCurrentIn : Phase → List StoredView → Type 0
IsCurrentIn idle handed = Unit
IsCurrentIn (saving view) handed = first_of handed ≡ some view
IsCurrentIn draining handed = Unit

abbrev pub IsCurrent : ViewSaveQueue → Type 0
IsCurrent c = IsCurrentIn c.phase c.handed

abbrev queue_of :
    Option StoredView → Bool → Phase → List StoredView → List StoredView → ℕ → ℕ → ViewSaveQueue
queue_of p r f hs ss d e = record {
  pending = p;
  running = r;
  phase = f;
  handed = hs;
  saved = ss;
  drains = d;
  errors = e;
}

enqueue_lem :
    (v : StoredView) (p : Option StoredView) (r : Bool) (f : Phase) (hs ss : List StoredView)
    (d e : ℕ)
    → IsSteadyIn f r p
    → IsCurrentIn f hs
    → let c = enqueue v (queue_of p r f hs ss d e) in IsSteady c × IsCurrent c × (newest c ≡ some v)
unfolding enqueue run
enqueue_lem v p false idle hs ss d e h k = (refl, refl, refl)
enqueue_lem v p true idle hs ss d e h k = absurd (ground (arith, h.0))
enqueue_lem v p true (saving w) hs ss d e h k = (refl, k, refl)
enqueue_lem v p false (saving w) hs ss d e h k = absurd (ground (arith, h))
enqueue_lem v p true draining hs ss d e h k = (refl, tt, refl)
enqueue_lem v p false draining hs ss d e h k = absurd (ground (arith, h))

-- How many answers a queue is from its rest, at most.
abbrev rank_in : Phase → Option StoredView → ℕ
rank_in idle pending = 0
rank_in draining none = 1
rank_in (saving v) none = 2
rank_in draining (some w) = 3
rank_in (saving v) (some w) = 3

abbrev rank : ViewSaveQueue → ℕ
rank c = rank_in c.phase c.pending

rank_le : (f : Phase) (p : Option StoredView) → rank_in f p ≤ 3
rank_le idle p = omega arith
rank_le draining none = omega arith
rank_le draining (some w) = omega arith
rank_le (saving v) none = omega arith
rank_le (saving v) (some w) = omega arith

answered_lem :
    (b : Bool) (p : Option StoredView) (r : Bool) (f : Phase) (hs ss : List StoredView) (d e : ℕ)
    → IsSteadyIn f r p
    → IsCurrentIn f hs
    → IsSteady (answered b (queue_of p r f hs ss d e))
      × IsCurrent (answered b (queue_of p r f hs ss d e))
      × (newest (answered b (queue_of p r f hs ss d e)) ≡ newest_in p hs)
      × (rank (answered b (queue_of p r f hs ss d e)) + 1 ≤ max 1 (rank_in f p))
unfolding answered run
answered_lem b none r idle hs ss d e h k = (h, tt, refl, omega arith)
answered_lem b (some v) r idle hs ss d e h k = (h, tt, refl, omega arith)
answered_lem true none r (saving w) hs ss d e h k = (h, tt, refl, omega arith)
answered_lem false none r (saving w) hs ss d e h k = (h, tt, refl, omega arith)
answered_lem true (some v) r (saving w) hs ss d e h k = (h, refl, refl, omega arith)
answered_lem false (some v) r (saving w) hs ss d e h k = (h, refl, refl, omega arith)
answered_lem true none r draining hs ss d e h k = ((refl, refl), tt, refl, omega arith)
answered_lem false none r draining hs ss d e h k = ((refl, refl), tt, refl, omega arith)
answered_lem true (some v) r draining hs ss d e h k = (refl, refl, refl, omega arith)
answered_lem false (some v) r draining hs ss d e h k = (refl, refl, refl, omega arith)

answer_once :
    (b : Bool) (c : ViewSaveQueue)
    → IsSteady c
    → IsCurrent c
    → IsSteady (answered b c)
      × IsCurrent (answered b c)
      × (newest (answered b c) ≡ newest c)
      × (rank (answered b c) + 1 ≤ max 1 (rank c))
answer_once b c h k =
    answered_lem b c.pending c.running c.phase c.handed c.saved c.drains c.errors h k

after_lem :
    (c : ViewSaveQueue) (ts : List Turn)
    → IsSteady c
    → IsCurrent c
    → IsSteady (after c ts)
      × IsCurrent (after c ts)
      × (newest (after c ts) ≡ last_enqueued (newest c) ts)
unfolding after turn
after_lem c [] h k = (h, k, refl)
after_lem c (enqueues v ∷ ts) h k =
    let once = enqueue_lem v c.pending c.running c.phase c.handed c.saved c.drains c.errors h k in
    let rest = after_lem (enqueue v c) ts (once.0) (once.1) in
    (rest.0, rest.1, rw (once.2) at (rest.2))
after_lem c (answers b ∷ ts) h k =
    let once = answer_once b c h k in
    let rest = after_lem (answered b c) ts (once.0) (once.1) in
    (rest.0, rest.1, rw (once.2) at (rest.2))

-- After any history of calls and answers, the last view that was enqueued is the pending one or,
-- with none pending, the last one that was handed to persistView; a save that is awaited is of the
-- view handed over last; the queue runs iff it awaits a callback; and at rest none is pending.
pub after-newest :
    (ts : List Turn)
    → IsSteady (after create_view_save_queue ts)
      × IsCurrent (after create_view_save_queue ts)
      × (newest (after create_view_save_queue ts) ≡ last_enqueued none ts)
after-newest ts = after_lem create_view_save_queue ts (refl, refl) tt

rested_in :
    (f : Phase) (p : Option StoredView) (r : Bool) (hs : List StoredView)
    → IsSteadyIn f r p
    → rank_in f p ≡ 0
    → (f ≡ idle) × (r ≡ false) × (p ≡ none) × (first_of hs ≡ newest_in p hs)
rested_in idle none r hs h z = (refl, h.0, refl, refl)
rested_in idle (some v) r hs h z = absurd (ground (arith, h.1))
rested_in draining none r hs h z = absurd (omega arith)
rested_in draining (some v) r hs h z = absurd (omega arith)
rested_in (saving v) none r hs h z = absurd (omega arith)
rested_in (saving v) (some w) r hs h z = absurd (omega arith)

-- A queue that works on a view which is not yet saved: its newest view is pending or being saved.
abbrev pub IsUnsavedIn : Phase → Option StoredView → Type 0
IsUnsavedIn idle pending = ⊥
IsUnsavedIn (saving view) pending = Unit
IsUnsavedIn draining none = ⊥
IsUnsavedIn draining (some view) = Unit

abbrev pub IsUnsaved : ViewSaveQueue → Type 0
IsUnsaved c = IsUnsavedIn c.phase c.pending

-- Three answers, whichever they are, bring a steady queue to rest, with nothing pending, and by
-- then its newest view is the last one that was handed to persistView.
pub after-rests :
    (c : ViewSaveQueue) (a b d : Bool)
    → IsSteady c
    → IsCurrent c
    → let e = after c (answers a ∷ answers b ∷ answers d ∷ []) in
      (e.phase ≡ idle) × (e.running ≡ false) × (e.pending ≡ none) × (first_of e.handed ≡ newest c)
unfolding after turn
after-rests c a b d h k =
    let one = answer_once a c h k in
    let two = answer_once b (answered a c) (one.0) (one.1) in
    let three = answer_once d (answered b (answered a c)) (two.0) (two.1) in
    let rest =
      resting (answered d (answered b (answered a c))) (three.0)
        (omega (arith, rank_le c.phase c.pending, one.3, two.3, three.3)) in
    (rest.0, rest.1, rest.2, rest.3 ∙ three.2 ∙ two.2 ∙ one.2)
  where
    resting :
        (e : ViewSaveQueue)
        → IsSteady e
        → rank e ≤ 0
        → (e.phase ≡ idle)
          × (e.running ≡ false)
          × (e.pending ≡ none)
          × (first_of e.handed ≡ newest e)
    resting e v z = rested_in e.phase e.pending e.running e.handed v (omega arith)

saved_in :
    (b : Bool) (p : Option StoredView) (r : Bool) (f : Phase) (hs ss : List StoredView) (d e : ℕ)
    → IsSteadyIn f r p
    → IsCurrentIn f hs
    → IsUnsavedIn f p
    → first_of
        (after (queue_of p r f hs ss d e) (answers true ∷ answers true ∷ answers b ∷ [])).saved
      ≡ newest_in p hs
unfolding after turn answered run
saved_in b p r idle hs ss d e h k u = absurd u
saved_in true none r (saving w) hs ss d e h k u = sym k
saved_in false none r (saving w) hs ss d e h k u = sym k
saved_in true (some v) r (saving w) hs ss d e h k u = refl
saved_in false (some v) r (saving w) hs ss d e h k u = refl
saved_in b none r draining hs ss d e h k u = absurd u
saved_in true (some v) r draining hs ss d e h k u = refl
saved_in false (some v) r draining hs ss d e h k u = refl

-- If the newest view of a steady queue is pending or being saved, and the next two answers are
-- promises that are resolved, then after these and any third one it is the last view saved.
pub after-saves :
    (c : ViewSaveQueue) (b : Bool)
    → IsSteady c
    → IsCurrent c
    → IsUnsaved c
    → first_of (after c (answers true ∷ answers true ∷ answers b ∷ [])).saved ≡ newest c
after-saves c b h k u =
    saved_in b c.pending c.running c.phase c.handed c.saved c.drains c.errors h k u
