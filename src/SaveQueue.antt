-- ===== src/SaveQueue.antt =====
-- ui-react/src/pages/viewSaveQueue.ts: the queue that saves a view at a time. A turn is a call of
-- `enqueue` or the answer to the call that `run` awaits, of persistView or of onDrained; the
-- callbacks and their answers come from outside, and neither enqueues while it is called.
pub mod Newest
mod Tests
use glanceus.Prelude.{
  ℕ, ◌+◌, ◌≡◌, Bool, true, false, Option, none, some, List, [], ◌∷◌, if◌then◌else◌,
}
use glanceus.Config.{StoredView}

-- Where `run` stands: it is not running, or it awaits one of the two callbacks.
pub data Phase : Type 0 where
  idle : Phase
  saving : StoredView → Phase
  draining : Phase

-- The variables of createViewSaveQueue and what it has done: the views that it has handed to
-- persistView, the last one first; those of them whose promise was resolved, the last one first;
-- and the calls of onDrained and of onError.
pub record ViewSaveQueue : Type 0 where
  pub pending : Option StoredView
  pub running : Bool
  pub phase : Phase
  pub handed : List StoredView
  pub saved : List StoredView
  pub drains : ℕ
  pub errors : ℕ

abbrev pub create_view_save_queue : ViewSaveQueue
create_view_save_queue = record {
  pending = none;
  running = false;
  phase = idle;
  handed = [];
  saved = [];
  drains = 0;
  errors = 0;
}

-- The test of the while loop, up to the next await: the pending view is taken and handed to
-- persistView, or the loop is over and onDrained is called.
abbrev pub take_pending : Option StoredView → ViewSaveQueue → ViewSaveQueue
take_pending (some next_view) c = record c {
  pending = none;
  phase = saving next_view;
  handed = next_view ∷ c.handed;
}
take_pending none c = record c { phase = draining; drains = c.drains + 1 }

-- run.
unfoldable pub run : ViewSaveQueue → ViewSaveQueue
run c = if c.running then c else take_pending c.pending (record c { running = true })

-- enqueue.
unfoldable pub enqueue : StoredView → ViewSaveQueue → ViewSaveQueue
unfolding run
enqueue view c = run (record c { pending = some view })

-- The two catch clauses.
abbrev pub report : Bool → ViewSaveQueue → ViewSaveQueue
report true c = c
report false c = record c { errors = c.errors + 1 }

-- The end of the call of persistView.
abbrev pub end_save : StoredView → Bool → ViewSaveQueue → ViewSaveQueue
end_save view true c = record c { saved = view ∷ c.saved }
end_save view false c = report false c

-- The finally clause: the next run, if a view came in meanwhile.
abbrev pub finish : Option StoredView → ViewSaveQueue → ViewSaveQueue
finish none c = c
finish (some view) c = run c

-- The rest of `run` after an await, whose promise was resolved or rejected.
abbrev pub resume : Phase → Bool → ViewSaveQueue → ViewSaveQueue
resume idle resolved c = c
resume (saving view) resolved c = take_pending c.pending (end_save view resolved c)
resume draining resolved c =
    finish c.pending (record (report resolved c) { running = false; phase = idle })

unfoldable pub answered : Bool → ViewSaveQueue → ViewSaveQueue
unfolding run
answered resolved c = resume c.phase resolved c

pub data Turn : Type 0 where
  enqueues : StoredView → Turn
  answers : Bool → Turn

unfoldable pub turn : ViewSaveQueue → Turn → ViewSaveQueue
unfolding enqueue answered
turn c (enqueues view) = enqueue view c
turn c (answers resolved) = answered resolved c

unfoldable pub after : ViewSaveQueue → List Turn → ViewSaveQueue
unfolding turn
after c [] = c
after c (t ∷ ts) = after (turn c t) ts
