-- ===== src/QueueSync/Tests.antt =====
-- The throttled sync at concrete turns.
use glanceus.Prelude.{ℕ, ◌≡◌, refl, true, false, none, some, List, [], ◌∷◌, ◌⊎◌}
use glanceus.Prelude.Text.{is_space}
use glanceus.Prelude.Value.{string, null}
use glanceus.QueueSync.{
  QueueSync, SyncTurn, sync_requested, call_answered, fired, mounted, sync_turn, sync_turns,
}
use glanceus.QueueSync.Throttle.{IsTracked, MayCall, sync_turns-IsTracked, sync_turn-calls}

-- A call, its answer, and a request that has to wait for the trailing timer.
abbrev turns : List (ℕ × SyncTurn)
turns =
    (1000, sync_requested)
    ∷ (
      1100,
      call_answered (
          some (record {
            active_source_id = string " ";
            queue_source_ids = some (string "a" ∷ null ∷ string "a" ∷ []);
          })),
    )
    ∷ (1200, sync_requested)
    ∷ []

abbrev waiting : QueueSync
waiting = sync_turns (mounted true) turns

waiting_timer : waiting.timer ≡ some 1500
unfolding sync_turns
waiting_timer = refl

waiting_ids : waiting.queue_source_ids ≡ "a" ∷ []
unfolding sync_turns
waiting_ids = refl

waiting_active : waiting.active_scraper ≡ none
unfolding sync_turns is_space
waiting_active = refl

waiting_enabled : waiting.scraper_enabled ≡ true
unfolding sync_turns
waiting_enabled = refl

waiting_pending : waiting.pending ≡ true
unfolding sync_turns
waiting_pending = refl

waiting_free : waiting.in_flight ≡ false
unfolding sync_turns
waiting_free = refl

-- A late timer: the throttle time is over when another request comes first, its call is answered
-- at once, and then the timer makes a call a millisecond later.
early_call :
    (sync_turns waiting
      ((1501, sync_requested) ∷ (1501, call_answered none) ∷ (1502, fired) ∷ [])).calls
    ≡ 3
unfolding sync_turns
early_call = refl

sync_turns-IsTracked_example : IsTracked (sync_turns (mounted true) turns)
sync_turns-IsTracked_example = sync_turns-IsTracked true turns

sync_turn-calls_example :
    ((sync_turn waiting (1300, sync_requested)).calls ≡ waiting.calls) ⊎ MayCall 1300 waiting
sync_turn-calls_example = sync_turn-calls waiting 1300 sync_requested (λ e. cc)
