-- ===== src/QueueSync.antt =====
-- ui-react/src/hooks/useScraper.ts: how the hook keeps its picture of the scraper's queue, which
-- the desktop shell holds, by calls that are throttled. A turn is a request for a sync, the answer
-- to the call in flight, or the trailing timer; it carries the time that Date.now gives in it.
pub mod Throttle
mod Tests
use glanceus.Prelude.{
  ℕ, ◌+◌, ◌==◌, leb, String, Bool, true, false, not, ◌||◌, Option, none, some, List, [], ◌∷◌,
  if◌then◌else◌, dedupe,
}
use glanceus.Prelude.Value.{Value, string, undefined}
use glanceus.Prelude.Text.{is_space}
use Prim.Native.Char.{code}

abbrev pub queue_snapshot_sync_throttle_ms : ℕ
queue_snapshot_sync_throttle_ms = 500

-- ScraperQueueSnapshot: queue_source_ids is `none` where it is not an array.
pub record ScraperQueueSnapshot : Type 0 where
  pub active_source_id : Value
  pub queue_source_ids : Option (List Value)

-- The refs and the state of the hook, and how many calls it has made.
pub record QueueSync : Type 0 where
  pub scraper_enabled : Bool
  pub last_run_at : ℕ
  pub pending : Bool
  pub in_flight : Bool
  pub timer : Option ℕ
  pub queue_source_ids : List String
  pub active_scraper : Option String
  pub calls : ℕ

abbrev pub mounted : Bool → QueueSync
mounted scraper_enabled = record {
  scraper_enabled = scraper_enabled;
  last_run_at = 0;
  pending = false;
  in_flight = false;
  timer = none;
  queue_source_ids = [];
  active_scraper = none;
  calls = 0;
}

abbrev strings_of : List Value → List String
strings_of [] = []
strings_of (string s ∷ vs) = s ∷ strings_of vs
strings_of (_ ∷ vs) = strings_of vs

abbrev is_only_spaces : String → Bool
is_only_spaces String.[] = true
is_only_spaces (String.◌∷◌ c s) =
    let rest = is_only_spaces s in if is_space (code c) then rest else false

-- The active source: a string that `trim` does not empty.
unfoldable pub active_source : Value → Option String
active_source (string s) = if is_only_spaces s then none else some s
active_source _ = none

abbrev store_ids : Option (List Value) → Value → QueueSync → QueueSync
store_ids none active c = c
store_ids (some ids) active c = record c {
  queue_source_ids = dedupe (strings_of ids);
  active_scraper = active_source active;
}

-- syncQueueSnapshotFromRust after its await: `none` for a call that fails or gives nothing.
unfoldable pub sync_queue_snapshot_from_rust : Option ScraperQueueSnapshot → QueueSync → QueueSync
unfolding active_source
sync_queue_snapshot_from_rust none c = c
sync_queue_snapshot_from_rust (some snapshot) c =
    store_ids snapshot.queue_source_ids snapshot.active_source_id c

-- scheduleTrailingQueueSnapshotSync. Both callers wait for what is left of the throttle time, so
-- the timer is due when that is over.
abbrev arm : Option ℕ → QueueSync → QueueSync
arm none c = record c { timer = some (c.last_run_at + queue_snapshot_sync_throttle_ms) }
arm (some due) c = c

unfoldable pub schedule_trailing_queue_snapshot_sync : QueueSync → QueueSync
schedule_trailing_queue_snapshot_sync c = arm c.timer c

-- runQueueSnapshotSync, up to its await.
unfoldable pub run_queue_snapshot_sync : ℕ → QueueSync → QueueSync
run_queue_snapshot_sync now c =
    if not c.scraper_enabled
    then c
    else if c.in_flight
    then record c { pending = true }
    else record c { in_flight = true; last_run_at = now; calls = c.calls + 1 }

-- `elapsedMs >= QUEUE_SNAPSHOT_SYNC_THROTTLE_MS`.
abbrev pub has_elapsed : ℕ → QueueSync → Bool
has_elapsed now c = leb (c.last_run_at + queue_snapshot_sync_throttle_ms) now

-- The finally clause of runQueueSnapshotSync.
unfoldable pub release : ℕ → QueueSync → QueueSync
unfolding run_queue_snapshot_sync schedule_trailing_queue_snapshot_sync
release now c =
    if not c.pending
    then record c { in_flight = false }
    else if has_elapsed now c
    then run_queue_snapshot_sync now (record c { in_flight = false; pending = false })
    else schedule_trailing_queue_snapshot_sync (record c { in_flight = false })

-- requestQueueSnapshotSync.
unfoldable pub request_queue_snapshot_sync : ℕ → QueueSync → QueueSync
unfolding run_queue_snapshot_sync schedule_trailing_queue_snapshot_sync
request_queue_snapshot_sync now c =
    if not c.scraper_enabled
    then c
    else if (c.last_run_at == 0) || has_elapsed now c
    then run_queue_snapshot_sync now c
    else schedule_trailing_queue_snapshot_sync (record c { pending = true })

-- The callback of the trailing timer.
unfoldable pub timer_fired : ℕ → QueueSync → QueueSync
unfolding run_queue_snapshot_sync
timer_fired now c =
    if not c.pending
    then record c { timer = none }
    else run_queue_snapshot_sync now (record c { timer = none; pending = false })

pub data SyncTurn : Type 0 where
  sync_requested : SyncTurn
  call_answered : Option ScraperQueueSnapshot → SyncTurn
  fired : SyncTurn

-- A turn. An answer comes only to a call in flight, and only an armed timer fires.
abbrev pub when_armed : Option ℕ → ℕ → QueueSync → QueueSync
when_armed none now c = c
when_armed (some due) now c = timer_fired now c

unfoldable pub sync_turn : QueueSync → ℕ × SyncTurn → QueueSync
unfolding release request_queue_snapshot_sync timer_fired sync_queue_snapshot_from_rust
sync_turn c (now, sync_requested) = request_queue_snapshot_sync now c
sync_turn c (now, call_answered answer) =
    if c.in_flight then release now (sync_queue_snapshot_from_rust answer c) else c
sync_turn c (now, fired) = when_armed c.timer now c

unfoldable pub sync_turns : QueueSync → List (ℕ × SyncTurn) → QueueSync
unfolding sync_turn
sync_turns c [] = c
sync_turns c (t ∷ ts) = sync_turns (sync_turn c t) ts
