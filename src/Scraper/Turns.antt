-- ===== src/Scraper/Turns.antt =====
-- useScraper.ts: the hook's turns. Between two of them the rest of the application may use the
-- store. A render and the effects that follow it are one turn; that of a task's timer runs when
-- the token has changed since it last ran.
use glanceus.Prelude.{
  ℕ, zero, suc, ◌+◌, ◌*◌, max, str_eq, String, Bool, true, false, Option, none, some, List, [], ◌∷◌,
  if◌then◌else◌, get_elem?,
}
use glanceus.Coordinator.State.{Summary}
use glanceus.AppStore.{AppState, Action}
use glanceus.QueueSync.{ScraperQueueSnapshot, sync_requested, call_answered, fired}
use glanceus.Scraper.Logs.{ScraperLifecycleLog}
use glanceus.Scraper.State.{
  Runtime, Await, settings_asked, timeout_cancel, Scraper, fresh, wait, dispatch, run_sync, given,
  same_text,
}
use glanceus.Scraper.Events.{
  scraper_lifecycle_log, ScraperResult, scraper_result, AuthRequired, scraper_auth_required,
}
use glanceus.Scraper.Handlers.{
  Answer, handle_skip_scraper, handle_clear_scraper_queue, handle_push_to_queue,
  handle_show_scraper_window, resume,
}

-- The timeout of the active task: its source is that of the task, or else of the last render.
abbrev pub or_option : Option String → Option String → Option String
or_option none b = b
or_option (some a) b = some a

abbrev pub arm_task_timer : ℕ → Option String → Option String → Scraper → Scraper
arm_task_timer now (some source_id) (some task_id) s = record s {
  task_timer = some (now + max s.task_timeout_seconds 1 * 1000, source_id, task_id);
}
arm_task_timer now _ _ s = s

abbrev pub without_timer : Scraper → Scraper
without_timer s = record s { task_timer = none }

abbrev pub time_task : ℕ → Option String → Scraper → Scraper
time_task now none s = s
time_task now (some token) s =
    if s.sync.scraper_enabled
    then arm_task_timer now (given (or_option s.active_task_source_id s.active_scraper_ref))
        (given s.active_task_id) s
    else s

abbrev pub same_token : Option String → Option String → Bool
same_token none none = true
same_token (some t) (some u) = str_eq t u
same_token _ _ = false

abbrev pub timer_effect : ℕ → Scraper → Scraper
timer_effect now s =
    if same_token s.active_task_token s.timer_token
    then s
    else time_task now (given s.active_task_token)
        (without_timer (record s { timer_token = s.active_task_token }))

abbrev pub see : Scraper → Scraper
see s = record s {
  active_scraper_ref = s.store.active_scraper;
  skipped_rendered = s.store.skipped_scrapers;
  queue_rendered = s.sync.queue_source_ids;
}

unfoldable pub render : ℕ → Scraper → Scraper
render now s = timer_effect now (see s)

-- The callback of the task's timer.
abbrev pub task_timed_out : Option (ℕ × String × String) → Scraper → Scraper
task_timed_out none s = s
task_timed_out (some (due, source_id, task_id)) s =
    if same_text s.active_task_id task_id
    then wait (timeout_cancel source_id task_id) (without_timer s)
    else without_timer s

-- The call at a place of the list is over.
abbrev pub answered_at : List Await → ℕ → List Await
answered_at [] i = []
answered_at (a ∷ as') zero = as'
answered_at (a ∷ as') (suc i) = a ∷ answered_at as' i

abbrev pub resume_one : Runtime → ℕ → Option Await → ℕ → Answer → Scraper → Scraper
resume_one r now none i answer s = s
resume_one r now (some a) i answer s =
    resume r now a answer (record s { waiting = answered_at s.waiting i })

pub data Turn : Type 0 where
  logged : ScraperLifecycleLog → Turn
  scraped : ScraperResult → Turn
  blocked : AuthRequired → Turn
  interval_ticks : Turn
  sync_answered : Option ScraperQueueSnapshot → Turn
  sync_timer_fires : Turn
  renders : Turn
  task_timer_fires : Turn
  skips clears shows : Turn
  pushes : Summary → Bool → Turn
  answers : ℕ → Answer → Turn
  uses_store : Action → Turn

-- The hook listens to events, and its interval runs, only if it is enabled.
abbrev pub if_enabled : (Scraper → Scraper) → Scraper → Scraper
if_enabled f s = if s.sync.scraper_enabled then f s else s

unfoldable pub turn : Runtime → ℕ → Turn → Scraper → Scraper
unfolding scraper_lifecycle_log scraper_result scraper_auth_required render resume
turn r now (logged log) s = if_enabled (scraper_lifecycle_log r now log) s
turn r now (scraped e) s = if_enabled (scraper_result now e) s
turn r now (blocked e) s = if_enabled (scraper_auth_required r now e) s
turn r now interval_ticks s = if_enabled (run_sync now sync_requested) s
turn r now (sync_answered snapshot) s = run_sync now (call_answered snapshot) s
turn r now sync_timer_fires s = run_sync now fired s
turn r now renders s = render now s
turn r now task_timer_fires s = task_timed_out s.task_timer s
turn r now skips s = handle_skip_scraper s
turn r now clears s = handle_clear_scraper_queue s
turn r now shows s = handle_show_scraper_window s
turn r now (pushes source foreground) s = (handle_push_to_queue r now source foreground s).1
turn r now (answers i answer) s = resume_one r now (get_elem? s.waiting i) i answer s
turn r now (uses_store action) s = dispatch now action s

unfoldable pub turns : Runtime → Scraper → List (ℕ × Turn) → Scraper
unfolding turn
turns r s [] = s
turns r s ((now, t) ∷ ts) = turns r (turn r now t s) ts

-- The effects of the mount: the settings are asked for, and the queue's sync.
unfoldable pub mount : ℕ → Bool → AppState → Scraper
mount now scraper_enabled store =
    if_enabled (λ s. run_sync now sync_requested (wait settings_asked s))
      (fresh scraper_enabled store)
