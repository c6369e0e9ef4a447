-- ===== src/Scraper/Sound/Turns.antt =====
-- Every turn of the hook keeps it sound.
use glanceus.Prelude.{ℕ, String, Bool, Option, none, some, List, [], ◌∷◌, if_rule, get_elem?, arith}
use glanceus.AppStore.{AppState}
use glanceus.AppStore.Toasts
use glanceus.QueueSync.{sync_requested, call_answered, fired}
use glanceus.Scraper.State.{
  Runtime, Await, settings_asked, Scraper, wait, run_sync, given, same_text, fresh,
}
use glanceus.Scraper.Events.{scraper_lifecycle_log, scraper_result, scraper_auth_required}
use glanceus.Scraper.Handlers.{Answer}
use glanceus.Scraper.Turns.{
  or_option, arm_task_timer, without_timer, time_task, same_token, see, render, task_timed_out,
  answered_at, resume_one, Turn, logged, scraped, blocked, interval_ticks, sync_answered,
  sync_timer_fires, renders, task_timer_fires, skips, clears, shows, pushes, answers, uses_store,
  if_enabled, turn, turns, mount,
}
use glanceus.Scraper.Sound.{IsSound, dispatch-IsSound, run_sync-IsSound}
use glanceus.Scraper.Sound.Events.{
  scraper_lifecycle_log-IsSound, scraper_result-IsSound, scraper_auth_required-IsSound,
}
use glanceus.Scraper.Sound.Handlers.{
  handle_skip-IsSound, handle_clear-IsSound, handle_push-IsSound, handle_show-IsSound,
  resume-IsSound,
}

module _ (r : Runtime) where
  arm_task_timer-IsSound :
      (now : ℕ) (source_id task_id : Option String) (s : Scraper)
      → IsSound r s
      → IsSound r (arm_task_timer now source_id task_id s)
  arm_task_timer-IsSound now none task_id s h = h
  arm_task_timer-IsSound now (some source_id) none s h = h
  arm_task_timer-IsSound now (some source_id) (some task_id) s h = h

  time_task-IsSound :
      (now : ℕ) (token : Option String) (s : Scraper)
      → IsSound r s
      → IsSound r (time_task now token s)
  time_task-IsSound now none s h = h
  time_task-IsSound now (some token) s h =
      if_rule (IsSound r) s.sync.scraper_enabled
        (λ on.
          arm_task_timer-IsSound now
            (given (or_option s.active_task_source_id s.active_scraper_ref))
            (given s.active_task_id) s h)
        λ off. h

  render-IsSound : (now : ℕ) (s : Scraper) → IsSound r s → IsSound r (render now s)
  unfolding render
  render-IsSound now s h =
      if_rule (IsSound r) (same_token s.active_task_token s.timer_token) (λ same. h)
        λ other.
          time_task-IsSound now (given s.active_task_token)
            (without_timer (record (see s) { timer_token = s.active_task_token })) h

  task_timed_out-IsSound :
      (timer : Option (ℕ × String × String)) (s : Scraper)
      → IsSound r s
      → IsSound r (task_timed_out timer s)
  task_timed_out-IsSound none s h = h
  task_timed_out-IsSound (some (due, source_id, task_id)) s h =
      if_rule (IsSound r) (same_text s.active_task_id task_id) (λ own. h) λ other. h

  resume_one-IsSound :
      (now : ℕ) (w : Option Await) (i : ℕ) (a : Answer) (s : Scraper)
      → IsSound r s
      → IsSound r (resume_one r now w i a s)
  resume_one-IsSound now none i a s h = h
  resume_one-IsSound now (some w) i a s h =
      resume-IsSound r now w a (record s { waiting = answered_at s.waiting i }) h

  if_enabled-IsSound :
      (f : Scraper → Scraper) (s : Scraper)
      → IsSound r s
      → IsSound r (f s)
      → IsSound r (if_enabled f s)
  if_enabled-IsSound f s h k = if_rule (IsSound r) s.sync.scraper_enabled (λ on. k) λ off. h

  turn-IsSound : (now : ℕ) (t : Turn) (s : Scraper) → IsSound r s → IsSound r (turn r now t s)
  unfolding turn
  turn-IsSound now (logged log) s h =
      if_enabled-IsSound (scraper_lifecycle_log r now log) s h
        (scraper_lifecycle_log-IsSound r now log s h)
  turn-IsSound now (scraped e) s h =
      if_enabled-IsSound (scraper_result now e) s h (scraper_result-IsSound r now e s h)
  turn-IsSound now (blocked e) s h =
      if_enabled-IsSound (scraper_auth_required r now e) s h
        (scraper_auth_required-IsSound r now e s h)
  turn-IsSound now interval_ticks s h =
      if_enabled-IsSound (run_sync now sync_requested) s h
        (run_sync-IsSound r now sync_requested s h)
  turn-IsSound now (sync_answered snapshot) s h =
      run_sync-IsSound r now (call_answered snapshot) s h
  turn-IsSound now sync_timer_fires s h = run_sync-IsSound r now fired s h
  turn-IsSound now renders s h = render-IsSound now s h
  turn-IsSound now task_timer_fires s h = task_timed_out-IsSound s.task_timer s h
  turn-IsSound now skips s h = handle_skip-IsSound r s h
  turn-IsSound now clears s h = handle_clear-IsSound r s h
  turn-IsSound now shows s h = handle_show-IsSound r s h
  turn-IsSound now (pushes source foreground) s h = handle_push-IsSound r now source foreground s h
  turn-IsSound now (answers i a) s h = resume_one-IsSound now (get_elem? s.waiting i) i a s h
  turn-IsSound now (uses_store action) s h = dispatch-IsSound r now action s h

  turns_keep : (s : Scraper) (ts : List (ℕ × Turn)) → IsSound r s → IsSound r (turns r s ts)
  unfolding turns
  turns_keep s [] h = h
  turns_keep s ((now, t) ∷ ts) h = turns_keep (turn r now t s) ts (turn-IsSound now t s h)

-- After any history of turns of a hook that is mounted over a sound store: the store is sound, a
-- sync of the queue that is due has a call in flight or an armed timer, the logs are within their
-- limit, in order of time and without two of one key, and the token of the active task is made of
-- its source and its id.
pub turns-IsSound :
    (r : Runtime) (now : ℕ) (scraper_enabled : Bool) (store : AppState) (ts : List (ℕ × Turn))
    → Toasts.IsSound store
    → IsSound r (turns r (mount now scraper_enabled store) ts)
unfolding mount
turns-IsSound r now scraper_enabled store ts h =
    let start : IsSound r (fresh scraper_enabled store) =
      ((h, (λ due. absurd (ground (arith, due))), (omega arith, tt, tt)), tt) in
    turns_keep r (mount now scraper_enabled store) ts (
      if_enabled-IsSound r (λ s. run_sync now sync_requested (wait settings_asked s))
        (fresh scraper_enabled store) start
        (run_sync-IsSound r now sync_requested (wait settings_asked (fresh scraper_enabled store))
          start))
