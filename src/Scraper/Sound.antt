-- ===== src/Scraper/Sound.antt =====
-- After any turns of the hook: the store is sound, the queue's sync is tracked, the logs are tidy,
-- and the token is that of the active task.
pub mod Events
pub mod Handlers
pub mod Turns
use glanceus.Prelude.{
  ℕ, ◌≡◌, refl, String, Bool, true, false, Option, none, some, List, [], ◌∷◌, if_rule, get_elem?,
  arith,
}
use glanceus.Prelude.Value.{Value}
use glanceus.Coordinator.State.{Summary}
use glanceus.AppStore.{AppState, Action, act}
use glanceus.AppStore.Toasts
use glanceus.QueueSync.{QueueSync, SyncTurn, sync_turn}
use glanceus.QueueSync.Throttle.{IsTracked, sync_turn-IsTracked}
use glanceus.Scraper.Logs.{ScraperLifecycleLog, Logs}
use glanceus.Scraper.Logs.Merged.{IsTidy, merge_scraper_logs-IsTidy, errors-IsTidy}
use glanceus.Scraper.State.{
  Runtime, ScraperTask, Cleared, Await, settings_asked, error_logs_asked, skip_cancel, skip_logs,
  clear_cancel, clear_queue, promote_retry, clear_source, push_task, refresh_asked, promote_shown,
  show_window, result_sources, result_interact, result_fallback, timeout_cancel, timeout_logs,
  Scraper, default_scraper_timeout_seconds, wait, dispatch, run_sync, given, same_text, differ,
  is_stale, reset_task, drop_task, sync_error_logs_from_memory, key_of, merge_errors,
  store_error_logs, read_optional, show_failure, task_token, fresh,
}
use glanceus.Scraper.Events.{
  active_stages, terminal_stages, skipped_stages, claim_task, show_active, log_active, hide_active,
  log_terminal, skip_given, log_skipped, log_synced, log_stages, scraper_lifecycle_log,
  ScraperResult, adopt_task, take_result, scraper_result, AuthRequired, or_value, entries_or_none,
  blocked_interaction, blocked_message, suspend_source, suspend_sources, without_token,
  scraper_auth_required,
}
use glanceus.Scraper.Handlers.{
  Answer, refused, resolved, promoted, error_logs, sources, settings, skip_active,
  handle_skip_scraper, finish_skip, rendered, clear_active, handle_clear_scraper_queue, to_list,
  new_skipped, finish_clear, text_or_none, or_webview_data, data_field, task_of, start_task,
  handle_push_to_queue, handle_show_scraper_window, finish_timeout, source_with, is_resumed,
  take_sources, timeout_of, timeout_in, is_refused, is_promoted, logs_in, retry_failed,
  take_result_sources, take_fallback, resume,
}
use glanceus.Scraper.Turns.{
  or_option, arm_task_timer, without_timer, time_task, same_token, timer_effect, see, render,
  task_timed_out, answered_at, resume_one, Turn, logged, scraped, blocked, interval_ticks,
  sync_answered, sync_timer_fires, renders, task_timer_fires, skips, clears, shows, pushes, answers,
  uses_store, if_enabled, turn, turns, mount,
}

-- The token is made of the active task's source and id.
abbrev pub IsTokenOf : Option String → Option String → Option String → Type 0
IsTokenOf none source_id task_id = Unit
IsTokenOf (some token) (some source_id) (some task_id) = token ≡ task_token source_id task_id
IsTokenOf (some token) _ _ = ⊥

abbrev pub HasSoundParts : Runtime → Scraper → Type 0
HasSoundParts r s = Toasts.IsSound s.store × IsTracked s.sync × IsTidy (key_of r) s.scraper_logs

abbrev pub IsSound : Runtime → Scraper → Type 0
IsSound r s =
    HasSoundParts r s × IsTokenOf s.active_task_token s.active_task_source_id s.active_task_id

module _ (r : Runtime) where
  -- A use of the store leaves the rest of the hook alone.
  pub dispatch-HasSoundParts :
      (now : ℕ) (a : Action) (s : Scraper) → HasSoundParts r s → HasSoundParts r (dispatch now a s)
  dispatch-HasSoundParts now a s h = (Toasts.act-IsSound now a s.store (h.0), h.1, h.2)

  pub dispatch-IsSound :
      (now : ℕ) (a : Action) (s : Scraper) → IsSound r s → IsSound r (dispatch now a s)
  dispatch-IsSound now a s h = (dispatch-HasSoundParts now a s (h.0), h.1)

  pub run_sync-IsSound :
      (now : ℕ) (t : SyncTurn) (s : Scraper) → IsSound r s → IsSound r (run_sync now t s)
  run_sync-IsSound now t s h = (
    (
      Toasts.act-IsSound now _ s.store (h.0.0),
      sync_turn-IsTracked (record s.sync { active_scraper = s.store.active_scraper }) (now, t)
          (h.0.1),
      h.0.2,
    ),
    h.1,
  )

  pub drop_task-IsSound : (now : ℕ) (s : Scraper) → HasSoundParts r s → IsSound r (drop_task now s)
  drop_task-IsSound now s h = (dispatch-HasSoundParts now _ (reset_task s) h, tt)

  pub sync_error_logs-IsSound :
      (source_id : Option String) (s : Scraper)
      → IsSound r s
      → IsSound r (sync_error_logs_from_memory source_id s)
  sync_error_logs-IsSound source_id s h =
      if_rule (IsSound r) s.sync.scraper_enabled (λ on. h) (λ off. h)

  pub merge_errors-IsSound :
      (logs : Logs) (s : Scraper) → IsSound r s → IsSound r (merge_errors r logs s)
  merge_errors-IsSound [] s h = h
  merge_errors-IsSound (log ∷ logs) s h = (
    (h.0.0, h.0.1, merge_scraper_logs-IsTidy (key_of r) s.scraper_logs (log ∷ logs) (h.0.2)),
    h.1,
  )

  pub claim_task-IsSound :
      (task_id : Option String) (source_id : String) (s : Scraper)
      → IsSound r s
      → IsSound r (claim_task task_id source_id s)
  claim_task-IsSound none source_id s h = h
  claim_task-IsSound (some task_id) source_id s h = (h.0, refl)

  pub show_active-IsSound :
      (now : ℕ) (source_id : Option String) (s : Scraper)
      → IsSound r s
      → IsSound r (show_active now source_id s)
  show_active-IsSound now none s h = h
  show_active-IsSound now (some source_id) s h =
      if_rule (IsSound r) (same_text s.active_scraper_ref source_id) (λ same. h)
        λ other. dispatch-IsSound now _ s h

  pub hide_active-IsSound :
      (now : ℕ) (active : Option String) (s : Scraper)
      → IsSound r s
      → IsSound r (hide_active now active s)
  hide_active-IsSound now none s h = h
  hide_active-IsSound now (some active) s h = dispatch-IsSound now _ s h

  pub skip_given-IsSound :
      (now : ℕ) (source_id : Option String) (s : Scraper)
      → IsSound r s
      → IsSound r (skip_given now source_id s)
  skip_given-IsSound now none s h = h
  skip_given-IsSound now (some source_id) s h = dispatch-IsSound now _ s h
