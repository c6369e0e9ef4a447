-- ===== src/Scraper/Sound/Events.antt =====
-- The listeners of the scraper's events keep the hook sound.
use glanceus.Prelude.{ℕ, String, Option, none, some, [], ◌∷◌, if_rule, includes}
use glanceus.QueueSync.{sync_requested}
use glanceus.AppStore.{set_active_scraper}
use glanceus.Scraper.Logs.{ScraperLifecycleLog}
use glanceus.Scraper.State.{Runtime, Scraper, dispatch, given, is_stale, reset_task}
use glanceus.Scraper.Events.{
  active_stages, terminal_stages, skipped_stages, log_active, log_terminal, log_skipped, log_synced,
  log_stages, scraper_lifecycle_log, ScraperResult, adopt_task, take_result, scraper_result,
  AuthRequired, suspend_sources, without_token, scraper_auth_required,
}
use glanceus.Scraper.Sound.{
  HasSoundParts, IsSound, dispatch-HasSoundParts, dispatch-IsSound, run_sync-IsSound,
  sync_error_logs-IsSound, merge_errors-IsSound, claim_task-IsSound, show_active-IsSound,
  hide_active-IsSound, skip_given-IsSound,
}

module _ (r : Runtime) where
  log_active-IsSound :
      (now : ℕ) (log : ScraperLifecycleLog) (s : Scraper)
      → IsSound r s
      → IsSound r (log_active now log s)
  log_active-IsSound now log s h =
      if_rule (IsSound r) (includes log.stage active_stages)
        (λ active.
          show_active-IsSound r now (given (some log.source_id)) _
            (claim_task-IsSound r (given (some log.task_id)) log.source_id s h))
        λ other. h

  log_terminal-IsSound :
      (now : ℕ) (log : ScraperLifecycleLog) (s : Scraper)
      → IsSound r s
      → IsSound r (log_terminal now log s)
  log_terminal-IsSound now log s h =
      if_rule (IsSound r) (includes log.stage terminal_stages)
        (λ end. hide_active-IsSound r now (given s.active_scraper_ref) (reset_task s) (h.0, tt))
        λ other. h

  log_skipped-IsSound :
      (now : ℕ) (log : ScraperLifecycleLog) (s : Scraper)
      → IsSound r s
      → IsSound r (log_skipped now log s)
  log_skipped-IsSound now log s h =
      if_rule (IsSound r) (includes log.stage skipped_stages)
        (λ skipped.
          sync_error_logs-IsSound r (some log.source_id) _
            (skip_given-IsSound r now (given (some log.source_id)) s h))
        λ other. h

  log_synced-IsSound :
      (now : ℕ) (log : ScraperLifecycleLog) (s : Scraper)
      → IsSound r s
      → IsSound r (log_synced now log s)
  log_synced-IsSound now log s h =
      if_rule (IsSound r) _ (λ known. run_sync-IsSound r now sync_requested s h) λ other. h

  log_stages-IsSound :
      (now : ℕ) (log : ScraperLifecycleLog) (s : Scraper)
      → IsSound r s
      → IsSound r (log_stages now log s)
  log_stages-IsSound now log s h =
      let rest =
        log_synced-IsSound now log _
          (log_skipped-IsSound now log _ (log_terminal-IsSound now log s h)) in
      if_rule (IsSound r) (includes log.stage terminal_stages)
        (λ end. if_rule (IsSound r) (is_stale (some log.task_id) s) (λ stale. h) λ own. rest)
        λ other. rest

  pub scraper_lifecycle_log-IsSound :
      (now : ℕ) (log : ScraperLifecycleLog) (s : Scraper)
      → IsSound r s
      → IsSound r (scraper_lifecycle_log r now log s)
  unfolding scraper_lifecycle_log
  scraper_lifecycle_log-IsSound now log s h =
      log_stages-IsSound now log _
        (log_active-IsSound now log _ (merge_errors-IsSound r (log ∷ []) s h))

  adopt_task-HasSoundParts :
      (task_id : Option String) (source_id : String) (s : Scraper)
      → HasSoundParts r s
      → HasSoundParts r (adopt_task task_id source_id s)
  adopt_task-HasSoundParts none source_id s h = h
  adopt_task-HasSoundParts (some task_id) source_id s h = h

  take_result-IsSound :
      (now : ℕ) (error : Option String) (e : ScraperResult) (s : Scraper)
      → IsSound r s
      → IsSound r (take_result now error e s)
  take_result-IsSound now none e s h = h
  take_result-IsSound now (some message) e s h =
      sync_error_logs-IsSound r (some e.source_id) _ (dispatch-IsSound r now _ s h)

  pub scraper_result-IsSound :
      (now : ℕ) (e : ScraperResult) (s : Scraper) → IsSound r s → IsSound r (scraper_result now e s)
  unfolding scraper_result
  scraper_result-IsSound now e s h =
      if_rule (IsSound r) (is_stale e.task_id s) (λ stale. h)
        λ own. take_result-IsSound now (given e.error) e _ (
          dispatch-HasSoundParts r now (set_active_scraper none)
              (adopt_task (given e.task_id) e.source_id s)
              (adopt_task-HasSoundParts (given e.task_id) e.source_id s (h.0)),
          tt,
        )

  suspend_sources-IsSound :
      (now : ℕ) (e : AuthRequired) (s : Scraper)
      → IsSound r s
      → IsSound r (suspend_sources r now e s)
  suspend_sources-IsSound now e s h = dispatch-IsSound r now _ s h

  pub scraper_auth_required-IsSound :
      (now : ℕ) (e : AuthRequired) (s : Scraper)
      → IsSound r s
      → IsSound r (scraper_auth_required r now e s)
  unfolding scraper_auth_required
  scraper_auth_required-IsSound now e s h =
      if_rule (IsSound r) (is_stale e.task_id s) (λ stale. h)
        λ own.
          suspend_sources-IsSound now e
            (dispatch now (set_active_scraper none)
              (without_token (adopt_task (given e.task_id) e.source_id s)))
            (dispatch-IsSound r now (set_active_scraper none)
              (without_token (adopt_task (given e.task_id) e.source_id s))
              (adopt_task-HasSoundParts (given e.task_id) e.source_id s (h.0), tt))
