-- ===== src/Scraper/Sound/Handlers.antt =====
-- The functions of the hook, and what follows their awaits, keep the hook sound.
use glanceus.Prelude.{
  ℕ, String, Bool, Option, none, some, List, [], ◌∷◌, if_rule, if◌then◌else◌, str_eq, not, filter,
}
use glanceus.Prelude.Value.{Value}
use glanceus.Coordinator.State.{Summary}
use glanceus.AppStore.{act, set_skipped_scrapers, skips_scraper}
use glanceus.Scraper.Logs.{Logs, error_logs_of}
use glanceus.Scraper.Logs.Merged.{errors-IsTidy}
use glanceus.Scraper.State.{
  Runtime, ScraperTask, Cleared, Await, settings_asked, error_logs_asked, skip_cancel, skip_logs,
  clear_cancel, clear_queue, promote_retry, clear_source, push_task, refresh_asked, promote_shown,
  show_window, result_sources, result_interact, result_fallback, timeout_cancel, timeout_logs,
  Scraper, dispatch, given, same_text, key_of, store_error_logs,
}
use glanceus.Scraper.Events.{skip_given}
use glanceus.Scraper.Handlers.{
  Answer, refused, resolved, promoted, error_logs, sources, settings, skip_active,
  handle_skip_scraper, finish_skip, clear_active, handle_clear_scraper_queue, new_skipped,
  finish_clear, task_of, start_task, handle_push_to_queue, handle_show_scraper_window,
  finish_timeout, source_with, is_resumed, is_refused, is_promoted, logs_in, take_result_sources,
  take_fallback, resume,
}
use glanceus.Scraper.Sound.{
  IsSound, dispatch-HasSoundParts, dispatch-IsSound, drop_task-IsSound, merge_errors-IsSound,
  skip_given-IsSound,
}

module _ (r : Runtime) where
  skip_active-IsSound :
      (active : Option String) (s : Scraper) → IsSound r s → IsSound r (skip_active active s)
  skip_active-IsSound none s h = h
  skip_active-IsSound (some active) s h = h

  pub handle_skip-IsSound : (s : Scraper) → IsSound r s → IsSound r (handle_skip_scraper s)
  unfolding handle_skip_scraper
  handle_skip-IsSound s h =
      if_rule (IsSound r) s.sync.scraper_enabled
        (λ on. skip_active-IsSound (given s.active_scraper_ref) s h) λ off. h

  finish_skip-IsSound :
      (now : ℕ) (active : String) (s : Scraper) → IsSound r s → IsSound r (finish_skip now active s)
  unfolding finish_skip
  finish_skip-IsSound now active s h =
      drop_task-IsSound r now (dispatch now (skips_scraper active) s)
        (dispatch-HasSoundParts r now (skips_scraper active) s (h.0))

  clear_active-IsSound :
      (active : Option String) (s : Scraper) → IsSound r s → IsSound r (clear_active active s)
  clear_active-IsSound none s h = h
  clear_active-IsSound (some active) s h = h

  pub handle_clear-IsSound : (s : Scraper) → IsSound r s → IsSound r (handle_clear_scraper_queue s)
  unfolding handle_clear_scraper_queue
  handle_clear-IsSound s h =
      if_rule (IsSound r) s.sync.scraper_enabled
        (λ on. clear_active-IsSound (given s.active_scraper_ref) s h) λ off. h

  finish_clear-IsSound :
      (now : ℕ) (c : Cleared) (s : Scraper) → IsSound r s → IsSound r (finish_clear now c s)
  unfolding finish_clear
  finish_clear-IsSound now c s h =
      let store = dispatch-HasSoundParts r now (set_skipped_scrapers (new_skipped c)) s (h.0) in
      let cleared =
        drop_task-IsSound r now
          (record s {
            store = act now (set_skipped_scrapers (new_skipped c)) s.store;
            sync = record s.sync { queue_source_ids = [] };
          })
          store in
      ((cleared.0.0, cleared.0.1, errors-IsTidy (key_of r) s.scraper_logs (h.0.2)), cleared.1)

  start_task-IsSound :
      (now : ℕ) (url : List ℕ) (task : ScraperTask) (s : Scraper)
      → IsSound r s
      → IsSound r (start_task r now url task s).1
  start_task-IsSound now [] task s h = dispatch-IsSound r now _ s h
  start_task-IsSound now (c ∷ url) task s h = h

  pub handle_push-IsSound :
      (now : ℕ) (source : Summary) (foreground : Bool) (s : Scraper)
      → IsSound r s
      → IsSound r (handle_push_to_queue r now source foreground s).1
  unfolding handle_push_to_queue
  handle_push-IsSound now source foreground s h =
      let unskipped =
        dispatch-IsSound r now
          (set_skipped_scrapers (filter (λ id. not (str_eq id source.id)) s.store.skipped_scrapers))
          s h in
      if_rule (λ (p : Bool × Scraper). IsSound r (p.1)) (not s.sync.scraper_enabled)
        (λ off. dispatch-IsSound r now _ s h)
        λ on.
          if_rule (λ (p : Bool × Scraper). IsSound r (p.1)) foreground
            (λ front. start_task-IsSound now (task_of r source).url (task_of r source) _ unskipped)
            λ back. unskipped

  pub handle_show-IsSound : (s : Scraper) → IsSound r s → IsSound r (handle_show_scraper_window s)
  unfolding handle_show_scraper_window
  handle_show-IsSound s h = if_rule (IsSound r) s.sync.scraper_enabled (λ on. h) (λ off. h)

  finish_timeout-IsSound :
      (now : ℕ) (source_id task_id : String) (s : Scraper)
      → IsSound r s
      → IsSound r (finish_timeout now source_id task_id s)
  unfolding finish_timeout
  finish_timeout-IsSound now source_id task_id s h =
      if_rule (IsSound r) (same_text s.active_task_id task_id)
        (λ own.
          drop_task-IsSound r now (dispatch now (skips_scraper source_id) s)
            (dispatch-HasSoundParts r now (skips_scraper source_id) s (h.0)))
        λ other. h

  store_error_logs-IsSound :
      (logs : Logs) (s : Scraper) → IsSound r s → IsSound r (store_error_logs r logs s)
  store_error_logs-IsSound logs s h = merge_errors-IsSound r (error_logs_of logs) s h

  take_result_sources-IsSound :
      (now : ℕ) (source_id secret_key : String) (v : Value) (a : Answer) (s : Scraper)
      → IsSound r s
      → IsSound r (take_result_sources now source_id secret_key v a s)
  take_result_sources-IsSound now source_id secret_key v (sources list) s h =
      if_rule (IsSound r) (is_resumed (source_with list source_id))
        (λ resumed. dispatch-IsSound r now _ s h) λ suspended. dispatch-IsSound r now _ s h
  take_result_sources-IsSound now source_id secret_key v refused s h = h
  take_result_sources-IsSound now source_id secret_key v resolved s h = h
  take_result_sources-IsSound now source_id secret_key v (promoted b) s h = h
  take_result_sources-IsSound now source_id secret_key v (error_logs logs) s h = h
  take_result_sources-IsSound now source_id secret_key v (settings w) s h = h

  take_fallback-IsSound :
      (now : ℕ) (a : Answer) (s : Scraper) → IsSound r s → IsSound r (take_fallback now a s)
  take_fallback-IsSound now (sources list) s h = dispatch-IsSound r now _ s h
  take_fallback-IsSound now refused s h = h
  take_fallback-IsSound now resolved s h = h
  take_fallback-IsSound now (promoted b) s h = h
  take_fallback-IsSound now (error_logs logs) s h = h
  take_fallback-IsSound now (settings w) s h = h

  -- What follows a call that is refused, and otherwise.
  or_refused :
      (a : Answer) (x y : Scraper)
      → IsSound r x
      → IsSound r y
      → IsSound r (if is_refused a then x else y)
  or_refused a x y h k = if_rule (IsSound r) (is_refused a) (λ no. h) (λ yes. k)

  pub resume-IsSound :
      (now : ℕ) (w : Await) (a : Answer) (s : Scraper)
      → IsSound r s
      → IsSound r (resume r now w a s)
  unfolding resume
  resume-IsSound now settings_asked a s h = h
  resume-IsSound now (error_logs_asked source_id) a s h = store_error_logs-IsSound (logs_in a) s h
  resume-IsSound now (skip_cancel active) a s h =
      or_refused a _ _ (finish_skip-IsSound now active s h) h
  resume-IsSound now (skip_logs active) a s h =
      finish_skip-IsSound now active (store_error_logs r (logs_in a) s)
        (store_error_logs-IsSound (logs_in a) s h)
  resume-IsSound now (clear_cancel c) a s h = h
  resume-IsSound now (clear_queue c) a s h = finish_clear-IsSound now c s h
  resume-IsSound now (promote_retry task) a s h = or_refused a _ _ (dispatch-IsSound r now _ s h) (
      if_rule (IsSound r) (is_promoted a) (λ front. dispatch-IsSound r now _ s h)
        λ back. dispatch-IsSound r now _ s h)
  resume-IsSound now (clear_source task) a s h = or_refused a _ _ (dispatch-IsSound r now _ s h) h
  resume-IsSound now (push_task task) a s h = or_refused a _ _ (dispatch-IsSound r now _ s h) h
  resume-IsSound now (refresh_asked source_id) a s h =
      or_refused a _ _ (dispatch-IsSound r now _ s h) h
  resume-IsSound now promote_shown a s h = or_refused a _ _ h (
      if_rule (IsSound r) (is_promoted a)
        (λ front.
          drop_task-IsSound r now (skip_given now (given s.active_scraper_ref) s)
            (skip_given-IsSound r now (given s.active_scraper_ref) s h).0)
        λ back. h)
  resume-IsSound now show_window a s h = h
  resume-IsSound now (result_sources source_id secret_key v) a s h =
      take_result_sources-IsSound now source_id secret_key v a s h
  resume-IsSound now (result_interact source_id secret_key v) a s h = or_refused a _ _ h h
  resume-IsSound now result_fallback a s h = take_fallback-IsSound now a s h
  resume-IsSound now (timeout_cancel source_id task_id) a s h =
      or_refused a _ _ (finish_timeout-IsSound now source_id task_id s h) h
  resume-IsSound now (timeout_logs source_id task_id) a s h =
      finish_timeout-IsSound now source_id task_id (store_error_logs r (logs_in a) s)
        (store_error_logs-IsSound (logs_in a) s h)
