-- ===== src/Scraper/Events.antt =====
-- useScraper.ts: what the hook does when the shell reports an event of the scraper.
use glanceus.Prelude.{
  ℕ, str_eq, String, true, ◌||◌, Option, none, some, List, [], ◌∷◌, map, if◌then◌else◌, includes,
}
use glanceus.Prelude.Dict.{set}
use glanceus.Prelude.Value.{Value, boolean, string, is_truthy}
use glanceus.Coordinator.State.{Summary}
use glanceus.AppStore.{set_active_scraper, skips_scraper, set_sources}
use glanceus.QueueSync.{sync_requested}
use glanceus.Scraper.Logs.{ScraperLifecycleLog, merge_scraper_logs}
use glanceus.Scraper.State.{
  Runtime, Scraper, result_sources, wait, dispatch, run_sync, given, same_text, is_stale,
  reset_task, sync_error_logs_from_memory, key_of, read_optional, task_token,
}

abbrev pub active_stages : List String
active_stages = "task_claimed" ∷ []

abbrev pub terminal_stages : List String
terminal_stages =
    "task_complete" ∷ "task_cancelled" ∷ "task_killed_log_burst" ∷ "task_handoff_auth_required" ∷ []

abbrev pub skipped_stages : List String
skipped_stages = "task_cancelled" ∷ "task_killed_log_burst" ∷ []

abbrev pub claim_task : Option String → String → Scraper → Scraper
claim_task none source_id s = s
claim_task (some task_id) source_id s = record s {
  active_task_id = some task_id;
  active_task_source_id = some source_id;
  active_task_token = some (task_token source_id task_id);
}

abbrev pub show_active : ℕ → Option String → Scraper → Scraper
show_active now none s = s
show_active now (some source_id) s =
    if same_text s.active_scraper_ref source_id
    then s
    else dispatch now (set_active_scraper (some source_id)) s

abbrev pub log_active : ℕ → ScraperLifecycleLog → Scraper → Scraper
log_active now log s =
    if includes log.stage active_stages
    then show_active now (given (some log.source_id))
        (claim_task (given (some log.task_id)) log.source_id s)
    else s

abbrev pub hide_active : ℕ → Option String → Scraper → Scraper
hide_active now none s = s
hide_active now (some active) s = dispatch now (set_active_scraper none) s

abbrev pub log_terminal : ℕ → ScraperLifecycleLog → Scraper → Scraper
log_terminal now log s =
    if includes log.stage terminal_stages
    then hide_active now (given s.active_scraper_ref) (reset_task s)
    else s

abbrev pub skip_given : ℕ → Option String → Scraper → Scraper
skip_given now none s = s
skip_given now (some source_id) s = dispatch now (skips_scraper source_id) s

abbrev pub log_skipped : ℕ → ScraperLifecycleLog → Scraper → Scraper
log_skipped now log s =
    if includes log.stage skipped_stages
    then sync_error_logs_from_memory (some log.source_id)
        (skip_given now (given (some log.source_id)) s)
    else s

abbrev pub log_synced : ℕ → ScraperLifecycleLog → Scraper → Scraper
log_synced now log s =
    if includes log.stage active_stages
      || (includes log.stage terminal_stages || includes log.stage skipped_stages)
    then run_sync now sync_requested s
    else s

abbrev pub log_stages : ℕ → ScraperLifecycleLog → Scraper → Scraper
log_stages now log s =
    let rest = log_synced now log (log_skipped now log (log_terminal now log s)) in
    if includes log.stage terminal_stages
    then if is_stale (some log.task_id) s then s else rest
    else rest

-- The listener of scraper_lifecycle_log. The end of another task ends the listener's work.
unfoldable pub scraper_lifecycle_log : Runtime → ℕ → ScraperLifecycleLog → Scraper → Scraper
scraper_lifecycle_log r now log s = log_stages now log (
    log_active now log
      (record s { scraper_logs = merge_scraper_logs (key_of r) s.scraper_logs (log ∷ []) }))

-- The payload of scraper_result; `scraped` is its field `data`.
pub record ScraperResult : Type 0 where
  pub source_id : String
  pub task_id : Option String
  pub scraped : Value
  pub error : Option String
  pub secret_key : String

abbrev pub adopt_task : Option String → String → Scraper → Scraper
adopt_task none source_id s = s
adopt_task (some task_id) source_id s = record s {
  active_task_id = some task_id;
  active_task_source_id = some source_id;
}

abbrev pub take_result : ℕ → Option String → ScraperResult → Scraper → Scraper
take_result now (some message) e s =
    sync_error_logs_from_memory (some e.source_id) (dispatch now (skips_scraper e.source_id) s)
take_result now none e s = wait (result_sources e.source_id e.secret_key e.scraped) s

-- The listener of scraper_result, up to its await.
unfoldable pub scraper_result : ℕ → ScraperResult → Scraper → Scraper
scraper_result now e s =
    if is_stale e.task_id s
    then s
    else take_result now (given e.error) e (
        reset_task
          (dispatch now (set_active_scraper none) (adopt_task (given e.task_id) e.source_id s)))

-- The payload of scraper_auth_required.
pub record AuthRequired : Type 0 where
  pub source_id : String
  pub task_id : Option String
  pub target_url : String

-- `a || b`.
abbrev pub or_value : Value → Value → Value
or_value a b = if is_truthy a then a else b

abbrev pub entries_or_none : Runtime → Value → List (String × Value)
entries_or_none r v = if is_truthy v then r.entries v else []

abbrev pub blocked_interaction : Runtime → Value → String → Value
blocked_interaction r interaction target_url = r.make_object (
    ("type", string "webview_scrape")
    ∷ ("step_id", or_value (read_optional r interaction "step_id") (string "webview"))
    ∷ ("message", string "Web scraper blocked. Manual action is required before retry.")
    ∷ ("fields", or_value (read_optional r interaction "fields") r.empty_array)
    ∷ ("warning_message", read_optional r interaction "warning_message")
    ∷ (
      "data",
      r.make_object (
          set "blocked_target_url" (string target_url) (
            set "manual_only" (boolean true)
              (entries_or_none r (read_optional r interaction "data")))),
    )
    ∷ [])

abbrev pub blocked_message : String
blocked_message =
    "Web scraper blocked by login wall/captcha. Manual action is required before retry."

abbrev pub suspend_source : Runtime → AuthRequired → Summary → Summary
suspend_source r e source =
    if str_eq source.id e.source_id
    then record source {
      status = string "suspended";
      message = string blocked_message;
      interaction = blocked_interaction r source.interaction e.target_url;
    }
    else source

abbrev pub suspend_sources : Runtime → ℕ → AuthRequired → Scraper → Scraper
suspend_sources r now e s = dispatch now (set_sources (map (suspend_source r e) s.store.sources)) s

abbrev pub without_token : Scraper → Scraper
without_token s = record s { active_task_token = none }

-- The listener of scraper_auth_required.
unfoldable pub scraper_auth_required : Runtime → ℕ → AuthRequired → Scraper → Scraper
scraper_auth_required r now e s =
    if is_stale e.task_id s
    then s
    else suspend_sources r now e (
        dispatch now (set_active_scraper none)
          (without_token (adopt_task (given e.task_id) e.source_id s)))
