-- ===== src/Scraper/Handlers.antt =====
-- useScraper.ts: the functions that the hook gives to the page, and what follows their awaits.
use glanceus.Prelude.{
  ℕ, ◌/◌, leb, str_eq, String, Bool, true, false, not, Option, none, some, List, [], ◌∷◌, ◌++◌,
  if◌then◌else◌, filter,
}
use glanceus.Prelude.Int.{Num, finite, pos_part, units}
use glanceus.Prelude.Text.{codes, trim, is_space}
use glanceus.Prelude.Value.{Value, string, strict_eq}
use glanceus.Coordinator.State.{Summary}
use glanceus.AppStore.{set_skipped_scrapers, set_sources, skips_scraper}
use glanceus.Scraper.Logs.{Logs, latest_logs, error_logs_of}
use glanceus.Scraper.State.{
  Runtime, ScraperTask, Cleared, Await, settings_asked, error_logs_asked, skip_cancel, skip_logs,
  clear_cancel, clear_queue, promote_retry, clear_source, push_task, refresh_asked, promote_shown,
  show_window, result_sources, result_interact, result_fallback, timeout_cancel, timeout_logs,
  Scraper, default_scraper_timeout_seconds, wait, dispatch, given, same_text, drop_task,
  store_error_logs, read_optional, show_failure,
}
use glanceus.Scraper.Events.{skip_given}

-- The answer to a call: an error, or what it resolves to.
pub data Answer : Type 0 where
  refused resolved : Answer
  promoted : Bool → Answer
  error_logs : Logs → Answer
  sources : List Summary → Answer
  settings : Value → Answer

-- handleSkipScraper.
abbrev pub skip_active : Option String → Scraper → Scraper
skip_active none s = s
skip_active (some active) s = wait (skip_cancel active) s

unfoldable pub handle_skip_scraper : Scraper → Scraper
handle_skip_scraper s =
    if s.sync.scraper_enabled then skip_active (given s.active_scraper_ref) s else s

unfoldable pub finish_skip : ℕ → String → Scraper → Scraper
finish_skip now active s = drop_task now (dispatch now (skips_scraper active) s)

-- handleClearScraperQueue.
abbrev pub rendered : Scraper → Cleared
rendered s = record {
  active_scraper = given s.active_scraper_ref;
  skipped_scrapers = s.skipped_rendered;
  queue_source_ids = s.queue_rendered;
}

abbrev pub clear_active : Option String → Scraper → Scraper
clear_active none s = wait (clear_queue (rendered s)) s
clear_active (some active) s = wait (clear_cancel (rendered s)) s

unfoldable pub handle_clear_scraper_queue : Scraper → Scraper
handle_clear_scraper_queue s =
    if s.sync.scraper_enabled then clear_active (given s.active_scraper_ref) s else s

abbrev pub to_list : Option String → List String
to_list none = []
to_list (some t) = t ∷ []

abbrev pub new_skipped : Cleared → List String
new_skipped c = c.skipped_scrapers ++ (to_list c.active_scraper ++ c.queue_source_ids)

unfoldable pub finish_clear : ℕ → Cleared → Scraper → Scraper
finish_clear now c s =
    let skipped = dispatch now (set_skipped_scrapers (new_skipped c)) s in
    let cleared =
      drop_task now (record skipped { sync = record skipped.sync { queue_source_ids = [] } }) in
    record cleared { scraper_logs = latest_logs (error_logs_of s.scraper_logs) }

-- handlePushToQueue: whether it starts, and the state.
abbrev pub text_or_none : Value → String
text_or_none (string t) = t
text_or_none _ = ""

abbrev pub or_webview_data : List ℕ → List ℕ
or_webview_data [] = codes "webview_data"
or_webview_data (c ∷ cs) = c ∷ cs

abbrev pub data_field : Runtime → Summary → String → String
data_field r source name =
    text_or_none (read_optional r (read_optional r source.interaction "data") name)

abbrev pub task_of : Runtime → Summary → ScraperTask
task_of r source = record {
  source_id = source.id;
  url = trim (codes (data_field r source "url"));
  inject_script = data_field r source "script";
  intercept_api = data_field r source "intercept_api";
  secret_key = or_webview_data (trim (codes (data_field r source "secret_key")));
}

abbrev pub start_task : Runtime → ℕ → List ℕ → ScraperTask → Scraper → Bool × Scraper
start_task r now [] task s = (false, show_failure r now "scraper.toast.retryFailed" s)
start_task r now (c ∷ url) task s = (true, wait (promote_retry task) s)

unfoldable pub handle_push_to_queue : Runtime → ℕ → Summary → Bool → Scraper → Bool × Scraper
unfolding is_space
handle_push_to_queue r now source foreground s =
    let unskipped =
      dispatch now
        (set_skipped_scrapers (filter (λ id. not (str_eq id source.id)) s.store.skipped_scrapers))
        s in
    if not s.sync.scraper_enabled
    then (false, show_failure r now "scraper.toast.unavailable" s)
    else if foreground
    then start_task r now (task_of r source).url (task_of r source) unskipped
    else (true, wait (refresh_asked source.id) unskipped)

-- handleShowScraperWindow.
unfoldable pub handle_show_scraper_window : Scraper → Scraper
handle_show_scraper_window s = if s.sync.scraper_enabled then wait promote_shown s else s

-- The finally clause of a task that timed out.
unfoldable pub finish_timeout : ℕ → String → String → Scraper → Scraper
finish_timeout now source_id task_id s =
    if same_text s.active_task_id task_id
    then drop_task now (dispatch now (skips_scraper source_id) s)
    else s

abbrev pub source_with : List Summary → String → Option Summary
source_with [] id = none
source_with (source ∷ list) id =
    let rest = source_with list id in if str_eq source.id id then some source else rest

abbrev pub is_resumed : Option Summary → Bool
is_resumed none = false
is_resumed (some source) = not (strict_eq source.status (string "suspended"))

-- scraper_result after getSources.
abbrev pub take_sources : ℕ → List Summary → String → String → Value → Scraper → Scraper
take_sources now list source_id secret_key scraped s =
    let stored = dispatch now (set_sources list) s in
    if is_resumed (source_with list source_id)
    then stored
    else wait (result_interact source_id secret_key scraped) stored

-- The effect that reads the settings.
abbrev pub timeout_of : Num → ℕ
timeout_of (finite z) =
    if leb units (pos_part z) then pos_part z / units else default_scraper_timeout_seconds
timeout_of _ = default_scraper_timeout_seconds

abbrev pub timeout_in : Runtime → Answer → ℕ
timeout_in r (settings v) = timeout_of (r.to_number (read_optional r v "scraper_timeout_seconds"))
timeout_in r _ = default_scraper_timeout_seconds

-- What an answer is to the code that awaits it. One of another kind than the call's is an error, or
-- no array, or false there.
abbrev pub is_refused : Answer → Bool
is_refused refused = true
is_refused _ = false

abbrev pub is_promoted : Answer → Bool
is_promoted (promoted b) = b
is_promoted _ = false

abbrev pub logs_in : Answer → Logs
logs_in (error_logs logs) = logs
logs_in _ = []

abbrev pub retry_failed : Runtime → ℕ → Scraper → Scraper
retry_failed r now s = show_failure r now "scraper.toast.retryFailed" s

abbrev pub take_result_sources : ℕ → String → String → Value → Answer → Scraper → Scraper
take_result_sources now source_id secret_key scraped (sources list) s =
    take_sources now list source_id secret_key scraped s
take_result_sources now source_id secret_key scraped _ s = s

abbrev pub take_fallback : ℕ → Answer → Scraper → Scraper
take_fallback now (sources list) s = dispatch now (set_sources list) s
take_fallback now _ s = s

-- What follows an await, by the call and its answer.
unfoldable pub resume : Runtime → ℕ → Await → Answer → Scraper → Scraper
unfolding finish_skip finish_clear finish_timeout
resume r now settings_asked a s = record s { task_timeout_seconds = timeout_in r a }
resume r now (error_logs_asked source_id) a s = store_error_logs r (logs_in a) s
resume r now (skip_cancel active) a s =
    if is_refused a then finish_skip now active s else wait (skip_logs active) s
resume r now (skip_logs active) a s = finish_skip now active (store_error_logs r (logs_in a) s)
resume r now (clear_cancel c) a s = wait (clear_queue c) s
resume r now (clear_queue c) a s = finish_clear now c s
resume r now (promote_retry task) a s =
    let skipped = dispatch now (skips_scraper task.source_id) s in
    if is_refused a
    then retry_failed r now s
    else if is_promoted a
    then skipped
    else wait (clear_source task) skipped
resume r now (clear_source task) a s =
    if is_refused a then retry_failed r now s else wait (push_task task) s
resume r now (push_task task) a s = if is_refused a then retry_failed r now s else s
resume r now (refresh_asked source_id) a s = if is_refused a then retry_failed r now s else s
resume r now promote_shown a s =
    if is_refused a
    then s
    else if is_promoted a
    then drop_task now (skip_given now (given s.active_scraper_ref) s)
    else wait show_window s
resume r now show_window a s = s
resume r now (result_sources source_id secret_key scraped) a s =
    take_result_sources now source_id secret_key scraped a s
resume r now (result_interact source_id secret_key scraped) a s =
    if is_refused a then s else wait result_fallback s
resume r now result_fallback a s = take_fallback now a s
resume r now (timeout_cancel source_id task_id) a s =
    if is_refused a
    then finish_timeout now source_id task_id s
    else wait (timeout_logs source_id task_id) s
resume r now (timeout_logs source_id task_id) a s =
    finish_timeout now source_id task_id (store_error_logs r (logs_in a) s)
