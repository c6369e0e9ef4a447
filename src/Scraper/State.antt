-- ===== src/Scraper/State.antt =====
-- useScraper.ts: the state of the hook, with the store and the queue's sync that it uses, and what
-- its handlers and listeners share. Where the code awaits a call of the desktop shell or of the
-- server, what follows is kept in `waiting`, with the variables that it uses.
use glanceus.Prelude.{
  ℕ, str_eq, String, Bool, false, not, Option, none, some, List, [], ◌∷◌, ◌++◌, if◌then◌else◌,
}
use glanceus.Prelude.Int.{Num}
use glanceus.Prelude.Value.{Value, undefined, null}
use glanceus.AppStore.{AppState, Action, act, set_active_scraper, shows_toast, failure}
use glanceus.QueueSync.{QueueSync, SyncTurn, sync_turn, mounted}
use glanceus.Scraper.Logs.{
  ScraperLifecycleLog, Logs, concat, scraper_log_key, merge_scraper_logs, error_logs_of,
}

-- What the hook takes as it is: the text of a number, Number, the properties of an object and the
-- making of one, and the table of messages.
pub record Runtime : Type 0 where
  pub number_text : ℕ → String
  pub to_number : Value → Num
  pub read : Value → String → Value
  pub entries : Value → List (String × Value)
  pub make_object : List (String × Value) → Value
  pub empty_array : Value
  pub translate : String → String

-- The arguments of push_scraper_task. The texts that are trimmed are lists of UTF-16 units.
pub record ScraperTask : Type 0 where
  pub source_id : String
  pub url : List ℕ
  pub inject_script : String
  pub intercept_api : String
  pub secret_key : List ℕ

-- What handleClearScraperQueue has read before its awaits.
pub record Cleared : Type 0 where
  pub active_scraper : Option String
  pub skipped_scrapers : List String
  pub queue_source_ids : List String

-- The calls that the hook waits for.
pub data Await : Type 0 where
  settings_asked : Await
  error_logs_asked : Option String → Await
  skip_cancel skip_logs : String → Await
  clear_cancel clear_queue : Cleared → Await
  promote_retry clear_source : ScraperTask → Await
  push_task : ScraperTask → Await
  refresh_asked : String → Await
  promote_shown show_window : Await
  result_sources result_interact : (source_id secret_key : String) → Value → Await
  result_fallback : Await
  timeout_cancel timeout_logs : (source_id task_id : String) → Await

-- The hook. `active_scraper_ref`, `skipped_rendered` and `queue_rendered` are what the last render
-- saw; `task_timer` is when the timer is due, its source and its task, and `timer_token` the token
-- that its effect has last run for.
pub record Scraper : Type 0 where
  pub store : AppState
  pub sync : QueueSync
  pub scraper_logs : Logs
  pub active_task_token : Option String
  pub active_scraper_ref : Option String
  pub skipped_rendered : List String
  pub queue_rendered : List String
  pub active_task_id : Option String
  pub active_task_source_id : Option String
  pub task_timeout_seconds : ℕ
  pub task_timer : Option (ℕ × String × String)
  pub timer_token : Option String
  pub waiting : List Await

abbrev pub default_scraper_timeout_seconds : ℕ
default_scraper_timeout_seconds = 10

abbrev pub wait : Await → Scraper → Scraper
wait a s = record s { waiting = s.waiting ++ (a ∷ []) }

abbrev pub dispatch : ℕ → Action → Scraper → Scraper
dispatch now action s = record s { store = act now action s.store }

-- A turn of the queue's sync, which writes the active scraper into the store.
abbrev pub run_sync : ℕ → SyncTurn → Scraper → Scraper
run_sync now turn s =
    let later = sync_turn (record s.sync { active_scraper = s.store.active_scraper }) (now, turn) in
    dispatch now (set_active_scraper later.active_scraper) (record s { sync = later })

-- A text that is truthy: there, and not empty.
abbrev pub given : Option String → Option String
given none = none
given (some t) = if str_eq t "" then none else some t

abbrev pub same_text : Option String → String → Bool
same_text none t = false
same_text (some u) t = str_eq u t

-- Both are given, and they differ.
abbrev pub differ : Option String → Option String → Bool
differ (some t) (some u) = not (str_eq t u)
differ _ _ = false

abbrev pub is_stale : Option String → Scraper → Bool
is_stale task_id s = differ (given task_id) (given s.active_task_id)

-- The three lines that forget the active task.
abbrev pub reset_task : Scraper → Scraper
reset_task s = record s {
  active_task_id = none;
  active_task_source_id = none;
  active_task_token = none;
}

abbrev pub drop_task : ℕ → Scraper → Scraper
drop_task now s = dispatch now (set_active_scraper none) (reset_task s)

-- syncErrorLogsFromMemory, up to its await and after it.
abbrev pub sync_error_logs_from_memory : Option String → Scraper → Scraper
sync_error_logs_from_memory source_id s =
    if s.sync.scraper_enabled then wait (error_logs_asked source_id) s else s

abbrev pub key_of : Runtime → ScraperLifecycleLog → String
key_of r = scraper_log_key r.number_text

abbrev pub merge_errors : Runtime → Logs → Scraper → Scraper
merge_errors r [] s = s
merge_errors r (log ∷ logs) s = record s {
  scraper_logs = merge_scraper_logs (key_of r) s.scraper_logs (log ∷ logs);
}

abbrev pub store_error_logs : Runtime → Logs → Scraper → Scraper
store_error_logs r logs s = merge_errors r (error_logs_of logs) s

-- `v?.name`.
abbrev pub read_optional : Runtime → Value → String → Value
read_optional r undefined name = undefined
read_optional r null name = undefined
read_optional r v name = r.read v name

abbrev pub show_failure : Runtime → ℕ → String → Scraper → Scraper
show_failure r now message s = dispatch now (shows_toast (r.translate message) (some failure)) s

abbrev pub task_token : String → String → String
task_token source_id task_id = concat source_id (String.◌∷◌ ":" task_id)

-- The mounted hook, before its effects.
abbrev pub fresh : Bool → AppState → Scraper
fresh scraper_enabled store = record {
  store = store;
  sync = mounted scraper_enabled;
  scraper_logs = [];
  active_task_token = none;
  active_scraper_ref = none;
  skipped_rendered = [];
  queue_rendered = [];
  active_task_id = none;
  active_task_source_id = none;
  task_timeout_seconds = default_scraper_timeout_seconds;
  task_timer = none;
  timer_token = none;
  waiting = [];
}
