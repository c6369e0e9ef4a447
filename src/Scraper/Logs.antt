-- ===== src/Scraper/Logs.antt =====
-- useScraper.ts: the log of scraper events that the hook shows, and how new entries are merged in.
-- `show` is the text that JavaScript gives a timestamp.
pub mod Keys
pub mod Merged
use glanceus.Prelude.{
  ℕ, ◌-◌, leb, ltb, str_eq, String, Bool, true, false, List, [], ◌∷◌, ◌++◌, if◌then◌else◌, includes,
  filter, length, drop,
}
use glanceus.Prelude.Sort.{sort}
use glanceus.Prelude.Value.{Value}

abbrev pub scraper_log_limit : ℕ
scraper_log_limit = 300

-- The levels "info", "warn", "error" and "debug".
pub data Level : Type 0 where
  info warn error debug : Level

abbrev pub is_error_level : Level → Bool
is_error_level error = true
is_error_level _ = false

abbrev pub level_text : Level → String
level_text info = "info"
level_text warn = "warn"
level_text error = "error"
level_text debug = "debug"

pub record ScraperLifecycleLog : Type 0 where
  pub source_id : String
  pub task_id : String
  pub stage : String
  pub level : Level
  pub message : String
  pub timestamp : ℕ
  pub details : Value

abbrev pub Logs : Type 0
Logs = List ScraperLifecycleLog

abbrev pub concat : String → String → String
concat String.[] t = t
concat (String.◌∷◌ c s) t = String.◌∷◌ c (concat s t)

-- Array.prototype.join with "|".
abbrev pub join : List String → String
join [] = ""
join (s ∷ []) = s
join (s ∷ t ∷ ts) = concat s (String.◌∷◌ "|" (join (t ∷ ts)))

abbrev pub scraper_log_key : (ℕ → String) → ScraperLifecycleLog → String
scraper_log_key show log = join (
    log.source_id
    ∷ log.task_id
    ∷ log.stage
    ∷ level_text log.level
    ∷ show log.timestamp
    ∷ log.message
    ∷ [])

-- The loop over the merged logs: what `seen` lacks is pushed.
abbrev pub unseen_from : (ScraperLifecycleLog → String) → List String → Logs → Logs
unseen_from key seen [] = []
unseen_from key seen (log ∷ logs) = elim (includes (key log) seen) [
  | true ↦ unseen_from key seen logs
  | false ↦ log ∷ unseen_from key (key log ∷ seen) logs
]

-- The comparator of the sort is not positive.
abbrev pub not_later : ScraperLifecycleLog → ScraperLifecycleLog → Bool
not_later a b = leb a.timestamp b.timestamp

-- slice(-SCRAPER_LOG_LIMIT).
abbrev pub latest_logs : Logs → Logs
latest_logs logs = drop (length logs - scraper_log_limit) logs

abbrev pub within_limit : Logs → Logs
within_limit logs = if ltb scraper_log_limit (length logs) then latest_logs logs else logs

-- mergeScraperLogs.
unfoldable pub merge_scraper_logs : (ScraperLifecycleLog → String) → Logs → Logs → Logs
unfolding sort
merge_scraper_logs key current [] = latest_logs current
merge_scraper_logs key current (log ∷ incoming) =
    within_limit (sort not_later (unseen_from key [] (current ++ (log ∷ incoming))))

-- The errors among logs.
abbrev pub error_logs_of : Logs → Logs
error_logs_of = filter (λ log. is_error_level log.level)
