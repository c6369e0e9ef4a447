-- ===== src/Scraper/Tests.antt =====
-- The scraper's hook at concrete turns.
use glanceus.Prelude.{ℕ, ◌≡◌, refl, String, true, none, some, List, [], ◌∷◌, All}
use glanceus.Prelude.Int.{nan}
use glanceus.Prelude.Value.{undefined, object, array}
use glanceus.AppStore.{initial_state}
use glanceus.QueueSync.{sync_turn}
use glanceus.Scraper.Logs.{Level, info, error, ScraperLifecycleLog, merge_scraper_logs}
use glanceus.Scraper.Logs.Merged.{IsTidy, IsShown, merge_scraper_logs_lem}
use glanceus.Scraper.State.{Runtime, settings_asked, result_sources, Scraper, fresh}
use glanceus.Scraper.Turns.{Turn, logged, scraped, renders, turns, mount}
use glanceus.Scraper.Sound.{IsSound}
use glanceus.Scraper.Sound.Turns.{turns-IsSound}

abbrev runtime : Runtime
runtime = record {
  number_text = λ n. "0";
  to_number = λ v. nan;
  read = λ v name. undefined;
  entries = λ v. [];
  make_object = λ fields. object 1;
  empty_array = array 2;
  translate = λ key. key;
}

abbrev log_of : String → String → Level → ℕ → ScraperLifecycleLog
log_of task_id stage level timestamp = record {
  source_id = "mail";
  task_id = task_id;
  stage = stage;
  level = level;
  message = "m";
  timestamp = timestamp;
  details = undefined;
}

abbrev by_task : ScraperLifecycleLog → String
by_task log = log.task_id

-- The second log of a key is left out, and the rest are in order of time.
merged :
    merge_scraper_logs by_task
      (log_of "b" "s" info 5 ∷ [])
      (log_of "a" "s" info 3 ∷ log_of "b" "s" error 9 ∷ [])
    ≡ log_of "a" "s" info 3 ∷ log_of "b" "s" info 5 ∷ []
unfolding merge_scraper_logs
merged = refl

merge_scraper_logs_lem_example :
    let result =
      merge_scraper_logs by_task (log_of "b" "s" info 5 ∷ []) (log_of "a" "s" info 3 ∷ []) in
    IsTidy by_task result
    × All (λ log. log.source_id ≡ "mail") result
    × All (IsShown by_task result) (log_of "b" "s" info 5 ∷ log_of "a" "s" info 3 ∷ [])
merge_scraper_logs_lem_example =
    merge_scraper_logs_lem by_task (λ log. log.source_id ≡ "mail") (log_of "b" "s" info 5 ∷ [])
      (log_of "a" "s" info 3) [] (refl, (refl, tt))

-- A task is claimed, its timer is armed at the render, and its result is waited for.
abbrev history : List (ℕ × Turn)
history =
    (1000, logged (log_of "t1" "task_claimed" info 7))
    ∷ (1001, renders)
    ∷ (
      2000,
      scraped (record {
        source_id = "mail";
        task_id = some "t1";
        scraped = undefined;
        error = none;
        secret_key = "k";
      }),
    )
    ∷ []

history_waits :
    (turns runtime (mount 900 true initial_state) history).waiting
    ≡ settings_asked ∷ result_sources "mail" "k" undefined ∷ []
unfolding turns mount sync_turn
history_waits = refl

history_timed :
    (turns runtime (mount 900 true initial_state) history).task_timer ≡ some (11001, "mail", "t1")
unfolding turns mount sync_turn
history_timed = refl

turns-IsSound_example : IsSound runtime (turns runtime (mount 900 true initial_state) history)
turns-IsSound_example = turns-IsSound runtime 900 true initial_state history (tt, tt)

abbrev busy : Scraper
busy = record (fresh true initial_state) {
  active_task_id = some "t1";
  active_task_source_id = some "mail";
  active_task_token = some "mail:t1";
}
