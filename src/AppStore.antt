-- ===== src/AppStore.antt =====
-- ui-react/src/store/index.ts: the application's store, as a record with one action for each of
-- its functions. Turns are actions, answers that loadData waits for, and timers of toasts.
pub mod Toasts
mod Tests
use glanceus.Prelude.{
  ℕ, zero, suc, ◌+◌, ◌==◌, String, Bool, true, false, not, Option, none, some, List, [], ◌∷◌, ◌++◌,
  if◌then◌else◌, includes, dedupe, filter, str_eq, get_elem?,
}
use glanceus.Prelude.Dict.{set}
use glanceus.Config.{StoredView}
use glanceus.Coordinator.State.{Summary, Detail}

pub data ToastType : Type 0 where
  success : ToastType
  failure : ToastType
  info : ToastType

-- ToastData.
pub record ToastData : Type 0 where
  pub message : String
  pub type : ToastType
  pub id : ℕ

-- AppState, and the toasts' timers that have not fired: when each is due, and its toast's id.
pub record AppState : Type 0 where
  pub sidebar_collapsed : Bool
  pub toast : Option ToastData
  pub view_config : Option StoredView
  pub sources : List Summary
  pub data_map : List (String × Detail)
  pub loading : Bool
  pub interact_source : Option Summary
  pub is_add_dialog_open : Bool
  pub deleting_source_id : Option String
  pub active_scraper : Option String
  pub skipped_scrapers : List String
  pub integrations_selected_file : Option String
  pub integrations_sidebar_collapsed : Bool
  pub toast_timers : List (ℕ × ℕ)

abbrev pub initial_state : AppState
initial_state = record {
  sidebar_collapsed = false;
  toast = none;
  view_config = none;
  sources = [];
  data_map = [];
  loading = true;
  interact_source = none;
  is_add_dialog_open = false;
  deleting_source_id = none;
  active_scraper = none;
  skipped_scrapers = [];
  integrations_selected_file = none;
  integrations_sidebar_collapsed = false;
  toast_timers = [];
}

abbrev pub toast_duration_ms : ℕ
toast_duration_ms = 3000

-- showToast: the toast's id is the time.
unfoldable pub show_toast : ℕ → String → Option ToastType → AppState → AppState
show_toast now message none s = record s {
  toast = some (record { message = message; type = success; id = now });
  toast_timers = (now + toast_duration_ms, now) ∷ s.toast_timers;
}
show_toast now message (some type) s = record s {
  toast = some (record { message = message; type = type; id = now });
  toast_timers = (now + toast_duration_ms, now) ∷ s.toast_timers;
}

abbrev pub unless_id : ℕ → Option ToastData → Option ToastData
unless_id id none = none
unless_id id (some current_toast) = if current_toast.id == id then none else some current_toast

-- The callback of a toast's timer.
unfoldable pub hide_expired : ℕ → AppState → AppState
hide_expired id s = record s { toast = unless_id id s.toast }

abbrev is_empty {ℓ} : {A : Type ℓ} → List A → Bool
is_empty [] = true
is_empty (x ∷ xs) = false

abbrev loads_first : Option StoredView → List (String × Detail) → Bool
loads_first none data_map = true
loads_first (some view) data_map = is_empty data_map

-- loadData, up to its awaits.
unfoldable pub load_data : AppState → AppState
load_data s = if loads_first s.view_config s.data_map then record s { loading = true } else s

-- What loadData gets: the views, the sources, and the data of each source in their order.
pub record Loaded : Type 0 where
  pub views : List StoredView
  pub sources_data : List Summary
  pub results : List (String × Detail)

abbrev pub first_view : List StoredView → Option StoredView
first_view [] = none
first_view (v ∷ vs) = some v

abbrev pub new_data_map : List (String × Detail) → List (String × Detail) → List (String × Detail)
new_data_map [] m = m
new_data_map ((id, detail) ∷ results) m = new_data_map results (set id detail m)

-- loadData after its awaits; `none` for a request that fails.
unfoldable pub data_loaded : Option Loaded → AppState → AppState
data_loaded none s = record s { loading = false }
data_loaded (some l) s = record s {
  view_config = first_view l.views;
  sources = l.sources_data;
  data_map = new_data_map l.results [];
  loading = false;
}

-- addSkippedScraper.
unfoldable pub add_skipped_scraper : String → AppState → AppState
add_skipped_scraper id s = record s {
  skipped_scrapers =
      if includes id s.skipped_scrapers
      then s.skipped_scrapers
      else s.skipped_scrapers ++ (id ∷ []);
}

-- The functions of the store. setDataMap has the function of the data that it is given, or a
-- constant one.
pub data Action : Type 0 where
  set_sidebar_collapsed : Bool → Action
  toggle_sidebar : Action
  shows_toast : String → Option ToastType → Action
  hide_toast : Action
  toast_expires : ℕ → Action
  set_view_config : Option StoredView → Action
  set_sources : List Summary → Action
  set_data_map : (List (String × Detail) → List (String × Detail)) → Action
  set_loading : Bool → Action
  set_interact_source : Option Summary → Action
  set_is_add_dialog_open : Bool → Action
  set_deleting_source_id : Option String → Action
  set_active_scraper : Option String → Action
  set_skipped_scrapers : List String → Action
  skips_scraper : String → Action
  clear_skipped_scrapers : Action
  set_integrations_selected_file : Option String → Action
  set_integrations_sidebar_collapsed : Bool → Action
  loads_data : Action
  data_answered : Option Loaded → Action

-- The timer at a place of the list fires and is gone.
abbrev pub without : List (ℕ × ℕ) → ℕ → List (ℕ × ℕ)
without [] i = []
without (t ∷ ts) zero = ts
without (t ∷ ts) (suc i) = t ∷ without ts i

abbrev pub expire : Option (ℕ × ℕ) → ℕ → AppState → AppState
expire none i s = s
expire (some (due, id)) i s = hide_expired id (record s { toast_timers = without s.toast_timers i })

unfoldable pub act : ℕ → Action → AppState → AppState
unfolding show_toast hide_expired load_data data_loaded add_skipped_scraper
act now (set_sidebar_collapsed collapsed) s = record s { sidebar_collapsed = collapsed }
act now toggle_sidebar s = record s { sidebar_collapsed = not s.sidebar_collapsed }
act now (shows_toast message type) s = show_toast now message type s
act now hide_toast s = record s { toast = none }
act now (toast_expires i) s = expire (get_elem? s.toast_timers i) i s
act now (set_view_config view) s = record s { view_config = view }
act now (set_sources sources) s = record s { sources = sources }
act now (set_data_map f) s = record s { data_map = f s.data_map }
act now (set_loading loading) s = record s { loading = loading }
act now (set_interact_source source) s = record s { interact_source = source }
act now (set_is_add_dialog_open open_now) s = record s { is_add_dialog_open = open_now }
act now (set_deleting_source_id id) s = record s { deleting_source_id = id }
act now (set_active_scraper id) s = record s { active_scraper = id }
act now (set_skipped_scrapers ids) s = record s { skipped_scrapers = dedupe ids }
act now (skips_scraper id) s = add_skipped_scraper id s
act now clear_skipped_scrapers s = record s { skipped_scrapers = [] }
act now (set_integrations_selected_file file) s = record s { integrations_selected_file = file }
act now (set_integrations_sidebar_collapsed collapsed) s = record s {
  integrations_sidebar_collapsed = collapsed;
}
act now loads_data s = load_data s
act now (data_answered answer) s = data_loaded answer s

unfoldable pub acts : AppState → List (ℕ × Action) → AppState
unfolding act
acts s [] = s
acts s ((now, a) ∷ later) = acts (act now a s) later
