-- ===== src/Charts/State.antt =====
-- chartState.ts: what a chart shows.
use glanceus.Prelude.{Bool, true, false, not, ◌||◌, Option, none, some}
use glanceus.Charts.Encoding.{ErrorCode, ErrorPath, ChartEncodingValidationResult, ok, config_error}
use glanceus.Prelude.{ℕ, zero, suc, String, if◌then◌else◌}

pub data ChartState : Type 0 where
  loading : ChartState
  runtime_error : ChartState
  config_error_of : ErrorCode → ErrorPath → Option String → ChartState
  empty : ChartState
  ready : ChartState

pub data ChartSourceStatus : Type 0 where
  is_idle is_ready refreshing error suspended : ChartSourceStatus

-- ClassifyChartStateInput: the number of rows, `none` for what is not an array, and whether there
-- is a runtime error.
pub record ClassifyChartStateInput : Type 0 where
  pub source_status : Option ChartSourceStatus
  pub rows : Option ℕ
  pub runtime_error_given : Bool
  pub encoding_validation : ChartEncodingValidationResult

abbrev pub is_refreshing : Option ChartSourceStatus → Bool
is_refreshing (some refreshing) = true
is_refreshing _ = false

abbrev pub is_in_error : Option ChartSourceStatus → Bool
is_in_error (some error) = true
is_in_error _ = false

abbrev pub has_rows : Option ℕ → Bool
has_rows none = false
has_rows (some zero) = false
has_rows (some (suc n)) = true

abbrev pub state_of : ChartEncodingValidationResult → ChartState
state_of ok = ready
state_of (config_error error_code path field) = config_error_of error_code path field

-- classifyChartState.
unfoldable pub classify_chart_state : ClassifyChartStateInput → ChartState
classify_chart_state i =
    if is_refreshing i.source_status
    then loading
    else if is_in_error i.source_status || i.runtime_error_given
    then runtime_error
    else if not (has_rows i.rows)
    then empty
    else state_of i.encoding_validation
