-- ===== src/Charts/Encoding.antt =====
-- chartFieldValidation.ts, its second part: validateChartEncoding.
use glanceus.Prelude.{
  ℕ, ◌+◌, String, str_eq, Bool, true, false, ◌&&◌, ◌||◌, Option, none, some, List, [], ◌∷◌,
  if◌then◌else◌, includes,
}
use glanceus.Prelude.Dict.{lookup, has, set}
use glanceus.Charts.Fields.{
  SqlFieldMetadata, numeric_types, temporal_types, categorical_types, is_blank,
  normalize_validation_field_type,
}

-- ChartEncodingChannel.
pub record ChartEncodingChannel : Type 0 where
  pub field : Option String

-- ChartEncoding: a channel that is missing is `none`; of a column only its field is read.
pub record ChartEncoding : Type 0 where
  pub x : Option ChartEncodingChannel
  pub y : Option ChartEncodingChannel
  pub series : Option ChartEncodingChannel
  pub value : Option ChartEncodingChannel
  pub label : Option ChartEncodingChannel
  pub columns : List String

abbrev pub no_encoding : ChartEncoding
no_encoding = record { x = none; y = none; series = none; value = none; label = none; columns = [] }

pub data Channel : Type 0 where
  on_x on_y on_series on_value on_label : Channel

pub data ErrorCode : Type 0 where
  missing_required_channel : ErrorCode
  unknown_field : ErrorCode
  invalid_field_type : ErrorCode

-- Where an error stands: the path `encoding.<channel>.field` or `encoding.columns[<index>].field`.
pub data ErrorPath : Type 0 where
  at_channel : Channel → ErrorPath
  at_column : ℕ → ErrorPath

pub data ChartEncodingValidationResult : Type 0 where
  ok : ChartEncodingValidationResult
  config_error : ErrorCode → ErrorPath → (field : Option String) → ChartEncodingValidationResult

-- requiredChannelsFor.
abbrev pub required_channels_for : String → List Channel
required_channels_for chart_type =
    if includes chart_type ("Chart.Line" ∷ "Chart.Bar" ∷ "Chart.Area" ∷ [])
    then on_x ∷ on_y ∷ []
    else if str_eq chart_type "Chart.Pie"
    then on_label ∷ on_value ∷ []
    else []

abbrev pub is_ordinal : String → Bool
is_ordinal type = includes type temporal_types || includes type categorical_types

-- channelAllowsType.
unfoldable pub channel_allows_type : Channel → String → Bool
channel_allows_type on_x type = is_ordinal type
channel_allows_type on_y type = includes type numeric_types
channel_allows_type on_value type = includes type numeric_types
channel_allows_type on_series type = is_ordinal type
channel_allows_type on_label type = is_ordinal type

abbrev pub channel_of : ChartEncoding → Channel → Option ChartEncodingChannel
channel_of e on_x = e.x
channel_of e on_y = e.y
channel_of e on_series = e.series
channel_of e on_value = e.value
channel_of e on_label = e.label

abbrev unless_blank : Option String → Option String
unless_blank none = none
unless_blank (some field) = if is_blank field then none else some field

abbrev field_of : Option ChartEncodingChannel → Option String
field_of none = none
field_of (some selected) = unless_blank selected.field

-- `selected?.field`, or `none` where it is falsy.
abbrev pub selected_field : ChartEncoding → Channel → Option String
selected_field e channel = field_of (channel_of e channel)

-- new Map(fields.map((field) => [field.name, field])).
abbrev pub index_fields :
    List SqlFieldMetadata → List (String × SqlFieldMetadata) → List (String × SqlFieldMetadata)
index_fields [] m = m
index_fields (f ∷ fs) m = index_fields fs (set f.name f m)

-- The first loop: the required channels. `rest` is what follows the loop.
abbrev pub require :
    Option String → Channel → ChartEncodingValidationResult → ChartEncodingValidationResult
require none channel rest = config_error missing_required_channel (at_channel channel) none
require (some field) channel rest = rest

unfoldable pub check_required :
    ChartEncoding → List Channel → ChartEncodingValidationResult → ChartEncodingValidationResult
check_required e [] rest = rest
check_required e (channel ∷ channels) rest =
    require (selected_field e channel) channel (check_required e channels rest)

-- The second loop: the types of the channels.
abbrev pub match_type :
    Option SqlFieldMetadata
    → Channel
    → String
    → ChartEncodingValidationResult
    → ChartEncodingValidationResult
match_type none channel field rest = config_error unknown_field (at_channel channel) (some field)
match_type (some matched_field) channel field rest =
    if channel_allows_type channel (normalize_validation_field_type matched_field.type)
    then rest
    else config_error invalid_field_type (at_channel channel) (some field)

abbrev pub check_channel :
    List (String × SqlFieldMetadata)
    → Option String
    → Channel
    → ChartEncodingValidationResult
    → ChartEncodingValidationResult
check_channel index none channel rest = rest
check_channel index (some field) channel rest = match_type (lookup field index) channel field rest

unfoldable pub check_channels :
    List (String × SqlFieldMetadata)
    → ChartEncoding
    → List Channel
    → ChartEncodingValidationResult
    → ChartEncodingValidationResult
unfolding channel_allows_type
check_channels index e [] rest = rest
check_channels index e (channel ∷ channels) rest =
    check_channel index (selected_field e channel) channel (check_channels index e channels rest)

-- The third loop: the columns, from an index.
unfoldable pub check_columns :
    List (String × SqlFieldMetadata) → ℕ → List String → ChartEncodingValidationResult
check_columns index i [] = ok
check_columns index i (field ∷ fields) =
    let rest = check_columns index (i + 1) fields in
    if has field index then rest else config_error unknown_field (at_column i) (some field)

abbrev pub all_channels : List Channel
all_channels = on_x ∷ on_y ∷ on_series ∷ on_value ∷ on_label ∷ []

abbrev pub no_fields : List SqlFieldMetadata → Bool
no_fields [] = true
no_fields (f ∷ fs) = false

-- validateChartEncoding. (The index is empty iff there are no fields.)
unfoldable pub validate_chart_encoding :
    String → ChartEncoding → List SqlFieldMetadata → ChartEncodingValidationResult
unfolding check_required check_channels check_columns
validate_chart_encoding chart_type e sql_fields =
    let index = index_fields sql_fields [] in
    let later = check_channels index e all_channels (check_columns index 0 e.columns) in
    check_required e (required_channels_for chart_type)
      (if str_eq chart_type "Chart.Table" && no_fields sql_fields then ok else later)
