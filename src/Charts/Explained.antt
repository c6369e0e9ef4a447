-- ===== src/Charts/Explained.antt =====
-- What the errors of validateChartEncoding say is so.
use glanceus.Prelude.{
  ℕ, suc, ◌+◌, ◌≡◌, refl, sym, ap, subst, ◌∙◌, String, str_eq, Bool, true, false, ◌&&◌, Option,
  none, some, List, [], ◌∷◌, All, any, get_elem?, if_rule, includes, arith,
}
use glanceus.Prelude.Dict.{lookup, has}
use glanceus.Charts.Fields.{SqlFieldMetadata, normalize_validation_field_type}
use glanceus.Charts.Encoding.{
  ChartEncoding, Channel, on_x, on_y, on_series, on_value, on_label, missing_required_channel,
  unknown_field, invalid_field_type, at_channel, at_column, ChartEncodingValidationResult, ok,
  config_error, required_channels_for, channel_allows_type, selected_field, index_fields,
  check_required, check_channels, check_columns, all_channels, no_fields, validate_chart_encoding,
  require, match_type, check_channel,
}

abbrev same_channel : Channel → Channel → Bool
same_channel on_x on_x = true
same_channel on_y on_y = true
same_channel on_series on_series = true
same_channel on_value on_value = true
same_channel on_label on_label = true
same_channel _ _ = false

abbrev IsRequired : String → Channel → Type 0
IsRequired chart_type channel = any (same_channel channel) (required_channels_for chart_type) ≡ true

abbrev IsUnfit : Channel → Option SqlFieldMetadata → Type 0
IsUnfit channel none = ⊥
IsUnfit channel (some f) =
    channel_allows_type channel (normalize_validation_field_type f.type) ≡ false

-- What each error says of the encoding.
abbrev pub IsExplained :
    String
    → ChartEncoding
    → List (String × SqlFieldMetadata)
    → ChartEncodingValidationResult
    → Type 0
IsExplained t e index ok = Unit
IsExplained t e index (config_error missing_required_channel (at_channel channel) none) =
    IsRequired t channel × (selected_field e channel ≡ none)
IsExplained t e index (config_error unknown_field (at_channel channel) (some field)) =
    (selected_field e channel ≡ some field) × (lookup field index ≡ none)
IsExplained t e index (config_error invalid_field_type (at_channel channel) (some field)) =
    (selected_field e channel ≡ some field) × IsUnfit channel (lookup field index)
IsExplained t e index (config_error unknown_field (at_column i) (some field)) =
    (get_elem? e.columns i ≡ some field) × (has field index ≡ false)
IsExplained t e index _ = ⊥

require-IsExplained :
    (t : String) (e : ChartEncoding) (index : List (String × SqlFieldMetadata))
    (selected : Option String) (channel : Channel) (rest : ChartEncodingValidationResult)
    → selected_field e channel ≡ selected
    → IsRequired t channel
    → IsExplained t e index rest
    → IsExplained t e index (require selected channel rest)
require-IsExplained t e index none channel rest s r v = (r, s)
require-IsExplained t e index (some field) channel rest s r v = v

check_required-IsExplained :
    (t : String) (e : ChartEncoding) (index : List (String × SqlFieldMetadata))
    (channels : List Channel) (rest : ChartEncodingValidationResult)
    → All (IsRequired t) channels
    → IsExplained t e index rest
    → IsExplained t e index (check_required e channels rest)
unfolding check_required
check_required-IsExplained t e index [] rest r v = v
check_required-IsExplained t e index (channel ∷ channels) rest r v =
    require-IsExplained t e index (selected_field e channel) channel _ refl (r.0)
      (check_required-IsExplained t e index channels rest (r.1) v)

match_type-IsExplained :
    (t : String) (e : ChartEncoding) (index : List (String × SqlFieldMetadata))
    (found : Option SqlFieldMetadata) (channel : Channel) (field : String)
    (rest : ChartEncodingValidationResult)
    → selected_field e channel ≡ some field
    → lookup field index ≡ found
    → IsExplained t e index rest
    → IsExplained t e index (match_type found channel field rest)
match_type-IsExplained t e index none channel field rest s l v = (s, l)
match_type-IsExplained t e index (some f) channel field rest s l v =
    if_rule (IsExplained t e index)
      (channel_allows_type channel (normalize_validation_field_type f.type)) (λ on. v)
      λ off. (s, subst (IsUnfit channel) (sym l) off)

check_channel-IsExplained :
    (t : String) (e : ChartEncoding) (index : List (String × SqlFieldMetadata))
    (selected : Option String) (channel : Channel) (rest : ChartEncodingValidationResult)
    → selected_field e channel ≡ selected
    → IsExplained t e index rest
    → IsExplained t e index (check_channel index selected channel rest)
check_channel-IsExplained t e index none channel rest s v = v
check_channel-IsExplained t e index (some field) channel rest s v =
    match_type-IsExplained t e index (lookup field index) channel field rest s refl v

check_channels-IsExplained :
    (t : String) (e : ChartEncoding) (index : List (String × SqlFieldMetadata))
    (channels : List Channel) (rest : ChartEncodingValidationResult)
    → IsExplained t e index rest
    → IsExplained t e index (check_channels index e channels rest)
unfolding check_channels
check_channels-IsExplained t e index [] rest v = v
check_channels-IsExplained t e index (channel ∷ channels) rest v =
    check_channel-IsExplained t e index (selected_field e channel) channel _ refl
      (check_channels-IsExplained t e index channels rest v)

check_columns-IsExplained :
    (t : String) (e : ChartEncoding) (index : List (String × SqlFieldMetadata)) (i : ℕ)
    (fields : List String)
    → ((k : ℕ) → get_elem? e.columns (i + k) ≡ get_elem? fields k)
    → IsExplained t e index (check_columns index i fields)
unfolding check_columns
check_columns-IsExplained t e index i [] h = tt
check_columns-IsExplained t e index i (field ∷ fields) h =
    if_rule (IsExplained t e index) (has field index)
      (λ there.
        check_columns-IsExplained t e index (i + 1) fields
          λ k. ap (get_elem? e.columns) (shift k) ∙ h (suc k))
      λ missing. (ap (get_elem? e.columns) (omega arith) ∙ h 0, missing)
  where
    shift : (k : ℕ) → i + 1 + k ≡ i + suc k
    shift k = omega arith

required_channels_for-IsRequired : (t : String) → All (IsRequired t) (required_channels_for t)
required_channels_for-IsRequired t =
    if_rule (λ l. All (λ c. any (same_channel c) l ≡ true) l)
      (includes t ("Chart.Line" ∷ "Chart.Bar" ∷ "Chart.Area" ∷ [])) (λ h. (refl, (refl, tt)))
      λ h.
        if_rule (λ l. All (λ c. any (same_channel c) l ≡ true) l) (str_eq t "Chart.Pie")
          (λ k. (refl, (refl, tt))) λ k. tt

-- The result passes, or it names a required channel that selects no field, a channel or a column
-- whose field is not there, or a channel whose field has a type that it cannot draw.
pub validate_chart_encoding-IsExplained :
    (chart_type : String) (e : ChartEncoding) (sql_fields : List SqlFieldMetadata)
    → IsExplained chart_type e
        (index_fields sql_fields [])
        (validate_chart_encoding chart_type e sql_fields)
unfolding validate_chart_encoding
validate_chart_encoding-IsExplained chart_type e sql_fields =
    let index = index_fields sql_fields [] in
    check_required-IsExplained chart_type e index (required_channels_for chart_type) _
      (required_channels_for-IsRequired chart_type)
      (if_rule (IsExplained chart_type e index)
        (str_eq chart_type "Chart.Table" && no_fields sql_fields) (λ bare. tt)
        λ checked. check_channels-IsExplained chart_type e index all_channels _ (
          check_columns-IsExplained chart_type e index 0 e.columns
            λ k. ap (get_elem? e.columns) (omega arith)))
