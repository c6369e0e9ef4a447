-- ===== src/Charts/Valid.antt =====
-- validateChartEncoding against a declarative description of the encodings that fit.
use glanceus.Prelude.{
  ℕ, ◌+◌, ◌≡◌, refl, String, str_eq, Bool, true, false, not, ◌&&◌, Bool-cases, Option, none, some,
  List, [], ◌∷◌, All, if◌then◌else◌, inl, inr, ◌↔◌, ◌||◌, arith,
}
use glanceus.Prelude.Dict.{lookup, has}
use glanceus.Charts.Fields.{SqlFieldMetadata, normalize_validation_field_type}
use glanceus.Charts.State.{
  ChartSourceStatus, loading, runtime_error, empty, ready, state_of, is_refreshing, is_in_error,
  has_rows, classify_chart_state,
}
use glanceus.Charts.Encoding.{
  ChartEncoding, Channel, ChartEncodingValidationResult, ok, config_error, required_channels_for,
  channel_allows_type, selected_field, index_fields, check_required, check_channels, check_columns,
  all_channels, no_fields, validate_chart_encoding, require, match_type, check_channel,
}

abbrev pub IsSelectedIn : Option String → Type 0
IsSelectedIn none = ⊥
IsSelectedIn (some field) = Unit

-- A channel that selects a field selects one that is there, of a type that it can draw.
abbrev pub FitsIn : Channel → Option SqlFieldMetadata → Type 0
FitsIn channel none = ⊥
FitsIn channel (some f) =
    channel_allows_type channel (normalize_validation_field_type f.type) ≡ true

abbrev pub Fits : List (String × SqlFieldMetadata) → Channel → Option String → Type 0
Fits index channel none = Unit
Fits index channel (some field) = FitsIn channel (lookup field index)

abbrev pub IsValid : String → ChartEncoding → List SqlFieldMetadata → Type 0
IsValid chart_type e sql_fields =
    All (λ channel. IsSelectedIn (selected_field e channel)) (required_channels_for chart_type)
    × (str_eq chart_type "Chart.Table" && no_fields sql_fields ≡ false
        → All (λ channel. Fits (index_fields sql_fields []) channel (selected_field e channel))
            all_channels
          × All (λ field. has field (index_fields sql_fields []) ≡ true) e.columns)

require_iff :
    (selected : Option String) (channel : Channel) (rest : ChartEncodingValidationResult)
    → (require selected channel rest ≡ ok) ↔ (IsSelectedIn selected × (rest ≡ ok))
require_iff none channel rest = (λ h. absurd (ground (arith, h)), λ p. absurd (p.0))
require_iff (some field) channel rest = (λ h. (tt, h), λ p. p.1)

check_required_iff :
    (e : ChartEncoding) (channels : List Channel) (rest : ChartEncodingValidationResult)
    → (check_required e channels rest ≡ ok)
      ↔ (All (λ channel. IsSelectedIn (selected_field e channel)) channels × (rest ≡ ok))
unfolding check_required
check_required_iff e [] rest = (λ h. (tt, h), λ p. p.1)
check_required_iff e (channel ∷ channels) rest =
    let one = require_iff (selected_field e channel) channel (check_required e channels rest) in
    let more = check_required_iff e channels rest in
    (
      λ h. (((one.0 h).0, (more.0 ((one.0 h).1)).0), (more.0 ((one.0 h).1)).1),
      λ p. one.1 (p.0.0, more.1 (p.0.1, p.1)),
    )

match_type_iff :
    (found : Option SqlFieldMetadata) (channel : Channel) (field : String)
    (rest : ChartEncodingValidationResult)
    → (match_type found channel field rest ≡ ok) ↔ (FitsIn channel found × (rest ≡ ok))
match_type_iff none channel field rest = (λ h. absurd (ground (arith, h)), λ p. absurd (p.0))
match_type_iff (some f) channel field rest =
    elim (Bool-cases (channel_allows_type channel (normalize_validation_field_type f.type))) [
      | inl on ↦ rw on (λ h. (refl, h), λ p. p.1)
      | inr off ↦ rw off (λ h. absurd (ground (arith, h)), λ p. absurd (ground (arith, p.0)))
    ]

check_channel_iff :
    (index : List (String × SqlFieldMetadata)) (selected : Option String) (channel : Channel)
    (rest : ChartEncodingValidationResult)
    → (check_channel index selected channel rest ≡ ok) ↔ (Fits index channel selected × (rest ≡ ok))
check_channel_iff index none channel rest = (λ h. (tt, h), λ p. p.1)
check_channel_iff index (some field) channel rest =
    match_type_iff (lookup field index) channel field rest

check_channels_iff :
    (index : List (String × SqlFieldMetadata)) (e : ChartEncoding) (channels : List Channel)
    (rest : ChartEncodingValidationResult)
    → (check_channels index e channels rest ≡ ok)
      ↔ (All (λ channel. Fits index channel (selected_field e channel)) channels × (rest ≡ ok))
unfolding check_channels
check_channels_iff index e [] rest = (λ h. (tt, h), λ p. p.1)
check_channels_iff index e (channel ∷ channels) rest =
    let one =
      check_channel_iff index (selected_field e channel) channel
        (check_channels index e channels rest) in
    let more = check_channels_iff index e channels rest in
    (
      λ h. (((one.0 h).0, (more.0 ((one.0 h).1)).0), (more.0 ((one.0 h).1)).1),
      λ p. one.1 (p.0.0, more.1 (p.0.1, p.1)),
    )

check_columns_iff :
    (index : List (String × SqlFieldMetadata)) (i : ℕ) (fields : List String)
    → (check_columns index i fields ≡ ok) ↔ All (λ field. has field index ≡ true) fields
unfolding check_columns
check_columns_iff index i [] = (λ h. tt, λ p. refl)
check_columns_iff index i (field ∷ fields) =
    let more = check_columns_iff index (i + 1) fields in
    elim (Bool-cases (has field index)) [
      | inl on ↦ rw on (λ h. (refl, more.0 h), λ p. more.1 (p.1))
      | inr off ↦ rw off (λ h. absurd (ground (arith, h)), λ p. absurd (ground (arith, p.0)))
    ]

-- An encoding passes iff every required channel selects a field and, but for a table without
-- fields, every channel that selects one fits it and every column has its field.
pub validate_chart_encoding_iff :
    (chart_type : String) (e : ChartEncoding) (sql_fields : List SqlFieldMetadata)
    → (validate_chart_encoding chart_type e sql_fields ≡ ok) ↔ IsValid chart_type e sql_fields
unfolding validate_chart_encoding
validate_chart_encoding_iff chart_type e sql_fields =
    let index = index_fields sql_fields [] in
    let first = check_required_iff e (required_channels_for chart_type) in
    let second = check_channels_iff index e all_channels (check_columns index 0 e.columns) in
    let third = check_columns_iff index 0 e.columns in
    elim (Bool-cases (str_eq chart_type "Chart.Table" && no_fields sql_fields)) [
      | inl on ↦ rw on (
        λ h. (((first ok).0 h).0, λ off. absurd (ground (arith, off))),
        λ p. (first ok).1 (p.0, refl),
      )
      | inr off ↦ rw off (
        λ h.
            let one = (first _).0 h in
            let two = second.0 (one.1) in (one.0, λ off. (two.0, third.0 (two.1))),
        λ p. let later = (p.1) refl in (first _).1 (p.0, second.1 (later.0, third.1 (later.1))),
      )
    ]

state_of_iff : (result : ChartEncodingValidationResult) → (state_of result ≡ ready) ↔ (result ≡ ok)
state_of_iff ok = (λ h. refl, λ h. refl)
state_of_iff (config_error c p f) =
    (λ h. absurd (ground (arith, h)), λ h. absurd (ground (arith, h)))

-- A chart draws its rows iff its source is neither refreshing nor in error, no runtime error is
-- given, there are rows, and its encoding is valid for the fields.
pub classify_chart_state_iff :
    (status : Option ChartSourceStatus) (rows : Option ℕ) (failed : Bool) (chart_type : String)
    (e : ChartEncoding) (sql_fields : List SqlFieldMetadata)
    → (classify_chart_state (record {
      source_status = status;
      rows = rows;
      runtime_error_given = failed;
      encoding_validation = validate_chart_encoding chart_type e sql_fields;
    })
        ≡ ready)
      ↔ ((is_refreshing status ≡ false)
          × (is_in_error status ≡ false)
          × (failed ≡ false)
          × (has_rows rows ≡ true)
          × IsValid chart_type e sql_fields)
unfolding classify_chart_state
classify_chart_state_iff status rows failed chart_type e sql_fields =
    let drawn = state_of_iff (validate_chart_encoding chart_type e sql_fields) in
    let valid = validate_chart_encoding_iff chart_type e sql_fields in
    cases (is_refreshing status) (is_in_error status) failed (has_rows rows)
      (λ h. valid.0 (drawn.0 h), λ v. drawn.1 (valid.1 v))
  where
    cases :
        {V : Type 0} (a b c d : Bool)
        → (state_of (validate_chart_encoding chart_type e sql_fields) ≡ ready) ↔ V
        → ((if a
              then loading
              else if b || c
              then runtime_error
              else if not d
              then empty
              else state_of (validate_chart_encoding chart_type e sql_fields))
            ≡ ready)
          ↔ ((a ≡ false) × (b ≡ false) × (c ≡ false) × (d ≡ true) × V)
    cases true b c d v = (λ h. absurd (ground (arith, h)), λ p. absurd (ground (arith, p.0)))
    cases false true c d v = (λ h. absurd (ground (arith, h)), λ p. absurd (ground (arith, p.1)))
    cases false false true d v =
        (λ h. absurd (ground (arith, h)), λ p. absurd (ground (arith, p.2)))
    cases false false false false v =
        (λ h. absurd (ground (arith, h)), λ p. absurd (ground (arith, p.3)))
    cases false false false true v = (λ h. (refl, refl, refl, refl, v.0 h), λ p. v.1 (p.4))
