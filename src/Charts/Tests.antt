-- ===== src/Charts/Tests.antt =====
-- Charts at concrete fields.
use glanceus.Prelude.{◌≡◌, refl, String, true, false, Option, some, List, [], ◌∷◌, All, ◌↔◌}
use glanceus.Prelude.Text.{is_space}
use glanceus.Prelude.Value.{string, null, boolean}
use glanceus.Charts.Fields.{
  SqlFieldMetadata, named, inherited, FieldEntry, entry, not_an_object,
  normalize_metadata_field_type, parse_chart_fields_source, infer_field_type, to_lower_case,
}
use glanceus.Charts.Encoding.{
  ChartEncoding, ChartEncodingChannel, no_encoding, ok, config_error, unknown_field, at_column,
  validate_chart_encoding, index_fields,
}
use glanceus.Charts.Explained.{IsExplained, validate_chart_encoding-IsExplained}
use glanceus.Charts.State.{
  classify_chart_state, ready, is_refreshing, is_in_error, has_rows, is_ready,
}
use glanceus.Charts.Types.{IsKnownField, parse_chart_fields_source-All}
use glanceus.Charts.Valid.{IsValid, validate_chart_encoding_iff, classify_chart_state_iff}

upper_case_alias : normalize_metadata_field_type "  BigInt " ≡ named "integer"
unfolding normalize_metadata_field_type is_space
upper_case_alias = refl

-- A type that is named like an inherited property is not a text.
inherited_type :
    normalize_metadata_field_type "constructor" ≡ inherited "function Object() { [native code] }"
unfolding normalize_metadata_field_type is_space
inherited_type = refl

inferred :
    infer_field_type (λ s. false) (null ∷ string " -1.5e3" ∷ string "0x1F" ∷ [])
    ≡ some (named "number")
unfolding infer_field_type is_space
inferred = refl

inferred_text :
    infer_field_type (λ s. false) (string "1." ∷ string "1e" ∷ []) ≡ some (named "string")
unfolding infer_field_type is_space
inferred_text = refl

abbrev channel : String → Option ChartEncodingChannel
channel field = some (record { field = some field })

abbrev bars : ChartEncoding
bars = record no_encoding { x = channel "day"; y = channel "n" }

abbrev metadata : List FieldEntry
metadata =
    entry (string " day") "date"
    ∷ not_an_object
    ∷ entry (boolean true) "int"
    ∷ entry (string "n") "INT"
    ∷ []

abbrev fields : List SqlFieldMetadata
fields =
    record { name = "day"; type = some (named "date") }
    ∷ record { name = "n"; type = some (named "integer") }
    ∷ []

parsed_fields : parse_chart_fields_source metadata ≡ fields
unfolding parse_chart_fields_source normalize_metadata_field_type is_space
parsed_fields = refl

bars_pass : validate_chart_encoding "Chart.Bar" bars fields ≡ ok
unfolding validate_chart_encoding to_lower_case is_space
bars_pass = refl

column_fails :
    validate_chart_encoding "Chart.Table" (record no_encoding { columns = "n" ∷ "m" ∷ [] }) fields
    ≡ config_error unknown_field (at_column 1) (some "m")
unfolding validate_chart_encoding to_lower_case is_space
column_fails = refl

parse_chart_fields_source-All_example : All IsKnownField (parse_chart_fields_source metadata)
parse_chart_fields_source-All_example = parse_chart_fields_source-All metadata

validate_chart_encoding_iff_example :
    (validate_chart_encoding "Chart.Bar" bars fields ≡ ok) ↔ IsValid "Chart.Bar" bars fields
validate_chart_encoding_iff_example = validate_chart_encoding_iff "Chart.Bar" bars fields

classify_chart_state_iff_example :
    (classify_chart_state (record {
      source_status = some is_ready;
      rows = some 2;
      runtime_error_given = false;
      encoding_validation = validate_chart_encoding "Chart.Bar" bars fields;
    })
      ≡ ready)
    ↔ ((is_refreshing (some is_ready) ≡ false)
        × (is_in_error (some is_ready) ≡ false)
        × (false ≡ false)
        × (has_rows (some 2) ≡ true)
        × IsValid "Chart.Bar" bars fields)
classify_chart_state_iff_example =
    classify_chart_state_iff (some is_ready) (some 2) false "Chart.Bar" bars fields

abbrev lost_column : ChartEncoding
lost_column = record no_encoding { columns = "n" ∷ "m" ∷ [] }

validate_chart_encoding-IsExplained_example :
    IsExplained "Chart.Table" lost_column
      (index_fields fields [])
      (validate_chart_encoding "Chart.Table" lost_column fields)
validate_chart_encoding-IsExplained_example =
    validate_chart_encoding-IsExplained "Chart.Table" lost_column fields
