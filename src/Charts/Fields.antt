-- ===== src/Charts/Fields.antt =====
-- chartFieldValidation.ts, its first part: the fields of a chart and their types, from metadata or
-- from the rows.
use glanceus.Prelude.{
  ℕ, zero, suc, ◌-◌, leb, String, Bool, true, false, not, ◌&&◌, Option, none, some, List, [], ◌∷◌,
  ◌++◌, map, filter, if◌then◌else◌, includes, dedupe,
}
use Prim.Native.Char.{Char, code}
use glanceus.Prelude.Int.{Num}
use glanceus.Prelude.Text.{codes, is_space}
use glanceus.Prelude.Value.{Value, undefined, null, boolean, number, string}
use glanceus.Prelude.Dict.{lookup}
use glanceus.Charts.Numeric.{is_numeric_text}

-- A type: a text, or a property that every object inherits, known by the text that String makes
-- of it.
pub data FieldType : Type 0 where
  named : String → FieldType
  inherited : String → FieldType

-- SqlFieldMetadata: a type that is null or missing is `none`.
pub record SqlFieldMetadata : Type 0 where
  pub name : String
  pub type : Option FieldType

abbrev pub numeric_types : List String
numeric_types = "integer" ∷ "float" ∷ "decimal" ∷ "number" ∷ []

abbrev pub temporal_types : List String
temporal_types = "datetime" ∷ "date" ∷ "timestamp" ∷ []

abbrev pub categorical_types : List String
categorical_types = "text" ∷ "string" ∷ "boolean" ∷ []

abbrev pub supported_field_types : List String
supported_field_types =
    numeric_types ++ (temporal_types ++ (categorical_types ++ ("time" ∷ "unknown" ∷ [])))

abbrev pub field_type_aliases : List (String × String)
field_type_aliases =
    ("int", "integer")
    ∷ ("tinyint", "integer")
    ∷ ("smallint", "integer")
    ∷ ("bigint", "integer")
    ∷ ("real", "float")
    ∷ ("double", "float")
    ∷ ("numeric", "decimal")
    ∷ ("bool", "boolean")
    ∷ ("varchar", "string")
    ∷ ("char", "string")
    ∷ ("uuid", "string")
    ∷ ("json", "string")
    ∷ ("jsonb", "string")
    ∷ ("timestamp", "datetime")
    ∷ ("timestamptz", "datetime")
    ∷ ("timetz", "time")
    ∷ []

-- The properties of a plain object's prototype whose names are lower case throughout.
abbrev pub inherited_properties : List (String × String)
inherited_properties =
    ("constructor", "function Object() { [native code] }") ∷ ("__proto__", "[object Object]") ∷ []

-- trim, on strings.
abbrev skip_spaces : String → String
skip_spaces String.[] = String.[]
skip_spaces (String.◌∷◌ c s) =
    let rest = skip_spaces s in if is_space (code c) then rest else String.◌∷◌ c s

abbrev keep_unless_blank : Bool → Char → String → String
keep_unless_blank space c (String.◌∷◌ d s) = String.◌∷◌ c (String.◌∷◌ d s)
keep_unless_blank true c String.[] = String.[]
keep_unless_blank false c String.[] = String.◌∷◌ c String.[]

abbrev drop_last_spaces : String → String
drop_last_spaces String.[] = String.[]
drop_last_spaces (String.◌∷◌ c s) = keep_unless_blank (is_space (code c)) c (drop_last_spaces s)

abbrev pub trim : String → String
trim s = drop_last_spaces (skip_spaces s)

abbrev pub is_blank : String → Bool
is_blank String.[] = true
is_blank (String.◌∷◌ c s) = false

abbrev nth_of : ℕ → String → Char → Char
nth_of i String.[] otherwise = otherwise
nth_of zero (String.◌∷◌ c s) otherwise = c
nth_of (suc i) (String.◌∷◌ c s) otherwise = nth_of i s otherwise

abbrev to_lower_char : Char → Char
to_lower_char c =
    if leb b'A' (code c) && leb (code c) b'Z'
    then nth_of (code c - b'A') "abcdefghijklmnopqrstuvwxyz" c
    else c

-- toLowerCase, on the letters of ASCII. The results are compared with names of types, and no other
-- letter has a letter of those names as its lower case.
unfoldable pub to_lower_case : String → String
to_lower_case String.[] = String.[]
to_lower_case (String.◌∷◌ c s) = String.◌∷◌ (to_lower_char c) (to_lower_case s)

-- isNumericLike.
unfoldable pub is_numeric_like : Value → Bool
unfolding is_numeric_text
is_numeric_like (number (Num.finite n)) = true
is_numeric_like (string s) =
    let trimmed = trim s in not (is_blank trimmed) && is_numeric_text (codes trimmed)
is_numeric_like _ = false

abbrev is_nullish : Value → Bool
is_nullish undefined = true
is_nullish null = true
is_nullish _ = false

abbrev is_boolean : Value → Bool
is_boolean (boolean b) = true
is_boolean _ = false

abbrev is_dated : (String → Bool) → Value → Bool
is_dated is_date (string s) = is_date s
is_dated is_date _ = false

abbrev pub every_value : (Value → Bool) → List Value → Bool
every_value p [] = true
every_value p (v ∷ vs) = p v && every_value p vs

abbrev infer_of : (String → Bool) → List Value → Option FieldType
infer_of is_date [] = none
infer_of is_date (v ∷ vs) =
    if every_value is_numeric_like (v ∷ vs)
    then some (named "number")
    else if every_value is_boolean (v ∷ vs)
    then some (named "boolean")
    else if every_value (is_dated is_date) (v ∷ vs)
    then some (named "datetime")
    else some (named "string")

-- inferFieldType. Which texts `new Date(text)` reads is up to the engine: `is_date` stands for it.
unfoldable pub infer_field_type : (String → Bool) → List Value → Option FieldType
unfolding is_numeric_like
infer_field_type is_date values = infer_of is_date (filter (λ v. not (is_nullish v)) values)

-- A row: the properties of an object in their order.
abbrev pub Row : Type 0
Row = List (String × Value)

abbrev cell_of : Option Value → Value
cell_of none = undefined
cell_of (some v) = v

abbrev keys_of : List Row → List String
keys_of [] = []
keys_of (row ∷ rows) = map (λ e. e.0) row ++ keys_of rows

-- deriveSqlFieldsFromRows; `[]` for what is not an array.
unfoldable pub derive_sql_fields_from_rows : (String → Bool) → List Row → List SqlFieldMetadata
unfolding infer_field_type
derive_sql_fields_from_rows is_date rows =
    map
      (λ name. record {
        name = name;
        type = infer_field_type is_date (map (λ row. cell_of (lookup name row)) rows);
      })
      (dedupe (keys_of rows))

abbrev supported_or_unknown : String → FieldType
supported_or_unknown normalized =
    if includes normalized supported_field_types then named normalized else named "unknown"

abbrev pub alias_of : Option String → Option String → String → FieldType
alias_of (some mapped) property normalized = named mapped
alias_of none (some text) normalized = inherited text
alias_of none none normalized = supported_or_unknown normalized

-- normalizeMetadataFieldType, of `String(type ?? "")`.
unfoldable pub normalize_metadata_field_type : String → FieldType
unfolding to_lower_case
normalize_metadata_field_type type =
    let normalized = to_lower_case (trim type) in
    if is_blank normalized
    then named "unknown"
    else alias_of (lookup normalized field_type_aliases) (lookup normalized inherited_properties)
        normalized

-- An entry of the metadata: not an object, or its name and `String(type ?? "")`.
pub data FieldEntry : Type 0 where
  not_an_object : FieldEntry
  entry : (name : Value) (type : String) → FieldEntry

abbrev pub text_of : Value → String
text_of (string s) = s
text_of _ = ""

abbrev push_named : String → String → List SqlFieldMetadata → List SqlFieldMetadata
push_named name type rest =
    if is_blank name
    then rest
    else record { name = name; type = some (normalize_metadata_field_type type) } ∷ rest

-- parseChartFieldsSource; `[]` for what is not an array.
unfoldable pub parse_chart_fields_source : List FieldEntry → List SqlFieldMetadata
parse_chart_fields_source [] = []
parse_chart_fields_source (not_an_object ∷ entries) = parse_chart_fields_source entries
parse_chart_fields_source (entry name type ∷ entries) =
    push_named (trim (text_of name)) type (parse_chart_fields_source entries)

abbrev or_fields : List SqlFieldMetadata → List SqlFieldMetadata → List SqlFieldMetadata
or_fields [] derived = derived
or_fields (f ∷ fs) derived = f ∷ fs

-- resolveChartFieldsSource.
unfoldable pub resolve_chart_fields_source :
    (String → Bool) → List FieldEntry → List Row → List SqlFieldMetadata
unfolding parse_chart_fields_source derive_sql_fields_from_rows
resolve_chart_fields_source is_date fields_source rows =
    or_fields (parse_chart_fields_source fields_source) (derive_sql_fields_from_rows is_date rows)

abbrev type_text : FieldType → String
type_text (named text) = text
type_text (inherited text) = text

-- normalizeValidationFieldType, of `String(type ?? "")`.
abbrev pub normalize_validation_field_type : Option FieldType → String
normalize_validation_field_type none = ""
normalize_validation_field_type (some type) = to_lower_case (trim (type_text type))
