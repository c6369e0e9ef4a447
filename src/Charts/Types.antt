-- ===== src/Charts/Types.antt =====
-- The types that the metadata of a chart ends with.
use glanceus.Prelude.{
  ◌≡◌, refl, String, true, false, Option, none, some, List, [], ◌∷◌, includes, All, if_rule,
}
use glanceus.Prelude.Dict.{lookup, lookup-All}
use glanceus.Charts.Fields.{
  SqlFieldMetadata, FieldType, named, inherited, supported_field_types, field_type_aliases,
  inherited_properties, alias_of, text_of, trim, is_blank, to_lower_case,
  normalize_metadata_field_type, FieldEntry, entry, not_an_object, parse_chart_fields_source,
}

-- A type is one of the supported ones, or it is not a text and comes from a name that every
-- object inherits.
abbrev pub IsKnown : String → FieldType → Type 0
IsKnown normalized (named s) = includes s supported_field_types ≡ true
IsKnown normalized (inherited text) = lookup normalized inherited_properties ≡ some text

aliases_supported : All (λ e. includes (e.1) supported_field_types ≡ true) field_type_aliases
aliases_supported = (
  refl,
  (
    refl,
    (
      refl,
      (
        refl,
        (
          refl,
          (
            refl,
            (refl, (refl, (refl, (refl, (refl, (refl, (refl, (refl, (refl, (refl, tt)))))))))),
          ),
        ),
      ),
    ),
  ),
)

alias_of-IsKnown :
    (normalized : String) (mapped property : Option String)
    → lookup normalized field_type_aliases ≡ mapped
    → lookup normalized inherited_properties ≡ property
    → IsKnown normalized (alias_of mapped property normalized)
alias_of-IsKnown normalized (some s) property e k =
    lookup-All (λ e. includes (e.1) supported_field_types ≡ true) normalized s field_type_aliases
      aliases_supported e
alias_of-IsKnown normalized none (some text) e k = k
alias_of-IsKnown normalized none none e k =
    if_rule (IsKnown normalized) (includes normalized supported_field_types) (λ h. h) (λ h. refl)

-- Metadata ends with a supported type, but for a name that every object inherits.
pub normalize_metadata_field_type-IsKnown :
    (type : String) → IsKnown (to_lower_case (trim type)) (normalize_metadata_field_type type)
unfolding normalize_metadata_field_type
normalize_metadata_field_type-IsKnown type =
    if_rule (IsKnown (to_lower_case (trim type))) (is_blank (to_lower_case (trim type)))
      (λ blank. refl) λ text. alias_of-IsKnown (to_lower_case (trim type)) _ _ refl refl

abbrev pub IsKnownType : Option FieldType → Type 0
IsKnownType none = ⊥
IsKnownType (some type) = (n : String) × IsKnown n type

abbrev pub IsKnownField : SqlFieldMetadata → Type 0
IsKnownField f = (is_blank f.name ≡ false) × IsKnownType f.type

-- Every field that the metadata gives has a name, and a type that is supported or inherited.
pub parse_chart_fields_source-All :
    (entries : List FieldEntry) → All IsKnownField (parse_chart_fields_source entries)
unfolding parse_chart_fields_source
parse_chart_fields_source-All [] = tt
parse_chart_fields_source-All (not_an_object ∷ entries) = parse_chart_fields_source-All entries
parse_chart_fields_source-All (entry name type ∷ entries) =
    if_rule (All IsKnownField) (is_blank (trim (text_of name)))
      (λ blank. parse_chart_fields_source-All entries)
      λ text. (
        (text, (to_lower_case (trim type), normalize_metadata_field_type-IsKnown type)),
        parse_chart_fields_source-All entries,
      )
