-- ===== src/Swr/Updates.antt =====
-- The keys of the hooks, and the optimistic updates of the cache.
use glanceus.Prelude.{
  ◌≡◌, refl, sym, ap, ◌∙◌, Bool-cases, inl, inr, str_eq, eq_iff, String, false, not, Option, none,
  some, List, [], ◌∷◌, map, filter, if◌then◌else◌, arith,
}
use glanceus.Prelude.Dict.{lookup}
use glanceus.Prelude.Value.{Value}
use glanceus.Coordinator.State.{Summary, Detail, SourcesWithData}
use glanceus.Swr.{
  fetcher, get_source_data, get_integration_file, get_integration_sources, source_data_key,
  integration_file_key, integration_sources_key, key_unless_empty, DataMap, with_status,
  without_prefix, append_text, first_kind, second_kind, third_kind, optimistic_remove_source,
  optimistic_update_source_status, Request,
}
use glanceus.Swr.Written.{source_of}

-- What the hooks ask for by a name that is not empty.
abbrev pub request_of : Option String → Option Request
request_of none = none
request_of (some key) = fetcher key

without_prefix-append :
    (prefix name : String) → without_prefix prefix (append_text prefix name) ≡ some name
without_prefix-append String.[] name = refl
without_prefix-append (String.◌∷◌ c prefix) name = ground (arith, without_prefix-append prefix name)

-- A key with a prefix that another text lacks is not that text.
other_key :
    (prefix key other name : String)
    → without_prefix prefix key ≡ some name
    → without_prefix prefix other ≡ none
    → str_eq key other ≡ false
other_key prefix key other name h k = elim (Bool-cases (str_eq key other)) [
  | inl same ↦
      absurd (none≢some (sym k ∙ ap (without_prefix prefix) (sym ((eq_iff key other).0 same)) ∙ h))
  | inr differ ↦ differ
]
  where
    none≢some : none ≡ some name → ⊥
    none≢some e = cc

-- A key that starts like one of a named thing is none of the plain keys.
prefixed_key :
    (prefix name : String)
    → without_prefix prefix "sources" ≡ none
    → without_prefix prefix "views" ≡ none
    → without_prefix prefix "settings" ≡ none
    → without_prefix prefix "integration-files" ≡ none
    → without_prefix prefix "integration-presets" ≡ none
    → without_prefix prefix "integration-metadata" ≡ none
    → let key = append_text prefix name in
      fetcher key
      ≡ first_kind (without_prefix "source-data-" key) (
          second_kind
            (without_prefix "integration-file-" key)
            (third_kind (without_prefix "integration-sources-" key)))
unfolding fetcher
prefixed_key prefix name a b c d e f =
    let h = without_prefix-append prefix name in
    let key = append_text prefix name in
    rw
      (
        other_key prefix key "sources" name h a,
        other_key prefix key "views" name h b,
        other_key prefix key "settings" name h c,
        other_key prefix key "integration-files" name h d,
        other_key prefix key "integration-presets" name h e,
        other_key prefix key "integration-metadata" name h f,
      )
      refl

source_data_request :
    (name : String) → fetcher (append_text "source-data-" name) ≡ some (get_source_data name)
source_data_request name = prefixed_key "source-data-" name refl refl refl refl refl refl

integration_file_request :
    (name : String)
    → fetcher (append_text "integration-file-" name) ≡ some (get_integration_file name)
integration_file_request name = prefixed_key "integration-file-" name refl refl refl refl refl refl

integration_sources_request :
    (name : String)
    → fetcher (append_text "integration-sources-" name) ≡ some (get_integration_sources name)
integration_sources_request name =
    prefixed_key "integration-sources-" name refl refl refl refl refl refl

unless_empty :
    (prefix name : String) (r : Request)
    → fetcher (append_text prefix name) ≡ some r
    → request_of (key_unless_empty prefix name) ≡ (if str_eq name "" then none else some r)
unless_empty prefix name r h = elim (Bool-cases (str_eq name "")) [
  | inl empty ↦ rw empty refl
  | inr named ↦ rw named h
]

-- The key that a hook makes of a name stands for the request of that very name, and an empty name
-- for no request.
pub fetcher-key :
    (name : String)
    → (request_of (source_data_key name)
        ≡ (if str_eq name "" then none else some (get_source_data name)))
      × (request_of (integration_file_key name)
          ≡ (if str_eq name "" then none else some (get_integration_file name)))
      × (request_of (integration_sources_key name)
          ≡ (if str_eq name "" then none else some (get_integration_sources name)))
fetcher-key name = (
  unless_empty "source-data-" name (get_source_data name) (source_data_request name),
  unless_empty "integration-file-" name (get_integration_file name) (integration_file_request name),
  unless_empty "integration-sources-" name (get_integration_sources name)
      (integration_sources_request name),
)

filtered_map :
    (id j : String) (m : DataMap)
    → lookup j (filter (λ e. not (str_eq (e.0) id)) m) ≡ (if str_eq j id then none else lookup j m)
filtered_map id j [] = ground arith
filtered_map id j ((k, d) ∷ m) =
    ground (arith, eq_iff k id, eq_iff j id, eq_iff k j, filtered_map id j m)

filtered_sources :
    (id j : String) (list : List Summary)
    → source_of j (filter (λ s. not (str_eq s.id id)) list)
      ≡ (if str_eq j id then none else source_of j list)
filtered_sources id j [] = ground arith
filtered_sources id j (s ∷ list) =
    ground (arith, eq_iff s.id id, eq_iff j id, eq_iff s.id j, filtered_sources id j list)

abbrev pub status_of : Value → Option Summary → Option Summary
status_of status none = none
status_of status (some s) = some (record s { status = status })

updated_sources :
    (id j : String) (status : Value) (list : List Summary)
    → source_of j (map (with_status id status) list)
      ≡ (if str_eq j id then status_of status (source_of j list) else source_of j list)
updated_sources id j status [] = ground arith
updated_sources id j status (s ∷ list) = elim (Bool-cases (str_eq s.id id)) [
  | inl same ↦
      rw (same, with_status)
        (ground (
          arith,
          same,
          eq_iff s.id id,
          eq_iff j id,
          eq_iff s.id j,
          updated_sources id j status list,
        ))
  | inr other ↦
      rw (other, with_status)
        (ground (
          arith,
          other,
          eq_iff s.id id,
          eq_iff j id,
          eq_iff s.id j,
          updated_sources id j status list,
        ))
]

abbrev pub sources_in : Option SourcesWithData → String → Option Summary
sources_in none id = none
sources_in (some c) id = source_of id c.sources

abbrev pub details_in : Option SourcesWithData → String → Option Detail
details_in none id = none
details_in (some c) id = lookup id c.data_map

-- The optimistic updates of a cache: a removal takes the source and its data out, and a new status
-- changes the status of the source; both leave every other source and its data alone, and a cache
-- that is not there as well.
pub optimistic_update_lem :
    (id j : String) (status : Value) (c : Option SourcesWithData)
    → (sources_in (optimistic_remove_source id c) j
        ≡ (if str_eq j id then none else sources_in c j))
      × (details_in (optimistic_remove_source id c) j
          ≡ (if str_eq j id then none else details_in c j))
      × (sources_in (optimistic_update_source_status id status c) j
          ≡ (if str_eq j id then status_of status (sources_in c j) else sources_in c j))
      × (details_in (optimistic_update_source_status id status c) j ≡ details_in c j)
unfolding optimistic_remove_source optimistic_update_source_status
optimistic_update_lem id j status none = (ground arith, ground arith, ground arith, refl)
optimistic_update_lem id j status (some c) = (
  filtered_sources id j c.sources,
  filtered_map id j c.data_map,
  updated_sources id j status c.sources,
  refl,
)
