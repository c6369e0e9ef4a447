-- ===== src/Swr.antt =====
-- ui-react/src/hooks/useSWR.ts: which request a cache key stands for, how the sources and their
-- data are fetched with the cache at hand, and the optimistic updates of the cache. What the
-- server answers is given: for a source's data `none` is an error, `some none` is null.
pub mod Written
pub mod Fetched
pub mod Updates
mod Tests
use glanceus.Prelude.{
  str_eq, String, Bool, true, false, not, ◌||◌, Option, none, some, List, [], ◌∷◌, map, filter,
  if◌then◌else◌, includes,
}
use Prim.Native.Char.{Char, code}
use glanceus.Prelude.{◌==◌, ℕ}
use glanceus.Prelude.Dict.{lookup, set}
use glanceus.Prelude.Value.{Value, or_undefined, is_truthy}
use glanceus.Coordinator.State.{Summary, Detail, SourcesWithData}

-- The methods of the HTTP client that the fetcher calls.
pub data Request : Type 0 where
  get_sources get_views get_settings : Request
  list_integration_files list_integration_presets list_integration_file_metadata : Request
  get_source_data get_integration_file get_integration_sources : String → Request

-- key.startsWith(prefix), and the key without it.
abbrev pub same_char : Char → Char → Bool
same_char c d = code c == code d

abbrev pub without_prefix : String → String → Option String
without_prefix String.[] key = some key
without_prefix (String.◌∷◌ c prefix) String.[] = none
without_prefix (String.◌∷◌ c prefix) (String.◌∷◌ d key) =
    let rest = without_prefix prefix key in if same_char c d then rest else none

abbrev pub third_kind : Option String → Option Request
third_kind none = none
third_kind (some name) = some (get_integration_sources name)

abbrev pub second_kind : Option String → Option Request → Option Request
second_kind none other = other
second_kind (some name) other = some (get_integration_file name)

abbrev pub first_kind : Option String → Option Request → Option Request
first_kind none other = other
first_kind (some id) other = some (get_source_data id)

-- fetcher: `none` for an unknown key, at which it throws.
unfoldable pub fetcher : String → Option Request
fetcher key =
    if str_eq key "sources"
    then some get_sources
    else if str_eq key "views"
    then some get_views
    else if str_eq key "settings"
    then some get_settings
    else if str_eq key "integration-files"
    then some list_integration_files
    else if str_eq key "integration-presets"
    then some list_integration_presets
    else if str_eq key "integration-metadata"
    then some list_integration_file_metadata
    else first_kind (without_prefix "source-data-" key) (
        second_kind (without_prefix "integration-file-" key)
          (third_kind (without_prefix "integration-sources-" key)))

-- The keys of useSourceData, useIntegrationFile and useIntegrationSources.
abbrev pub append_text : String → String → String
append_text String.[] t = t
append_text (String.◌∷◌ c s) t = String.◌∷◌ c (append_text s t)

abbrev pub key_unless_empty : String → String → Option String
key_unless_empty prefix name = if str_eq name "" then none else some (append_text prefix name)

abbrev pub source_data_key : String → Option String
source_data_key = key_unless_empty "source-data-"

abbrev pub integration_file_key : String → Option String
integration_file_key = key_unless_empty "integration-file-"

abbrev pub integration_sources_key : String → Option String
integration_sources_key = key_unless_empty "integration-sources-"

abbrev pub DataMap : Type 0
DataMap = List (String × Detail)

abbrev pub ids_of : List Summary → List String
ids_of = map (λ source. source.id)

-- The entries of the cached map whose source is listed.
abbrev pub keep_listed : List String → DataMap → DataMap → DataMap
keep_listed ids [] m = m
keep_listed ids ((id, detail) ∷ entries) m =
    keep_listed ids entries (if includes id ids then set id detail m else m)

-- Promise.all: one error is the error of all.
abbrev pub and_result :
    String
    → Option (Option Detail)
    → Option (List (String × Option Detail))
    → Option (List (String × Option Detail))
and_result id none rest = none
and_result id (some data_or_null) none = none
and_result id (some data_or_null) (some rest) = some ((id, data_or_null) ∷ rest)

abbrev pub fetch_all :
    (String → Option (Option Detail)) → List Summary → Option (List (String × Option Detail))
fetch_all fetch [] = some []
fetch_all fetch (source ∷ list) = and_result source.id (fetch source.id) (fetch_all fetch list)

-- The results that are not null, written into the map.
abbrev pub write_result : String → Option Detail → DataMap → DataMap
write_result id none m = m
write_result id (some detail) m = set id detail m

abbrev pub write_results : List (String × Option Detail) → DataMap → DataMap
write_results [] m = m
write_results ((id, data_or_null) ∷ results) m =
    write_results results (write_result id data_or_null m)

-- needsUpdate; `later` is the engine's `>`.
abbrev pub is_older : (Value → Value → Bool) → Value → Value → Bool
is_older later listed cached =
    if not (is_truthy listed)
    then true
    else if not (is_truthy cached)
    then true
    else later listed cached

abbrev pub entry_needs_update : (Value → Value → Bool) → Value → Option Detail → Bool
entry_needs_update later listed none = true
entry_needs_update later listed (some detail) =
    is_older later listed (or_undefined (lookup "updated_at" detail))

abbrev pub needs_update : (Value → Value → Bool) → DataMap → Summary → Bool
needs_update later cached source =
    entry_needs_update later source.updated_at (lookup source.id cached)

-- The unchanged sources' entries, from the cache.
abbrev pub write_cached : DataMap → List Summary → DataMap → DataMap
write_cached cached [] m = m
write_cached cached (source ∷ list) m =
    write_cached cached list (write_result source.id (lookup source.id cached) m)

abbrev pub with_results :
    List Summary
    → (DataMap → DataMap)
    → Option (List (String × Option Detail))
    → Option SourcesWithData
with_results list finish none = none
with_results list finish (some results) =
    some (record { sources = list; data_map = finish (write_results results []) })

-- `cachedData?.dataMap ?? {}`.
abbrev pub cached_map : Option DataMap → DataMap
cached_map none = []
cached_map (some m) = m

abbrev pub hydrate :
    (Value → Value → Bool)
    → (String → Option (Option Detail))
    → Option DataMap
    → List Summary
    → Option SourcesWithData
hydrate later fetch none list = with_results list (λ m. m) (fetch_all fetch list)
hydrate later fetch (some cached) list =
    with_results list (write_cached cached (filter (λ s. not (needs_update later cached s)) list))
      (fetch_all fetch (filter (needs_update later cached) list))

-- sourcesWithDataFetcher, with what getSources answers; `none` for an error. Of the cached data it
-- reads the map, and one that is not there as an empty one.
unfoldable pub sources_with_data_fetcher :
    (Value → Value → Bool)
    → (String → Option (Option Detail))
    → Option DataMap
    → Bool
    → Option (List Summary)
    → Option SourcesWithData
sources_with_data_fetcher later fetch cached hydrate_details none = none
sources_with_data_fetcher later fetch cached true (some list) = hydrate later fetch cached list
sources_with_data_fetcher later fetch cached false (some list) =
    some (record { sources = list; data_map = keep_listed (ids_of list) (cached_map cached) [] })

-- optimisticUpdateSources and updateSourcesSnapshot: the function of the cached data.
abbrev pub optimistic_update_sources :
    (SourcesWithData → SourcesWithData) → Option SourcesWithData → Option SourcesWithData
optimistic_update_sources update none = none
optimistic_update_sources update (some c) = some (update c)

abbrev pub update_sources_snapshot :
    (SourcesWithData → SourcesWithData) → Option SourcesWithData → SourcesWithData
update_sources_snapshot update none = update (record { sources = []; data_map = [] })
update_sources_snapshot update (some c) = update c

abbrev pub without_source : String → SourcesWithData → SourcesWithData
without_source id c = record {
  sources = filter (λ s. not (str_eq s.id id)) c.sources;
  data_map = filter (λ e. not (str_eq (e.0) id)) c.data_map;
}

-- optimisticRemoveSource.
unfoldable pub optimistic_remove_source : String → Option SourcesWithData → Option SourcesWithData
optimistic_remove_source id = optimistic_update_sources (without_source id)

abbrev pub with_status : String → Value → Summary → Summary
with_status id status source =
    if str_eq source.id id then record source { status = status } else source

-- optimisticUpdateSourceStatus.
unfoldable pub optimistic_update_source_status :
    String → Value → Option SourcesWithData → Option SourcesWithData
optimistic_update_source_status id status =
    optimistic_update_sources λ c. record c { sources = map (with_status id status) c.sources }
