-- ===== src/Swr/Fetched.antt =====
-- What sourcesWithDataFetcher gives for each source, against a table that says it in one line.
use glanceus.Prelude.{
  ◌≡◌, refl, subst, ◌∙◌, str_eq, str_eq_sym, eq_iff, String, Bool, true, false, not, ◌&&◌, Option,
  none, some, List, [], ◌∷◌, filter, if◌then◌else◌, includes, IsUnique, Bool-cases, inl, inr, arith,
}
use glanceus.Prelude.Dict.{lookup, has, has-lookup, UniqueKeys}
use glanceus.Prelude.Value.{Value}
use glanceus.Coordinator.State.{Summary, Detail, SourcesWithData}
use glanceus.Swr.{
  DataMap, ids_of, keep_listed, write_results, needs_update, write_cached, with_results, cached_map,
  hydrate, sources_with_data_fetcher,
}
use glanceus.Swr.Written.{
  keep_listed_lem, source_of, source_of-includes, prefer, prefer-none, results, fetch_all_lem,
  write_results_lem, write_cached_lem,
}

abbrev chosen : (Summary → Bool) → Option Summary → Bool
chosen p none = false
chosen p (some s) = p s

-- A source is among the chosen ones if the one with its id is.
includes-chosen :
    (id : String) (p : Summary → Bool) (list : List Summary)
    → IsUnique (ids_of list)
    → includes id (ids_of (filter p list)) ≡ chosen p (source_of id list)
includes-chosen id p [] u = refl
includes-chosen id p (s ∷ list) u = elim (Bool-cases (str_eq s.id id)) [
  | inl same ↦
      let absent : source_of id list ≡ none =
        source_of-includes id list
          (subst (λ t. includes t (ids_of list) ≡ false) ((eq_iff s.id id).0 same) (u.0)) in
      ground (arith, same, absent, includes-chosen id p list (u.1), str_eq_sym s.id id)
  | inr other ↦ ground (arith, other, includes-chosen id p list (u.1), str_eq_sym s.id id)
]

-- Whether a source is asked for, by the mode and the cache.
abbrev pub refetches : (Value → Value → Bool) → Option DataMap → Bool → Summary → Bool
refetches later cached false s = false
refetches later none true s = true
refetches later (some cached) true s = needs_update later cached s

abbrev pub data_of :
    (Value → Value → Bool)
    → (String → Option Detail)
    → Option DataMap
    → Bool
    → String
    → Option Summary
    → Option Detail
data_of later answers cached hydrate_details id none = none
data_of later answers cached hydrate_details id (some s) =
    if refetches later cached hydrate_details s then answers id else lookup id (cached_map cached)

module _ (later : Value → Value → Bool) (answers : String → Option Detail) (list : List Summary)
    (unique : IsUnique (ids_of list)) where
  includes-source_of :
      (id : String) → includes id (ids_of list) ≡ chosen (λ s. true) (source_of id list)
  includes-source_of id = listed id list
    where
      listed :
          (id : String) (l : List Summary)
          → includes id (ids_of l) ≡ chosen (λ s. true) (source_of id l)
      listed id [] = refl
      listed id (s ∷ l) = ground (arith, str_eq_sym s.id id, listed id l)

  kept_data :
      (cached : Option DataMap)
      → UniqueKeys (cached_map cached)
      → (id : String)
      → lookup id (keep_listed (ids_of list) (cached_map cached) [])
        ≡ data_of later answers cached false id (source_of id list)
  kept_data cached u id =
      keep_listed_lem id (ids_of list) (cached_map cached) [] u
      ∙ kept (source_of id list) (includes-source_of id)
    where
      kept :
          (o : Option Summary)
          → includes id (ids_of list) ≡ chosen (λ s. true) o
          → (if includes id (ids_of list) && has id (cached_map cached)
              then lookup id (cached_map cached)
              else none)
            ≡ data_of later answers cached false id o
      kept none e = ground (arith, e)
      kept (some s) e = ground (arith, e, has-lookup id (cached_map cached))

  all_data :
      (id : String)
      → lookup id (write_results (results answers list) [])
        ≡ data_of later answers none true id (source_of id list)
  all_data id =
      write_results_lem answers id list [] ∙ all (source_of id list) (includes-source_of id)
    where
      all :
          (o : Option Summary)
          → includes id (ids_of list) ≡ chosen (λ s. true) o
          → (if includes id (ids_of list) then prefer (answers id) none else none)
            ≡ data_of later answers none true id o
      all none e = ground (arith, e)
      all (some s) e = ground (arith, e, prefer-none (answers id))

  hydrated_data :
      (cached : DataMap) (id : String)
      → lookup id (
          write_cached cached
            (filter (λ s. not (needs_update later cached s)) list)
            (write_results (results answers (filter (needs_update later cached) list)) []))
        ≡ data_of later answers (some cached) true id (source_of id list)
  hydrated_data cached id =
      write_cached_lem id cached kept (write_results (results answers fetched) [])
      ∙ hydrated (source_of id list) (write_results_lem answers id fetched [])
          (includes-chosen id (needs_update later cached) list unique)
          (includes-chosen id (λ s. not (needs_update later cached s)) list unique)
    where
      fetched : List Summary
      fetched = filter (needs_update later cached) list

      kept : List Summary
      kept = filter (λ s. not (needs_update later cached s)) list

      from_results : Option Detail
      from_results = lookup id (write_results (results answers fetched) [])

      hydrated :
          (o : Option Summary)
          → from_results ≡ (if includes id (ids_of fetched) then prefer (answers id) none else none)
          → includes id (ids_of fetched) ≡ chosen (needs_update later cached) o
          → includes id (ids_of kept) ≡ chosen (λ s. not (needs_update later cached s)) o
          → (if includes id (ids_of kept)
              then prefer (lookup id cached) from_results
              else from_results)
            ≡ data_of later answers (some cached) true id o
      hydrated none f e k = ground (arith, f, e, k)
      hydrated (some s) f e k = elim (Bool-cases (needs_update later cached s)) [
        | inl asks ↦ ground (arith, f, e, k, asks, prefer-none (answers id))
        | inr keeps ↦ ground (arith, f, e, k, keeps, prefer-none (lookup id cached))
      ]

-- The fetcher of a list of sources with different ids, and a cached map with different keys, whose
-- requests are all answered: it gives the list as it is, and of each listed source the new data
-- if the source is asked for, which without details is none, with details and no cache all, and
-- otherwise those that need an update, and the cached data if it is not; and nothing else.
pub sources_with_data_fetcher_lem :
    (later : Value → Value → Bool) (answers : String → Option Detail) (cached : Option DataMap)
    (hydrate_details : Bool) (list : List Summary)
    → IsUnique (ids_of list)
    → UniqueKeys (cached_map cached)
    → (result : SourcesWithData) × (sources_with_data_fetcher later
          (λ id. some (answers id))
          cached
          hydrate_details
          (some list)
        ≡ some result)
      × (result.sources ≡ list)
      × ((id : String)
          → lookup id result.data_map
            ≡ data_of later answers cached hydrate_details id (source_of id list))
unfolding sources_with_data_fetcher
sources_with_data_fetcher_lem later answers cached false list u k =
    (_, refl, refl, kept_data later answers list u cached k)
sources_with_data_fetcher_lem later answers none true list u k = (
  record { sources = list; data_map = write_results (results answers list) [] },
  rw (fetch_all_lem answers list, hydrate, with_results) refl,
  refl,
  all_data later answers list u,
)
sources_with_data_fetcher_lem later answers (some m) true list u k = (
  record {
    sources = list;
    data_map =
        write_cached m (filter (λ s. not (needs_update later m s)) list)
          (write_results (results answers (filter (needs_update later m) list)) []);
  },
  rw (fetch_all_lem answers (filter (needs_update later m) list), hydrate, with_results) refl,
  refl,
  hydrated_data later answers list u m,
)
