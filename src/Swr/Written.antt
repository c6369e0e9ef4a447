-- ===== src/Swr/Written.antt =====
-- What each step of sourcesWithDataFetcher writes into the map, source by source.
use glanceus.Prelude.{
  ◌≡◌, refl, ◌∙◌, str_eq, str_eq_sym, eq_iff, String, false, ◌&&◌, Option, none, some, List, [],
  ◌∷◌, map, if◌then◌else◌, includes, Bool-cases, inl, inr, arith,
}
use glanceus.Prelude.Dict.{lookup, set, lookup-set, has, UniqueKeys}
use glanceus.Coordinator.State.{Summary, Detail}
use glanceus.Swr.{
  DataMap, ids_of, keep_listed, and_result, fetch_all, write_result, write_results, write_cached,
}

-- What is kept of the cache.
pub keep_listed_lem :
    (id : String) (ids : List String) (entries m : DataMap)
    → UniqueKeys entries
    → lookup id (keep_listed ids entries m)
      ≡ (if includes id ids && has id entries then lookup id entries else lookup id m)
keep_listed_lem id ids [] m u = ground arith
keep_listed_lem id ids ((j, detail) ∷ entries) m (from_results, u) =
    elim (Bool-cases (includes j ids)) [
      | inl listed ↦
          rw (listed, keep_listed)
            (ground (
              arith,
              from_results,
              listed,
              eq_iff j id,
              lookup-set j id detail m,
              keep_listed_lem id ids entries (set j detail m) u,
            ))
      | inr unlisted ↦
          rw (unlisted, keep_listed)
            (ground
              (arith, from_results, unlisted, eq_iff j id, keep_listed_lem id ids entries m u))
    ]

-- A source by its id.
abbrev pub source_of : String → List Summary → Option Summary
source_of id [] = none
source_of id (s ∷ list) = if str_eq s.id id then some s else source_of id list

pub source_of-includes :
    (id : String) (list : List Summary)
    → includes id (ids_of list) ≡ false
    → source_of id list ≡ none
source_of-includes id [] h = refl
source_of-includes id (s ∷ list) h =
    ground (arith, h, eq_iff s.id id, eq_iff id s.id, source_of-includes id list)

-- What the results write.
abbrev pub prefer : Option Detail → Option Detail → Option Detail
prefer none b = b
prefer (some a) b = some a

pub lookup-write_result :
    (k id : String) (d : Option Detail) (m : DataMap)
    → lookup id (write_result k d m) ≡ (if str_eq k id then prefer d (lookup id m) else lookup id m)
lookup-write_result k id none m = ground arith
lookup-write_result k id (some d) m = ground (arith, lookup-set k id d m)

pub prefer-none : (a : Option Detail) → prefer a none ≡ a
prefer-none none = refl
prefer-none (some d) = refl

pub prefer_twice : (a b : Option Detail) → prefer a (prefer a b) ≡ prefer a b
prefer_twice none b = refl
prefer_twice (some d) b = refl

module _ (answers : String → Option Detail) where
  abbrev pub results : List Summary → List (String × Option Detail)
  results = map (λ (s : Summary). (s.id, answers s.id))

  pub fetch_all_lem :
      (list : List Summary) → fetch_all (λ id. some (answers id)) list ≡ some (results list)
  fetch_all_lem [] = refl
  fetch_all_lem (s ∷ list) = rw (fetch_all_lem list, fetch_all, and_result) refl

  pub write_results_lem :
      (id : String) (list : List Summary) (m : DataMap)
      → lookup id (write_results (results list) m)
        ≡ (if includes id (ids_of list) then prefer (answers id) (lookup id m) else lookup id m)
  write_results_lem id [] m = refl
  write_results_lem id (s ∷ list) m =
      write_results_lem id list (write_result s.id (answers s.id) m)
      ∙ (elim (Bool-cases (str_eq s.id id)) [
        | inl same ↦ ground (
          arith,
          lookup-write_result s.id id (answers s.id) m,
          same,
          eq_iff s.id id,
          eq_iff id s.id,
          prefer_twice (answers id) (lookup id m),
        )
        | inr other ↦
            ground (arith, lookup-write_result s.id id (answers s.id) m, other, str_eq_sym s.id id)
      ])

pub write_cached_lem :
    (id : String) (cached : DataMap) (list : List Summary) (m : DataMap)
    → lookup id (write_cached cached list m)
      ≡ (if includes id (ids_of list) then prefer (lookup id cached) (lookup id m) else lookup id m)
write_cached_lem id cached [] m = refl
write_cached_lem id cached (s ∷ list) m =
    write_cached_lem id cached list (write_result s.id (lookup s.id cached) m)
    ∙ (elim (Bool-cases (str_eq s.id id)) [
      | inl same ↦ ground (
        arith,
        lookup-write_result s.id id (lookup s.id cached) m,
        same,
        eq_iff s.id id,
        eq_iff id s.id,
        prefer_twice (lookup id cached) (lookup id m),
      )
      | inr other ↦
          ground
            (arith, lookup-write_result s.id id (lookup s.id cached) m, other, str_eq_sym s.id id)
    ])
