-- ===== src/Prelude/Dict.antt =====
-- A JavaScript `Map<string, V>` (or a plain object read as one) as an association list in
-- insertion order: `set` on a present key keeps its place, `delete` removes every entry.
use Prim.Native.String.{String}
use mathlib.Core.Path.{◌≡◌, refl, subst}
use mathlib.Core.Logic.{inl, inr}
use mathlib.Core.Bool.{Bool, true, false, not, ◌&&◌, ◌||◌}
use mathlib.Core.List.{List, [], ◌∷◌}
use mathlib.Core.Option.{Option, none, some}
use native.Mathlib.Omega.{arith}
use text.Mathlib.Text.{◌==◌ as str_eq}
use text.Mathlib.TextEquality.{eq_iff}
use text.Mathlib.TextPositions.{eq_refl}
use Prim.Native.Nat.{◌≤◌, ◌<◌}
use glanceus.Prelude.Tests.{if◌then◌else◌, Bool-cases}
use glanceus.Prelude.Lists.{All, All-map, length}

module _ {ℓ} {V : Type ℓ} where
  abbrev pub lookup : String → List (String × V) → Option V
  lookup k [] = none
  lookup k ((j, v) ∷ m) = if str_eq j k then some v else lookup k m

  abbrev pub has : String → List (String × V) → Bool
  has k [] = false
  has k ((j, v) ∷ m) = str_eq j k || has k m

  abbrev pub set : String → V → List (String × V) → List (String × V)
  set k v [] = (k, v) ∷ []
  set k v ((j, w) ∷ m) = if str_eq j k then (j, v) ∷ m else (j, w) ∷ set k v m

  abbrev pub delete : String → List (String × V) → List (String × V)
  delete k [] = []
  delete k ((j, v) ∷ m) = let rest = delete k m in if str_eq j k then rest else (j, v) ∷ rest

  pub lookup-set :
      (k j : String) (v : V) (m : List (String × V))
      → lookup j (set k v m) ≡ (if str_eq k j then some v else lookup j m)
  lookup-set k j v [] = refl
  lookup-set k j v ((i, w) ∷ m) =
      ground (arith, eq_iff k j, eq_iff i k, eq_iff i j, lookup-set k j v m)

  pub lookup-delete :
      (k j : String) (m : List (String × V))
      → lookup j (delete k m) ≡ (if str_eq k j then none else lookup j m)
  lookup-delete k j [] = ground arith
  lookup-delete k j ((i, w) ∷ m) =
      ground (arith, eq_iff k j, eq_iff i k, eq_iff i j, lookup-delete k j m)

  pub has-lookup : (k : String) (m : List (String × V)) → has k m ≡ false → lookup k m ≡ none
  has-lookup k [] h = refl
  has-lookup k ((j, v) ∷ m) h = ground (arith, has-lookup k m)

  pub has-set :
      (k j : String) (v : V) (m : List (String × V)) → has j (set k v m) ≡ (str_eq k j || has j m)
  has-set k j v [] = refl
  has-set k j v ((i, w) ∷ m) = ground (arith, eq_iff k j, eq_iff i k, eq_iff i j, has-set k j v m)

  pub has-delete :
      (k j : String) (m : List (String × V)) → has j (delete k m) ≡ (not (str_eq k j) && has j m)
  has-delete k j [] = ground arith
  has-delete k j ((i, w) ∷ m) = ground (arith, eq_iff k j, eq_iff i k, eq_iff i j, has-delete k j m)

  abbrev pub UniqueKeys : List (String × V) → Type 0
  UniqueKeys [] = Unit {0}
  UniqueKeys ((j, v) ∷ m) = (has j m ≡ false) × UniqueKeys m

  pub set-UniqueKeys :
      (k : String) (v : V) (m : List (String × V)) → UniqueKeys m → UniqueKeys (set k v m)
  set-UniqueKeys k v [] u = (refl, tt)
  set-UniqueKeys k v ((j, w) ∷ m) u =
      ground (arith, eq_iff j k, eq_iff k j, has-set k j v m, set-UniqueKeys k v m u.1)

  pub delete-UniqueKeys :
      (k : String) (m : List (String × V)) → UniqueKeys m → UniqueKeys (delete k m)
  delete-UniqueKeys k [] u = tt
  delete-UniqueKeys k ((j, w) ∷ m) u = ground (arith, has-delete k j m, delete-UniqueKeys k m u.1)

  -- Predicates on every entry, kept by the operations.
  pub set-All {κ} :
      (P : String × V → Type κ) (k : String) (v : V) (m : List (String × V))
      → All P m
      → ((j : String) → str_eq j k ≡ true → P (j, v))
      → P (k, v)
      → All P (set k v m)
  set-All P k v [] h g p = (p, tt)
  set-All P k v ((j, w) ∷ m) h g p = ground (arith, g j, set-All P k v m h.1 g p)

  pub delete-All {κ} :
      (P : String × V → Type κ) (k : String) (m : List (String × V)) → All P m → All P (delete k m)
  delete-All P k [] h = tt
  delete-All P k ((j, w) ∷ m) h = ground (arith, delete-All P k m h.1)

  pub lookup-All {κ} :
      (P : String × V → Type κ) (k : String) (v : V) (m : List (String × V))
      → All P m
      → lookup k m ≡ some v
      → P (k, v)
  lookup-All P k v [] h e = cc
  lookup-All P k v ((j, w) ∷ m) h e = elim (Bool-cases (str_eq j k)) [
    | inl same ↦ subst P (λ i. ((eq_iff j k).0 same i, (w≡v same) i)) (h.0)
    | inr other ↦ lookup-All P k v m (h.1) (ground arith)
  ]
    where
      w≡v : str_eq j k ≡ true → w ≡ v
      w≡v same = ground arith

  pub delete-All_other {κ κ'} :
      (P : String × V → Type κ) (Q : String × V → Type κ') (k : String) (m : List (String × V))
      → ((j : String) (v : V) → str_eq j k ≡ false → P (j, v) → Q (j, v))
      → All P m
      → All Q (delete k m)
  delete-All_other P Q k [] f h = tt
  delete-All_other P Q k ((j, w) ∷ m) f h =
      let rest = delete-All_other P Q k m f (h.1) in
      elim (Bool-cases (str_eq j k)) [
        | inl same ↦ rw same rest
        | inr other ↦ rw other (f j w other (h.0), rest)
      ]

  pub length-delete : (k : String) (m : List (String × V)) → length (delete k m) ≤ length m
  length-delete k [] = omega arith
  length-delete k ((j, w) ∷ m) = ground (arith, length-delete k m)

  pub length-delete-has :
      (k : String) (m : List (String × V)) → has k m ≡ true → length (delete k m) < length m
  length-delete-has k [] h = cc
  length-delete-has k ((j, w) ∷ m) h = ground (arith, length-delete k m, length-delete-has k m)

  pub all_has : (m : List (String × V)) → All (λ e. has (e.0) m ≡ true) m
  all_has [] = tt
  all_has ((j, w) ∷ m) = (
    ground (arith, eq_refl j),
    All-map (λ e. has (e.0) m ≡ true) (λ e. (str_eq j (e.0) || has (e.0) m) ≡ true)
        (λ e h. ground arith) m (all_has m),
  )

  pub has-set_self : (k : String) (v : V) (m : List (String × V)) → has k (set k v m) ≡ true
  has-set_self k v m = ground (arith, has-set k k v m, eq_refl k)
