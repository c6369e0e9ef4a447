-- ===== src/Prelude/Ids.antt =====
-- Lists of string identifiers: membership, first index, and the order-keeping de-duplication
-- that the code writes with a `seen` set.
use Prim.Native.Nat.{ℕ, suc}
use Prim.Native.String.{String}
use mathlib.Core.Path.{◌≡◌, refl, sym, ap, ◌∙◌}
use mathlib.Core.Bool.{Bool, true, false, not, ◌&&◌, ◌||◌}
use mathlib.Core.List.{List, [], ◌∷◌, ◌++◌, append-nil}
use mathlib.Core.Option
use mathlib.Core.Option.{Option, none, some}
use native.Mathlib.Omega.{arith}
use text.Mathlib.Text.{◌==◌ as str_eq}
use text.Mathlib.TextEquality.{eq_iff}
use text.Mathlib.TextPositions.{eq_refl}
use glanceus.Prelude.Tests.{if◌then◌else◌}
use glanceus.Prelude.Lists.{filter}

-- Array.prototype.includes and Set.prototype.has.
abbrev pub includes : String → List String → Bool
includes a [] = false
includes a (x ∷ xs) = str_eq a x || includes a xs

-- Array.prototype.indexOf, with `none` for -1.
abbrev pub index_of : String → List String → Option ℕ
index_of a [] = none
index_of a (x ∷ xs) = if str_eq a x then some 0 else Option.map suc (index_of a xs)

abbrev pub IsUnique : List String → Type 0
IsUnique [] = Unit {0}
IsUnique (x ∷ xs) = (includes x xs ≡ false) × IsUnique xs

pub str_eq_sym : (a b : String) → str_eq a b ≡ str_eq b a
str_eq_sym a b = ground (arith, eq_iff a b, eq_iff b a)

pub includes-append :
    (a : String) (xs ys : List String) → includes a (xs ++ ys) ≡ (includes a xs || includes a ys)
includes-append a [] ys = refl
includes-append a (x ∷ xs) ys = ground (arith, includes-append a xs ys)

pub includes-filter :
    (a : String) (p : String → Bool) (xs : List String)
    → includes a (filter p xs) ≡ (p a && includes a xs)
includes-filter a p [] = ground arith
includes-filter a p (x ∷ xs) = ground (arith, includes-filter a p xs, eq_iff a x)

pub filter-IsUnique : (p : String → Bool) (xs : List String) → IsUnique xs → IsUnique (filter p xs)
filter-IsUnique p [] u = tt
filter-IsUnique p (x ∷ xs) u = ground (arith, includes-filter x p xs, filter-IsUnique p xs u.1)

-- Array.from(new Set(ids)), and the loops that push what their `seen` set lacks.
abbrev pub dedupe_from : List String → List String → List String
dedupe_from seen [] = []
dedupe_from seen (x ∷ xs) = elim (includes x seen) [
  | true ↦ dedupe_from seen xs
  | false ↦ x ∷ dedupe_from (x ∷ seen) xs
]

abbrev pub dedupe : List String → List String
dedupe = dedupe_from []

pub includes-dedupe_from :
    (a : String) (seen xs : List String)
    → includes a (dedupe_from seen xs) ≡ (not (includes a seen) && includes a xs)
includes-dedupe_from a seen [] = ground arith
includes-dedupe_from a seen (x ∷ xs) =
    ground (arith, eq_iff a x, includes-dedupe_from a seen xs, includes-dedupe_from a (x ∷ seen) xs)

pub dedupe_from-IsUnique : (seen xs : List String) → IsUnique (dedupe_from seen xs)
dedupe_from-IsUnique seen [] = tt
dedupe_from-IsUnique seen (x ∷ xs) = ground (
  arith,
  eq_refl x,
  includes-dedupe_from x (x ∷ seen) xs,
  dedupe_from-IsUnique seen xs,
  dedupe_from-IsUnique (x ∷ seen) xs,
)

pub dedupe-IsUnique : (xs : List String) → IsUnique (dedupe xs)
dedupe-IsUnique xs = dedupe_from-IsUnique [] xs

pub includes-dedupe : (a : String) (xs : List String) → includes a (dedupe xs) ≡ includes a xs
includes-dedupe a xs = includes-dedupe_from a [] xs

-- No element of the first list is in the second.
abbrev pub Disjoint : List String → List String → Type 0
Disjoint [] ys = Unit {0}
Disjoint (x ∷ xs) ys = (includes x ys ≡ false) × Disjoint xs ys

pub Disjoint-cons :
    (x : String) (xs ys : List String)
    → includes x xs ≡ false
    → Disjoint xs ys
    → Disjoint xs (x ∷ ys)
Disjoint-cons x [] ys h d = tt
Disjoint-cons x (a ∷ xs) ys h d =
    (ground (arith, eq_iff a x, eq_iff x a), Disjoint-cons x xs ys (ground arith) (d.1))

pub Disjoint-nil : (xs : List String) → Disjoint xs []
Disjoint-nil [] = tt
Disjoint-nil (x ∷ xs) = (refl, Disjoint-nil xs)

abbrev pub add_all : List String → List String → List String
add_all [] seen = seen
add_all (x ∷ xs) seen = add_all xs (x ∷ seen)

pub includes-add_all :
    (a : String) (xs seen : List String)
    → includes a (add_all xs seen) ≡ (includes a xs || includes a seen)
includes-add_all a [] seen = refl
includes-add_all a (x ∷ xs) seen = ground (arith, includes-add_all a xs (x ∷ seen))

-- A list without repetitions goes through as it is.
pub dedupe_from-append :
    (seen xs ys : List String)
    → IsUnique xs
    → Disjoint xs seen
    → dedupe_from seen (xs ++ ys) ≡ xs ++ dedupe_from (add_all xs seen) ys
dedupe_from-append seen [] ys u d = refl
dedupe_from-append seen (x ∷ xs) ys u d =
    rw (d.0, dedupe_from)
      (ap (λ (l : List String). x ∷ l)
        (dedupe_from-append (x ∷ seen) xs ys (u.1) (Disjoint-cons x xs seen (u.0) (d.1))))

pub dedupe_from-covered :
    (seen ys : List String)
    → ((a : String) → includes a ys ≡ true → includes a seen ≡ true)
    → dedupe_from seen ys ≡ []
dedupe_from-covered seen [] h = refl
dedupe_from-covered seen (y ∷ ys) h =
    rw (h y (ground (arith, eq_refl y)), dedupe_from)
      (dedupe_from-covered seen ys (λ a k. h a (ground arith)))

pub dedupe_unique : (xs : List String) → IsUnique xs → dedupe xs ≡ xs
dedupe_unique xs u =
    ap dedupe (sym (append-nil xs))
    ∙ dedupe_from-append [] xs [] u (Disjoint-nil xs)
    ∙ append-nil xs
