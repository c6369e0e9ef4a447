-- ===== src/ViewTabs/Splice.antt =====
-- Lists cut and spliced, as the drag of a tab does it.
use mathlib.Core.List.{append_assoc}
use mathlib.Core.Path.{ap₂}
use glanceus.Prelude.{
  ℕ, zero, suc, ◌+◌, ◌≤◌, ◌≡◌, refl, sym, ap, ◌∙◌, String, str_eq, eq_iff, false, ◌||◌, List, [],
  ◌∷◌, ◌++◌, arith, includes, IsUnique, includes-append, take, drop, length, take-append-drop,
}
use glanceus.ViewTabs.{splice}

suc_add : (n k : ℕ) → suc n + k ≡ suc (n + k)
suc_add n k = omega arith

module _ {ℓ} {A : Type ℓ} where
  take-append_le : (n : ℕ) (xs ys : List A) → n ≤ length xs → take n (xs ++ ys) ≡ take n xs
  take-append_le zero xs ys h = refl
  take-append_le (suc n) [] ys h = elim h [ ]
  take-append_le (suc n) (x ∷ xs) ys h =
      ap (λ (l : List A). x ∷ l) (take-append_le n xs ys (omega arith))

  drop-append_le : (n : ℕ) (xs ys : List A) → n ≤ length xs → drop n (xs ++ ys) ≡ drop n xs ++ ys
  drop-append_le zero xs ys h = refl
  drop-append_le (suc n) [] ys h = elim h [ ]
  drop-append_le (suc n) (x ∷ xs) ys h = drop-append_le n xs ys (omega arith)

  take-append_add : (xs ys : List A) (k : ℕ) → take (length xs + k) (xs ++ ys) ≡ xs ++ take k ys
  take-append_add [] ys k = ap (λ n. take n ys) (omega arith)
  take-append_add (x ∷ xs) ys k =
      ap (λ n. take n (x ∷ (xs ++ ys))) (suc_add (length xs) k)
      ∙ ap (λ (l : List A). x ∷ l) (take-append_add xs ys k)

  drop-append_add : (xs ys : List A) (k : ℕ) → drop (length xs + k) (xs ++ ys) ≡ drop k ys
  drop-append_add [] ys k = ap (λ n. drop n ys) (omega arith)
  drop-append_add (x ∷ xs) ys k =
      ap (λ n. drop n (x ∷ (xs ++ ys))) (suc_add (length xs) k) ∙ drop-append_add xs ys k

pub splice-left :
    (i : ℕ) (a : String) (xs ys : List String)
    → i ≤ length xs
    → splice i a xs ++ ys ≡ splice i a (xs ++ ys)
splice-left i a xs ys h =
    append_assoc (take i xs) (a ∷ drop i xs) ys
    ∙ sym (ap₂ (λ l r. l ++ (a ∷ r)) (take-append_le i xs ys h) (drop-append_le i xs ys h))

pub splice-right :
    (k : ℕ) (a : String) (xs ys : List String)
    → xs ++ splice k a ys ≡ splice (length xs + k) a (xs ++ ys)
splice-right k a xs ys =
    sym (append_assoc xs (take k ys) (a ∷ drop k ys))
    ∙ sym (ap₂ (λ l r. l ++ (a ∷ r)) (take-append_add xs ys k) (drop-append_add xs ys k))

includes-take-drop :
    (a : String) (n : ℕ) (xs : List String)
    → includes a xs ≡ (includes a (take n xs) || includes a (drop n xs))
includes-take-drop a n xs =
    ap (includes a) (sym (take-append-drop n xs)) ∙ includes-append a (take n xs) (drop n xs)

-- A list stays without repetitions when a new id is put anywhere into it.
pub splice-IsUnique :
    (n : ℕ) (a : String) (xs : List String)
    → includes a xs ≡ false
    → IsUnique xs
    → IsUnique (splice n a xs)
splice-IsUnique zero a xs h u = (h, u)
splice-IsUnique (suc n) a [] h u = (refl, tt)
splice-IsUnique (suc n) a (x ∷ xs) h u = (
  ground (
    arith,
    includes-append x (take n xs) (a ∷ drop n xs),
    includes-take-drop x n xs,
    eq_iff x a,
    eq_iff a x,
    u.0,
  ),
  splice-IsUnique n a xs (ground arith) (u.1),
)

pub includes-splice :
    (n : ℕ) (a id : String) (xs : List String)
    → includes id (splice n a xs) ≡ (str_eq id a || includes id xs)
includes-splice n a id xs =
    ground (arith, includes-append id (take n xs) (a ∷ drop n xs), includes-take-drop id n xs)
