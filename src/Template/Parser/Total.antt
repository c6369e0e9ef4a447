-- ===== src/Template/Parser/Total.antt =====
-- The fuel of the parser is enough for any tokens.
use glanceus.Prelude.{
  ℕ, zero, suc, ◌≤◌, ◌<◌, ◌≢◌, str_eq, String, Bool, true, false, none, some, List, [], ◌∷◌,
  if_rule, length, arith,
}
use glanceus.Template.Syntax.{
  TokenType, punct_token, number_token, string_token, identifier_token, operator_token, eof_token,
  Tokens, ExprNode, binary, Scan, ok, failed, out_of_fuel, bind, same_type,
}
use glanceus.Template.Parser.{
  Parsed, Method, is_next, after_next, next_operator, expect, binary_loop, binary_level,
  binary_levels, binary_operators, unary_operators, wrap_unary, parse_unary, parse_arguments,
  arguments_or_none, Suffix, dot, bracket, parenthesis, no_suffix, suffix_of, parse_suffix,
  is_suffix, member_loop, parse_group, primary_of, parse_primary, parse_member, parse_nullish,
  parse_branches, parse_ternary, finish, parse_expression,
}

-- The scan ends within its fuel, and leaves fewer tokens than `m`.
abbrev pub Leaves {ℓ} : {A : Type ℓ} → ℕ → Parsed A → Type 0
Leaves m (ok (a, rest)) = length rest < m
Leaves m failed = Unit
Leaves m out_of_fuel = ⊥

-- On at most `m` tokens, a method takes one at least.
abbrev pub Takes {ℓ} : {A : Type ℓ} → ℕ → (Tokens → Parsed A) → Type 0
Takes m p = (ts : Tokens) → length ts ≤ m → Leaves (length ts) (p ts)

module _ {ℓ} {A : Type ℓ} where
  Leaves-le : (m n : ℕ) (p : Parsed A) → m ≤ n → Leaves m p → Leaves n p
  Leaves-le m n (ok (a, rest)) h l = omega arith
  Leaves-le m n failed h l = tt
  Leaves-le m n out_of_fuel h l = l

  Leaves-expect :
      (m : ℕ) (type : TokenType) (value : String) (a : A) (ts : Tokens)
      → length ts < m
      → Leaves m (expect type value (a, ts))
  Leaves-expect m type value a [] h = tt
  Leaves-expect m type value a (t ∷ ts) h =
      if_rule (Leaves m) (is_next type value (t ∷ ts)) (λ next. omega arith) λ other. tt

  Leaves-choice :
      (m : ℕ) (b : Bool) (x y : Parsed A)
      → Leaves m x
      → Leaves m y
      → Leaves m (elim b [ true ↦ x | false ↦ y ])
  Leaves-choice m true x y h k = h
  Leaves-choice m false x y h k = k

length-after_next : (ts : Tokens) → length (after_next ts) ≤ length ts
length-after_next [] = omega arith
length-after_next (t ∷ ts) = omega arith

Leaves-bind {ℓ κ} :
    {A : Type ℓ} {B : Type κ} (m n : ℕ) (p : Parsed A) (f : A × Tokens → Parsed B)
    → Leaves m p
    → ((a : A) (rest : Tokens) → length rest < m → Leaves n (f (a, rest)))
    → Leaves n (bind p f)
Leaves-bind m n (ok (a, rest)) f l k = k a rest l
Leaves-bind m n failed f l k = tt
Leaves-bind m n out_of_fuel f l k = l

module _ (m : ℕ) (operators : List String) (sub : Method) (takes : Takes m sub) where
  binary_loop-Leaves :
      (n : ℕ) (node : ExprNode) (ts : Tokens)
      → length ts < n
      → length ts ≤ m
      → Leaves (suc (length ts)) (binary_loop operators sub n node ts)
  unfolding binary_loop
  binary_loop-Leaves zero node ts h k = absurd (omega arith)
  binary_loop-Leaves (suc n) node [] h k = omega arith
  binary_loop-Leaves (suc n) node (t ∷ ts) h k =
      elim (next_operator operators (t ∷ ts))
        as (λ found. Leaves (suc (length (t ∷ ts))) (elim found [
          | none ↦ ok (node, t ∷ ts)
          | some op ↦
              bind (sub ts) λ (right, rest). binary_loop operators sub n (binary op node right) rest
        ])) [
          | none ↦ omega arith
          | some op ↦ Leaves-bind (length ts) _ (sub ts) _ (takes ts (omega arith)) λ right rest l.
              Leaves-le (suc (length rest)) _ _ (omega arith)
                (binary_loop-Leaves n (binary op node right) rest (omega arith) (omega arith))
        ]

  binary_level-Takes : Takes m (binary_level operators sub)
  unfolding binary_level
  binary_level-Takes ts h = Leaves-bind (length ts) _ (sub ts) _ (takes ts h) λ left rest l.
      Leaves-le (suc (length rest)) _ _ (omega arith)
        (binary_loop-Leaves (suc (length rest)) left rest (omega arith) (omega arith))

binary_levels-Takes :
    (m : ℕ) (levels : List (List String)) (method : Method)
    → Takes m method
    → Takes m (binary_levels levels method)
unfolding binary_levels
binary_levels-Takes m [] method takes = takes
binary_levels-Takes m (operators ∷ tighter) method takes =
    binary_level-Takes m operators (binary_levels tighter method)
      (binary_levels-Takes m tighter method takes)

parse_unary-Takes : (m : ℕ) (method : Method) → Takes m method → Takes m (parse_unary method)
unfolding parse_unary
parse_unary-Takes m method takes [] h = takes [] h
parse_unary-Takes m method takes (t ∷ ts) h =
    elim (next_operator unary_operators (t ∷ ts))
      as (λ found. Leaves (length (t ∷ ts)) (elim found [
        | none ↦ method (t ∷ ts)
        | some op ↦ bind (parse_unary method ts) (wrap_unary op)
      ])) [
        | none ↦ takes (t ∷ ts) h
        | some op ↦
            Leaves-bind (length ts) _ (parse_unary method ts) _
              (parse_unary-Takes m method takes ts (omega arith)) λ node rest l. omega arith
      ]

module _ (m : ℕ) (rec : Method) (takes : Takes m rec) where
  parse_arguments-Leaves :
      (n : ℕ) (ts : Tokens)
      → length ts < n
      → length ts ≤ m
      → Leaves (length ts) (parse_arguments rec n ts)
  unfolding parse_arguments
  parse_arguments-Leaves zero ts h k = absurd (omega arith)
  parse_arguments-Leaves (suc n) ts h k =
      Leaves-bind (length ts) _ (rec ts) _ (takes ts k) λ node rest l.
        Leaves-choice (length ts) (is_next punct_token "," rest) _ _
          (Leaves-bind (length ts) _ (parse_arguments rec n (after_next rest)) _
            (Leaves-le (length (after_next rest)) _ _ (omega (arith, length-after_next rest)) (
              parse_arguments-Leaves n (after_next rest) (omega (arith, length-after_next rest))
                (omega (arith, length-after_next rest))))
            λ args left k'. k')
          l

  arguments_or_none-Leaves :
      (ts : Tokens) → length ts ≤ m → Leaves (suc (length ts)) (arguments_or_none rec ts)
  arguments_or_none-Leaves ts k =
      Leaves-choice (suc (length ts)) (is_next punct_token ")" ts) _ _ (omega arith) (
        Leaves-le (length ts) _ _ (omega arith)
          (parse_arguments-Leaves (suc (length ts)) ts (omega arith) k))

  parse_suffix-Leaves :
      (suffix : Suffix) (node : ExprNode) (ts : Tokens)
      → length ts ≤ m
      → Leaves (suc (length ts)) (parse_suffix rec suffix node ts)
  parse_suffix-Leaves dot node [] k = tt
  parse_suffix-Leaves dot node (t ∷ ts) k =
      if_rule (Leaves (suc (length (t ∷ ts)))) (same_type t.type identifier_token)
        (λ name. omega arith) λ other. tt
  parse_suffix-Leaves bracket node ts k =
      Leaves-bind (length ts) _ _ _
        (Leaves-bind (length ts) _ (rec ts) _ (takes ts k)
          λ property rest l. Leaves-expect (length ts) punct_token "]" property rest l)
        λ property rest l. omega arith
  parse_suffix-Leaves parenthesis node ts k =
      Leaves-bind (suc (length ts)) _ _ _
        (Leaves-bind (suc (length ts)) _ (arguments_or_none rec ts) _
          (arguments_or_none-Leaves ts k)
          λ args rest l. Leaves-expect (suc (length ts)) punct_token ")" args rest l)
        λ args rest l. l
  parse_suffix-Leaves no_suffix node ts k = tt

  member_loop-Leaves :
      (n : ℕ) (node : ExprNode) (ts : Tokens)
      → length ts < n
      → length ts ≤ m
      → Leaves (suc (length ts)) (member_loop rec n node ts)
  unfolding member_loop
  member_loop-Leaves zero node ts h k = absurd (omega arith)
  member_loop-Leaves (suc n) node [] h k = omega arith
  member_loop-Leaves (suc n) node (t ∷ ts) h k =
      Leaves-choice (suc (length (t ∷ ts))) (is_suffix (suffix_of (t ∷ ts))) _ _
        (Leaves-bind (suc (length ts)) _ (parse_suffix rec (suffix_of (t ∷ ts)) node ts) _
          (parse_suffix-Leaves (suffix_of (t ∷ ts)) node ts (omega arith))
          λ longer rest l.
            Leaves-le (suc (length rest)) _ _ (omega arith)
              (member_loop-Leaves n longer rest (omega arith) (omega arith)))
        (omega arith)

  primary_of-Leaves :
      (type : TokenType) (value : String) (ts : Tokens)
      → length ts ≤ m
      → Leaves (suc (length ts)) (primary_of rec type value ts)
  primary_of-Leaves number_token value ts k = omega arith
  primary_of-Leaves string_token value ts k = omega arith
  primary_of-Leaves identifier_token value ts k = omega arith
  primary_of-Leaves operator_token value ts k = tt
  primary_of-Leaves eof_token value ts k = tt
  primary_of-Leaves punct_token value ts k =
      elim (str_eq value "(") as (λ b. Leaves (suc (length ts)) (parse_group rec b ts)) [
        | true ↦ Leaves-le (length ts) _ _ (omega arith) (
            Leaves-bind (length ts) _ (rec ts) _ (takes ts k)
              λ node rest l. Leaves-expect (length ts) punct_token ")" node rest l)
        | false ↦ tt
      ]

  parse_member-Takes : Takes (suc m) (parse_member rec)
  unfolding parse_member parse_primary
  parse_member-Takes [] h = tt
  parse_member-Takes (t ∷ ts) h =
      Leaves-bind (suc (length ts)) _ (primary_of rec t.type t.value ts) _
        (primary_of-Leaves t.type t.value ts (omega arith))
        λ node rest l.
          Leaves-le (suc (length rest)) _ _ (omega arith)
            (member_loop-Leaves (suc (length rest)) node rest (omega arith) (omega arith))

  parse_nullish-Takes : Takes (suc m) (parse_nullish rec)
  unfolding parse_nullish
  parse_nullish-Takes =
      binary_levels-Takes (suc m) binary_operators (parse_unary (parse_member rec))
        (parse_unary-Takes (suc m) (parse_member rec) parse_member-Takes)

  parse_branches-Leaves :
      (condition : ExprNode) (ts : Tokens)
      → length ts ≤ m
      → Leaves (length ts) (parse_branches rec condition ts)
  parse_branches-Leaves condition ts k =
      Leaves-bind (length ts) _ _ _
        (Leaves-bind (length ts) _ (rec ts) _ (takes ts k)
          λ consequent rest l. Leaves-expect (length ts) punct_token ":" consequent rest l)
        λ consequent rest l.
          Leaves-bind (length rest) _ (rec rest) _ (takes rest (omega arith))
            λ alternate left l'. omega arith

-- With more fuel than tokens parseTernary ends, and it takes a token at least.
parse_ternary-Takes : (n : ℕ) → Takes n (parse_ternary (suc n))
unfolding parse_ternary
parse_ternary-Takes zero [] h = tt
parse_ternary-Takes zero (t ∷ ts) h = absurd (omega arith)
parse_ternary-Takes (suc n) ts h =
    Leaves-bind (length ts) _ (parse_nullish (parse_ternary (suc n)) ts) _
      (parse_nullish-Takes n (parse_ternary (suc n)) (parse_ternary-Takes n) ts h)
      λ condition rest l.
        Leaves-choice (length ts) (is_next punct_token "?" rest) _ _
          (Leaves-le (length (after_next rest)) _ _ (omega (arith, length-after_next rest)) (
            parse_branches-Leaves n (parse_ternary (suc n)) (parse_ternary-Takes n) condition
              (after_next rest) (omega (arith, length-after_next rest))))
          l

-- A parse of any tokens ends with an expression or an error, and never for want of fuel.
pub parse_expression-ne-out_of_fuel : (ts : Tokens) → parse_expression ts ≢ out_of_fuel
unfolding parse_expression
parse_expression-ne-out_of_fuel ts =
    ends (parse_ternary (suc (length ts)) ts) (parse_ternary-Takes (length ts) ts (omega arith))
  where
    finished : (node : ExprNode) (rest : Tokens) → finish (node, rest) ≢ out_of_fuel
    finished node [] = λ e. cc
    finished node (t ∷ rest) =
        if_rule (λ (r : Scan ExprNode). r ≢ out_of_fuel) (same_type t.type eof_token) (λ end e. cc)
          (λ other e. cc)

    ends : (p : Parsed ExprNode) → Leaves (length ts) p → bind p finish ≢ out_of_fuel
    ends (ok (node, rest)) l = finished node rest
    ends failed l = λ e. cc
    ends out_of_fuel l = absurd l
