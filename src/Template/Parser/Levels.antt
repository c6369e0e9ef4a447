-- ===== src/Template/Parser/Levels.antt =====
-- How the levels of binary operators, parseUnary and parseMember read a printed operand.
use glanceus.Prelude.{
  ℕ, suc, ◌≡◌, refl, sym, ◌∙◌, subst, String, str_eq, Bool, true, false, not, Bool-cases, inl, inr,
  none, List, [], ◌∷◌, ◌++◌, includes, any, All, if◌then◌else◌, length, eq_iff, arith,
}
use glanceus.Template.Syntax.{
  Tokens, operator, number_of, text, truth, null_literal, undefined_literal, ExprNode, literal,
  identifier, unary, binary, ternary, member, call, ok, bind,
}
use glanceus.Template.Parser.{
  Method, after_next, next_operator, binary_loop, binary_level, binary_levels, binary_operators,
  unary_operators, parse_unary, suffix_of, is_suffix, parse_suffix, member_loop, parse_primary,
  parse_member, parse_nullish,
}
use glanceus.Template.Parser.Printer.{emit, all_binary_operators}

-- Where no level has an operator, every level stops.
abbrev pub AllStop : List (List String) → Tokens → Type 0
AllStop levels ts = All (λ operators. next_operator operators ts ≡ none) levels

pub binary_levels-stop :
    (levels : List (List String)) (method : Method) (ts rest : Tokens) (node : ExprNode)
    → method ts ≡ ok (node, rest)
    → AllStop levels rest
    → binary_levels levels method ts ≡ ok (node, rest)
unfolding binary_levels binary_level binary_loop
binary_levels-stop [] method ts rest node h stop = h
binary_levels-stop (operators ∷ tighter) method ts rest node h stop =
    rw (binary_levels-stop tighter method ts rest node h (stop.1)) (rw (stop.0, binary_loop) refl)

-- A round of a level's loop, and its end.
module _ (operators : List String) (sub : Method) (k : ℕ) (node : ExprNode) where
  pub binary_loop-stop :
      (ts : Tokens)
      → next_operator operators ts ≡ none
      → binary_loop operators sub (suc k) node ts ≡ ok (node, ts)
  unfolding binary_loop
  binary_loop-stop ts h = rw (h, binary_loop) refl

  pub binary_loop-step :
      (op : String) (right : ExprNode) (us rest : Tokens)
      → includes op operators ≡ true
      → sub us ≡ ok (right, rest)
      → binary_loop operators sub (suc k) node (operator op ∷ us)
        ≡ binary_loop operators sub k (binary op node right) rest
  unfolding binary_loop
  binary_loop-step op right us rest h e = rw (h, binary_loop) (rw (e, bind) refl)

pub member_loop-step :
    (rec : Method) (k : ℕ) (node longer : ExprNode) (ts rest : Tokens)
    → is_suffix (suffix_of ts) ≡ true
    → parse_suffix rec (suffix_of ts) node (after_next ts) ≡ ok (longer, rest)
    → member_loop rec (suc k) node ts ≡ member_loop rec k longer rest
unfolding member_loop
member_loop-step rec k node longer ts rest h e = rw (h, member_loop) (rw (e, bind) refl)

-- An operator stands in one level only.
abbrev pub is_found : String → List (List String) → Bool
is_found op [] = false
is_found op (operators ∷ tighter) =
    if includes op operators then not (any (includes op) tighter) else is_found op tighter

pub any-AllStop :
    (op : String) (levels : List (List String)) (ts : Tokens)
    → any (includes op) levels ≡ false
    → AllStop levels (operator op ∷ ts)
any-AllStop op [] ts h = tt
any-AllStop op (operators ∷ levels) ts h =
    (ground (arith, h), any-AllStop op levels ts (ground (arith, h)))

pub binary_levels-binary :
    (levels : List (List String)) (method : Method) (op : String) (left right : ExprNode)
    (ts us rest : Tokens)
    → method ts ≡ ok (left, operator op ∷ us)
    → method us ≡ ok (right, rest)
    → is_found op levels ≡ true
    → AllStop levels rest
    → binary_levels levels method ts ≡ ok (binary op left right, rest)
unfolding binary_levels binary_level binary_loop
binary_levels-binary [] method op left right ts us rest h k found stop = cc
binary_levels-binary (operators ∷ tighter) method op left right ts us rest h k found stop =
    elim (Bool-cases (includes op operators)) [
      | inl here ↦
          rw
            (binary_levels-stop tighter method ts (operator op ∷ us) left h
              (any-AllStop op tighter us (ground (arith, found, here))))
            (binary_loop-step operators (binary_levels tighter method) (suc (length us)) left op
                right us rest here (binary_levels-stop tighter method us rest right k (stop.1))
              ∙ binary_loop-stop operators (binary_levels tighter method) (length us)
                  (binary op left right) rest (stop.0))
      | inr later ↦
          rw
            (binary_levels-binary tighter method op left right ts us rest h k
              (ground (arith, found, later)) (stop.1))
            (rw (stop.0, binary_loop) refl)
    ]

-- Every operator of the language is found in its level.
pub All-includes {κ} :
    (P : String → Type κ) (a : String) (xs : List String) → includes a xs ≡ true → All P xs → P a
All-includes P a [] h all = cc
All-includes P a (x ∷ xs) h all = elim (Bool-cases (str_eq a x)) [
  | inl same ↦ subst P (sym ((eq_iff a x).0 same)) (all.0)
  | inr other ↦ All-includes P a xs (ground (arith, h, other)) (all.1)
]

pub is_found_all : All (λ op. is_found op binary_operators ≡ true) all_binary_operators
is_found_all = (
  refl,
  (
    refl,
    (
      refl,
      (
        refl,
        (
          refl,
          (
            refl,
            (refl, (refl, (refl, (refl, (refl, (refl, (refl, (refl, (refl, (refl, tt)))))))))),
          ),
        ),
      ),
    ),
  ),
)

-- A printed operand does not start with an operator.
pub next_operator-emit :
    (node : ExprNode) (rest : Tokens) → next_operator unary_operators (emit node ++ rest) ≡ none
unfolding emit
next_operator-emit (literal (number_of s)) rest = refl
next_operator-emit (literal (text s)) rest = refl
next_operator-emit (literal (truth true)) rest = refl
next_operator-emit (literal (truth false)) rest = refl
next_operator-emit (literal null_literal) rest = refl
next_operator-emit (literal undefined_literal) rest = refl
next_operator-emit (identifier s) rest = refl
next_operator-emit (unary op node) rest = refl
next_operator-emit (binary op left right) rest = refl
next_operator-emit (ternary a b c) rest = refl
next_operator-emit (member node property true) rest = refl
next_operator-emit (member node property false) rest = refl
next_operator-emit (call callee args) rest = refl

pub parse_unary-stop :
    (method : Method) (ts : Tokens)
    → next_operator unary_operators ts ≡ none
    → parse_unary method ts ≡ method ts
unfolding parse_unary
parse_unary-stop method [] h = refl
parse_unary-stop method (t ∷ ts) h = rw (h, parse_unary) refl

-- A token that ends an operand: no suffix and no operator starts with it.
abbrev pub Closes : Tokens → Type 0
Closes ts = (is_suffix (suffix_of ts) ≡ false) × AllStop binary_operators ts

-- The methods read a printed node off the front of an input, if parsePrimary does.
abbrev pub ReadsOperand : Method → ExprNode → Type 0
ReadsOperand rec node = (rest : Tokens) → parse_primary rec (emit node ++ rest) ≡ ok (node, rest)

module _ (rec : Method) (node : ExprNode) (reads : ReadsOperand rec node) (rest : Tokens) where
  pub parse_member-emit :
      is_suffix (suffix_of rest) ≡ false → parse_member rec (emit node ++ rest) ≡ ok (node, rest)
  unfolding parse_member member_loop
  parse_member-emit h = rw (reads rest) (rw (h, member_loop) refl)

  pub parse_unary-emit :
      is_suffix (suffix_of rest) ≡ false
      → parse_unary (parse_member rec) (emit node ++ rest) ≡ ok (node, rest)
  parse_unary-emit h =
      parse_unary-stop (parse_member rec) (emit node ++ rest) (next_operator-emit node rest)
      ∙ parse_member-emit h

  pub parse_nullish-emit : Closes rest → parse_nullish rec (emit node ++ rest) ≡ ok (node, rest)
  unfolding parse_nullish
  parse_nullish-emit h =
      binary_levels-stop binary_operators (parse_unary (parse_member rec)) (emit node ++ rest) rest
        node (parse_unary-emit (h.0)) (h.1)
