-- ===== src/Template/Parser/Groups.antt =====
-- How parsePrimary reads a printed node in parentheses, by what it reads of the node's parts.
use glanceus.Prelude.{
  ℕ, zero, suc, ◌≤◌, ◌<◌, ◌≡◌, refl, ap, ◌∙◌, String, true, false, [], ◌∷◌, ◌++◌, includes, length,
  arith,
}
use glanceus.Template.Syntax.{
  punct_token, Tokens, punct, operator, Literal, number_of, text, truth, null_literal,
  undefined_literal, ExprNode, literal, identifier, unary, binary, ternary, ok, bind,
}
use glanceus.Template.Parser.{
  is_next, after_next, binary_operators, unary_operators, parse_unary, suffix_of, is_suffix,
  parse_suffix, member_loop, parse_primary, parse_member, parse_nullish, parse_ternary,
}
use glanceus.Template.Parser.Printer.{emit, all_binary_operators, reserved_names}
use glanceus.Template.Parser.Levels.{
  AllStop, All-includes, binary_levels-stop, member_loop-step, is_found, binary_levels-binary,
  is_found_all, next_operator-emit, parse_unary-stop, Closes, ReadsOperand, parse_unary-emit,
  parse_nullish-emit,
}

-- With fuel above the length of what is printed, parseTernary reads it too.
abbrev pub Reads : ExprNode → Type 0
Reads node = (n : ℕ) → length (emit node) ≤ n → ReadsOperand (parse_ternary n) node

abbrev pub ReadsWhole : ℕ → ExprNode → Type 0
ReadsWhole n node =
    (rest : Tokens)
    → Closes rest
    → is_next punct_token "?" rest ≡ false
    → parse_ternary n (emit node ++ rest) ≡ ok (node, rest)

pub parse_ternary-condition :
    (n : ℕ) (node : ExprNode) (ts rest : Tokens)
    → parse_nullish (parse_ternary n) ts ≡ ok (node, rest)
    → is_next punct_token "?" rest ≡ false
    → parse_ternary (suc n) ts ≡ ok (node, rest)
unfolding parse_ternary
parse_ternary-condition n node ts rest h other = rw h (rw (other, bind) refl)

pub parse_ternary-emit :
    (node : ExprNode) → Reads node → (n : ℕ) → length (emit node) < n → ReadsWhole n node
parse_ternary-emit node reads zero h rest closes other = absurd (omega arith)
parse_ternary-emit node reads (suc n) h rest closes other =
    parse_ternary-condition n node (emit node ++ rest) rest
      (parse_nullish-emit (parse_ternary n) node (reads n (omega arith)) rest closes) other

-- A group in parentheses, by what parseNullish reads inside it.
pub parse_primary-group :
    (n : ℕ) (node : ExprNode) (ts rest : Tokens)
    → parse_nullish (parse_ternary n) ts ≡ ok (node, punct ")" ∷ rest)
    → parse_primary (parse_ternary (suc n)) (punct "(" ∷ ts) ≡ ok (node, rest)
unfolding parse_primary parse_ternary
parse_primary-group n node ts rest h = rw h refl

-- The nodes in parentheses, one by one. A method reads the parts, and the group ends the node.
module _ (n : ℕ) (rest : Tokens) where
  pub closed : AllStop binary_operators (punct ")" ∷ rest)
  closed = (refl, (refl, (refl, (refl, (refl, (refl, (refl, tt)))))))

  pub unary-group :
      (op : String) (node : ExprNode)
      → includes op unary_operators ≡ true
      → ReadsOperand (parse_ternary n) node
      → parse_primary
          (parse_ternary (suc n))
          (punct "(" ∷ operator op ∷ (emit node ++ punct ")" ∷ rest))
        ≡ ok (unary op node, rest)
  unfolding parse_nullish parse_unary
  unary-group op node h reads =
      parse_primary-group n (unary op node) (operator op ∷ (emit node ++ punct ")" ∷ rest)) rest (
        binary_levels-stop binary_operators (parse_unary (parse_member (parse_ternary n)))
          (operator op ∷ (emit node ++ punct ")" ∷ rest)) (punct ")" ∷ rest) (unary op node)
          (rw (h, parse_unary)
            (rw (parse_unary-emit (parse_ternary n) node reads (punct ")" ∷ rest) refl, bind) refl))
          closed)

  pub binary-group :
      (op : String) (left right : ExprNode)
      → includes op all_binary_operators ≡ true
      → ReadsOperand (parse_ternary n) left
      → ReadsOperand (parse_ternary n) right
      → parse_primary
          (parse_ternary (suc n))
          (punct "(" ∷ (emit left ++ operator op ∷ (emit right ++ punct ")" ∷ rest)))
        ≡ ok (binary op left right, rest)
  unfolding parse_nullish
  binary-group op left right h reads_left reads_right =
      parse_primary-group n (binary op left right) _ rest (
        binary_levels-binary binary_operators (parse_unary (parse_member (parse_ternary n))) op left
          right (emit left ++ operator op ∷ (emit right ++ punct ")" ∷ rest))
          (emit right ++ punct ")" ∷ rest) (punct ")" ∷ rest)
          (parse_unary-emit (parse_ternary n) left reads_left _ refl)
          (parse_unary-emit (parse_ternary n) right reads_right _ refl)
          (All-includes (λ o. is_found o binary_operators ≡ true) op all_binary_operators h
            is_found_all)
          closed)

  pub ternary-group :
      (a b c : ExprNode)
      → ReadsOperand (parse_ternary (suc n)) a
      → ReadsWhole (suc n) b
      → ReadsWhole (suc n) c
      → parse_primary
          (parse_ternary (suc (suc n)))
          (punct "(" ∷ (emit a ++ punct "?" ∷ (emit b ++ punct ":" ∷ (emit c ++ punct ")" ∷ rest))))
        ≡ ok (ternary a b c, rest)
  unfolding parse_primary parse_ternary
  ternary-group a b c reads_a reads_b reads_c =
      rw
        (parse_nullish-emit (parse_ternary (suc n)) a reads_a
          (punct "?" ∷ (emit b ++ punct ":" ∷ (emit c ++ punct ")" ∷ rest)))
          (refl, stop "?" (emit b ++ punct ":" ∷ (emit c ++ punct ")" ∷ rest))))
        (rw
          (
            reads_b (punct ":" ∷ (emit c ++ punct ")" ∷ rest))
                (refl, stop ":" (emit c ++ punct ")" ∷ rest)) refl,
            bind,
          )
          (rw (reads_c (punct ")" ∷ rest) (refl, stop ")" rest) refl, bind) refl))
    where
      stop : (s : String) (ts : Tokens) → AllStop binary_operators (punct s ∷ ts)
      stop s ts = (refl, (refl, (refl, (refl, (refl, (refl, (refl, tt)))))))

  -- The loop of parseMember reads one suffix and the end of the group.
  pub member-group :
      (callee node : ExprNode) (suffix : Tokens)
      → ReadsOperand (parse_ternary n) callee
      → is_suffix (suffix_of suffix) ≡ true
      → parse_suffix (parse_ternary n) (suffix_of suffix) callee (after_next suffix)
        ≡ ok (node, punct ")" ∷ rest)
      → 1 ≤ length suffix
      → parse_primary (parse_ternary (suc n)) (punct "(" ∷ (emit callee ++ suffix))
        ≡ ok (node, rest)
  unfolding parse_nullish parse_member
  member-group callee node suffix reads some_suffix read long =
      parse_primary-group n node (emit callee ++ suffix) rest (
        binary_levels-stop binary_operators (parse_unary (parse_member (parse_ternary n)))
          (emit callee ++ suffix) (punct ")" ∷ rest) node
          (parse_unary-stop (parse_member (parse_ternary n)) (emit callee ++ suffix)
              (next_operator-emit callee suffix)
            ∙ rw (reads suffix, bind) (loop suffix some_suffix read long))
          closed)
    where
      loop :
          (suffix : Tokens)
          → is_suffix (suffix_of suffix) ≡ true
          → parse_suffix (parse_ternary n) (suffix_of suffix) callee (after_next suffix)
            ≡ ok (node, punct ")" ∷ rest)
          → 1 ≤ length suffix
          → member_loop (parse_ternary n) (suc (length suffix)) callee suffix
            ≡ ok (node, punct ")" ∷ rest)
      loop [] h e l = absurd (omega arith)
      loop (t ∷ ts) h e l =
          member_loop-step (parse_ternary n) (suc (length ts)) callee node (t ∷ ts)
            (punct ")" ∷ rest) h e

pub literal-Reads : (l : Literal) → Reads (literal l)
unfolding emit parse_primary
literal-Reads (number_of s) n h rest = refl
literal-Reads (text s) n h rest = refl
literal-Reads (truth true) n h rest = refl
literal-Reads (truth false) n h rest = refl
literal-Reads null_literal n h rest = refl
literal-Reads undefined_literal n h rest = refl

pub identifier-Reads : (s : String) → includes s reserved_names ≡ false → Reads (identifier s)
unfolding emit parse_primary
identifier-Reads s h n l rest = ap (λ node. ok (node, rest)) (ground (arith, h))
