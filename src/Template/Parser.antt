-- ===== src/Template/Parser.antt =====
-- templateExpression.ts, the class Parser. Its index into the tokens is the list of those that are
-- left. A token after the last one is undefined there, and to read its type throws: the empty list
-- fails. The six methods for binary operators differ in their operators and in the method that
-- they call, which are the parameters of `binary_level`; `rec` is the method parseTernary.
pub mod Total
pub mod Printer
pub mod Levels
pub mod Groups
pub mod Calls
pub mod RoundTrip
use glanceus.Prelude.{
  ℕ, zero, suc, String, str_eq, Bool, true, false, ◌&&◌, Option, none, some, List, [], ◌∷◌,
  if◌then◌else◌, includes, length,
}
use glanceus.Template.Syntax.{
  TokenType, number_token, string_token, identifier_token, operator_token, punct_token, eof_token,
  Token, Tokens, same_type, Literal, number_of, text, truth, null_literal, undefined_literal,
  ExprNode, literal, identifier, unary, binary, ternary, member, call, Arguments, no_arguments,
  argument, Scan, ok, failed, out_of_fuel, bind,
}

abbrev pub Parsed {ℓ} : Type ℓ → Type ℓ
Parsed A = Scan (A × Tokens)

abbrev pub Method : Type 0
Method = Tokens → Parsed ExprNode

-- check and match with a value, and what match leaves.
abbrev pub is_next : TokenType → String → Tokens → Bool
is_next type value [] = false
is_next type value (t ∷ ts) = same_type t.type type && str_eq t.value value

abbrev pub after_next : Tokens → Tokens
after_next [] = []
after_next (t ∷ ts) = ts

-- match for each of these operators in turn, and the one that matches.
abbrev pub next_operator : List String → Tokens → Option String
next_operator operators [] = none
next_operator operators (t ∷ ts) =
    if same_type t.type operator_token && includes t.value operators then some t.value else none

-- expect with a value.
abbrev pub expect {ℓ} : {A : Type ℓ} → TokenType → String → A × Tokens → Parsed A
expect type value (a, ts) = if is_next type value ts then ok (a, after_next ts) else failed

-- The while loop of a binary level, on fuel.
unfoldable pub binary_loop : List String → Method → ℕ → ExprNode → Method
binary_loop operators sub zero node ts = out_of_fuel
binary_loop operators sub (suc k) node ts = elim (next_operator operators ts) [
  | none ↦ ok (node, ts)
  | some op ↦
      bind (sub (after_next ts))
        λ (right, rest). binary_loop operators sub k (binary op node right) rest
]

unfoldable pub binary_level : List String → Method → Method
unfolding binary_loop
binary_level operators sub ts =
    bind (sub ts) λ (left, rest). binary_loop operators sub (suc (length rest)) left rest

-- parseNullish down to parseMultiplicative, from the loosest operators to the tightest.
abbrev pub binary_operators : List (List String)
binary_operators =
    ("??" ∷ [])
    ∷ ("||" ∷ [])
    ∷ ("&&" ∷ [])
    ∷ ("==" ∷ "!=" ∷ "===" ∷ "!==" ∷ [])
    ∷ (">" ∷ ">=" ∷ "<" ∷ "<=" ∷ [])
    ∷ ("+" ∷ "-" ∷ [])
    ∷ ("*" ∷ "/" ∷ "%" ∷ [])
    ∷ []

unfoldable pub binary_levels : List (List String) → Method → Method
unfolding binary_level
binary_levels [] unary_method = unary_method
binary_levels (operators ∷ tighter) unary_method =
    binary_level operators (binary_levels tighter unary_method)

abbrev pub unary_operators : List String
unary_operators = "!" ∷ "+" ∷ "-" ∷ []

abbrev pub wrap_unary : String → ExprNode × Tokens → Parsed ExprNode
wrap_unary op (node, rest) = ok (unary op node, rest)

-- parseUnary.
unfoldable pub parse_unary : Method → Method
parse_unary member_method [] = member_method []
parse_unary member_method (t ∷ ts) = elim (next_operator unary_operators (t ∷ ts)) [
  | none ↦ member_method (t ∷ ts)
  | some op ↦ bind (parse_unary member_method ts) (wrap_unary op)
]

-- The do loop of a call's arguments, on fuel.
abbrev pub push_argument : ExprNode → Arguments × Tokens → Parsed Arguments
push_argument node (args, rest) = ok (argument node args, rest)

unfoldable pub parse_arguments : Method → ℕ → Tokens → Parsed Arguments
parse_arguments rec zero ts = out_of_fuel
parse_arguments rec (suc k) ts = bind (rec ts) λ (node, rest). elim (is_next punct_token "," rest) [
  | true ↦ bind (parse_arguments rec k (after_next rest)) (push_argument node)
  | false ↦ ok (argument node no_arguments, rest)
]

abbrev pub arguments_or_none : Method → Tokens → Parsed Arguments
arguments_or_none rec ts = elim (is_next punct_token ")" ts) [
  | true ↦ ok (no_arguments, ts)
  | false ↦ parse_arguments rec (suc (length ts)) ts
]

-- expect("identifier") after a dot.
abbrev pub expect_name : ExprNode → Tokens → Parsed ExprNode
expect_name node [] = failed
expect_name node (t ∷ ts) =
    if same_type t.type identifier_token
    then ok (member node (literal (text t.value)) false, ts)
    else failed

-- What the loop of parseMember does after each of its tokens.
abbrev pub parse_index : Method → ExprNode → Tokens → Parsed ExprNode
parse_index rec node ts =
    bind (bind (rec ts) (expect punct_token "]"))
      λ (property, rest). ok (member node property true, rest)

abbrev pub parse_call : Method → ExprNode → Tokens → Parsed ExprNode
parse_call rec node ts =
    bind (bind (arguments_or_none rec ts) (expect punct_token ")"))
      λ (args, rest). ok (call node args, rest)

pub data Suffix : Type 0 where
  dot bracket parenthesis no_suffix : Suffix

abbrev pub suffix_of : Tokens → Suffix
suffix_of ts =
    if is_next punct_token "." ts
    then dot
    else if is_next punct_token "[" ts
    then bracket
    else if is_next punct_token "(" ts
    then parenthesis
    else no_suffix

abbrev pub parse_suffix : Method → Suffix → ExprNode → Tokens → Parsed ExprNode
parse_suffix rec dot node ts = expect_name node ts
parse_suffix rec bracket node ts = parse_index rec node ts
parse_suffix rec parenthesis node ts = parse_call rec node ts
parse_suffix rec no_suffix node ts = failed

abbrev pub is_suffix : Suffix → Bool
is_suffix no_suffix = false
is_suffix _ = true

-- The loop of parseMember, on fuel.
unfoldable pub member_loop : Method → ℕ → ExprNode → Method
unfolding parse_arguments
member_loop rec zero node ts = out_of_fuel
member_loop rec (suc k) node ts = elim (is_suffix (suffix_of ts)) [
  | true ↦
      bind (parse_suffix rec (suffix_of ts) node (after_next ts))
        λ (longer, rest). member_loop rec k longer rest
  | false ↦ ok (node, ts)
]

-- The names that stand for values.
abbrev pub name_node : String → ExprNode
name_node name =
    if str_eq name "true"
    then literal (truth true)
    else if str_eq name "false"
    then literal (truth false)
    else if str_eq name "null"
    then literal null_literal
    else if str_eq name "undefined"
    then literal undefined_literal
    else identifier name

abbrev pub parse_group : Method → Bool → Tokens → Parsed ExprNode
parse_group rec true ts = bind (rec ts) (expect punct_token ")")
parse_group rec false ts = failed

-- parsePrimary, by the type of the token.
abbrev pub primary_of : Method → TokenType → String → Tokens → Parsed ExprNode
primary_of rec number_token value ts = ok (literal (number_of value), ts)
primary_of rec string_token value ts = ok (literal (text value), ts)
primary_of rec identifier_token value ts = ok (name_node value, ts)
primary_of rec punct_token value ts = parse_group rec (str_eq value "(") ts
primary_of rec operator_token value ts = failed
primary_of rec eof_token value ts = failed

unfoldable pub parse_primary : Method → Method
parse_primary rec [] = failed
parse_primary rec (t ∷ ts) = primary_of rec t.type t.value ts

unfoldable pub parse_member : Method → Method
unfolding member_loop parse_primary
parse_member rec ts =
    bind (parse_primary rec ts) λ (node, rest). member_loop rec (suc (length rest)) node rest

-- parseNullish.
unfoldable pub parse_nullish : Method → Method
unfolding binary_levels parse_unary parse_member
parse_nullish rec = binary_levels binary_operators (parse_unary (parse_member rec))

-- The branches of parseTernary after its condition.
abbrev pub parse_branches : Method → ExprNode → Tokens → Parsed ExprNode
parse_branches rec condition ts =
    bind (bind (rec ts) (expect punct_token ":")) λ (consequent, rest).
      bind (rec rest) λ (alternate, rest'). ok (ternary condition consequent alternate, rest')

-- parseTernary, on fuel: a call inside it stands after a token at least.
unfoldable pub parse_ternary : ℕ → Method
unfolding parse_nullish
parse_ternary zero ts = out_of_fuel
parse_ternary (suc n) ts = bind (parse_nullish (parse_ternary n) ts) λ (condition, rest).
    elim (is_next punct_token "?" rest) [
      | true ↦ parse_branches (parse_ternary n) condition (after_next rest)
      | false ↦ ok (condition, rest)
    ]

abbrev pub finish : ExprNode × Tokens → Scan ExprNode
finish (node, []) = failed
finish (node, t ∷ ts) = if same_type t.type eof_token then ok node else failed

-- parseExpression.
unfoldable pub parse_expression : Tokens → Scan ExprNode
unfolding parse_ternary
parse_expression ts = bind (parse_ternary (suc (length ts)) ts) finish
