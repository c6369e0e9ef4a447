-- ===== src/Template/Tests.antt =====
-- Template expressions at concrete texts.
use glanceus.Prelude.{
  ◌≡◌, ◌≢◌, refl, String, str_eq, true, false, none, some, List, [], ◌∷◌, map, if◌then◌else◌, arith,
  ◌&&◌, ◌==◌,
}
use glanceus.Prelude.Text.{is_space}
use glanceus.Prelude.Int.{Num, nan, pos, finite, ltb_ℤ, ℤ}
use glanceus.Prelude.Value.{Value, undefined, number, string, object}
use glanceus.Template.Syntax.{
  number_token, identifier_token, string_token, token, operator, eof, number_of, text, truth,
  ExprNode, literal, identifier, unary, binary, ternary, member, call, no_arguments, argument, ok,
  failed, out_of_fuel,
}
use glanceus.Template.Lexer.{tokenize}
use glanceus.Template.Parser.{parse_expression}
use glanceus.Template.Parser.Printer.{print}
use glanceus.Template.Parser.RoundTrip.{parse_expression-print}
use glanceus.Template.Helpers.{Engine, clamp_numbers}
use glanceus.Template.Helpers.Clamp.{clamp_numbers-finite}
use glanceus.Template.Eval.{Key, property, eval_node}
use glanceus.Template.Cache.{scan_of, ast_of, eval_ast, evaluate_all}
use glanceus.Template.Cache.Transparent.{scan_of-ne-out_of_fuel, IsSound, evaluate_all_lem}

lexed :
    tokenize "a1>= .5 'x\\'y'"
    ≡ ok (
        token identifier_token "a1"
        ∷ operator ">="
        ∷ token number_token ".5"
        ∷ token string_token "x'y"
        ∷ eof
        ∷ [])
unfolding tokenize is_space
lexed = refl

refused : tokenize "a # b" ≡ failed
unfolding tokenize is_space
refused = refl

-- a - b - c, and a product inside a sum.
left_to_right :
    scan_of "a - b * 2 - c.d"
    ≡ ok (
        binary "-"
          (binary "-" (identifier "a") (binary "*" (identifier "b") (literal (number_of "2"))))
          (member (identifier "c") (literal (text "d")) false))
unfolding scan_of is_space
left_to_right = refl

unclosed : scan_of "f(a, [b" ≡ failed
unfolding scan_of is_space
unclosed = refl

-- (!a ?? f(b.c, d[0])) ? true : x
abbrev sample : ExprNode
sample =
    ternary
      (binary "??" (unary "!" (identifier "a")) (
        call (identifier "f") (
          argument (member (identifier "b") (literal (text "c")) false)
            (argument (member (identifier "d") (literal (number_of "0")) true) no_arguments))))
      (literal (truth true)) (identifier "x")

parse_expression-print_example : parse_expression (print sample) ≡ ok sample
parse_expression-print_example =
    parse_expression-print sample
      ((refl, (refl, refl), (refl, ((refl, tt), ((refl, tt), tt)))), tt, refl)

scan_of-ne-out_of_fuel_example : scan_of "a ? b : c" ≢ out_of_fuel
scan_of-ne-out_of_fuel_example = scan_of-ne-out_of_fuel "a ? b : c"

abbrev number_in : Value → Num
number_in (number n) = n
number_in _ = nan

-- An engine that reads numbers only.
abbrev engine : Engine
engine = record {
  to_number = number_in;
  to_text = λ v. "";
  to_lower_case = λ s. s;
  to_upper_case = λ s. s;
  to_fixed = λ n d. "";
  length_of = λ v. 0;
  times = λ a b. nan;
  over = λ a b. nan;
  operate = λ op a b. undefined;
  call_inherited = λ name args. none;
}

-- The context is object 0, and its user object 1.
abbrev data_of : Value
data_of = object 0

-- A reader, and what it gives for `constructor` of any object.
abbrev read_with : Value → Value → Key → Value
read_with of_constructor (object i) (property name) =
    if str_eq name "user" && (i == 0)
    then object 1
    else if str_eq name "name" && (i == 1)
    then string "Ada"
    else if str_eq name "constructor"
    then of_constructor
    else undefined
read_with of_constructor v _ = undefined

abbrev read_name : Value → Key → Value
read_name = read_with undefined

abbrev read_unsafe : Value → Key → Value
read_unsafe = read_with (object 7)

-- user.constructor ?? user["name"]
abbrev user_constructor : ExprNode
user_constructor =
    binary "??" (member (identifier "user") (literal (text "constructor")) false)
      (member (identifier "user") (literal (text "name")) true)

constructor_unread : eval_node engine data_of read_unsafe user_constructor ≡ some (string "Ada")
unfolding eval_node
constructor_unread = refl

-- An identifier is not guarded.
constructor_read : eval_node engine data_of read_unsafe (identifier "constructor") ≡ some (object 7)
unfolding eval_node
constructor_read = refl

-- A call of a function that every object inherits throws.
inherited_call :
    eval_node engine data_of read_name (call (identifier "hasOwnProperty") no_arguments) ≡ none
unfolding eval_node
inherited_call = refl

abbrev requests : List (String × Value)
requests = ("user.name", data_of) ∷ ("user.", data_of) ∷ ("user.name", data_of) ∷ []

evaluate_all_lem_example :
    ((evaluate_all engine read_name requests []).0
      ≡ map (λ r. eval_ast engine read_name (r.1) (ast_of (r.0))) requests)
    × IsSound (evaluate_all engine read_name requests []).1
evaluate_all_lem_example = evaluate_all_lem engine read_name requests [] (tt, omega arith)

clamp_numbers-finite_example :
    (z : ℤ) × (clamp_numbers (finite (pos 9)) (finite (pos 2)) (finite (pos 5)) ≡ finite z)
    × (ltb_ℤ z (pos 2) ≡ false)
    × (ltb_ℤ (pos 5) z ≡ false)
    × (ltb_ℤ (pos 9) (pos 2) ≡ false → ltb_ℤ (pos 5) (pos 9) ≡ false → z ≡ pos 9)
clamp_numbers-finite_example = clamp_numbers-finite (pos 9) (pos 2) (pos 5) refl
