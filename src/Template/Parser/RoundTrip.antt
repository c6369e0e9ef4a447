-- ===== src/Template/Parser/RoundTrip.antt =====
-- What the printer prints parses back to the same expression.
use mathlib.Core.List.{append_assoc}
use glanceus.Prelude.{
  zero, suc, ◌≡◌, refl, String, true, false, [], ◌∷◌, ◌++◌, includes, length, length-append, arith,
}
use glanceus.Template.Syntax.{
  punct, operator, eof, text, ExprNode, literal, identifier, unary, binary, ternary, member, call,
  Arguments, no_arguments, argument, ok, bind,
}
use glanceus.Template.Parser.{unary_operators, parse_index, parse_expression}
use glanceus.Template.Parser.Printer.{
  name, emit, emit_arguments, all_binary_operators, IsName, IsExpression, AreExpressions, print,
}
use glanceus.Template.Parser.Groups.{
  Reads, parse_ternary-emit, unary-group, binary-group, ternary-group, member-group, literal-Reads,
  identifier-Reads,
}
use glanceus.Template.Parser.Calls.{ReadsArguments, one_argument, more_arguments, call-group}

-- Each node in parentheses, with the rest of the input moved inside.
unary-Reads :
    (op : String) (node : ExprNode)
    → includes op unary_operators ≡ true
    → Reads node
    → Reads (unary op node)
unfolding emit
unary-Reads op node h reads zero l rest = absurd (omega arith)
unary-Reads op node h reads (suc n) l rest = simp append_assoc (
    unary-group n rest op node h
      (reads n (omega (arith, length-append (emit node) (punct ")" ∷ [])))))

binary-Reads :
    (op : String) (left right : ExprNode)
    → includes op all_binary_operators ≡ true
    → Reads left
    → Reads right
    → Reads (binary op left right)
unfolding emit
binary-Reads op left right h reads_left reads_right zero l rest = absurd (omega arith)
binary-Reads op left right h reads_left reads_right (suc n) l rest =
    let long = length-append (emit left) (operator op ∷ (emit right ++ punct ")" ∷ [])) in
    let long' = length-append (emit right) (punct ")" ∷ []) in
    simp append_assoc (
      binary-group n rest op left right h (reads_left n (omega (arith, long)))
        (reads_right n (omega (arith, long, long'))))

ternary-Reads : (a b c : ExprNode) → Reads a → Reads b → Reads c → Reads (ternary a b c)
unfolding emit
ternary-Reads a b c reads_a reads_b reads_c zero l rest = absurd (omega arith)
ternary-Reads a b c reads_a reads_b reads_c (suc zero) l rest = absurd (
    omega (
      arith,
      length-append (emit a) (punct "?" ∷ (emit b ++ punct ":" ∷ (emit c ++ punct ")" ∷ []))),
    ))
ternary-Reads a b c reads_a reads_b reads_c (suc (suc n)) l rest =
    let long =
      length-append (emit a) (punct "?" ∷ (emit b ++ punct ":" ∷ (emit c ++ punct ")" ∷ []))) in
    let long' = length-append (emit b) (punct ":" ∷ (emit c ++ punct ")" ∷ [])) in
    let long'' = length-append (emit c) (punct ")" ∷ []) in
    simp append_assoc (
      ternary-group n rest a b c (reads_a (suc n) (omega (arith, long)))
        (parse_ternary-emit b reads_b (suc n) (omega (arith, long, long')))
        (parse_ternary-emit c reads_c (suc n) (omega (arith, long, long', long''))))

index-Reads :
    (node property : ExprNode) → Reads node → Reads property → Reads (member node property true)
unfolding emit
index-Reads node property reads reads_property zero l rest = absurd (omega arith)
index-Reads node property reads reads_property (suc n) l rest =
    let long =
      length-append (emit node) (punct "[" ∷ (emit property ++ punct "]" ∷ punct ")" ∷ [])) in
    let long' = length-append (emit property) (punct "]" ∷ punct ")" ∷ []) in
    simp append_assoc (
      member-group n rest node (member node property true)
        (punct "[" ∷ (emit property ++ punct "]" ∷ punct ")" ∷ rest))
        (reads n (omega (arith, long))) refl
        (rw
          (
            parse_ternary-emit property reads_property n (omega (arith, long, long'))
                (punct "]" ∷ punct ")" ∷ rest)
                (refl, (refl, (refl, (refl, (refl, (refl, (refl, (refl, tt)))))))) refl,
            parse_index,
          )
          refl)
        (omega arith))

name-Reads :
    (node : ExprNode) (s : String) → Reads node → Reads (member node (literal (text s)) false)
unfolding emit
name-Reads node s reads zero l rest = absurd (omega arith)
name-Reads node s reads (suc n) l rest =
    let long = length-append (emit node) (punct "." ∷ name s ∷ punct ")" ∷ []) in
    simp append_assoc (
      member-group n rest node (member node (literal (text s)) false)
        (punct "." ∷ name s ∷ punct ")" ∷ rest) (reads n (omega (arith, long))) refl refl
        (omega arith))

property-Reads :
    (node property : ExprNode) → IsName property → Reads node → Reads (member node property false)
property-Reads node (literal (text s)) h reads = name-Reads node s reads
property-Reads node _ h reads = absurd h

call-Reads :
    (callee : ExprNode) (args : Arguments)
    → Reads callee
    → ReadsArguments args
    → Reads (call callee args)
unfolding emit
call-Reads callee args reads reads_args zero l rest = absurd (omega arith)
call-Reads callee args reads reads_args (suc n) l rest =
    let long =
      length-append (emit callee)
        (punct "(" ∷ (emit_arguments args ++ punct ")" ∷ punct ")" ∷ [])) in
    let long' = length-append (emit_arguments args) (punct ")" ∷ punct ")" ∷ []) in
    simp append_assoc (
      call-group n rest callee args (reads n (omega (arith, long))) reads_args
        (omega (arith, long, long')))

mutual
  reads : (node : ExprNode) → IsExpression node → Reads node
  reads (literal l) h = literal-Reads l
  reads (identifier s) h = identifier-Reads s h
  reads (unary op node) h = unary-Reads op node (h.0) (reads node (h.1))
  reads (binary op left right) h =
      binary-Reads op left right (h.0) (reads left (h.1)) (reads right (h.2))
  reads (ternary a b c) h = ternary-Reads a b c (reads a (h.0)) (reads b (h.1)) (reads c (h.2))
  reads (member node property true) h =
      index-Reads node property (reads node (h.0)) (reads property (h.1))
  reads (member node property false) h = property-Reads node property (h.1) (reads node (h.0))
  reads (call callee args) h =
      call-Reads callee args (reads callee (h.0)) (reads_arguments args (h.1))

  reads_arguments : (args : Arguments) → AreExpressions args → ReadsArguments args
  reads_arguments no_arguments h = tt
  reads_arguments (argument node no_arguments) h = one_argument node (reads node (h.0))
  reads_arguments (argument node (argument next args)) h =
      more_arguments node next args (reads node (h.0)) (reads_arguments (argument next args) (h.1))

-- Every expression whose operators are the language's, whose identifiers stand for no value and
-- whose properties after a dot are names parses back from its print, in which every operation
-- stands in parentheses.
pub parse_expression-print :
    (node : ExprNode) → IsExpression node → parse_expression (print node) ≡ ok node
unfolding parse_expression
parse_expression-print node h =
    rw
      (
        parse_ternary-emit node (reads node h) (suc (length (print node)))
            (omega (arith, length-append (emit node) (eof ∷ []))) (eof ∷ [])
            (refl, (refl, (refl, (refl, (refl, (refl, (refl, (refl, tt)))))))) refl,
        bind,
      )
      refl
