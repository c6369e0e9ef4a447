-- ===== src/Template/Parser/Calls.antt =====
-- How parsePrimary reads a printed call, by what it reads of its parts.
use mathlib.Core.List.{append_assoc}
use glanceus.Prelude.{
  ℕ, zero, suc, ◌≤◌, ◌<◌, ◌≡◌, refl, true, false, ◌∷◌, ◌++◌, length, length-append, arith,
}
use glanceus.Template.Syntax.{
  punct_token, Tokens, punct, number_of, text, truth, null_literal, undefined_literal, ExprNode,
  literal, identifier, unary, binary, ternary, member, call, Arguments, no_arguments, argument, ok,
  bind,
}
use glanceus.Template.Parser.{
  is_next, parse_arguments, arguments_or_none, parse_call, parse_primary, parse_ternary,
}
use glanceus.Template.Parser.Printer.{emit, emit_arguments}
use glanceus.Template.Parser.Levels.{ReadsOperand}
use glanceus.Template.Parser.Groups.{Reads, parse_ternary-emit, member-group}

-- The arguments of a call, up to its closing parenthesis.
abbrev pub ReadsArguments : Arguments → Type 0
ReadsArguments no_arguments = Unit
ReadsArguments (argument node args) =
    (n k : ℕ) (rest : Tokens)
    → length (emit_arguments (argument node args)) < n
    → length (emit_arguments (argument node args)) ≤ k
    → parse_arguments (parse_ternary n) (suc k)
        (emit_arguments (argument node args) ++ punct ")" ∷ rest)
      ≡ ok (argument node args, punct ")" ∷ rest)

-- Something is printed for every node.
pub length-emit_pos : (node : ExprNode) → 1 ≤ length (emit node)
unfolding emit
length-emit_pos (literal l) = omega arith
length-emit_pos (identifier s) = omega arith
length-emit_pos (unary op node) = omega arith
length-emit_pos (binary op left right) = omega arith
length-emit_pos (ternary a b c) = omega arith
length-emit_pos (member node property true) = omega arith
length-emit_pos (member node property false) = omega arith
length-emit_pos (call callee args) = omega arith

pub one_argument : (node : ExprNode) → Reads node → ReadsArguments (argument node no_arguments)
unfolding parse_arguments emit_arguments
one_argument node reads n k rest h h' =
    rw
      (parse_ternary-emit node reads n h (punct ")" ∷ rest)
        (refl, (refl, (refl, (refl, (refl, (refl, (refl, (refl, tt)))))))) refl)
      refl

pub more_arguments :
    (node next : ExprNode) (args : Arguments)
    → Reads node
    → ReadsArguments (argument next args)
    → ReadsArguments (argument node (argument next args))
unfolding parse_arguments emit_arguments
more_arguments node next args reads reads_args n zero rest h h' =
    absurd
      (omega (arith, length-append (emit node) (punct "," ∷ emit_arguments (argument next args))))
more_arguments node next args reads reads_args n (suc k) rest h h' =
    let long = length-append (emit node) (punct "," ∷ emit_arguments (argument next args)) in
    rw
      (append_assoc (emit node) (punct "," ∷ emit_arguments (argument next args))
        (punct ")" ∷ rest))
      (rw
        (parse_ternary-emit node reads n (omega (arith, long))
          (punct "," ∷ (emit_arguments (argument next args) ++ punct ")" ∷ rest))
          (refl, (refl, (refl, (refl, (refl, (refl, (refl, (refl, tt)))))))) refl)
        (rw
          (
            reads_args n k rest (omega (arith, long)) (omega (arith, long, length-emit_pos node)),
            bind,
          )
          refl))

-- A printed operand does not start with a closing parenthesis.
pub is_next-emit :
    (node : ExprNode) (rest : Tokens) → is_next punct_token ")" (emit node ++ rest) ≡ false
unfolding emit
is_next-emit (literal (number_of s)) rest = refl
is_next-emit (literal (text s)) rest = refl
is_next-emit (literal (truth true)) rest = refl
is_next-emit (literal (truth false)) rest = refl
is_next-emit (literal null_literal) rest = refl
is_next-emit (literal undefined_literal) rest = refl
is_next-emit (identifier s) rest = refl
is_next-emit (unary op node) rest = refl
is_next-emit (binary op left right) rest = refl
is_next-emit (ternary a b c) rest = refl
is_next-emit (member node property true) rest = refl
is_next-emit (member node property false) rest = refl
is_next-emit (call callee args) rest = refl

pub is_next-emit_arguments :
    (node : ExprNode) (args : Arguments) (rest : Tokens)
    → is_next punct_token ")" (emit_arguments (argument node args) ++ rest) ≡ false
unfolding emit_arguments
is_next-emit_arguments node no_arguments rest = is_next-emit node rest
is_next-emit_arguments node (argument next args) rest =
    rw (append_assoc (emit node) (punct "," ∷ emit_arguments (argument next args)) rest)
      (is_next-emit node ((punct "," ∷ emit_arguments (argument next args)) ++ rest))

pub call-group :
    (n : ℕ) (rest : Tokens) (callee : ExprNode) (args : Arguments)
    → ReadsOperand (parse_ternary n) callee
    → ReadsArguments args
    → length (emit_arguments args) < n
    → parse_primary (parse_ternary (suc n)) (
        punct "("
        ∷ (emit callee ++ punct "(" ∷ (emit_arguments args ++ punct ")" ∷ punct ")" ∷ rest)))
      ≡ ok (call callee args, rest)
unfolding emit_arguments
call-group n rest callee no_arguments reads reads_args h =
    member-group n rest callee (call callee no_arguments) (punct "(" ∷ punct ")" ∷ punct ")" ∷ rest)
      reads refl refl (omega arith)
call-group n rest callee (argument node args) reads reads_args h =
    let ts = emit_arguments (argument node args) ++ punct ")" ∷ punct ")" ∷ rest in
    member-group n rest callee (call callee (argument node args)) (punct "(" ∷ ts) reads refl
      (rw
        (
          is_next-emit_arguments node args (punct ")" ∷ punct ")" ∷ rest),
          parse_call,
          arguments_or_none,
        )
        (rw
          (
            reads_args n (length ts) (punct ")" ∷ rest) h (
                omega (
                  arith,
                  length-append (emit_arguments (argument node args))
                      (punct ")" ∷ punct ")" ∷ rest),
                )),
            bind,
          )
          refl))
      (omega arith)
