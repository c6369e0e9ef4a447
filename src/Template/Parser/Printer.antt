-- ===== src/Template/Parser/Printer.antt =====
-- A printer of expressions, against which the parser is checked: every operation stands in
-- parentheses, so what it prints can stand wherever the grammar has an operand.
use glanceus.Prelude.{◌≡◌, String, true, false, List, [], ◌∷◌, ◌++◌, includes}
use glanceus.Template.Syntax.{
  number_token, string_token, identifier_token, Token, Tokens, token, punct, operator, eof, Literal,
  number_of, text, truth, null_literal, undefined_literal, ExprNode, literal, identifier, unary,
  binary, ternary, member, call, Arguments, no_arguments, argument,
}
use glanceus.Template.Parser.{unary_operators}

abbrev pub name : String → Token
name = token identifier_token

abbrev pub literal_token : Literal → Token
literal_token (number_of s) = token number_token s
literal_token (text s) = token string_token s
literal_token (truth true) = name "true"
literal_token (truth false) = name "false"
literal_token null_literal = name "null"
literal_token undefined_literal = name "undefined"

-- The name after a dot.
abbrev pub property_name : ExprNode → String
property_name (literal (text s)) = s
property_name _ = ""

unfoldable mutual
  pub emit : ExprNode → Tokens
  emit (literal l) = literal_token l ∷ []
  emit (identifier s) = name s ∷ []
  emit (unary op node) = punct "(" ∷ operator op ∷ (emit node ++ punct ")" ∷ [])
  emit (binary op left right) =
      punct "(" ∷ (emit left ++ operator op ∷ (emit right ++ punct ")" ∷ []))
  emit (ternary condition consequent alternate) =
      punct "("
      ∷ (emit condition
          ++ punct "?" ∷ (emit consequent ++ punct ":" ∷ (emit alternate ++ punct ")" ∷ [])))
  emit (member node property true) =
      punct "(" ∷ (emit node ++ punct "[" ∷ (emit property ++ punct "]" ∷ punct ")" ∷ []))
  emit (member node property false) =
      punct "(" ∷ (emit node ++ punct "." ∷ name (property_name property) ∷ punct ")" ∷ [])
  emit (call callee args) =
      punct "(" ∷ (emit callee ++ punct "(" ∷ (emit_arguments args ++ punct ")" ∷ punct ")" ∷ []))

  pub emit_arguments : Arguments → Tokens
  emit_arguments no_arguments = []
  emit_arguments (argument node no_arguments) = emit node
  emit_arguments (argument node (argument next args)) =
      emit node ++ punct "," ∷ emit_arguments (argument next args)

abbrev pub all_binary_operators : List String
all_binary_operators =
    "??" ∷ "||" ∷ "&&" ∷ "==" ∷ "!=" ∷ "===" ∷ "!==" ∷ ">" ∷ ">=" ∷ "<" ∷ "<=" ∷ "+" ∷ "-" ∷ "*"
    ∷ "/" ∷ "%" ∷ []

abbrev pub reserved_names : List String
reserved_names = "true" ∷ "false" ∷ "null" ∷ "undefined" ∷ []

abbrev pub IsName : ExprNode → Type 0
IsName (literal (text s)) = Unit
IsName _ = ⊥

-- The expressions that the language has: its operators, names that stand for no value, and after a
-- dot a name.
abbrev mutual
  pub IsExpression : ExprNode → Type 0
  IsExpression (literal l) = Unit
  IsExpression (identifier s) = includes s reserved_names ≡ false
  IsExpression (unary op node) = (includes op unary_operators ≡ true) × IsExpression node
  IsExpression (binary op left right) =
      (includes op all_binary_operators ≡ true) × IsExpression left × IsExpression right
  IsExpression (ternary condition consequent alternate) =
      IsExpression condition × IsExpression consequent × IsExpression alternate
  IsExpression (member node property true) = IsExpression node × IsExpression property
  IsExpression (member node property false) = IsExpression node × IsName property
  IsExpression (call callee args) = IsExpression callee × AreExpressions args

  pub AreExpressions : Arguments → Type 0
  AreExpressions no_arguments = Unit
  AreExpressions (argument node args) = IsExpression node × AreExpressions args

-- What parseExpression is given.
abbrev pub print : ExprNode → Tokens
print node = emit node ++ eof ∷ []
