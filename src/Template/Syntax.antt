-- ===== src/Template/Syntax.antt =====
-- templateExpression.ts: tokens, the nodes of an expression, and the outcome of a parse.
use glanceus.Prelude.{String, Bool, true, false, List}

pub data TokenType : Type 0 where
  number_token string_token identifier_token operator_token punct_token eof_token : TokenType

pub record Token : Type 0 where
  pub type : TokenType
  pub value : String

abbrev pub Tokens : Type 0
Tokens = List Token

abbrev pub token : TokenType → String → Token
token type value = record { type = type; value = value }

abbrev pub punct : String → Token
punct = token punct_token

abbrev pub operator : String → Token
operator = token operator_token

abbrev pub eof : Token
eof = token eof_token ""

abbrev pub same_type : TokenType → TokenType → Bool
same_type number_token number_token = true
same_type string_token string_token = true
same_type identifier_token identifier_token = true
same_type operator_token operator_token = true
same_type punct_token punct_token = true
same_type eof_token eof_token = true
same_type _ _ = false

-- The value of a literal node. That of a number token is `Number` of its text, which stands for it.
pub data Literal : Type 0 where
  number_of : String → Literal
  text : String → Literal
  truth : Bool → Literal
  null_literal : Literal
  undefined_literal : Literal

-- ExprNode. The arguments of a call are a list of their own.
mutual
  pub data ExprNode : Type 0 where
    literal : Literal → ExprNode
    identifier : String → ExprNode
    unary : String → ExprNode → ExprNode
    binary : String → ExprNode → ExprNode → ExprNode
    ternary : ExprNode → ExprNode → ExprNode → ExprNode
    member : ExprNode → ExprNode → (computed : Bool) → ExprNode
    call : ExprNode → Arguments → ExprNode

  pub data Arguments : Type 0 where
    no_arguments : Arguments
    argument : ExprNode → Arguments → Arguments

-- What a scan of the input gives: a thrown error is `failed`, and `out_of_fuel` has no counterpart
-- in the program.
pub data Scan {ℓ} (A : Type ℓ) : Type ℓ where
  ok : A → Scan A
  failed : Scan A
  out_of_fuel : Scan A

abbrev pub bind {ℓ κ} : {A : Type ℓ} {B : Type κ} → Scan A → (A → Scan B) → Scan B
bind (ok a) f = f a
bind failed f = failed
bind out_of_fuel f = out_of_fuel
