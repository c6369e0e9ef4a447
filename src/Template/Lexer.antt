-- ===== src/Template/Lexer.antt =====
-- templateExpression.ts, tokenize. A text is a list of characters; where the source counts UTF-16
-- units, a character beyond U+FFFF is two units that stand in a string literal together or are
-- both refused.
pub mod Total
use glanceus.Prelude.{
  ℕ, zero, suc, String, Bool, false, ◌&&◌, ◌||◌, ◌==◌, leb, List, [], ◌∷◌, if◌then◌else◌, includes,
}
use Prim.Native.Char.{Char, code}
use glanceus.Prelude.Text.{is_space}
use glanceus.Template.Syntax.{
  TokenType, number_token, string_token, identifier_token, operator_token, punct_token, Token,
  Tokens, token, eof, Scan, ok, failed, out_of_fuel, bind,
}

-- /[0-9]/, /[A-Za-z_$]/ and /[A-Za-z0-9_$]/.
abbrev pub is_digit_char : Char → Bool
is_digit_char c = leb b'0' (code c) && leb (code c) b'9'

abbrev pub starts_name : Char → Bool
starts_name c =
    (leb b'A' (code c) && leb (code c) b'Z')
    || (leb b'a' (code c) && leb (code c) b'z')
    || (code c == b'_')
    || (code c == b'$')

abbrev pub continues_name : Char → Bool
continues_name c = starts_name c || is_digit_char c

abbrev pub continues_number : Char → Bool
continues_number c = is_digit_char c || (code c == b'.')

-- A piece of the text, and what follows it.
pub record Piece : Type 0 where
  pub taken : String
  pub rest : String

abbrev pub prepend : Char → Piece → Piece
prepend c p = record { taken = String.◌∷◌ c p.taken; rest = p.rest }

-- The loops of numbers and identifiers.
unfoldable pub take_while : (Char → Bool) → String → Piece
take_while p String.[] = record { taken = ""; rest = "" }
take_while p (String.◌∷◌ c s) =
    let more = take_while p s in
    if p c then prepend c more else record { taken = ""; rest = String.◌∷◌ c s }

-- The character that `\` and this one stand for.
abbrev pub unescape : Char → Char
unescape c = if code c == b'n' then "\n" else if code c == b't' then "\t" else c

abbrev pub is_backslash : Char → Bool
is_backslash c = code c == 92

-- The loop of a string literal, after its opening quote. A text that ends in a backslash leaves
-- the backslash to the outer loop.
unfoldable pub read_string : (quote : ℕ) → String → Piece
read_string quote String.[] = record { taken = ""; rest = "" }
read_string quote (String.◌∷◌ c String.[]) =
    if is_backslash c
    then record { taken = ""; rest = String.◌∷◌ c String.[] }
    else if code c == quote
    then record { taken = ""; rest = "" }
    else record { taken = String.◌∷◌ c String.[]; rest = "" }
read_string quote (String.◌∷◌ c (String.◌∷◌ d s)) =
    let escaped = prepend (unescape d) (read_string quote s) in
    let plain = prepend c (read_string quote (String.◌∷◌ d s)) in
    if is_backslash c
    then escaped
    else if code c == quote
    then record { taken = ""; rest = String.◌∷◌ d s }
    else plain

-- The first characters of a text, and the text without them.
abbrev pub first : ℕ → String → String
first zero s = ""
first (suc n) String.[] = ""
first (suc n) (String.◌∷◌ c s) = String.◌∷◌ c (first n s)

abbrev pub skip : ℕ → String → String
skip zero s = s
skip (suc n) String.[] = ""
skip (suc n) (String.◌∷◌ c s) = skip n s

abbrev pub starts_digit : String → Bool
starts_digit String.[] = false
starts_digit (String.◌∷◌ c s) = is_digit_char c

abbrev pub three_char_operators : List String
three_char_operators = "===" ∷ "!==" ∷ []

abbrev pub two_char_operators : List String
two_char_operators = "&&" ∷ "||" ∷ "??" ∷ "==" ∷ "!=" ∷ ">=" ∷ "<=" ∷ []

abbrev pub one_char_operators : List String
one_char_operators = "+" ∷ "-" ∷ "*" ∷ "/" ∷ "%" ∷ ">" ∷ "<" ∷ "!" ∷ []

abbrev pub puncts : List String
puncts = "(" ∷ ")" ∷ "." ∷ "," ∷ "[" ∷ "]" ∷ "?" ∷ ":" ∷ []

abbrev pub is_quote : Char → Bool
is_quote c = (code c == 39) || (code c == 34)

-- What one round of the loop does with a character and the text after it: it skips, pushes a token
-- and goes on with the rest, or throws.
pub data Lexed : Type 0 where
  skips : String → Lexed
  pushes : Token → String → Lexed
  throws : Lexed

abbrev pub push_piece : TokenType → Piece → Lexed
push_piece type p = pushes (token type p.taken) p.rest

unfoldable pub lex_operator : Char → String → Lexed
lex_operator c s =
    let whole = String.◌∷◌ c s in
    if includes (first 3 whole) three_char_operators
    then pushes (token operator_token (first 3 whole)) (skip 2 s)
    else if includes (first 2 whole) two_char_operators
    then pushes (token operator_token (first 2 whole)) (skip 1 s)
    else if includes (first 1 whole) one_char_operators
    then pushes (token operator_token (first 1 whole)) s
    else if includes (first 1 whole) puncts
    then pushes (token punct_token (first 1 whole)) s
    else throws

unfoldable pub lex_one : Char → String → Lexed
unfolding is_space read_string take_while lex_operator
lex_one c s =
    if is_space (code c)
    then skips s
    else if is_quote c
    then push_piece string_token (read_string (code c) s)
    else if is_digit_char c || ((code c == b'.') && starts_digit s)
    then push_piece number_token (prepend c (take_while continues_number s))
    else if starts_name c
    then push_piece identifier_token (prepend c (take_while continues_name s))
    else lex_operator c s

abbrev pub push_token : Token → Tokens → Scan Tokens
push_token t ts = ok (t ∷ ts)

-- tokenize, on fuel: each round takes a character at least.
unfoldable pub tokenize_from : ℕ → String → Scan Tokens
unfolding lex_one
tokenize_from zero s = out_of_fuel
tokenize_from (suc n) String.[] = ok (eof ∷ [])
tokenize_from (suc n) (String.◌∷◌ c s) = elim (lex_one c s) [
  | skips rest ↦ tokenize_from n rest
  | pushes t rest ↦ bind (tokenize_from n rest) (push_token t)
  | throws ↦ failed
]

abbrev pub text_length : String → ℕ
text_length String.[] = 0
text_length (String.◌∷◌ c s) = suc (text_length s)

unfoldable pub tokenize : String → Scan Tokens
unfolding tokenize_from
tokenize input = tokenize_from (suc (text_length input)) input
