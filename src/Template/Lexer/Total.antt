-- ===== src/Template/Lexer/Total.antt =====
-- The fuel of the lexer is enough for any text.
use glanceus.Prelude.{
  ℕ, zero, suc, ◌≤◌, ◌<◌, ◌≢◌, refl, String, Bool, ◌&&◌, ◌||◌, ◌==◌, if_rule, includes, arith,
}
use Prim.Native.Char.{Char, code}
use glanceus.Prelude.Text.{is_space}
use glanceus.Template.Syntax.{Token, Tokens, Scan, ok, failed, out_of_fuel, bind}
use glanceus.Template.Lexer.{
  is_digit_char, starts_name, continues_name, continues_number, Piece, take_while, is_backslash,
  read_string, first, skip, starts_digit, three_char_operators, two_char_operators,
  one_char_operators, puncts, is_quote, Lexed, skips, pushes, throws, lex_operator, lex_one,
  tokenize_from, text_length, tokenize, push_token,
}

take_while-le : (p : Char → Bool) (s : String) → text_length (take_while p s).rest ≤ text_length s
unfolding take_while
take_while-le p String.[] = omega arith
take_while-le p (String.◌∷◌ c s) =
    if_rule (λ (q : Piece). text_length q.rest ≤ suc (text_length s)) (p c)
      (λ on. omega (arith, take_while-le p s)) λ off. omega arith

read_string-le : (quote : ℕ) (s : String) → text_length (read_string quote s).rest ≤ text_length s
unfolding read_string
read_string-le quote String.[] = omega arith
read_string-le quote (String.◌∷◌ c String.[]) =
    if_rule (λ (q : Piece). text_length q.rest ≤ 1) (is_backslash c) (λ slash. omega arith)
      λ other.
        if_rule (λ (q : Piece). text_length q.rest ≤ 1) (code c == quote) (λ end. omega arith)
          λ plain. omega arith
read_string-le quote (String.◌∷◌ c (String.◌∷◌ d s)) =
    if_rule (λ (q : Piece). text_length q.rest ≤ suc (suc (text_length s))) (is_backslash c)
      (λ slash. omega (arith, read_string-le quote s))
      λ other.
        if_rule (λ (q : Piece). text_length q.rest ≤ suc (suc (text_length s))) (code c == quote)
          (λ end. omega arith) λ plain. omega (arith, read_string-le quote (String.◌∷◌ d s))

skip-le : (n : ℕ) (s : String) → text_length (skip n s) ≤ text_length s
skip-le zero s = omega arith
skip-le (suc n) String.[] = omega arith
skip-le (suc n) (String.◌∷◌ c s) = omega (arith, skip-le n s)

-- A round of the lexer leaves no more than the text after its character.
abbrev IsShorter : ℕ → Lexed → Type 0
IsShorter n (skips rest) = text_length rest ≤ n
IsShorter n (pushes t rest) = text_length rest ≤ n
IsShorter n throws = Unit

lex_operator-IsShorter : (c : Char) (s : String) → IsShorter (text_length s) (lex_operator c s)
unfolding lex_operator
lex_operator-IsShorter c s =
    if_rule (IsShorter (text_length s)) (includes (first 3 (String.◌∷◌ c s)) three_char_operators)
      (λ three. skip-le 2 s)
      λ shorter.
        if_rule (IsShorter (text_length s)) (includes (first 2 (String.◌∷◌ c s)) two_char_operators)
          (λ two. skip-le 1 s)
          λ short.
            if_rule (IsShorter (text_length s))
              (includes (first 1 (String.◌∷◌ c s)) one_char_operators) (λ one. omega arith)
              λ other.
                if_rule (IsShorter (text_length s)) (includes (first 1 (String.◌∷◌ c s)) puncts)
                  (λ punct. omega arith) λ none. tt

lex_one-IsShorter : (c : Char) (s : String) → IsShorter (text_length s) (lex_one c s)
unfolding lex_one
lex_one-IsShorter c s =
    if_rule (IsShorter (text_length s)) (is_space (code c)) (λ space. omega arith)
      λ visible.
        if_rule (IsShorter (text_length s)) (is_quote c) (λ quote. read_string-le (code c) s)
          λ bare.
            if_rule (IsShorter (text_length s))
              (is_digit_char c || ((code c == b'.') && starts_digit s))
              (λ number. take_while-le continues_number s)
              λ word.
                if_rule (IsShorter (text_length s)) (starts_name c)
                  (λ name. take_while-le continues_name s) λ other. lex_operator-IsShorter c s

pushed : (t : Token) (r : Scan Tokens) → r ≢ out_of_fuel → bind r (push_token t) ≢ out_of_fuel
pushed t (ok ts) h = λ e. cc
pushed t failed h = λ e. cc
pushed t out_of_fuel h = λ e. h refl

-- A round, by what it does, if the rounds after it have fuel enough.
abbrev AllEnd : ℕ → Type 0
AllEnd n = (s : String) → text_length s < n → tokenize_from n s ≢ out_of_fuel

round_ends :
    (n m : ℕ) (l : Lexed)
    → AllEnd n
    → m < n
    → IsShorter m l
    → (elim l [
      | skips rest ↦ tokenize_from n rest
      | pushes t rest ↦ bind (tokenize_from n rest) (push_token t)
      | throws ↦ failed
    ])
      ≢ out_of_fuel
round_ends n m (skips rest) later h k = later rest (omega arith)
round_ends n m (pushes t rest) later h k =
    pushed t (tokenize_from n rest) (later rest (omega arith))
round_ends n m throws later h k = λ e. cc

tokenize_from-ne-out_of_fuel : (n : ℕ) → AllEnd n
unfolding tokenize_from
tokenize_from-ne-out_of_fuel zero s h = absurd (omega arith)
tokenize_from-ne-out_of_fuel (suc n) String.[] h = λ e. cc
tokenize_from-ne-out_of_fuel (suc n) (String.◌∷◌ c s) h =
    round_ends n (text_length s) (lex_one c s) (tokenize_from-ne-out_of_fuel n) (omega arith)
      (lex_one-IsShorter c s)

-- A text is cut into tokens or refused, and never given up for want of fuel.
pub tokenize-ne-out_of_fuel : (s : String) → tokenize s ≢ out_of_fuel
unfolding tokenize
tokenize-ne-out_of_fuel s = tokenize_from-ne-out_of_fuel (suc (text_length s)) s (omega arith)
