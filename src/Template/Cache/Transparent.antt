-- ===== src/Template/Cache/Transparent.antt =====
-- The cache does not show: with it and without it, expressions have the same outcomes.
use glanceus.Prelude.{
  suc, ◌≤◌, ltb, ◌≡◌, ◌≢◌, refl, sym, ap, String, str_eq, eq_refl, eq_iff, Option, none, some, List,
  [], ◌∷◌, map, length, All, if_rule, arith,
}
use glanceus.Prelude.Dict.{lookup, set, set-All, delete-All, lookup-All, length-delete-has}
use glanceus.Prelude.Value.{Value}
use glanceus.Template.Syntax.{ExprNode, Tokens, Scan, ok, failed, out_of_fuel, bind}
use glanceus.Template.Lexer.{tokenize}
use glanceus.Template.Lexer.Total.{tokenize-ne-out_of_fuel}
use glanceus.Template.Parser.{parse_expression}
use glanceus.Template.Parser.Total.{parse_expression-ne-out_of_fuel}
use glanceus.Template.Helpers.{Engine}
use glanceus.Template.Eval.{Key}
use glanceus.Template.Cache.{
  scan_of, ast_of, Cache, template_ast_cache_max, delete_oldest, evict, cached_or_new,
  get_cached_ast, eval_ast, evaluate_template_expression, evaluate_all,
}

-- The parse of a text ends with an expression or a caught error: it is never given up.
pub scan_of-ne-out_of_fuel : (expression : String) → scan_of expression ≢ out_of_fuel
unfolding scan_of
scan_of-ne-out_of_fuel expression = ends (tokenize expression) (tokenize-ne-out_of_fuel expression)
  where
    ends : (r : Scan Tokens) → r ≢ out_of_fuel → bind r parse_expression ≢ out_of_fuel
    ends (ok ts) h = parse_expression-ne-out_of_fuel ts
    ends failed h = λ e. cc
    ends out_of_fuel h = absurd (h refl)

-- Every entry is the parse of its key, and there are no more than the maximum.
abbrev pub IsSound : Cache → Type 0
IsSound cache =
    All (λ entry. entry.1 ≡ ast_of (entry.0)) cache × (length cache ≤ template_ast_cache_max)

length-set :
    {V : Type 0} (k : String) (v : V) (m : List (String × V)) → length (set k v m) ≤ suc (length m)
length-set k v [] = omega arith
length-set k v ((j, w) ∷ m) =
    if_rule (λ (l : List _). length l ≤ suc (suc (length m))) (str_eq j k) (λ same. omega arith)
      λ other. omega (arith, length-set k v m)

abbrev IsParse : String × Option ExprNode → Type 0
IsParse entry = entry.1 ≡ ast_of (entry.0)

delete_oldest-IsSound :
    (cache : Cache)
    → All IsParse cache
    → length cache ≤ suc template_ast_cache_max
    → IsSound (delete_oldest cache)
delete_oldest-IsSound [] h k = (tt, omega arith)
delete_oldest-IsSound ((key, ast) ∷ cache) h k = (
  delete-All IsParse key ((key, ast) ∷ cache) h,
  omega (arith, length-delete-has key ((key, ast) ∷ cache) (ground (arith, eq_refl key))),
)

evict-IsSound :
    (cache : Cache)
    → All IsParse cache
    → length cache ≤ suc template_ast_cache_max
    → IsSound (evict cache)
evict-IsSound cache h k =
    if_rule IsSound (ltb template_ast_cache_max (length cache))
      (λ full. delete_oldest-IsSound cache h k) λ room. (h, ground (arith, room))

-- A text's cached parse is its parse, and the cache stays sound.
get_cached_ast_lem :
    (expression : String) (cache : Cache)
    → IsSound cache
    → ((get_cached_ast expression cache).0 ≡ ast_of expression)
      × IsSound (get_cached_ast expression cache).1
unfolding get_cached_ast
get_cached_ast_lem expression cache h = found (lookup expression cache) refl
  where
    found :
        (entry : Option (Option ExprNode))
        → lookup expression cache ≡ entry
        → ((cached_or_new entry expression cache).0 ≡ ast_of expression)
          × IsSound (cached_or_new entry expression cache).1
    found (some ast) e = (lookup-All IsParse expression ast cache (h.0) e, h)
    found none e = (
      refl,
      evict-IsSound (set expression (ast_of expression) cache)
          (set-All IsParse expression (ast_of expression) cache (h.0)
            (λ j same. ap ast_of (sym ((eq_iff j expression).0 same))) refl)
          (omega (arith, length-set expression (ast_of expression) cache, h.1)),
    )

-- With a sound cache, evaluations one after another have the outcomes that parsing each text afresh
-- gives, and the cache stays sound and within its maximum.
pub evaluate_all_lem :
    (e : Engine) (read : Value → Key → Value) (requests : List (String × Value)) (cache : Cache)
    → IsSound cache
    → ((evaluate_all e read requests cache).0
        ≡ map (λ r. eval_ast e read (r.1) (ast_of (r.0))) requests)
      × IsSound (evaluate_all e read requests cache).1
unfolding evaluate_all evaluate_template_expression
evaluate_all_lem e read [] cache h = (refl, h)
evaluate_all_lem e read ((expression, context) ∷ requests) cache h =
    let now = get_cached_ast_lem expression cache h in
    let later = evaluate_all_lem e read requests (get_cached_ast expression cache).1 (now.1) in
    (λ i. eval_ast e read context (now.0 i) ∷ later.0 i, later.1)
