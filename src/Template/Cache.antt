-- ===== src/Template/Cache.antt =====
-- templateExpression.ts: evaluateTemplateExpression and its cache of parsed expressions, a Map in
-- the order of insertion.
pub mod Transparent
use glanceus.Prelude.{
  ℕ, zero, suc, ltb, String, Bool, true, false, Option, none, some, List, [], ◌∷◌, map, length,
  if◌then◌else◌,
}
use glanceus.Prelude.Dict.{lookup, set, delete}
use glanceus.Prelude.Value.{Value, undefined}
use glanceus.Template.Syntax.{ExprNode, Scan, ok, failed, out_of_fuel, bind}
use glanceus.Template.Lexer.{tokenize}
use glanceus.Template.Parser.{parse_expression}
use glanceus.Template.Helpers.{Engine}
use glanceus.Template.Eval.{Outcome, Key, eval_node}

-- The try block: an error gives null.
abbrev pub to_ast : Scan ExprNode → Option ExprNode
to_ast (ok node) = some node
to_ast failed = none
to_ast out_of_fuel = none

unfoldable pub scan_of : String → Scan ExprNode
unfolding tokenize parse_expression
scan_of expression = bind (tokenize expression) parse_expression

abbrev pub ast_of : String → Option ExprNode
ast_of expression = to_ast (scan_of expression)

abbrev pub Cache : Type 0
Cache = List (String × Option ExprNode)

abbrev pub template_ast_cache_max : ℕ
template_ast_cache_max = 256

abbrev pub delete_oldest : Cache → Cache
delete_oldest [] = []
delete_oldest ((oldest_key, ast) ∷ cache) = delete oldest_key ((oldest_key, ast) ∷ cache)

abbrev pub evict : Cache → Cache
evict cache = if ltb template_ast_cache_max (length cache) then delete_oldest cache else cache

abbrev pub cached_or_new : Option (Option ExprNode) → String → Cache → Option ExprNode × Cache
cached_or_new (some ast) expression cache = (ast, cache)
cached_or_new none expression cache =
    (ast_of expression, evict (set expression (ast_of expression) cache))

-- getCachedAst.
unfoldable pub get_cached_ast : String → Cache → Option ExprNode × Cache
get_cached_ast expression cache = cached_or_new (lookup expression cache) expression cache

abbrev pub eval_ast : Engine → (Value → Key → Value) → Value → Option ExprNode → Outcome
eval_ast e read context none = some undefined
eval_ast e read context (some node) = eval_node e context read node

-- evaluateTemplateExpression.
unfoldable pub evaluate_template_expression :
    Engine → (Value → Key → Value) → String × Value → Cache → Outcome × Cache
unfolding get_cached_ast
evaluate_template_expression e read (expression, context) cache =
    let (ast, later) = get_cached_ast expression cache in (eval_ast e read context ast, later)

-- One evaluation after another, each with its context.
unfoldable pub evaluate_all :
    Engine → (Value → Key → Value) → List (String × Value) → Cache → List Outcome × Cache
unfolding evaluate_template_expression
evaluate_all e read [] cache = ([], cache)
evaluate_all e read (request ∷ requests) cache =
    let (outcome, later) = evaluate_template_expression e read request cache in
    let (outcomes, last) = evaluate_all e read requests later in (outcome ∷ outcomes, last)
