-- ===== src/Template/Eval.antt =====
-- templateExpression.ts, evalNode. What an expression reads from outside is a property of a
-- value, the context's among them, which `read` gives. An outcome is a value, or `none` for a
-- thrown error, which evalNode does not catch.
pub mod Guard
pub mod Returns
use glanceus.Prelude.{
  ℕ, ◌==◌, String, str_eq, Bool, true, false, not, Option, none, some, List, [], ◌∷◌, if◌then◌else◌,
  includes,
}
use glanceus.Prelude.Dict.{lookup}
use glanceus.Prelude.Int.{ℤ, pos, negsuc, pos_part, neg_part, Num, nan, infinite, finite}
use glanceus.Prelude.Value.{
  Value, undefined, null, boolean, number, string, array, object, strict_eq, is_truthy,
}
use glanceus.Template.Syntax.{
  Literal, number_of, text, truth, null_literal, undefined_literal, ExprNode, literal, identifier,
  unary, binary, ternary, member, call, Arguments, no_arguments, argument,
}
use glanceus.Template.Helpers.{Engine, Helper, template_helpers, run_helper, negate}

abbrev pub Outcome : Type 0
Outcome = Option Value

abbrev pub and_then {ℓ} : {A : Type ℓ} → Option A → (A → Outcome) → Outcome
and_then none f = none
and_then (some a) f = f a

pub data Key : Type 0 where
  index : Num → Key
  property : String → Key

abbrev pub forbidden_props : List String
forbidden_props = "__proto__" ∷ "prototype" ∷ "constructor" ∷ []

-- safePropKey.
abbrev pub unless_forbidden : String → Option Key
unless_forbidden s = if includes s forbidden_props then none else some (property s)

abbrev pub safe_prop_key : Value → Option Key
safe_prop_key (number (finite z)) = some (index (finite z))
safe_prop_key (string s) = unless_forbidden s
safe_prop_key _ = none

abbrev pub is_nullish : Value → Bool
is_nullish undefined = true
is_nullish null = true
is_nullish _ = false

-- The functions that TEMPLATE_HELPERS, a plain object, inherits.
abbrev pub inherited_functions : List String
inherited_functions =
    "constructor" ∷ "toString" ∷ "toLocaleString" ∷ "valueOf" ∷ "hasOwnProperty" ∷ "isPrototypeOf"
    ∷ "propertyIsEnumerable" ∷ "__defineGetter__" ∷ "__defineSetter__" ∷ "__lookupGetter__"
    ∷ "__lookupSetter__" ∷ []

abbrev pub literal_value : Engine → Literal → Value
literal_value e (number_of s) = number (e.to_number (string s))
literal_value e (text s) = string s
literal_value e (truth b) = boolean b
literal_value e null_literal = null
literal_value e undefined_literal = undefined

-- `node.value` of the node after a dot.
abbrev pub node_value : Engine → ExprNode → Value
node_value e (literal l) = literal_value e l
node_value e _ = undefined

abbrev pub read_key : (Value → Key → Value) → Value → Option Key → Value
read_key read obj none = undefined
read_key read obj (some key) = read obj key

abbrev pub member_of : (Value → Key → Value) → Outcome → Outcome → Outcome
member_of read none prop = none
member_of read (some undefined) prop = some undefined
member_of read (some null) prop = some undefined
member_of read (some obj) none = none
member_of read (some obj) (some prop) = some (read_key read obj (safe_prop_key prop))

abbrev pub operate_unary : Engine → String → Value → Value
operate_unary e op v =
    if str_eq op "!"
    then boolean (not (is_truthy v))
    else if str_eq op "+"
    then number (e.to_number v)
    else if str_eq op "-"
    then number (negate (e.to_number v))
    else undefined

-- The logical operators, which leave their right side unless it is asked for.
abbrev pub choose : Bool → Value → Outcome → Outcome
choose true left right = some left
choose false left right = right

abbrev pub strict_operators : List String
strict_operators = "+" ∷ "-" ∷ "*" ∷ "/" ∷ "%" ∷ ">" ∷ ">=" ∷ "<" ∷ "<=" ∷ "==" ∷ "!=" ∷ []

abbrev pub operate_strict : Engine → String → Value → Value → Value
operate_strict e op left right =
    if str_eq op "==="
    then boolean (strict_eq left right)
    else if str_eq op "!=="
    then boolean (not (strict_eq left right))
    else if includes op strict_operators
    then e.operate op left right
    else undefined

abbrev pub binary_of : Engine → String → Outcome → Outcome → Outcome
binary_of e op none right = none
binary_of e op (some left) right =
    if str_eq op "&&"
    then choose (not (is_truthy left)) left right
    else if str_eq op "||"
    then choose (is_truthy left) left right
    else if str_eq op "??"
    then choose (not (is_nullish left)) left right
    else and_then right λ r. some (operate_strict e op left r)

abbrev pub ternary_of : Outcome → Outcome → Outcome → Outcome
ternary_of none consequent alternate = none
ternary_of (some condition) consequent alternate =
    if is_truthy condition then consequent else alternate

abbrev pub apply_helper : Engine → Option Helper → String → Option (List Value) → Outcome
apply_helper e (some helper) name none = none
apply_helper e (some helper) name (some values) = some (run_helper e helper values)
apply_helper e none name args =
    if includes name inherited_functions
    then and_then args (λ values. e.call_inherited name values)
    else some undefined

abbrev pub call_of : Engine → ExprNode → Option (List Value) → Outcome
call_of e (identifier name) args = apply_helper e (lookup name template_helpers) name args
call_of e _ args = some undefined

abbrev pub push_value : Outcome → Option (List Value) → Option (List Value)
push_value none values = none
push_value (some v) none = none
push_value (some v) (some values) = some (v ∷ values)

abbrev pub property_of : Bool → Outcome → Value → Outcome
property_of true computed named = computed
property_of false computed named = some named

-- evalNode. Its calls have no effect but to throw, so a side that it does not evaluate is one
-- whose outcome is not used.
module _ (e : Engine) (context : Value) (read : Value → Key → Value) where
  unfoldable mutual
    pub eval_node : ExprNode → Outcome
    eval_node (literal l) = some (literal_value e l)
    eval_node (identifier name) = some (read context (property name))
    eval_node (member node prop computed) =
        member_of read (eval_node node) (property_of computed (eval_node prop) (node_value e prop))
    eval_node (call callee args) = call_of e callee (eval_arguments args)
    eval_node (unary op node) = and_then (eval_node node) λ v. some (operate_unary e op v)
    eval_node (binary op left right) = binary_of e op (eval_node left) (eval_node right)
    eval_node (ternary condition consequent alternate) =
        ternary_of (eval_node condition) (eval_node consequent) (eval_node alternate)

    pub eval_arguments : Arguments → Option (List Value)
    eval_arguments no_arguments = some []
    eval_arguments (argument node args) = push_value (eval_node node) (eval_arguments args)
