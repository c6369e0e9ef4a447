-- ===== src/Template/Eval/Returns.antt =====
-- Evaluation throws in calls of inherited functions only.
use glanceus.Prelude.{
  ◌≡◌, refl, String, str_eq, Bool, true, false, not, Option, none, some, List, includes, if_rule,
  is_some, arith,
}
use glanceus.Prelude.Dict.{lookup}
use glanceus.Prelude.Value.{Value, undefined, null}
use glanceus.Template.Syntax.{
  ExprNode, literal, identifier, unary, binary, ternary, member, call, Arguments, no_arguments,
  argument,
}
use glanceus.Template.Helpers.{Engine, Helper, template_helpers}
use glanceus.Template.Eval.{
  Outcome, Key, inherited_functions, is_truthy, is_nullish, choose, and_then, member_of,
  property_of, node_value, operate_strict, binary_of, ternary_of, apply_helper, call_of, push_value,
  eval_node, eval_arguments,
}

abbrev pub IsOwn : ExprNode → Type 0
IsOwn (identifier name) = includes name inherited_functions ≡ false
IsOwn _ = Unit

-- No call names a function that every object inherits.
abbrev mutual
  pub HasOwnCalls : ExprNode → Type 0
  HasOwnCalls (literal l) = Unit
  HasOwnCalls (identifier name) = Unit
  HasOwnCalls (member node prop computed) = HasOwnCalls node × HasOwnCalls prop
  HasOwnCalls (call callee args) = IsOwn callee × HaveOwnCalls args
  HasOwnCalls (unary op node) = HasOwnCalls node
  HasOwnCalls (binary op left right) = HasOwnCalls left × HasOwnCalls right
  HasOwnCalls (ternary a b c) = HasOwnCalls a × HasOwnCalls b × HasOwnCalls c

  pub HaveOwnCalls : Arguments → Type 0
  HaveOwnCalls no_arguments = Unit
  HaveOwnCalls (argument node args) = HasOwnCalls node × HaveOwnCalls args

abbrev pub IsReturned {ℓ} : {A : Type ℓ} → Option A → Type 0
IsReturned o = is_some o ≡ true

and_then-IsReturned {ℓ} :
    {A : Type ℓ} (o : Option A) (f : A → Value)
    → IsReturned o
    → IsReturned (and_then o (λ a. some (f a)))
and_then-IsReturned none f h = h
and_then-IsReturned (some a) f h = refl

member_of-IsReturned :
    (read : Value → Key → Value) (obj prop : Outcome)
    → IsReturned obj
    → IsReturned prop
    → IsReturned (member_of read obj prop)
member_of-IsReturned read none prop h k = h
member_of-IsReturned read (some undefined) prop h k = refl
member_of-IsReturned read (some null) prop h k = refl
member_of-IsReturned read (some _) none h k = k
member_of-IsReturned read (some obj) (some prop) h k = refl

property_of-IsReturned :
    (computed : Bool) (o : Outcome) (named : Value)
    → IsReturned o
    → IsReturned (property_of computed o named)
property_of-IsReturned true o named h = h
property_of-IsReturned false o named h = refl

choose-IsReturned :
    (b : Bool) (left : Value) (right : Outcome)
    → IsReturned right
    → IsReturned (choose b left right)
choose-IsReturned true left right h = refl
choose-IsReturned false left right h = h

binary_of-IsReturned :
    (e : Engine) (op : String) (left right : Outcome)
    → IsReturned left
    → IsReturned right
    → IsReturned (binary_of e op left right)
binary_of-IsReturned e op none right h k = h
binary_of-IsReturned e op (some left) right h k =
    if_rule (IsReturned {A = Value}) (str_eq op "&&")
      (λ both. choose-IsReturned (not (is_truthy left)) left right k)
      λ n1.
        if_rule (IsReturned {A = Value}) (str_eq op "||")
          (λ either. choose-IsReturned (is_truthy left) left right k)
          λ n2.
            if_rule (IsReturned {A = Value}) (str_eq op "??")
              (λ nullish. choose-IsReturned (not (is_nullish left)) left right k)
              λ n3. and_then-IsReturned right (operate_strict e op left) k

ternary_of-IsReturned :
    (a b c : Outcome) → IsReturned a → IsReturned b → IsReturned c → IsReturned (ternary_of a b c)
ternary_of-IsReturned none b c h k l = h
ternary_of-IsReturned (some v) b c h k l =
    if_rule (IsReturned {A = Value}) (is_truthy v) (λ yes_then. k) λ no_else. l

apply_helper-IsReturned :
    (e : Engine) (helper : Option Helper) (name : String) (args : Option (List Value))
    → includes name inherited_functions ≡ false
    → IsReturned args
    → IsReturned (apply_helper e helper name args)
apply_helper-IsReturned e (some helper) name none h k = k
apply_helper-IsReturned e (some helper) name (some values) h k = refl
apply_helper-IsReturned e none name args h k =
    if_rule (IsReturned {A = Value}) (includes name inherited_functions)
      (λ inherited. absurd (ground (arith, h, inherited))) λ own. refl

call_of-IsReturned :
    (e : Engine) (callee : ExprNode) (args : Option (List Value))
    → IsOwn callee
    → IsReturned args
    → IsReturned (call_of e callee args)
call_of-IsReturned e (identifier name) args h k =
    apply_helper-IsReturned e (lookup name template_helpers) name args h k
call_of-IsReturned e (literal l) args h k = refl
call_of-IsReturned e (unary op node) args h k = refl
call_of-IsReturned e (binary op left right) args h k = refl
call_of-IsReturned e (ternary a b c) args h k = refl
call_of-IsReturned e (member node prop computed) args h k = refl
call_of-IsReturned e (call callee args') args h k = refl

push_value-IsReturned :
    (o : Outcome) (values : Option (List Value))
    → IsReturned o
    → IsReturned values
    → IsReturned (push_value o values)
push_value-IsReturned none values h k = h
push_value-IsReturned (some v) none h k = k
push_value-IsReturned (some v) (some values) h k = refl

module _ (e : Engine) (context : Value) (read : Value → Key → Value) where
  mutual
    unfolding eval_node

    returned : (node : ExprNode) → HasOwnCalls node → IsReturned (eval_node e context read node)
    returned (literal l) h = refl
    returned (identifier name) h = refl
    returned (member node prop computed) h =
        member_of-IsReturned read (eval_node e context read node) _ (returned node (h.0)) (
          property_of-IsReturned computed (eval_node e context read prop) (node_value e prop)
            (returned prop (h.1)))
    returned (call callee args) h =
        call_of-IsReturned e callee (eval_arguments e context read args) (h.0)
          (all-IsReturned args (h.1))
    returned (unary op node) h =
        and_then-IsReturned (eval_node e context read node) _ (returned node h)
    returned (binary op left right) h =
        binary_of-IsReturned e op (eval_node e context read left) (eval_node e context read right)
          (returned left (h.0)) (returned right (h.1))
    returned (ternary a b c) h =
        ternary_of-IsReturned (eval_node e context read a) (eval_node e context read b)
          (eval_node e context read c) (returned a (h.0)) (returned b (h.1)) (returned c (h.2))

    all-IsReturned :
        (args : Arguments) → HaveOwnCalls args → IsReturned (eval_arguments e context read args)
    all-IsReturned no_arguments h = refl
    all-IsReturned (argument node args) h =
        push_value-IsReturned (eval_node e context read node) (eval_arguments e context read args)
          (returned node (h.0)) (all-IsReturned args (h.1))

-- An expression that calls no inherited function has a value: nothing else throws.
pub eval_node-IsReturned :
    (e : Engine) (context : Value) (read : Value → Key → Value) (node : ExprNode)
    → HasOwnCalls node
    → IsReturned (eval_node e context read node)
eval_node-IsReturned e context read node h = returned e context read node h
