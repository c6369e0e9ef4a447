-- ===== src/Template/Eval/Guard.antt =====
-- Which properties an expression reads: only an identifier reads a forbidden one.
use glanceus.Prelude.{◌≡◌, refl, ap, ◌∙◌, String, Bool, true, false, none, some, includes, if_rule}
use glanceus.Prelude.Int.{nan, infinite, finite}
use glanceus.Prelude.Value.{Value, undefined, null, boolean, number, string, array, object}
use glanceus.Template.Syntax.{
  ExprNode, literal, identifier, unary, binary, ternary, member, call, Arguments, no_arguments,
  argument,
}
use glanceus.Template.Helpers.{Engine}
use glanceus.Template.Eval.{
  Outcome, Key, index, property, forbidden_props, safe_prop_key, unless_forbidden, read_key,
  member_of, node_value, and_then, operate_unary, binary_of, ternary_of, call_of, push_value,
  eval_node, eval_arguments,
}

abbrev pub is_forbidden : Key → Bool
is_forbidden (index n) = false
is_forbidden (property s) = includes s forbidden_props

-- Two ways to read that differ on forbidden properties at most.
abbrev pub AgreeOnAllowed : (Value → Key → Value) → (Value → Key → Value) → Type 0
AgreeOnAllowed read read' =
    (v : Value) (key : Key) → is_forbidden key ≡ false → read v key ≡ read' v key

-- Two ways to read that give the identifiers of an expression the same values: those that it reads,
-- so neither a name after a dot nor that of a function that is called.
abbrev mutual
  pub AgreeOnNames : Value → (Value → Key → Value) → (Value → Key → Value) → ExprNode → Type 0
  AgreeOnNames context read read' (literal l) = Unit
  AgreeOnNames context read read' (identifier name) =
      read context (property name) ≡ read' context (property name)
  AgreeOnNames context read read' (member node prop true) =
      AgreeOnNames context read read' node × AgreeOnNames context read read' prop
  AgreeOnNames context read read' (member node prop false) = AgreeOnNames context read read' node
  AgreeOnNames context read read' (call callee args) = AgreeOnArguments context read read' args
  AgreeOnNames context read read' (unary op node) = AgreeOnNames context read read' node
  AgreeOnNames context read read' (binary op left right) =
      AgreeOnNames context read read' left × AgreeOnNames context read read' right
  AgreeOnNames context read read' (ternary a b c) =
      AgreeOnNames context read read' a
      × AgreeOnNames context read read' b
      × AgreeOnNames context read read' c

  pub AgreeOnArguments : Value → (Value → Key → Value) → (Value → Key → Value) → Arguments → Type 0
  AgreeOnArguments context read read' no_arguments = Unit
  AgreeOnArguments context read read' (argument node args) =
      AgreeOnNames context read read' node × AgreeOnArguments context read read' args

module _ (e : Engine) (context : Value) (read read' : Value → Key → Value)
    (agree : AgreeOnAllowed read read') where
  read_string-eq :
      (obj : Value) (s : String)
      → read_key read obj (unless_forbidden s) ≡ read_key read' obj (unless_forbidden s)
  read_string-eq obj s =
      if_rule (λ key. read_key read obj key ≡ read_key read' obj key) (includes s forbidden_props)
        (λ bad. refl) λ good. agree obj (property s) good

  read_key-eq :
      (obj prop : Value)
      → read_key read obj (safe_prop_key prop) ≡ read_key read' obj (safe_prop_key prop)
  read_key-eq obj undefined = refl
  read_key-eq obj null = refl
  read_key-eq obj (boolean b) = refl
  read_key-eq obj (number nan) = refl
  read_key-eq obj (number (infinite negative)) = refl
  read_key-eq obj (number (finite z)) = agree obj (index (finite z)) refl
  read_key-eq obj (string s) = read_string-eq obj s
  read_key-eq obj (array i) = refl
  read_key-eq obj (object i) = refl

  member_of-eq : (obj prop : Outcome) → member_of read obj prop ≡ member_of read' obj prop
  member_of-eq none prop = refl
  member_of-eq (some undefined) prop = refl
  member_of-eq (some null) prop = refl
  member_of-eq (some _) none = refl
  member_of-eq (some obj) (some prop) = ap some (read_key-eq obj prop)

  mutual
    unfolding eval_node

    eval_node-eq :
        (node : ExprNode)
        → AgreeOnNames context read read' node
        → eval_node e context read node ≡ eval_node e context read' node
    eval_node-eq (literal l) h = refl
    eval_node-eq (identifier name) h = ap some h
    eval_node-eq (member node prop true) h =
        member_of-eq (eval_node e context read node) (eval_node e context read prop) ∙ λ i.
        member_of read' (eval_node-eq node (h.0) i) (eval_node-eq prop (h.1) i)
    eval_node-eq (member node prop false) h =
        member_of-eq (eval_node e context read node) (some (node_value e prop)) ∙ λ i.
        member_of read' (eval_node-eq node h i) (some (node_value e prop))
    eval_node-eq (call callee args) h = ap (call_of e callee) (eval_arguments-eq args h)
    eval_node-eq (unary op node) h =
        ap (λ o. and_then o (λ v. some (operate_unary e op v))) (eval_node-eq node h)
    eval_node-eq (binary op left right) h =
        λ i. binary_of e op (eval_node-eq left (h.0) i) (eval_node-eq right (h.1) i)
    eval_node-eq (ternary a b c) h =
        λ i. ternary_of (eval_node-eq a (h.0) i) (eval_node-eq b (h.1) i) (eval_node-eq c (h.2) i)

    eval_arguments-eq :
        (args : Arguments)
        → AgreeOnArguments context read read' args
        → eval_arguments e context read args ≡ eval_arguments e context read' args
    eval_arguments-eq no_arguments h = refl
    eval_arguments-eq (argument node args) h =
        λ i. push_value (eval_node-eq node (h.0) i) (eval_arguments-eq args (h.1) i)
