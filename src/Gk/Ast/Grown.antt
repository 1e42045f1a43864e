-- ===== src/Gk/Ast/Grown.antt =====
-- How the list of nodes grows: by nodes that are complete, and by one whose children are still to
-- come.
use mathlib.Core.List.{append_assoc}
use gecko_os_mac_compatabili.Common.{
  ℕ, suc, ◌≤◌, ◌<◌, ◌≡◌, refl, ap, ◌∙◌, sym, subst, List, [], ◌∷◌, ◌++◌, arith, length,
  length-append, get_or,
}
use gecko_os_mac_compatabili.Gk.Ast.{
  NodeType, node_int, node_str, node_bool, node_var, node_assign, node_binop, node_unop, node_if,
  node_while, node_for, node_def, node_return, node_break, node_continue, Node, change_node,
}

-- How many children a node of a type has.
abbrev pub least : NodeType → ℕ
least t = elim t [
  | node_assign ↦ 1
  | node_unop ↦ 1
  | node_def ↦ 1
  | node_binop ↦ 2
  | node_if ↦ 2
  | node_while ↦ 2
  | node_for ↦ 2
  | _ ↦ 0
]

abbrev pub most : NodeType → ℕ
most t = elim t [
  | node_int ↦ 0
  | node_str ↦ 0
  | node_bool ↦ 0
  | node_var ↦ 0
  | node_break ↦ 0
  | node_continue ↦ 0
  | node_assign ↦ 1
  | node_unop ↦ 1
  | node_return ↦ 1
  | node_binop ↦ 2
  | node_while ↦ 2
  | node_for ↦ 2
  | node_if ↦ 3
  | _ ↦ 64
]

abbrev pub AllBelow : ℕ → List ℕ → Type 0
AllBelow b [] = Unit {0}
AllBelow b (c ∷ cs) = (c < b) × AllBelow b cs

abbrev pub HasArity : NodeType → List ℕ → Type 0
HasArity t cs = (least t ≤ length cs) × (length cs ≤ most t)

-- A node with all its children, which are nodes before index `b`.
pub record IsDone (b : ℕ) (n : Node) : Type 0 where
  pub arity : HasArity n.type n.children
  pub below : AllBelow b n.children

abbrev pub AllDone : ℕ → List Node → Type 0
AllDone b [] = Unit {0}
AllDone b (n ∷ ns) = IsDone b n × AllDone b ns

AllBelow-mono : (b c : ℕ) (cs : List ℕ) → b ≤ c → AllBelow b cs → AllBelow c cs
AllBelow-mono b c [] h a = tt
AllBelow-mono b c (x ∷ cs) h a = (omega (arith, a.0), AllBelow-mono b c cs h a.1)

pub AllBelow-snoc :
    (b : ℕ) (cs : List ℕ) (c : ℕ) → AllBelow b cs → c < b → AllBelow b (cs ++ (c ∷ []))
AllBelow-snoc b [] c a h = (h, tt)
AllBelow-snoc b (x ∷ cs) c a h = (a.0, AllBelow-snoc b cs c a.1 h)

AllDone-mono : (b c : ℕ) (ns : List Node) → b ≤ c → AllDone b ns → AllDone c ns
AllDone-mono b c [] h a = tt
AllDone-mono b c (n ∷ ns) h a = (
  record { arity = a.0.arity; below = AllBelow-mono b c n.children h a.0.below },
  AllDone-mono b c ns h a.1,
)

AllDone-append : (b : ℕ) (ms ns : List Node) → AllDone b ms → AllDone b ns → AllDone b (ms ++ ns)
AllDone-append b [] ns p q = q
AllDone-append b (m ∷ ms) ns p q = (p.0, AllDone-append b ms ns p.1 q)

-- `new` is `old` and nodes that are done.
pub record Grown (old new : List Node) : Type 0 where
  pub more : List Node
  pub shape : new ≡ old ++ more
  pub done : AllDone (length new) more

-- `new` is `old`, the node `x` that may lack children, and nodes that are done.
pub record Open (old : List Node) (x : Node) (new : List Node) : Type 0 where
  pub more : List Node
  pub shape : new ≡ old ++ (x ∷ more)
  pub below : AllBelow (length new) x.children
  pub done : AllDone (length new) more

pub Grown-refl : (ns : List Node) → Grown ns ns
Grown-refl ns = record { more = []; shape = nil ns; done = tt }
  where
    nil : (ns : List Node) → ns ≡ ns ++ []
    nil [] = refl
    nil (n ∷ ns) = ap (λ t. n ∷ t) (nil ns)

pub length-Grown : {old new : List Node} → Grown old new → length old ≤ length new
length-Grown {old} g = omega (arith, ap length g.shape, length-append old g.more)

pub length-Open : {old new : List Node} {x : Node} → Open old x new → length old < length new
length-Open {old} {x = x} o = omega (arith, ap length o.shape, length-append old (x ∷ o.more))

pub Grown-trans : (a b c : List Node) → Grown a b → Grown b c → Grown a c
Grown-trans a b c g h = record {
  more = g.more ++ h.more;
  shape = h.shape ∙ ap (λ (t : List Node). t ++ h.more) g.shape ∙ append_assoc a g.more h.more;
  done =
      AllDone-append (length c) g.more h.more
        (AllDone-mono (length b) (length c) g.more (length-Grown h) g.done) h.done;
}

pub Grown-snoc :
    (ns : List Node) (n : Node) → IsDone (suc (length ns)) n → Grown ns (ns ++ (n ∷ []))
Grown-snoc ns n d =
    let size : length (ns ++ (n ∷ [])) ≡ suc (length ns) =
      omega (arith, length-append ns (n ∷ [])) in
    record { more = n ∷ []; shape = refl; done = (subst (λ (b : ℕ). IsDone b n) (sym size) d, tt) }

pub Open-snoc : (ns : List Node) (n : Node) → n.children ≡ [] → Open ns n (ns ++ (n ∷ []))
Open-snoc ns n e = record {
  more = [];
  shape = refl;
  below = subst (AllBelow (length (ns ++ (n ∷ [])))) (sym e) tt;
  done = tt;
}

pub Open-Grown : (a b c : List Node) (x : Node) → Open a x b → Grown b c → Open a x c
Open-Grown a b c x o g = record {
  more = o.more ++ g.more;
  shape =
      g.shape ∙ ap (λ (t : List Node). t ++ g.more) o.shape ∙ append_assoc a (x ∷ o.more) g.more;
  below = AllBelow-mono (length b) (length c) x.children (length-Grown g) o.below;
  done =
      AllDone-append (length c) o.more g.more
        (AllDone-mono (length b) (length c) o.more (length-Grown g) o.done) g.done;
}

change_node-append :
    (a : List Node) (x : Node) (more : List Node) (f : Node → Node)
    → change_node (length a) f (a ++ (x ∷ more)) ≡ a ++ (f x ∷ more)
unfolding change_node
change_node-append [] x more f = refl
change_node-append (n ∷ a) x more f = ap (λ t. n ∷ t) (change_node-append a x more f)

-- New children for the open node.
pub Open-change :
    (a b : List Node) (x : Node) (f : Node → Node)
    → Open a x b
    → AllBelow (length b) (f x).children
    → Open a (f x) (change_node (length a) f b)
Open-change a b x f o h =
    let shape : change_node (length a) f b ≡ a ++ (f x ∷ o.more) =
      ap (change_node (length a) f) o.shape ∙ change_node-append a x o.more f in
    let size : length (change_node (length a) f b) ≡ length b = omega (
      arith,
      ap length shape,
      ap length o.shape,
      length-append a (f x ∷ o.more),
      length-append a (x ∷ o.more),
    ) in
    record {
      more = o.more;
      shape = shape;
      below = subst (λ (m : ℕ). AllBelow m (f x).children) (sym size) h;
      done = subst (λ (m : ℕ). AllDone m o.more) (sym size) o.done;
    }

pub Open-close : (a b : List Node) (x : Node) → Open a x b → HasArity x.type x.children → Grown a b
Open-close a b x o h = record {
  more = x ∷ o.more;
  shape = o.shape;
  done = (record { arity = h; below = o.below }, o.done);
}

get_or-append :
    (a : List Node) (x : Node) (more : List Node) (d : Node)
    → get_or (a ++ (x ∷ more)) (length a) d ≡ x
get_or-append [] x more d = refl
get_or-append (n ∷ a) x more d = get_or-append a x more d

pub get_or-Open : (a b : List Node) (x d : Node) → Open a x b → get_or b (length a) d ≡ x
get_or-Open a b x d o =
    ap (λ (t : List Node). get_or t (length a) d) o.shape ∙ get_or-append a x o.more d
