-- ===== src/Gk/Ast/Made.antt =====
-- What a parser has made: complete nodes, on top of those that were there, from some of the tokens.
use gecko_os_mac_compatabili.Common.{
  ℕ, suc, ◌≤◌, ◌<◌, ◌≡◌, refl, ap, sym, subst, true, false, List, [], ◌∷◌, ◌++◌, leb, arith, length,
  Bool-cases, inl, inr, length-append,
}
use gecko_os_mac_compatabili.Gk.Token.{TokenType, tok_eof}
use gecko_os_mac_compatabili.Gk.Ast.{
  NodeType, node_int, Node, empty_node, Parser, ParseError, Parsed, parsed, ◌>>=◌, Parses, ◌is◌,
  advance, check, add_node, add_child, node_at, max_nodes, max_children, append_child, set_children,
  add_child_unchecked, node_def,
}
use gecko_os_mac_compatabili.Gk.Ast.Grown.{
  least, AllBelow, HasArity, IsDone, AllBelow-snoc, Grown, Open, Grown-refl, length-Open,
  Grown-trans, Grown-snoc, Open-snoc, Open-Grown, Open-change, Open-close, get_or-Open,
}
use gecko_os_mac_compatabili.Gk.Ast.Tokens.{Sat, Sat-map, Later, check-advance-Past}

-- What a parser that started in `s` has made: a node, all new nodes are complete, and no token more
-- than `n` is left.
pub record Made (s : Parser) (n : ℕ) (r : ℕ × Parser) : Type 0 where
  pub grown : Grown s.nodes r.1.nodes
  pub index : r.0 < length r.1.nodes
  pub left : length r.1.rest ≤ n

-- Only the nodes at the start count.
pub Made-same :
    (s t : Parser) (n : ℕ) (r : ℕ × Parser) → s.nodes ≡ t.nodes → Made s n r → Made t n r
Made-same s t n r e h = record {
  grown = subst (λ (ns : List Node). Grown ns r.1.nodes) e h.grown;
  index = h.index;
  left = h.left;
}

pub Made-then :
    (s t : Parser) (n : ℕ) (r : ℕ × Parser) → Grown s.nodes t.nodes → Made t n r → Made s n r
Made-then s t n r g h = record {
  grown = Grown-trans s.nodes t.nodes r.1.nodes g h.grown;
  index = h.index;
  left = h.left;
}

-- With fewer than `m` tokens, what is made takes at least one of them.
abbrev pub Covers : ℕ → Parses → Type 0
Covers m p = (s : Parser) (n : ℕ) → length s.rest < m → length s.rest ≤ suc n → Sat (Made s n) (p s)

-- A node of a type without children.
pub leaf : (b : ℕ) (x : Node) → x.children ≡ [] → least x.type ≡ 0 → IsDone b x
leaf b x e h = record {
  arity = omega (arith, h, ap length e);
  below = subst (AllBelow b) (sym e) tt;
}

pub add_node-Made :
    (x : Node) (s : Parser) (n : ℕ)
    → IsDone (suc (length s.nodes)) x
    → length s.rest ≤ n
    → Sat (Made s n) (add_node x s)
unfolding add_node
add_node-Made x s n d l = elim (Bool-cases (leb max_nodes (length s.nodes))) [
  | inl full ↦ rw full tt
  | inr room ↦ rw room (record {
    grown = Grown-snoc s.nodes x d;
    index = omega (arith, length-append s.nodes (x ∷ []));
    left = l;
  })
]

-- The node at index `i` of `t` is open, and was made on top of the nodes of `s`.
pub record Opened (s : Parser) (i : ℕ) (x : Node) (t : Parser) : Type 0 where
  pub opened : Open s.nodes x t.nodes
  pub index : i ≡ length s.nodes

pub add_node-Opened :
    (x : Node) (s : Parser)
    → x.children ≡ []
    → Sat (λ r. Opened s r.0 x r.1 × (r.1.rest ≡ s.rest)) (add_node x s)
unfolding add_node
add_node-Opened x s e = elim (Bool-cases (leb max_nodes (length s.nodes))) [
  | inl full ↦ rw full tt
  | inr room ↦ rw room (record { opened = Open-snoc s.nodes x e; index = refl }, refl)
]

pub Opened-Grown :
    (s : Parser) (i : ℕ) (x : Node) (t u : Parser)
    → Opened s i x t
    → Grown t.nodes u.nodes
    → Opened s i x u
Opened-Grown s i x t u o g = record {
  opened = Open-Grown s.nodes t.nodes u.nodes x o.opened g;
  index = o.index;
}

pub Opened-same :
    (s : Parser) (i : ℕ) (x : Node) (t u : Parser)
    → Opened s i x t
    → u.nodes ≡ t.nodes
    → Opened s i x u
Opened-same s i x t u o e =
    Opened-Grown s i x t u o (subst (Grown t.nodes) (sym e) (Grown-refl t.nodes))

pub Opened-Made :
    (s : Parser) (i n : ℕ) (x : Node) (t : Parser)
    → Opened s i x t
    → HasArity x.type x.children
    → length t.rest ≤ n
    → Made s n (i, t)
Opened-Made s i n x t o h l = record {
  grown = Open-close s.nodes t.nodes x o.opened h;
  index = omega (arith, o.index, length-Open o.opened);
  left = l;
}

-- A node of its type, with room in its children.
pub record HasRoom (s : Parser) (i : ℕ) (type : NodeType) (t : Parser) : Type 0 where
  pub node : Node
  pub opened : Opened s i node t
  pub same_type : node.type ≡ type
  pub bounded : length node.children ≤ 64

pub HasRoom-Grown :
    (s : Parser) (i : ℕ) (type : NodeType) (t u : Parser)
    → HasRoom s i type t
    → Grown t.nodes u.nodes
    → HasRoom s i type u
HasRoom-Grown s i type t u r g = record {
  node = r.node;
  opened = Opened-Grown s i r.node t u r.opened g;
  same_type = r.same_type;
  bounded = r.bounded;
}

-- The nodes stay from `t` to `u`.
pub HasRoom-same :
    (s : Parser) (i : ℕ) (type : NodeType) (t u : Parser)
    → HasRoom s i type t
    → u.nodes ≡ t.nodes
    → HasRoom s i type u
HasRoom-same s i type t u r e =
    HasRoom-Grown s i type t u r (subst (Grown t.nodes) (sym e) (Grown-refl t.nodes))

append_child-Opened :
    (s : Parser) (i c : ℕ) (x : Node) (t : Parser)
    → Opened s i x t
    → c < length t.nodes
    → Opened s i (record x { children = x.children ++ (c ∷ []) }) (append_child i c t)
append_child-Opened s i c x t o l = record {
  opened = rw o.index (
      Open-change s.nodes t.nodes x (λ n. record n { children = n.children ++ (c ∷ []) }) o.opened
        (AllBelow-snoc (length t.nodes) x.children c o.opened.below l));
  index = o.index;
}

pub set_children-Opened :
    (s : Parser) (i : ℕ) (cs : List ℕ) (x : Node) (t : Parser)
    → Opened s i x t
    → AllBelow (length t.nodes) cs
    → Opened s i (record x { children = cs }) (set_children i cs t)
set_children-Opened s i cs x t o h = record {
  opened = rw o.index (Open-change s.nodes t.nodes x (λ n. record n { children = cs }) o.opened h);
  index = o.index;
}

append_child-HasRoom :
    (s : Parser) (i c : ℕ) (type : NodeType) (t : Parser)
    → (r : HasRoom s i type t) → length r.node.children < 64
    → c < length t.nodes
    → HasRoom s i type (append_child i c t)
append_child-HasRoom s i c type t r h l = record {
  node = record r.node { children = r.node.children ++ (c ∷ []) };
  opened = append_child-Opened s i c r.node t r.opened l;
  same_type = r.same_type;
  bounded = omega (arith, length-append r.node.children (c ∷ []));
}

node_at-HasRoom :
    (s : Parser) (i : ℕ) (type : NodeType) (t : Parser) (r : HasRoom s i type t)
    → node_at t i ≡ r.node
node_at-HasRoom s i type t r =
    rw r.opened.index (get_or-Open s.nodes t.nodes r.node (empty_node node_int 0) r.opened.opened)

pub add_child-HasRoom :
    (m : ParseError) (s : Parser) (i c : ℕ) (type : NodeType) (t : Parser)
    → HasRoom s i type t
    → c < length t.nodes
    → Sat (λ u. HasRoom s i type u × (u.rest ≡ t.rest)) (add_child m i c t)
unfolding add_child
add_child-HasRoom m s i c type t r l =
    elim (Bool-cases (leb max_children (length (node_at t i).children))) [
      | inl full ↦ rw full tt
      | inr room ↦ rw room (
        append_child-HasRoom s i c type t r
            (ground
              (arith, room, ap (λ (x : Node). length x.children) (node_at-HasRoom s i type t r)))
            l,
        refl,
      )
    ]

pub add_child_unchecked-HasRoom :
    (s : Parser) (i c : ℕ) (type : NodeType) (t : Parser)
    → HasRoom s i type t
    → c < length t.nodes
    → Sat (λ u. HasRoom s i type u × (u.rest ≡ t.rest)) (add_child_unchecked i c t)
unfolding add_child_unchecked
add_child_unchecked-HasRoom s i c type t r l =
    elim (Bool-cases (leb max_children (length (node_at t i).children))) [
      | inl full ↦ rw full tt
      | inr room ↦ rw room (
        append_child-HasRoom s i c type t r
            (ground
              (arith, room, ap (λ (x : Node). length x.children) (node_at-HasRoom s i type t r)))
            l,
        refl,
      )
    ]

-- The body is the last child of a function.
pub add_child_unchecked-Made :
    (s : Parser) (i c n : ℕ) (t : Parser)
    → HasRoom s i node_def t
    → c < length t.nodes
    → length t.rest ≤ n
    → Sat (Made s n) (add_child_unchecked i c t >>= λ w. parsed (i, w))
unfolding add_child_unchecked
add_child_unchecked-Made s i c n t r l b =
    elim (Bool-cases (leb max_children (length (node_at t i).children))) [
      | inl full ↦ rw full tt
      | inr room ↦
          let less : length r.node.children < 64 = ground (
            arith,
            room,
            ap (λ (x : Node). length x.children) (node_at-HasRoom s i node_def t r),
          ) in
          rw room (
            Opened-Made s i n _ (append_child i c t) (append_child-Opened s i c r.node t r.opened l)
              (subst (λ (ty : NodeType). HasArity ty (r.node.children ++ (c ∷ [])))
                (sym r.same_type)
                (
                  omega (arith, length-append r.node.children (c ∷ [])),
                  omega (arith, less, length-append r.node.children (c ∷ [])),
                ))
              b)
    ]

pub set_children-Made :
    (s : Parser) (i : ℕ) (cs : List ℕ) (x : Node) (t : Parser) (n : ℕ)
    → Opened s i x t
    → AllBelow (length t.nodes) cs
    → HasArity x.type cs
    → length t.rest ≤ n
    → Made s n (i, set_children i cs t)
set_children-Made s i cs x t n o h a l =
    Opened-Made s i n (record x { children = cs }) (set_children i cs t)
      (set_children-Opened s i cs x t o h) a l

pub Made-left :
    (s : Parser) (n m : ℕ) (i : ℕ) (t u : Parser)
    → Made s n (i, t)
    → Later t u
    → length u.rest ≤ m
    → Made s m (i, u)
Made-left s n m i t u h e l = record {
  grown = subst (Grown s.nodes) (sym e.same_nodes) h.grown;
  index = omega (arith, h.index, ap length e.same_nodes);
  left = l;
}

-- What is made after a token is made with the token.
pub advance-Made :
    (s : Parser) (type : TokenType) (n : ℕ) (r : Parsed (ℕ × Parser))
    → check s type ≡ true
    → (type is tok_eof) ≡ false
    → Sat (Made (advance s) n) r
    → Sat (Made s n) r
advance-Made s type n r here e h =
    Sat-map (Made (advance s) n) (Made s n) r h
      (λ v. Made-same (advance s) s n v (check-advance-Past s type here e).0)
