-- ===== src/Gk/Store/Sound.antt =====
-- The bounds of the interpreter's arrays and indices, and what the operations on its state keep.
use mathlib.Core.Option
use gecko_os_mac_compatabili.Common.{
  ℕ, suc, ◌≤◌, ◌<◌, ◌≡◌, refl, ap, ◌∙◌, subst, Bool, true, List, [], ◌∷◌, ◌++◌, Option, none, some,
  leb, ltb, arith, length, Bool-cases, ◌⊎◌, inl, inr, length-append, Option-cases,
}
use gecko_os_mac_compatabili.Gk.Lexer.{same_text}
use gecko_os_mac_compatabili.Gk.Ast.{Node}
use gecko_os_mac_compatabili.Gk.Ast.Grown.{AllDone}
use gecko_os_mac_compatabili.Gk.Value.{Value}
use gecko_os_mac_compatabili.Gk.Store.{
  Var, FuncDef, State, Ran, ran, bad_read, overrun, long_name, divide_fault, out_of_fuel, ◌>>=◌,
  Result, update_var, set_var, drop_scope, find_func, max_vars, max_name,
}

-- Some node has a text that is too long for a name.
abbrev pub HasLong : List Node → Type 0
HasLong [] = ⊥
HasLong (n ∷ ns) = (64 ≤ length n.str_val) ⊎ HasLong ns

abbrev pub AllShort : List (List ℕ) → Type 0
AllShort [] = Unit {0}
AllShort (p ∷ ps) = (length p < 64) × AllShort ps

-- A result of which `P` holds; not a read of what nobody made, not a write behind an array, and a
-- name that does not fit its buffer only if `L`.
abbrev pub Sat : {A : Type 0} → Type 0 → (A → Type 0) → Ran A → Type 0
Sat L P (ran a) = P a
Sat L P bad_read = ⊥
Sat L P overrun = ⊥
Sat L P long_name = L
Sat L P divide_fault = Unit {0}
Sat L P out_of_fuel = Unit {0}

pub Sat-bind :
    (L : Type 0) {A B : Type 0} (P : A → Type 0) (Q : B → Type 0) (r : Ran A) (k : A → Ran B)
    → Sat L P r
    → ((a : A) → P a → Sat L Q (k a))
    → Sat L Q (r >>= k)
Sat-bind L P Q (ran a) k h f = f a h
Sat-bind L P Q bad_read k h f = h
Sat-bind L P Q overrun k h f = h
Sat-bind L P Q long_name k h f = h
Sat-bind L P Q divide_fault k h f = tt
Sat-bind L P Q out_of_fuel k h f = tt

pub Sat-map :
    (L : Type 0) {M A : Type 0} (P Q : A → Type 0) (r : Ran A)
    → (L → M)
    → Sat L P r
    → ((a : A) → P a → Q a)
    → Sat M Q r
Sat-map L P Q (ran a) g h f = f a h
Sat-map L P Q bad_read g h f = h
Sat-map L P Q overrun g h f = h
Sat-map L P Q long_name g h f = g h
Sat-map L P Q divide_fault g h f = tt
Sat-map L P Q out_of_fuel g h f = tt

-- A function with room for its arguments, with names that fit, and with a body.
abbrev pub AllCallable : ℕ → List FuncDef → Type 0
AllCallable b [] = Unit {0}
AllCallable b (f ∷ fs) =
    ((length f.params ≤ 8) × AllShort f.params × (f.body_node < b)) × AllCallable b fs

pub record Bounded (nodes : List Node) (vars : List Var) (funcs : List FuncDef) (depth : ℕ)
    : Type 0 where
  pub tree : AllDone (length nodes) nodes
  pub vars_room : length vars ≤ 128
  pub funcs_room : length funcs ≤ 64
  pub callable : AllCallable (length nodes) funcs
  pub shallow : depth ≤ 32

abbrev pub IsSound : State → Type 0
IsSound s = Bounded s.nodes s.vars s.funcs s.call_depth

pub record KeptAs (s : State) (nodes : List Node) (vars : List Var) (funcs : List FuncDef)
    (depth : ℕ) : Type 0 where
  pub sound : Bounded nodes vars funcs depth
  pub same_nodes : nodes ≡ s.nodes
  pub same_depth : depth ≡ s.call_depth
  pub same_outside : drop_scope s.call_depth vars ≡ drop_scope s.call_depth s.vars

-- From `s` to `t`: the nodes and the depth are the same, the bounds hold, and the variables of the
-- callers, which lie under those of the current depth, are the same.
abbrev pub Kept : State → State → Type 0
Kept s t = KeptAs s t.nodes t.vars t.funcs t.call_depth

abbrev pub Keeps : State → Result → Type 0
Keeps s r = Sat (HasLong s.nodes) (λ x. Kept s x.1) r

pub Kept-trans : (s t u : State) → Kept s t → Kept t u → Kept s u
Kept-trans s t u h k = record {
  sound = k.sound;
  same_nodes = k.same_nodes ∙ h.same_nodes;
  same_depth = k.same_depth ∙ h.same_depth;
  same_outside =
      subst (λ (d : ℕ). drop_scope d u.vars ≡ drop_scope d t.vars) h.same_depth k.same_outside
      ∙ h.same_outside;
}

pub Keeps-from : (s t : State) (r : Result) → Kept s t → Keeps t r → Keeps s r
Keeps-from s t r h k =
    Sat-map _ (λ x. Kept t x.1) (λ x. Kept s x.1) r (subst HasLong h.same_nodes) k
      (λ x. Kept-trans s t x.1 h)

AllCallable-snoc :
    (b : ℕ) (fs : List FuncDef) (f : FuncDef)
    → AllCallable b fs
    → length f.params ≤ 8
    → AllShort f.params
    → f.body_node < b
    → AllCallable b (fs ++ (f ∷ []))
AllCallable-snoc b [] f h p a q = ((p, a, q), tt)
AllCallable-snoc b (g ∷ fs) f h p a q = (h.0, AllCallable-snoc b fs f h.1 p a q)

pub add_function-Kept :
    (s : State) (f : FuncDef)
    → IsSound s
    → length s.funcs < 64
    → length f.params ≤ 8
    → AllShort f.params
    → f.body_node < length s.nodes
    → Kept s (record s { funcs = s.funcs ++ (f ∷ []) })
add_function-Kept s f h room p a q = record {
  sound = record {
    tree = h.tree;
    vars_room = h.vars_room;
    funcs_room = omega (arith, length-append s.funcs (f ∷ []));
    callable = AllCallable-snoc (length s.nodes) s.funcs f h.callable p a q;
    shallow = h.shallow;
  };
  same_nodes = refl;
  same_depth = refl;
  same_outside = refl;
}

abbrev pub OnSome : {A : Type 0} → (A → Type 0) → Option A → Type 0
OnSome P none = Unit {0}
OnSome P (some a) = P a

pub OnSome-of : {A : Type 0} (P : A → Type 0) (o : Option A) (a : A) → OnSome P o → o ≡ some a → P a
OnSome-of P o a h e = subst (OnSome P) e h

pub OnSome-map :
    {A B : Type 0} (P : A → Type 0) (Q : B → Type 0) (f : A → B) (o : Option A)
    → OnSome P o
    → ((a : A) → P a → Q (f a))
    → OnSome Q (Option.map f o)
OnSome-map P Q f none h g = tt
OnSome-map P Q f (some a) h g = g a h

-- What the loop of `set_var` leaves: as many variables, and the same ones outside the scope.
record Updated (depth : ℕ) (vs us : List Var) : Type 0 where
  same_length : length us ≡ length vs
  same_outside : drop_scope depth us ≡ drop_scope depth vs

update_var-Updated :
    (depth : ℕ) (name : List ℕ) (val : Value) (vs : List Var)
    → OnSome (Updated depth vs) (update_var depth name val vs)
unfolding update_var drop_scope
update_var-Updated depth name val [] = tt
update_var-Updated depth name val (v ∷ vs) = elim (Bool-cases (ltb v.scope depth)) [
  | inl lower ↦ rw lower tt
  | inr upper ↦
      let inside : leb depth v.scope ≡ true = ground (arith, upper) in
      elim (Bool-cases (same_text v.name name)) [
        | inl same ↦
            rw (upper, same)
              (record { same_length = refl; same_outside = rw (inside, drop_scope) refl })
        | inr other ↦
            rw (upper, other)
              (OnSome-map (Updated depth vs) (Updated depth (v ∷ vs)) (λ us. v ∷ us) _
                (update_var-Updated depth name val vs)
                (λ us u. record {
                  same_length = ap suc u.same_length;
                  same_outside = rw (inside, drop_scope) u.same_outside;
                }))
      ]
]

-- Other variables, no more of them than there is room for, and the same ones outside the scope.
vars-Kept :
    (s : State) (vs : List Var)
    → IsSound s
    → length vs ≤ 128
    → drop_scope s.call_depth vs ≡ drop_scope s.call_depth s.vars
    → Kept s (record s { vars = vs })
vars-Kept s vs h l e = record {
  sound = record {
    tree = h.tree;
    vars_room = l;
    funcs_room = h.funcs_room;
    callable = h.callable;
    shallow = h.shallow;
  };
  same_nodes = refl;
  same_depth = refl;
  same_outside = e;
}

-- A new variable belongs to the scope.
drop_scope-new :
    (depth : ℕ) (name : List ℕ) (val : Value) (vs : List Var)
    → drop_scope depth (record { name = name; val = val; scope = depth } ∷ vs) ≡ drop_scope depth vs
unfolding drop_scope
drop_scope-new depth name val vs =
    let inside : leb depth depth ≡ true = ground arith in rw (inside, drop_scope) refl

pub set_var-Kept :
    (s : State) (name : List ℕ) (val : Value)
    → IsSound s
    → (64 ≤ length name → HasLong s.nodes)
    → Sat (HasLong s.nodes) (λ (r : Bool × State). Kept s r.1) (set_var s name val)
unfolding set_var
set_var-Kept s name val h g = elim (Option-cases (update_var s.call_depth name val s.vars)) [
  | inr (vs, e) ↦
      let updated : Updated s.call_depth s.vars vs =
        OnSome-of _ _ vs (update_var-Updated s.call_depth name val s.vars) e in
      rw (e, set_var)
        (vars-Kept s vs h (omega (arith, h.vars_room, updated.same_length)) updated.same_outside)
  | inl e ↦ elim (Bool-cases (leb max_vars (length s.vars))) [
    | inl full ↦
        rw (e, full, set_var)
          (record { sound = h; same_nodes = refl; same_depth = refl; same_outside = refl })
    | inr room ↦ elim (Bool-cases (leb max_name (length name))) [
      | inl long ↦ rw (e, room, long, set_var) (g (ground (arith, long)))
      | inr fits ↦
          rw (e, room, fits, set_var)
            (vars-Kept s _ h (ground (arith, room)) (drop_scope-new s.call_depth name val s.vars))
    ]
  ]
]

pub drop_scope-length : (depth : ℕ) (vs : List Var) → length (drop_scope depth vs) ≤ length vs
unfolding drop_scope
drop_scope-length depth [] = omega arith
drop_scope-length depth (v ∷ vs) = ground (arith, drop_scope-length depth vs)

-- To leave a deeper scope first makes no difference.
pub drop_scope-drop_scope :
    (d e : ℕ) (vs : List Var) → d ≤ e → drop_scope d (drop_scope e vs) ≡ drop_scope d vs
unfolding drop_scope
drop_scope-drop_scope d e [] h = refl
drop_scope-drop_scope d e (v ∷ vs) h = elim (Bool-cases (leb e v.scope)) [
  | inr lower ↦ rw (lower, drop_scope) refl
  | inl deeper ↦
      let inside : leb d v.scope ≡ true = ground (arith, deeper) in
      rw (deeper, inside, drop_scope) (drop_scope-drop_scope d e vs h)
]

pub find_func-callable :
    (b : ℕ) (fs : List FuncDef) (name : List ℕ)
    → AllCallable b fs
    → OnSome
        (λ (f : FuncDef). (length f.params ≤ 8) × AllShort f.params × (f.body_node < b))
        (find_func fs name)
unfolding find_func
find_func-callable b [] name h = tt
find_func-callable b (g ∷ fs) name h = elim (Bool-cases (same_text g.name name)) [
  | inl same ↦ rw same h.0
  | inr other ↦ rw other (find_func-callable b fs name h.1)
]
