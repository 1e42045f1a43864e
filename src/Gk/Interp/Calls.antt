-- ===== src/Gk/Interp/Calls.antt =====
-- Definitions, calls and `return`: they keep the bounds, and read children that are there.
use gecko_os_mac_compatabili.Common.{
  ℕ, zero, suc, ◌+◌, ◌-◌, ◌≤◌, ◌<◌, ◌≡◌, refl, ap, ◌∙◌, sym, subst, Bool, true, false, List, [],
  ◌∷◌, leb, ◌==◌, if◌then◌else◌, arith, length, Bool-cases, inl, inr, Option-cases,
}
use gecko_os_mac_compatabili.Gk.Ast.{Node}
use gecko_os_mac_compatabili.Gk.Ast.Grown.{AllBelow, IsDone}
use gecko_os_mac_compatabili.Gk.Value.{Value, val_none}
use gecko_os_mac_compatabili.Gk.Store.{
  Var, FuncDef, State, ran, ◌>>=◌, Result, has_error, set_var, drop_scope, find_func, max_params,
  max_name, max_funcs, max_call_depth,
}
use gecko_os_mac_compatabili.Gk.Store.Sound.{
  HasLong, AllShort, Sat, Sat-bind, IsSound, Kept, Keeps, add_function-Kept, drop_scope-length,
  drop_scope-drop_scope, find_func-callable, OnSome-of,
}
use gecko_os_mac_compatabili.Gk.Eval.{Evals, node_of, unless_error}
use gecko_os_mac_compatabili.Gk.Eval.Sound.{
  same_bounds, node_of-Done, set_var-Keeps, Preserves, next-Keeps, next_then-Keeps,
  unless_error-Keeps, child_then-Keeps,
}
use gecko_os_mac_compatabili.Gk.Interp.{
  param_names, eval_def, eval_arguments, bind_params, eval_body, eval_call, eval_return,
}

module _ (ev : Evals) (nested : Preserves ev) where
  -- The names of at most `k` parameters, which fit their buffers.
  param_names-length :
      (s : State) (k : ℕ) (cs : List ℕ)
      → IsSound s
      → AllBelow (length s.nodes) cs
      → Sat
          (HasLong s.nodes)
          (λ (names : List (List ℕ)). (length names ≤ k) × AllShort names)
          (param_names s k cs)
  unfolding param_names
  param_names-length s zero cs h a = (omega arith, tt)
  param_names-length s (suc k) [] h a = (omega arith, tt)
  param_names-length s (suc k) (c ∷ []) h a = (omega arith, tt)
  param_names-length s (suc k) (c ∷ d ∷ cs) h a =
      Sat-bind _
        (λ (x : Node). IsDone (length s.nodes) x × (64 ≤ length x.str_val → HasLong s.nodes))
        (λ (names : List (List ℕ)). (length names ≤ suc k) × AllShort names) (node_of s c) _
        (node_of-Done s c h a.0)
        (λ x e.
          Sat-bind _ (λ (names : List (List ℕ)). (length names ≤ k) × AllShort names)
            (λ names. (length names ≤ suc k) × AllShort names) (param_names s k (d ∷ cs)) _
            (param_names-length s k (d ∷ cs) h a.1)
            (λ names p. elim (Bool-cases (leb max_name (length x.str_val))) [
              | inl long ↦ rw long (e.1 (ground (arith, long)))
              | inr fits ↦ rw fits (omega (arith, p.0), (ground (arith, fits), p.1))
            ]))

  pub eval_def-Keeps :
      (s : State) (n : Node)
      → IsSound s
      → IsDone (length s.nodes) n
      → (64 ≤ length n.str_val → HasLong s.nodes)
      → 1 ≤ length n.children
      → Keeps s (eval_def n s)
  unfolding eval_def
  eval_def-Keeps s n h d g l = elim (Bool-cases (leb max_funcs (length s.funcs))) [
    | inl full ↦ rw (full, eval_def) (same_bounds s h)
    | inr room ↦ elim (Bool-cases (leb max_name (length n.str_val))) [
      | inl long ↦ rw (room, long, eval_def) (g (ground (arith, long)))
      | inr fits ↦
          rw (room, fits, eval_def)
            (Sat-bind _ (λ (names : List (List ℕ)). (length names ≤ 8) × AllShort names)
              (λ r. Kept s r.1) (param_names s max_params n.children) _
              (param_names-length s 8 n.children h d.below)
              (λ names p.
                child_then-Keeps ev nested s n (length n.children - 1) _ d (omega arith) (λ body b.
                  add_function-Kept s
                    (record { name = n.str_val; params = names; body_node = body }) h
                    (ground (arith, room)) p.0 p.1 b)))
    ]
  ]

  -- Without an error there is a value for each argument.
  eval_arguments-Keeps :
      (cs : List ℕ) (i : ℕ) (s t : State)
      → Kept s t
      → AllBelow (length s.nodes) cs
      → i + length cs ≤ 8
      → Sat
          (HasLong s.nodes)
          (λ (a : List Value × State).
            Kept s a.1 × (has_error a.1 ≡ false → length a.0 ≡ length cs))
          (eval_arguments ev i cs t)
  unfolding eval_arguments
  eval_arguments-Keeps [] i s t k a l = (k, λ p. refl)
  eval_arguments-Keeps (c ∷ cs) i s t k a l =
      let room : leb max_params i ≡ false = ground arith in
      Sat-bind _ (λ r. Kept s r.1)
        (λ (x : List Value × State).
          Kept s x.1 × (has_error x.1 ≡ false → length x.0 ≡ suc (length cs)))
        (ev c t) _ (next-Keeps ev nested s t c k a.0)
        (λ r o. elim (Bool-cases (has_error r.1)) [
          | inl failed ↦ rw (room, failed, eval_arguments) (o, λ p. absurd (cc))
          | inr fine ↦
              rw (room, fine, eval_arguments)
                (Sat-bind _
                  (λ (x : List Value × State).
                    Kept s x.1 × (has_error x.1 ≡ false → length x.0 ≡ length cs))
                  (λ (x : List Value × State).
                    Kept s x.1 × (has_error x.1 ≡ false → length x.0 ≡ suc (length cs)))
                  (eval_arguments ev (suc i) cs r.1) _
                  (eval_arguments-Keeps cs (suc i) s r.1 o a.1 (omega arith))
                  (λ more p. (p.0, λ q. ap suc (p.1 q))))
        ])

  bind_params-Keeps :
      (ps : List (List ℕ)) (vs : List Value) (s t : State)
      → Kept s t
      → length vs ≡ length ps
      → AllShort ps
      → Sat (HasLong s.nodes) (λ (r : Bool × State). Kept s r.1) (bind_params ps vs t)
  unfolding bind_params
  bind_params-Keeps [] vs s t k e a = k
  bind_params-Keeps (p ∷ ps) [] s t k e a = absurd (omega (arith, e))
  bind_params-Keeps (p ∷ ps) (v ∷ vs) s t k e a =
      Sat-bind _ (λ (r : Bool × State). Kept s r.1) (λ r. Kept s r.1) (set_var t p v) _
        (set_var-Keeps s t p v k (λ long. absurd (omega (arith, a.0))))
        (λ r o. elim (Bool-cases r.0) [
          | inl fine ↦
              rw (fine, bind_params) (bind_params-Keeps ps vs s r.1 o (omega (arith, e)) a.1)
          | inr full ↦ rw (full, bind_params) o
        ])

  -- A call goes one level down, and comes back.
  enter-IsSound :
      (s : State)
      → IsSound s
      → s.call_depth < 32
      → IsSound (record s { call_depth = suc s.call_depth })
  enter-IsSound s h l = record {
    tree = h.tree;
    vars_room = h.vars_room;
    funcs_room = h.funcs_room;
    callable = h.callable;
    shallow = omega arith;
  }

  leave-Kept :
      (s a t : State) (vs : List Var)
      → Kept s a
      → Kept (record a { call_depth = suc a.call_depth }) t
      → length vs ≤ 128
      → drop_scope a.call_depth vs ≡ drop_scope a.call_depth t.vars
      → Kept s (record t { vars = vs; call_depth = t.call_depth - 1 })
  leave-Kept s a t vs k o l e = record {
    sound = record {
      tree = o.sound.tree;
      vars_room = l;
      funcs_room = o.sound.funcs_room;
      callable = o.sound.callable;
      shallow = omega (arith, o.sound.shallow);
    };
    same_nodes = o.same_nodes ∙ k.same_nodes;
    same_depth = omega (arith, o.same_depth, k.same_depth);
    same_outside =
        subst (λ (d : ℕ). drop_scope d vs ≡ drop_scope d a.vars) k.same_depth
          (e
            ∙ sym (drop_scope-drop_scope a.call_depth (suc a.call_depth) t.vars (omega arith))
            ∙ ap (drop_scope a.call_depth) o.same_outside
            ∙ drop_scope-drop_scope a.call_depth (suc a.call_depth) a.vars (omega arith))
        ∙ k.same_outside;
  }

  eval_body-Keeps :
      (s a t : State) (f : FuncDef)
      → Kept s a
      → Kept (record a { call_depth = suc a.call_depth }) t
      → f.body_node < length s.nodes
      → Keeps s (eval_body ev f t)
  unfolding eval_body
  eval_body-Keeps s a t f k o b =
      let inside : State = record a { call_depth = suc a.call_depth } in
      Sat-bind _ (λ r. Kept inside r.1) (λ r. Kept s r.1) (ev f.body_node t) _
        (subst (λ (ns : List Node). Sat (HasLong ns) (λ r. Kept inside r.1) (ev f.body_node t))
          k.same_nodes
          (next-Keeps ev nested inside t f.body_node o (omega (arith, ap length k.same_nodes))))
        (λ r q. elim (Bool-cases r.1.returning) [
          | inl value ↦
              rw (value, eval_body)
                (leave-Kept s a r.1 _ k q
                  (omega (arith, q.sound.vars_room, drop_scope-length r.1.call_depth r.1.vars))
                  (drop_scope-drop_scope a.call_depth r.1.call_depth r.1.vars
                    (omega (arith, q.same_depth))))
          | inr end ↦
              rw (end, eval_body)
                (leave-Kept s a r.1 _ k q
                  (omega (arith, q.sound.vars_room, drop_scope-length r.1.call_depth r.1.vars))
                  (drop_scope-drop_scope a.call_depth r.1.call_depth r.1.vars
                    (omega (arith, q.same_depth))))
        ])

  call-Keeps :
      (s : State) (n : Node) (f : FuncDef)
      → IsSound s
      → IsDone (length s.nodes) n
      → length f.params ≤ 8
      → AllShort f.params
      → f.body_node < length s.nodes
      → length n.children ≡ length f.params
      → s.call_depth < 32
      → Keeps s (
          eval_arguments ev 0 n.children s >>= λ a.
          if has_error a.1
          then ran (val_none, a.1)
          else (bind_params f.params a.0 (record a.1 { call_depth = suc a.1.call_depth }) >>= λ b.
              if b.0
              then eval_body ev f b.1
              else ran (val_none, record b.1 { call_depth = b.1.call_depth - 1 })))
  call-Keeps s n f h d p short b e l =
      Sat-bind _
        (λ (a : List Value × State).
          Kept s a.1 × (has_error a.1 ≡ false → length a.0 ≡ length n.children))
        (λ r. Kept s r.1) (eval_arguments ev 0 n.children s) _
        (eval_arguments-Keeps n.children 0 s s (same_bounds s h) d.below (omega arith))
        (λ a k. elim (Bool-cases (has_error a.1)) [
          | inl failed ↦ rw failed k.0
          | inr fine ↦
              let inside : State = record a.1 { call_depth = suc a.1.call_depth } in
              let entered : Kept inside inside =
                same_bounds inside (enter-IsSound a.1 k.0.sound (omega (arith, k.0.same_depth))) in
              rw fine (
                Sat-bind _ (λ (r : Bool × State). Kept inside r.1) (λ r. Kept s r.1)
                  (bind_params f.params a.0 inside) _
                  (subst
                    (λ (ns : List Node).
                      Sat (HasLong ns) (λ (r : Bool × State). Kept inside r.1)
                        (bind_params f.params a.0 inside))
                    k.0.same_nodes
                    (bind_params-Keeps f.params a.0 inside inside entered (k.1 fine ∙ e) short))
                  (λ r o. elim (Bool-cases r.0) [
                    | inl set ↦ rw set (eval_body-Keeps s a.1 r.1 f k.0 o b)
                    | inr full ↦
                        rw full (leave-Kept s a.1 r.1 r.1.vars k.0 o o.sound.vars_room refl)
                  ]))
        ])

  pub eval_call-Keeps :
      (s : State) (n : Node) → IsSound s → IsDone (length s.nodes) n → Keeps s (eval_call ev n s)
  unfolding eval_call
  eval_call-Keeps s n h d = elim (Option-cases (find_func s.funcs n.str_val)) [
    | inl unknown ↦ rw (unknown, eval_call) (same_bounds s h)
    | inr (f, found) ↦
        let callable : (length f.params ≤ 8) × AllShort f.params × (f.body_node < length s.nodes) =
          OnSome-of _ _ f (find_func-callable (length s.nodes) s.funcs n.str_val h.callable)
            found in
        elim (Bool-cases (length n.children == length f.params)) [
          | inr wrong ↦ rw (found, wrong, eval_call) (same_bounds s h)
          | inl fits ↦ elim (Bool-cases (leb max_call_depth s.call_depth)) [
            | inl deep ↦ rw (found, fits, deep, eval_call) (same_bounds s h)
            | inr shallow ↦
                rw (found, fits, shallow, eval_call)
                  (call-Keeps s n f h d callable.0 callable.1 callable.2 (ground (arith, fits))
                    (ground (arith, shallow)))
          ]
        ]
  ]

  pub eval_return-Keeps :
      (s : State) (n : Node)
      → IsSound s
      → AllBelow (length s.nodes) n.children
      → Keeps s (eval_return ev n s)
  unfolding eval_return
  eval_return-Keeps s n h a = value n.children a
    where
      value :
          (cs : List ℕ)
          → AllBelow (length s.nodes) cs
          → Keeps s (elim cs [
            | [] ↦ ran (val_none, record s { returning = true; return_val = val_none })
            | c ∷ _ ↦
                ev c s
                >>= unless_error (λ v t. ran (v, record t { returning = true; return_val = v }))
          ])
      value [] a = same_bounds s h
      value (c ∷ cs) a =
          let answer : Value → State → Result =
            λ v t. ran (v, record t { returning = true; return_val = v }) in
          next_then-Keeps ev nested s s c (unless_error answer) (same_bounds s h) a.0
            (λ r o. unless_error-Keeps ev nested s answer r o (λ v t k. k))
