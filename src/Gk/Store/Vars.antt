-- ===== src/Gk/Store/Vars.antt =====
-- The variables as a map from names to values.
use gecko_os_mac_compatabili.Common.{
  ℕ, ◌≤◌, ◌≡◌, refl, sym, subst, Bool, true, false, List, [], ◌∷◌, some, leb, ltb, arith, length,
  Bool-cases, inl, inr, Option-cases,
}
use gecko_os_mac_compatabili.Gk.Lexer.{same_text}
use gecko_os_mac_compatabili.Gk.Value.{Value}
use gecko_os_mac_compatabili.Gk.Store.{
  Var, State, find_var, update_var, set_var, max_vars, max_name,
}
use gecko_os_mac_compatabili.Gk.Store.Sound.{Sat, OnSome, OnSome-of, OnSome-map}

same_text_refl : (cs : List ℕ) → same_text cs cs ≡ true
unfolding same_text
same_text_refl [] = refl
same_text_refl (c ∷ cs) = ground (arith, same_text_refl cs)

same_text_equal : (cs ds : List ℕ) → same_text cs ds ≡ true → cs ≡ ds
unfolding same_text
same_text_equal [] [] h = refl
same_text_equal [] (d ∷ ds) h = absurd (cc)
same_text_equal (c ∷ cs) [] h = absurd (cc)
same_text_equal (c ∷ cs) (d ∷ ds) h =
    let head : c ≡ d = ground (arith, h) in
    let tail : cs ≡ ds = same_text_equal cs ds (ground (arith, h)) in cc

-- `name` is read as `val`, and every other name as before.
pub record Assigned (name : List ℕ) (val : Value) (vs us : List Var) : Type 0 where
  pub reads : find_var us name ≡ some val
  pub others :
      (other : List ℕ) → same_text name other ≡ false → find_var us other ≡ find_var vs other

update_var-Assigned :
    (depth : ℕ) (name : List ℕ) (val : Value) (vs : List Var)
    → OnSome (Assigned name val vs) (update_var depth name val vs)
unfolding update_var find_var
update_var-Assigned depth name val [] = tt
update_var-Assigned depth name val (v ∷ vs) = elim (Bool-cases (ltb v.scope depth)) [
  | inl lower ↦ rw lower tt
  | inr upper ↦ elim (Bool-cases (same_text v.name name)) [
    | inl same ↦
        rw (upper, same)
          (record {
            reads = rw (same, find_var) refl;
            others = λ other e.
                let differs : same_text v.name other ≡ false =
                  subst (λ (n : List ℕ). same_text n other ≡ false)
                    (sym (same_text_equal v.name name same)) e in
                rw (differs, find_var) refl;
          })
    | inr differs ↦
        rw (upper, differs)
          (OnSome-map (Assigned name val vs) (Assigned name val (v ∷ vs)) (λ us. v ∷ us) _
            (update_var-Assigned depth name val vs)
            (λ us a. record {
              reads = rw (differs, find_var) a.reads;
              others = λ other e. elim (Bool-cases (same_text v.name other)) [
                | inl here ↦ rw (here, find_var) refl
                | inr later ↦ rw (later, find_var) (a.others other e)
              ];
            }))
  ]
]

new_var-Assigned :
    (depth : ℕ) (name : List ℕ) (val : Value) (vs : List Var)
    → Assigned name val vs (record { name = name; val = val; scope = depth } ∷ vs)
unfolding find_var
new_var-Assigned depth name val vs = record {
  reads = let same : same_text name name ≡ true = same_text_refl name in rw (same, find_var) refl;
  others = λ other e. rw (e, find_var) refl;
}

-- When `set_var` returns true, the name is read as the value and every other name as before;
-- when it returns false, the variables are as before and the array is full; it writes behind no
-- array, and overruns a buffer for a name only when the name has at least 64 characters.
pub set_var-Assigned :
    (s : State) (name : List ℕ) (val : Value)
    → Sat
        (64 ≤ length name)
        (λ (r : Bool × State).
          (r.0 ≡ true → Assigned name val s.vars r.1.vars)
          × (r.0 ≡ false → (r.1.vars ≡ s.vars) × (128 ≤ length s.vars)))
        (set_var s name val)
unfolding set_var
set_var-Assigned s name val = elim (Option-cases (update_var s.call_depth name val s.vars)) [
  | inr (vs, e) ↦
      rw (e, set_var)
        (
          λ _. OnSome-of _ _ vs (update_var-Assigned s.call_depth name val s.vars) e,
          λ h. absurd (cc),
        )
  | inl e ↦ elim (Bool-cases (leb max_vars (length s.vars))) [
    | inl full ↦ rw (e, full, set_var) (λ h. absurd (cc), λ _. (refl, ground (arith, full)))
    | inr room ↦ elim (Bool-cases (leb max_name (length name))) [
      | inl long ↦ rw (e, room, long, set_var) (ground (arith, long))
      | inr fits ↦
          rw (e, room, fits, set_var)
            (λ _. new_var-Assigned s.call_depth name val s.vars, λ h. absurd (cc))
    ]
  ]
]
