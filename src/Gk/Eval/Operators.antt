-- ===== src/Gk/Eval/Operators.antt =====
-- Operators and built-in functions: they keep the bounds, and read children that are there.
use gecko_os_mac_compatabili.Common.{
  ℕ, ◌-◌, ◌≤◌, Bool, true, false, List, [], ◌∷◌, Option, none, some, leb, ◌==◌, ◌&&◌, if◌then◌else◌,
  arith, length, Bool-cases, inl, inr,
}
use gecko_os_mac_compatabili.Gk.Token.{
  TokenType, tok_plus, tok_slash, tok_percent, tok_eq, tok_neq, tok_and, tok_or,
}
use gecko_os_mac_compatabili.Gk.Ast.{Node, ◌is◌}
use gecko_os_mac_compatabili.Gk.Ast.Grown.{AllBelow, IsDone}
use gecko_os_mac_compatabili.Gk.Value.{
  Value, val_int, val_str, val_bool, val_none, word, least_int, is_truthy, val_to_str, parse_int,
}
use gecko_os_mac_compatabili.Gk.Store.{
  State, ran, ◌>>=◌, Result, fail, Failure, find_var, undefined_variable, int_invalid_literal,
}
use gecko_os_mac_compatabili.Gk.Store.Sound.{IsSound, Kept, Keeps}
use gecko_os_mac_compatabili.Gk.Eval.{
  Evals, child, print, unless_error, eval_var, divide, quotient, remainder, int_operator,
  on_integers, plus, eval_operator, eval_lazy, eval_binop, eval_print, read_line, eval_input, cast,
  eval_int_cast,
}
use gecko_os_mac_compatabili.Gk.Eval.Sound.{
  same_bounds, Preserves, next_then-Keeps, unless_error-Keeps, child_then-Keeps, eval_child-Keeps,
}

divide-Keeps :
    (s t : State) (f : Failure) (g : ℕ → ℕ → ℕ) (a b : ℕ) → Kept s t → Keeps s (divide f g a b t)
divide-Keeps s t f g a b k = elim (Bool-cases (b == 0)) [
  | inl by_zero ↦ rw by_zero k
  | inr nonzero ↦ elim (Bool-cases (a == least_int && b == word - 1)) [
    | inl fault ↦ rw (nonzero, fault) tt
    | inr fits ↦ rw (nonzero, fits) k
  ]
]

int_operator-Keeps :
    (s t : State) (op : TokenType) (a b : ℕ) → Kept s t → Keeps s (int_operator op a b t)
unfolding int_operator
int_operator-Keeps s t tok_slash a b k = divide-Keeps s t _ quotient a b k
int_operator-Keeps s t tok_percent a b k = divide-Keeps s t _ remainder a b k
int_operator-Keeps s t _ a b k = k

on_integers-Keeps :
    (s t : State) (op : TokenType) (l r : Value) → Kept s t → Keeps s (on_integers op l r t)
on_integers-Keeps s t op (val_int a) (val_int b) k = int_operator-Keeps s t op a b k
on_integers-Keeps s t op (val_int a) (val_str b) k = k
on_integers-Keeps s t op (val_int a) (val_bool b) k = k
on_integers-Keeps s t op (val_int a) val_none k = k
on_integers-Keeps s t op (val_str a) r k = k
on_integers-Keeps s t op (val_bool a) r k = k
on_integers-Keeps s t op val_none r k = k

plus-Keeps : (s t : State) (l r : Value) → Kept s t → Keeps s (plus l r t)
plus-Keeps s t (val_str cs) r k = k
plus-Keeps s t (val_int a) r k = on_integers-Keeps s t tok_plus (val_int a) r k
plus-Keeps s t (val_bool a) r k = k
plus-Keeps s t val_none r k = k

eval_operator-Keeps :
    (s t : State) (op : TokenType) (l r : Value) → Kept s t → Keeps s (eval_operator op l r t)
unfolding eval_operator
eval_operator-Keeps s t op l r k = elim (Bool-cases (op is tok_eq)) [
  | inl eq ↦ rw (eq, eval_operator) k
  | inr no_eq ↦ elim (Bool-cases (op is tok_neq)) [
    | inl neq ↦ rw (no_eq, neq, eval_operator) k
    | inr no_neq ↦ elim (Bool-cases (op is tok_plus)) [
      | inl add ↦ rw (no_eq, no_neq, add, eval_operator) (plus-Keeps s t l r k)
      | inr other ↦ rw (no_eq, no_neq, other, eval_operator) (on_integers-Keeps s t op l r k)
    ]
  ]
]

read_line-Keeps : (s t : State) → Kept s t → Keeps s (read_line t)
read_line-Keeps s t k = typed t.lines
  where
    typed :
        (lines : List (List ℕ))
        → Keeps s (elim lines [
          | [] ↦ ran (val_str [], print (b'\n' ∷ []) t)
          | line ∷ more ↦ ran (val_str line, print (b'\n' ∷ []) (record t { lines = more }))
        ])
    typed [] = k
    typed (line ∷ more) = k

cast-Keeps : (s t : State) (v : Value) → Kept s t → Keeps s (cast v t)
cast-Keeps s t (val_int v) k = k
cast-Keeps s t (val_bool v) k = k
cast-Keeps s t val_none k = k
cast-Keeps s t (val_str cs) k = parsed (parse_int cs)
  where
    parsed :
        (o : Option ℕ)
        → Keeps s (elim o [ none ↦ fail int_invalid_literal t | some v ↦ ran (val_int v, t) ])
    parsed none = k
    parsed (some v) = k

if-Kept : (s : State) (b : Bool) (t u : State) → Kept s t → Kept s u → Kept s (if b then t else u)
if-Kept s true t u h k = h
if-Kept s false t u h k = k

pub eval_var-Keeps : (s : State) (n : Node) → IsSound s → Keeps s (eval_var n s)
unfolding eval_var
eval_var-Keeps s n h = found (find_var s.vars n.str_val)
  where
    found :
        (o : Option Value)
        → Keeps s (elim o [ none ↦ fail (undefined_variable n.str_val) s | some v ↦ ran (v, s) ])
    found none = same_bounds s h
    found (some v) = same_bounds s h

module _ (ev : Evals) (nested : Preserves ev) where
  eval_lazy-Keeps :
      (s : State) (more : Bool) (n : Node)
      → IsSound s
      → IsDone (length s.nodes) n
      → 2 ≤ length n.children
      → Keeps s (eval_lazy ev more n s)
  eval_lazy-Keeps s more n h d l = child_then-Keeps ev nested s n 0 _ d (omega arith) (λ c b.
      next_then-Keeps ev nested s s c _ (same_bounds s h) b
        (λ x k. chosen x more (is_truthy x.0) k))
    where
      right :
          (t : State)
          → Kept s t
          → Keeps s (child n 1 >>= λ d. ev d t >>= λ r. ran (val_bool (is_truthy r.0), r.1))
      right t k =
          child_then-Keeps ev nested s n 1 _ d (omega arith)
            (λ c b. next_then-Keeps ev nested s t c _ k b (λ r o. o))

      chosen :
          (x : Value × State) (more truth : Bool)
          → Kept s x.1
          → Keeps s (
              if truth
              then (if more
                  then (child n 1 >>= λ d. ev d x.1 >>= λ r. ran (val_bool (is_truthy r.0), r.1))
                  else ran (val_bool true, x.1))
              else (if more
                  then ran (val_bool false, x.1)
                  else (child n 1 >>= λ d. ev d x.1 >>= λ r. ran (val_bool (is_truthy r.0), r.1))))
      chosen x true true k = right x.1 k
      chosen x false true k = k
      chosen x true false k = k
      chosen x false false k = right x.1 k

  pub eval_binop-Keeps :
      (s : State) (n : Node)
      → IsSound s
      → IsDone (length s.nodes) n
      → 2 ≤ length n.children
      → Keeps s (eval_binop ev n s)
  unfolding eval_binop
  eval_binop-Keeps s n h d l = elim (Bool-cases (n.op is tok_and)) [
    | inl conj ↦ rw (conj, eval_binop) (eval_lazy-Keeps s true n h d l)
    | inr no_and ↦ elim (Bool-cases (n.op is tok_or)) [
      | inl disj ↦ rw (no_and, disj, eval_binop) (eval_lazy-Keeps s false n h d l)
      | inr other ↦
          rw (no_and, other, eval_binop)
            (eval_child-Keeps ev nested s s n 0 _ (same_bounds s h) d (omega arith) (λ a t k.
              eval_child-Keeps ev nested s t n 1 _ k d (omega arith)
                (λ b u o. eval_operator-Keeps s u n.op a b o)))
    ]
  ]

  pub eval_print-Keeps :
      (s t : State) (cs : List ℕ)
      → Kept s t
      → AllBelow (length s.nodes) cs
      → Keeps s (eval_print ev cs t)
  unfolding eval_print
  eval_print-Keeps s t [] k a = k
  eval_print-Keeps s t (c ∷ cs) k a = next_then-Keeps ev nested s t c _ k a.0 (λ r o.
      unless_error-Keeps ev nested s _ r o (λ v u p.
        let last : State = print (val_to_str v) u in
        let more : State = print (b' ' ∷ []) last in
        eval_print-Keeps s (if leb 1 (length cs) then more else last) cs
          (if-Kept s (leb 1 (length cs)) more last p p) a.1))

  pub eval_input-Keeps :
      (s : State) (n : Node)
      → IsSound s
      → AllBelow (length s.nodes) n.children
      → Keeps s (eval_input ev n s)
  unfolding eval_input
  eval_input-Keeps s n h a = prompt n.children a
    where
      prompt :
          (cs : List ℕ)
          → AllBelow (length s.nodes) cs
          → Keeps s (elim cs [
            | [] ↦ read_line s
            | c ∷ _ ↦ ev c s >>= unless_error (λ v t. read_line (print (val_to_str v) t))
          ])
      prompt [] a = read_line-Keeps s s (same_bounds s h)
      prompt (c ∷ cs) a =
          let answer : Value → State → Result = λ v t. read_line (print (val_to_str v) t) in
          next_then-Keeps ev nested s s c (unless_error answer) (same_bounds s h) a.0 (λ r o.
            unless_error-Keeps ev nested s answer r o
              (λ v t k. read_line-Keeps s (print (val_to_str v) t) k))

  pub eval_int_cast-Keeps :
      (s : State) (n : Node)
      → IsSound s
      → IsDone (length s.nodes) n
      → Keeps s (eval_int_cast ev n s)
  unfolding eval_int_cast
  eval_int_cast-Keeps s n h d = elim (Bool-cases (length n.children == 1)) [
    | inl one ↦
        rw (one, eval_int_cast)
          (eval_child-Keeps ev nested s s n 0 cast (same_bounds s h) d (ground (arith, one))
            (λ v t k. cast-Keeps s t v k))
    | inr wrong ↦ rw (wrong, eval_int_cast) (same_bounds s h)
  ]
