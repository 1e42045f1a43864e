-- ===== src/Gk/Store.antt =====
-- include/gk/gk.h and kernel/gk/gk_interp.c: the state of the interpreter, its variables and its
-- functions.
pub mod Sound
pub mod Vars
use mathlib.Core.Option
use gecko_os_mac_compatabili.Common.{
  ℕ, Bool, true, false, List, [], ◌∷◌, Option, none, some, ltb, leb, if◌then◌else◌, length,
}
use gecko_os_mac_compatabili.Gk.Token.{Message}
use gecko_os_mac_compatabili.Gk.Lexer.{same_text}
use gecko_os_mac_compatabili.Gk.Ast.{Node, ParseError}
use gecko_os_mac_compatabili.Gk.Value.{Value, val_none}

abbrev pub max_vars : ℕ
max_vars = 128

abbrev pub max_funcs : ℕ
max_funcs = 64

abbrev pub max_params : ℕ
max_params = 8

abbrev pub max_call_depth : ℕ
max_call_depth = 32

-- The size of the buffers for names.
abbrev pub max_name : ℕ
max_name = 64

pub record Var : Type 0 where
  pub name : List ℕ
  pub val : Value
  pub scope : ℕ

pub record FuncDef : Type 0 where
  pub name : List ℕ
  pub params : List (List ℕ)
  pub body_node : ℕ

-- What `error` holds after a failure.
pub data Failure : Type 0 where
  undefined_variable undefined_function : List ℕ → Failure
  too_many_variables too_many_functions wrong_number_of_arguments : Failure
  max_call_depth_exceeded division_by_zero modulo_by_zero unknown_operator : Failure
  minus_requires_integer operator_requires_integers : Failure
  int_takes_one int_requires_string_or_integer int_invalid_literal : Failure
  range_needs_one range_must_be_integer for_requires_integer unknown_node_type : Failure

-- A call of `gk_print`; the messages of errors are what they are about.
pub data Printed : Type 0 where
  text : List ℕ → Printed
  lex_error : Message → Printed
  parse_error : ParseError → Printed
  runtime_error : Failure → Printed

-- `vars` is the array from its last entry down, `funcs` from its first entry up. `lines` is what the
-- user will type, and then empty lines; `output` is what was printed.
pub record State : Type 0 where
  pub nodes : List Node
  pub vars : List Var
  pub funcs : List FuncDef
  pub call_depth : ℕ
  pub returning : Bool
  pub breaking : Bool
  pub continuing : Bool
  pub return_val : Value
  pub error : Option Failure
  pub lines : List (List ℕ)
  pub output : List Printed

-- `bad_read` is a read of a node or a child that nobody made, `overrun` a write behind an array,
-- `long_name` a name that does not fit its buffer, `divide_fault` the processor's exception for a
-- quotient that does not fit.
pub data Ran {ℓ} (A : Type ℓ) : Type ℓ where
  ran : A → Ran A
  bad_read : Ran A
  overrun : Ran A
  long_name : Ran A
  divide_fault : Ran A
  out_of_fuel : Ran A

infixl 5 ◌>>=◌
abbrev pub ◌>>=◌ {ℓ κ} : {A : Type ℓ} {B : Type κ} → Ran A → (A → Ran B) → Ran B
ran a >>= f = f a
bad_read >>= f = bad_read
overrun >>= f = overrun
long_name >>= f = long_name
divide_fault >>= f = divide_fault
out_of_fuel >>= f = out_of_fuel

-- A value that was computed, and the state after that.
abbrev pub Result : Type 0
Result = Ran (Value × State)

-- `s->error[0]`
abbrev pub has_error : State → Bool
has_error s = elim s.error [ none ↦ false | some _ ↦ true ]

abbrev pub fail : Failure → State → Result
fail f s = ran (val_none, record s { error = some f })

unfoldable pub find_var : List Var → List ℕ → Option Value
unfolding same_text
find_var [] name = none
find_var (v ∷ vs) name = if same_text v.name name then some v.val else find_var vs name

-- The loop of `set_var`: the new array when it finds the name above the scopes below `depth`.
unfoldable pub update_var : ℕ → List ℕ → Value → List Var → Option (List Var)
unfolding same_text
update_var depth name val [] = none
update_var depth name val (v ∷ vs) =
    let rest = update_var depth name val vs in
    if ltb v.scope depth
    then none
    else if same_text v.name name
    then some (record v { val = val } ∷ vs)
    else Option.map (λ us. v ∷ us) rest

unfoldable pub set_var : State → List ℕ → Value → Ran (Bool × State)
unfolding update_var
set_var s name val = elim (update_var s.call_depth name val s.vars) [
  | some vs ↦ ran (true, record s { vars = vs })
  | none ↦
      if leb max_vars (length s.vars)
      then ran (false, record s { error = some too_many_variables })
      else if leb max_name (length name)
      then long_name
      else ran (
        true,
        record s { vars = record { name = name; val = val; scope = s.call_depth } ∷ s.vars },
      )
]

unfoldable pub drop_scope : ℕ → List Var → List Var
drop_scope depth [] = []
drop_scope depth (v ∷ vs) = if leb depth v.scope then drop_scope depth vs else v ∷ vs

abbrev pub pop_scope : State → State
pop_scope s = record s { vars = drop_scope s.call_depth s.vars }

unfoldable pub find_func : List FuncDef → List ℕ → Option FuncDef
unfolding same_text
find_func [] name = none
find_func (f ∷ fs) name = if same_text f.name name then some f else find_func fs name
