-- ===== src/Generated/Machine.antt =====
-- What every generated `main_func` of examples/*/lib/src/*.bpf.c shares: the memory of one
-- processor that its prologue looks up and resets, the exceptions, and the end at `CATCH`.
use Prim.Native.String.{String}
use honey_potion.Base.{ℕ, ◌+◌, ◌==◌, ◌≡◌, ap, ℤ, pos, Bool, List, [], ◌∷◌, if◌then◌else◌}
use honey_potion.Runtime.Values.{Generic, Message, OpResult}

-- The exceptions that generated code raises; `runtime` is one of an operation of the runtime.
pub data Fault : Type 0 where
  no_string_pool no_string_pool_index no_heap no_heap_index : Fault
  heap_full tuple_pool_full string_pool_full : Fault
  match_error heap_match_error tuple_match_error case_clause_error more_fuel : Fault
  key_not_found : String → Fault
  runtime : Message → Fault

-- A line of `bpf_printk`: a format with the arguments, or "** %s\n" with the exception's message.
pub data Line : Type 0 where
  printk : String → List ℤ → Line
  caught : Fault → Line

-- The entries of the per-CPU maps string_pool_map, heap_map, tuple_pool_map and their indices.
pub record Memory : Type 0 where
  pub string_pool : ℕ → ℕ
  pub string_pool_index : ℕ
  pub heap : ℕ → Generic
  pub heap_index : ℕ
  pub tuple_pool : ℕ → ℕ
  pub tuple_pool_index : ℕ

-- `maps` are the maps that the program declares, and `output` the lines it printed, the last one
-- first.
pub record State (M : Type 0) : Type 0 where
  pub memory : Memory
  pub maps : M
  pub output : List Line

pub data Result (A : Type 0) : Type 0 where
  ok : A → Result A
  err : Fault → Result A

-- The state stays changed when an exception is raised.
abbrev pub Action : Type 0 → Type 0 → Type 0
Action M A = State M → Result A × State M

module _ {M A : Type 0} where
  abbrev pub pure : A → Action M A
  pure a s = (ok a, s)

  abbrev pub fail : Fault → Action M A
  fail e s = (err e, s)

-- What follows a computation that is done.
abbrev pub after : {M A B : Type 0} → (A → Action M B) → Result A × State M → Result B × State M
after f (ok a, t) = f a t
after f (err e, t) = fail e t

infixl 5 ◌>>=◌ ◌>>◌
abbrev pub ◌>>=◌ : {M A B : Type 0} → Action M A → (A → Action M B) → Action M B
◌>>=◌ m f s = after f (m s)

abbrev pub ◌>>◌ : {M A B : Type 0} → Action M A → Action M B → Action M B
m >> k = m >>= λ _. k

-- A sequence whose first part returns, and one whose first part raises.
module _ {M A B : Type 0} where
  pub bind_ok :
      (m : Action M A) (f : A → Action M B) {s t : State M} {a : A}
      → m s ≡ (ok a, t)
      → (m >>= f) s ≡ f a t
  bind_ok m f e = ap (after f) e

  pub bind_err :
      (m : Action M A) (f : A → Action M B) {s t : State M} {e : Fault}
      → m s ≡ (err e, t)
      → (m >>= f) s ≡ (err e, t)
  bind_err m f e = ap (after f) e

module _ {M : Type 0} where
  -- `if (!c) { op_result = (OpResult){.exception = 1, ...}; goto CATCH; }`
  abbrev pub require : Bool → Fault → Action M (Unit {0})
  require c e s = (if c then ok tt else err e, s)

  abbrev pub modify : (State M → State M) → Action M (Unit {0})
  modify f s = (ok tt, f s)

  abbrev pub remember : (Memory → Memory) → Action M (Unit {0})
  remember f = modify (λ s. record s { memory = f s.memory })

  -- `bpf_printk`
  abbrev pub print : String → List ℤ → Action M (Unit {0})
  print format args = modify (λ s. record s { output = printk format args ∷ s.output })

  -- BINARY_OPERATION of priv/c_boilerplates/runtime_generic.bpf.h
  abbrev pub binary_operation : OpResult → Action M Generic
  binary_operation r =
      if r.exception == 0 then pure r.result_var else fail (runtime r.exception_msg)

-- A write to one place of an array.
abbrev pub put {ℓ} : {A : Type ℓ} → (ℕ → A) → ℕ → A → ℕ → A
put f i a j = if i == j then a else f j

abbrev pub put_all : (ℕ → ℕ) → ℕ → List ℕ → ℕ → ℕ
put_all f i [] = f
put_all f i (c ∷ cs) = put_all (put f i c) (i + 1) cs

-- The bytes of "nil", "false" and "true".
abbrev pub nil_text : List ℕ
nil_text = 110 ∷ 105 ∷ 108 ∷ []

abbrev pub false_text : List ℕ
false_text = 102 ∷ 97 ∷ 108 ∷ 115 ∷ 101 ∷ []

abbrev pub true_text : List ℕ
true_text = 116 ∷ 114 ∷ 117 ∷ 101 ∷ []

-- Which of the six lookups at key 0 give a pointer.
pub record Found : Type 0 where
  pub string_pool : Bool
  pub string_pool_index : Bool
  pub heap : Bool
  pub heap_index : Bool
  pub tuple_pool : Bool
  pub tuple_pool_index : Bool

abbrev pub all_found : Found
all_found = record {
  string_pool = Bool.true;
  string_pool_index = Bool.true;
  heap = Bool.true;
  heap_index = Bool.true;
  tuple_pool = Bool.true;
  tuple_pool_index = Bool.true;
}

abbrev pub reset_strings : Memory → Memory
reset_strings m = record m {
  string_pool_index = 0;
  string_pool = put_all (put_all (put_all m.string_pool 0 nil_text) 3 false_text) (3 + 5) true_text;
}

module _ {M : Type 0} where
  -- The prologue. The messages for the tuple pool are those for the string pool.
  unfoldable pub boot : Found → Action M (Unit {0})
  boot found = do
    require found.string_pool no_string_pool
    require found.string_pool_index no_string_pool_index
    remember reset_strings
    require found.heap no_heap
    require found.heap_index no_heap_index
    remember (λ m. record m { heap_index = 0 })
    require found.tuple_pool no_string_pool
    require found.tuple_pool_index no_string_pool_index
    remember (λ m. record m { tuple_pool_index = 0 })

  -- `CATCH: bpf_printk("** %s\n", op_result.exception_msg); return 0;`
  unfoldable pub catch : Result ℤ × State M → ℤ × State M
  catch (ok v, s) = (v, s)
  catch (err e, s) = (pos 0, record s { output = caught e ∷ s.output })

  -- A `main_func`: the prologue, the user code, and the end.
  unfoldable pub main : Found → Action M ℤ → State M → ℤ × State M
  unfolding boot catch
  main found user s = catch ((boot found >> user) s)
