-- ===== src/Cas.antt =====
-- src/counter-cas: one shared count, by any number of threads, one shared access at a time.
pub mod Refine
mod Tests
use semantic_relaxation_dcbo.Prelude.{ℕ, Bool, true, false, ◌==◌, if◌then◌else◌, List, add64, sub64}
use semantic_relaxation_dcbo.Machine.{System, run}

-- Where a thread stands: `increment_cae` and `decrement_cae` hold the count that was loaded, and the
-- last three are the returns, of which `decremented_empty` is that of 0 when the count was 0.
pub data CounterPc : Type 0 where
  idle : CounterPc
  increment_load : CounterPc
  increment_cae : (count : ℕ) → CounterPc
  incremented : ℕ → CounterPc
  decrement_load : CounterPc
  decrement_cae : (count : ℕ) → CounterPc
  decremented : ℕ → CounterPc
  decremented_empty : CounterPc

-- `CAE` of `set->count`
unfoldable pub count_cae : (shared count new : ℕ) → ℕ × Bool
count_cae shared count new = if shared == count then (new, true) else (shared, false)

unfoldable pub increment_cae_step : (shared count : ℕ) → ℕ × CounterPc
unfolding count_cae
increment_cae_step shared count =
    let new = add64 count 1 in
    let (shared', done) = count_cae shared count new in
    (shared', if done then incremented new else increment_load)

unfoldable pub decrement_load_step : (shared : ℕ) → CounterPc
decrement_load_step shared = if shared == 0 then decremented_empty else decrement_cae shared

-- `validate_size` is whether `VALIDATESIZE` is 1.
module _ (validate_size : Bool) where
  -- What a `decrement` returns that leaves `new`.
  abbrev pub result : (new : ℕ) → ℕ
  result new = if validate_size then 1 else new

  unfoldable pub decrement_cae_step : (shared count : ℕ) → ℕ × CounterPc
  unfolding count_cae
  decrement_cae_step shared count =
      let new = sub64 count 1 in
      let (shared', done) = count_cae shared count new in
      (shared', if done then decremented (result new) else decrement_load)

  -- One access of a thread; an idle one begins `increment` on 0 and `decrement` on any other draw.
  unfoldable pub step : ℕ → ℕ → CounterPc → ℕ × CounterPc
  unfolding increment_cae_step decrement_load_step decrement_cae_step
  step draw shared pc = elim pc [
    | idle ↦ (shared, if draw == 0 then increment_load else decrement_load)
    | increment_load ↦ (shared, increment_cae shared)
    | increment_cae count ↦ increment_cae_step shared count
    | incremented v ↦ (shared, idle)
    | decrement_load ↦ (shared, decrement_load_step shared)
    | decrement_cae count ↦ decrement_cae_step shared count
    | decremented v ↦ (shared, idle)
    | decremented_empty ↦ (shared, idle)
  ]

-- `create_counter`
abbrev pub create_counter : System ℕ CounterPc
create_counter = record { shared = 0; local = λ i. idle }

unfoldable pub run_counter : Bool → List (ℕ × ℕ) → System ℕ CounterPc
run_counter validate_size schedule = run (step validate_size) schedule create_counter
