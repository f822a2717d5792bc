-- ===== src/Cas/Refine.antt =====
-- The counter of src/counter-cas is exact: its calls take place one after the other.
use semantic_relaxation_dcbo.Prelude.{
  ℕ, ◌≡◌, Bool, true, false, ◌==◌, if◌then◌else◌, List, [], ◌∷◌, ◌++◌, Option, none, some, ◌>>=◌,
  refl, add64, sub64, Bool-cases, inl, inr, ==→eq, arith, ◌∙◌,
}
use semantic_relaxation_dcbo.Machine.{System, run, turn}
use semantic_relaxation_dcbo.Cas.{
  CounterPc, idle, increment_cae, incremented, decrement_load, decrement_cae, decremented,
  decremented_empty, count_cae, increment_cae_step, decrement_load_step, decrement_cae_step, result,
  step, create_counter, run_counter,
}

-- A call that took place, with what it returns; a `found_empty` returns 0.
pub data Call : Type 0 where
  incrementing : ℕ → Call
  decrementing : ℕ → Call
  found_empty : Call

-- The call that takes place in a turn which leaves the thread at this place.
abbrev pub calls : CounterPc → List Call
calls (incremented v) = incrementing v ∷ []
calls (decremented v) = decrementing v ∷ []
calls decremented_empty = found_empty ∷ []
calls _ = []

module _ (validate_size : Bool) where
  -- A sequential counter at a call: its next count, unless the call cannot return this there.
  unfoldable pub next : ℕ → Call → Option ℕ
  next count (incrementing v) = if v == add64 count 1 then some (add64 count 1) else none
  next count (decrementing v) =
      if count == 0
      then none
      else if v == result validate_size (sub64 count 1)
      then some (sub64 count 1)
      else none
  next count found_empty = if count == 0 then some count else none

  unfoldable pub replay : List Call → ℕ → Option ℕ
  replay [] count = some count
  replay (c ∷ rest) count = next count c >>= (λ count'. replay rest count')

  -- The calls of a schedule, in the order in which they take place.
  unfoldable pub history : List (ℕ × ℕ) → System ℕ CounterPc → List Call
  unfolding turn
  history [] s = []
  history ((i, c) ∷ rest) s =
      calls (step validate_size c s.shared (s.local i)).1
      ++ history rest (turn (step validate_size) s i c)

  ==-refl : (a : ℕ) → (a == a) ≡ true
  ==-refl a = ground arith

  -- A turn that leaves `r`, before the calls `rest`.
  Replays : ℕ → ℕ × CounterPc → Type 0
  Replays shared r = (rest : List Call) → replay (calls r.1 ++ rest) shared ≡ replay rest r.0

  increment_cae_step-Replays : (shared count : ℕ) → Replays shared (increment_cae_step shared count)
  unfolding Replays increment_cae_step count_cae replay next
  increment_cae_step-Replays shared count rest = elim (Bool-cases (shared == count)) [
    | inr e ↦ rw (e, increment_cae_step) refl
    | inl e ↦ rw (e, increment_cae_step, ==→eq _ _ e, ==-refl (add64 count 1)) refl
  ]

  -- A thread takes one only of a count that was not 0.
  Loaded : CounterPc → Type 0
  Loaded (decrement_cae count) = (count == 0) ≡ false
  Loaded _ = Unit

  -- What a turn that leaves `r` keeps.
  record Keeps (shared : ℕ) (r : ℕ × CounterPc) : Type 0 where
    replays : Replays shared r
    loaded : Loaded r.1

  increment_cae_step-Keeps : (shared count : ℕ) → Keeps shared (increment_cae_step shared count)
  unfolding increment_cae_step count_cae Loaded
  increment_cae_step-Keeps shared count = record {
    replays = increment_cae_step-Replays shared count;
    loaded = elim (Bool-cases (shared == count)) [
      | inl e ↦ rw (e, increment_cae_step) tt
      | inr e ↦ rw (e, increment_cae_step) tt
    ];
  }

  decrement_load_step-Keeps : (shared : ℕ) → Keeps shared (shared, decrement_load_step shared)
  unfolding Replays Loaded decrement_load_step replay next
  decrement_load_step-Keeps shared = elim (Bool-cases (shared == 0)) [
    | inl e ↦
        rw (e, decrement_load_step) (record { replays = λ rest. rw (e, next) refl; loaded = tt })
    | inr e ↦ rw (e, decrement_load_step) (record { replays = λ rest. refl; loaded = e })
  ]

  decrement_cae_step-Keeps :
      (shared count : ℕ)
      → (count == 0) ≡ false
      → Keeps shared (decrement_cae_step validate_size shared count)
  unfolding Replays Loaded decrement_cae_step count_cae replay next
  decrement_cae_step-Keeps shared count some_count = elim (Bool-cases (shared == count)) [
    | inr e ↦ rw (e, decrement_cae_step) (record { replays = λ rest. refl; loaded = tt })
    | inl e ↦
        rw (e, decrement_cae_step, ==→eq _ _ e)
          (record {
            replays = λ rest. rw (some_count, ==-refl (result validate_size (sub64 count 1))) refl;
            loaded = tt;
          })
  ]

  step-Keeps :
      (draw shared : ℕ) (pc : CounterPc)
      → Loaded pc
      → Keeps shared (step validate_size draw shared pc)
  unfolding step Loaded Replays
  step-Keeps draw shared idle k = elim (Bool-cases (draw == 0)) [
    | inl e ↦ rw (e, step) (record { replays = λ rest. refl; loaded = tt })
    | inr e ↦ rw (e, step) (record { replays = λ rest. refl; loaded = tt })
  ]
  step-Keeps draw shared (increment_cae count) k = increment_cae_step-Keeps shared count
  step-Keeps draw shared decrement_load k = decrement_load_step-Keeps shared
  step-Keeps draw shared (decrement_cae count) k = decrement_cae_step-Keeps shared count k
  step-Keeps draw shared pc k = record { replays = λ rest. refl; loaded = tt }

  turn-Loaded :
      (i c : ℕ) (s : System ℕ CounterPc)
      → ((j : ℕ) → Loaded (s.local j))
      → (j : ℕ) → Loaded ((turn (step validate_size) s i c).local j)
  unfolding turn
  turn-Loaded i c s k j = elim (Bool-cases (i == j)) [
    | inl e ↦ rw e (step-Keeps c s.shared (s.local i) (k i)).loaded
    | inr e ↦ rw e (k j)
  ]

  replay-history :
      (schedule : List (ℕ × ℕ)) (s : System ℕ CounterPc)
      → ((i : ℕ) → Loaded (s.local i))
      → replay (history schedule s) s.shared ≡ some (run (step validate_size) schedule s).shared
  unfolding history run turn replay Replays
  replay-history [] s k = refl
  replay-history ((i, c) ∷ rest) s k =
      let s' = turn (step validate_size) s i c in
      (step-Keeps c s.shared (s.local i) (k i)).replays (history rest s')
      ∙ replay-history rest s' (turn-Loaded i c s k)

-- The counter is exact, with any number of threads and however often it wraps around: each call takes
-- place at one turn within it (an increment or a decrement at its successful compare-exchange, a
-- decrement that finds 0 at its load), and a sequential counter that makes these calls in this order
-- returns the same from each of them and ends with the same count.
pub cas_counter-Replays :
    (validate_size : Bool) (schedule : List (ℕ × ℕ))
    → replay validate_size (history validate_size schedule create_counter) 0
      ≡ some (run_counter validate_size schedule).shared
unfolding run_counter Loaded
cas_counter-Replays validate_size schedule =
    replay-history validate_size schedule create_counter (λ i. tt)
