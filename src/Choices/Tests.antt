-- ===== src/Choices/Tests.antt =====
-- Runs of the counter with two choices, and the theorem at a concrete schedule.
use semantic_relaxation_dcbo.Prelude.{ℕ, ◌+◌, ◌≡◌, true, List, ◌++◌, refl, arith}
use semantic_relaxation_dcbo.Machine.{run, tally, turns}
use semantic_relaxation_dcbo.Choices.{
  Params, create_counter, run_counter, step, counter_size, returned,
}
use semantic_relaxation_dcbo.Choices.Balance.{increments, decrements, choices-tally}

abbrev two_choices : Params
two_choices = record { width = 2; num_choices = 2; validate_size = true }

-- An increment that draws 0 and then 1.
abbrev one_up : List (ℕ × ℕ)
one_up = turns 0 0 4 ++ turns 0 1 4

abbrev two_up : List (ℕ × ℕ)
two_up = one_up ++ one_up

-- Two of them, and a decrement that draws 1 twice.
abbrev two_up_one_down : List (ℕ × ℕ)
two_up_one_down = two_up ++ turns 0 1 6

-- The second takes the lower sub-counter.
one_each :
    let s = (run_counter two_choices two_up).shared in
    (s.count 0 ≡ 1) × (s.count 1 ≡ 1) × (s.version 1 ≡ 1)
unfolding run_counter run step
one_each = (refl, refl, refl)

one_taken :
    let s = run_counter two_choices two_up_one_down in
    (s.shared.count 0 ≡ 1)
    × (s.shared.count 1 ≡ 0)
    × (s.shared.version 1 ≡ 2)
    × (s.local 0 ≡ returned 1)
unfolding run_counter run step
one_taken = (refl, refl, refl, refl)

-- Two threads read the same sub-counter: the one that is second to change it must choose again.
abbrev both_at_once : List (ℕ × ℕ)
both_at_once = turns 0 0 6 ++ turns 1 0 6 ++ turns 0 0 1 ++ turns 1 0 1

second_fails : (run_counter two_choices both_at_once).shared.count 0 ≡ 1
unfolding run_counter run step
second_fails = refl

choices-tally_example :
    counter_size two_choices (run_counter two_choices two_up_one_down).shared 2
      + tally (step two_choices) decrements two_up_one_down create_counter
    ≡ tally (step two_choices) increments two_up_one_down create_counter
choices-tally_example = choices-tally two_choices two_up_one_down (omega arith) (omega arith)
