-- ===== src/TwoDc/Counter/Tests.antt =====
-- Runs of the 2Dc counter, and the theorems at concrete schedules.
use semantic_relaxation_dcbo.Prelude.{ℕ, ◌+◌, ◌≤◌, ◌≡◌, List, ◌++◌, refl, arith}
use semantic_relaxation_dcbo.Machine.{run, tally, turn, turns}
use semantic_relaxation_dcbo.TwoDc.Window.Moves.{Moves}
use semantic_relaxation_dcbo.TwoDc.Counter.{
  params, create_counter, run_counter, step, counter_size, returned_empty,
}
use semantic_relaxation_dcbo.TwoDc.Counter.Balance.{increments, decrements, counter_size-tally}
use semantic_relaxation_dcbo.TwoDc.Counter.Windows.{
  window-Moves, window_after, window_later, version-max,
}

-- Three increments by thread 0, then one decrement.
abbrev three_up : List (ℕ × ℕ)
three_up = turns 0 0 65

abbrev three_up_one_down : List (ℕ × ℕ)
three_up_one_down = three_up ++ turns 0 1 8

counts : counter_size (params 1 1) (run_counter (params 1 1) three_up_one_down).shared 1 ≡ 2
unfolding run_counter run step counter_size
counts = refl

counter_size-tally_example :
    counter_size (params 1 1) (run_counter (params 1 1) three_up_one_down).shared 1
      + tally (step (params 1 1)) decrements three_up_one_down (create_counter 1)
    ≡ tally (step (params 1 1)) increments three_up_one_down (create_counter 1)
counter_size-tally_example =
    counter_size-tally (params 1 1) three_up_one_down (omega arith) (omega arith) (omega arith)

window-Moves_example :
    let s = run_counter (params 1 1) three_up in
    Moves (params 1 1) s.shared.window (turn (step (params 1 1)) s 0 1).shared.window
    × (1 ≤ s.shared.window.max)
    × (s.shared.window.version ≤ 65)
window-Moves_example = window-Moves 1 1 three_up 0 1 (omega arith) (omega arith) (omega arith)

same_version :
    (window_later 1 1 three_up (turns 0 1 8)).version ≡ (window_after 1 1 three_up).version
unfolding run_counter run step
same_version = refl

version-max_example :
    (window_later 1 1 three_up (turns 0 1 8)).max ≡ (window_after 1 1 three_up).max
version-max_example =
    version-max 1 1 three_up (turns 0 1 8) (omega arith) (omega arith) (omega arith) same_version

-- Thread 0 puts a count in sub-counter 1 and is done. Thread 1, whose window of version 0 is taken
-- for the global one, decrements: it looks at sub-counter 0 only, and returns EMPTY.
abbrev fresh_thread : List (ℕ × ℕ)
fresh_thread = turns 0 0 1 ++ turns 0 1 25 ++ turns 1 1 6

fresh_thread_misses :
    let s = run_counter (params 2 1) fresh_thread in
    ((s.local 1).pc ≡ returned_empty) × (counter_size (params 2 1) s.shared 2 ≡ 1)
unfolding run_counter run step counter_size
fresh_thread_misses = (refl, refl)

-- Thread 1 reads the window's max of 3; thread 0 takes two, and moves the window down to 2; thread
-- 1 reads the version of this one. With both it puts a third count over the window.
abbrev torn : List (ℕ × ℕ)
torn = three_up ++ turns 1 0 3 ++ turns 0 1 28 ++ turns 1 0 13

torn_window_passed :
    let s = (run_counter (params 1 1) torn).shared in (s.array 0 ≡ 3) × (s.window.max ≡ 2)
unfolding run_counter run step
torn_window_passed = (refl, refl)
