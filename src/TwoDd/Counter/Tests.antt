-- ===== src/TwoDd/Counter/Tests.antt =====
-- Runs of the counter, and the theorems at concrete schedules.
use semantic_relaxation_dcbo.Prelude.{ℕ, ◌+◌, ◌*◌, ◌≤◌, ◌≡◌, List, ◌++◌, refl, arith}
use semantic_relaxation_dcbo.Machine.{run, tally, turns}
use semantic_relaxation_dcbo.TwoDd.Window.{Params}
use semantic_relaxation_dcbo.TwoDd.Counter.{
  create_counter, run_counter, step, counter_size, Descriptor,
}
use semantic_relaxation_dcbo.TwoDd.Counter.Invariant.{puts_of, gets_of}
use semantic_relaxation_dcbo.TwoDd.Counter.Spread.{counts_close}
use semantic_relaxation_dcbo.TwoDd.Counter.Count.{increments, decrements, counter_size_exact}

abbrev pair : Params
pair = record { width = 2; depth = 1; random_hops = 0 }

abbrev single : Params
single = record { width = 1; depth = 1; random_hops = 0 }

-- four increments by thread 0
abbrev all_up : List (ℕ × ℕ)
all_up = turns 0 0 70

all_up_counts :
    let s = (run_counter pair all_up).shared in
    (puts_of s 0 ≡ 2) × (puts_of s 1 ≡ 2) × (counter_size pair s 2 ≡ 4)
unfolding run_counter run step counter_size
all_up_counts = (refl, refl, refl)

counts_close_example :
    let s = (run_counter pair all_up).shared in
    (puts_of s 0 ≤ puts_of s 1 + 1)
    × (gets_of s 0 ≤ puts_of s 0)
    × (puts_of s 0 ≤ s.windows.put_max)
    × (s.windows.get_max ≤ gets_of s 0 + 2 * 1)
    × (s.windows.get_max ≤ s.windows.put_max)
counts_close_example =
    counts_close pair all_up (omega arith) (omega arith) (omega arith) 0 1 (omega arith)
      (omega arith)

-- One increment by thread 0, then one decrement by thread 1.
abbrev up_and_down : List (ℕ × ℕ)
up_and_down = turns 0 0 16 ++ turns 1 1 20

counter_size_exact_example :
    counter_size single (run_counter single up_and_down).shared 1
      + tally (step single) decrements up_and_down create_counter
    ≡ tally (step single) increments up_and_down create_counter
counter_size_exact_example =
    counter_size_exact single up_and_down (omega arith) (omega arith) (omega arith) (omega arith)

up_and_down_tallies :
    (tally (step single) increments up_and_down create_counter ≡ 1)
    × (tally (step single) decrements up_and_down create_counter ≡ 1)
unfolding tally step
up_and_down_tallies = (refl, refl)

-- Thread 1 finds the only sub-counter empty, hops once, and meets the item that thread 0 has put
-- meanwhile. It gets it past the get window, which allows one.
abbrev raced : List (ℕ × ℕ)
raced = turns 0 0 16 ++ turns 1 1 27 ++ turns 0 0 16 ++ turns 1 1 6

raced_past_window :
    let s = (run_counter single raced).shared in (s.windows.get_max ≡ 1) × (gets_of s 0 ≡ 2)
unfolding run_counter run step
raced_past_window = (refl, refl)

-- In the last turn of this it is about to take that item: it has seen every sub-counter empty.
abbrev about_to_race : List (ℕ × ℕ)
about_to_race = turns 0 0 16 ++ turns 1 1 27 ++ turns 0 0 16 ++ turns 1 1 4

abbrev two_put : Descriptor
two_put = record { put_count = 2; get_count = 1 }
