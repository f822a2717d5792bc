-- ===== src/TwoDd/Stack/Tests.antt =====
-- Runs of the stack, and the theorems at concrete schedules.
use semantic_relaxation_dcbo.Prelude.{
  ℕ, ◌+◌, ◌-◌, ◌*◌, ◌≤◌, ◌≡◌, some, total, List, [], ◌++◌, length, arith,
}
use semantic_relaxation_dcbo.Machine.{turns}
use semantic_relaxation_dcbo.Nodes.Stacks.{Holds}
use semantic_relaxation_dcbo.Nodes.Threads.{Replays, events}
use semantic_relaxation_dcbo.Nodes.Size.{stack_size}
use semantic_relaxation_dcbo.TwoDd.Window.{Params}
use semantic_relaxation_dcbo.TwoDd.Stack.{Descriptor, step, create_stack, run_stack}
use semantic_relaxation_dcbo.TwoDd.Stack.Refine.{tops_of, event, two_dd_stack-Replays}
use semantic_relaxation_dcbo.TwoDd.Stack.Counts.{puts_of, gets_of}
use semantic_relaxation_dcbo.TwoDd.Stack.Bounds.{stacks_close, stack_size-exact}

abbrev single : Params
single = record { width = 1; depth = 2; random_hops = 0 }

-- Thread 0 pushes 5 and 6; thread 1 is then about to take 6 off.
abbrev about_to_pop : List (ℕ × ℕ)
about_to_pop = turns 0 5 17 ++ turns 0 6 8 ++ turns 1 0 19

abbrev top : Descriptor
top = record { node = 2; put_count = 2; get_count = 0 }

two_dd_stack-Replays_example :
    let s = run_stack single about_to_pop in
    (after : ℕ → List ℕ) × Holds s.shared.heap (tops_of s.shared) after
    × Replays (events (step single) event about_to_pop create_stack) (λ k. []) after
two_dd_stack-Replays_example = two_dd_stack-Replays single about_to_pop

-- What the stacks hold after that run.
abbrev held : ℕ → List ℕ
held = (two_dd_stack-Replays single about_to_pop).0

stacks_close_example :
    let s = (run_stack single about_to_pop).shared in
    (length (held 0) + gets_of s 0 ≡ puts_of s 0)
    × (puts_of s 0 ≤ puts_of s 0 + 2)
    × (puts_of s 0 ≤ s.windows.put_max)
    × (s.windows.get_max ≤ gets_of s 0 + 2 * 2)
    × (s.windows.get_max ≤ s.windows.put_max)
stacks_close_example =
    stacks_close single about_to_pop (omega arith) (omega arith) (omega arith) (omega arith) held 0
      0 (omega arith) (omega arith) (two_dd_stack-Replays single about_to_pop).1

stack_size-exact_example :
    let s = (run_stack single about_to_pop).shared in
    stack_size (length about_to_pop + 1) s.heap (tops_of s) 1
    ≡ some (total (λ k. puts_of s k - gets_of s k) 1)
stack_size-exact_example =
    stack_size-exact single about_to_pop (omega arith) (omega arith) (omega arith) (omega arith)
