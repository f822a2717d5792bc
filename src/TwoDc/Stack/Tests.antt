-- ===== src/TwoDc/Stack/Tests.antt =====
-- Runs of the stack, and the theorems at concrete schedules.
use semantic_relaxation_dcbo.Prelude.{ℕ, ◌+◌, ◌≡◌, some, total, List, [], ◌++◌, length, arith}
use semantic_relaxation_dcbo.Machine.{turns}
use semantic_relaxation_dcbo.Nodes.Stacks.{Holds}
use semantic_relaxation_dcbo.Nodes.Threads.{Replays, events}
use semantic_relaxation_dcbo.Nodes.Size.{stack_size}
use semantic_relaxation_dcbo.TwoDc.Window.{Params}
use semantic_relaxation_dcbo.TwoDc.Stack.{Descriptor, step, create_stack, run_stack}
use semantic_relaxation_dcbo.TwoDc.Stack.Refine.{tops_of, event, two_dc_stack-Replays}
use semantic_relaxation_dcbo.TwoDc.Stack.Size.{counts_exact, stack_size-counts}

abbrev single : Params
single = record { width = 1; depth = 2; shift = 1; random_hops = 0 }

-- Thread 0 pushes 5 and 6; thread 1 is then about to take 6 off.
abbrev about_to_pop : List (ℕ × ℕ)
about_to_pop = turns 0 5 10 ++ turns 0 6 8 ++ turns 1 0 8

abbrev top : Descriptor
top = record { node = 2; count = 2 }

two_dc_stack-Replays_example :
    let s = run_stack single about_to_pop in
    (after : ℕ → List ℕ) × Holds s.shared.heap (tops_of s.shared) after
    × Replays (events (step single) event about_to_pop (create_stack 2)) (λ k. []) after
two_dc_stack-Replays_example = two_dc_stack-Replays single about_to_pop

-- What the stacks hold after that run.
abbrev held : ℕ → List ℕ
held = (two_dc_stack-Replays single about_to_pop).0

counts_exact_example : ((run_stack single about_to_pop).shared.array 0).count ≡ length (held 0)
counts_exact_example =
    counts_exact single about_to_pop held 0 (omega arith)
      (two_dc_stack-Replays single about_to_pop).1

stack_size-counts_example :
    let s = (run_stack single about_to_pop).shared in
    stack_size (length about_to_pop + 1) s.heap (tops_of s) 1
    ≡ some (total (λ k. (s.array k).count) 1)
stack_size-counts_example = stack_size-counts single about_to_pop (omega arith) (omega arith)
