-- ===== src/Dra/Tests.antt =====
-- Runs of the stack, and the theorems at concrete schedules.
use semantic_relaxation_dcbo.Prelude.{
  ℕ, ◌+◌, ◌<◌, ◌≡◌, ◌≢◌, List, [], ◌∷◌, ◌++◌, length, refl, arith,
}
use semantic_relaxation_dcbo.Machine.{run, turns}
use semantic_relaxation_dcbo.Nodes.Heap.{set_next, link}
use semantic_relaxation_dcbo.Nodes.Stacks.{Holds}
use semantic_relaxation_dcbo.Nodes.Threads.{Replays, events}
use semantic_relaxation_dcbo.Dra.{Params, step, create_stack, run_stack, popped}
use semantic_relaxation_dcbo.Dra.Refine.{tops_of, event, dra_stack-Replays}
use semantic_relaxation_dcbo.Dra.Stamps.Height.{timestamp-length}

abbrev pair : Params
pair = record { width = 2; num_choices = 2 }

-- Thread 0 pushes 5 on stack 0, 6 on stack 1, which it finds empty, and 7 on stack 0, which it draws
-- twice.
abbrev three_in : List (ℕ × ℕ)
three_in =
    ((0, 5) ∷ turns 0 0 4) ++ ((0, 6) ∷ (0, 0) ∷ (0, 1) ∷ turns 0 0 4) ++ ((0, 7) ∷ turns 0 0 6)

three_in_timestamps :
    let s = (run_stack pair three_in).shared in
    (s.timestamp (s.array 0) ≡ 1) × (s.timestamp (s.array 1) ≡ 0)
unfolding run_stack run step set_next link
three_in_timestamps = (refl, refl)

-- Thread 1 draws stack 1 and then stack 0, and pops the value of the higher one.
abbrev one_out : List (ℕ × ℕ)
one_out = three_in ++ ((1, 0) ∷ (1, 1) ∷ turns 1 0 5)

one_out_popped : (run_stack pair one_out).local 1 ≡ popped 7
unfolding run_stack run step set_next link
one_out_popped = refl

dra_stack-Replays_example :
    let s = run_stack pair one_out in
    (after : ℕ → List ℕ) × Holds s.shared.heap (tops_of s.shared) after
    × Replays (events (step pair) event one_out create_stack) (λ k. []) after
dra_stack-Replays_example = dra_stack-Replays pair one_out

-- What the stacks hold after three pushes.
abbrev held : ℕ → List ℕ
held = (dra_stack-Replays pair three_in).0

timestamp-length_example :
    let s = (run_stack pair three_in).shared in
    ((k : ℕ) → s.array k ≢ 0 → s.timestamp (s.array k) + 1 ≡ length (held k))
    × ((i j : ℕ)
        → s.array i ≢ 0
        → s.array j ≢ 0
        → s.timestamp (s.array i) < s.timestamp (s.array j)
        → length (held i) < length (held j))
timestamp-length_example =
    timestamp-length pair three_in held (omega arith) (dra_stack-Replays pair three_in).1
