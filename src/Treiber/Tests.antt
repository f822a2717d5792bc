-- ===== src/Treiber/Tests.antt =====
-- Runs of Treiber's stack, and the theorems at concrete schedules.
use semantic_relaxation_dcbo.Prelude.{ℕ, zero, suc, ◌≡◌, List, [], ◌++◌, true, refl}
use semantic_relaxation_dcbo.Machine.{run, turns}
use semantic_relaxation_dcbo.Nodes.Heap.{set_next, link}
use semantic_relaxation_dcbo.Nodes.Stacks.{Holds}
use semantic_relaxation_dcbo.Nodes.Threads.{Replays, events}
use semantic_relaxation_dcbo.Treiber.{
  delete_cas, deleted, deleted_empty, step, mstack_new, run_treiber,
}
use semantic_relaxation_dcbo.Treiber.Refine.{top_of, event, treiber-Replays, deleted_empty-Holds}

-- Thread 0 is about to push 5 when thread 1 pushes 6; it fails and tries again. Thread 2 is then
-- about to take 5 off.
abbrev contended : List (ℕ × ℕ)
contended = turns 0 5 3 ++ turns 1 6 4 ++ turns 0 5 4 ++ turns 2 0 3

contended_at_cas : (run_treiber contended).local 2 ≡ delete_cas 1 2
unfolding run_treiber run step set_next link
contended_at_cas = refl

treiber-Replays_example :
    let s = run_treiber contended in
    (after : ℕ → List ℕ) × Holds s.shared.heap (top_of s.shared) after
    × Replays (events step event contended mstack_new) (λ k. []) after
treiber-Replays_example = treiber-Replays contended

five : (run_treiber contended).shared.heap.val 1 ≡ 5
unfolding run_treiber run step set_next link
five = refl

-- After its compare-and-swap the thread frees the node, and only then reads its value.
freed_then_read :
    let s = run step (turns 2 0 3) (run_treiber contended) in
    (s.shared.freed 1 ≡ true) × (s.local 2 ≡ deleted 5)
unfolding run_treiber run step set_next link
freed_then_read = (refl, refl)

about_to_fail :
    (step 0 (run_treiber (turns 2 0 1)).shared ((run_treiber (turns 2 0 1)).local 2)).1
    ≡ deleted_empty
unfolding run_treiber run step set_next link
about_to_fail = refl

nothing_held : let s = run_treiber (turns 2 0 1) in Holds s.shared.heap (top_of s.shared) (λ k. [])
unfolding run_treiber run step set_next link
nothing_held zero = refl
nothing_held (suc k) = refl

abbrev no_values : ℕ → List ℕ
no_values k = []

deleted_empty-Holds_example : no_values 0 ≡ []
deleted_empty-Holds_example =
    deleted_empty-Holds (turns 2 0 1) 2 0 no_values nothing_held about_to_fail
