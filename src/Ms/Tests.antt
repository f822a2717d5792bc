-- ===== src/Ms/Tests.antt =====
-- Runs of the MS queue, and the theorems at concrete schedules.
use semantic_relaxation_dcbo.Prelude.{
  ℕ, zero, suc, ◌+◌, ◌^◌, ◌<◌, length, ◌≡◌, List, [], ◌∷◌, ◌++◌, refl, arith,
}
use semantic_relaxation_dcbo.Machine.{run, turn, turns}
use native.Mathlib.Numerals.{add-one}
use semantic_relaxation_dcbo.Dcbo.Partial.{IsHistory}
use semantic_relaxation_dcbo.Ms.Queue.{ms_partial, view, ms_queues-IsHistory}
use semantic_relaxation_dcbo.Ms.Values.{dequeued-val, enqueued-val}
use semantic_relaxation_dcbo.Ms.Takes.{deq_head-contents}
use semantic_relaxation_dcbo.Ms.{
  Descriptor, Shared, idle, enq_tail_node, enq_link, enq_finish, deq_val_node, deq_val,
  ms_enq_count, ms_deq_count, run_queue, step, dequeued, dequeued_empty, ms_queue_size,
}
use semantic_relaxation_dcbo.Ms.Refine.{
  contents, QueueStep, turn-QueueStep, dequeued_empty-contents,
}

-- Thread 0 enqueues 5 and thread 1 enqueues 6; thread 1 has to help, since thread 0 stops before it
-- moves the tail.
abbrev two_in : List (ℕ × ℕ)
two_in = turns 0 5 5 ++ turns 1 6 12

two_in-contents :
    let s = (run_queue two_in).shared in (contents s ≡ 5 ∷ 6 ∷ []) × (ms_queue_size s ≡ 2)
unfolding run_queue run step contents ms_queue_size
two_in-contents = (refl, refl)

-- Thread 2 dequeues.
abbrev one_out : List (ℕ × ℕ)
one_out = two_in ++ turns 2 0 9

one_out-contents :
    let s = run_queue one_out in (contents s.shared ≡ 6 ∷ []) × (s.local 2 ≡ dequeued 5)
unfolding run_queue run step contents
one_out-contents = (refl, refl)

turn-QueueStep_example :
    let s = run_queue (turns 0 5 5) in QueueStep s.shared (s.local 0) (step 5 s.shared (s.local 0))
turn-QueueStep_example = turn-QueueStep (turns 0 5 5) 0 5 (omega arith)

-- Thread 2 is about to compare the head and the tail of a new queue.
about_to_fail :
    (step 0 (run_queue (turns 2 0 5)).shared ((run_queue (turns 2 0 5)).local 2)).1 ≡ dequeued_empty
unfolding run_queue run step
about_to_fail = refl

dequeued_empty-contents_example : contents (run_queue (turns 2 0 5)).shared ≡ []
dequeued_empty-contents_example =
    dequeued_empty-contents (turns 2 0 5) 2 0 (omega arith) about_to_fail

abbrev first_head : Descriptor
first_head = record { node = 1; count = 0 }

abbrev about_to_take : List (ℕ × ℕ)
about_to_take = two_in ++ turns 2 0 6

takes :
    (step 0 (run_queue about_to_take).shared ((run_queue about_to_take).local 2)).1
    ≡ deq_val_node first_head
unfolding run_queue run step
takes = refl

deq_head-contents_example :
    let s = run_queue about_to_take in
    contents s.shared ≡ s.shared.val (s.shared.next 1) ∷ contents (turn step s 2 0).shared
deq_head-contents_example = deq_head-contents about_to_take 2 0 first_head (omega arith) takes

-- Thread 2 takes the node 2, and thread 0 enqueues again before thread 2 reads the value.
dequeued-val_example :
    let s = run_queue about_to_take in
    let s' = run step (turns 0 7 4) (turn step s 2 0) in
    (s'.local 2 ≡ deq_val_node first_head
      → (step 0 s'.shared (s'.local 2)).1 ≡ deq_val (s.shared.next 1))
    × (s'.local 2 ≡ deq_val (s.shared.next 1)
        → (step 0 s'.shared (s'.local 2)).1 ≡ dequeued (s.shared.val (s.shared.next 1)))
dequeued-val_example = dequeued-val about_to_take (turns 0 7 4) 2 0 0 first_head (omega arith) takes

abbrev first_tail : Descriptor
first_tail = record { node = 1; count = 0 }

starts_idle : (run_queue []).local 0 ≡ idle
unfolding run_queue run
starts_idle = refl

enqueued-val_example :
    let node = (run_queue []).shared.fresh in
    let s' = run step (turns 0 0 3) (turn step (run_queue []) 0 5) in
    let r = step 0 s'.shared (s'.local 0) in
    ((turn step (run_queue []) 0 5).local 0 ≡ enq_tail_node node)
    × (s'.shared.val node ≡ 5)
    × (s'.local 0 ≡ enq_link node first_tail
        → r.1 ≡ enq_finish node first_tail
        → r.0.next s'.shared.tail.node ≡ node)
enqueued-val_example = enqueued-val [] (turns 0 0 3) 0 4 0 first_tail (omega arith) starts_idle

-- Two queues: before the second access of a call two values are put in the one with index 0.
abbrev schedules : ℕ → ℕ → List (ℕ × ℕ)
schedules zero j = []
schedules (suc k) zero = two_in
schedules (suc k) (suc j) = []

abbrev more : ℕ → ℕ → List (ℕ × ℕ)
more zero zero = two_in
more k j = []

schedules_short : (k j : ℕ) → length (schedules k j) < 2 ^ 64
schedules_short zero j = omega arith
schedules_short (suc k) zero = omega arith
schedules_short (suc k) (suc j) = omega arith

schedules_go_on : (k j : ℕ) → schedules (k + 1) j ≡ schedules k j ++ more k j
schedules_go_on zero zero = refl
schedules_go_on zero (suc j) = refl
schedules_go_on (suc k) zero = rw add-one refl
schedules_go_on (suc k) (suc j) = rw add-one refl

abbrev memory : ℕ → ℕ → Shared
memory k j = (run_queue (schedules k j)).shared

ms_queues-IsHistory_example :
    IsHistory ms_partial (λ k j. view (memory k j))
    × ((k j : ℕ)
        → (ms_partial.queue_length (view (memory k j)) ≡ ms_queue_size (memory k j))
          × (ms_partial.tail_version (view (memory k j)) ≡ ms_enq_count (memory k j))
          × (ms_partial.enq_count (view (memory k j)) ≡ ms_enq_count (memory k j))
          × (ms_partial.deq_count (view (memory k j)) ≡ ms_deq_count (memory k j)))
ms_queues-IsHistory_example = ms_queues-IsHistory schedules more schedules_short schedules_go_on
