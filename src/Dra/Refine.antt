-- ===== src/Dra/Refine.antt =====
-- Every interleaving of src/stack-dra is a run of an array of sequential stacks.
use semantic_relaxation_dcbo.Prelude.{
  ℕ, zero, suc, ◌+◌, ◌<◌, ◌≡◌, ◌≢◌, true, ltb, List, [], arith, refl, sym, ◌∙◌, ◌==◌, Bool-cases,
  inl, inr, ==→eq, ==→ne, update,
}
use semantic_relaxation_dcbo.Nodes.Heap.{
  Heap, IsHeap, IsSeen, IsSeen-mono, Extends, Chain-IsSeen, linked_seen, set_next-next,
}
use semantic_relaxation_dcbo.Nodes.Stacks.{
  Holds, Event, no_event, pushed_on, popped_off, Owns, own_node, create-Kept, set_next-Kept,
  push-Kept, pop-Kept,
}
use semantic_relaxation_dcbo.Nodes.Threads.{
  Replays, events, TurnKept, quiet-TurnKept, StackInv, run-StackInv, run-Replays,
}
use semantic_relaxation_dcbo.Dra.{
  Params, Shared, Descriptor, DraPc, idle, push_first, push_next, push_compare, push_link, push_cae,
  pushed, pop_first, pop_next, pop_compare, pop_read, pop_cae, pop_val, popped, popped_empty,
  stack_cae, push_link_step, push_cae_step, pop_cae_step, drawn, push_loop, pop_loop,
  push_first_step, push_compare_step, pop_compare_step, pop_read_step, begin, step, create_stack,
  run_stack,
}

abbrev pub heap_of : Shared → Heap
heap_of s = s.heap

abbrev pub tops_of : Shared → ℕ → ℕ
tops_of s = s.array

-- A push or a pop takes place where its compare-exchange succeeds.
abbrev pub event : Shared → DraPc → DraPc → Event
event s (push_cae new_node d) pushed = pushed_on d.index (s.heap.val new_node)
event s (pop_cae d next) (pop_val node) = popped_off d.index (s.heap.val d.node)
event s _ _ = no_event

-- The node that a thread has made and not pushed.
abbrev pub owned : DraPc → ℕ
owned (push_first new_node) = new_node
owned (push_next new_node _ _) = new_node
owned (push_compare new_node _ _ _) = new_node
owned (push_link new_node _) = new_node
owned (push_cae new_node _) = new_node
owned _ = 0

abbrev pub Knows : Shared → DraPc → Type 0
Knows s (push_first new_node) = 0 < new_node
Knows s (push_next new_node i d) = (0 < new_node) × IsSeen s.heap d.node
Knows s (push_compare new_node i d d2) =
    (0 < new_node) × IsSeen s.heap d.node × IsSeen s.heap d2.node
Knows s (push_link new_node d) = (0 < new_node) × IsSeen s.heap d.node
Knows s (push_cae new_node d) = (0 < new_node) × (s.heap.next new_node ≡ d.node)
Knows s (pop_next i d) = IsSeen s.heap d.node
Knows s (pop_compare i d d2) = IsSeen s.heap d.node × IsSeen s.heap d2.node
Knows s (pop_read d) = IsSeen s.heap d.node
Knows s (pop_cae d next) =
    (d.node ≢ 0) × (s.heap.linked d.node ≡ true) × (s.heap.next d.node ≡ next)
Knows s _ = Unit

pub Knows-stable :
    (s s' : Shared) (pc : DraPc)
    → Extends s.heap s'.heap
    → (0 < owned pc → s'.heap.next (owned pc) ≡ s.heap.next (owned pc))
    → Knows s pc
    → Knows s' pc
Knows-stable s s' (push_first new_node) g same k = k
Knows-stable s s' (push_next new_node i d) g same k = (k.0, IsSeen-mono s.heap s'.heap g d.node k.1)
Knows-stable s s' (push_compare new_node i d d2) g same k =
    (k.0, IsSeen-mono s.heap s'.heap g d.node k.1, IsSeen-mono s.heap s'.heap g d2.node k.2)
Knows-stable s s' (push_link new_node d) g same k = (k.0, IsSeen-mono s.heap s'.heap g d.node k.1)
Knows-stable s s' (push_cae new_node d) g same k = (k.0, same k.0 ∙ k.1)
Knows-stable s s' (pop_next i d) g same k = IsSeen-mono s.heap s'.heap g d.node k
Knows-stable s s' (pop_compare i d d2) g same k =
    (IsSeen-mono s.heap s'.heap g d.node k.0, IsSeen-mono s.heap s'.heap g d2.node k.1)
Knows-stable s s' (pop_read d) g same k = IsSeen-mono s.heap s'.heap g d.node k
Knows-stable s s' (pop_cae d next) g same k =
    (k.0, g.linked_same d.node k.1, g.next_same d.node k.1 ∙ k.2)
Knows-stable s s' pc g same k = tt

pub array_here : (array : ℕ → ℕ) (i a : ℕ) → update array i a i ≡ a
array_here array i a = ground arith

pub array_elsewhere : (array : ℕ → ℕ) (i a k : ℕ) → k ≢ i → update array i a k ≡ array k
array_elsewhere array i a k ne = ground arith

module _ (set : Params) where
  abbrev Turn : Shared → DraPc → Shared × DraPc → Type 0
  Turn = TurnKept (step set) event heap_of tops_of owned Knows

  module _ (s : Shared) (ok : IsHeap s.heap) (contents : ℕ → List ℕ)
      (holds : Holds s.heap (tops_of s) contents) where
    -- A turn that leaves shared memory alone.
    unchanged :
        (pc pc' : DraPc)
        → owned pc' ≡ owned pc
        → Owns s.heap (owned pc)
        → event s pc pc' ≡ no_event
        → Knows s pc'
        → Turn s pc (s, pc')
    unchanged pc pc' same owns none_done k =
        quiet-TurnKept (step set) event heap_of tops_of owned Knows s s pc pc' ok refl (λ k. refl)
          same owns none_done k

    push_cae-Kept :
        (new_node : ℕ) (d : Descriptor)
        → Owns s.heap new_node
        → Knows s (push_cae new_node d)
        → Turn s (push_cae new_node d) (push_cae_step s new_node d)
    unfolding push_cae_step stack_cae
    push_cae-Kept new_node d owns (pos, next) = elim (Bool-cases (s.array d.index == d.node)) [
      | inr e ↦
          rw (e, push_cae_step, stack_cae)
            (unchanged (push_cae new_node d) (push_first new_node) refl owns refl pos)
      | inl e ↦
          rw (e, push_cae_step, stack_cae)
            (record {
              kept =
                  push-Kept s.heap ok (tops_of s) new_node (own_node s.heap new_node owns pos) _
                    d.index (next ∙ sym (==→eq _ _ e)) (array_here s.array d.index new_node)
                    (array_elsewhere s.array d.index new_node);
              knows = tt;
            })
    ]

    pop_cae-Kept :
        (d : Descriptor) (next : ℕ)
        → Knows s (pop_cae d next)
        → Turn s (pop_cae d next) (pop_cae_step s d next)
    unfolding pop_cae_step stack_cae
    pop_cae-Kept d next (some_node, l, behind) = elim (Bool-cases (s.array d.index == d.node)) [
      | inr e ↦
          rw (e, pop_cae_step, stack_cae)
            (unchanged (pop_cae d next) pop_first refl (inl refl) refl tt)
      | inl e ↦
          rw (e, pop_cae_step, stack_cae)
            (record {
              kept =
                  pop-Kept s.heap ok (tops_of s) _ d.index d.node (==→eq _ _ e) some_node
                    (array_here s.array d.index next ∙ sym behind)
                    (array_elsewhere s.array d.index next);
              knows = tt;
            })
    ]

    all-IsSeen : (k : ℕ) → IsSeen s.heap (s.array k)
    all-IsSeen k = Chain-IsSeen s.heap (s.array k) (contents k) (holds k)

    -- The loops go on with a stack that was read, or end with it.
    push_loop-Kept :
        (pc : DraPc) (new_node i : ℕ) (d : Descriptor)
        → owned pc ≡ new_node
        → Owns s.heap (owned pc)
        → ((pc' : DraPc) → event s pc pc' ≡ no_event)
        → 0 < new_node
        → IsSeen s.heap d.node
        → Turn s pc (s, push_loop set new_node i d)
    push_loop-Kept pc new_node i d same owns none_done pos seen =
        elim (Bool-cases (ltb i set.num_choices)) [
          | inl e ↦
              rw e (unchanged pc (push_next new_node i d) (sym same) owns (none_done _) (pos, seen))
          | inr e ↦
              rw e (unchanged pc (push_link new_node d) (sym same) owns (none_done _) (pos, seen))
        ]

    pop_loop-Kept :
        (pc : DraPc) (i : ℕ) (d : Descriptor)
        → owned pc ≡ 0
        → ((pc' : DraPc) → event s pc pc' ≡ no_event)
        → IsSeen s.heap d.node
        → Turn s pc (s, pop_loop set i d)
    pop_loop-Kept pc i d same none_done seen = elim (Bool-cases (ltb i set.num_choices)) [
      | inl e ↦ rw e (unchanged pc (pop_next i d) (sym same) (inl same) (none_done _) seen)
      | inr e ↦ rw e (unchanged pc (pop_read d) (sym same) (inl same) (none_done _) seen)
    ]

    push_first-Kept :
        (draw new_node : ℕ)
        → Owns s.heap new_node
        → 0 < new_node
        → Turn s (push_first new_node) (s, push_first_step set draw s new_node)
    unfolding push_first_step
    push_first-Kept draw new_node owns pos =
        let d = drawn set draw s in
        let seen = all-IsSeen d.index in
        elim (Bool-cases (d.node == 0)) [
          | inl e ↦
              rw (e, push_first_step)
                (unchanged (push_first new_node) (push_link new_node d) refl owns refl (pos, seen))
          | inr e ↦
              rw (e, push_first_step)
                (push_loop-Kept (push_first new_node) new_node 1 d refl owns (λ pc. refl) pos seen)
        ]

    push_compare-Kept :
        (new_node i : ℕ) (d d2 : Descriptor)
        → Owns s.heap new_node
        → Knows s (push_compare new_node i d d2)
        → Turn s (push_compare new_node i d d2) (s, push_compare_step set s new_node i d d2)
    unfolding push_compare_step
    push_compare-Kept new_node i d d2 owns (pos, seen, seen2) =
        let pc = push_compare new_node i d d2 in
        elim (Bool-cases (d2.node == 0)) [
          | inl e ↦
              rw (e, push_compare_step)
                (unchanged pc (push_link new_node d2) refl owns refl (pos, seen2))
          | inr e ↦ elim (Bool-cases (ltb (s.timestamp d2.node) (s.timestamp d.node))) [
            | inl f ↦
                rw (e, f, push_compare_step)
                  (push_loop-Kept pc new_node (i + 1) d2 refl owns (λ q. refl) pos seen2)
            | inr f ↦
                rw (e, f, push_compare_step)
                  (push_loop-Kept pc new_node (i + 1) d refl owns (λ q. refl) pos seen)
          ]
        ]

    pop_compare-Kept :
        (i : ℕ) (d d2 : Descriptor)
        → Knows s (pop_compare i d d2)
        → Turn s (pop_compare i d d2) (s, pop_compare_step set s i d d2)
    unfolding pop_compare_step
    pop_compare-Kept i d d2 (seen, seen2) =
        let pc = pop_compare i d d2 in
        let take = pop_loop-Kept pc (i + 1) d2 refl (λ q. refl) seen2 in
        let stay = pop_loop-Kept pc (i + 1) d refl (λ q. refl) seen in
        elim (Bool-cases (d.node == 0)) [
          | inl e ↦ rw (e, pop_compare_step) take
          | inr e ↦ elim (Bool-cases (d2.node == 0)) [
            | inl f ↦ rw (e, f, pop_compare_step) stay
            | inr f ↦ elim (Bool-cases (ltb (s.timestamp d.node) (s.timestamp d2.node))) [
              | inl g ↦ rw (e, f, g, pop_compare_step) take
              | inr g ↦ rw (e, f, g, pop_compare_step) stay
            ]
          ]
        ]

    pop_read-Kept :
        (d : Descriptor) → IsSeen s.heap d.node → Turn s (pop_read d) (s, pop_read_step set s d)
    unfolding pop_read_step
    pop_read-Kept d seen = elim (Bool-cases (d.node == 0)) [
      | inl e ↦ rw (e, pop_read_step) (unchanged (pop_read d) popped_empty refl (inl refl) refl tt)
      | inr e ↦
          let some_node = ==→ne d.node 0 e in
          rw (e, pop_read_step)
            (unchanged (pop_read d) (pop_cae d (s.heap.next d.node)) refl (inl refl) refl
              (some_node, linked_seen s.heap d.node seen some_node, refl))
    ]

    push_link-Kept :
        (new_node : ℕ) (d : Descriptor)
        → Owns s.heap new_node
        → 0 < new_node
        → Turn s (push_link new_node d) (push_link_step s new_node d)
    unfolding push_link_step
    push_link-Kept new_node d owns pos =
        let p = own_node s.heap new_node owns pos in
        record {
          kept = set_next-Kept s.heap ok (tops_of s) new_node p d.node;
          knows = (pos, set_next-next s.heap ok new_node p d.node);
        }

    begin-Kept : (draw : ℕ) → Turn s idle (begin set draw s)
    unfolding begin
    begin-Kept zero = unchanged idle pop_first refl (inl refl) refl tt
    begin-Kept (suc v) = record {
      kept = create-Kept s.heap ok (tops_of s) 0 (inl refl) (suc v);
      knows = ok.some_fresh;
    }

    step-Kept :
        (draw : ℕ) (pc : DraPc)
        → Owns s.heap (owned pc)
        → Knows s pc
        → Turn s pc (step set draw s pc)
    unfolding step
    step-Kept draw idle owns k = begin-Kept draw
    step-Kept draw (push_first new_node) owns k = push_first-Kept draw new_node owns k
    step-Kept draw (push_next new_node i d) owns k =
        let d2 = drawn set draw s in
        unchanged (push_next new_node i d) (push_compare new_node i d d2) refl owns refl
          (k.0, k.1, all-IsSeen d2.index)
    step-Kept draw (push_compare new_node i d d2) owns k = push_compare-Kept new_node i d d2 owns k
    step-Kept draw (push_link new_node d) owns k = push_link-Kept new_node d owns k.0
    step-Kept draw (push_cae new_node d) owns k = push_cae-Kept new_node d owns k
    step-Kept draw pushed owns k = unchanged pushed idle refl owns refl tt
    step-Kept draw pop_first owns k =
        let d = drawn set draw s in
        pop_loop-Kept pop_first 1 d refl (λ q. refl) (all-IsSeen d.index)
    step-Kept draw (pop_next i d) owns k =
        let d2 = drawn set draw s in
        unchanged (pop_next i d) (pop_compare i d d2) refl owns refl (k, all-IsSeen d2.index)
    step-Kept draw (pop_compare i d d2) owns k = pop_compare-Kept i d d2 k
    step-Kept draw (pop_read d) owns k = pop_read-Kept d k
    step-Kept draw (pop_cae d next) owns k = pop_cae-Kept d next k
    step-Kept draw (pop_val node) owns k =
        unchanged (pop_val node) (popped (s.heap.val node)) refl owns refl tt
    step-Kept draw (popped v) owns k = unchanged (popped v) idle refl owns refl tt
    step-Kept draw popped_empty owns k = unchanged popped_empty idle refl owns refl tt

  pub keeps :
      (c : ℕ) (s : Shared) (pc : DraPc)
      → IsHeap s.heap
      → (contents : ℕ → List ℕ) → Holds s.heap (tops_of s) contents
      → Owns s.heap (owned pc)
      → Knows s pc
      → Turn s pc (step set c s pc)
  keeps c s pc ok contents holds owns k = step-Kept s ok contents holds c pc owns k

  pub start_Inv : StackInv (step set) event heap_of tops_of owned Knows create_stack
  start_Inv = record {
    memory = (
      record { some_fresh = omega arith; null = refl; young = λ a le. refl },
      (λ k. []),
      (λ k. refl),
    );
    threads = λ i. record { owns = inl refl; knows = tt };
    apart = λ i j ne pos. absurd (omega arith);
  }

  pub run_stack-Inv :
      (schedule : List (ℕ × ℕ))
      → StackInv (step set) event heap_of tops_of owned Knows (run_stack set schedule)
  unfolding run_stack
  run_stack-Inv schedule =
      run-StackInv (step set) event heap_of tops_of owned Knows keeps Knows-stable schedule
        create_stack start_Inv

-- In every interleaving of any number of threads that push and pop, for any number of choices and
-- whatever is drawn: what the stacks of the array hold is what sequential stacks hold after the same
-- pushes and pops, each of which takes place at the compare-exchange of its call that succeeds and on
-- the stack that the call chose, with each pop giving the value at the top.
pub dra_stack-Replays :
    (set : Params) (schedule : List (ℕ × ℕ))
    → let s = run_stack set schedule in
      (after : ℕ → List ℕ) × Holds s.shared.heap (tops_of s.shared) after
      × Replays (events (step set) event schedule create_stack) (λ k. []) after
unfolding run_stack
dra_stack-Replays set schedule =
    run-Replays (step set) event heap_of tops_of owned Knows (keeps set) Knows-stable schedule
      create_stack (start_Inv set) (λ k. []) (λ k. refl)
