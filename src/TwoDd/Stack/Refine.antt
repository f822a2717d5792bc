-- ===== src/TwoDd/Stack/Refine.antt =====
-- Every interleaving of src/2Dd-stack is a run of an array of sequential stacks.
use semantic_relaxation_dcbo.Prelude.{
  ℕ, zero, suc, ◌<◌, ◌≡◌, ◌≢◌, true, false, List, [], arith, refl, sym, ◌∙◌, ◌==◌, Bool-cases, inl,
  inr, ==→eq, ==→ne, update,
}
use semantic_relaxation_dcbo.Nodes.Heap.{
  Heap, IsHeap, IsSeen, IsSeen-mono, Extends, Chain-IsSeen, linked_seen, set_next-next,
}
use semantic_relaxation_dcbo.Nodes.Stacks.{
  Holds, Event, no_event, pushed_on, popped_off, Owns, own_node, create-Kept, set_next-Kept,
  push-Kept, pop-Kept,
}
use semantic_relaxation_dcbo.Nodes.Threads.{
  Replays, events, TurnKept, quiet-TurnKept, StackInv, run-StackInv, run-Replays,
}
use semantic_relaxation_dcbo.TwoDd.Window.{
  Params, Windows, Thread, PutPc, put_enter, put_found, put_step, GetPc, get_enter, get_found,
  get_step,
}
use semantic_relaxation_dcbo.TwoDd.Window.Carried.{GetCarries, GetCarries-mono, get_step-GetCarries}
use semantic_relaxation_dcbo.TwoDd.Stack.{
  Descriptor, same_descriptor, put_count_of, get_count_of, splice, Shared, StackPc, idle, pushing,
  push_cae, pushed, popping, pop_cae, pop_val, popped, popped_empty, Local, do_cae, push_cae_step,
  pop_cae_step, push_step, pop_step, begin, step, create_stack, run_stack,
}

abbrev pub heap_of : Shared → Heap
heap_of s = s.heap

abbrev pub tops_of : Shared → ℕ → ℕ
tops_of s k = (s.array k).node

abbrev pub pc_event : Shared → ℕ → StackPc → StackPc → Event
pc_event s index (push_cae new_node d) pushed = pushed_on index (s.heap.val new_node)
pc_event s index (pop_cae d next) (pop_val node) = popped_off index (s.heap.val d.node)
pc_event s index _ _ = no_event

-- A push or a pop takes place where its compare-exchange succeeds.
abbrev pub event : Shared → Local → Local → Event
event s l l' = pc_event s l.thread.index l.pc l'.pc

abbrev pub owned_pc : StackPc → ℕ
owned_pc (pushing new_node _) = new_node
owned_pc (push_cae new_node _) = new_node
owned_pc _ = 0

-- The node that a thread has made and not pushed.
abbrev pub owned : Local → ℕ
owned l = owned_pc l.pc

abbrev pub KnowsPc : Shared → StackPc → Type 0
KnowsPc s (pushing new_node pc) = 0 < new_node
KnowsPc s (push_cae new_node d) = (0 < new_node) × (s.heap.next new_node ≡ d.node)
KnowsPc s (popping pc) = GetCarries (λ d. IsSeen s.heap d.node) pc
KnowsPc s (pop_cae d next) =
    (d.node ≢ 0) × (s.heap.linked d.node ≡ true) × (s.heap.next d.node ≡ next)
KnowsPc s _ = Unit

abbrev pub Knows : Shared → Local → Type 0
Knows s l = KnowsPc s l.pc

KnowsPc-stable :
    (s s' : Shared) (pc : StackPc)
    → Extends s.heap s'.heap
    → (0 < owned_pc pc → s'.heap.next (owned_pc pc) ≡ s.heap.next (owned_pc pc))
    → KnowsPc s pc
    → KnowsPc s' pc
KnowsPc-stable s s' (pushing new_node pc) g same k = k
KnowsPc-stable s s' (push_cae new_node d) g same k = (k.0, same k.0 ∙ k.1)
KnowsPc-stable s s' (popping pc) g same k =
    GetCarries-mono (λ d. IsSeen s.heap d.node) (λ d. IsSeen s'.heap d.node)
      (λ d. IsSeen-mono s.heap s'.heap g d.node) pc k
KnowsPc-stable s s' (pop_cae d next) g same k =
    (k.0, g.linked_same d.node k.1, g.next_same d.node k.1 ∙ k.2)
KnowsPc-stable s s' pc g same k = tt

pub Knows-stable :
    (s s' : Shared) (l : Local)
    → Extends s.heap s'.heap
    → (0 < owned l → s'.heap.next (owned l) ≡ s.heap.next (owned l))
    → Knows s l
    → Knows s' l
Knows-stable s s' l = KnowsPc-stable s s' l.pc

same_descriptor-node : (d e : Descriptor) → same_descriptor d e ≡ true → d.node ≡ e.node
same_descriptor-node d e h = ground arith

-- Where a descriptor is written, and where it is not.
node_here : (array : ℕ → Descriptor) (i : ℕ) (d : Descriptor) → (update array i d i).node ≡ d.node
node_here array i d = elim (Bool-cases (i == i)) [
  | inl e ↦ rw e refl
  | inr e ↦ absurd (==→ne i i e refl)
]

node_elsewhere :
    (array : ℕ → Descriptor) (i : ℕ) (d : Descriptor) (k : ℕ)
    → k ≢ i
    → (update array i d k).node ≡ (array k).node
node_elsewhere array i d k ne = elim (Bool-cases (i == k)) [
  | inl e ↦ absurd (ne (sym (==→eq i k e)))
  | inr e ↦ rw e refl
]

module _ (set : Params) where
  abbrev Turn : Shared → Local → Shared × Local → Type 0
  Turn = TurnKept (step set) event heap_of tops_of owned Knows

  module _ (s : Shared) (ok : IsHeap s.heap) (contents : ℕ → List ℕ)
      (holds : Holds s.heap (tops_of s) contents) (t : Thread) where
    abbrev at : StackPc → Local
    at pc = record { thread = t; pc = pc }

    -- A turn that at most moves a window.
    moved :
        (w : Windows) (t' : Thread) (pc pc' : StackPc)
        → owned_pc pc' ≡ owned_pc pc
        → Owns s.heap (owned_pc pc)
        → pc_event s t.index pc pc' ≡ no_event
        → KnowsPc (record s { windows = w }) pc'
        → Turn s (at pc) (record s { windows = w }, record { thread = t'; pc = pc' })
    moved w t' pc pc' same owns none_done k =
        quiet-TurnKept (step set) event heap_of tops_of owned Knows s (record s { windows = w })
          (at pc) (record { thread = t'; pc = pc' }) ok refl (λ k. refl) same owns none_done k

    -- A turn that leaves shared memory alone.
    unchanged :
        (pc pc' : StackPc)
        → owned_pc pc' ≡ owned_pc pc
        → Owns s.heap (owned_pc pc)
        → pc_event s t.index pc pc' ≡ no_event
        → KnowsPc s pc'
        → Turn s (at pc) (s, at pc')
    unchanged pc pc' same owns none_done k = moved s.windows t pc pc' same owns none_done k

    push_cae-Kept :
        (new_node : ℕ) (d : Descriptor)
        → Owns s.heap new_node
        → KnowsPc s (push_cae new_node d)
        → Turn s (at (push_cae new_node d)) (push_cae_step s t new_node d)
    unfolding push_cae_step do_cae
    push_cae-Kept new_node d owns (pos, next) =
        elim (Bool-cases (same_descriptor (s.array t.index) d)) [
          | inr e ↦
              rw (e, push_cae_step, do_cae)
                (unchanged (push_cae new_node d) (pushing new_node (put_enter true)) refl owns refl
                  pos)
          | inl e ↦
              rw (e, push_cae_step, do_cae)
                (record {
                  kept =
                      push-Kept s.heap ok (tops_of s) new_node (own_node s.heap new_node owns pos) _
                        t.index (next ∙ sym (same_descriptor-node (s.array t.index) d e))
                        (node_here s.array t.index _) (node_elsewhere s.array t.index _);
                  knows = tt;
                })
        ]

    pop_cae-Kept :
        (d : Descriptor) (next : ℕ)
        → KnowsPc s (pop_cae d next)
        → Turn s (at (pop_cae d next)) (pop_cae_step s t d next)
    unfolding pop_cae_step do_cae
    pop_cae-Kept d next (some_node, l, behind) =
        elim (Bool-cases (same_descriptor (s.array t.index) d)) [
          | inr e ↦
              rw (e, pop_cae_step, do_cae)
                (unchanged (pop_cae d next) (popping (get_enter true)) refl (inl refl) refl tt)
          | inl e ↦
              rw (e, pop_cae_step, do_cae)
                (record {
                  kept =
                      pop-Kept s.heap ok (tops_of s) _ t.index d.node
                        (same_descriptor-node (s.array t.index) d e) some_node
                        (node_here s.array t.index _ ∙ sym behind)
                        (node_elsewhere s.array t.index _);
                  knows = tt;
                })
        ]

    push_step-Kept :
        (draw new_node : ℕ) (pc : PutPc Descriptor)
        → Owns s.heap new_node
        → 0 < new_node
        → Turn s (at (pushing new_node pc)) (push_step set draw s t new_node pc)
    unfolding push_step
    push_step-Kept draw new_node (put_found d) owns pos =
        let p = own_node s.heap new_node owns pos in
        record {
          kept = set_next-Kept s.heap ok (tops_of s) new_node p d.node;
          knows = (pos, set_next-next s.heap ok new_node p d.node);
        }
    push_step-Kept draw new_node pc owns pos =
        let r = put_step put_count_of get_count_of set splice draw s.array s.windows t pc in
        moved r.windows r.thread (pushing new_node pc) (pushing new_node r.pc) refl owns refl pos

    all-IsSeen : (k : ℕ) → IsSeen s.heap (s.array k).node
    all-IsSeen k = Chain-IsSeen s.heap (s.array k).node (contents k) (holds k)

    pop_step-Kept :
        (draw : ℕ) (pc : GetPc Descriptor)
        → GetCarries (λ d. IsSeen s.heap d.node) pc
        → Turn s (at (popping pc)) (pop_step set draw s t pc)
    unfolding pop_step
    pop_step-Kept draw (get_found d) seen = elim (Bool-cases (d.node == 0)) [
      | inl e ↦
          rw (e, pop_step) (unchanged (popping (get_found d)) popped_empty refl (inl refl) refl tt)
      | inr e ↦
          let some_node = ==→ne d.node 0 e in
          rw (e, pop_step)
            (unchanged (popping (get_found d)) (pop_cae d (s.heap.next d.node)) refl (inl refl) refl
              (some_node, linked_seen s.heap d.node seen some_node, refl))
    ]
    pop_step-Kept draw pc seen =
        let r = get_step put_count_of get_count_of set splice draw s.array s.array s.windows t pc in
        moved r.windows r.thread (popping pc) (popping r.pc) refl (inl refl) refl (
          get_step-GetCarries put_count_of get_count_of set (λ d. IsSeen s.heap d.node) s.windows t
            splice (λ d e k. k) draw s.array s.array all-IsSeen pc seen)

    begin-Kept : (draw : ℕ) → Turn s (at idle) (begin set draw s t)
    unfolding begin
    begin-Kept zero = unchanged idle (popping (get_enter false)) refl (inl refl) refl tt
    begin-Kept (suc v) = record {
      kept = create-Kept s.heap ok (tops_of s) 0 (inl refl) (suc v);
      knows = ok.some_fresh;
    }

    step-Kept :
        (draw : ℕ) (pc : StackPc)
        → Owns s.heap (owned_pc pc)
        → KnowsPc s pc
        → Turn s (at pc) (step set draw s (at pc))
    unfolding step
    step-Kept draw idle owns k = begin-Kept draw
    step-Kept draw (pushing new_node pc) owns k = push_step-Kept draw new_node pc owns k
    step-Kept draw (push_cae new_node d) owns k = push_cae-Kept new_node d owns k
    step-Kept draw pushed owns k = unchanged pushed idle refl owns refl tt
    step-Kept draw (popping pc) owns k = pop_step-Kept draw pc k
    step-Kept draw (pop_cae d next) owns k = pop_cae-Kept d next k
    step-Kept draw (pop_val node) owns k =
        unchanged (pop_val node) (popped (s.heap.val node)) refl owns refl tt
    step-Kept draw (popped v) owns k = unchanged (popped v) idle refl owns refl tt
    step-Kept draw popped_empty owns k = unchanged popped_empty idle refl owns refl tt

  pub keeps :
      (c : ℕ) (s : Shared) (l : Local)
      → IsHeap s.heap
      → (contents : ℕ → List ℕ) → Holds s.heap (tops_of s) contents
      → Owns s.heap (owned l)
      → Knows s l
      → Turn s l (step set c s l)
  keeps c s l ok contents holds owns k = step-Kept s ok contents holds l.thread c l.pc owns k

  pub start_Inv : StackInv (step set) event heap_of tops_of owned Knows create_stack
  start_Inv = record {
    memory = (
      record { some_fresh = omega arith; null = refl; young = λ a le. refl },
      (λ k. []),
      (λ k. refl),
    );
    threads = λ i. record { owns = inl refl; knows = tt };
    apart = λ i j ne pos. absurd (omega arith);
  }

  pub run_stack-Inv :
      (schedule : List (ℕ × ℕ))
      → StackInv (step set) event heap_of tops_of owned Knows (run_stack set schedule)
  unfolding run_stack
  run_stack-Inv schedule =
      run-StackInv (step set) event heap_of tops_of owned Knows keeps Knows-stable schedule
        create_stack start_Inv

-- In every interleaving of any number of threads that push and pop: what the stacks of the array
-- hold is what sequential stacks hold after the same pushes and pops, each of which takes place at
-- the compare-exchange of its call that succeeds and on the stack of the thread's index, with each
-- pop giving the value at the top.
pub two_dd_stack-Replays :
    (set : Params) (schedule : List (ℕ × ℕ))
    → let s = run_stack set schedule in
      (after : ℕ → List ℕ) × Holds s.shared.heap (tops_of s.shared) after
      × Replays (events (step set) event schedule create_stack) (λ k. []) after
unfolding run_stack
two_dd_stack-Replays set schedule =
    run-Replays (step set) event heap_of tops_of owned Knows (keeps set) Knows-stable schedule
      create_stack (start_Inv set) (λ k. []) (λ k. refl)
