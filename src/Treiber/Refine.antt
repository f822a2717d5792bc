-- ===== src/Treiber/Refine.antt =====
-- Every interleaving of Treiber's stack is a run of a sequential stack.
use semantic_relaxation_dcbo.Prelude.{
  ℕ, zero, suc, ◌<◌, if◌then◌else◌, ◌≡◌, ◌≢◌, inl, inr, true, List, [], arith, refl, sym, update,
  ◌∙◌, ◌==◌, Bool-cases, ==→eq, ==→ne,
}
use semantic_relaxation_dcbo.Nodes.Heap.{
  Heap, IsHeap, Extends, Chain-IsSeen, Chain-same, linked_seen, link, set_next-next,
}
use semantic_relaxation_dcbo.Nodes.Stacks.{
  Holds, Event, no_event, pushed_on, popped_off, Owns, own_node, create-Kept, set_next-Kept,
  push-Kept, pop-Kept,
}
use semantic_relaxation_dcbo.Nodes.Threads.{
  Replays, events, TurnKept, quiet-TurnKept, StackInv, run-StackInv, run-Replays,
}
use semantic_relaxation_dcbo.Treiber.{
  Shared, TreiberPc, idle, insert_read, insert_next, insert_cas, inserted, delete_read, delete_next,
  delete_cas, delete_free, delete_val, deleted, deleted_empty, step, cas_top, insert_cas_step,
  delete_cas_step, mstack_new, run_treiber,
}

-- The stack is an array of one.
abbrev pub heap_of : Shared → Heap
heap_of s = s.heap

abbrev pub top_of : Shared → ℕ → ℕ
top_of s zero = s.top
top_of s (suc k) = 0

-- A push or a pop takes place where its compare-and-swap succeeds.
abbrev pub event : Shared → TreiberPc → TreiberPc → Event
event s (insert_cas node top) inserted = pushed_on 0 (s.heap.val node)
event s (delete_cas top next) (delete_free node) = popped_off 0 (s.heap.val top)
event s _ _ = no_event

-- The node that a thread has made and not pushed.
abbrev owned : TreiberPc → ℕ
owned (insert_read node) = node
owned (insert_next node _) = node
owned (insert_cas node _) = node
owned _ = 0

abbrev Knows : Shared → TreiberPc → Type 0
Knows s (insert_read node) = 0 < node
Knows s (insert_next node top) = 0 < node
Knows s (insert_cas node top) = (0 < node) × (s.heap.next node ≡ top)
Knows s (delete_next top) = (top ≢ 0) × (s.heap.linked top ≡ true)
Knows s (delete_cas top next) = (top ≢ 0) × (s.heap.linked top ≡ true) × (s.heap.next top ≡ next)
Knows s _ = Unit

Knows-stable :
    (s s' : Shared) (pc : TreiberPc)
    → Extends s.heap s'.heap
    → (0 < owned pc → s'.heap.next (owned pc) ≡ s.heap.next (owned pc))
    → Knows s pc
    → Knows s' pc
Knows-stable s s' (insert_read node) g same k = k
Knows-stable s s' (insert_next node top) g same k = k
Knows-stable s s' (insert_cas node top) g same k = (k.0, same k.0 ∙ k.1)
Knows-stable s s' (delete_next top) g same k = (k.0, g.linked_same top k.1)
Knows-stable s s' (delete_cas top next) g same k =
    (k.0, g.linked_same top k.1, g.next_same top k.1 ∙ k.2)
Knows-stable s s' pc g same k = tt

abbrev Turn : Shared → TreiberPc → Shared × TreiberPc → Type 0
Turn = TurnKept step event heap_of top_of owned Knows

module _ (s : Shared) (ok : IsHeap s.heap) (contents : ℕ → List ℕ)
    (holds : Holds s.heap (top_of s) contents) where
  -- A turn that leaves shared memory alone.
  unchanged :
      (pc pc' : TreiberPc)
      → owned pc' ≡ owned pc
      → Owns s.heap (owned pc)
      → event s pc pc' ≡ no_event
      → Knows s pc'
      → Turn s pc (s, pc')
  unchanged pc pc' same owns none_done k =
      quiet-TurnKept step event heap_of top_of owned Knows s s pc pc' ok refl (λ k. refl) same owns
        none_done k

  insert_cas-Kept :
      (node top : ℕ)
      → Owns s.heap node
      → (0 < node) × (s.heap.next node ≡ top)
      → Turn s (insert_cas node top) (insert_cas_step s node top)
  unfolding insert_cas_step cas_top
  insert_cas-Kept node top owns (pos, next) = elim (Bool-cases (s.top == top)) [
    | inr e ↦
        rw (e, insert_cas_step, cas_top)
          (unchanged (insert_cas node top) (insert_read node) refl owns refl pos)
    | inl e ↦
        rw (e, insert_cas_step, cas_top)
          (record {
            kept =
                push-Kept s.heap ok (top_of s) node (own_node s.heap node owns pos) _ 0
                  (next ∙ sym (==→eq s.top top e)) refl elsewhere;
            knows = tt;
          })
  ]
    where
      elsewhere :
          (k : ℕ) → k ≢ 0 → top_of (record s { top = node; heap = link s.heap node }) k ≡ top_of s k
      elsewhere zero ne = absurd (ne refl)
      elsewhere (suc k) ne = refl

  delete_cas-Kept :
      (top next : ℕ)
      → Knows s (delete_cas top next)
      → Turn s (delete_cas top next) (delete_cas_step s top next)
  unfolding delete_cas_step cas_top
  delete_cas-Kept top next (some_node, l, behind) = elim (Bool-cases (s.top == top)) [
    | inr e ↦
        rw (e, delete_cas_step, cas_top)
          (unchanged (delete_cas top next) delete_read refl (inl refl) refl tt)
    | inl e ↦
        rw (e, delete_cas_step, cas_top)
          (record {
            kept =
                pop-Kept s.heap ok (top_of s) _ 0 top (==→eq s.top top e) some_node (sym behind)
                  elsewhere;
            knows = tt;
          })
  ]
    where
      elsewhere : (k : ℕ) → k ≢ 0 → top_of (record s { top = next }) k ≡ top_of s k
      elsewhere zero ne = absurd (ne refl)
      elsewhere (suc k) ne = refl

  delete_read-Kept : Turn s delete_read (s, if s.top == 0 then deleted_empty else delete_next s.top)
  delete_read-Kept = elim (Bool-cases (s.top == 0)) [
    | inl e ↦ rw e (unchanged delete_read deleted_empty refl (inl refl) refl tt)
    | inr e ↦
        let some_node = ==→ne s.top 0 e in
        let seen = Chain-IsSeen s.heap s.top (contents 0) (holds 0) in
        rw e (
          unchanged delete_read (delete_next s.top) refl (inl refl) refl
            (some_node, linked_seen s.heap s.top seen some_node))
  ]

  step-Kept :
      (draw : ℕ) (pc : TreiberPc) → Owns s.heap (owned pc) → Knows s pc → Turn s pc (step draw s pc)
  unfolding step
  step-Kept zero idle owns k = unchanged idle delete_read refl owns refl tt
  step-Kept (suc v) idle owns k = record {
    kept = create-Kept s.heap ok (top_of s) 0 (inl refl) (suc v);
    knows = ok.some_fresh;
  }
  step-Kept draw (insert_read node) owns k =
      unchanged (insert_read node) (insert_next node s.top) refl owns refl k
  step-Kept draw (insert_next node top) owns k = record {
    kept = set_next-Kept s.heap ok (top_of s) node (own_node s.heap node owns k) top;
    knows = (k, set_next-next s.heap ok node (own_node s.heap node owns k) top);
  }
  step-Kept draw (insert_cas node top) owns k = insert_cas-Kept node top owns k
  step-Kept draw inserted owns k = unchanged inserted idle refl owns refl tt
  step-Kept draw delete_read owns k = delete_read-Kept
  step-Kept draw (delete_next top) owns k =
      unchanged (delete_next top) (delete_cas top (s.heap.next top)) refl owns refl (k.0, k.1, refl)
  step-Kept draw (delete_cas top next) owns k = delete_cas-Kept top next k
  step-Kept draw (delete_free top) owns k =
      quiet-TurnKept step event heap_of top_of owned Knows s
        (record s { freed = update s.freed top true }) (delete_free top) (delete_val top) ok refl
        elsewhere refl owns refl tt
    where
      elsewhere : (k : ℕ) → top_of (record s { freed = update s.freed top true }) k ≡ top_of s k
      elsewhere zero = refl
      elsewhere (suc k) = refl
  step-Kept draw (delete_val top) owns k =
      unchanged (delete_val top) (deleted (s.heap.val top)) refl owns refl tt
  step-Kept draw (deleted v) owns k = unchanged (deleted v) idle refl owns refl tt
  step-Kept draw deleted_empty owns k = unchanged deleted_empty idle refl owns refl tt

start_Holds : Holds mstack_new.shared.heap (top_of mstack_new.shared) (λ k. [])
start_Holds zero = refl
start_Holds (suc k) = refl

start_Inv : StackInv step event heap_of top_of owned Knows mstack_new
start_Inv = record {
  memory = (
    record { some_fresh = omega arith; null = refl; young = λ a le. refl },
    (λ k. []),
    start_Holds,
  );
  threads = λ i. record { owns = inl refl; knows = tt };
  apart = λ i j ne pos. absurd (omega arith);
}

keeps :
    (c : ℕ) (s : Shared) (pc : TreiberPc)
    → IsHeap s.heap
    → (contents : ℕ → List ℕ) → Holds s.heap (top_of s) contents
    → Owns s.heap (owned pc)
    → Knows s pc
    → Turn s pc (step c s pc)
keeps c s pc ok contents holds owns k = step-Kept s ok contents holds c pc owns k

-- In every interleaving of any number of threads that insert and delete: what the stack holds is
-- what a sequential stack holds after the same pushes and pops, each of which takes place at the
-- compare-and-swap of its call that succeeds, with each pop giving the value at the top.
pub treiber-Replays :
    (schedule : List (ℕ × ℕ))
    → let s = run_treiber schedule in
      (after : ℕ → List ℕ) × Holds s.shared.heap (top_of s.shared) after
      × Replays (events step event schedule mstack_new) (λ k. []) after
unfolding run_treiber
treiber-Replays schedule =
    run-Replays step event heap_of top_of owned Knows keeps Knows-stable schedule mstack_new
      start_Inv (λ k. []) start_Holds

run_treiber-Inv :
    (schedule : List (ℕ × ℕ))
    → StackInv step event heap_of top_of owned Knows (run_treiber schedule)
unfolding run_treiber
run_treiber-Inv schedule =
    run-StackInv step event heap_of top_of owned Knows keeps Knows-stable schedule mstack_new
      start_Inv

empty_top : (s : Shared) (c : ℕ) (pc : TreiberPc) → (step c s pc).1 ≡ deleted_empty → s.top ≡ 0
unfolding step insert_cas_step delete_cas_step cas_top
empty_top s zero idle e = absurd cc
empty_top s (suc v) idle e = absurd cc
empty_top s c (insert_cas node top) e = elim (Bool-cases (s.top == top)) [
  | inl f ↦ absurd (cc (rw (f, step, insert_cas_step, cas_top) at e))
  | inr f ↦ absurd (cc (rw (f, step, insert_cas_step, cas_top) at e))
]
empty_top s c delete_read e = elim (Bool-cases (s.top == 0)) [
  | inl f ↦ ==→eq s.top 0 f
  | inr f ↦ absurd (cc (rw (f, step) at e))
]
empty_top s c (delete_cas top next) e = elim (Bool-cases (s.top == top)) [
  | inl f ↦ absurd (cc (rw (f, step, delete_cas_step, cas_top) at e))
  | inr f ↦ absurd (cc (rw (f, step, delete_cas_step, cas_top) at e))
]
empty_top s c pc e = absurd cc

-- In every interleaving: a turn in which `mstack_treiber_delete` settles that the stack is empty
-- finds it to hold no value.
pub deleted_empty-Holds :
    (schedule : List (ℕ × ℕ)) (i c : ℕ) (contents : ℕ → List ℕ)
    → let s = run_treiber schedule in
      Holds s.shared.heap (top_of s.shared) contents
      → (step c s.shared (s.local i)).1 ≡ deleted_empty
      → contents 0 ≡ []
deleted_empty-Holds schedule i c contents holds e =
    let s = run_treiber schedule in
    let v = run_treiber-Inv schedule in
    let none = empty_top s.shared c (s.local i) e in
    Chain-same s.shared.heap v.memory.0 s.shared.top (contents 0) [] (holds 0) none
