-- ===== src/TwoDc/Stack/Size.antt =====
-- The counts of src/2Dc-stack are the sizes of its stacks in every interleaving.
use native.Mathlib.Nat.{zero-add, mul-le-mul}
use semantic_relaxation_dcbo.Prelude.{
  ℕ, suc, ◌+◌, ◌-◌, ◌*◌, ◌^◌, ◌≤◌, ◌<◌, ◌≡◌, ◌≢◌, some, total, total-same, total-le-mul, List, [],
  ◌∷◌, length, arith, refl, sym, ap, subst, ◌∙◌, Bool-cases, inl, inr, ◌==◌, ==→eq, ==→ne,
}
use semantic_relaxation_dcbo.Machine.Pairs.{run-PairInv}
use semantic_relaxation_dcbo.Nodes.Heap.{Chain, Chain-same}
use semantic_relaxation_dcbo.Nodes.Stacks.{Holds, Event, no_event, pushed_on, popped_off, Follows}
use semantic_relaxation_dcbo.Nodes.Threads.{StackShared, StackLocal, Apart, Apart-swap, other_kept}
use semantic_relaxation_dcbo.Nodes.Size.{stack_size, stack_size-total}
use semantic_relaxation_dcbo.TwoDc.Window.{Params}
use semantic_relaxation_dcbo.TwoDc.Stack.{Shared, Local, pop_cae, step, create_stack, run_stack}
use semantic_relaxation_dcbo.TwoDc.Stack.Refine.{
  event, heap_of, tops_of, owned, KnowsPc, Knows, Knows-stable, keeps, start_Inv,
}
use semantic_relaxation_dcbo.TwoDc.Stack.Counts.{counts_of, Counted, step-Counts}

-- Each count is the number of the values that its stack holds.
abbrev pub Sized : Shared → (ℕ → List ℕ) → Type 0
Sized s contents = (k : ℕ) → length (contents k) ≡ counts_of s k

module _ (s s' : Shared) where
  -- The count of one stack changes with its size, and the others do not change.
  one_Sized :
      (before after : ℕ → List ℕ) (i : ℕ)
      → length (after i) ≡ counts_of s' i
      → ((k : ℕ) → k ≢ i → after k ≡ before k)
      → ((k : ℕ) → k ≢ i → counts_of s' k ≡ counts_of s k)
      → Sized s before
      → Sized s' after
  one_Sized before after i here same counts sized k = elim (Bool-cases (k == i)) [
    | inl e ↦
        let at : k ≡ i = ==→eq k i e in subst (λ j. length (after j) ≡ counts_of s' j) (sym at) here
    | inr e ↦
        let off : k ≢ i = ==→ne k i e in
        omega (arith, sized k, ap length (same k off), counts k off)
  ]

  Follows-Sized :
      (e : Event) (before after : ℕ → List ℕ)
      → Follows e before after
      → Counted e s s'
      → Sized s before
      → Sized s' after
  Follows-Sized no_event before after f c sized = λ k. omega (arith, sized k, ap length (f k), c k)
  Follows-Sized (pushed_on i v) before after f c sized =
      one_Sized before after i (omega (arith, sized i, ap length f.0, c.0)) f.1 c.1 sized
  Follows-Sized (popped_off i v) before after f c sized =
      one_Sized before after i (omega (arith, sized i, ap length f.0, c.0)) f.1 c.1 sized

  -- One turn adds at most one to a stack.
  Counted-le :
      (e : Event) (n : ℕ)
      → Counted e s s'
      → ((k : ℕ) → counts_of s k ≤ n)
      → (k : ℕ) → counts_of s' k ≤ n + 1
  Counted-le no_event n c few k = omega (arith, c k, few k)
  Counted-le (pushed_on i v) n c few k = elim (Bool-cases (k == i)) [
    | inl e ↦ omega (arith, c.0, few i, ap (counts_of s') (==→eq k i e))
    | inr e ↦ omega (arith, c.1 k (==→ne k i e), few k)
  ]
  Counted-le (popped_off i v) n c few k = elim (Bool-cases (k == i)) [
    | inl e ↦ omega (arith, c.0, few i, ap (counts_of s') (==→eq k i e))
    | inr e ↦ omega (arith, c.1 k (==→ne k i e), few k)
  ]

module _ (set : Params) where
  record Sound (n : ℕ) (s : Shared) : Type 0 where
    stacks : StackShared (step set) event heap_of tops_of owned Knows n s
    sized : Sized s stacks.1
    few : (k : ℕ) → counts_of s k ≤ n

  abbrev Known : Shared → Local → Type 0
  Known = StackLocal (step set) event heap_of tops_of owned Knows

  abbrev Separate : Local → Local → Type 0
  Separate = Apart (step set) event heap_of tops_of owned Knows

  -- A stack whose top is a node holds a value.
  some_left :
      (s : Shared) (k node : ℕ) (values : List ℕ)
      → node ≢ 0
      → node ≡ (s.array k).node
      → Chain s.heap (tops_of s k) values
      → length values ≡ counts_of s k
      → 0 < counts_of s k
  some_left s k node [] some_node top chain size = absurd (some_node (top ∙ chain))
  some_left s k node (v ∷ rest) some_node top chain size = omega arith

  module _ (limit : ℕ) (short : limit < 2 ^ 64) where
    own_Sound :
        (n c : ℕ) (s : Shared) (l : Local)
        → n < limit
        → Sound n s
        → Known s l
        → Sound (suc n) (step set c s l).0 × Known (step set c s l).0 (step set c s l).1
    own_Sound n c s l less v k =
        let (ok, contents, holds) = v.stacks in
        let i = l.thread.index in
        let r = keeps set c s l ok contents holds k.owns k.knows in
        let (after, held, follows) = r.kept.refines contents holds in
        let counted = step-Counts set s l.thread c l.pc (omega (arith, v.few i)) (λ d next at top.
          let node : KnowsPc s (pop_cae d next) = subst (KnowsPc s) at k.knows in
          some_left s i d.node (contents i) node.0 top (holds i) (v.sized i)) in
        (
          record {
            stacks = (r.kept.heap, after, held);
            sized = Follows-Sized s _ _ contents after follows counted v.sized;
            few = λ j. omega (arith, Counted-le s _ _ n counted v.few j);
          },
          record { owns = r.kept.owns; knows = r.knows },
        )

    other_Sound :
        (n c : ℕ) (s : Shared) (l q : Local)
        → n < limit
        → Sound n s
        → Known s l
        → Known s q
        → Separate l q
        → Known (step set c s l).0 q × Separate (step set c s l).1 q
    other_Sound n c s l q less v k m apart =
        other_kept (step set) event heap_of tops_of owned Knows (keeps set) Knows-stable n c s l q
          v.stacks k m apart

  run_stack-Sound :
      (schedule : List (ℕ × ℕ))
      → length schedule < 2 ^ 64
      → Sound (length schedule) (run_stack set schedule).shared
  unfolding run_stack
  run_stack-Sound schedule short =
      let start = start_Inv set in
      let v =
        run-PairInv (step set) Sound Known Separate (length schedule)
          (Apart-swap (step set) event heap_of tops_of owned Knows)
          (own_Sound (length schedule) short) (other_Sound (length schedule) short) 0 schedule
          (create_stack set.depth) (omega arith)
          (record {
            memory = record {
              stacks = (start.memory.0, (λ k. []), (λ k. refl));
              sized = λ k. refl;
              few = λ k. omega arith;
            };
            threads = start.threads;
            apart = start.apart;
          }) in
      (rw zero-add at v).memory

-- In every interleaving of fewer than `2 ^ 64` turns of any number of threads, the count of each
-- descriptor is the number of the values on its stack.
pub counts_exact :
    (set : Params) (schedule : List (ℕ × ℕ)) (contents : ℕ → List ℕ) (k : ℕ)
    → length schedule < 2 ^ 64
    → let s = (run_stack set schedule).shared in
      Holds s.heap (tops_of s) contents → (s.array k).count ≡ length (contents k)
counts_exact set schedule contents k short holds =
    let s = (run_stack set schedule).shared in
    let v = run_stack-Sound set schedule short in
    let (ok, known, held) = v.stacks in
    let same = Chain-same s.heap ok (tops_of s k) (contents k) (known k) (holds k) (held k) in
    sym (v.sized k) ∙ ap length (sym same)

-- In every interleaving of fewer than `2 ^ 32` turns on an array of fewer than `2 ^ 32` stacks,
-- `stack_size` comes to its end and returns the sum of the counts.
pub stack_size-counts :
    (set : Params) (schedule : List (ℕ × ℕ))
    → set.width < 2 ^ 32
    → length schedule < 2 ^ 32
    → let s = (run_stack set schedule).shared in
      stack_size (length schedule + 1) s.heap (tops_of s) set.width
      ≡ some (total (λ k. (s.array k).count) set.width)
stack_size-counts set schedule narrow short =
    let s = (run_stack set schedule).shared in
    let v = run_stack-Sound set schedule (omega arith) in
    let (ok, contents, holds) = v.stacks in
    let held =
      total-same (λ k. counts_of s k) (λ k. length (contents k)) set.width (λ k lt. v.sized k) in
    let few =
      total-le-mul (λ k. length (contents k)) set.width (length schedule)
        (λ k lt. omega (arith, v.sized k, v.few k)) in
    let fits : set.width * length schedule ≤ (2 ^ 32 - 1) * (2 ^ 32 - 1) =
      mul-le-mul {n₂ = 2 ^ 32 - 1} {m₂ = 2 ^ 32 - 1} (omega arith) (omega arith) in
    stack_size-total s.heap ok (length schedule + 1) (tops_of s) contents set.width holds
      (λ k lt. omega (arith, v.sized k, v.few k)) (omega (arith, few, fits))
    ∙ ap some held
