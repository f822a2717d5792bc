-- ===== src/TwoDd/Stack/Bounds.antt =====
-- The stacks of src/2Dd-stack stay close together in every interleaving.
use native.Mathlib.Nat.{zero-add, mul-le-mul}
use semantic_relaxation_dcbo.Prelude.{
  ℕ, suc, ◌+◌, ◌-◌, ◌*◌, some, total, total-same, total-le-mul, ◌^◌, ◌≤◌, ◌<◌, ◌≡◌, ◌≢◌, List, [],
  ◌∷◌, length, arith, refl, sym, ap, subst, ◌∙◌, Bool-cases, inl, inr, ◌==◌, ==→eq, ==→ne,
}
use semantic_relaxation_dcbo.Machine.Pairs.{PairInv, run-PairInv}
use semantic_relaxation_dcbo.Nodes.Heap.{Chain, Chain-same}
use semantic_relaxation_dcbo.Nodes.Stacks.{Holds, Event, no_event, pushed_on, popped_off, Follows}
use semantic_relaxation_dcbo.Nodes.Threads.{StackShared, StackLocal, Apart, Apart-swap, other_kept}
use semantic_relaxation_dcbo.Nodes.Size.{stack_size, stack_size-total}
use semantic_relaxation_dcbo.TwoDd.Window.{Params}
use semantic_relaxation_dcbo.TwoDd.Stack.{Shared, Local, pop_cae, step, create_stack, run_stack}
use semantic_relaxation_dcbo.TwoDd.Stack.Refine.{
  event, heap_of, tops_of, owned, KnowsPc, Knows, Knows-stable, keeps,
}
use semantic_relaxation_dcbo.TwoDd.Stack.Counts.{
  puts_of, gets_of, Counted, IsCounted, LocalCounts, CountKept, LocalCounts-mono,
}
use semantic_relaxation_dcbo.TwoDd.Stack.Steps.{step-CountKept}

-- A stack holds as many values as were pushed on it and not popped off.
abbrev pub Sized : Shared → (ℕ → List ℕ) → Type 0
Sized s contents = (k : ℕ) → length (contents k) + gets_of s k ≡ puts_of s k

Follows-Sized :
    (s s' : Shared) (e : Event) (before after : ℕ → List ℕ)
    → Follows e before after
    → Counted e s s'
    → Sized s before
    → Sized s' after
Follows-Sized s s' no_event before after f c sized k =
    omega (arith, sized k, ap length (f k), c.0 k, c.1 k)
Follows-Sized s s' (pushed_on i v) before after f c sized k = elim (Bool-cases (k == i)) [
  | inl e ↦
      let at : k ≡ i = ==→eq k i e in
      subst (λ j. length (after j) + gets_of s' j ≡ puts_of s' j) (sym at)
        (omega (arith, sized i, ap length f.0, c.0, c.2 i))
  | inr e ↦
      let off : k ≢ i = ==→ne k i e in
      omega (arith, sized k, ap length (f.1 k off), c.1 k off, c.2 k)
]
Follows-Sized s s' (popped_off i v) before after f c sized k = elim (Bool-cases (k == i)) [
  | inl e ↦
      let at : k ≡ i = ==→eq k i e in
      subst (λ j. length (after j) + gets_of s' j ≡ puts_of s' j) (sym at)
        (omega (arith, sized i, ap length f.0, c.0, c.2 i))
  | inr e ↦
      let off : k ≢ i = ==→ne k i e in
      omega (arith, sized k, ap length (f.1 k off), c.1 k off, c.2 k)
]

module _ (set : Params) where
  pub record Sound (n : ℕ) (s : Shared) : Type 0 where
    pub stacks : StackShared (step set) event heap_of tops_of owned Knows n s
    pub sized : Sized s stacks.1
    pub counted : IsCounted set n s

  pub record Known (s : Shared) (l : Local) : Type 0 where
    pub node : StackLocal (step set) event heap_of tops_of owned Knows s l
    pub counts : LocalCounts set s l

  -- A stack whose top is a node holds a value.
  some_left :
      (s : Shared) (k node : ℕ) (values : List ℕ)
      → node ≢ 0
      → node ≡ (s.array k).node
      → Chain s.heap (tops_of s k) values
      → length values + gets_of s k ≡ puts_of s k
      → gets_of s k < puts_of s k
  some_left s k node [] some_node top chain size = absurd (some_node (top ∙ chain))
  some_left s k node (v ∷ rest) some_node top chain size = omega arith

  module _ (limit : ℕ) (short : limit < 2 ^ 32) (shallow : limit + 2 * set.depth ≤ 2 ^ 64) where
    step-CountKept-Sound :
        (n c : ℕ) (s : Shared) (l : Local)
        → n < limit
        → Sound n s
        → Known s l
        → CountKept set n s l (step set c s l)
    step-CountKept-Sound n c s l few v k =
        let (ok, contents, holds) = v.stacks in
        let i = l.thread.index in
        step-CountKept set n s l.thread (omega arith) (omega arith) v.counted k.counts.behind c l.pc
          k.counts.knows
          (λ d next at top.
            let node : KnowsPc s (pop_cae d next) = subst (KnowsPc s) at k.node.knows in
            some_left s i d.node (contents i) node.0 top (holds i) (v.sized i))

    own_Sound :
        (n c : ℕ) (s : Shared) (l : Local)
        → n < limit
        → Sound n s
        → Known s l
        → Sound (suc n) (step set c s l).0 × Known (step set c s l).0 (step set c s l).1
    own_Sound n c s l few v k =
        let (ok, contents, holds) = v.stacks in
        let r = keeps set c s l ok contents holds k.node.owns k.node.knows in
        let (after, held, follows) = r.kept.refines contents holds in
        let q = step-CountKept-Sound n c s l few v k in
        (
          record {
            stacks = (r.kept.heap, after, held);
            sized = Follows-Sized s _ _ contents after follows q.counts v.sized;
            counted = q.counted;
          },
          record { node = record { owns = r.kept.owns; knows = r.knows }; counts = q.known },
        )

    other_Sound :
        (n c : ℕ) (s : Shared) (l q : Local)
        → n < limit
        → Sound n s
        → Known s l
        → Known s q
        → Apart (step set) event heap_of tops_of owned Knows l q
        → Known (step set c s l).0 q
          × Apart (step set) event heap_of tops_of owned Knows (step set c s l).1 q
    other_Sound n c s l q few v k m apart =
        let (node, still) =
          other_kept (step set) event heap_of tops_of owned Knows (keeps set) Knows-stable n c s l q
            v.stacks k.node m.node apart in
        (
          record {
            node = node;
            counts =
                LocalCounts-mono set s _ (step-CountKept-Sound n c s l few v k).grows q m.counts;
          },
          still,
        )

  start-PairInv :
      0 < set.width
      → set.width < 2 ^ 32
      → PairInv Sound Known (Apart (step set) event heap_of tops_of owned Knows) 0 create_stack
  start-PairInv wide narrow = record {
    memory = record {
      stacks = (
        record { some_fresh = omega arith; null = refl; young = λ a le. refl },
        (λ k. []),
        (λ k. refl),
      );
      sized = λ k. refl;
      counted = record {
        bounded = record {
          puts_le = λ k lt. omega arith;
          le_puts = λ k lt. omega arith;
          gets-le-puts = λ k lt. omega arith;
          le_gets = λ k lt. omega arith;
          ahead = (0, omega arith);
        };
        few = λ k. omega arith;
      };
    };
    threads = λ i. record {
      node = record { owns = inl refl; knows = tt };
      counts = record {
        behind = record {
          index = wide;
          narrow = narrow;
          put_max = omega arith;
          get_max = omega arith;
        };
        knows = tt;
      };
    };
    apart = λ i j ne pos. absurd (omega arith);
  }

  pub run_stack-PairInv :
      (schedule : List (ℕ × ℕ))
      → 0 < set.width
      → set.width < 2 ^ 32
      → length schedule < 2 ^ 32
      → length schedule + 2 * set.depth ≤ 2 ^ 64
      → PairInv Sound Known
          (Apart (step set) event heap_of tops_of owned Knows)
          (length schedule)
          (run_stack set schedule)
  unfolding run_stack
  run_stack-PairInv schedule wide narrow short shallow =
      let v =
        run-PairInv (step set) Sound Known (Apart (step set) event heap_of tops_of owned Knows)
          (length schedule) (Apart-swap (step set) event heap_of tops_of owned Knows)
          (own_Sound (length schedule) short shallow) (other_Sound (length schedule) short shallow)
          0 schedule create_stack (omega arith) (start-PairInv wide narrow) in
      rw zero-add at v

-- For a width from 1 on that `random_index` can take, in every interleaving of any number of threads
-- of fewer than `2 ^ 32` turns, and of at most `2 ^ 64 - 2 * depth`: a stack of the array holds as
-- many values as were pushed on it and not popped off; no stack has been pushed on more than `depth`
-- times oftener than another; no push is past the put window; and the get window is at most two
-- depths past any stack's pops and not past the put window.
pub stacks_close :
    (set : Params) (schedule : List (ℕ × ℕ))
    → 0 < set.width
    → set.width < 2 ^ 32
    → length schedule < 2 ^ 32
    → length schedule + 2 * set.depth ≤ 2 ^ 64
    → (contents : ℕ → List ℕ) (i j : ℕ) → i < set.width
    → j < set.width
    → let s = (run_stack set schedule).shared in
      Holds s.heap (tops_of s) contents
      → (length (contents i) + gets_of s i ≡ puts_of s i)
        × (puts_of s i ≤ puts_of s j + set.depth)
        × (puts_of s i ≤ s.windows.put_max)
        × (s.windows.get_max ≤ gets_of s i + 2 * set.depth)
        × (s.windows.get_max ≤ s.windows.put_max)
stacks_close set schedule wide narrow short shallow contents i j i_in j_in holds =
    let s = (run_stack set schedule).shared in
    let v = (run_stack-PairInv set schedule wide narrow short shallow).memory in
    let (ok, known, held) = v.stacks in
    let same = Chain-same s.heap ok (tops_of s i) (contents i) (known i) (holds i) (held i) in
    let b = v.counted.bounded in
    (
      omega (arith, v.sized i, ap length same),
      omega (arith, b.puts_le i i_in, b.le_puts j j_in),
      b.puts_le i i_in,
      b.le_gets i i_in,
      omega (arith, b.ahead.1),
    )

-- Under the same conditions, `stack_size` comes to its end and returns the number of values that were
-- pushed and not popped.
pub stack_size-exact :
    (set : Params) (schedule : List (ℕ × ℕ))
    → 0 < set.width
    → set.width < 2 ^ 32
    → length schedule < 2 ^ 32
    → length schedule + 2 * set.depth ≤ 2 ^ 64
    → let s = (run_stack set schedule).shared in
      stack_size (length schedule + 1) s.heap (tops_of s) set.width
      ≡ some (total (λ k. puts_of s k - gets_of s k) set.width)
stack_size-exact set schedule wide narrow short shallow =
    let s = (run_stack set schedule).shared in
    let v = (run_stack-PairInv set schedule wide narrow short shallow).memory in
    let (ok, contents, holds) = v.stacks in
    let held =
      total-same (λ k. puts_of s k - gets_of s k) (λ k. length (contents k)) set.width
        (λ k lt. omega (arith, v.sized k)) in
    let few =
      total-le-mul (λ k. length (contents k)) set.width (length schedule)
        (λ k lt. omega (arith, v.sized k, v.counted.few k)) in
    let fits : set.width * length schedule ≤ (2 ^ 32 - 1) * (2 ^ 32 - 1) =
      mul-le-mul {n₂ = 2 ^ 32 - 1} {m₂ = 2 ^ 32 - 1} (omega arith) (omega arith) in
    stack_size-total s.heap ok (length schedule + 1) (tops_of s) contents set.width holds
      (λ k lt. omega (arith, v.sized k, v.counted.few k)) (omega (arith, few, fits))
    ∙ ap some held
