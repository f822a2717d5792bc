-- ===== src/Dra/Stamps/Height.antt =====
-- The timestamp at the top of a stack of src/stack-dra is its height in every interleaving.
use native.Mathlib.Nat.{zero-add}
use semantic_relaxation_dcbo.Prelude.{
  ℕ, suc, ◌+◌, ◌^◌, ◌≤◌, ◌<◌, ◌≡◌, ◌≢◌, true, List, [], ◌∷◌, length, arith, refl, sym, ap, ◌∙◌,
  Bool-cases, inl, inr, ◌==◌, ==→eq, ==→ne,
}
use semantic_relaxation_dcbo.Machine.Pairs.{run-PairInv}
use semantic_relaxation_dcbo.Nodes.Heap.{
  Heap, IsHeap, IsSeen, IsSeen-mono, Extends, Chain, Chain-same,
}
use semantic_relaxation_dcbo.Nodes.Stacks.{
  Holds, Event, no_event, pushed_on, popped_off, Follows, Owns,
}
use semantic_relaxation_dcbo.Nodes.Threads.{StackShared, StackLocal, Apart, Apart-swap, other_kept}
use semantic_relaxation_dcbo.Dra.{
  Params, Shared, DraPc, push_cae, next_timestamp, step, create_stack, run_stack,
}
use semantic_relaxation_dcbo.Dra.Refine.{
  event, heap_of, tops_of, owned, Knows, Knows-stable, keeps, start_Inv,
}
use semantic_relaxation_dcbo.Dra.Stamps.{Stamped, AllStamped, StampKnows, Follows-Stamped}
use semantic_relaxation_dcbo.Dra.Stamps.Steps.{step-StampKept}

-- A turn adds at most one value to a stack.
Follows-le :
    (e : Event) (before after : ℕ → List ℕ) (n : ℕ)
    → Follows e before after
    → ((k : ℕ) → length (before k) ≤ n)
    → (k : ℕ) → length (after k) ≤ n + 1
Follows-le no_event before after n f few k = omega (arith, ap length (f k), few k)
Follows-le (pushed_on i v) before after n f few k = elim (Bool-cases (k == i)) [
  | inl e ↦ omega (arith, ap length f.0, few i, ap (λ j. length (after j)) (==→eq k i e))
  | inr e ↦ omega (arith, ap length (f.1 k (==→ne k i e)), few k)
]
Follows-le (popped_off i v) before after n f few k = elim (Bool-cases (k == i)) [
  | inl e ↦ omega (arith, ap length f.0, few i, ap (λ j. length (after j)) (==→eq k i e))
  | inr e ↦ omega (arith, ap length (f.1 k (==→ne k i e)), few k)
]

-- What was read and what was written stay as they are while other threads take turns.
StampKnows-stable :
    (s s' : Shared) (pc : DraPc)
    → IsHeap s.heap
    → Extends s.heap s'.heap
    → ((a : ℕ) → s.heap.linked a ≡ true → s'.timestamp a ≡ s.timestamp a)
    → (0 < owned pc → s'.timestamp (owned pc) ≡ s.timestamp (owned pc))
    → Knows s pc
    → StampKnows s pc
    → StampKnows s' pc
StampKnows-stable s s' (push_cae new_node d) ok g linked own k (seen, stamp) =
    (IsSeen-mono s.heap s'.heap g d.node seen, own k.0 ∙ stamp ∙ same_next seen)
  where
    same_next : IsSeen s.heap d.node → next_timestamp s d.node ≡ next_timestamp s' d.node
    same_next (inl e) = rw e refl
    same_next (inr l) = rw (linked d.node l) refl
StampKnows-stable s s' pc ok g linked own k m = tt

module _ (set : Params) where
  record Sound (n : ℕ) (s : Shared) : Type 0 where
    stacks : StackShared (step set) event heap_of tops_of owned Knows n s
    stamped : AllStamped s stacks.1
    few : (k : ℕ) → length (stacks.1 k) ≤ n

  record Known (s : Shared) (pc : DraPc) : Type 0 where
    node : StackLocal (step set) event heap_of tops_of owned Knows s pc
    stamps : StampKnows s pc

  abbrev Separate : DraPc → DraPc → Type 0
  Separate = Apart (step set) event heap_of tops_of owned Knows

  -- A linked node is not one that a thread owns.
  linked_other :
      (h : Heap) (own : ℕ) → IsHeap h → Owns h own → (a : ℕ) → h.linked a ≡ true → a ≢ own
  linked_other h own ok (inl none_owned) a l e =
      absurd (cc (l, ap h.linked e, ap h.linked none_owned, ok.null))
  linked_other h own ok (inr p) a l e = absurd (cc (l, ap h.linked e, p.unlinked))

  module _ (limit : ℕ) (short : limit < 2 ^ 64) where
    own_Sound :
        (n c : ℕ) (s : Shared) (pc : DraPc)
        → n < limit
        → Sound n s
        → Known s pc
        → Sound (suc n) (step set c s pc).0 × Known (step set c s pc).0 (step set c s pc).1
    own_Sound n c s pc less v k =
        let (ok, contents, holds) = v.stacks in
        let r = keeps set c s pc ok contents holds k.node.owns k.node.knows in
        let (after, held, follows) = r.kept.refines contents holds in
        let q = step-StampKept set s ok c pc k.node.owns k.node.knows k.stamps in
        let linked = linked_other s.heap (owned pc) ok k.node.owns in
        (
          record {
            stacks = (r.kept.heap, after, held);
            stamped =
                Follows-Stamped s _ ok r.kept.extends (λ a l. q.same a (linked a l)) contents after
                  holds v.stamped _ (λ i. omega (arith, v.few i)) follows q.moved;
            few = λ i. omega (arith, Follows-le _ contents after n follows v.few i);
          },
          record { node = record { owns = r.kept.owns; knows = r.knows }; stamps = q.known },
        )

    other_Sound :
        (n c : ℕ) (s : Shared) (l q : DraPc)
        → n < limit
        → Sound n s
        → Known s l
        → Known s q
        → Separate l q
        → Known (step set c s l).0 q × Separate (step set c s l).1 q
    other_Sound n c s l q less v k m apart =
        let (ok, contents, holds) = v.stacks in
        let r = keeps set c s l ok contents holds k.node.owns k.node.knows in
        let p = step-StampKept set s ok c l k.node.owns k.node.knows k.stamps in
        let linked = linked_other s.heap (owned l) ok k.node.owns in
        let (node, still) =
          other_kept (step set) event heap_of tops_of owned Knows (keeps set) Knows-stable n c s l q
            v.stacks k.node m.node apart in
        (
          record {
            node = node;
            stamps =
                StampKnows-stable s (step set c s l).0 q ok r.kept.extends
                  (λ a w. p.same a (linked a w))
                  (λ pos. p.same (owned q) (λ e. apart (omega (arith, e)) (sym e))) m.node.knows
                  m.stamps;
          },
          still,
        )

  run_stack-Sound :
      (schedule : List (ℕ × ℕ))
      → length schedule < 2 ^ 64
      → Sound (length schedule) (run_stack set schedule).shared
  unfolding run_stack
  run_stack-Sound schedule short =
      let start = start_Inv set in
      let v =
        run-PairInv (step set) Sound Known Separate (length schedule)
          (Apart-swap (step set) event heap_of tops_of owned Knows)
          (own_Sound (length schedule) short) (other_Sound (length schedule) short) 0 schedule
          create_stack (omega arith)
          (record {
            memory = record {
              stacks = (start.memory.0, (λ k. []), (λ k. refl));
              stamped = λ k. tt;
              few = λ k. omega arith;
            };
            threads = λ i. record { node = start.threads i; stamps = tt };
            apart = start.apart;
          }) in
      (rw zero-add at v).memory

-- The timestamp at the top of a chain that has a node.
Stamped-length :
    (s : Shared) (a : ℕ) (values : List ℕ)
    → a ≢ 0
    → Chain s.heap a values
    → Stamped s.heap s.timestamp a values
    → s.timestamp a + 1 ≡ length values
Stamped-length s a [] some_node chain st = absurd (some_node chain)
Stamped-length s a (v ∷ rest) some_node chain st = omega (arith, st.0)

-- In every interleaving of fewer than `2 ^ 64` turns of any number of threads: the timestamp of the
-- node at the top of a stack that is not empty is one less than the number of its values; of two such
-- stacks the one with the lower timestamp holds fewer values.
pub timestamp-length :
    (set : Params) (schedule : List (ℕ × ℕ)) (contents : ℕ → List ℕ)
    → length schedule < 2 ^ 64
    → let s = (run_stack set schedule).shared in
      Holds s.heap (tops_of s) contents
      → ((k : ℕ) → s.array k ≢ 0 → s.timestamp (s.array k) + 1 ≡ length (contents k))
        × ((i j : ℕ)
            → s.array i ≢ 0
            → s.array j ≢ 0
            → s.timestamp (s.array i) < s.timestamp (s.array j)
            → length (contents i) < length (contents j))
timestamp-length set schedule contents short holds =
    (height, λ i j some_i some_j less. omega (arith, height i some_i, height j some_j))
  where
    height :
        (k : ℕ)
        → let s = (run_stack set schedule).shared in
          s.array k ≢ 0 → s.timestamp (s.array k) + 1 ≡ length (contents k)
    height k some_node =
        let s = (run_stack set schedule).shared in
        let v = run_stack-Sound set schedule short in
        let (ok, known, held) = v.stacks in
        let same = Chain-same s.heap ok (s.array k) (contents k) (known k) (holds k) (held k) in
        Stamped-length s (s.array k) (known k) some_node (held k) (v.stamped k)
        ∙ ap length (sym same)
