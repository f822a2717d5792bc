-- ===== src/Ms/Values.antt =====
-- The values of the nodes of the MS queue, from the call that makes a node to the one that takes it.
use semantic_relaxation_dcbo.Prelude.{
  ℕ, zero, suc, ◌+◌, ◌-◌, ◌^◌, ◌<◌, ◌≡◌, ◌≢◌, arith, refl, sym, ap, ◌∙◌, subst, List, length, ◌==◌,
  Bool-cases, inl, inr, ==→eq, update,
}
use semantic_relaxation_dcbo.Machine.{System, run, turn}
use semantic_relaxation_dcbo.Machine.Pairs.{PairInv, turn-PairInv, run-PairInv, run-PairRelated}
use semantic_relaxation_dcbo.Ms.{
  Descriptor, Shared, MsPc, idle, enq_tail_node, enq_link, enq_finish, deq_cae, deq_val_node,
  deq_val, dequeued, step, create_ms_node, enq_cae, run_queue,
}
use semantic_relaxation_dcbo.Ms.Chain.{node_at, IsSound, Grows, Grows-same, last_is_tail}
use semantic_relaxation_dcbo.Ms.Knows.{HeadNext, ThreadKnows, Apart, Apart-swap}
use semantic_relaxation_dcbo.Ms.Refine.{head_moved-Takes}
use semantic_relaxation_dcbo.Ms.Takes.{head_moves}
use semantic_relaxation_dcbo.Ms.Invariant.{own-kept, other-kept, step-Kept, run_queue-Inv}

Grows-trans : (s r q : Shared) → Grows s r → Grows r q → Grows s q
Grows-trans s r q f g = record {
  node_same = λ k le. g.node_same k (omega (arith, f.tail_le)) ∙ f.node_same k le;
  next_same = λ a ne. g.next_same a (λ z. ne (sym (f.next_same a ne) ∙ z)) ∙ f.next_same a ne;
  val_same = λ a lt. g.val_same a (omega (arith, f.fresh_le)) ∙ f.val_same a lt;
  head_le = omega (arith, f.head_le, g.head_le);
  tail_le = omega (arith, f.tail_le, g.tail_le);
  fresh_le = omega (arith, f.fresh_le, g.fresh_le);
}

abbrev Inv : ℕ → System Shared MsPc → Type 0
Inv = PairInv IsSound ThreadKnows Apart

turn-Inv :
    (n i c : ℕ) (s : System Shared MsPc) → n + 1 < 2 ^ 64 → Inv n s → Inv (suc n) (turn step s i c)
turn-Inv n i c s few v =
    turn-PairInv step IsSound ThreadKnows Apart (2 ^ 64 - 1) Apart-swap own-kept other-kept n i c s
      (omega arith) v

run-Inv :
    (n : ℕ) (later : List (ℕ × ℕ)) (s : System Shared MsPc)
    → n + length later < 2 ^ 64
    → Inv n s
    → Inv (n + length later) (run step later s)
run-Inv n later s short v =
    run-PairInv step IsSound ThreadKnows Apart (2 ^ 64 - 1) Apart-swap own-kept other-kept n later s
      (omega arith) v

run-Grows :
    (n : ℕ) (later : List (ℕ × ℕ)) (s : System Shared MsPc)
    → n + length later < 2 ^ 64
    → Inv n s
    → Grows s.shared (run step later s).shared
run-Grows n later s short v =
    run-PairRelated step IsSound ThreadKnows Apart (2 ^ 64 - 1) Apart-swap own-kept other-kept Grows
      Grows-same Grows-trans
      (λ n c s l few sound k. (step-Kept n s sound (omega arith) c l k).grows) n later s
      (omega arith) v

deq_val_node-step :
    (d : ℕ) (s : Shared) (head : Descriptor)
    → (step d s (deq_val_node head)).1 ≡ deq_val (s.next head.node)
unfolding step
deq_val_node-step zero s head = refl
deq_val_node-step (suc d) s head = refl

deq_val-step : (d : ℕ) (s : Shared) (node : ℕ) → (step d s (deq_val node)).1 ≡ dequeued (s.val node)
unfolding step
deq_val-step zero s node = refl
deq_val-step (suc d) s node = refl

-- The node that a turn takes lies behind the head, and has a value.
record IsTaken (s : Shared) (head : Descriptor) : Type 0 where
  some_node : s.next head.node ≢ 0
  used : s.next head.node < s.fresh

step-IsTaken :
    (n c : ℕ) (s : Shared) (pc : MsPc) (head : Descriptor)
    → n + 1 < 2 ^ 64
    → IsSound n s
    → ThreadKnows s pc
    → (step c s pc).1 ≡ deq_val_node head
    → IsTaken s head
unfolding node_at
step-IsTaken n c s pc head few sound k e =
    let m = head_moves n s sound few c pc head e in
    let t = head_moved-Takes c s pc m.1 in
    let at_taken : ThreadKnows s (deq_cae t.head t.next) = subst (ThreadKnows s) t.at k in
    let taken : HeadNext s t.head t.next = at_taken.knows in
    let node : t.head.node ≡ head.node = t.is_head ∙ m.0 in
    record {
      some_node = λ z. taken.some_next (taken.behind ∙ ap s.next node ∙ z);
      used =
          subst (λ a. s.next a < s.fresh) (sym sound.head_at ∙ m.0) (sound.old (suc s.head.count));
    }

-- In every interleaving of fewer than `2 ^ 64` turns: a call of `ms_dequeue` whose turn takes the
-- value of the node behind the head returns this value. After further turns of any threads it reads
-- that node behind its `head`, and of it the value that it had when it was taken.
pub dequeued-val :
    (schedule later : List (ℕ × ℕ)) (i c d : ℕ) (head : Descriptor)
    → length schedule + length later + 1 < 2 ^ 64
    → let s = run_queue schedule in
      let node = s.shared.next head.node in
      let s' = run step later (turn step s i c) in
      (step c s.shared (s.local i)).1 ≡ deq_val_node head
      → (s'.local i ≡ deq_val_node head → (step d s'.shared (s'.local i)).1 ≡ deq_val node)
        × (s'.local i ≡ deq_val node
            → (step d s'.shared (s'.local i)).1 ≡ dequeued (s.shared.val node))
unfolding turn
dequeued-val schedule later i c d head short e =
    let n = length schedule in
    let s = run_queue schedule in
    let s' = run step later (turn step s i c) in
    let v = run_queue-Inv schedule (omega arith) in
    let r = step-Kept n s.shared v.memory (omega arith) c (s.local i) (v.threads i) in
    let t = step-IsTaken n c s.shared (s.local i) head (omega arith) v.memory (v.threads i) e in
    let g = Grows-trans _ _ _ r.grows (
      run-Grows (suc n) later (turn step s i c) (omega arith) (turn-Inv n i c s (omega arith) v)) in
    (
      λ at.
          ap (λ pc. (step d s'.shared pc).1) at
          ∙ deq_val_node-step d s'.shared head
          ∙ ap deq_val (g.next_same head.node t.some_node),
      λ at.
          ap (λ pc. (step d s'.shared pc).1) at
          ∙ deq_val-step d s'.shared (s.shared.next head.node)
          ∙ ap dequeued (g.val_same _ t.used),
    )

idle-node : (v : ℕ) (s : Shared) → (step (suc v) s idle).1 ≡ enq_tail_node s.fresh
unfolding step create_ms_node
idle-node v s = refl

begun-val :
    (i v : ℕ) (s : System Shared MsPc)
    → s.local i ≡ idle
    → (turn step s i (suc v)).shared.val s.shared.fresh ≡ suc v
unfolding turn step create_ms_node
begun-val i v s at = ap (λ pc. (step (suc v) s.shared pc).0.val s.shared.fresh) at ∙ ground arith

begun-fresh :
    (i v : ℕ) (s : System Shared MsPc)
    → s.local i ≡ idle
    → s.shared.fresh < (turn step s i (suc v)).shared.fresh
unfolding turn step create_ms_node
begun-fresh i v s at =
    let e : (turn step s i (suc v)).shared.fresh ≡ s.shared.fresh + 1 =
      ap (λ pc. (step (suc v) s.shared pc).0.fresh) at in
    omega (arith, e)

turn-own :
    (s : System Shared MsPc) (i c : ℕ) → (turn step s i c).local i ≡ (step c s.shared (s.local i)).1
unfolding turn
turn-own s i c = ground arith

enq_link-tail :
    (n d : ℕ) (s : Shared) (node : ℕ) (tail : Descriptor)
    → IsSound n s
    → ThreadKnows s (enq_link node tail)
    → (step d s (enq_link node tail)).1 ≡ enq_finish node tail
    → (step d s (enq_link node tail)).0.next s.tail.node ≡ node
unfolding step enq_cae
enq_link-tail n d s node tail sound k e = elim (Bool-cases (s.next tail.node == 0)) [
  | inr f ↦ absurd (cc (rw (f, enq_cae, step) at e))
  | inl f ↦
      let t = k.knows.1 in
      let last = last_is_tail n s sound tail.node t.place t.place_le t.at (==→eq _ _ f) in
      let same : tail.node ≡ s.tail.node = t.at ∙ ap (node_at s.next) last ∙ sym sound.tail_at in
      rw (f, enq_cae, step) (ap (λ a. update s.next tail.node node a) (sym same) ∙ ground arith)
]

-- In every interleaving of fewer than `2 ^ 64` turns: a call of `ms_enqueue` makes a node which has,
-- at every later time, the value that the call was given; and when the call, after further turns of
-- any threads, links its node, it does so behind the tail.
pub enqueued-val :
    (schedule later : List (ℕ × ℕ)) (i v d : ℕ) (tail : Descriptor)
    → length schedule + length later + 1 < 2 ^ 64
    → let s = run_queue schedule in
      let node = s.shared.fresh in
      let s' = run step later (turn step s i (suc v)) in
      let r = step d s'.shared (s'.local i) in
      s.local i ≡ idle
      → ((turn step s i (suc v)).local i ≡ enq_tail_node node)
        × (s'.shared.val node ≡ suc v)
        × (s'.local i ≡ enq_link node tail
            → r.1 ≡ enq_finish node tail
            → r.0.next s'.shared.tail.node ≡ node)
enqueued-val schedule later i v d tail short at =
    let n = length schedule in
    let s = run_queue schedule in
    let begun = turn step s i (suc v) in
    let s' = run step later begun in
    let inv = turn-Inv n i (suc v) s (omega arith) (run_queue-Inv schedule (omega arith)) in
    let g = run-Grows (suc n) later begun (omega arith) inv in
    let kept = run-Inv (suc n) later begun (omega arith) inv in
    (
      turn-own s i (suc v) ∙ ap (λ pc. (step (suc v) s.shared pc).1) at ∙ idle-node v s.shared,
      g.val_same s.shared.fresh (begun-fresh i v s at) ∙ begun-val i v s at,
      λ linking done.
          let k : ThreadKnows s'.shared (enq_link s.shared.fresh tail) =
            subst (ThreadKnows s'.shared) linking (kept.threads i) in
          ap (λ pc. (step d s'.shared pc).0.next s'.shared.tail.node) linking
          ∙ enq_link-tail (suc n + length later) d s'.shared s.shared.fresh tail kept.memory k
              (sym (ap (λ pc. (step d s'.shared pc).1) linking) ∙ done),
    )
