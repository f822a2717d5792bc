-- ===== src/Ms/Takes.antt =====
-- Which value a dequeue of the MS queue takes.
use semantic_relaxation_dcbo.Prelude.{
  ℕ, zero, suc, ◌+◌, ◌-◌, ◌^◌, ◌<◌, ◌≡◌, ◌≢◌, inl, inr, arith, sym, ap, ◌∙◌, List, ◌∷◌, length,
  ◌==◌, Bool-cases,
}
use semantic_relaxation_dcbo.Machine.{turn}
use semantic_relaxation_dcbo.Ms.{
  Descriptor, Shared, MsPc, idle, enq_next, enq_link, deq_compare, deq_cae, deq_val_node, step,
  enq_cae, deq_head_cae, same_descriptor, run_queue,
}
use semantic_relaxation_dcbo.Ms.Chain.{node_at, IsSound, Grows}
use semantic_relaxation_dcbo.Ms.Steps.{Advances}
use semantic_relaxation_dcbo.Ms.Invariant.{step-Kept, run_queue-Inv}
use semantic_relaxation_dcbo.Ms.Refine.{items, contents, items-same}

module _ (n : ℕ) (s s' : Shared) (sound : IsSound n s) (sound' : IsSound (suc n) s')
    (g : Grows s s') where
  -- The value behind the head is the first in the queue.
  takes_first :
      s'.head.count ≡ suc s.head.count
      → s'.tail.count ≡ s.tail.count
      → contents s ≡ s.val (s.next s.head.node) ∷ contents s'
  unfolding contents items node_at
  takes_first head tail =
      let m = s'.tail.count - s'.head.count in
      let one_less : s.tail.count - s.head.count ≡ suc m = omega (arith, sound'.order) in
      ap (items s.next s.val s.head.count) one_less
      ∙ ap (λ a. s.val (s.next a) ∷ items s.next s.val (suc s.head.count) m) (sym sound.head_at)
      ∙ ap (λ l. s.val (s.next s.head.node) ∷ l)
          (sym (
            ap (λ k. items s'.next s'.val k m) head
            ∙ items-same n s s' sound sound' g (suc s.head.count) m (omega (arith, sound'.order))))

  takes_advanced :
      Advances s s'
      → s'.head.count ≢ s.head.count
      → contents s ≡ s.val (s.next s.head.node) ∷ contents s'
  takes_advanced (inl (head, tail)) moved = absurd (moved head)
  takes_advanced (inr (inl (head, tail))) moved = absurd (moved head)
  takes_advanced (inr (inr (head, tail))) moved = takes_first head tail

module _ (n : ℕ) (s : Shared) (sound : IsSound n s) (fits : n + 1 < 2 ^ 64) where
  pub head_moves :
      (c : ℕ) (pc : MsPc) (head : Descriptor)
      → (step c s pc).1 ≡ deq_val_node head
      → (s.head.node ≡ head.node) × ((step c s pc).0.head.count ≢ s.head.count)
  unfolding step
  head_moves zero idle head e = absurd cc
  head_moves (suc v) idle head e = absurd cc
  head_moves c (enq_next new tail) head e = elim (Bool-cases (s.next tail.node == 0)) [
    | inl f ↦ absurd (cc (rw (f, step) at e))
    | inr f ↦ absurd (cc (rw (f, step) at e))
  ]
  head_moves c (enq_link new tail) head e = elim (Bool-cases (enq_cae s tail.node new).1) [
    | inl f ↦ absurd (cc (rw (f, step) at e))
    | inr f ↦ absurd (cc (rw (f, step) at e))
  ]
  head_moves c (deq_compare h tail) head e = elim (Bool-cases (h.node == tail.node)) [
    | inr f ↦ absurd (cc (rw (f, step) at e))
    | inl f ↦ elim (Bool-cases (s.next h.node == 0)) [
      | inl g ↦ absurd (cc (rw (f, g, step) at e))
      | inr g ↦ absurd (cc (rw (f, g, step) at e))
    ]
  ]
  head_moves c (deq_cae h next) head e = elim (Bool-cases (same_descriptor s.head h)) [
    | inr f ↦ absurd (cc (rw (f, deq_head_cae, step) at e))
    | inl f ↦
        let same : h ≡ head = cc (rw (f, deq_head_cae, step) at e) in
        let node : h.node ≡ head.node = ap (λ d. d.node) same in
        rw (f, deq_head_cae, step)
          (ground (arith, sound.few, sound.order), ground (arith, sound.few, sound.order))
  ]
  head_moves c pc head e = absurd cc

-- In every interleaving of fewer than `2 ^ 64` turns: when a turn of a thread in `ms_dequeue` moves
-- the head, the value of the node behind the old head was the first in the queue, and the rest is
-- what is left.
pub deq_head-contents :
    (schedule : List (ℕ × ℕ)) (i c : ℕ) (head : Descriptor)
    → length schedule + 1 < 2 ^ 64
    → (step c (run_queue schedule).shared ((run_queue schedule).local i)).1 ≡ deq_val_node head
    → let s = run_queue schedule in
      contents s.shared ≡ s.shared.val (s.shared.next head.node) ∷ contents (turn step s i c).shared
unfolding turn
deq_head-contents schedule i c head short e =
    let s = run_queue schedule in
    let v = run_queue-Inv schedule (omega arith) in
    let r = step-Kept (length schedule) s.shared v.memory short c (s.local i) (v.threads i) in
    let m = head_moves (length schedule) s.shared v.memory short c (s.local i) head e in
    takes_advanced (length schedule) s.shared _ v.memory r.sound r.grows r.advances m.1
    ∙ ap (λ a. s.shared.val (s.shared.next a) ∷ contents (step c s.shared (s.local i)).0) m.0
