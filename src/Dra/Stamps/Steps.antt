-- ===== src/Dra/Stamps/Steps.antt =====
-- What every step of src/stack-dra does to the timestamps.
use semantic_relaxation_dcbo.Prelude.{
  ℕ, zero, suc, ◌+◌, ◌≡◌, ◌≢◌, ltb, arith, refl, sym, ap, subst, ◌∙◌, ◌==◌, Bool-cases, inl, inr,
  ==→eq, update,
}
use semantic_relaxation_dcbo.Nodes.Heap.{IsHeap, IsSeen, IsPrivate, set_next, link}
use semantic_relaxation_dcbo.Nodes.Stacks.{no_event, Owns, own_node}
use semantic_relaxation_dcbo.Dra.{
  Params, Shared, Descriptor, DraPc, idle, push_first, push_next, push_compare, push_link, push_cae,
  pushed, pop_first, pop_next, pop_compare, pop_read, pop_cae, pop_val, popped, popped_empty,
  stack_cae, next_timestamp, push_link_step, push_cae_step, pop_cae_step, push_loop, pop_loop,
  push_first_step, push_compare_step, pop_compare_step, pop_read_step, begin, step, drawn,
}
use semantic_relaxation_dcbo.Dra.Refine.{event, owned, Knows, array_here, array_elsewhere}
use semantic_relaxation_dcbo.Dra.Stamps.{Moved, StampKnows, StampKept}

module _ (set : Params) (s : Shared) (ok : IsHeap s.heap) where
  -- A turn that leaves shared memory alone and does not come to a compare-exchange of `push`.
  unchanged :
      (pc pc' : DraPc) → event s pc pc' ≡ no_event → StampKnows s pc' → StampKept s pc (s, pc')
  unchanged pc pc' none_done k = record {
    same = λ a ne. refl;
    moved = subst (λ e. Moved e s s) (sym none_done) (λ k. refl);
    known = k;
  }

  push_loop-StampKnows :
      (new_node i : ℕ) (d : Descriptor) → StampKnows s (push_loop set new_node i d)
  push_loop-StampKnows new_node i d = elim (Bool-cases (ltb i set.num_choices)) [
    | inl e ↦ rw e tt
    | inr e ↦ rw e tt
  ]

  pop_loop-StampKnows : (i : ℕ) (d : Descriptor) → StampKnows s (pop_loop set i d)
  pop_loop-StampKnows i d = elim (Bool-cases (ltb i set.num_choices)) [
    | inl e ↦ rw e tt
    | inr e ↦ rw e tt
  ]

  push_first-StampKnows : (draw new_node : ℕ) → StampKnows s (push_first_step set draw s new_node)
  unfolding push_first_step
  push_first-StampKnows draw new_node =
      let d = drawn set draw s in
      elim (Bool-cases (d.node == 0)) [
        | inl e ↦ rw (e, push_first_step) tt
        | inr e ↦ rw (e, push_first_step) (push_loop-StampKnows new_node 1 d)
      ]

  push_compare-StampKnows :
      (new_node i : ℕ) (d d2 : Descriptor) → StampKnows s (push_compare_step set s new_node i d d2)
  unfolding push_compare_step
  push_compare-StampKnows new_node i d d2 = elim (Bool-cases (d2.node == 0)) [
    | inl e ↦ rw (e, push_compare_step) tt
    | inr e ↦ elim (Bool-cases (ltb (s.timestamp d2.node) (s.timestamp d.node))) [
      | inl f ↦ rw (e, f, push_compare_step) (push_loop-StampKnows new_node (i + 1) d2)
      | inr f ↦ rw (e, f, push_compare_step) (push_loop-StampKnows new_node (i + 1) d)
    ]
  ]

  pop_compare-StampKnows :
      (i : ℕ) (d d2 : Descriptor) → StampKnows s (pop_compare_step set s i d d2)
  unfolding pop_compare_step
  pop_compare-StampKnows i d d2 = elim (Bool-cases (d.node == 0)) [
    | inl e ↦ rw (e, pop_compare_step) (pop_loop-StampKnows (i + 1) d2)
    | inr e ↦ elim (Bool-cases (d2.node == 0)) [
      | inl f ↦ rw (e, f, pop_compare_step) (pop_loop-StampKnows (i + 1) d)
      | inr f ↦ elim (Bool-cases (ltb (s.timestamp d.node) (s.timestamp d2.node))) [
        | inl g ↦ rw (e, f, g, pop_compare_step) (pop_loop-StampKnows (i + 1) d2)
        | inr g ↦ rw (e, f, g, pop_compare_step) (pop_loop-StampKnows (i + 1) d)
      ]
    ]
  ]

  pop_read-StampKnows : (d : Descriptor) → StampKnows s (pop_read_step set s d)
  unfolding pop_read_step
  pop_read-StampKnows d = elim (Bool-cases (d.node == 0)) [
    | inl e ↦ rw (e, pop_read_step) tt
    | inr e ↦ rw (e, pop_read_step) tt
  ]

  -- A node that was read is not the thread's own.
  seen_other : (own a : ℕ) → IsPrivate s.heap own → IsSeen s.heap a → a ≢ own
  seen_other own a p (inl none) e = absurd (omega (arith, p.some_node))
  seen_other own a p (inr l) e = absurd (cc (l, ap s.heap.linked e, p.unlinked))

  push_link-StampKept :
      (new_node : ℕ) (d : Descriptor)
      → IsPrivate s.heap new_node
      → IsSeen s.heap d.node
      → StampKept s (push_link new_node d) (push_link_step s new_node d)
  unfolding push_link_step set_next
  push_link-StampKept new_node d p seen =
      let off = seen_other new_node d.node p seen in
      let stamp = next_timestamp s d.node in
      let timestamp = update s.timestamp new_node stamp in
      let kept : timestamp d.node ≡ s.timestamp d.node =
        array_elsewhere s.timestamp new_node stamp d.node off in
      record {
        same = array_elsewhere s.timestamp new_node stamp;
        moved = λ k. refl;
        known = (seen, array_here s.timestamp new_node stamp ∙ rw kept refl);
      }

  push_cae-StampKept :
      (new_node : ℕ) (d : Descriptor)
      → s.heap.next new_node ≡ d.node
      → StampKnows s (push_cae new_node d)
      → StampKept s (push_cae new_node d) (push_cae_step s new_node d)
  unfolding push_cae_step stack_cae link
  push_cae-StampKept new_node d next (seen, stamp) = elim (Bool-cases (s.array d.index == d.node)) [
    | inr e ↦
        rw (e, push_cae_step, stack_cae)
          (unchanged (push_cae new_node d) (push_first new_node) refl tt)
    | inl e ↦
        let top : s.array d.index ≡ d.node = ==→eq _ _ e in
        let here = array_here s.array d.index new_node in
        rw (e, push_cae_step, stack_cae)
          (record {
            same = λ a ne. refl;
            moved = (
              ap s.timestamp here ∙ stamp ∙ ap (next_timestamp s) (sym top),
              ap s.heap.next here ∙ next ∙ sym top,
              array_elsewhere s.array d.index new_node,
            );
            known = tt;
          })
  ]

  pop_cae-StampKept :
      (d : Descriptor) (next : ℕ)
      → s.heap.next d.node ≡ next
      → StampKept s (pop_cae d next) (pop_cae_step s d next)
  unfolding pop_cae_step stack_cae
  pop_cae-StampKept d next behind = elim (Bool-cases (s.array d.index == d.node)) [
    | inr e ↦ rw (e, pop_cae_step, stack_cae) (unchanged (pop_cae d next) pop_first refl tt)
    | inl e ↦
        let top : s.array d.index ≡ d.node = ==→eq _ _ e in
        rw (e, pop_cae_step, stack_cae)
          (record {
            same = λ a ne. refl;
            moved = (
              array_here s.array d.index next ∙ sym behind ∙ ap s.heap.next (sym top),
              array_elsewhere s.array d.index next,
            );
            known = tt;
          })
  ]

  begin-StampKept : (draw : ℕ) → StampKept s idle (begin set draw s)
  unfolding begin
  begin-StampKept zero = unchanged idle pop_first refl tt
  begin-StampKept (suc v) = record { same = λ a ne. refl; moved = λ k. refl; known = tt }

  pub step-StampKept :
      (draw : ℕ) (pc : DraPc)
      → Owns s.heap (owned pc)
      → Knows s pc
      → StampKnows s pc
      → StampKept s pc (step set draw s pc)
  unfolding step
  step-StampKept draw idle owns k m = begin-StampKept draw
  step-StampKept draw (push_first new_node) owns k m =
      unchanged _ _ refl (push_first-StampKnows draw new_node)
  step-StampKept draw (push_next new_node i d) owns k m = unchanged _ _ refl tt
  step-StampKept draw (push_compare new_node i d d2) owns k m =
      unchanged _ _ refl (push_compare-StampKnows new_node i d d2)
  step-StampKept draw (push_link new_node d) owns k m =
      push_link-StampKept new_node d (own_node s.heap new_node owns k.0) k.1
  step-StampKept draw (push_cae new_node d) owns k m = push_cae-StampKept new_node d k.1 m
  step-StampKept draw pushed owns k m = unchanged _ _ refl tt
  step-StampKept draw pop_first owns k m = unchanged _ _ refl (pop_loop-StampKnows 1 _)
  step-StampKept draw (pop_next i d) owns k m = unchanged _ _ refl tt
  step-StampKept draw (pop_compare i d d2) owns k m =
      unchanged _ _ refl (pop_compare-StampKnows i d d2)
  step-StampKept draw (pop_read d) owns k m = unchanged _ _ refl (pop_read-StampKnows d)
  step-StampKept draw (pop_cae d next) owns k m = pop_cae-StampKept d next k.2
  step-StampKept draw (pop_val node) owns k m = unchanged _ _ refl tt
  step-StampKept draw (popped v) owns k m = unchanged _ _ refl tt
  step-StampKept draw popped_empty owns k m = unchanged _ _ refl tt
