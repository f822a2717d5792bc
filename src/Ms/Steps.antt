-- ===== src/Ms/Steps.antt =====
-- Every step of the MS queue keeps the invariant.
use semantic_relaxation_dcbo.Prelude.{
  update, ℕ, suc, ◌+◌, ◌^◌, ◌≤◌, ◌<◌, ◌≡◌, ◌≢◌, ◌⊎◌, inl, inr, true, arith, refl, sym, ap, subst,
  ◌∙◌, ◌==◌, Bool-cases, ==→eq,
}
use semantic_relaxation_dcbo.Ms.{
  Descriptor, same_descriptor, Shared, MsPc, idle, enq_tail_node, enq_link, enq_finish,
  deq_head_node, deq_cae, deq_val_node, step, tail_cae, deq_head_cae, enq_cae, advanced,
  create_ms_node,
}
use semantic_relaxation_dcbo.Ms.Chain.{
  node_at, IsSound, IsPrivate, Grows, Grows-same, weaken-IsSound, last_is_tail, linked_to,
  link-here, link-IsSound, link-Grows, link-IsPrivate,
}
use semantic_relaxation_dcbo.Ms.Writes.{
  next_count, head_count, create-IsSound, create-Grows, create-IsPrivate, new-IsPrivate,
  tail-IsSound, tail-Grows, head-IsSound, head-Grows, IsPrivate-tail, IsPrivate-head,
}
use semantic_relaxation_dcbo.Ms.Knows.{OnList, Behind, HeadNext, owned, Knows}

-- The head or the tail advances by one, or neither does.
abbrev pub Advances : Shared → Shared → Type 0
Advances s s' =
    ((s'.head.count ≡ s.head.count) × (s'.tail.count ≡ s.tail.count))
    ⊎ (((s'.head.count ≡ s.head.count) × (s'.tail.count ≡ suc s.tail.count))
        ⊎ ((s'.head.count ≡ suc s.head.count) × (s'.tail.count ≡ s.tail.count)))

-- What a turn of a thread at `pc` keeps.
pub record Kept (n : ℕ) (s : Shared) (pc : MsPc) (r : Shared × MsPc) : Type 0 where
  pub sound : IsSound (suc n) r.0
  pub grows : Grows s r.0
  pub advances : Advances s r.0
  pub own_node : (owned r.1 ≡ 0) ⊎ IsPrivate r.0 (owned r.1)
  pub knows : Knows r.0 r.1
  pub others : (a : ℕ) → IsPrivate s a → a ≢ owned pc → IsPrivate r.0 a
  pub owns : (owned r.1 ≡ owned pc) ⊎ ((owned r.1 ≡ 0) ⊎ (s.fresh ≤ owned r.1))

same_descriptor→eq : (d e : Descriptor) → same_descriptor d e ≡ true → d ≡ e
same_descriptor→eq d e h =
    let nodes : d.node ≡ e.node = ground arith in
    let counts : d.count ≡ e.count = ground arith in
    ap (λ a. record { node = a; count = d.count }) nodes
    ∙ ap (λ b. record { node = e.node; count = b }) counts

module _ (n : ℕ) (s : Shared) (sound : IsSound n s) where
  abbrev Owns : MsPc → Type 0
  Owns pc = (owned pc ≡ 0) ⊎ IsPrivate s (owned pc)

  -- A turn that leaves shared memory alone and goes on with the same node.
  pub quiet : (pc pc' : MsPc) → Owns pc → owned pc' ≡ owned pc → Knows s pc' → Kept n s pc (s, pc')
  quiet pc pc' own same k = record {
    sound = weaken-IsSound n s sound;
    grows = Grows-same s;
    advances = inl (refl, refl);
    own_node = subst (λ a. (a ≡ 0) ⊎ IsPrivate s a) (sym same) own;
    knows = k;
    others = λ a p ne. p;
    owns = inl same;
  }

  pub begin_enqueue : (v : ℕ) → Kept n s idle (step (suc v) s idle)
  unfolding step create_ms_node
  begin_enqueue v = record {
    sound = create-IsSound n s sound (suc v);
    grows = create-Grows n s sound (suc v);
    advances = inl (refl, refl);
    own_node = inr (new-IsPrivate n s sound (suc v));
    knows = omega (arith, sound.old 0);
    others = λ a p ne. create-IsPrivate n s sound (suc v) a p;
    owns = inr (inr (omega arith));
  }

  module _ (new : ℕ) (tail : Descriptor) (p : IsPrivate s new) (k : OnList s tail.node)
      (last : s.next s.tail.node ≡ 0) (same : tail.node ≡ s.tail.node) where
    linked-Behind : Behind (linked_to n s sound new p last) tail.node new
    linked-Behind = record {
      on_list = record {
        place = k.place;
        place_le = k.place_le;
        at = k.at ∙ sym ((link-Grows n s sound new p last).node_same k.place k.place_le);
      };
      some_next = omega (arith, p.some_node);
      behind = sym (ap (update s.next s.tail.node new) same ∙ link-here n s sound new p last);
    }

    linked-Kept : Kept n s (enq_link new tail) (linked_to n s sound new p last, enq_finish new tail)
    linked-Kept = record {
      sound = link-IsSound n s sound new p last;
      grows = link-Grows n s sound new p last;
      advances = inl (refl, refl);
      own_node = inl refl;
      knows = linked-Behind;
      others = λ a q ne. link-IsPrivate n s sound new p last a ne q;
      owns = inr (inl refl);
    }

  -- A link behind the last node.
  pub link-Kept :
      (draw new : ℕ) (tail : Descriptor)
      → Owns (enq_link new tail)
      → 1 ≤ new
      → OnList s tail.node
      → Kept n s (enq_link new tail) (step draw s (enq_link new tail))
  unfolding step enq_cae
  link-Kept draw new tail (inl none_owned) some_new k = absurd (omega arith)
  link-Kept draw new tail (inr p) some_new k = elim (Bool-cases (s.next tail.node == 0)) [
    | inr e ↦ rw (e, enq_cae) (quiet (enq_link new tail) (enq_tail_node new) (inr p) refl some_new)
    | inl e ↦
        let last : s.next tail.node ≡ 0 = ==→eq _ _ e in
        let placed = last_is_tail n s sound tail.node k.place k.place_le k.at last in
        let same : tail.node ≡ s.tail.node =
          k.at ∙ ap (node_at s.next) placed ∙ sym sound.tail_at in
        let tail_last : s.next s.tail.node ≡ 0 = ap s.next (sym same) ∙ last in
        rw (e, enq_cae)
          (subst
            (λ a.
              Kept n s (enq_link new tail)
                (record s { next = update s.next a new }, enq_finish new tail))
            (sym same) (linked-Kept new tail p k tail_last same))
  ]

  module _ (fits : n + 1 < 2 ^ 64) where
    pub tail-Kept :
        (pc pc' : MsPc) (tail : Descriptor) (next : ℕ)
        → Owns pc
        → owned pc' ≡ owned pc
        → ((s' : Shared) → Knows s' pc')
        → Behind s tail.node next
        → Kept n s pc (tail_cae s tail (advanced tail next), pc')
    unfolding tail_cae
    tail-Kept pc pc' tail next own same k b = elim (Bool-cases (same_descriptor s.tail tail)) [
      | inr e ↦ rw (e, tail_cae) (quiet pc pc' own same (k s))
      | inl e ↦
          let here = same_descriptor→eq s.tail tail e in
          rw (e, tail_cae)
            (subst (λ t. Kept n s pc (record s { tail = advanced t next }, pc')) here
              (advance (b.behind ∙ ap (λ t. s.next t.node) (sym here))))
    ]
      where
        some_next : 1 ≤ next
        some_next = omega (arith, b.some_next)

        advance :
            next ≡ s.next s.tail.node → Kept n s pc (record s { tail = advanced s.tail next }, pc')
        advance behind = record {
          sound = tail-IsSound n s sound fits next some_next behind;
          grows = tail-Grows n s sound fits next some_next behind;
          advances = inr (inl (refl, next_count n s sound fits next some_next behind));
          own_node = elim own [
            | inl none ↦ inl (same ∙ none)
            | inr p ↦ inr (IsPrivate-tail s _ _ (subst (IsPrivate s) (sym same) p))
          ];
          knows = k _;
          others = λ a p ne. IsPrivate-tail s _ a p;
          owns = inl same;
        }

    pub head-Kept :
        (draw : ℕ) (head : Descriptor) (next : ℕ)
        → HeadNext s head next
        → Kept n s (deq_cae head next) (step draw s (deq_cae head next))
    unfolding step deq_head_cae
    head-Kept draw head next k = elim (Bool-cases (same_descriptor s.head head)) [
      | inr e ↦ rw (e, deq_head_cae) (quiet (deq_cae head next) deq_head_node (inl refl) refl tt)
      | inl e ↦
          let here = same_descriptor→eq s.head head e in
          rw (e, deq_head_cae)
            (subst
              (λ h.
                Kept n s (deq_cae head next)
                  (record s { head = advanced h next }, deq_val_node head))
              here
              (advance (k.behind ∙ ap (λ h. s.next h.node) (sym here)) (ap (λ h. h.count) here)
                (ap (λ h. h.node) here)))
    ]
      where
        not_tail : s.head.count ≡ head.count → k.place ≢ s.head.count → s.head.count < s.tail.count
        not_tail count ne = omega (arith, k.start_le, k.place_le, ne)

        advance :
            next ≡ s.next s.head.node
            → s.head.count ≡ head.count
            → s.head.node ≡ head.node
            → Kept n s
                (deq_cae head next)
                (record s { head = advanced s.head next }, deq_val_node head)
        advance behind count node =
            let some_item : s.head.count < s.tail.count =
              not_tail count (λ e. k.other (ap (node_at s.next) e ∙ sym sound.head_at ∙ node)) in
            record {
              sound = head-IsSound n s sound fits next behind some_item;
              grows = head-Grows n s sound fits next behind some_item;
              advances = inr (inr (head_count n s sound fits next behind some_item, refl));
              own_node = inl refl;
              knows = λ e. k.some_next (k.behind ∙ e);
              others = λ a p ne. IsPrivate-head s _ a p;
              owns = inl refl;
            }
