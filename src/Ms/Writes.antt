-- ===== src/Ms/Writes.antt =====
-- The other writes of the MS queue: a new node, and the advance of the tail and of the head.
use semantic_relaxation_dcbo.Prelude.{
  ℕ, suc, ◌+◌, ◌^◌, ◌≤◌, ◌<◌, ◌≡◌, arith, refl, sym, ap, ◌∙◌, dec_lt,
}
use semantic_relaxation_dcbo.Ms.{Descriptor, Shared, create_ms_node, advanced}
use semantic_relaxation_dcbo.Ms.Chain.{node_at, IsSound, IsPrivate, Grows, node_at-same}

module _ (n : ℕ) (s : Shared) (sound : IsSound n s) where
  open sound use {head_at, tail_at, order, linked, old, ends, null, young, few}

  module _ (v : ℕ) where
    abbrev pub created : Shared
    created = (create_ms_node s v).0

    created-next : (a : ℕ) → created.next a ≡ s.next a
    unfolding create_ms_node
    created-next a = elim (dec_lt a s.fresh) [
      | yes lt ↦ ground arith
      | no ge ↦ ground (arith, young a (omega arith))
    ]

    created-node_at : (k : ℕ) → node_at created.next k ≡ node_at s.next k
    created-node_at = node_at-same s.next created.next created-next

    pub create-IsSound : IsSound (suc n) created
    unfolding create_ms_node
    create-IsSound = record {
      head_at = head_at ∙ sym (created-node_at s.head.count);
      tail_at = tail_at ∙ sym (created-node_at s.tail.count);
      order = order;
      linked = λ k le. omega (arith, linked k le, created-node_at k);
      old = λ k. omega (arith, old k, created-node_at k);
      ends = created-next _ ∙ ap s.next (created-next s.tail.node) ∙ ends;
      null = created-next 0 ∙ null;
      young = λ a le. created-next a ∙ young a (omega arith);
      few = omega (arith, few);
    }

    pub create-Grows : Grows s created
    unfolding create_ms_node
    create-Grows = record {
      node_same = λ k le. created-node_at k;
      next_same = λ a ne. created-next a;
      val_same = λ a lt. ground arith;
      head_le = omega arith;
      tail_le = omega arith;
      fresh_le = omega arith;
    }

    pub create-IsPrivate : (a : ℕ) → IsPrivate s a → IsPrivate created a
    unfolding create_ms_node
    create-IsPrivate a p = record {
      some_node = p.some_node;
      used = omega (arith, p.used);
      alone = created-next a ∙ p.alone;
      off = λ k. omega (arith, p.off k, created-node_at k);
    }

    pub new-IsPrivate : IsPrivate created s.fresh
    unfolding create_ms_node
    new-IsPrivate = record {
      some_node = omega (arith, old 0);
      used = omega arith;
      alone = created-next s.fresh ∙ young s.fresh (omega arith);
      off = λ k. omega (arith, old k, created-node_at k);
    }

  module _ (fits : n + 1 < 2 ^ 64) where
    -- The tail advances to the node behind it.
    module _ (next : ℕ) (some_next : 1 ≤ next) (behind : next ≡ s.next s.tail.node) where
      abbrev pub tail_moved : Shared
      tail_moved = record s { tail = advanced s.tail next }

      pub next_count : (advanced s.tail next).count ≡ suc s.tail.count
      next_count = omega (arith, few)

      next_at : next ≡ node_at s.next (suc s.tail.count)
      unfolding node_at
      next_at = behind ∙ ap s.next tail_at

      pub tail-IsSound : IsSound (suc n) tail_moved
      tail-IsSound = record {
        head_at = head_at;
        tail_at = next_at ∙ sym (ap (node_at s.next) next_count);
        order = omega (arith, order, next_count);
        linked = λ k le. elim (dec_lt s.tail.count k) [
          | no before ↦ linked k (omega arith)
          | yes here ↦
              let at : k ≡ suc s.tail.count = omega (arith, next_count) in
              omega (arith, ap (node_at s.next) at, next_at)
        ];
        old = old;
        ends = ap s.next (ap s.next behind ∙ ends) ∙ null;
        null = null;
        young = young;
        few = omega (arith, few, next_count);
      }

      pub tail-Grows : Grows s tail_moved
      tail-Grows = record {
        node_same = λ k le. refl;
        next_same = λ a ne. refl;
        val_same = λ a lt. refl;
        head_le = omega arith;
        tail_le = omega (arith, next_count);
        fresh_le = omega arith;
      }

    -- The head advances to the node behind it, if it is not the tail.
    module _ (next : ℕ) (behind : next ≡ s.next s.head.node)
        (some_item : s.head.count < s.tail.count) where
      abbrev pub head_moved : Shared
      head_moved = record s { head = advanced s.head next }

      pub head_count : (advanced s.head next).count ≡ suc s.head.count
      head_count = omega (arith, few)

      pub head-IsSound : IsSound (suc n) head_moved
      unfolding node_at
      head-IsSound = record {
        head_at = behind ∙ ap s.next head_at ∙ sym (ap (node_at s.next) head_count);
        tail_at = tail_at;
        order = omega (arith, head_count);
        linked = linked;
        old = old;
        ends = ends;
        null = null;
        young = young;
        few = omega (arith, few);
      }

      pub head-Grows : Grows s head_moved
      head-Grows = record {
        node_same = λ k le. refl;
        next_same = λ a ne. refl;
        val_same = λ a lt. refl;
        head_le = omega (arith, head_count);
        tail_le = omega arith;
        fresh_le = omega arith;
      }

-- Writes elsewhere than to the nodes leave a private node private.
pub IsPrivate-tail :
    (s : Shared) (d : Descriptor) (a : ℕ) → IsPrivate s a → IsPrivate (record s { tail = d }) a
IsPrivate-tail s d a p = record {
  some_node = p.some_node;
  used = p.used;
  alone = p.alone;
  off = p.off;
}

pub IsPrivate-head :
    (s : Shared) (d : Descriptor) (a : ℕ) → IsPrivate s a → IsPrivate (record s { head = d }) a
IsPrivate-head s d a p = record {
  some_node = p.some_node;
  used = p.used;
  alone = p.alone;
  off = p.off;
}
