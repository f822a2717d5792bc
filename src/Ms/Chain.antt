-- ===== src/Ms/Chain.antt =====
-- The list of nodes of the MS queue: the node at a position, and what the invariant says of it.
use semantic_relaxation_dcbo.Prelude.{
  ℕ, zero, suc, ◌≤◌, ◌<◌, ◌≡◌, ◌≢◌, arith, refl, sym, ap, ◌∙◌, ◌⊎◌, update, inl, inr, dec_lt,
}
use semantic_relaxation_dcbo.Ms.{Shared}

-- The `k`-th node in the list: the first one is never unlinked in the memory.
unfoldable pub node_at : (ℕ → ℕ) → ℕ → ℕ
node_at next zero = 1
node_at next (suc k) = next (node_at next k)

-- A count is the position of the descriptor's node; at most one node is linked behind the tail.
pub record IsSound (n : ℕ) (s : Shared) : Type 0 where
  pub head_at : s.head.node ≡ node_at s.next s.head.count
  pub tail_at : s.tail.node ≡ node_at s.next s.tail.count
  pub order : s.head.count ≤ s.tail.count
  pub linked : (k : ℕ) → k ≤ s.tail.count → 1 ≤ node_at s.next k
  pub old : (k : ℕ) → node_at s.next k < s.fresh
  pub ends : s.next (s.next s.tail.node) ≡ 0
  pub null : s.next 0 ≡ 0
  pub young : (a : ℕ) → s.fresh ≤ a → s.next a ≡ 0
  pub few : s.tail.count ≤ n

-- A node that is not linked, and behind which none is.
pub record IsPrivate (s : Shared) (a : ℕ) : Type 0 where
  pub some_node : 1 ≤ a
  pub used : a < s.fresh
  pub alone : s.next a ≡ 0
  pub off : (k : ℕ) → node_at s.next k ≢ a

-- What never changes back.
pub record Grows (s s' : Shared) : Type 0 where
  pub node_same : (k : ℕ) → k ≤ s.tail.count → node_at s'.next k ≡ node_at s.next k
  pub next_same : (a : ℕ) → s.next a ≢ 0 → s'.next a ≡ s.next a
  pub val_same : (a : ℕ) → a < s.fresh → s'.val a ≡ s.val a
  pub head_le : s.head.count ≤ s'.head.count
  pub tail_le : s.tail.count ≤ s'.tail.count
  pub fresh_le : s.fresh ≤ s'.fresh

pub node_at-same : (f g : ℕ → ℕ) → ((a : ℕ) → g a ≡ f a) → (k : ℕ) → node_at g k ≡ node_at f k
unfolding node_at
node_at-same f g same zero = refl
node_at-same f g same (suc k) = rw (same (node_at g k)) (ap f (node_at-same f g same k))

pub Grows-same : (s : Shared) → Grows s s
Grows-same s = record {
  node_same = λ k le. refl;
  next_same = λ a ne. refl;
  val_same = λ a lt. refl;
  head_le = omega arith;
  tail_le = omega arith;
  fresh_le = omega arith;
}

module _ (n : ℕ) (s : Shared) (sound : IsSound n s) where
  open sound use {head_at, tail_at, order, linked, old, ends, null, young, few}

  -- A node in the list with none behind it is the tail.
  pub last_is_tail :
      (a i : ℕ) → i ≤ s.tail.count → a ≡ node_at s.next i → s.next a ≡ 0 → i ≡ s.tail.count
  unfolding node_at
  last_is_tail a i le at last = elim (dec_lt i s.tail.count) [
    | yes lt ↦ absurd (omega (arith, linked (suc i) (omega arith), ap s.next at))
    | no ge ↦ omega arith
  ]

  pub weaken-IsSound : IsSound (suc n) s
  weaken-IsSound = record {
    head_at = head_at;
    tail_at = tail_at;
    order = order;
    linked = linked;
    old = old;
    ends = ends;
    null = null;
    young = young;
    few = omega (arith, few);
  }

  module _ (new : ℕ) (p : IsPrivate s new) (last : s.next s.tail.node ≡ 0) where
    abbrev linking : ℕ → ℕ
    linking = update s.next s.tail.node new

    tail_some : 1 ≤ s.tail.node
    tail_some = omega (arith, tail_at, linked s.tail.count (omega arith))

    pub link-here : linking s.tail.node ≡ new
    link-here = ground arith

    link-other : (a : ℕ) → a ≢ s.tail.node → linking a ≡ s.next a
    link-other a ne = ground arith

    new-off : new ≢ s.tail.node
    new-off = omega (arith, p.off s.tail.count, tail_at)

    linking-before : (k : ℕ) → k ≤ s.tail.count → node_at linking k ≡ node_at s.next k
    unfolding node_at
    linking-before zero le = refl
    linking-before (suc k) le =
        ap linking (linking-before k (omega arith))
        ∙ link-other (node_at s.next k) (λ e. omega (arith, linked (suc k) le, ap s.next e, last))

    linking-new : node_at linking (suc s.tail.count) ≡ new
    unfolding node_at
    linking-new = ap linking (linking-before s.tail.count (omega arith) ∙ sym tail_at) ∙ link-here

    linking-after : (k : ℕ) → suc s.tail.count < k → node_at linking k ≡ 0
    unfolding node_at
    linking-after zero lt = absurd (omega arith)
    linking-after (suc k) lt = elim (dec_lt (suc s.tail.count) k) [
      | yes more ↦
          ap linking (linking-after k more) ∙ link-other 0 (omega (arith, tail_some)) ∙ null
      | no here ↦
          let at : k ≡ suc s.tail.count = omega arith in
          ap linking (ap (node_at linking) at ∙ linking-new) ∙ link-other new new-off ∙ p.alone
    ]

    -- The node at each position is one of before, the new one, or none.
    linking-cases :
        (k : ℕ)
        → ((k ≤ s.tail.count) × (node_at linking k ≡ node_at s.next k))
          ⊎ ((node_at linking k ≡ new) ⊎ (node_at linking k ≡ 0))
    linking-cases k = elim (dec_lt s.tail.count k) [
      | no le ↦ inl (omega arith, linking-before k (omega arith))
      | yes gt ↦ elim (dec_lt (suc s.tail.count) k) [
        | yes more ↦ inr (inr (linking-after k more))
        | no here ↦
            let at : k ≡ suc s.tail.count = omega arith in
            inr (inl (ap (node_at linking) at ∙ linking-new))
      ]
    ]

    abbrev pub linked_to : Shared
    linked_to = record s { next = linking }

    pub link-IsSound : IsSound (suc n) linked_to
    link-IsSound = record {
      head_at = head_at ∙ sym (linking-before s.head.count order);
      tail_at = tail_at ∙ sym (linking-before s.tail.count (omega arith));
      order = order;
      linked = λ k le. omega (arith, linked k le, linking-before k le);
      old = λ k. elim (linking-cases k) [
        | inl (le, e) ↦ omega (arith, e, old k)
        | inr (inl e) ↦ omega (arith, e, p.used)
        | inr (inr e) ↦ omega (arith, e, p.used)
      ];
      ends = ap linking link-here ∙ link-other new new-off ∙ p.alone;
      null = link-other 0 (omega (arith, tail_some)) ∙ null;
      young = λ a le. link-other a (omega (arith, tail_at, old s.tail.count)) ∙ young a le;
      few = omega (arith, few);
    }

    pub link-Grows : Grows s linked_to
    link-Grows = record {
      node_same = linking-before;
      next_same = λ a ne. link-other a (λ e. ne (ap s.next e ∙ last));
      val_same = λ a lt. refl;
      head_le = omega arith;
      tail_le = omega arith;
      fresh_le = omega arith;
    }

    -- Another thread's private node stays private.
    pub link-IsPrivate : (a : ℕ) → a ≢ new → IsPrivate s a → IsPrivate linked_to a
    link-IsPrivate a ne q = record {
      some_node = q.some_node;
      used = q.used;
      alone = link-other a (omega (arith, q.off s.tail.count, tail_at)) ∙ q.alone;
      off = λ k. elim (linking-cases k) [
        | inl (le, e) ↦ omega (arith, e, q.off k)
        | inr (inl e) ↦ omega (arith, e, ne)
        | inr (inr e) ↦ omega (arith, e, q.some_node)
      ];
    }
