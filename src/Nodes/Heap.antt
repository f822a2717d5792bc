-- ===== src/Nodes/Heap.antt =====
-- A heap of the nodes of linked stacks, and the chains of nodes in it.
use semantic_relaxation_dcbo.Prelude.{
  ℕ, ◌+◌, ◌≤◌, ◌<◌, ◌≡◌, ◌≢◌, ◌⊎◌, inl, inr, Bool, true, false, update, List, [], ◌∷◌, arith, refl,
  sym, ap, ◌∙◌, subst,
}

-- The fields `next` and `val` of the nodes. The allocator hands out addresses from `fresh` on; a
-- node that is in use is not handed out again. `linked` is a history variable that nothing reads:
-- it tells the nodes that a push has put on a stack.
pub record Heap : Type 0 where
  pub next : ℕ → ℕ
  pub val : ℕ → ℕ
  pub linked : ℕ → Bool
  pub fresh : ℕ

-- No node has been made.
abbrev pub empty_heap : Heap
empty_heap = record { next = λ a. 0; val = λ a. 0; linked = λ a. false; fresh = 1 }

-- `create_node` with `next` NULL, and `mstack_new_node`
unfoldable pub create_node : Heap → (val : ℕ) → Heap × ℕ
create_node h val = (
  record h { val = update h.val h.fresh val; next = update h.next h.fresh 0; fresh = h.fresh + 1 },
  h.fresh,
)

-- `node->next = next`
unfoldable pub set_next : Heap → (node next : ℕ) → Heap
set_next h node next = record h { next = update h.next node next }

-- The history of a push that has succeeded.
unfoldable pub link : Heap → ℕ → Heap
link h node = record h { linked = update h.linked node true }

pub record IsHeap (h : Heap) : Type 0 where
  pub some_fresh : 0 < h.fresh
  pub null : h.linked 0 ≡ false
  pub young : (a : ℕ) → h.fresh ≤ a → h.linked a ≡ false

-- A node that a thread has made and not pushed.
pub record IsPrivate (h : Heap) (a : ℕ) : Type 0 where
  pub some_node : 0 < a
  pub made : a < h.fresh
  pub unlinked : h.linked a ≡ false

-- Nodes that are linked keep their fields.
pub record Extends (h h' : Heap) : Type 0 where
  pub linked_same : (a : ℕ) → h.linked a ≡ true → h'.linked a ≡ true
  pub next_same : (a : ℕ) → h.linked a ≡ true → h'.next a ≡ h.next a
  pub val_same : (a : ℕ) → h.linked a ≡ true → h'.val a ≡ h.val a
  pub more : h.fresh ≤ h'.fresh

pub Extends-same : (h : Heap) → Extends h h
Extends-same h = record {
  linked_same = λ a l. l;
  next_same = λ a l. refl;
  val_same = λ a l. refl;
  more = omega arith;
}

pub Extends-trans : (h h' h'' : Heap) → Extends h h' → Extends h' h'' → Extends h h''
Extends-trans h h' h'' g f = record {
  linked_same = λ a l. f.linked_same a (g.linked_same a l);
  next_same = λ a l. f.next_same a (g.linked_same a l) ∙ g.next_same a l;
  val_same = λ a l. f.val_same a (g.linked_same a l) ∙ g.val_same a l;
  more = omega (arith, g.more, f.more);
}

-- What a thread may have read as the top of a stack: NULL, or a node that was pushed.
abbrev pub IsSeen : Heap → ℕ → Type 0
IsSeen h a = (a ≡ 0) ⊎ (h.linked a ≡ true)

pub IsSeen-mono : (h h' : Heap) → Extends h h' → (a : ℕ) → IsSeen h a → IsSeen h' a
IsSeen-mono h h' g a (inl e) = inl e
IsSeen-mono h h' g a (inr l) = inr (g.linked_same a l)

pub linked_seen : (h : Heap) (a : ℕ) → IsSeen h a → a ≢ 0 → h.linked a ≡ true
linked_seen h a (inl e) ne = absurd (ne e)
linked_seen h a (inr l) ne = l

-- From `a` along `next` to NULL lie nodes that were pushed, with these values.
abbrev pub Chain : Heap → ℕ → List ℕ → Type 0
Chain h a [] = a ≡ 0
Chain h a (v ∷ rest) = (h.linked a ≡ true) × (h.val a ≡ v) × Chain h (h.next a) rest

pub Chain-mono :
    (h h' : Heap) → Extends h h' → (a : ℕ) (values : List ℕ) → Chain h a values → Chain h' a values
Chain-mono h h' g a [] c = c
Chain-mono h h' g a (v ∷ rest) (l, e, c) = (
  g.linked_same a l,
  g.val_same a l ∙ e,
  subst (λ b. Chain h' b rest) (sym (g.next_same a l)) (Chain-mono h h' g (h.next a) rest c),
)

pub Chain-IsSeen : (h : Heap) (a : ℕ) (values : List ℕ) → Chain h a values → IsSeen h a
Chain-IsSeen h a [] c = inl c
Chain-IsSeen h a (v ∷ rest) c = inr c.0

-- The values of a chain are determined by where it begins.
pub Chain-same :
    (h : Heap)
    → IsHeap h
    → (a : ℕ) (values others : List ℕ) → Chain h a values
    → Chain h a others
    → values ≡ others
Chain-same h ok a [] [] c d = refl
Chain-same h ok a [] (w ∷ rest) c d = absurd (cc (d.0, sym (ap h.linked c), ok.null))
Chain-same h ok a (v ∷ rest) [] c d = absurd (cc (c.0, sym (ap h.linked d), ok.null))
Chain-same h ok a (v ∷ rest) (w ∷ more) c d =
    ap (λ x. x ∷ rest) (sym c.1 ∙ d.1)
    ∙ ap (λ l. w ∷ l) (Chain-same h ok (h.next a) rest more c.2 d.2)

module _ (h : Heap) (ok : IsHeap h) where
  pub create-IsHeap : (v : ℕ) → IsHeap (create_node h v).0
  unfolding create_node
  create-IsHeap v = record {
    some_fresh = omega arith;
    null = ok.null;
    young = λ a le. ok.young a (omega arith);
  }

  not_fresh : (a : ℕ) → h.linked a ≡ true → a ≢ h.fresh
  not_fresh a l e = absurd (cc (l, ap h.linked e, ok.young h.fresh (omega arith)))

  pub create-Extends : (v : ℕ) → Extends h (create_node h v).0
  unfolding create_node
  create-Extends v = record {
    linked_same = λ a l. l;
    next_same = λ a l. ground (arith, not_fresh a l);
    val_same = λ a l. ground (arith, not_fresh a l);
    more = omega arith;
  }

  pub create-IsPrivate : (v : ℕ) → IsPrivate (create_node h v).0 h.fresh
  unfolding create_node
  create-IsPrivate v = record {
    some_node = ok.some_fresh;
    made = omega arith;
    unlinked = ok.young h.fresh (omega arith);
  }

  pub create_other :
      (v a : ℕ)
      → IsPrivate h a
      → IsPrivate (create_node h v).0 a × ((create_node h v).0.next a ≡ h.next a)
  unfolding create_node
  create_other v a p = (
    record { some_node = p.some_node; made = omega (arith, p.made); unlinked = p.unlinked },
    ground (arith, p.made),
  )

  module _ (node : ℕ) (p : IsPrivate h node) where
    not_linked : (a : ℕ) → h.linked a ≡ true → a ≢ node
    not_linked a l e = absurd (cc (l, ap h.linked e, p.unlinked))

    pub set_next-IsHeap : (next : ℕ) → IsHeap (set_next h node next)
    unfolding set_next
    set_next-IsHeap next = record { some_fresh = ok.some_fresh; null = ok.null; young = ok.young }

    pub set_next-Extends : (next : ℕ) → Extends h (set_next h node next)
    unfolding set_next
    set_next-Extends next = record {
      linked_same = λ a l. l;
      next_same = λ a l. ground (arith, not_linked a l);
      val_same = λ a l. refl;
      more = omega arith;
    }

    pub set_next-IsPrivate : (next a : ℕ) → IsPrivate h a → IsPrivate (set_next h node next) a
    unfolding set_next
    set_next-IsPrivate next a q = record {
      some_node = q.some_node;
      made = q.made;
      unlinked = q.unlinked;
    }

    pub set_next-next : (next : ℕ) → (set_next h node next).next node ≡ next
    unfolding set_next
    set_next-next next = ground arith

    pub set_next_other : (next a : ℕ) → a ≢ node → (set_next h node next).next a ≡ h.next a
    unfolding set_next
    set_next_other next a ne = ground arith

    pub link-next : (a : ℕ) → (link h node).next a ≡ h.next a
    unfolding link
    link-next a = refl

    pub link-IsHeap : IsHeap (link h node)
    unfolding link
    link-IsHeap = record {
      some_fresh = ok.some_fresh;
      null = ground (arith, p.some_node, ok.null);
      young = λ a le. ground (arith, p.made, ok.young a le);
    }

    pub link-Extends : Extends h (link h node)
    unfolding link
    link-Extends = record {
      linked_same = λ a l. ground arith;
      next_same = λ a l. refl;
      val_same = λ a l. refl;
      more = omega arith;
    }

    pub link-IsPrivate : (a : ℕ) → a ≢ node → IsPrivate h a → IsPrivate (link h node) a
    unfolding link
    link-IsPrivate a ne q = record {
      some_node = q.some_node;
      made = q.made;
      unlinked = ground (arith, q.unlinked);
    }

    pub link_node : (link h node).linked node ≡ true
    unfolding link
    link_node = ground arith
