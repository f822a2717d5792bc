-- ===== src/Nodes/Stacks.antt =====
-- An array of linked stacks: what it holds, and how the writes of a push and of a pop change that.
use semantic_relaxation_dcbo.Prelude.{
  ℕ, ◌≤◌, ◌<◌, ◌≡◌, ◌≢◌, ◌⊎◌, inl, inr, update, List, [], ◌∷◌, arith, refl, sym, ap, ◌∙◌, subst,
  Bool-cases, ◌==◌, ==→eq, ==→ne,
}
use semantic_relaxation_dcbo.Nodes.Heap.{
  Heap, create_node, set_next, link, IsHeap, IsPrivate, Extends, Extends-same, Chain, Chain-mono,
  create-IsHeap, create-Extends, create-IsPrivate, create_other, set_next-IsHeap, set_next-Extends,
  set_next-IsPrivate, set_next_other, link-next, link-IsHeap, link-Extends, link-IsPrivate,
  link_node,
}

-- The nodes at the tops of the stacks begin chains of these values.
abbrev pub Holds : Heap → (ℕ → ℕ) → (ℕ → List ℕ) → Type 0
Holds h tops contents = (k : ℕ) → Chain h (tops k) (contents k)

-- What a turn does to the stacks.
pub data Event : Type 0 where
  no_event : Event
  pushed_on : (index v : ℕ) → Event
  popped_off : (index v : ℕ) → Event

abbrev pub OthersSame : ℕ → (ℕ → List ℕ) → (ℕ → List ℕ) → Type 0
OthersSame index before after = (k : ℕ) → k ≢ index → after k ≡ before k

-- The stacks stay as they are, one takes a value at its top, or one gives the value at its top.
abbrev pub Follows : Event → (ℕ → List ℕ) → (ℕ → List ℕ) → Type 0
Follows no_event before after = (k : ℕ) → after k ≡ before k
Follows (pushed_on index v) before after =
    (after index ≡ v ∷ before index) × OthersSame index before after
Follows (popped_off index v) before after =
    (before index ≡ v ∷ after index) × OthersSame index before after

-- What the stacks hold before gives what they hold after.
abbrev pub Refines : Event → Heap → (ℕ → ℕ) → Heap → (ℕ → ℕ) → Type 0
Refines event h tops h' tops' =
    (before : ℕ → List ℕ)
    → Holds h tops before
    → (after : ℕ → List ℕ) × Holds h' tops' after × Follows event before after

-- A thread owns no node (0), or one that it has not pushed yet.
abbrev pub Owns : Heap → ℕ → Type 0
Owns h own = (own ≡ 0) ⊎ IsPrivate h own

pub own_node : (h : Heap) (own : ℕ) → Owns h own → 0 < own → IsPrivate h own
own_node h own (inl none_owned) pos = absurd (omega arith)
own_node h own (inr p) pos = p

-- What a turn of a thread keeps that owned `own` and then owns `own'`.
pub record Kept (h : Heap) (tops : ℕ → ℕ) (own : ℕ) (event : Event) (h' : Heap) (tops' : ℕ → ℕ)
    (own' : ℕ) : Type 0 where
  pub heap : IsHeap h'
  pub extends : Extends h h'
  pub refines : Refines event h tops h' tops'
  pub others : (a : ℕ) → IsPrivate h a → a ≢ own → IsPrivate h' a × (h'.next a ≡ h.next a)
  pub owns : Owns h' own'
  pub passes : (own' ≡ own) ⊎ ((own' ≡ 0) ⊎ (h.fresh ≤ own'))

Holds-mono :
    (h h' : Heap) (tops tops' : ℕ → ℕ)
    → Extends h h'
    → ((k : ℕ) → tops' k ≡ tops k)
    → Refines no_event h tops h' tops'
Holds-mono h h' tops tops' g same before holds = (
  before,
  λ k. subst (λ a. Chain h' a (before k)) (sym (same k)) (Chain-mono h h' g _ _ (holds k)),
  λ k. refl,
)

module _ (h : Heap) (ok : IsHeap h) (tops : ℕ → ℕ) (own : ℕ) (owns : Owns h own) where
  -- A turn that leaves the heap and the stacks alone.
  pub quiet : (tops' : ℕ → ℕ) → ((k : ℕ) → tops' k ≡ tops k) → Kept h tops own no_event h tops' own
  quiet tops' same = record {
    heap = ok;
    extends = Extends-same h;
    refines = Holds-mono h h tops tops' (Extends-same h) same;
    others = λ a p ne. (p, refl);
    owns = owns;
    passes = inl refl;
  }

  pub create-Kept : (v : ℕ) → Kept h tops own no_event (create_node h v).0 tops h.fresh
  create-Kept v = record {
    heap = create-IsHeap h ok v;
    extends = create-Extends h ok v;
    refines = Holds-mono h _ tops tops (create-Extends h ok v) (λ k. refl);
    others = λ a p ne. create_other h ok v a p;
    owns = inr (create-IsPrivate h ok v);
    passes = inr (inr (omega arith));
  }

module _ (contents : ℕ → List ℕ) (index : ℕ) (values : List ℕ) where
  replaced_here : update contents index values index ≡ values
  replaced_here = elim (Bool-cases (index == index)) [
    | inl e ↦ rw e refl
    | inr e ↦ absurd (==→ne index index e refl)
  ]

  replaced_other : (k : ℕ) → k ≢ index → update contents index values k ≡ contents k
  replaced_other k ne = elim (Bool-cases (index == k)) [
    | inl e ↦ absurd (ne (sym (==→eq index k e)))
    | inr e ↦ rw e refl
  ]

  -- A chain at one top, and the old chains elsewhere.
  replaced-Holds :
      (h h' : Heap) (tops tops' : ℕ → ℕ)
      → Extends h h'
      → ((k : ℕ) → k ≢ index → tops' k ≡ tops k)
      → Holds h tops contents
      → Chain h' (tops' index) values
      → Holds h' tops' (update contents index values)
  replaced-Holds h h' tops tops' g same holds chain k = elim (Bool-cases (index == k)) [
    | inl e ↦ rw e (subst (λ j. Chain h' (tops' j) values) (==→eq index k e) chain)
    | inr e ↦
        let off = same k (λ f. ==→ne index k e (sym f)) in
        rw e (subst (λ a. Chain h' a (contents k)) (sym off) (Chain-mono h h' g _ _ (holds k)))
  ]

module _ (h : Heap) (ok : IsHeap h) (tops : ℕ → ℕ) where
  module _ (own : ℕ) (p : IsPrivate h own) where
    pub set_next-Kept : (next : ℕ) → Kept h tops own no_event (set_next h own next) tops own
    set_next-Kept next = record {
      heap = set_next-IsHeap h ok own p next;
      extends = set_next-Extends h ok own p next;
      refines = Holds-mono h _ tops tops (set_next-Extends h ok own p next) (λ k. refl);
      others =
          λ a q ne. (set_next-IsPrivate h ok own p next a q, set_next_other h ok own p next a ne);
      owns = inr (set_next-IsPrivate h ok own p next own p);
      passes = inl refl;
    }

    -- A push: the node becomes the top of the stack whose top it has as its next.
    module _ (tops' : ℕ → ℕ) (index : ℕ) (next : h.next own ≡ tops index) (here : tops' index ≡ own)
        (same : (k : ℕ) → k ≢ index → tops' k ≡ tops k) where
      push-Refines : Refines (pushed_on index (h.val own)) h tops (link h own) tops'
      unfolding link
      push-Refines before holds =
          let values = h.val own ∷ before index in
          let rest : Chain (link h own) (h.next own) (before index) =
            subst (λ a. Chain (link h own) a (before index)) (sym next)
              (Chain-mono h _ (link-Extends h ok own p) _ _ (holds index)) in
          let chain : Chain (link h own) (tops' index) values =
            subst (λ a. Chain (link h own) a values) (sym here)
              (link_node h ok own p, refl, rest) in
          (
            update before index values,
            replaced-Holds before index values h (link h own) tops tops' (link-Extends h ok own p)
                same holds chain,
            (replaced_here before index values, replaced_other before index values),
          )

      pub push-Kept : Kept h tops own (pushed_on index (h.val own)) (link h own) tops' 0
      push-Kept = record {
        heap = link-IsHeap h ok own p;
        extends = link-Extends h ok own p;
        refines = push-Refines;
        others = λ a q ne. (link-IsPrivate h ok own p a ne q, link-next h ok own p a);
        owns = inl refl;
        passes = inr (inl refl);
      }

  -- A pop: the node behind the top becomes the top.
  module _ (tops' : ℕ → ℕ) (index node : ℕ) (top : tops index ≡ node) (some_node : node ≢ 0)
      (here : tops' index ≡ h.next node) (same : (k : ℕ) → k ≢ index → tops' k ≡ tops k) where
    popped-Refines :
        (before : ℕ → List ℕ)
        → Holds h tops before
        → (values : List ℕ) → before index ≡ values
        → (after : ℕ → List ℕ) × Holds h tops' after
          × Follows (popped_off index (h.val node)) before after
    popped-Refines before holds [] e =
        absurd (some_node (sym top ∙ subst (Chain h (tops index)) e (holds index)))
    popped-Refines before holds (v ∷ rest) e =
        let chain = subst (Chain h (tops index)) e (holds index) in
        let value : h.val node ≡ v = ap h.val (sym top) ∙ chain.1 in
        let behind : tops' index ≡ h.next (tops index) = here ∙ ap h.next (sym top) in
        (
          update before index rest,
          replaced-Holds before index rest h h tops tops' (Extends-same h) same holds
              (subst (λ a. Chain h a rest) (sym behind) chain.2),
          (
            e
                ∙ ap (λ x. x ∷ rest) (sym value)
                ∙ ap (λ l. h.val node ∷ l) (sym (replaced_here before index rest)),
            replaced_other before index rest,
          ),
        )

    pub pop-Kept : Kept h tops 0 (popped_off index (h.val node)) h tops' 0
    pop-Kept = record {
      heap = ok;
      extends = Extends-same h;
      refines = λ before holds. popped-Refines before holds (before index) refl;
      others = λ a p ne. (p, refl);
      owns = inl refl;
      passes = inl refl;
    }
