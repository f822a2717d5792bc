-- ===== src/Dra/Stamps.antt =====
-- The timestamps of src/stack-dra: what a turn does to them, and to the tops of the stacks.
pub mod Steps
pub mod Height
use semantic_relaxation_dcbo.Prelude.{
  ℕ, zero, suc, ◌+◌, ◌^◌, ◌≤◌, ◌<◌, ◌≡◌, ◌≢◌, true, false, ltb, List, [], ◌∷◌, length, arith, refl,
  sym, ap, subst, ◌∙◌, ◌==◌, Bool-cases, inl, inr, ==→eq, ==→ne, update, add64,
}
use semantic_relaxation_dcbo.Nodes.Heap.{
  Heap, IsHeap, IsSeen, Extends, Chain, Chain-mono, set_next, link,
}
use semantic_relaxation_dcbo.Nodes.Stacks.{
  Holds, Event, no_event, pushed_on, popped_off, Follows, Owns,
}
use semantic_relaxation_dcbo.Dra.{
  Params, Shared, Descriptor, DraPc, idle, push_first, push_next, push_compare, push_link, push_cae,
  pushed, pop_first, pop_next, pop_compare, pop_read, pop_cae, pop_val, popped, popped_empty,
  stack_cae, next_timestamp, push_link_step, push_cae_step, pop_cae_step, push_loop, pop_loop,
  push_first_step, push_compare_step, pop_compare_step, pop_read_step, begin, step,
}
use semantic_relaxation_dcbo.Dra.Refine.{event, tops_of, owned, Knows}

-- Along a chain of nodes, each timestamp is the number of the nodes below.
abbrev pub Stamped : Heap → (timestamp : ℕ → ℕ) → ℕ → List ℕ → Type 0
Stamped h timestamp a [] = Unit
Stamped h timestamp a (v ∷ rest) = (timestamp a ≡ length rest) × Stamped h timestamp (h.next a) rest

Stamped-mono :
    (h h' : Heap) (timestamp timestamp' : ℕ → ℕ)
    → Extends h h'
    → ((a : ℕ) → h.linked a ≡ true → timestamp' a ≡ timestamp a)
    → (a : ℕ) (values : List ℕ) → Chain h a values
    → Stamped h timestamp a values
    → Stamped h' timestamp' a values
Stamped-mono h h' timestamp timestamp' g same a [] c st = tt
Stamped-mono h h' timestamp timestamp' g same a (v ∷ rest) (l, e, c) (here, st) = (
  same a l ∙ here,
  subst (λ b. Stamped h' timestamp' b rest) (sym (g.next_same a l))
      (Stamped-mono h h' timestamp timestamp' g same (h.next a) rest c st),
)

-- What an event does to the tops, and which timestamp a new top has.
abbrev pub Moved : Event → Shared → Shared → Type 0
Moved no_event s s' = (k : ℕ) → s'.array k ≡ s.array k
Moved (pushed_on i v) s s' =
    (s'.timestamp (s'.array i) ≡ next_timestamp s (s.array i))
    × (s'.heap.next (s'.array i) ≡ s.array i)
    × ((k : ℕ) → k ≢ i → s'.array k ≡ s.array k)
Moved (popped_off i v) s s' =
    (s'.array i ≡ s.heap.next (s.array i)) × ((k : ℕ) → k ≢ i → s'.array k ≡ s.array k)

abbrev pub AllStamped : Shared → (ℕ → List ℕ) → Type 0
AllStamped s contents = (k : ℕ) → Stamped s.heap s.timestamp (s.array k) (contents k)

-- The timestamp over a chain is its length.
next_timestamp-length :
    (s : Shared) (a : ℕ) (values : List ℕ)
    → IsHeap s.heap
    → Chain s.heap a values
    → Stamped s.heap s.timestamp a values
    → length values < 2 ^ 64
    → next_timestamp s a ≡ length values
next_timestamp-length s a [] ok c st fits = rw c refl
next_timestamp-length s a (v ∷ rest) ok c st fits = elim (Bool-cases (a == 0)) [
  | inl e ↦ absurd (cc (c.0, ap s.heap.linked (==→eq a 0 e), ok.null))
  | inr e ↦ rw e (omega (arith, st.0))
]

module _ (s s' : Shared) (ok : IsHeap s.heap) (g : Extends s.heap s'.heap)
    (same : (a : ℕ) → s.heap.linked a ≡ true → s'.timestamp a ≡ s.timestamp a)
    (before after : ℕ → List ℕ) (holds : Holds s.heap (tops_of s) before)
    (stamped : AllStamped s before) where
  -- A stack that has not moved.
  still-Stamped :
      (k : ℕ)
      → after k ≡ before k
      → s'.array k ≡ s.array k
      → Stamped s'.heap s'.timestamp (s'.array k) (after k)
  still-Stamped k content top =
      subst (λ l. Stamped s'.heap s'.timestamp (s'.array k) l) (sym content)
        (subst (λ a. Stamped s'.heap s'.timestamp a (before k)) (sym top)
          (Stamped-mono s.heap s'.heap s.timestamp s'.timestamp g same (s.array k) (before k)
            (holds k) (stamped k)))

  one-Stamped :
      (i : ℕ)
      → Stamped s'.heap s'.timestamp (s'.array i) (after i)
      → ((k : ℕ) → k ≢ i → after k ≡ before k)
      → ((k : ℕ) → k ≢ i → s'.array k ≡ s.array k)
      → AllStamped s' after
  one-Stamped i here content top k = elim (Bool-cases (k == i)) [
    | inl e ↦
        subst (λ j. Stamped s'.heap s'.timestamp (s'.array j) (after j)) (sym (==→eq k i e)) here
    | inr e ↦ let off = ==→ne k i e in still-Stamped k (content k off) (top k off)
  ]

  pub Follows-Stamped :
      (e : Event)
      → ((k : ℕ) → length (before k) < 2 ^ 64)
      → Follows e before after
      → Moved e s s'
      → AllStamped s' after
  Follows-Stamped no_event fits f m = λ k. still-Stamped k (f k) (m k)
  Follows-Stamped (pushed_on i v) fits (f, others) (stamp, next, m) =
      let below =
        Stamped-mono s.heap s'.heap s.timestamp s'.timestamp g same (s.array i) (before i) (holds i)
          (stamped i) in
      let high =
        stamp ∙ next_timestamp-length s (s.array i) (before i) ok (holds i) (stamped i) (fits i) in
      let here : Stamped s'.heap s'.timestamp (s'.array i) (v ∷ before i) =
        (high, subst (λ a. Stamped s'.heap s'.timestamp a (before i)) (sym next) below) in
      one-Stamped i (subst (Stamped s'.heap s'.timestamp (s'.array i)) (sym f) here) others m
  Follows-Stamped (popped_off i v) fits (f, others) (top, m) =
      let chain : Chain s.heap (s.array i) (v ∷ after i) =
        subst (Chain s.heap (s.array i)) f (holds i) in
      let stamps : Stamped s.heap s.timestamp (s.array i) (v ∷ after i) =
        subst (Stamped s.heap s.timestamp (s.array i)) f (stamped i) in
      let below =
        Stamped-mono s.heap s'.heap s.timestamp s'.timestamp g same (s.heap.next (s.array i))
          (after i) chain.2 stamps.1 in
      one-Stamped i (subst (λ a. Stamped s'.heap s'.timestamp a (after i)) (sym top) below) others m

-- Between the writes of `push` and its compare-exchange.
abbrev pub StampKnows : Shared → DraPc → Type 0
StampKnows s (push_cae new_node d) =
    IsSeen s.heap d.node × (s.timestamp new_node ≡ next_timestamp s d.node)
StampKnows s _ = Unit

-- What a turn keeps of the timestamps.
pub record StampKept (s : Shared) (pc : DraPc) (r : Shared × DraPc) : Type 0 where
  pub same : (a : ℕ) → a ≢ owned pc → r.0.timestamp a ≡ s.timestamp a
  pub moved : Moved (event s pc r.1) s r.0
  pub known : StampKnows r.0 r.1
