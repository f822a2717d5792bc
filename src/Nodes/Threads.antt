-- ===== src/Nodes/Threads.antt =====
-- Threads that push nodes on an array of linked stacks and pop them off, by steps of any kind: if
-- each step keeps the heap and does to the stacks what its event says, then every run is a run of
-- sequential stacks.
use semantic_relaxation_dcbo.Prelude.{
  ℕ, suc, ◌≤◌, ◌<◌, ◌≡◌, ◌≢◌, ◌⊎◌, inl, inr, List, [], ◌∷◌, arith, refl, sym, subst, ◌∙◌,
}
use semantic_relaxation_dcbo.Machine.{System, turn, run}
use semantic_relaxation_dcbo.Machine.Pairs.{PairInv, turn-PairInv}
use semantic_relaxation_dcbo.Nodes.Heap.{
  Heap, IsHeap, IsPrivate, Extends, Extends-same, Extends-trans,
}
use semantic_relaxation_dcbo.Nodes.Stacks.{
  Holds, Event, no_event, quiet, Follows, Refines, Owns, Kept,
}

-- What sequential stacks can do in the course of these events.
abbrev pub Replays : List Event → (ℕ → List ℕ) → (ℕ → List ℕ) → Type 0
Replays [] before after = (k : ℕ) → after k ≡ before k
Replays (e ∷ rest) before after =
    (next : ℕ → List ℕ) × Follows e before next × Replays rest next after

-- The events of a schedule, by where a turn finds and leaves its thread.
module _ {S L : Type 0} (step : ℕ → S → L → S × L) (event : S → L → L → Event) where
  unfoldable pub events : List (ℕ × ℕ) → System S L → List Event
  unfolding turn
  events [] s = []
  events ((i, c) ∷ rest) s =
      event s.shared (s.local i) (step c s.shared (s.local i)).1 ∷ events rest (turn step s i c)

module _ {S L : Type 0} (step : ℕ → S → L → S × L) (event : S → L → L → Event) (heap : S → Heap)
    (tops : S → ℕ → ℕ) (owned : L → ℕ) (Knows : S → L → Type 0) where
  -- What a turn from `l` keeps.
  pub record TurnKept (s : S) (l : L) (r : S × L) : Type 0 where
    pub kept : Kept (heap s) (tops s) (owned l) (event s l r.1) (heap r.0) (tops r.0) (owned r.1)
    pub knows : Knows r.0 r.1

  -- A turn that moves no node.
  pub quiet-TurnKept :
      (s s' : S) (l l' : L)
      → IsHeap (heap s)
      → heap s' ≡ heap s
      → ((k : ℕ) → tops s' k ≡ tops s k)
      → owned l' ≡ owned l
      → Owns (heap s) (owned l)
      → event s l l' ≡ no_event
      → Knows s' l'
      → TurnKept s l (s', l')
  quiet-TurnKept s s' l l' ok same tops_same own_same owns none_done k =
      let kept = quiet (heap s) ok (tops s) (owned l) owns (tops s') tops_same in
      let named =
        subst (λ e. Kept (heap s) (tops s) (owned l) e (heap s) (tops s') (owned l)) (sym none_done)
          kept in
      let held =
        subst (λ a. Kept (heap s) (tops s) (owned l) (event s l l') (heap s) (tops s') a)
          (sym own_same) named in
      record {
        kept =
            subst (λ h. Kept (heap s) (tops s) (owned l) (event s l l') h (tops s') (owned l'))
              (sym same) held;
        knows = k;
      }

  abbrev pub StackShared : ℕ → S → Type 0
  StackShared n s = IsHeap (heap s) × (contents : ℕ → List ℕ) × Holds (heap s) (tops s) contents

  pub record StackLocal (s : S) (l : L) : Type 0 where
    pub owns : Owns (heap s) (owned l)
    pub knows : Knows s l

  abbrev pub Apart : L → L → Type 0
  Apart l q = 0 < owned l → owned l ≢ owned q

  pub Apart-swap : (l q : L) → Apart l q → Apart q l
  Apart-swap l q h pos e = h (omega arith) (sym e)

  abbrev pub StackInv : System S L → Type 0
  StackInv = PairInv StackShared StackLocal Apart 0

  module _
      (keeps : (c : ℕ) (s : S) (l : L)
        → IsHeap (heap s)
        → (contents : ℕ → List ℕ) → Holds (heap s) (tops s) contents
        → Owns (heap s) (owned l)
        → Knows s l
        → TurnKept s l (step c s l))
      (stable : (s s' : S) (l : L)
        → Extends (heap s) (heap s')
        → (0 < owned l → (heap s').next (owned l) ≡ (heap s).next (owned l))
        → Knows s l
        → Knows s' l) where
    pub own_kept :
        (n c : ℕ) (s : S) (l : L)
        → StackShared n s
        → StackLocal s l
        → StackShared (suc n) (step c s l).0 × StackLocal (step c s l).0 (step c s l).1
    own_kept n c s l (ok, before, holds) k =
        let r = keeps c s l ok before holds k.owns k.knows in
        let (after, held, follows) = r.kept.refines before holds in
        ((r.kept.heap, after, held), record { owns = r.kept.owns; knows = r.knows })

    other_owned :
        (h h' : Heap) (a b : ℕ)
        → (0 < a → a ≢ b)
        → ((x : ℕ) → IsPrivate h x → x ≢ a → IsPrivate h' x × (h'.next x ≡ h.next x))
        → Owns h b
        → Owns h' b × (0 < b → h'.next b ≡ h.next b)
    other_owned h h' a b apart others (inl e) = (inl e, λ pos. absurd (omega arith))
    other_owned h h' a b apart others (inr p) =
        let (q, same) = others b p (λ e. apart (omega (arith, p.some_node)) (sym e)) in
        (inr q, λ pos. same)

    still_apart :
        (h : Heap) (a a' b : ℕ)
        → (0 < a → a ≢ b)
        → Owns h b
        → (a' ≡ a) ⊎ ((a' ≡ 0) ⊎ (h.fresh ≤ a'))
        → 0 < a'
        → a' ≢ b
    still_apart h a a' b apart owns (inl same) pos e = apart (omega arith) (sym same ∙ e)
    still_apart h a a' b apart owns (inr (inl none)) pos e = absurd (omega arith)
    still_apart h a a' b apart (inl none) (inr (inr young)) pos e = absurd (omega arith)
    still_apart h a a' b apart (inr p) (inr (inr young)) pos e = absurd (omega (arith, p.made))

    pub other_kept :
        (n c : ℕ) (s : S) (l q : L)
        → StackShared n s
        → StackLocal s l
        → StackLocal s q
        → Apart l q
        → StackLocal (step c s l).0 q × Apart (step c s l).1 q
    other_kept n c s l q (ok, before, holds) k m apart =
        let r = keeps c s l ok before holds k.owns k.knows in
        let o = other_owned (heap s) _ (owned l) (owned q) apart r.kept.others m.owns in
        (
          record { owns = o.0; knows = stable s _ q r.kept.extends o.1 m.knows },
          still_apart (heap s) (owned l) _ (owned q) apart m.owns r.kept.passes,
        )

    next_Inv : (i c : ℕ) (s : System S L) → StackInv s → StackInv (turn step s i c)
    next_Inv i c s v =
        let w =
          turn-PairInv step StackShared StackLocal Apart 1 Apart-swap
            (λ n c s l few. own_kept n c s l) (λ n c s l q few. other_kept n c s l q) 0 i c s
            (omega arith) v in
        record { memory = w.memory; threads = w.threads; apart = w.apart }

    pub run-StackInv :
        (schedule : List (ℕ × ℕ)) (s : System S L) → StackInv s → StackInv (run step schedule s)
    unfolding run
    run-StackInv [] s v = v
    run-StackInv ((i, c) ∷ rest) s v = run-StackInv rest (turn step s i c) (next_Inv i c s v)

    -- A turn does to the stacks what its event says.
    turn-Refines :
        (i c : ℕ) (s : System S L)
        → StackInv s
        → let l = s.local i in
          let r = step c s.shared l in
          Refines (event s.shared l r.1) (heap s.shared) (tops s.shared) (heap r.0) (tops r.0)
    turn-Refines i c s v =
        let (ok, before, holds) = v.memory in
        let r =
          keeps c s.shared (s.local i) ok before holds (v.threads i).owns (v.threads i).knows in
        r.kept.refines

    pub run-Replays :
        (schedule : List (ℕ × ℕ)) (s : System S L)
        → StackInv s
        → (before : ℕ → List ℕ) → Holds (heap s.shared) (tops s.shared) before
        → let s' = run step schedule s in
          (after : ℕ → List ℕ) × Holds (heap s'.shared) (tops s'.shared) after
          × Replays (events step event schedule s) before after
    unfolding run turn events
    run-Replays [] s v before holds = (before, holds, λ k. refl)
    run-Replays ((i, c) ∷ rest) s v before holds =
        let (next, held, follows) = turn-Refines i c s v before holds in
        let (after, ends, replays) =
          run-Replays rest (turn step s i c) (next_Inv i c s v) next held in
        (after, ends, (next, follows, replays))

    -- Linked nodes keep their fields in every run.
    pub run-Extends :
        (schedule : List (ℕ × ℕ)) (s : System S L)
        → StackInv s
        → Extends (heap s.shared) (heap (run step schedule s).shared)
    unfolding run turn
    run-Extends [] s v = Extends-same (heap s.shared)
    run-Extends ((i, c) ∷ rest) s v =
        let (ok, before, holds) = v.memory in
        let r =
          keeps c s.shared (s.local i) ok before holds (v.threads i).owns (v.threads i).knows in
        Extends-trans _ _ _ r.kept.extends (run-Extends rest (turn step s i c) (next_Inv i c s v))
