-- ===== src/Machine/Pairs.antt =====
-- Invariants that also speak of any two threads: that what they own is apart.
use semantic_relaxation_dcbo.Prelude.{
  ℕ, suc, ◌+◌, ◌≤◌, ◌<◌, ◌≢◌, List, [], ◌∷◌, length, arith, subst, Bool-cases, inl, inr, ◌==◌,
  ==→eq, ==→ne,
}
use semantic_relaxation_dcbo.Machine.{System, turn, run}

pub record PairInv {S L : Type 0} (Shared : ℕ → S → Type 0) (Local : S → L → Type 0)
    (Apart : L → L → Type 0) (n : ℕ) (s : System S L) : Type 0 where
  pub memory : Shared n s.shared
  pub threads : (i : ℕ) → Local s.shared (s.local i)
  pub apart : (i j : ℕ) → i ≢ j → Apart (s.local i) (s.local j)

module _ {S L : Type 0} (step : ℕ → S → L → S × L) (Shared : ℕ → S → Type 0)
    (Local : S → L → Type 0) (Apart : L → L → Type 0) (limit : ℕ)
    (swap : (l q : L) → Apart l q → Apart q l)
    (own : (n c : ℕ) (s : S) (l : L)
      → n < limit
      → Shared n s
      → Local s l
      → Shared (suc n) (step c s l).0 × Local (step c s l).0 (step c s l).1)
    (other : (n c : ℕ) (s : S) (l q : L)
      → n < limit
      → Shared n s
      → Local s l
      → Local s q
      → Apart l q
      → Local (step c s l).0 q × Apart (step c s l).1 q) where
  pub turn-PairInv :
      (n i c : ℕ) (s : System S L)
      → n < limit
      → PairInv Shared Local Apart n s
      → PairInv Shared Local Apart (suc n) (turn step s i c)
  unfolding turn
  turn-PairInv n i c s h v = record {
    memory = (own n c s.shared (s.local i) h v.memory (v.threads i)).0;
    threads = λ j. elim (Bool-cases (i == j)) [
      | inl e ↦ rw e (own n c s.shared (s.local i) h v.memory (v.threads i)).1
      | inr e ↦ rw e (others j (==→ne i j e)).0
    ];
    apart = λ j k ne. elim (Bool-cases (i == j)) [
      | inl e ↦ elim (Bool-cases (i == k)) [
        | inl f ↦ absurd (omega (arith, ==→eq i j e, ==→eq i k f, ne))
        | inr f ↦ rw (e, f) (others k (==→ne i k f)).1
      ]
      | inr e ↦ elim (Bool-cases (i == k)) [
        | inl f ↦ rw (e, f) (swap _ _ (others j (==→ne i j e)).1)
        | inr f ↦ rw (e, f) (v.apart j k ne)
      ]
    ];
  }
    where
      others :
          (j : ℕ)
          → i ≢ j
          → Local (step c s.shared (s.local i)).0 (s.local j)
            × Apart (step c s.shared (s.local i)).1 (s.local j)
      others j ne =
          other n c s.shared (s.local i) (s.local j) h v.memory (v.threads i) (v.threads j)
            (v.apart i j ne)

  pub run-PairInv :
      (n : ℕ) (schedule : List (ℕ × ℕ)) (s : System S L)
      → n + length schedule ≤ limit
      → PairInv Shared Local Apart n s
      → PairInv Shared Local Apart (n + length schedule) (run step schedule s)
  unfolding run
  run-PairInv n [] s h v = subst (λ k. PairInv Shared Local Apart k s) (omega arith) v
  run-PairInv n ((i, c) ∷ rest) s h v =
      let next =
        run-PairInv (suc n) rest (turn step s i c) (omega arith)
          (turn-PairInv n i c s (omega arith) v) in
      subst (λ k. PairInv Shared Local Apart k (run step rest (turn step s i c))) (omega arith) next

  -- A reflexive and transitive relation that each turn keeps holds from start to end.
  module _ (R : S → S → Type 0) (same : (s : S) → R s s)
      (chain : (s r q : S) → R s r → R r q → R s q)
      (related : (n c : ℕ) (s : S) (l : L)
        → n < limit
        → Shared n s
        → Local s l
        → R s (step c s l).0) where
    pub run-PairRelated :
        (n : ℕ) (schedule : List (ℕ × ℕ)) (s : System S L)
        → n + length schedule ≤ limit
        → PairInv Shared Local Apart n s
        → R s.shared (run step schedule s).shared
    unfolding run turn
    run-PairRelated n [] s h v = same s.shared
    run-PairRelated n ((i, c) ∷ rest) s h v =
        chain _ _ _ (related n c s.shared (s.local i) (omega arith) v.memory (v.threads i)) (
          run-PairRelated (suc n) rest (turn step s i c) (omega arith)
            (turn-PairInv n i c s (omega arith) v))
