-- ===== src/Machine.antt =====
-- Threads over shared memory: any number of threads, each a state of its own, interleaved one
-- shared access at a time. A schedule is the list of the turns taken: the thread, and the number
-- that it draws there (the result of `my_random`, or the choice of its next operation).
pub mod Pairs
use semantic_relaxation_dcbo.Prelude.{
  ℕ, zero, suc, ◌+◌, ◌≤◌, ◌<◌, List, [], ◌∷◌, length, update, arith, subst, Bool-cases, inl, inr,
  ◌==◌, ◌≡◌,
}

pub record System (S L : Type 0) : Type 0 where
  pub shared : S
  pub local : ℕ → L

module _ {S L : Type 0} (step : ℕ → S → L → S × L) where
  unfoldable pub turn : System S L → ℕ → ℕ → System S L
  turn s i c =
      let r = step c s.shared (s.local i) in record { shared = r.0; local = update s.local i r.1 }

  unfoldable pub run : List (ℕ × ℕ) → System S L → System S L
  unfolding turn
  run [] s = s
  run ((i, c) ∷ rest) s = run rest (turn s i c)

-- A schedule of `n` turns of thread `i` that draw `c`.
abbrev pub turns : ℕ → ℕ → ℕ → List (ℕ × ℕ)
turns i c zero = []
turns i c (suc n) = (i, c) ∷ turns i c n

-- The sum over a schedule of a weight of each turn, by where it finds and leaves its thread.
module _ {S L : Type 0} (step : ℕ → S → L → S × L) (weight : L → L → ℕ) where
  unfoldable pub tally : List (ℕ × ℕ) → System S L → ℕ
  unfolding turn
  tally [] s = 0
  tally ((i, c) ∷ rest) s =
      weight (s.local i) (step c s.shared (s.local i)).1 + tally rest (turn step s i c)

  pub tally-le :
      ((l l' : L) → weight l l' ≤ 1)
      → (schedule : List (ℕ × ℕ)) (s : System S L) → tally schedule s ≤ length schedule
  unfolding tally
  tally-le one [] s = omega arith
  tally-le one ((i, c) ∷ rest) s =
      omega (
        arith,
        tally-le one rest (turn step s i c),
        one (s.local i) (step c s.shared (s.local i)).1,
      )

-- An invariant: a part about shared memory, which may speak of the number of turns taken, and a
-- part about each thread.
pub record Inv {S L : Type 0} (Shared : ℕ → S → Type 0) (Local : S → L → Type 0) (n : ℕ)
    (s : System S L) : Type 0 where
  pub memory : Shared n s.shared
  pub threads : (i : ℕ) → Local s.shared (s.local i)

-- It holds after every schedule if each step keeps the memory's part, the part of the thread that
-- takes it, and the part of every other thread.
module _ {S L : Type 0} (step : ℕ → S → L → S × L) (Shared : ℕ → S → Type 0)
    (Local : S → L → Type 0) (limit : ℕ)
    (own : (n c : ℕ) (s : S) (l : L)
      → n < limit
      → Shared n s
      → Local s l
      → Shared (suc n) (step c s l).0 × Local (step c s l).0 (step c s l).1)
    (other : (n c : ℕ) (s : S) (l q : L)
      → n < limit
      → Shared n s
      → Local s l
      → Local s q
      → Local (step c s l).0 q) where
  turn-Inv :
      (n i c : ℕ) (s : System S L)
      → n < limit
      → Inv Shared Local n s
      → Inv Shared Local (suc n) (turn step s i c)
  unfolding turn
  turn-Inv n i c s h v = record {
    memory = (own n c s.shared (s.local i) h v.memory (v.threads i)).0;
    threads = λ j. elim (Bool-cases (i == j)) [
      | inl e ↦ rw e (own n c s.shared (s.local i) h v.memory (v.threads i)).1
      | inr e ↦
          rw e (other n c s.shared (s.local i) (s.local j) h v.memory (v.threads i) (v.threads j))
    ];
  }

  pub run-Inv :
      (n : ℕ) (schedule : List (ℕ × ℕ)) (s : System S L)
      → n + length schedule ≤ limit
      → Inv Shared Local n s
      → Inv Shared Local (n + length schedule) (run step schedule s)
  unfolding run
  run-Inv n [] s h v = subst (λ k. Inv Shared Local k s) (omega arith) v
  run-Inv n ((i, c) ∷ rest) s h v =
      let next =
        run-Inv (suc n) rest (turn step s i c) (omega arith) (turn-Inv n i c s (omega arith) v) in
      subst (λ k. Inv Shared Local k (run step rest (turn step s i c))) (omega arith) next

  -- A measure of shared memory that grows by the weight of each turn grows by the tally.
  module _ (measure : S → ℕ) (weight : L → L → ℕ)
      (grows : (n c : ℕ) (s : S) (l : L)
        → n < limit
        → Shared n s
        → Local s l
        → measure (step c s l).0 ≡ measure s + weight l (step c s l).1) where
    pub run-tally :
        (n : ℕ) (schedule : List (ℕ × ℕ)) (s : System S L)
        → n + length schedule ≤ limit
        → Inv Shared Local n s
        → measure (run step schedule s).shared ≡ measure s.shared + tally step weight schedule s
    unfolding run tally turn
    run-tally n [] s h v = omega arith
    run-tally n ((i, c) ∷ rest) s h v = omega (
      arith,
      run-tally (suc n) rest (turn step s i c) (omega arith) (turn-Inv n i c s (omega arith) v),
      grows n c s.shared (s.local i) (omega arith) v.memory (v.threads i),
    )

  -- A measure that grows by what each turn gains and falls by what it loses.
  module _ (measure : S → ℕ) (gain loss : L → L → ℕ)
      (balances : (n c : ℕ) (s : S) (l : L)
        → n < limit
        → Shared n s
        → Local s l
        → measure (step c s l).0 + loss l (step c s l).1 ≡ measure s + gain l (step c s l).1) where
    pub run-balance :
        (n : ℕ) (schedule : List (ℕ × ℕ)) (s : System S L)
        → n + length schedule ≤ limit
        → Inv Shared Local n s
        → measure (run step schedule s).shared + tally step loss schedule s
          ≡ measure s.shared + tally step gain schedule s
    unfolding run tally turn
    run-balance n [] s h v = omega arith
    run-balance n ((i, c) ∷ rest) s h v = omega (
      arith,
      run-balance (suc n) rest (turn step s i c) (omega arith) (turn-Inv n i c s (omega arith) v),
      balances n c s.shared (s.local i) (omega arith) v.memory (v.threads i),
    )

  -- A reflexive and transitive relation that each turn keeps holds from start to end.
  module _ (R : S → S → Type 0) (same : (s : S) → R s s)
      (chain : (s r q : S) → R s r → R r q → R s q)
      (related : (n c : ℕ) (s : S) (l : L)
        → n < limit
        → Shared n s
        → Local s l
        → R s (step c s l).0) where
    pub run-related :
        (n : ℕ) (schedule : List (ℕ × ℕ)) (s : System S L)
        → n + length schedule ≤ limit
        → Inv Shared Local n s
        → R s.shared (run step schedule s).shared
    unfolding run turn
    run-related n [] s h v = same s.shared
    run-related n ((i, c) ∷ rest) s h v =
        chain _ _ _ (related n c s.shared (s.local i) (omega arith) v.memory (v.threads i)) (
          run-related (suc n) rest (turn step s i c) (omega arith)
            (turn-Inv n i c s (omega arith) v))
