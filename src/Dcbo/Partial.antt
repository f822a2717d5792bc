-- ===== src/Dcbo/Partial.antt =====
-- The macros PARTIAL_* that a partial queue defines for d-balanced-queue.c, and what the double
-- collect relies on: the tail version goes by the number of enqueues and comes again only after a
-- cycle of them, and an empty queue stays empty when it is dequeued. Dcbo/Queue fills it.
use native.Mathlib.Nat.{add-zero}
use semantic_relaxation_dcbo.Prelude.{ℕ, zero, suc, subst, ◌-◌, ◌+◌, ◌≤◌, ◌<◌, ◌≡◌, arith}

pub record Partial : Type 1 where
  pub Queue : Type 0
  pub enqueue : (key val : ℕ) → Queue → Queue
  -- the value taken, or 0 for EMPTY
  pub dequeue : Queue → ℕ × Queue
  pub queue_length : Queue → ℕ
  pub tail_version : Queue → ℕ
  pub enq_count : Queue → ℕ
  pub deq_count : Queue → ℕ
  -- How many enqueues there have been, which no code reads. Versions come again after `cycle` of them.
  pub enqueues : Queue → ℕ
  pub cycle : ℕ
  pub enqueues-enqueue : (key val : ℕ) (q : Queue) → enqueues (enqueue key val q) ≡ enqueues q + 1
  pub enqueues-dequeue : (q : Queue) → enqueues (dequeue q).1 ≡ enqueues q
  pub same_version : (q r : Queue) → enqueues q ≡ enqueues r → tail_version q ≡ tail_version r
  pub version_again :
      (q r : Queue)
      → enqueues q ≤ enqueues r
      → enqueues r < enqueues q + cycle
      → tail_version q ≡ tail_version r
      → enqueues q ≡ enqueues r
  pub empty-dequeue : (q : Queue) → (dequeue q).0 ≡ 0 → (dequeue (dequeue q).1).0 ≡ 0

module _ (p : Partial) where
  open p use {Queue, enqueue, dequeue, enqueues, enqueues-enqueue, enqueues-dequeue, empty-dequeue}

  abbrev pub IsEmpty : Queue → Type 0
  IsEmpty q = (dequeue q).0 ≡ 0

  -- What other threads can make of a partial queue.
  pub data Later (q : Queue) : Queue → Type 0 where
    now : Later q q
    enqueued : (key val : ℕ) {r : Queue} → Later q r → Later q (enqueue key val r)
    dequeued : {r : Queue} → Later q r → Later q (dequeue r).1

  pub Later-trans : {q r s : Queue} → Later q r → Later r s → Later q s
  Later-trans h now = h
  Later-trans h (enqueued key val l) = enqueued key val (Later-trans h l)
  Later-trans h (dequeued l) = dequeued (Later-trans h l)

  pub enqueues_mono : {q r : Queue} → Later q r → enqueues q ≤ enqueues r
  enqueues_mono now = omega arith
  enqueues_mono (enqueued key val {r} l) =
      omega (arith, enqueues_mono l, enqueues-enqueue key val r)
  enqueues_mono (dequeued {r} l) = omega (arith, enqueues_mono l, enqueues-dequeue r)

  -- With no enqueue since, an empty queue is still empty.
  pub still-IsEmpty : {q r : Queue} → Later q r → enqueues r ≤ enqueues q → IsEmpty q → IsEmpty r
  still-IsEmpty now same e = e
  still-IsEmpty (enqueued key val {r} l) same e =
      absurd (omega (arith, enqueues_mono l, enqueues-enqueue key val r))
  still-IsEmpty (dequeued {r} l) same e =
      empty-dequeue r (still-IsEmpty l (omega (arith, enqueues-dequeue r)) e)

-- A history of the array of partial queues: each is later at the next access than at this one, and
-- has fewer enqueues in all than a cycle.
pub record IsHistory (p : Partial) (H : ℕ → ℕ → p.Queue) : Type 0 where
  pub next : (k i : ℕ) → Later p (H k i) (H (k + 1) i)
  pub few : (k i : ℕ) → p.enqueues (H k i) < p.enqueues (H 0 i) + p.cycle

module _ {p : Partial} {H : ℕ → ℕ → p.Queue} (h : IsHistory p H) where
  open p use {tail_version, enqueues, version_again}

  Later-from : (a n i : ℕ) → Later p (H a i) (H (a + n) i)
  Later-from a zero i = rw add-zero now
  Later-from a (suc n) i =
      let one_more : a + n + 1 ≡ a + suc n = omega arith in
      rw (← one_more) (Later-trans p (Later-from a n i) (h.next (a + n) i))

  pub Later-at : (a b i : ℕ) → a ≤ b → Later p (H a i) (H b i)
  Later-at a b i le =
      let e : a + (b - a) ≡ b = omega arith in
      subst (λ k. Later p (H a i) (H k i)) e (Later-from a (b - a) i)

  pub enqueues-at : (a b i : ℕ) → a ≤ b → enqueues (H a i) ≤ enqueues (H b i)
  enqueues-at a b i le = enqueues_mono p (Later-at a b i le)

  -- Within a history a version that is found again means that there was no enqueue between.
  pub version-unmoved :
      (a b i : ℕ)
      → a ≤ b
      → tail_version (H a i) ≡ tail_version (H b i)
      → enqueues (H a i) ≡ enqueues (H b i)
  version-unmoved a b i le =
      version_again (H a i) (H b i) (enqueues-at a b i le)
        (omega (arith, h.few b i, enqueues-at 0 a i (omega arith)))
