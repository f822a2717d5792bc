-- ===== src/Dcbo/Best.antt =====
-- The partial queue that an operation works on did best among those that it sampled.
use native.Mathlib.Nat.{mod-lt}
use semantic_relaxation_dcbo.Prelude.{
  ℕ, zero, suc, ◌+◌, ◌-◌, ◌%◌, ◌≤◌, ◌<◌, ◌≡◌, Bool, arith, refl, ltb, ◌==◌, Bool-cases, inl, inr,
  ltb→lt, ltb→ge, ==→eq, ==→ne,
}
use semantic_relaxation_dcbo.Dcbo.Partial.{Partial}
use semantic_relaxation_dcbo.Dcbo.Choice.{
  unsigned_rank, enq_heuristic, sample, reading, choose_loop, choose, enqueue,
}

module _ (p : Partial) (width : ℕ) (H : ℕ → ℕ → p.Queue) (draw : ℕ → ℕ) (rank : ℕ → ℕ)
    (heuristic : p.Queue → ℕ) where
  -- Of the samples from access `from` up to `to`, one gave this index and value, and none gave a
  -- lower rank.
  pub record IsBest (from to index value : ℕ) : Type 0 where
    pub at : ℕ
    pub after : from ≤ at
    pub before : at < to
    pub index_sampled : index ≡ sample p width H draw at
    pub value_read : value ≡ reading p width H draw heuristic at
    pub least : (m : ℕ) → from ≤ m → m < to → rank value ≤ rank (reading p width H draw heuristic m)

  pub best_sample :
      (from to index value : ℕ) (b : IsBest from to index value) (m : ℕ)
      → from ≤ m
      → m < to
      → rank (heuristic (H b.at index)) ≤ rank (heuristic (H m (draw m % width)))
  best_sample from to index value b m lo hi = rw (b.index_sampled, ← b.value_read) (b.least m lo hi)

  module _ (from k index value : ℕ) (le : from ≤ k) (b : IsBest from k index value) where
    new-IsBest :
        rank (reading p width H draw heuristic k) < rank value
        → IsBest from (k + 1) (sample p width H draw k) (reading p width H draw heuristic k)
    new-IsBest lt = record {
      at = k;
      after = le;
      before = omega arith;
      index_sampled = refl;
      value_read = refl;
      least = λ m lo hi. elim (Bool-cases (m == k)) [
        | inl now ↦ rw (==→eq m k now) (omega arith)
        | inr earlier ↦ omega (arith, lt, b.least m lo (omega (arith, ==→ne _ _ earlier)))
      ];
    }

    old-IsBest :
        rank value ≤ rank (reading p width H draw heuristic k) → IsBest from (k + 1) index value
    old-IsBest ge = record {
      at = b.at;
      after = b.after;
      before = omega (arith, b.before);
      index_sampled = b.index_sampled;
      value_read = b.value_read;
      least = λ m lo hi. elim (Bool-cases (m == k)) [
        | inl now ↦ rw (==→eq m k now) ge
        | inr earlier ↦ b.least m lo (omega (arith, ==→ne _ _ earlier))
      ];
    }

  choose_loop-IsBest :
      (from n k index value : ℕ)
      → from ≤ k
      → IsBest from k index value
      → let c = choose_loop p width H draw rank heuristic n k index value in
        IsBest from c.access c.index c.value × (c.access ≡ k + n)
  unfolding choose_loop
  choose_loop-IsBest from zero k index value le b = (b, omega arith)
  choose_loop-IsBest from (suc n) k index value le b =
      elim (Bool-cases (ltb (rank (reading p width H draw heuristic k)) (rank value))) [
        | inl better ↦
            rw (better, choose_loop)
              (let r =
                  choose_loop-IsBest from n (k + 1) _ _ (omega arith)
                    (new-IsBest from k index value le b (ltb→lt _ _ better)) in
                (r.0, omega (arith, r.1)))
        | inr worse ↦
            rw (worse, choose_loop)
              (let r =
                  choose_loop-IsBest from n (k + 1) _ _ (omega arith)
                    (old-IsBest from k index value le b (ltb→ge _ _ worse)) in
                (r.0, omega (arith, r.1)))
      ]

  first-IsBest :
      (k : ℕ) → IsBest k (k + 1) (sample p width H draw k) (reading p width H draw heuristic k)
  first-IsBest k = record {
    at = k;
    after = omega arith;
    before = omega arith;
    index_sampled = refl;
    value_read = refl;
    least = λ m lo hi. let now : m ≡ k = omega arith in rw now (omega arith);
  }

  pub choose-IsBest :
      (d k : ℕ)
      → let c = choose p width H draw rank heuristic d k in
        IsBest k c.access c.index c.value × (c.access ≡ k + 1 + (d - 1))
  unfolding choose
  choose-IsBest d k = choose_loop-IsBest k (d - 1) (k + 1) _ _ (omega arith) (first-IsBest k)

  -- In range, since it was sampled.
  pub choose-lt : (d k : ℕ) → 0 < width → (choose p width H draw rank heuristic d k).index < width
  choose-lt d k wide = let b = (choose-IsBest d k).0 in rw b.index_sampled (mod-lt (draw b.at) wide)

-- `enqueue` takes `d` samples (one if `d` is 0) and enqueues `key` and `val` on a partial queue in
-- range; that
-- queue's count of enqueues (or its length, under LENGTH_HEURISTIC) was, when it was sampled, no
-- more than that of any other sample when that was taken.
pub enqueue_best :
    (p : Partial) (width : ℕ) (H : ℕ → ℕ → p.Queue) (draw : ℕ → ℕ) (length_heuristic : Bool)
    (d key val k : ℕ)
    → 0 < width
    → let (index, at, queue) = enqueue p width H draw length_heuristic d key val k in
      let heuristic = enq_heuristic p length_heuristic in
      (index < width)
      × (at ≡ k + 1 + (d - 1))
      × (queue ≡ p.enqueue key val (H at index))
      × ((s : ℕ) × (k ≤ s)
          × (s < at)
          × (index ≡ draw s % width)
          × ((m : ℕ) → k ≤ m → m < at → heuristic (H s index) ≤ heuristic (H m (draw m % width))))
unfolding enqueue
enqueue_best p width H draw length_heuristic d key val k wide =
    let heuristic = enq_heuristic p length_heuristic in
    let r = choose-IsBest p width H draw unsigned_rank heuristic d k in
    let b = r.0 in
    (
      choose-lt p width H draw unsigned_rank heuristic d k wide,
      r.1,
      refl,
      (
        b.at,
        b.after,
        b.before,
        b.index_sampled,
        best_sample p width H draw unsigned_rank heuristic k _ _ _ b,
      ),
    )
