-- ===== src/Dcbo/Dequeue.antt =====
-- What a dequeue returns: a value that some partial queue gave it, or EMPTY.
use semantic_relaxation_dcbo.Prelude.{
  ℕ, zero, suc, ◌+◌, ◌-◌, ◌*◌, ◌%◌, ◌^◌, ◌≤◌, ◌<◌, ◌≡◌, ◌≢◌, Bool, arith, refl, sym, subst, ◌⊎◌,
  ◌==◌, Bool-cases, inl, inr, ==→eq, ==→ne,
}
use semantic_relaxation_dcbo.Dcbo.Partial.{Partial, IsHistory}
use semantic_relaxation_dcbo.Dcbo.Collect.{
  Collected, found, collected, Checked, changed, unchanged, returned, collect, check,
  double_collect,
}
use semantic_relaxation_dcbo.Dcbo.Loops.{
  CollectEnds, collect-CollectEnds, CheckEnds, check-CheckEnds,
}
use semantic_relaxation_dcbo.Dcbo.Linearizable.{IsMoment, double_collect-empty}
use semantic_relaxation_dcbo.Dcbo.Choice.{signed_rank, deq_heuristic, choose, dequeue}
use semantic_relaxation_dcbo.Dcbo.Best.{choose-lt, choose-IsBest}

module _ (p : Partial) (width : ℕ) (H : ℕ → ℕ → p.Queue) where
  -- A value that a partial queue gave at an access from `k` on and up to `k_end`.
  abbrev pub Gave : (k k_end v : ℕ) → Type 0
  Gave k k_end v =
      (a : ℕ) × (j : ℕ) × (k ≤ a) × (a ≤ k_end) × (j < width) × (v ≡ (p.dequeue (H a j)).0)

  double_collect-Gave :
      (fuel start k : ℕ) (counts : ℕ → ℕ) (v k_end : ℕ)
      → 0 < width
      → double_collect p width H fuel start k counts ≡ returned v k_end
      → v ≢ 0
      → Gave k k_end v
  unfolding double_collect
  double_collect-Gave zero start k counts v k_end wide e some_value = cc
  double_collect-Gave (suc fuel) start k counts v k_end wide e some_value =
      after_collect
        (λ index k' counts' r. double_collect-Gave fuel index k' counts' v k_end wide r some_value)
        _ refl (collect-CollectEnds p width H k width 0 start k counts (omega arith) wide)
    where
      Again : Type 0
      Again =
          (index k' : ℕ) (counts' : ℕ → ℕ)
          → double_collect p width H fuel index k' counts' ≡ returned v k_end
          → Gave k' k_end v

      after_check :
          Again
          → (counts' : ℕ → ℕ) (k' : ℕ) → k ≤ k'
          → collect p width H width 0 start k counts ≡ collected counts' k'
          → (c : Checked) → check p width H width 0 start k' counts' ≡ c
          → CheckEnds p width H width 0 start k' counts' c
          → Gave k k_end v
      after_check again counts' k' le ec (unchanged k'') ed second =
          absurd (some_value (cc (rw (ec, ed, double_collect) at e)))
      after_check again counts' k' le ec (changed index k'') ed second =
          let (a, j, lo, hi, j_lt, gave) =
            again index (k'' + 1) counts' (rw (ec, ed, double_collect) at e) in
          (a, j, omega (arith, lo, second.0), hi, j_lt, gave)

      after_collect :
          Again
          → (c : Collected) → collect p width H width 0 start k counts ≡ c
          → CollectEnds p width H k width 0 start k counts c
          → Gave k k_end v
      after_collect again (found w k') ec first =
          let same : w ≡ v = cc (rw (ec, double_collect) at e) in
          let last : k' ≡ k_end = cc (rw (ec, double_collect) at e) in
          let (j, j_lt, gave) = first.2 in (k', j, first.0, omega (arith, last), j_lt, cc)
      after_collect again (collected counts' k') ec first =
          after_check again counts' k' first.0 ec _ refl
            (check-CheckEnds p width H width 0 start k' counts' wide)

  module _ (h : IsHistory p H) (draw : ℕ → ℕ) (length_heuristic : Bool) (d : ℕ) where
    -- A call of `dequeue` beside any other threads that returns EMPTY had all partial queues empty
    -- at some moment, and one that returns another value was
    -- given it by a partial queue in range, at an access of the call.
    pub dequeue_sound :
        (fuel k : ℕ) (counts : ℕ → ℕ) (v k_end : ℕ)
        → 0 < width
        → 2 * width ≤ 2 ^ 32
        → dequeue p width H draw length_heuristic d fuel k counts ≡ returned v k_end
        → ((v ≡ 0) × IsMoment p width H h k k_end) ⊎ ((v ≢ 0) × Gave k k_end v)
    unfolding dequeue
    dequeue_sound fuel k counts v k_end wide small e =
        elim (Bool-cases ((p.dequeue (H access index)).0 == 0)) [
          | inr some_value ↦ inr (first (rw (some_value, dequeue) at e) (==→ne _ _ some_value))
          | inl none_there ↦
              collect_from (double_collect-empty p width H h fuel start (access + 1) counts)
                (double_collect-Gave fuel start (access + 1) counts v k_end wide)
                (rw (none_there, dequeue) at e)
        ]
      where
        heuristic : p.Queue → ℕ
        heuristic = deq_heuristic p length_heuristic

        index : ℕ
        index = (choose p width H draw signed_rank heuristic d k).index

        access : ℕ
        access = (choose p width H draw signed_rank heuristic d k).access

        start : ℕ
        start = (index + 1) % 2 ^ 32

        later : access ≡ k + 1 + (d - 1)
        later = (choose-IsBest p width H draw signed_rank heuristic d k).1

        in_range : index < width
        in_range = choose-lt p width H draw signed_rank heuristic d k wide

        first :
            returned (p.dequeue (H access index)).0 access ≡ returned v k_end
            → (p.dequeue (H access index)).0 ≢ 0
            → (v ≢ 0) × Gave k k_end v
        first r ne =
            let same : (p.dequeue (H access index)).0 ≡ v = cc in
            let last : access ≡ k_end = cc in
            (
              subst (λ w. w ≢ 0) same ne,
              (access, index, omega (arith, later), omega (arith, last), in_range, sym same),
            )

        collect_from :
            ((k_end' : ℕ)
              → 0 < width
              → start ≤ width
              → 2 * width ≤ 2 ^ 32
              → double_collect p width H fuel start (access + 1) counts ≡ returned 0 k_end'
              → IsMoment p width H h (access + 1) k_end')
            → (double_collect p width H fuel start (access + 1) counts ≡ returned v k_end
                → v ≢ 0
                → Gave (access + 1) k_end v)
            → double_collect p width H fuel start (access + 1) counts ≡ returned v k_end
            → ((v ≡ 0) × IsMoment p width H h k k_end) ⊎ ((v ≢ 0) × Gave k k_end v)
        collect_from empty_at gave r = elim (Bool-cases (v == 0)) [
          | inl nothing ↦
              (let zero_value : v ≡ 0 = ==→eq v 0 nothing in
                let (t, lo, hi, all) =
                  empty_at k_end wide (omega (arith, in_range)) small (rw zero_value at r) in
                inl (zero_value, (t, omega (arith, lo, later), hi, all)))
          | inr something ↦
              (let ne = ==→ne v 0 something in
                let (a, j, lo, hi, j_lt, from) = gave r ne in
                inr (ne, (a, j, omega (arith, lo, later), hi, j_lt, from)))
        ]
