-- ===== src/Dcbo/Linearizable.antt =====
-- When the double collect returns EMPTY, all partial queues were empty at once during the call.
use semantic_relaxation_dcbo.Prelude.{
  ℕ, zero, suc, ◌+◌, ◌*◌, ◌^◌, ◌≤◌, ◌<◌, ◌≡◌, arith, refl, subst, sym, ◌∙◌,
}
use semantic_relaxation_dcbo.Dcbo.Partial.{
  Partial, IsEmpty, still-IsEmpty, IsHistory, Later-at, enqueues-at, version-unmoved,
}
use semantic_relaxation_dcbo.Dcbo.Collect.{
  Collected, found, collected, Checked, changed, unchanged, returned, index_at, collect, check,
  double_collect,
}
use semantic_relaxation_dcbo.Dcbo.Loops.{
  Seen, CollectEnds, collect-CollectEnds, CheckEnds, check-CheckEnds, visited,
}

module _ (p : Partial) (width : ℕ) (H : ℕ → ℕ → p.Queue) (h : IsHistory p H) where
  open p use {dequeue, tail_version}

  -- A queue met empty, whose version is what it was in a later check, was empty at any access
  -- between the two.
  Seen-IsEmpty :
      (base k b j : ℕ) (counts : ℕ → ℕ)
      → Seen p width H base k counts j
      → k ≤ b
      → counts j ≡ tail_version (H b j)
      → IsEmpty p (H k j)
  Seen-IsEmpty base k b j counts s le same =
      let unmoved = version-unmoved h s.at b j (omega (arith, s.before)) (sym s.version ∙ same) in
      still-IsEmpty p (Later-at h (s.at + 1) k j (omega (arith, s.before)))
        (omega
          (arith, unmoved, enqueues-at h k b j le, enqueues-at h s.at (s.at + 1) j (omega arith)))
        s.empty

  abbrev pub IsMoment : (k k_end : ℕ) → Type 0
  IsMoment k k_end = (t : ℕ) × (k ≤ t) × (t ≤ k_end) × ((j : ℕ) → j < width → IsEmpty p (H t j))

  both_loops :
      (start k k' k_end : ℕ) (counts counts' : ℕ → ℕ)
      → start ≤ width
      → 2 * width ≤ 2 ^ 32
      → CollectEnds p width H k width 0 start k counts (collected counts' k')
      → CheckEnds p width H width 0 start k' counts' (unchanged k_end)
      → IsMoment k k_end
  both_loops start k k' k_end counts counts' s_le small first second =
      (k', first.0, second.0, λ j j_lt. at_once j (visited p width H start j s_le j_lt small))
    where
      at_once :
          (j : ℕ) → ((m : ℕ) × (m < width) × (index_at p width H start m ≡ j)) → IsEmpty p (H k' j)
      at_once j (m, m_lt, e) =
          let (b, le, same) = second.1 m (omega arith) (omega arith) in
          subst (λ r. IsEmpty p (H k' r)) e
            (Seen-IsEmpty k k' b _ counts' (first.2 m (omega arith) (omega arith)) le same)

  IsMoment-earlier : (k k' k_end : ℕ) → k ≤ k' → IsMoment k' k_end → IsMoment k k_end
  IsMoment-earlier k k' k_end le (t, lo, hi, all) = (t, omega (arith, le, lo), hi, all)

  -- If the double collect returns EMPTY beside any other threads' enqueues and dequeues, then at
  -- some moment between its call and its return every partial queue was empty. It may start at any
  -- index up to `width`, and `width` is at most 2 ^ 31, so that the sum of start index and round does
  -- not wrap.
  pub double_collect-empty :
      (fuel start k : ℕ) (counts : ℕ → ℕ) (k_end : ℕ)
      → 0 < width
      → start ≤ width
      → 2 * width ≤ 2 ^ 32
      → double_collect p width H fuel start k counts ≡ returned 0 k_end
      → IsMoment k k_end
  unfolding double_collect
  double_collect-empty zero start k counts k_end wide s_le small e = cc
  double_collect-empty (suc fuel) start k counts k_end wide s_le small e =
      after_collect
        (λ index k' counts' le r. double_collect-empty fuel index k' counts' k_end wide le small r)
        _ refl (collect-CollectEnds p width H k width 0 start k counts (omega arith) wide)
    where
      Again : Type 0
      Again =
          (index k' : ℕ) (counts' : ℕ → ℕ)
          → index ≤ width
          → double_collect p width H fuel index k' counts' ≡ returned 0 k_end
          → IsMoment k' k_end

      after_check :
          Again
          → (counts' : ℕ → ℕ) (k' : ℕ)
          → collect p width H width 0 start k counts ≡ collected counts' k'
          → CollectEnds p width H k width 0 start k counts (collected counts' k')
          → (c : Checked) → check p width H width 0 start k' counts' ≡ c
          → CheckEnds p width H width 0 start k' counts' c
          → IsMoment k k_end
      after_check again counts' k' ec first (unchanged k'') ed second =
          let ends : k'' ≡ k_end = cc (rw (ec, ed, double_collect) at e) in
          subst (IsMoment k) ends (both_loops start k k' k'' counts counts' s_le small first second)
      after_check again counts' k' ec first (changed index k'') ed second =
          IsMoment-earlier k (k'' + 1) k_end (omega (arith, first.0, second.0)) (
            again index (k'' + 1) counts' (omega (arith, second.1))
              (rw (ec, ed, double_collect) at e))

      after_collect :
          Again
          → (c : Collected) → collect p width H width 0 start k counts ≡ c
          → CollectEnds p width H k width 0 start k counts c
          → IsMoment k k_end
      after_collect again (found v k') ec first =
          absurd (first.1 (cc (rw (ec, double_collect) at e)))
      after_collect again (collected counts' k') ec first =
          after_check again counts' k' ec first _ refl
            (check-CheckEnds p width H width 0 start k' counts' wide)
