-- ===== src/Dcbo/Progress.antt =====
-- The double collect ends: each of its restarts is paid for by an enqueue of another thread.
use semantic_relaxation_dcbo.Prelude.{
  ℕ, zero, suc, ◌+◌, ◌*◌, ◌^◌, ◌≤◌, ◌<◌, ◌≡◌, ◌≢◌, arith, refl, subst, ◌∙◌, total, total-lt,
}
use semantic_relaxation_dcbo.Dcbo.Partial.{Partial, IsHistory, enqueues-at}
use semantic_relaxation_dcbo.Dcbo.Collect.{
  Collected, found, collected, Checked, changed, unchanged, Outcome, returned, index_at, collect,
  check, double_collect,
}
use semantic_relaxation_dcbo.Dcbo.Loops.{
  Seen, CollectEnds, collect-CollectEnds, CheckEnds, check-CheckEnds, visited,
}

-- The enqueues on all partial queues up to access `k`.
unfoldable pub all_enqueues : (p : Partial) (width : ℕ) (H : ℕ → ℕ → p.Queue) → ℕ → ℕ
all_enqueues p width H k = total (λ j. p.enqueues (H k j)) width

module _ (p : Partial) (width : ℕ) (H : ℕ → ℕ → p.Queue) (h : IsHistory p H) where
  open p use {tail_version, enqueues, same_version}

  -- Where a version differs from the one collected, there was an enqueue since the call began.
  restart_grew :
      (k k' k'' index : ℕ) (counts : ℕ → ℕ)
      → Seen p width H k k' counts index
      → k' ≤ k''
      → index < width
      → counts index ≢ tail_version (H k'' index)
      → all_enqueues p width H k < all_enqueues p width H (k'' + 1)
  unfolding all_enqueues
  restart_grew k k' k'' index counts s le index_lt moved =
      let enqueued_on : enqueues (H s.at index) ≢ enqueues (H k'' index) =
        λ same. moved (s.version ∙ same_version _ _ same) in
      total-lt _ _ width index
        (λ j j_lt. enqueues-at h k (k'' + 1) j (omega (arith, s.after, s.before))) index_lt
        (omega (
          arith,
          enqueued_on,
          enqueues-at h k s.at index s.after,
          enqueues-at h s.at k'' index (omega (arith, s.before)),
          enqueues-at h k'' (k'' + 1) index (omega arith),
        ))

  abbrev pub Returns : Outcome → Type 0
  Returns o = (value : ℕ) × (access : ℕ) × (o ≡ returned value access)

  -- If other threads make fewer than `fuel` enqueues while the call runs, it returns within `fuel`
  -- rounds of its two loops.
  pub double_collect-Returns :
      (fuel start k : ℕ) (counts : ℕ → ℕ)
      → 0 < width
      → start ≤ width
      → 2 * width ≤ 2 ^ 32
      → ((m : ℕ) → k ≤ m → all_enqueues p width H m < all_enqueues p width H k + fuel)
      → Returns (double_collect p width H fuel start k counts)
  unfolding double_collect
  double_collect-Returns zero start k counts wide s_le small slow =
      absurd (omega (arith, slow k (omega arith)))
  double_collect-Returns (suc fuel) start k counts wide s_le small slow =
      after_collect (double_collect-Returns fuel) _ refl
        (collect-CollectEnds p width H k width 0 start k counts (omega arith) wide)
    where
      Again : Type 0
      Again =
          (index k' : ℕ) (counts' : ℕ → ℕ)
          → 0 < width
          → index ≤ width
          → 2 * width ≤ 2 ^ 32
          → ((m : ℕ) → k' ≤ m → all_enqueues p width H m < all_enqueues p width H k' + fuel)
          → Returns (double_collect p width H fuel index k' counts')

      seen_at :
          (k' index : ℕ) (counts' : ℕ → ℕ)
          → CollectEnds p width H k width 0 start k counts (collected counts' k')
          → (m : ℕ) × (m < width) × (index_at p width H start m ≡ index)
          → Seen p width H k k' counts' index
      seen_at k' index counts' first (m, m_lt, e) =
          subst (Seen p width H k k' counts') e (first.2 m (omega arith) (omega arith))

      after_check :
          Again
          → (counts' : ℕ → ℕ) (k' : ℕ)
          → collect p width H width 0 start k counts ≡ collected counts' k'
          → CollectEnds p width H k width 0 start k counts (collected counts' k')
          → (c : Checked) → check p width H width 0 start k' counts' ≡ c
          → CheckEnds p width H width 0 start k' counts' c
          → Returns (double_collect p width H (suc fuel) start k counts)
      after_check again counts' k' ec first (unchanged k'') ed second =
          (0, k'', rw (ec, ed, double_collect))
      after_check again counts' k' ec first (changed index k'') ed second =
          let grew =
            restart_grew k k' k'' index counts'
              (seen_at k' index counts' first (visited p width H start index s_le second.1 small))
              second.0 second.1 second.2 in
          let (value, access, e) =
            again index (k'' + 1) counts' wide (omega (arith, second.1)) small
              (λ m le. omega (arith, slow m (omega (arith, le, first.0, second.0)), grew)) in
          (value, access, rw (ec, ed, double_collect) e)

      after_collect :
          Again
          → (c : Collected) → collect p width H width 0 start k counts ≡ c
          → CollectEnds p width H k width 0 start k counts c
          → Returns (double_collect p width H (suc fuel) start k counts)
      after_collect again (found v k') ec first = (v, k', rw (ec, double_collect))
      after_collect again (collected counts' k') ec first =
          after_check again counts' k' ec first _ refl
            (check-CheckEnds p width H width 0 start k' counts' wide)
