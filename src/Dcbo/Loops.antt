-- ===== src/Dcbo/Loops.antt =====
-- What the two loops of `double_collect` have seen when they end.
use native.Mathlib.Nat.{mod-eq_of_lt, mod-lt}
use semantic_relaxation_dcbo.Prelude.{
  ℕ, zero, suc, ◌+◌, ◌-◌, ◌*◌, ◌%◌, ◌^◌, ◌≤◌, ◌<◌, ◌≡◌, ◌≢◌, ==→ne, ==→eq, arith, refl, update,
  subst, true, ◌==◌, leb, leb→le, leb→gt, Bool-cases, inl, inr,
}
use semantic_relaxation_dcbo.Dcbo.Partial.{Partial, IsEmpty}
use semantic_relaxation_dcbo.Dcbo.Collect.{
  Collected, found, collected, Checked, changed, unchanged, index_at, collect, check,
}

module _ (p : Partial) (width : ℕ) (H : ℕ → ℕ → p.Queue) where
  open p use {dequeue, tail_version}

  -- Queue `j` was met empty from access `base` on and before access `k`, just after the version in `counts` was read.
  pub record Seen (base k : ℕ) (counts : ℕ → ℕ) (j : ℕ) : Type 0 where
    pub at : ℕ
    pub after : base ≤ at
    pub before : at < k
    pub version : counts j ≡ tail_version (H at j)
    pub empty : IsEmpty p (H (at + 1) j)

  module _ (base k : ℕ) (le : base ≤ k) (counts : ℕ → ℕ) (index : ℕ)
      (none_there : IsEmpty p (H (k + 1) index)) where
    abbrev noted : ℕ → ℕ
    noted = update counts index (tail_version (H k index))

    Seen-now : Seen base (k + 2) noted index
    Seen-now = record {
      at = k;
      after = le;
      before = omega arith;
      version = ground arith;
      empty = none_there;
    }

    Seen-before : (j : ℕ) → Seen base k counts j → Seen base (k + 2) noted j
    Seen-before j s = elim (Bool-cases (index == j)) [
      | inl same ↦ subst (Seen base (k + 2) noted) (==→eq _ _ same) Seen-now
      | inr other ↦ record {
        at = s.at;
        after = s.after;
        before = omega (arith, s.before);
        version = rw other s.version;
        empty = s.empty;
      }
    ]

  -- How the first loop can end, begun at round `i` and access `k` with `n` rounds left.
  abbrev pub CollectEnds : (base n i start k : ℕ) → (ℕ → ℕ) → Collected → Type 0
  CollectEnds base n i start k counts (found v k') =
      (k ≤ k') × (v ≢ 0) × ((j : ℕ) × (j < width) × (v ≡ (dequeue (H k' j)).0))
  CollectEnds base n i start k counts (collected counts' k') =
      (k ≤ k')
      × ((j : ℕ) → Seen base k counts j → Seen base k' counts' j)
      × ((m : ℕ) → i ≤ m → m < i + n → Seen base k' counts' (index_at p width H start m))

  pub collect-CollectEnds :
      (base n i start k : ℕ) (counts : ℕ → ℕ)
      → base ≤ k
      → 0 < width
      → CollectEnds base n i start k counts (collect p width H n i start k counts)
  unfolding collect
  collect-CollectEnds base zero i start k counts le wide =
      (omega arith, λ j s. s, λ m lo hi. absurd (omega arith))
  collect-CollectEnds base (suc n) i start k counts le wide = elim (Bool-cases (v == 0)) [
    | inr some_value ↦
        rw (some_value, collect) (omega arith, ==→ne _ _ some_value, (index, mod-lt _ wide, refl))
    | inl none_there ↦
        rw (none_there, collect)
          (step none_there _
            (collect-CollectEnds base n (i + 1) start (k + 2) counts' (omega arith) wide))
  ]
    where
      index : ℕ
      index = index_at p width H start i

      v : ℕ
      v = (dequeue (H (k + 1) index)).0

      counts' : ℕ → ℕ
      counts' = update counts index (tail_version (H k index))

      step :
          v == 0 ≡ true
          → (c : Collected) → CollectEnds base n (i + 1) start (k + 2) counts' c
          → CollectEnds base (suc n) i start k counts c
      step none_there (found value k') e = (omega arith, e.1, e.2)
      step none_there (collected counts'' k') e =
          (omega arith, λ j s. e.1 j (older j s), λ m lo hi. newer m lo hi)
        where
          older : (j : ℕ) → Seen base k counts j → Seen base (k + 2) counts' j
          older j s = Seen-before base k le counts index (==→eq _ _ none_there) j s

          newer :
              (m : ℕ) → i ≤ m → m < i + suc n → Seen base k' counts'' (index_at p width H start m)
          newer m lo hi = elim (Bool-cases (i == m)) [
            | inl now ↦
                subst (λ r. Seen base k' counts'' (index_at p width H start r)) (==→eq _ _ now)
                  (e.1 index (Seen-now base k le counts index (==→eq _ _ none_there)))
            | inr then ↦ e.2 m (omega (arith, ==→ne _ _ then)) (omega arith)
          ]

  abbrev pub CheckEnds : (n i start k : ℕ) → (ℕ → ℕ) → Checked → Type 0
  CheckEnds n i start k counts (changed index k') =
      (k ≤ k') × (index < width) × (counts index ≢ tail_version (H k' index))
  CheckEnds n i start k counts (unchanged k') =
      (k ≤ k')
      × ((m : ℕ)
          → i ≤ m
          → m < i + n
          → (b : ℕ) × (k ≤ b)
            × (counts (index_at p width H start m)
                ≡ tail_version (H b (index_at p width H start m))))

  pub check-CheckEnds :
      (n i start k : ℕ) (counts : ℕ → ℕ)
      → 0 < width
      → CheckEnds n i start k counts (check p width H n i start k counts)
  unfolding check
  check-CheckEnds zero i start k counts wide = (omega arith, λ m lo hi. absurd (omega arith))
  check-CheckEnds (suc n) i start k counts wide =
      elim (Bool-cases (counts index == tail_version (H k index))) [
        | inr moved ↦ rw (moved, check) (omega arith, mod-lt _ wide, ==→ne _ _ moved)
        | inl same ↦
            rw (same, check) (step same _ (check-CheckEnds n (i + 1) start (k + 1) counts wide))
      ]
    where
      index : ℕ
      index = index_at p width H start i

      step :
          counts index == tail_version (H k index) ≡ true
          → (c : Checked) → CheckEnds n (i + 1) start (k + 1) counts c
          → CheckEnds (suc n) i start k counts c
      step same (changed j k') e = (omega arith, e.1, e.2)
      step same (unchanged k') e = (
        omega arith,
        λ m lo hi. elim (Bool-cases (i == m)) [
          | inl now ↦
              subst
                (λ r.
                  (b : ℕ) × (k ≤ b)
                  × (counts (index_at p width H start r)
                      ≡ tail_version (H b (index_at p width H start r))))
                (==→eq _ _ now) (k, omega arith, ==→eq _ _ same)
          | inr then ↦
              (let (b, le, same') = e.1 m (omega (arith, ==→ne _ _ then)) (omega arith) in
                (b, omega (arith, le), same'))
        ],
      )

  wrap_once : (j : ℕ) → j < width → (j + width) % width ≡ j
  wrap_once j lt = grind arith

  -- The rounds of a loop visit every index.
  pub visited :
      (start j : ℕ)
      → start ≤ width
      → j < width
      → 2 * width ≤ 2 ^ 32
      → (m : ℕ) × (m < width) × (index_at p width H start m ≡ j)
  visited start j s_le j_lt small = elim (Bool-cases (leb start j)) [
    | inl ahead ↦
        (let here : (start + (j - start)) % 2 ^ 32 ≡ j = omega (arith, leb→le _ _ ahead) in
          (j - start, omega arith, rw here (mod-eq_of_lt j_lt)))
    | inr behind ↦
        (let here : (start + (j + width - start)) % 2 ^ 32 ≡ j + width =
            omega (arith, leb→gt _ _ behind) in
          (j + width - start, omega (arith, leb→gt _ _ behind), rw here (wrap_once j j_lt)))
  ]
