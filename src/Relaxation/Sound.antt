-- ===== src/Relaxation/Sound.antt =====
-- The two lists of the relaxation analysis side by side, and a distance added to the second.
use semantic_relaxation_dcbo.Prelude.{
  ℕ, ◌+◌, ◌^◌, ◌<◌, ◌≡◌, ◌⊎◌, inl, inr, List, [], ◌∷◌, ◌++◌, map, length, length-append, arith,
  refl, sym, subst, update, ◌==◌, Bool-cases, ==→eq,
}
use semantic_relaxation_dcbo.Relaxation.{LinearList, Analysis, add_relaxed_dist}
use semantic_relaxation_dcbo.Relaxation.Lists.{
  In, NotIn, Distinct, In-append, Distinct-end, Linked, last_of, last_of-In, last_of-append,
  Linked-beside, Linked-end, written_here, IsList,
}

-- The nodes of `linear_clone` and of `error_dists`: no node stands twice.
pub record IsSound (s : Analysis) (xs ys : List ℕ) : Type 0 where
  pub clone : IsList s.next s.linear_clone xs
  pub dists : IsList s.next s.error_dists ys
  pub distinct : Distinct xs
  pub distinct_dists : Distinct ys
  pub apart : (a : ℕ) → In a xs → NotIn a ys
  pub made : (a : ℕ) → In a xs ⊎ In a ys → (0 < a) × (a < s.fresh)
  pub some_fresh : 0 < s.fresh

-- The linear list holds `values`, and the distances recorded so far are `distances`.
abbrev pub Holds : Analysis → (values distances : List ℕ) → Type 0
Holds s values distances =
    (xs ys : List ℕ) × IsSound s xs ys × (map s.val xs ≡ values) × (map s.val ys ≡ distances)

module _ (s : Analysis) (xs ys : List ℕ) (sound : IsSound s xs ys) (d : ℕ) (off : NotIn d xs)
    (off_dists : NotIn d ys) (some_node : 0 < d) (used : d < s.fresh) where
  open sound use {clone, dists, distinct, distinct_dists, apart, made, some_fresh}

  -- The lists with `d` at the end of the second, for a `next` that links them.
  ended-IsSound :
      (next : ℕ → ℕ) (l : LinearList)
      → Linked next s.linear_clone.head xs
      → IsList next l (ys ++ d ∷ [])
      → IsSound (record s { next = next; error_dists = l }) xs (ys ++ d ∷ [])
  ended-IsSound next l linked list = record {
    clone = record { linked = linked; tail = clone.tail; size = clone.size };
    dists = list;
    distinct = distinct;
    distinct_dists = Distinct-end d ys distinct_dists off_dists;
    apart = λ a i j. elim (In-append a ys (d ∷ []) j) [
      | inl k ↦ apart a i k
      | inr k ↦ elim k [ inl e ↦ off (subst (λ b. In b xs) e i) | inr none ↦ none ]
    ];
    made = λ a i. elim i [
      | inl j ↦ made a (inl j)
      | inr j ↦ elim (In-append a ys (d ∷ []) j) [
        | inl k ↦ made a (inr k)
        | inr k ↦ elim k [ inl e ↦ (omega (arith, e), omega (arith, e)) | inr none ↦ absurd none ]
      ]
    ];
    some_fresh = some_fresh;
  }

-- A node of the second list is not in the first.
dists_off : (s : Analysis) (xs ys : List ℕ) → IsSound s xs ys → (a : ℕ) → In a ys → NotIn a xs
dists_off s xs ys sound a i j = sound.apart a j i

pub dist-IsSound :
    (s : Analysis) (xs ys : List ℕ)
    → IsSound s xs ys
    → (d : ℕ) → NotIn d xs
    → NotIn d ys
    → 0 < d
    → d < s.fresh
    → length ys + 1 < 2 ^ 64
    → IsSound (add_relaxed_dist s d) xs (ys ++ d ∷ [])
unfolding add_relaxed_dist
dist-IsSound s xs [] sound d off off_dists pos used fits =
    let null : s.error_dists.head ≡ 0 = sound.dists.linked in
    rw (null, add_relaxed_dist)
      (ended-IsSound s xs [] sound d off off_dists pos used (update s.next d 0) _
        (Linked-beside s.next d 0 _ xs off sound.clone.linked)
        (record {
          linked = (refl, written_here s.next d 0);
          tail = refl;
          size = omega (arith, sound.dists.size);
        }))
dist-IsSound s xs (y ∷ ys) sound d off off_dists pos used fits =
    elim (Bool-cases (s.error_dists.head == 0)) [
      | inl e ↦
          absurd
            (omega (arith, ==→eq _ _ e, sound.dists.linked.0, (sound.made y (inr (inl refl))).0))
      | inr e ↦
          let last = s.error_dists.tail in
          let at_last : last ≡ last_of y ys = sound.dists.tail in
          let next = update s.next d 0 in
          let last_off =
            subst (λ b. NotIn b xs) (sym at_last)
              (dists_off s xs (y ∷ ys) sound (last_of y ys) (last_of-In y ys)) in
          rw (e, add_relaxed_dist)
            (ended-IsSound s xs (y ∷ ys) sound d off off_dists pos used (update next last d) _
              (Linked-beside next last d _ xs last_off
                (Linked-beside s.next d 0 _ xs off sound.clone.linked))
              (record {
                linked =
                    subst (λ b. Linked (update next b d) s.error_dists.head (y ∷ ys ++ d ∷ []))
                      (sym at_last)
                      (Linked-end next s.error_dists.head y d ys sound.distinct_dists off_dists
                        (written_here s.next d 0)
                        (Linked-beside s.next d 0 _ (y ∷ ys) off_dists sound.dists.linked));
                tail = sym (last_of-append y ys (d ∷ []));
                size = omega (arith, sound.dists.size, length-append ys (d ∷ []));
              }))
    ]
