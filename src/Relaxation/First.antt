-- ===== src/Relaxation/First.antt =====
-- A node leaves the linear list of the relaxation analysis for the distances, and the branch of
-- `remove_linear` for the first node.
use semantic_relaxation_dcbo.Prelude.{
  ℕ, ◌+◌, ◌^◌, ◌<◌, ◌≡◌, inl, inr, true, false, some, List, [], ◌∷◌, ◌++◌, map, length, arith, refl,
  sym, ap, subst, ◌∙◌, update, ◌==◌, Bool-cases, sub64,
}
use semantic_relaxation_dcbo.Relaxation.{LinearList, Analysis, add_relaxed_dist, remove_first}
use semantic_relaxation_dcbo.Relaxation.Lists.{
  In, NotIn, Distinct, Linked, last_of-In, map_beside, written_here, IsList,
}
use semantic_relaxation_dcbo.Relaxation.Sound.{IsSound, Holds, dist-IsSound}
use semantic_relaxation_dcbo.Relaxation.Add.{map-end}
use semantic_relaxation_dcbo.Relaxation.Search.{ne→==}

add_relaxed_dist-val : (s : Analysis) (d : ℕ) → (add_relaxed_dist s d).val ≡ s.val
unfolding add_relaxed_dist
add_relaxed_dist-val s d = elim (Bool-cases (s.error_dists.head == 0)) [
  | inl e ↦ rw (e, add_relaxed_dist) refl
  | inr e ↦ rw (e, add_relaxed_dist) refl
]

abbrev pub cut : Analysis → (d k : ℕ) → (next : ℕ → ℕ) → LinearList → Analysis
cut s d k next l = record s { next = next; val = update s.val d k; linear_clone = l }

-- The node `d` is taken off the first list, which leaves `new`, and goes to the second with `k`.
module _ (s : Analysis) (xs ys : List ℕ) (sound : IsSound s xs ys) (d k : ℕ) (there : In d xs)
    (fits : length ys + 1 < 2 ^ 64) (next : ℕ → ℕ) (l : LinearList) (new : List ℕ)
    (only : (a : ℕ) → In a new → In a xs) (dist : Distinct new) (off : NotIn d new)
    (list : IsList next l new) (linked : Linked next s.error_dists.head ys) where
  open sound use {dists, distinct_dists, apart, made, some_fresh}

  abbrev left : Analysis
  left = cut s d k next l

  cut-IsSound : IsSound left new ys
  cut-IsSound = record {
    clone = list;
    dists = record { linked = linked; tail = dists.tail; size = dists.size };
    distinct = dist;
    distinct_dists = distinct_dists;
    apart = λ a i. apart a (only a i);
    made = λ a i. elim i [ inl j ↦ made a (inl (only a j)) | inr j ↦ made a (inr j) ];
    some_fresh = some_fresh;
  }

  dists_vals : map (update s.val d k) (ys ++ d ∷ []) ≡ map s.val ys ++ k ∷ []
  dists_vals =
      map-end (update s.val d k) ys d
      ∙ ap (λ l. l ++ update s.val d k d ∷ []) (map_beside s.val d k ys (apart d there))
      ∙ ap (λ n. map s.val ys ++ n ∷ []) (written_here s.val d k)

  pub cut-Holds : Holds (add_relaxed_dist left d) (map s.val new) (map s.val ys ++ k ∷ [])
  cut-Holds =
      let m = made d (inl there) in
      let val = add_relaxed_dist-val left d in
      (
        new,
        ys ++ d ∷ [],
        dist-IsSound left new ys cut-IsSound d off (apart d there) m.0 m.1 fits,
        ap (λ f. map f new) val ∙ map_beside s.val d k new off,
        ap (λ f. map f (ys ++ d ∷ [])) val ∙ dists_vals,
      )

-- `s` with the size that `remove_linear` has lowered.
abbrev pub smaller : Analysis → Analysis
smaller s = record s { linear_clone = record s.linear_clone { size = sub64 s.linear_clone.size 1 } }

pub eq→== : (a b : ℕ) → a ≡ b → (a == b) ≡ true
eq→== a b e = ground arith

-- The first branch, on a list of one node and on a longer one.
first_only :
    (s : Analysis) (x : ℕ) (ys : List ℕ)
    → IsSound s (x ∷ []) ys
    → length ys + 1 < 2 ^ 64
    → (s' : Analysis) × (remove_first (smaller s) ≡ some s') × Holds s' [] (map s.val ys ++ 0 ∷ [])
unfolding remove_first
first_only s x ys sound fits =
    let found = s.linear_clone.head in
    let at : found ≡ x = sound.clone.linked.0 in
    let same : (found == s.linear_clone.tail) ≡ true = eq→== _ _ (at ∙ sym sound.clone.tail) in
    let none_behind : s.next found ≡ 0 = ap s.next at ∙ sound.clone.linked.1 in
    let size : sub64 s.linear_clone.size 1 ≡ 0 = omega (arith, sound.clone.size) in
    let l : LinearList = record {
      head = s.next found;
      tail = 0;
      size = sub64 s.linear_clone.size 1;
    } in
    (
      add_relaxed_dist (cut s found 0 s.next l) found,
      rw (same, eq→== _ _ none_behind, eq→== _ _ size, remove_first) refl,
      cut-Holds s (x ∷ []) ys sound found 0 (inl at) fits s.next l [] (λ a i. absurd i) tt (λ i. i)
          (record { linked = none_behind; tail = refl; size = size }) sound.dists.linked,
    )

first_of_more :
    (s : Analysis) (x y : ℕ) (xs ys : List ℕ)
    → IsSound s (x ∷ y ∷ xs) ys
    → length (x ∷ y ∷ xs) < 2 ^ 64
    → length ys + 1 < 2 ^ 64
    → (s' : Analysis) × (remove_first (smaller s) ≡ some s')
      × Holds s' (map s.val (y ∷ xs)) (map s.val ys ++ 0 ∷ [])
unfolding remove_first
first_of_more s x y xs ys sound short fits =
    let found = s.linear_clone.head in
    let at : found ≡ x = sound.clone.linked.0 in
    let off : NotIn found (y ∷ xs) = subst (λ a. NotIn a (y ∷ xs)) (sym at) sound.distinct.0 in
    let other : (found == s.linear_clone.tail) ≡ false =
      ne→== _ _
        (λ e. off (subst (λ a. In a (y ∷ xs)) (sym (e ∙ sound.clone.tail)) (last_of-In y xs))) in
    let size : sub64 s.linear_clone.size 1 ≡ length (y ∷ xs) = omega (arith, sound.clone.size) in
    let l : LinearList = record {
      head = s.next found;
      tail = s.linear_clone.tail;
      size = sub64 s.linear_clone.size 1;
    } in
    (
      add_relaxed_dist (cut s found 0 s.next l) found,
      rw (other, remove_first) refl,
      cut-Holds s (x ∷ y ∷ xs) ys sound found 0 (inl at) fits s.next l (y ∷ xs) (λ a i. inr i)
          sound.distinct.1 off
          (record {
            linked = subst (λ a. Linked s.next (s.next a) (y ∷ xs)) (sym at) sound.clone.linked.1;
            tail = sound.clone.tail;
            size = size;
          })
          sound.dists.linked,
    )

pub first-Holds :
    (s : Analysis) (x : ℕ) (xs ys : List ℕ)
    → IsSound s (x ∷ xs) ys
    → length (x ∷ xs) < 2 ^ 64
    → length ys + 1 < 2 ^ 64
    → (s' : Analysis) × (remove_first (smaller s) ≡ some s')
      × Holds s' (map s.val xs) (map s.val ys ++ 0 ∷ [])
first-Holds s x [] ys sound short fits = first_only s x ys sound fits
first-Holds s x (y ∷ xs) ys sound short fits = first_of_more s x y xs ys sound short fits
