-- ===== src/Relaxation/Search.antt =====
-- The search in `remove_linear` finds the first node that holds the value, and counts up to it.
use semantic_relaxation_dcbo.Prelude.{
  ℕ, zero, suc, ◌+◌, ◌^◌, ◌≤◌, ◌<◌, ◌≡◌, ◌≢◌, inl, inr, false, Option, none, some, List, [], ◌∷◌,
  ◌++◌, map, length, arith, refl, sym, ap, subst, ◌∙◌, ◌==◌, Bool-cases, add64, if◌then◌else◌,
  ◌>>=◌, Option-cases,
}
use semantic_relaxation_dcbo.Relaxation.{Analysis, find_before}
use semantic_relaxation_dcbo.Relaxation.Lists.{In, Linked, last_of}

-- The first occurrence of a value: how many values stand before it, and what is left without it.
unfoldable pub extract : (val : ℕ) → List ℕ → Option (ℕ × List ℕ)
extract val [] = none
extract val (x ∷ xs) =
    let rest = extract val xs in
    if x == val then some (0, xs) else (do r ← rest; some (suc r.0, x ∷ r.1))

-- What the search finds among the nodes behind `last`.
pub record Found (s : Analysis) (val last : ℕ) (ns : List ℕ) (index : ℕ) (left : List ℕ)
    : Type 0 where
  pub before : List ℕ
  pub node : ℕ
  pub behind : List ℕ
  pub split : ns ≡ before ++ node ∷ behind
  pub index_is : index ≡ length before
  pub left_is : left ≡ map s.val (before ++ behind)

unfoldable pub taken : Option (ℕ × List ℕ) → ℕ × List ℕ
taken none = (0, [])
taken (some r) = r

pub ne→== : (a b : ℕ) → a ≢ b → (a == b) ≡ false
ne→== a b ne = ground arith

-- A list that the value is taken from has a node.
some_next :
    (next val : ℕ → ℕ) (v a : ℕ) (ns : List ℕ) (r : ℕ × List ℕ)
    → Linked next a ns
    → ((b : ℕ) → In b ns → 0 < b)
    → extract v (map val ns) ≡ some r
    → a ≢ 0
unfolding extract
some_next next val v a [] r l pos e = absurd cc
some_next next val v a (n ∷ ns) r (here, l) pos e = omega (arith, pos n (inl refl))

-- Fuel for the length of the list is enough.
pub search :
    (s : Analysis) (val : ℕ) (fuel last skipped : ℕ) (ns : List ℕ) (index : ℕ) (left : List ℕ)
    → Linked s.next (s.next last) ns
    → ((a : ℕ) → In a ns → 0 < a)
    → length ns ≤ fuel
    → skipped + length ns < 2 ^ 64
    → extract val (map s.val ns) ≡ some (index, left)
    → (f : Found s val last ns index left) × (find_before fuel s val skipped last
        ≡ some (last_of last f.before, skipped + index))
unfolding extract find_before taken
search s val fuel last skipped [] index left l pos enough fits e = absurd cc
search s val zero last skipped (n ∷ ns) index left l pos enough fits e = absurd (omega arith)
search s val (suc fuel) last skipped (n ∷ ns) index left (here, l) pos enough fits e =
    let some_node : (n == 0) ≡ false = ne→== n 0 (omega (arith, pos n (inl refl))) in
    elim (Bool-cases (s.val n == val)) [
      | inl f ↦
          let got : some (0, map s.val ns) ≡ some (index, left) = rw (f, extract) at e in
          let at_zero : index ≡ 0 = sym (ap (λ o. (taken o).0) got) in
          let same : skipped ≡ skipped + index = omega (arith, at_zero) in
          (
            record {
              before = [];
              node = n;
              behind = ns;
              split = refl;
              index_is = at_zero;
              left_is = sym (ap (λ o. (taken o).1) got);
            },
            rw (here, some_node, f, find_before) (ap (λ k. some (last, k)) same),
          )
      | inr f ↦ elim (Option-cases (extract val (map s.val ns))) [
        | inl g ↦ absurd (cc (rw (f, g, extract) at e))
        | inr ((i, rest), g) ↦
            let got : some (suc i, s.val n ∷ rest) ≡ some (index, left) = rw (f, g, extract) at e in
            let at_next : suc i ≡ index = ap (λ o. (taken o).0) got in
            let more : (s.next n == 0) ≡ false =
              ne→== _ 0
                (some_next s.next s.val val (s.next n) ns (i, rest) l (λ a j. pos a (inr j)) g) in
            let once : add64 skipped 1 ≡ skipped + 1 = omega arith in
            let (r, found) =
              search s val fuel n (skipped + 1) ns i rest l (λ a j. pos a (inr j)) (omega arith)
                (omega arith) g in
            let sum : skipped + 1 + i ≡ skipped + index = omega (arith, at_next) in
            (
              record {
                before = n ∷ r.before;
                node = r.node;
                behind = r.behind;
                split = ap (λ l. n ∷ l) r.split;
                index_is = omega (arith, at_next, r.index_is);
                left_is = sym (ap (λ o. (taken o).1) got) ∙ ap (λ l. s.val n ∷ l) r.left_is;
              },
              rw (here, some_node, f, more, find_before)
                  (subst
                    (λ k. find_before fuel s val k n ≡ some (last_of n r.before, skipped + index))
                    (sym once) (found ∙ ap (λ k. some (last_of n r.before, k)) sum)),
            )
      ]
    ]
