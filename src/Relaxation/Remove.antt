-- ===== src/Relaxation/Remove.antt =====
-- `remove_linear` takes a value off the linear list, and records how many values stood before it.
use semantic_relaxation_dcbo.Prelude.{
  ℕ, suc, ◌+◌, ◌^◌, ◌≤◌, ◌<◌, ◌≡◌, ◌≢◌, inl, inr, true, false, some, List, [], ◌∷◌, ◌++◌, map,
  length, length-append, arith, refl, sym, ap, subst, ◌∙◌, update, ◌==◌, Bool-cases, sub64,
  if◌then◌else◌, Option-cases,
}
use semantic_relaxation_dcbo.Relaxation.{
  LinearList, Analysis, find_before, remove_after, remove_linear,
}
use semantic_relaxation_dcbo.Relaxation.Lists.{
  In, NotIn, Distinct, In-left, In-right, In-between, Distinct-without, Linked, last_of, last_of-In,
  last_of-append, Linked-beside, Linked-without,
}
use semantic_relaxation_dcbo.Relaxation.Sound.{IsSound, Holds}
use semantic_relaxation_dcbo.Relaxation.Add.{length-map}
use semantic_relaxation_dcbo.Relaxation.Search.{extract, taken, ne→==, search}
use semantic_relaxation_dcbo.Relaxation.First.{cut-Holds, smaller, eq→==, first-Holds}

-- The node behind the last one of a first part.
next_of_last :
    (next : ℕ → ℕ) (a n d : ℕ) (ns ms : List ℕ)
    → Linked next a (n ∷ ns ++ d ∷ ms)
    → next (last_of n ns) ≡ d
next_of_last next a n d [] ms (e, (f, l)) = f
next_of_last next a n d (m ∷ ns) ms (e, l) = next_of_last next (next n) m d ns ms l

module _ (s : Analysis) (x d : ℕ) (before behind ys : List ℕ)
    (sound : IsSound s (x ∷ before ++ d ∷ behind) ys)
    (short : length (x ∷ before ++ d ∷ behind) < 2 ^ 64) (fits : length ys + 1 < 2 ^ 64) where
  abbrev last : ℕ
  last = last_of x before

  abbrev found : ℕ
  found = s.next last

  found_is : found ≡ d
  found_is = next_of_last s.next s.linear_clone.head x d before behind sound.clone.linked

  rest_off : Distinct (x ∷ before ++ behind) × NotIn d (x ∷ before ++ behind)
  rest_off = Distinct-without d (x ∷ before) behind sound.distinct

  abbrev new_tail : ℕ
  new_tail = if found == s.linear_clone.tail then last else s.linear_clone.tail

  tail_without : (behind' : List ℕ) → behind ≡ behind' → new_tail ≡ last_of x (before ++ behind')
  tail_without [] e =
      let old : s.linear_clone.tail ≡ d =
        sound.clone.tail ∙ last_of-append x before (d ∷ behind) ∙ ap (last_of d) e in
      rw (eq→== found s.linear_clone.tail (found_is ∙ sym old)) (sym (last_of-append x before []))
  tail_without (b ∷ bs) e =
      let old : s.linear_clone.tail ≡ last_of b bs =
        sound.clone.tail ∙ last_of-append x before (d ∷ behind) ∙ ap (last_of d) e in
      let other : found ≢ s.linear_clone.tail = λ f. rest_off.1 (
        In-right d (x ∷ before) behind (
          subst (In d) (sym e)
            (subst (λ a. In a (b ∷ bs)) (sym (sym found_is ∙ f ∙ old)) (last_of-In b bs)))) in
      rw (ne→== found s.linear_clone.tail other) (old ∙ sym (last_of-append x before (b ∷ bs)))

  after-Holds :
      (k : ℕ)
      → Holds
          (remove_after (smaller s) last k)
          (map s.val (x ∷ before ++ behind))
          (map s.val ys ++ k ∷ [])
  unfolding remove_after
  after-Holds k =
      let next = update s.next last (s.next found) in
      let l : LinearList = record {
        head = s.linear_clone.head;
        tail = new_tail;
        size = sub64 s.linear_clone.size 1;
      } in
      let in_list : In found (x ∷ before ++ d ∷ behind) =
        subst (λ a. In a (x ∷ before ++ d ∷ behind)) (sym found_is)
          (In-right d (x ∷ before) (d ∷ behind) (inl refl)) in
      let last_in : In last (x ∷ before ++ d ∷ behind) =
        In-left last (x ∷ before) (d ∷ behind) (last_of-In x before) in
      cut-Holds s (x ∷ before ++ d ∷ behind) ys sound found k in_list fits next l
        (x ∷ before ++ behind) (λ a. In-between a d (x ∷ before) behind) rest_off.0
        (subst (λ a. NotIn a (x ∷ before ++ behind)) (sym found_is) rest_off.1)
        (record {
          linked =
              subst
                (λ b.
                  Linked (update s.next last (s.next b)) s.linear_clone.head (x ∷ before ++ behind))
                (sym found_is)
                (Linked-without s.next s.linear_clone.head x d before behind sound.distinct
                  sound.clone.linked);
          tail = tail_without behind refl;
          size = omega (
            arith,
            sound.clone.size,
            length-append before (d ∷ behind),
            length-append before behind,
          );
        })
        (Linked-beside s.next last (s.next found) _ ys (sound.apart last last_in)
          sound.dists.linked)

-- The list in the order of the code, and that of the specification.
removed-Holds :
    (s : Analysis) (xs ys : List ℕ)
    → IsSound s xs ys
    → (v index : ℕ) (left : List ℕ) → extract v (map s.val xs) ≡ some (index, left)
    → length xs < 2 ^ 64
    → length ys + 1 < 2 ^ 64
    → (fuel : ℕ) → length xs ≤ fuel
    → (s' : Analysis) × (remove_linear fuel s v ≡ some s')
      × Holds s' left (map s.val ys ++ index ∷ [])
unfolding extract remove_linear taken
removed-Holds s [] ys sound v index left e short fits fuel enough = absurd cc
removed-Holds s (x ∷ ns) ys sound v index left e short fits fuel enough =
    let head : s.linear_clone.head ≡ x = sound.clone.linked.0 in
    let some_head : (s.linear_clone.head == 0) ≡ false =
      ne→== _ 0 (omega (arith, head, (sound.made x (inl (inl refl))).0)) in
    elim (Bool-cases (s.val x == v)) [
      | inl f ↦
          let got : some (0, map s.val ns) ≡ some (index, left) = rw (f, extract) at e in
          let at_zero : 0 ≡ index = ap (λ o. (taken o).0) got in
          let rest : map s.val ns ≡ left = ap (λ o. (taken o).1) got in
          let here : (s.val s.linear_clone.head == v) ≡ true = ap (λ a. s.val a == v) head ∙ f in
          let (s', done, holds) = first-Holds s x ns ys sound short fits in
          (
            s',
            rw (some_head, here, remove_linear) done,
            subst (λ l. Holds s' l (map s.val ys ++ index ∷ [])) rest
                (subst (λ k. Holds s' (map s.val ns) (map s.val ys ++ k ∷ [])) at_zero holds),
          )
      | inr f ↦ elim (Option-cases (extract v (map s.val ns))) [
        | inl g ↦ absurd (cc (rw (f, g, extract) at e))
        | inr ((i, rest), g) ↦
            let got : some (suc i, s.val x ∷ rest) ≡ some (index, left) = rw (f, g, extract) at e in
            let here : (s.val s.linear_clone.head == v) ≡ false = ap (λ a. s.val a == v) head ∙ f in
            let behind = subst (λ a. Linked s.next (s.next a) ns) (sym head) sound.clone.linked.1 in
            let (r, at) =
              search (smaller s) v fuel s.linear_clone.head 1 ns i rest behind
                (λ a j. (sound.made a (inl (inr j))).0) (omega arith) (omega arith) g in
            let node : find_before fuel (smaller s) v 1 s.linear_clone.head
                ≡ some (last_of x r.before, 1 + i) =
              at ∙ ap (λ a. some (last_of a r.before, 1 + i)) head in
            let split = ap (λ l. x ∷ l) r.split in
            let holds =
              after-Holds s x r.node r.before r.behind ys (subst (λ l. IsSound s l ys) split sound)
                (subst (λ l. length l < 2 ^ 64) split short) fits (1 + i) in
            let all : s.val x ∷ map s.val (r.before ++ r.behind) ≡ left =
              ap (λ l. s.val x ∷ l) (sym r.left_is) ∙ ap (λ o. (taken o).1) got in
            let at_index : 1 + i ≡ index =
              (let one : 1 + i ≡ suc i = omega arith in one) ∙ ap (λ o. (taken o).0) got in
            let s' = remove_after (smaller s) (last_of x r.before) (1 + i) in
            (
              s',
              rw (some_head, here, node, remove_linear) refl,
              subst (λ l. Holds s' l (map s.val ys ++ index ∷ [])) all
                  (subst
                    (λ k.
                      Holds s' (s.val x ∷ map s.val (r.before ++ r.behind))
                        (map s.val ys ++ k ∷ []))
                    at_index holds),
            )
      ]
    ]

-- If the linear list holds the value, `remove_linear` returns: it takes the first occurrence off, and
-- adds the number of the values before it at the end of the distances. Fuel for the length of the
-- list is enough; the lists are to be shorter than `2 ^ 64` and `2 ^ 64 - 1`.
pub remove_linear-Holds :
    (s : Analysis) (values distances : List ℕ)
    → Holds s values distances
    → (v index : ℕ) (left : List ℕ) → extract v values ≡ some (index, left)
    → length values < 2 ^ 64
    → length distances + 1 < 2 ^ 64
    → (fuel : ℕ) → length values ≤ fuel
    → (s' : Analysis) × (remove_linear fuel s v ≡ some s') × Holds s' left (distances ++ index ∷ [])
remove_linear-Holds s values distances (xs, ys, sound, vals, dists) v index left e short fits fuel
      enough =
    let same = length-map s.val xs in
    let same_dists = length-map s.val ys in
    subst
      (λ l. (s' : Analysis) × (remove_linear fuel s v ≡ some s') × Holds s' left (l ++ index ∷ []))
      dists
      (removed-Holds s xs ys sound v index left (ap (extract v) vals ∙ e)
        (omega (arith, same, ap length vals)) (omega (arith, same_dists, ap length dists)) fuel
        (omega (arith, same, ap length vals)))
