-- ===== src/Relaxation/Add.antt =====
-- `add_linear` puts a value at the head or at the tail of the linear list.
use semantic_relaxation_dcbo.Prelude.{
  ℕ, zero, suc, ◌+◌, ◌^◌, ◌≤◌, ◌<◌, ◌≡◌, ◌⊎◌, inl, inr, true, some, List, [], ◌∷◌, ◌++◌, map,
  length, length-append, arith, refl, sym, ap, subst, ◌∙◌, update, ◌==◌, Bool-cases, ==→eq, add64,
  if◌then◌else◌,
}
use semantic_relaxation_dcbo.Relaxation.{LinearList, Analysis, add_linear}
use semantic_relaxation_dcbo.Relaxation.Lists.{
  In, NotIn, Distinct, In-append, Distinct-end, Linked, last_of, last_of-In, last_of-append,
  Linked-beside, Linked-end, map_beside, written_here, IsList,
}
use semantic_relaxation_dcbo.Relaxation.Sound.{IsSound, Holds}

-- What `add_linear` does to the list of values.
abbrev pub added : (values : List ℕ) → (val end : ℕ) → List ℕ
added values val end = if end == 1 then val ∷ values else values ++ val ∷ []

module _ (s : Analysis) (xs ys : List ℕ) (sound : IsSound s xs ys) (v : ℕ) where
  open sound use {clone, dists, distinct, distinct_dists, apart, made, some_fresh}

  fresh_off : NotIn s.fresh xs
  fresh_off i = absurd (omega (arith, (made s.fresh (inl i)).1))

  fresh_off_dists : NotIn s.fresh ys
  fresh_off_dists i = absurd (omega (arith, (made s.fresh (inr i)).1))

  abbrev cleared : ℕ → ℕ
  cleared = update s.next s.fresh 0

  -- The state with the new node on the first list, for a `next` that links it.
  module _ (next : ℕ → ℕ) (l : LinearList) (new : List ℕ)
      (only : (a : ℕ) → In a new → In a (s.fresh ∷ xs)) (dist : Distinct new)
      (list : IsList next l new) (linked : Linked next s.error_dists.head ys) where
    abbrev after : Analysis
    after = record s {
      val = update s.val s.fresh v;
      next = next;
      fresh = s.fresh + 1;
      linear_clone = l;
    }

    new_cases : (a : ℕ) → In a new → (a ≡ s.fresh) ⊎ In a xs
    new_cases a i = only a i

    after-IsSound : IsSound after new ys
    after-IsSound = record {
      clone = list;
      dists = record { linked = linked; tail = dists.tail; size = dists.size };
      distinct = dist;
      distinct_dists = distinct_dists;
      apart = λ a i j. elim (new_cases a i) [
        | inl e ↦ fresh_off_dists (subst (λ b. In b ys) e j)
        | inr k ↦ apart a k j
      ];
      made = λ a i. elim i [
        | inl j ↦ elim (new_cases a j) [
          | inl e ↦ (omega arith, omega arith)
          | inr k ↦ let m = made a (inl k) in (m.0, omega (arith, m.1))
        ]
        | inr j ↦ let m = made a (inr j) in (m.0, omega (arith, m.1))
      ];
      some_fresh = omega arith;
    }

  new_val : map (update s.val s.fresh v) (s.fresh ∷ []) ≡ v ∷ []
  new_val = ap (λ x. x ∷ []) (written_here s.val s.fresh v)

  old_vals : map (update s.val s.fresh v) xs ≡ map s.val xs
  old_vals = map_beside s.val s.fresh v xs fresh_off

  old_dists : map (update s.val s.fresh v) ys ≡ map s.val ys
  old_dists = map_beside s.val s.fresh v ys fresh_off_dists

  cleared_dists : Linked cleared s.error_dists.head ys
  cleared_dists = Linked-beside s.next s.fresh 0 _ ys fresh_off_dists dists.linked

pub map-end : (f : ℕ → ℕ) (ns : List ℕ) (n : ℕ) → map f (ns ++ n ∷ []) ≡ map f ns ++ f n ∷ []
map-end f [] n = refl
map-end f (m ∷ ns) n = ap (λ l. f m ∷ l) (map-end f ns n)

-- On an empty list both ends are the same.
add_empty :
    (s : Analysis) (ys : List ℕ)
    → IsSound s [] ys
    → (v end : ℕ)
    → (s' : Analysis) × (add_linear s v end ≡ some s') × Holds s' (v ∷ []) (map s.val ys)
unfolding add_linear
add_empty s ys sound v end =
    let null : s.linear_clone.head ≡ 0 = sound.clone.linked in
    let size : add64 s.linear_clone.size 1 ≡ 1 = omega (arith, sound.clone.size) in
    (
      _,
      rw (null, add_linear) refl,
      (
        s.fresh ∷ [],
        ys,
        after-IsSound s [] ys sound v (cleared s [] ys sound v) _ (s.fresh ∷ []) (λ a i. i)
            ((λ i. i), tt)
            (record { linked = (refl, written_here s.next s.fresh 0); tail = refl; size = size })
            (cleared_dists s [] ys sound v),
        new_val s [] ys sound v,
        old_dists s [] ys sound v,
      ),
    )

module _ (s : Analysis) (x : ℕ) (xs ys : List ℕ) (sound : IsSound s (x ∷ xs) ys) (v : ℕ)
    (fits : length (x ∷ xs) + 1 < 2 ^ 64) where
  some_head : (s.linear_clone.head == 0) ≡ true → ⊥
  some_head e =
      absurd (omega (arith, ==→eq _ _ e, sound.clone.linked.0, (sound.made x (inl (inl refl))).0))

  one_more : add64 s.linear_clone.size 1 ≡ suc (length (x ∷ xs))
  one_more = omega (arith, sound.clone.size)

  clear : ℕ → ℕ
  clear = update s.next s.fresh 0

  off : NotIn s.fresh (x ∷ xs)
  off = fresh_off s (x ∷ xs) ys sound v

  at_head :
      (s' : Analysis) × (add_linear s v 1 ≡ some s')
      × Holds s' (v ∷ map s.val (x ∷ xs)) (map s.val ys)
  unfolding add_linear clear
  at_head = elim (Bool-cases (s.linear_clone.head == 0)) [
    | inl e ↦ absurd (some_head e)
    | inr e ↦
        let head = s.linear_clone.head in
        let next = update clear s.fresh head in
        (
          _,
          rw (e, add_linear) refl,
          (
            s.fresh ∷ x ∷ xs,
            ys,
            after-IsSound s (x ∷ xs) ys sound v next _ (s.fresh ∷ x ∷ xs) (λ a i. i)
                (off, sound.distinct)
                (record {
                  linked = (
                    refl,
                    subst (λ a. Linked next a (x ∷ xs)) (sym (written_here clear s.fresh head))
                        (Linked-beside clear s.fresh head head (x ∷ xs) off
                          (Linked-beside s.next s.fresh 0 head (x ∷ xs) off sound.clone.linked)),
                  );
                  tail = sound.clone.tail;
                  size = one_more;
                })
                (Linked-beside clear s.fresh head _ ys (fresh_off_dists s (x ∷ xs) ys sound v)
                  (cleared_dists s (x ∷ xs) ys sound v)),
            ap (λ n. n ∷ map (update s.val s.fresh v) (x ∷ xs)) (written_here s.val s.fresh v)
                ∙ ap (λ l. v ∷ l) (old_vals s (x ∷ xs) ys sound v),
            old_dists s (x ∷ xs) ys sound v,
          ),
        )
  ]

  front_cases : (a : ℕ) → In a (x ∷ xs ++ s.fresh ∷ []) → In a (s.fresh ∷ x ∷ xs)
  front_cases a i = elim (In-append a (x ∷ xs) (s.fresh ∷ []) i) [
    | inl j ↦ inr j
    | inr j ↦ elim j [ inl e ↦ inl e | inr none ↦ absurd none ]
  ]

  at_tail :
      (s' : Analysis) × (add_linear s v 0 ≡ some s')
      × Holds s' (map s.val (x ∷ xs) ++ v ∷ []) (map s.val ys)
  unfolding add_linear clear
  at_tail = elim (Bool-cases (s.linear_clone.head == 0)) [
    | inl e ↦ absurd (some_head e)
    | inr e ↦
        let tail = s.linear_clone.tail in
        let at_last : tail ≡ last_of x xs = sound.clone.tail in
        let next = update clear tail s.fresh in
        let tail_in = subst (λ a. In a (x ∷ xs)) (sym at_last) (last_of-In x xs) in
        let val = update s.val s.fresh v in
        let l : LinearList = record {
          head = s.linear_clone.head;
          tail = s.fresh;
          size = add64 s.linear_clone.size 1;
        } in
        (
          _,
          rw (e, add_linear) refl,
          (
            x ∷ xs ++ s.fresh ∷ [],
            ys,
            after-IsSound s (x ∷ xs) ys sound v next l (x ∷ xs ++ s.fresh ∷ []) front_cases
                (Distinct-end s.fresh (x ∷ xs) sound.distinct off)
                (record {
                  linked =
                      subst
                        (λ b.
                          Linked (update clear b s.fresh) s.linear_clone.head
                            (x ∷ xs ++ s.fresh ∷ []))
                        (sym at_last)
                        (Linked-end clear _ x s.fresh xs sound.distinct off
                          (written_here s.next s.fresh 0)
                          (Linked-beside s.next s.fresh 0 _ (x ∷ xs) off sound.clone.linked));
                  tail = sym (last_of-append x xs (s.fresh ∷ []));
                  size = omega (arith, one_more, length-append xs (s.fresh ∷ []));
                })
                (Linked-beside clear tail s.fresh _ ys (sound.apart tail tail_in)
                  (cleared_dists s (x ∷ xs) ys sound v)),
            map-end val (x ∷ xs) s.fresh
                ∙ ap (λ l. l ++ val s.fresh ∷ []) (old_vals s (x ∷ xs) ys sound v)
                ∙ ap (λ n. map s.val (x ∷ xs) ++ n ∷ []) (written_here s.val s.fresh v),
            old_dists s (x ∷ xs) ys sound v,
          ),
        )
  ]

added-Holds :
    (s : Analysis) (xs ys : List ℕ)
    → IsSound s xs ys
    → (v end : ℕ) → end ≤ 1
    → length xs + 1 < 2 ^ 64
    → (s' : Analysis) × (add_linear s v end ≡ some s')
      × Holds s' (added (map s.val xs) v end) (map s.val ys)
added-Holds s [] ys sound v zero le fits = add_empty s ys sound v 0
added-Holds s [] ys sound v (suc zero) le fits = add_empty s ys sound v 1
added-Holds s (x ∷ xs) ys sound v zero le fits = at_tail s x xs ys sound v fits
added-Holds s (x ∷ xs) ys sound v (suc zero) le fits = at_head s x xs ys sound v fits
added-Holds s xs ys sound v (suc (suc n)) le fits = absurd (omega arith)

pub length-map : (f : ℕ → ℕ) (ns : List ℕ) → length (map f ns) ≡ length ns
length-map f [] = refl
length-map f (n ∷ ns) = ap suc (length-map f ns)

-- `add_linear` returns, and puts the value at the head of the linear list for an end of 1 and at its
-- tail for an end of 0; the distances stay as they are. The list is to be shorter than `2 ^ 64 - 1`.
pub add_linear-Holds :
    (s : Analysis) (values distances : List ℕ)
    → Holds s values distances
    → (v end : ℕ) → end ≤ 1
    → length values + 1 < 2 ^ 64
    → (s' : Analysis) × (add_linear s v end ≡ some s') × Holds s' (added values v end) distances
add_linear-Holds s values distances (xs, ys, sound, vals, dists) v end le fits =
    let short : length xs + 1 < 2 ^ 64 = omega (arith, length-map s.val xs, ap length vals) in
    subst
      (λ l. (s' : Analysis) × (add_linear s v end ≡ some s') × Holds s' (added l v end) distances)
      vals
      (subst
        (λ l.
          (s' : Analysis) × (add_linear s v end ≡ some s')
          × Holds s' (added (map s.val xs) v end) l)
        dists (added-Holds s xs ys sound v end le short))
