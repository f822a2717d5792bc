-- ===== src/Relaxation/Lists.antt =====
-- Linked lists with a tail pointer: the nodes from head to tail, and writes to `next` beside them.
use semantic_relaxation_dcbo.Prelude.{
  ℕ, ◌≡◌, ◌≢◌, ◌⊎◌, inl, inr, List, [], ◌∷◌, ◌++◌, map, length, arith, refl, sym, ap, subst, ◌∙◌,
  update,
}
use semantic_relaxation_dcbo.Relaxation.{LinearList}

abbrev pub In : ℕ → List ℕ → Type 0
In a [] = ⊥
In a (n ∷ ns) = (a ≡ n) ⊎ In a ns

abbrev pub NotIn : ℕ → List ℕ → Type 0
NotIn a ns = In a ns → ⊥

abbrev pub Distinct : List ℕ → Type 0
Distinct [] = Unit
Distinct (n ∷ ns) = NotIn n ns × Distinct ns

pub In-append : (a : ℕ) (ns ms : List ℕ) → In a (ns ++ ms) → In a ns ⊎ In a ms
In-append a [] ms i = inr i
In-append a (n ∷ ns) ms (inl e) = inl (inl e)
In-append a (n ∷ ns) ms (inr i) = elim (In-append a ns ms i) [ inl j ↦ inl (inr j) | inr j ↦ inr j ]

pub In-left : (a : ℕ) (ns ms : List ℕ) → In a ns → In a (ns ++ ms)
In-left a [] ms i = absurd i
In-left a (n ∷ ns) ms (inl e) = inl e
In-left a (n ∷ ns) ms (inr i) = inr (In-left a ns ms i)

pub In-right : (a : ℕ) (ns ms : List ℕ) → In a ms → In a (ns ++ ms)
In-right a [] ms i = i
In-right a (n ∷ ns) ms i = inr (In-right a ns ms i)

-- A node between two parts of a list.
pub In-between : (a b : ℕ) (ns ms : List ℕ) → In a (ns ++ ms) → In a (ns ++ b ∷ ms)
In-between a b [] ms i = inr i
In-between a b (n ∷ ns) ms (inl e) = inl e
In-between a b (n ∷ ns) ms (inr i) = inr (In-between a b ns ms i)

pub Distinct-without :
    (b : ℕ) (ns ms : List ℕ) → Distinct (ns ++ b ∷ ms) → Distinct (ns ++ ms) × NotIn b (ns ++ ms)
Distinct-without b [] ms (out, d) = (d, out)
Distinct-without b (n ∷ ns) ms (out, d) =
    let (rest, off) = Distinct-without b ns ms d in
    (
      (λ i. out (In-between n b ns ms i), rest),
      λ i. elim i [ inl e ↦ out (In-right n ns (b ∷ ms) (inl (sym e))) | inr j ↦ off j ],
    )

pub Distinct-end : (b : ℕ) (ns : List ℕ) → Distinct ns → NotIn b ns → Distinct (ns ++ b ∷ [])
Distinct-end b [] d off = ((λ i. i), tt)
Distinct-end b (n ∷ ns) (out, d) off = (
  λ i. elim (In-append n ns (b ∷ []) i) [
    | inl j ↦ out j
    | inr j ↦ elim j [ inl e ↦ off (inl (sym e)) | inr k ↦ k ]
  ],
  Distinct-end b ns d (λ i. off (inr i)),
)

-- From `a` along `next` to NULL lie these nodes.
abbrev pub Linked : (next : ℕ → ℕ) → ℕ → List ℕ → Type 0
Linked next a [] = a ≡ 0
Linked next a (n ∷ ns) = (a ≡ n) × Linked next (next n) ns

-- The last node, after `a`.
abbrev pub last_of : ℕ → List ℕ → ℕ
last_of a [] = a
last_of a (n ∷ ns) = last_of n ns

pub last_of-In : (a : ℕ) (ns : List ℕ) → In (last_of a ns) (a ∷ ns)
last_of-In a [] = inl refl
last_of-In a (n ∷ ns) = inr (last_of-In n ns)

pub last_of-append : (a : ℕ) (ns ms : List ℕ) → last_of a (ns ++ ms) ≡ last_of (last_of a ns) ms
last_of-append a [] ms = refl
last_of-append a (n ∷ ns) ms = last_of-append n ns ms

pub written_here : (f : ℕ → ℕ) (i a : ℕ) → update f i a i ≡ a
written_here f i a = ground arith

pub written_other : (f : ℕ → ℕ) (i a k : ℕ) → k ≢ i → update f i a k ≡ f k
written_other f i a k ne = ground arith

-- A write to a node beside the list leaves it.
pub Linked-beside :
    (next : ℕ → ℕ) (b c a : ℕ) (ns : List ℕ)
    → NotIn b ns
    → Linked next a ns
    → Linked (update next b c) a ns
Linked-beside next b c a [] off l = l
Linked-beside next b c a (n ∷ ns) off (e, l) = (
  e,
  subst (λ x. Linked (update next b c) x ns)
      (sym (written_other next b c n (λ f. off (inl (sym f)))))
      (Linked-beside next b c (next n) ns (λ i. off (inr i)) l),
)

pub map_beside :
    (val : ℕ → ℕ) (b c : ℕ) (ns : List ℕ) → NotIn b ns → map (update val b c) ns ≡ map val ns
map_beside val b c [] off = refl
map_beside val b c (n ∷ ns) off =
    ap (λ x. x ∷ map (update val b c) ns) (written_other val b c n (λ f. off (inl (sym f))))
    ∙ ap (λ l. val n ∷ l) (map_beside val b c ns (λ i. off (inr i)))

-- A write to the last node appends one that leads to NULL.
pub Linked-end :
    (next : ℕ → ℕ) (a n b : ℕ) (ns : List ℕ)
    → Distinct (n ∷ ns)
    → NotIn b (n ∷ ns)
    → next b ≡ 0
    → Linked next a (n ∷ ns)
    → Linked (update next (last_of n ns) b) a (n ∷ ns ++ b ∷ [])
Linked-end next a n b [] d off null (e, l) =
    (e, (written_here next n b, written_other next n b b (λ f. off (inl f)) ∙ null))
Linked-end next a n b (m ∷ ns) (out, d) off null (e, l) = (
  e,
  subst (λ x. Linked (update next (last_of m ns) b) x (m ∷ ns ++ b ∷ []))
      (sym (
        written_other next (last_of m ns) b n
          (λ f. out (subst (λ x. In x (m ∷ ns)) (sym f) (last_of-In m ns)))))
      (Linked-end next (next n) m b ns d (λ i. off (inr i)) null l),
)

-- A write to the node before `b` takes `b` out.
pub Linked-without :
    (next : ℕ → ℕ) (a n b : ℕ) (ns ms : List ℕ)
    → Distinct (n ∷ ns ++ b ∷ ms)
    → Linked next a (n ∷ ns ++ b ∷ ms)
    → Linked (update next (last_of n ns) (next b)) a (n ∷ ns ++ ms)
Linked-without next a n b [] ms (out, d) (e, (f, l)) = (
  e,
  subst (λ x. Linked (update next n (next b)) x ms) (sym (written_here next n (next b)))
      (Linked-beside next n (next b) (next b) ms (λ i. out (inr i)) l),
)
Linked-without next a n b (m ∷ ns) ms (out, d) (e, l) = (
  e,
  subst (λ x. Linked (update next (last_of m ns) (next b)) x (m ∷ ns ++ ms))
      (sym (
        written_other next (last_of m ns) (next b) n (λ f. out (
          subst (λ x. In x (m ∷ ns ++ b ∷ ms)) (sym f)
            (In-left (last_of m ns) (m ∷ ns) (b ∷ ms) (last_of-In m ns))))))
      (Linked-without next (next n) m b ns ms d l),
)

-- A list with its tail and its size.
pub record IsList (next : ℕ → ℕ) (l : LinearList) (ns : List ℕ) : Type 0 where
  pub linked : Linked next l.head ns
  pub tail : l.tail ≡ last_of 0 ns
  pub size : l.size ≡ length ns
