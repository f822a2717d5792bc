-- ===== src/Config/Bound.antt =====
-- The width and depth chosen keep within the bound that was asked for.
use native.Mathlib.Nat.{div-mul-le_self, mod-eq_of_lt, mod-le}
use semantic_relaxation_dcbo.Prelude.{
  ◌>>=◌, mul64, ℕ, zero, suc, ◌+◌, ◌-◌, ◌*◌, ◌/◌, ◌%◌, ◌^◌, ◌≤◌, ◌<◌, ◌≡◌, subst, inl, inr,
  if◌then◌else◌, Option, none, some, arith, refl, ltb, ◌==◌, Bool-cases, ltb→ge, ==→eq, ==→ne, ◌≢◌,
}
use semantic_relaxation_dcbo.Config.{Config, div?, given_depth, from_width, from_depth, configure}

-- Inversion of a bind that succeeded.
pub >>=-eq-some {ℓ κ} :
    {A : Type ℓ} {B : Type κ} (m : Option A) (f : A → Option B) {b : B}
    → (m >>= f) ≡ some b
    → (a : A) × (m ≡ some a) × (f a ≡ some b)
>>=-eq-some none f e = cc
>>=-eq-some (some a) f e = (a, refl, e)

pub div?-le : (a b q : ℕ) → div? a b ≡ some q → q * b ≤ a
div?-le a b q e = ground (arith, div-mul-le_self a b)

mul-lt : (f a b : ℕ) {n : ℕ} → a ≤ b → f * b < n → f * a < n
mul-lt f a b le lt = grind arith

div?-pos : (factor depth a q : ℕ) → div? a (mul64 factor depth) ≡ some q → 1 ≤ depth
div?-pos factor zero a q e = ground arith
div?-pos factor (suc depth) a q e = omega arith

module _ (factor width_mod bound : ℕ) (some_factor : 0 < factor) (small : factor < 2 ^ 64)
    (fits : bound + 1 < width_mod) where
  pub record IsWithin (c : Config) : Type 0 where
    pub wide : 1 ≤ c.width
    pub within : c.depth * (factor * (c.width - 1)) ≤ bound
    pub deep : 0 < bound → 1 ≤ c.depth
    pub used : 1 < c.width → 1 ≤ c.depth

  returned : {d c : Config} → some d ≡ some c → IsWithin d → IsWithin c
  returned {d} {c} e w = let same : d ≡ c = cc in subst IsWithin same w

  -- the width at depth 1
  widest-IsWithin :
      (q : ℕ)
      → div? bound (mul64 factor 1) ≡ some q
      → IsWithin (record { width = (q + 1) % width_mod; depth = 1; relaxation_bound = bound })
  widest-IsWithin q divided =
      let le : q * (factor * 1 % 2 ^ 64) ≤ bound = div?-le _ _ _ divided in
      let one : factor * 1 % 2 ^ 64 ≡ factor = omega arith in
      let le_factor : q * factor ≤ bound = rw one at le in
      let no_wrap : (q + 1) % width_mod ≡ q + 1 = mod-eq_of_lt (grind arith) in
      record {
        wide = omega (arith, no_wrap);
        within = rw no_wrap (grind arith);
        deep = λ h. omega arith;
        used = λ h. omega arith;
      }

  given_depth-IsWithin :
      (width depth : ℕ) {c : Config}
      → 1 ≤ width
      → depth * (factor * (width - 1)) ≤ bound
      → given_depth factor width_mod width depth bound ≡ some c
      → IsWithin c
  unfolding given_depth
  given_depth-IsWithin width depth wide within e = elim (Bool-cases (ltb depth 1)) [
    | inr deep ↦ returned (rw (deep, given_depth) at e) (record {
      wide = wide;
      within = within;
      deep = λ h. ltb→ge _ _ deep;
      used = λ h. ltb→ge _ _ deep;
    })
    | inl flat ↦
        let (q, divided, e') =
          >>=-eq-some (div? bound (mul64 factor 1)) _ (rw (flat, given_depth) at e) in
        returned e' (widest-IsWithin q divided)
  ]

  spread-le :
      (width depth : ℕ)
      → factor * width < 2 ^ 64
      → div? bound (mul64 factor (width - 1)) ≡ some depth
      → depth * (factor * (width - 1)) ≤ bound
  spread-le width depth no_wrap divided =
      let le : depth * (factor * (width - 1) % 2 ^ 64) ≤ bound = div?-le _ _ _ divided in
      rw (mod-eq_of_lt {n = factor * (width - 1)} {m = 2 ^ 64} (grind arith)) at le

  from_width-IsWithin :
      (width : ℕ) {c : Config}
      → factor * width < 2 ^ 64
      → from_width factor width_mod width bound ≡ some c
      → IsWithin c
  unfolding from_width
  from_width-IsWithin width no_wrap e = elim (Bool-cases (ltb width 2)) [
    | inl thin ↦ returned (rw (thin, from_width) at e) (record {
      wide = omega arith;
      within = omega arith;
      deep = λ h. h;
      used = λ h. absurd (omega arith);
    })
    | inr wide ↦
        let (depth, divided, e') =
          >>=-eq-some (div? bound (mul64 factor (width - 1))) _ (rw (wide, from_width) at e) in
        given_depth-IsWithin width depth (omega (arith, ltb→ge _ _ wide))
          (spread-le width depth no_wrap divided) e'
  ]

  as_wide-IsWithin :
      (depth q : ℕ) {c : Config}
      → factor * depth < 2 ^ 64
      → div? bound (mul64 factor depth) ≡ some q
      → some (
          if ltb ((q + 1) % width_mod) 1
          then record { width = 1; depth = bound; relaxation_bound = 0 }
          else record { width = (q + 1) % width_mod; depth = depth; relaxation_bound = bound })
        ≡ some c
      → IsWithin c
  as_wide-IsWithin depth q no_wrap divided e =
      let le : q * (factor * depth % 2 ^ 64) ≤ bound = div?-le _ _ _ divided in
      let le_factor : q * (factor * depth) ≤ bound = rw (mod-eq_of_lt no_wrap) at le in
      elim (Bool-cases (ltb ((q + 1) % width_mod) 1)) [
        | inl none_wide ↦ returned (rw none_wide at e) (record {
          wide = omega arith;
          within = omega arith;
          deep = λ h. h;
          used = λ h. absurd (omega arith);
        })
        | inr wide ↦ returned (rw wide at e) (record {
          wide = ltb→ge _ _ wide;
          within = grind arith;
          deep = λ h. div?-pos factor depth bound q divided;
          used = λ h. div?-pos factor depth bound q divided;
        })
      ]

  from_depth-IsWithin :
      (depth : ℕ) {c : Config}
      → factor * depth < 2 ^ 64
      → from_depth factor width_mod depth bound ≡ some c
      → IsWithin c
  unfolding from_depth
  from_depth-IsWithin depth no_wrap e =
      let (q, divided, e') = >>=-eq-some (div? bound (mul64 factor depth)) _ e in
      as_wide-IsWithin depth q no_wrap divided e'

-- With a bound to keep (`k_mode` 1, 2 or 3), what is created has at least one sub-structure, its
-- width and depth keep within the bound that was asked for, and its depth is not 0 unless that
-- bound is, nor if it is wider than one, if neither the product of factor and width nor that of factor and depth wraps, and
-- `width` can hold the bound.
pub configure_within :
    (factor width_mod num_threads width depth k_mode bound : ℕ) {c : Config}
    → 0 < factor
    → factor < 2 ^ 64
    → factor * (num_threads * width) < 2 ^ 64
    → factor * width < 2 ^ 64
    → factor * depth < 2 ^ 64
    → bound + 1 < width_mod
    → 1 ≤ k_mode
    → k_mode ≤ 3
    → configure factor width_mod num_threads width depth k_mode bound ≡ some c
    → (1 ≤ c.width)
      × (c.depth * (factor * (c.width - 1)) ≤ bound)
      × (0 < bound → 1 ≤ c.depth)
      × (1 < c.width → 1 ≤ c.depth)
unfolding configure
configure_within factor m num_threads width depth k bound some_factor small teams alone deep fits lo
      hi e =
    elim (Bool-cases (k == 3)) [
      | inl three ↦ parts (
          from_width-IsWithin factor m bound some_factor small fits (num_threads * width % m)
            (mul-lt factor _ _ (mod-le (num_threads * width) m) teams) (rw (three, configure) at e))
      | inr not_three ↦ elim (Bool-cases (k == 2)) [
        | inl two ↦ parts (
            from_depth-IsWithin factor m bound some_factor small fits depth deep
              (rw (not_three, two, configure) at e))
        | inr not_two ↦ elim (Bool-cases (k == 1)) [
          | inl one ↦ parts (
              from_width-IsWithin factor m bound some_factor small fits width alone
                (rw (not_three, not_two, one, configure) at e))
          | inr not_one ↦
              absurd (omega (arith, ==→ne _ _ not_three, ==→ne _ _ not_two, ==→ne _ _ not_one))
        ]
      ]
    ]
  where
    parts :
        {d : Config}
        → IsWithin factor m bound some_factor small fits d
        → (1 ≤ d.width)
          × (d.depth * (factor * (d.width - 1)) ≤ bound)
          × (0 < bound → 1 ≤ d.depth)
          × (1 < d.width → 1 ≤ d.depth)
    parts w = (w.wide, w.within, w.deep, w.used)

from_some {ℓ} : {A : Type ℓ} {a : A} → some a ≡ none → ⊥
from_some e = cc

mul-mod-ne_zero : (f a : ℕ) → 0 < f → 0 < a → f * a < 2 ^ 64 → f * a % 2 ^ 64 ≢ 0
mul-mod-ne_zero f a f_pos a_pos lt = grind arith

div?-defined : (a b : ℕ) → b ≢ 0 → div? a b ≡ some (a / b)
div?-defined a b ne = ground arith

module _ (factor m : ℕ) (some_factor : 0 < factor) (small : factor < 2 ^ 64) where
  given_depth-defined : (width depth bound : ℕ) → given_depth factor m width depth bound ≢ none
  unfolding given_depth
  given_depth-defined width depth bound e = elim (Bool-cases (ltb depth 1)) [
    | inr deep ↦ from_some (rw (deep, given_depth) at e)
    | inl flat ↦
        from_some
          (rw (flat, given_depth, div?-defined bound (factor * 1 % 2 ^ 64) (omega arith)) at e)
  ]

  from_width-defined :
      (width bound : ℕ) → factor * width < 2 ^ 64 → from_width factor m width bound ≢ none
  unfolding from_width
  from_width-defined width bound no_wrap e = elim (Bool-cases (ltb width 2)) [
    | inl thin ↦ from_some (rw (thin, from_width) at e)
    | inr wide ↦ given_depth-defined width _ bound (
        rw
          (
            wide,
            from_width,
            div?-defined bound (factor * (width - 1) % 2 ^ 64) (
                mul-mod-ne_zero factor (width - 1) some_factor (omega (arith, ltb→ge _ _ wide))
                  (mul-lt factor (width - 1) width (omega arith) no_wrap)),
          )
          at e)
  ]

from_depth-defined :
    (factor m : ℕ)
    → 0 < factor
    → (depth bound : ℕ) → factor * depth < 2 ^ 64
    → from_depth factor m depth bound ≡ none
    → depth ≡ 0
unfolding from_depth
from_depth-defined factor m some_factor zero bound no_wrap e = refl
from_depth-defined factor m some_factor (suc depth) bound no_wrap e = absurd (
    from_some (
      rw
        (div?-defined bound (factor * suc depth % 2 ^ 64)
          (mul-mod-ne_zero factor (suc depth) some_factor (omega arith) no_wrap))
        at e))

-- Creation divides by zero only for a depth of 0 in `k_mode` 2, if no product of factor wraps.
pub configure_defined :
    (factor width_mod num_threads width depth k_mode bound : ℕ)
    → 0 < factor
    → factor < 2 ^ 64
    → factor * (num_threads * width) < 2 ^ 64
    → factor * width < 2 ^ 64
    → factor * depth < 2 ^ 64
    → configure factor width_mod num_threads width depth k_mode bound ≡ none
    → (k_mode ≡ 2) × (depth ≡ 0)
unfolding configure
configure_defined factor m num_threads width depth k bound some_factor small teams alone deep e =
    elim (Bool-cases (k == 3)) [
      | inl three ↦ absurd (
          from_width-defined factor m some_factor small (num_threads * width % m) bound
            (mul-lt factor _ _ (mod-le (num_threads * width) m) teams) (rw (three, configure) at e))
      | inr not_three ↦ elim (Bool-cases (k == 2)) [
        | inl two ↦ (
          ==→eq _ _ two,
          from_depth-defined factor m some_factor depth bound deep
              (rw (not_three, two, configure) at e),
        )
        | inr not_two ↦ elim (Bool-cases (k == 1)) [
          | inl one ↦ absurd (
              from_width-defined factor m some_factor small width bound alone
                (rw (not_three, not_two, one, configure) at e))
          | inr not_one ↦ elim (Bool-cases (k == 0)) [
            | inl zero_mode ↦
                absurd (from_some (rw (not_three, not_two, not_one, zero_mode, configure) at e))
            | inr other ↦
                absurd (from_some (rw (not_three, not_two, not_one, other, configure) at e))
          ]
        ]
      ]
    ]
