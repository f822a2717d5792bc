-- ===== src/Config/Narrow.antt =====
-- The choice of width and depth in the optimized and the elastic structures: `width_t` and `depth_t`
-- are `uint16_t`, so that a quotient is cut off when it is stored, and the products are `int`s.
use native.Mathlib.Nat.{mul-le-mul_left, mul-le-mul_right, mod-le, mul_comm}
use semantic_relaxation_dcbo.Prelude.{
  ◌>>=◌, ℕ, ◌+◌, ◌-◌, ◌*◌, ◌/◌, ◌%◌, ◌^◌, ◌≤◌, ◌<◌, ◌≡◌, Option, none, some, arith, subst, ltb,
  ◌==◌, if◌then◌else◌, Bool-cases, inl, inr, ==→ne, mul64,
}
use semantic_relaxation_dcbo.Config.{Config, div?, given_depth}
use semantic_relaxation_dcbo.Config.Bound.{>>=-eq-some, div?-le}

module _ (factor : ℕ) where
  unfoldable pub narrow_from_width : (width relaxation_bound : ℕ) → Option Config
  unfolding given_depth
  narrow_from_width width relaxation_bound =
      if ltb width 2
      then some (record { width = 1; depth = relaxation_bound % 2 ^ 16; relaxation_bound = 0 })
      else (do
        depth ← div? relaxation_bound (factor * (width - 1))
        given_depth factor (2 ^ 16) width (depth % 2 ^ 16) relaxation_bound)

  unfoldable pub narrow_from_depth : (depth relaxation_bound : ℕ) → Option Config
  narrow_from_depth depth relaxation_bound = do
    q ← div? relaxation_bound (factor * depth)
    let width = (q + 1) % 2 ^ 16
    some (
        if ltb width 1
        then record { width = 1; depth = relaxation_bound % 2 ^ 16; relaxation_bound = 0 }
        else record { width = width; depth = depth; relaxation_bound = relaxation_bound })

  -- `factor * depth * (width - 1)` as an `int`, made a `uint64_t`. An overflow is undefined.
  unfoldable pub narrow_product : (width depth : ℕ) → Option ℕ
  narrow_product width depth =
      if width == 0
      then some ((2 ^ 64 - factor * depth) % 2 ^ 64)
      else if ltb (factor * depth * (width - 1)) (2 ^ 31)
      then some (factor * depth * (width - 1))
      else none

  -- `width` and `depth` are below 2 ^ 16.
  unfoldable pub narrow_configure :
      (num_threads width depth k_mode relaxation_bound : ℕ) → Option Config
  unfolding narrow_from_width narrow_from_depth narrow_product
  narrow_configure num_threads width depth k_mode relaxation_bound =
      if k_mode == 3
      then narrow_from_width (num_threads * width % 2 ^ 16) relaxation_bound
      else if k_mode == 2
      then narrow_from_depth depth relaxation_bound
      else if k_mode == 1
      then narrow_from_width width relaxation_bound
      else if k_mode == 0
      then (do
        product ← narrow_product width depth
        some (record { width = width; depth = depth; relaxation_bound = product }))
      else some (record { width = width; depth = depth; relaxation_bound = relaxation_bound })

  -- What is chosen is relaxed by no more than was asked for.
  abbrev pub IsWithin : ℕ → Config → Type 0
  IsWithin bound c = c.depth * (factor * (c.width - 1)) ≤ bound

  module _ (some_factor : 0 < factor) (small : factor < 2 ^ 64) where
    wide_enough : (q b : ℕ) → q * mul64 factor 1 ≤ b → 1 * (factor * ((q + 1) % 2 ^ 16 - 1)) ≤ b
    wide_enough q b le =
        let below : (q + 1) % 2 ^ 16 - 1 ≤ q = omega (arith, mod-le (q + 1) (2 ^ 16)) in
        let whole : mul64 factor 1 ≡ factor = omega arith in
        omega
          (arith, mul-le-mul_left factor below, mul_comm q factor, subst (λ f. q * f ≤ b) whole le)

    cut_off : (f q b : ℕ) → q * f ≤ b → q % 2 ^ 16 * f ≤ b
    cut_off f q b le = omega (arith, le, mul-le-mul_right f (mod-le q (2 ^ 16)))

    narrow_given_depth-IsWithin :
        (width depth b : ℕ) {c : Config}
        → depth * (factor * (width - 1)) ≤ b
        → given_depth factor (2 ^ 16) width depth b ≡ some c
        → IsWithin b c
    unfolding given_depth
    narrow_given_depth-IsWithin width depth b {c} within e = elim (Bool-cases (ltb depth 1)) [
      | inr deep ↦
          let same : record { width = width; depth = depth; relaxation_bound = b } ≡ c =
            cc (rw (deep, given_depth) at e) in
          subst (IsWithin b) same within
      | inl flat ↦
          let (q, divided, e') =
            >>=-eq-some (div? b (mul64 factor 1)) _ (rw (flat, given_depth) at e) in
          let same : record { width = (q + 1) % 2 ^ 16; depth = 1; relaxation_bound = b } ≡ c =
            cc in
          subst (IsWithin b) same (wide_enough q b (div?-le _ _ _ divided))
    ]

    narrow_from_width-IsWithin :
        (width b : ℕ) {c : Config} → narrow_from_width width b ≡ some c → IsWithin b c
    unfolding narrow_from_width
    narrow_from_width-IsWithin width b {c} e = elim (Bool-cases (ltb width 2)) [
      | inl alone ↦
          let same : record { width = 1; depth = b % 2 ^ 16; relaxation_bound = 0 } ≡ c =
            cc (rw (alone, narrow_from_width) at e) in
          subst (IsWithin b) same (omega arith)
      | inr wide ↦
          let (depth, divided, e') =
            >>=-eq-some (div? b (factor * (width - 1))) _ (rw (wide, narrow_from_width) at e) in
          narrow_given_depth-IsWithin width (depth % 2 ^ 16) b
            (cut_off (factor * (width - 1)) depth b (div?-le _ _ _ divided)) e'
    ]

    scaled : (q w depth b : ℕ) → w ≤ q → q * (factor * depth) ≤ b → depth * (factor * w) ≤ b
    scaled q w depth b le within =
        let turned : depth * (factor * w) ≡ w * (factor * depth) = grind arith in
        omega (arith, mul-le-mul_right (factor * depth) le, turned, within)

    narrow_from_depth-IsWithin :
        (depth b : ℕ) {c : Config} → narrow_from_depth depth b ≡ some c → IsWithin b c
    unfolding narrow_from_depth
    narrow_from_depth-IsWithin depth b {c} e =
        let (q, divided, e') = >>=-eq-some (div? b (factor * depth)) _ e in
        let below : (q + 1) % 2 ^ 16 - 1 ≤ q = omega (arith, mod-le (q + 1) (2 ^ 16)) in
        elim (Bool-cases (ltb ((q + 1) % 2 ^ 16) 1)) [
          | inl none_wide ↦
              let same : record { width = 1; depth = b % 2 ^ 16; relaxation_bound = 0 } ≡ c =
                cc (rw none_wide at e') in
              subst (IsWithin b) same (omega arith)
          | inr wide ↦
              let same : record { width = (q + 1) % 2 ^ 16; depth = depth; relaxation_bound = b }
                  ≡ c =
                cc (rw wide at e') in
              subst (IsWithin b) same (scaled q _ depth b below (div?-le _ _ _ divided))
        ]

    narrow_configure-IsWithin :
        (n w d k b : ℕ) {c : Config}
        → 1 ≤ k
        → k ≤ 3
        → narrow_configure n w d k b ≡ some c
        → IsWithin b c
    unfolding narrow_configure
    narrow_configure-IsWithin n w d k b lo hi e = elim (Bool-cases (k == 3)) [
      | inl three ↦ narrow_from_width-IsWithin _ b (rw (three, narrow_configure) at e)
      | inr not_three ↦ elim (Bool-cases (k == 2)) [
        | inl two ↦ narrow_from_depth-IsWithin d b (rw (not_three, two, narrow_configure) at e)
        | inr not_two ↦ elim (Bool-cases (k == 1)) [
          | inl one ↦
              narrow_from_width-IsWithin w b (rw (not_three, not_two, one, narrow_configure) at e)
          | inr not_one ↦
              absurd (omega (arith, ==→ne _ _ not_three, ==→ne _ _ not_two, ==→ne _ _ not_one))
        ]
      ]
    ]

-- num_threads, width, depth, k_mode, relaxation_bound
abbrev NarrowCreate : Type 0
NarrowCreate = ℕ → ℕ → ℕ → ℕ → ℕ → Option Config

unfoldable pub dc_stack_optimized_config : NarrowCreate
unfolding narrow_configure
dc_stack_optimized_config = narrow_configure 2

unfoldable pub dc_stack_elastic_config : NarrowCreate
unfolding narrow_configure
dc_stack_elastic_config = narrow_configure 2

unfoldable pub dd_queue_optimized_config : NarrowCreate
unfolding narrow_configure
dd_queue_optimized_config = narrow_configure 1

-- The elastic queues with a lateral window (LaW) and with lateral pointers in the window (LpW).
unfoldable pub dd_queue_law_config : NarrowCreate
unfolding narrow_configure
dd_queue_law_config = narrow_configure 1

unfoldable pub dd_queue_lpw_config : NarrowCreate
unfolding narrow_configure
dd_queue_lpw_config = narrow_configure 1

pub data NarrowStructure : Type 0 where
  dc_stack_optimized dc_stack_elastic dd_queue_optimized dd_queue_law dd_queue_lpw : NarrowStructure

abbrev pub narrow_create : NarrowStructure → NarrowCreate
narrow_create dc_stack_optimized = dc_stack_optimized_config
narrow_create dc_stack_elastic = dc_stack_elastic_config
narrow_create dd_queue_optimized = dd_queue_optimized_config
narrow_create dd_queue_law = dd_queue_law_config
narrow_create dd_queue_lpw = dd_queue_lpw_config

-- The relaxation: `(2*shift+depth)(width-1)` in the 2Dc stacks, whose `shift` is
-- `depth + 1 >> 1`.
abbrev pub narrow_relaxation : NarrowStructure → Config → ℕ
narrow_relaxation dc_stack_optimized c = (2 * ((c.depth + 1) / 2) + c.depth) * (c.width - 1)
narrow_relaxation dc_stack_elastic c = (2 * ((c.depth + 1) / 2) + c.depth) * (c.width - 1)
narrow_relaxation _ c = c.depth * (c.width - 1)

-- How far it can pass the bound: an odd depth is rounded up when it is halved.
abbrev pub narrow_excess : NarrowStructure → Config → ℕ
narrow_excess dc_stack_optimized c = c.depth % 2 * (c.width - 1)
narrow_excess dc_stack_elastic c = c.depth % 2 * (c.width - 1)
narrow_excess _ c = 0

twice : (d w b : ℕ) → d * (2 * w) ≤ b → (2 * ((d + 1) / 2) + d) * w ≤ b + d % 2 * w
twice d w b le =
    let halves : 2 * ((d + 1) / 2) + d ≡ 2 * d + d % 2 = omega arith in
    let turned : (2 * d + d % 2) * w ≡ d * (2 * w) + d % 2 * w = grind arith in
    rw halves (omega (arith, turned, le))

once : (d w b : ℕ) → d * (1 * w) ≤ b → d * w ≤ b + 0
once d w b le = let turned : d * w ≡ d * (1 * w) = grind arith in omega (arith, turned)

-- Every optimized or elastic structure that is created for a relaxation bound (`k_mode` 1, 2 or 3)
-- has a relaxation of no more than that bound, whatever its parameters are (a 2Dc stack of odd depth,
-- of no more than the bound and `width - 1`): the cut of a quotient to 16 bits never takes it past.
pub narrow_create-within :
    (structure : NarrowStructure) (num_threads width depth k_mode bound : ℕ) {c : Config}
    → 1 ≤ k_mode
    → k_mode ≤ 3
    → narrow_create structure num_threads width depth k_mode bound ≡ some c
    → narrow_relaxation structure c ≤ bound + narrow_excess structure c
unfolding dc_stack_optimized_config dc_stack_elastic_config dd_queue_optimized_config
    dd_queue_law_config dd_queue_lpw_config
narrow_create-within dc_stack_optimized n w d k b lo hi e =
    twice _ _ b (narrow_configure-IsWithin 2 (omega arith) (omega arith) n w d k b lo hi e)
narrow_create-within dc_stack_elastic n w d k b lo hi e =
    twice _ _ b (narrow_configure-IsWithin 2 (omega arith) (omega arith) n w d k b lo hi e)
narrow_create-within dd_queue_optimized n w d k b lo hi e =
    once _ _ b (narrow_configure-IsWithin 1 (omega arith) (omega arith) n w d k b lo hi e)
narrow_create-within dd_queue_law n w d k b lo hi e =
    once _ _ b (narrow_configure-IsWithin 1 (omega arith) (omega arith) n w d k b lo hi e)
narrow_create-within dd_queue_lpw n w d k b lo hi e =
    once _ _ b (narrow_configure-IsWithin 1 (omega arith) (omega arith) n w d k b lo hi e)
