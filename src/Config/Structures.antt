-- ===== src/Config/Structures.antt =====
-- The width and depth that each static 2D structure is created with: the factor of its relaxation
-- bound, and the type of its `width`.
use native.Mathlib.Nat.{mul-le-mul_right}
use semantic_relaxation_dcbo.Prelude.{
  ℕ, zero, suc, ◌+◌, if◌then◌else◌, ◌==◌, ◌-◌, ◌*◌, ◌^◌, ◌≤◌, ◌<◌, ◌≡◌, Option, some, arith, ◌⊎◌,
  inl, inr, dec_lt,
}
use semantic_relaxation_dcbo.Config.{Config, configure}
use semantic_relaxation_dcbo.TwoDc.Counter.{shift_of}
use semantic_relaxation_dcbo.Config.Bound.{configure_within}

-- num_threads, width, depth, k_mode, relaxation_bound
abbrev Create : Type 0
Create = ℕ → ℕ → ℕ → ℕ → ℕ → Option Config

unfoldable pub dd_counter_config : Create
unfolding configure
dd_counter_config = configure 2 (2 ^ 64)

unfoldable pub dd_stack_config : Create
unfolding configure
dd_stack_config = configure 3 (2 ^ 64)

-- `width` is a `uint32_t`.
unfoldable pub dd_queue_config : Create
unfolding configure
dd_queue_config = configure 1 (2 ^ 32)

unfoldable pub dc_counter_config : Create
unfolding configure
dc_counter_config = configure 2 (2 ^ 64)

unfoldable pub dc_stack_config : Create
unfolding configure
dc_stack_config = configure 2 (2 ^ 64)

pub data Structure : Type 0 where
  dd_counter dd_stack dd_queue dc_counter dc_stack : Structure

abbrev pub create : Structure → Create
create dd_counter = dd_counter_config
create dd_stack = dd_stack_config
create dd_queue = dd_queue_config
create dc_counter = dc_counter_config
create dc_stack = dc_stack_config

-- The relaxation of a structure of this width and depth: `(2*shift+depth)(width-1)` under the 2Dc
-- window, as 2Dc-stack.c has it, and the product that the bound is divided by in the others.
abbrev pub relaxation : Structure → Config → ℕ
relaxation dd_counter c = 2 * c.depth * (c.width - 1)
relaxation dd_stack c = 3 * c.depth * (c.width - 1)
relaxation dd_queue c = c.depth * (c.width - 1)
relaxation _ c = (2 * shift_of c.depth + c.depth) * (c.width - 1)

-- How far the relaxation can pass the bound: a depth of 1 has a shift of 1, not of a half.
abbrev pub excess : Structure → Config → ℕ
excess dc_counter c = if c.depth == 1 then c.width - 1 else 0
excess dc_stack c = if c.depth == 1 then c.width - 1 else 0
excess _ c = 0

for_factor :
    (factor m n w d k b : ℕ) {c : Config}
    → 1 ≤ factor
    → factor ≤ 3
    → 2 ^ 32 ≤ m
    → n * w < 2 ^ 31
    → w < 2 ^ 31
    → d < 2 ^ 31
    → b < 2 ^ 31
    → 1 ≤ k
    → k ≤ 3
    → configure factor m n w d k b ≡ some c
    → (1 ≤ c.width)
      × (c.depth * (factor * (c.width - 1)) ≤ b)
      × ((b ≡ 0) ⊎ (1 ≤ c.depth))
      × (1 < c.width → 1 ≤ c.depth)
for_factor factor m n w d k b {c} some_factor few wide teams alone deep fits lo hi e =
    let r =
      configure_within factor m n w d k b some_factor (omega arith) (grind arith) (grind arith)
        (grind arith) (omega arith) lo hi e in
    (
      r.0,
      r.1,
      elim (dec_lt 0 b) [ yes bounded ↦ inr (r.2 bounded) | no unbounded ↦ inl (omega arith) ],
      r.3,
    )

shift-le : (depth : ℕ) → 2 ≤ depth → 2 * shift_of depth ≤ depth
shift-le depth deep = ground arith

deep_relaxation : (s d w b : ℕ) → 2 * s ≤ d → d * (2 * w) ≤ b → (2 * s + d) * w ≤ b
deep_relaxation s d w b s_le le =
    let more : (2 * s + d) * w ≤ (d + d) * w = mul-le-mul_right w (omega (arith, s_le)) in
    let turned : (d + d) * w ≡ d * (2 * w) = grind arith in omega (arith, more, turned, le)

-- Under the 2Dc window.
dc_within :
    (width depth b : ℕ)
    → depth * (2 * (width - 1)) ≤ b
    → (1 < width → 1 ≤ depth)
    → (2 * shift_of depth + depth) * (width - 1) ≤ b + (if depth == 1 then width - 1 else 0)
dc_within width zero b le used = elim (dec_lt 1 width) [
  | yes wide ↦ absurd (omega (arith, used wide))
  | no thin ↦ let none : width - 1 ≡ 0 = omega arith in rw none (omega arith)
]
dc_within width (suc zero) b le used = omega (arith, le)
dc_within width (suc (suc d)) b le used = omega (
  arith,
  deep_relaxation (shift_of (suc (suc d))) (suc (suc d)) (width - 1) b
      (shift-le (suc (suc d)) (omega arith)) le,
)

-- Every static 2D structure that is created for a relaxation bound (`k_mode` 1, 2 or 3) below
-- 2 ^ 31, from parameters whose width, depth, and product of threads and width are below 2 ^ 31, has
-- at least one sub-structure, has a relaxation of no more than that bound (under the 2Dc window at
-- depth 1, of no more than the bound and `width - 1`), and has a depth of at least 1 if the bound is
-- not 0.
pub create_within :
    (structure : Structure) (num_threads width depth k_mode bound : ℕ) {c : Config}
    → num_threads * width < 2 ^ 31
    → width < 2 ^ 31
    → depth < 2 ^ 31
    → bound < 2 ^ 31
    → 1 ≤ k_mode
    → k_mode ≤ 3
    → create structure num_threads width depth k_mode bound ≡ some c
    → (1 ≤ c.width)
      × (relaxation structure c ≤ bound + excess structure c)
      × ((bound ≡ 0) ⊎ (1 ≤ c.depth))
unfolding dd_counter_config dd_stack_config dd_queue_config dc_counter_config dc_stack_config
create_within dd_counter n w d k b nw wl dl bl lo hi e =
    let r =
      for_factor 2 (2 ^ 64) n w d k b (omega arith) (omega arith) (omega arith) nw wl dl bl lo hi
        e in
    (r.0, omega (arith, r.1), r.2)
create_within dd_stack n w d k b nw wl dl bl lo hi e =
    let r =
      for_factor 3 (2 ^ 64) n w d k b (omega arith) (omega arith) (omega arith) nw wl dl bl lo hi
        e in
    (r.0, omega (arith, r.1), r.2)
create_within dd_queue n w d k b nw wl dl bl lo hi e =
    let r =
      for_factor 1 (2 ^ 32) n w d k b (omega arith) (omega arith) (omega arith) nw wl dl bl lo hi
        e in
    (r.0, omega (arith, r.1), r.2)
create_within dc_counter n w d k b {c} nw wl dl bl lo hi e =
    let r =
      for_factor 2 (2 ^ 64) n w d k b (omega arith) (omega arith) (omega arith) nw wl dl bl lo hi
        e in
    (r.0, dc_within c.width c.depth b r.1 r.3, r.2)
create_within dc_stack n w d k b {c} nw wl dl bl lo hi e =
    let r =
      for_factor 2 (2 ^ 64) n w d k b (omega arith) (omega arith) (omega arith) nw wl dl bl lo hi
        e in
    (r.0, dc_within c.width c.depth b r.1 r.3, r.2)
