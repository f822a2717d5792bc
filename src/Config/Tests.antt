-- ===== src/Config/Tests.antt =====
-- Structures created with given parameters, and the theorems at some of them.
use semantic_relaxation_dcbo.Prelude.{◌⊎◌, ℕ, ◌+◌, ◌*◌, ◌-◌, ◌^◌, ◌≤◌, ◌≡◌, none, some, refl, arith}
use semantic_relaxation_dcbo.Config.{Config, configure}
use semantic_relaxation_dcbo.Config.Bound.{configure_defined}
use semantic_relaxation_dcbo.Config.Narrow.{
  dd_queue_optimized_config, dc_stack_optimized_config, dc_stack_optimized, narrow_create,
  narrow_configure, narrow_relaxation, narrow_create-within,
}
use semantic_relaxation_dcbo.Config.Structures.{
  dd_counter_config, dd_queue_config, dd_stack_config, dd_stack, dc_stack, dc_stack_config,
  relaxation, create, create_within,
}

dd_queue_runs :
    (dd_queue_config 2 2 5 3 30 ≡ some (record { width = 4; depth = 10; relaxation_bound = 30 }))
    × (dd_queue_config 2 2 5 0 30 ≡ some (record { width = 2; depth = 5; relaxation_bound = 5 }))
unfolding dd_queue_config
dd_queue_runs = (refl, refl)

-- A division by zero
fixed_depth_zero : dd_queue_config 2 2 0 2 30 ≡ none
unfolding dd_queue_config
fixed_depth_zero = refl

-- No relaxation at width 1 leaves no depth: then no window ever admits an operation.
strict_has_no_depth :
    dd_counter_config 1 1 5 1 0 ≡ some (record { width = 1; depth = 0; relaxation_bound = 0 })
unfolding dd_counter_config
strict_has_no_depth = refl

abbrev three_wide : Config
three_wide = record { width = 5; depth = 4; relaxation_bound = 49 }

three_wide_created : create dd_stack 1 5 7 1 49 ≡ some three_wide
unfolding dd_stack_config
three_wide_created = refl

create_within_example : (1 ≤ 5) × (3 * 4 * (5 - 1) ≤ 49 + 0) × (◌≡◌ {A = ℕ} 49 0 ⊎ (1 ≤ 4))
create_within_example =
    create_within dd_stack 1 5 7 1 49 {c = three_wide} (omega arith) (omega arith) (omega arith)
      (omega arith) (omega arith) (omega arith) three_wide_created

no_quotient : configure 1 (2 ^ 32) 2 2 0 2 30 ≡ none
unfolding configure
no_quotient = refl

configure_defined_example : (◌≡◌ {A = ℕ} 2 2) × (◌≡◌ {A = ℕ} 0 0)
configure_defined_example =
    configure_defined 1 (2 ^ 32) 2 2 0 2 30 (omega arith) (omega arith) (omega arith) (omega arith)
      (omega arith) no_quotient

-- A depth of 3 * 65536 is cut off to 0; in its place is the width for depth 1, which is cut off to 1.
deep_bound_lost :
    dd_queue_optimized_config 1 2 5 1 (3 * 65536)
    ≡ some (record { width = 1; depth = 1; relaxation_bound = 3 * 65536 })
unfolding dd_queue_optimized_config narrow_configure
deep_bound_lost = refl

-- A stack of depth 3 for the bound 24 has a shift of 2, and a relaxation of 28.
abbrev odd_stack : Config
odd_stack = record { width = 5; depth = 3; relaxation_bound = 24 }

odd_stack_created : narrow_create dc_stack_optimized 1 5 7 1 24 ≡ some odd_stack
unfolding dc_stack_optimized_config narrow_configure
odd_stack_created = refl

odd_stack_passes : narrow_relaxation dc_stack_optimized odd_stack ≡ 28
odd_stack_passes = refl

narrow_create-within_example : (2 * 2 + 3) * (5 - 1) ≤ 24 + 1 * (5 - 1)
narrow_create-within_example =
    narrow_create-within dc_stack_optimized 1 5 7 1 24 {c = odd_stack} (omega arith) (omega arith)
      odd_stack_created

-- A 2Dc stack of depth 1 for the bound 8 has a relaxation of 12.
abbrev flat_stack : Config
flat_stack = record { width = 5; depth = 1; relaxation_bound = 8 }

flat_stack_created : create dc_stack 1 5 7 1 8 ≡ some flat_stack
unfolding dc_stack_config
flat_stack_created = refl

flat_stack_passes : relaxation dc_stack flat_stack ≡ 12
flat_stack_passes = refl
