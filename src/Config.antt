-- ===== src/Config.antt =====
-- The choice of width and depth from a relaxation bound, which opens `create_counter`,
-- `create_stack` and `create_queue` of the 2D structures. They differ in the factor in the bound
-- `factor * depth * (width - 1)`, and in the size of the integer `width`, `width_mod` values.
pub mod Bound
pub mod Structures
pub mod Narrow
mod Tests
use semantic_relaxation_dcbo.Prelude.{
  ◌>>=◌, ℕ, ◌+◌, ◌-◌, ◌*◌, ◌/◌, ◌%◌, ◌^◌, Option, none, some, ltb, ◌==◌, if◌then◌else◌, mul64,
}

pub record Config : Type 0 where
  pub width : ℕ
  pub depth : ℕ
  pub relaxation_bound : ℕ

-- A division by zero is a fault.
abbrev pub div? : ℕ → ℕ → Option ℕ
div? a b = if b == 0 then none else some (a / b)

module _ (factor width_mod : ℕ) where
  -- `if(depth<1)`: as wide as the bound allows at depth 1
  unfoldable pub given_depth : (width depth relaxation_bound : ℕ) → Option Config
  given_depth width depth relaxation_bound =
      if ltb depth 1
      then (do
        q ← div? relaxation_bound (mul64 factor 1)
        some (record {
          width = (q + 1) % width_mod;
          depth = 1;
          relaxation_bound = relaxation_bound;
        }))
      else some (record { width = width; depth = depth; relaxation_bound = relaxation_bound })

  -- the branch for a width that is given
  unfoldable pub from_width : (width relaxation_bound : ℕ) → Option Config
  unfolding given_depth
  from_width width relaxation_bound =
      if ltb width 2
      then some (record { width = 1; depth = relaxation_bound; relaxation_bound = 0 })
      else (do
        depth ← div? relaxation_bound (mul64 factor (width - 1))
        given_depth width depth relaxation_bound)

  -- the branch for a depth that is given
  unfoldable pub from_depth : (depth relaxation_bound : ℕ) → Option Config
  from_depth depth relaxation_bound = do
    q ← div? relaxation_bound (mul64 factor depth)
    let width = (q + 1) % width_mod
    some (
        if ltb width 1
        then record { width = 1; depth = relaxation_bound; relaxation_bound = 0 }
        else record { width = width; depth = depth; relaxation_bound = relaxation_bound })

  unfoldable pub configure : (num_threads width depth k_mode relaxation_bound : ℕ) → Option Config
  unfolding from_width from_depth
  configure num_threads width depth k_mode relaxation_bound =
      if k_mode == 3
      then from_width (num_threads * width % width_mod) relaxation_bound
      else if k_mode == 2
      then from_depth depth relaxation_bound
      else if k_mode == 1
      then from_width width relaxation_bound
      else if k_mode == 0
      then some (record {
        width = width;
        depth = depth;
        relaxation_bound = mul64 (mul64 factor depth) ((width + width_mod - 1) % width_mod);
      })
      else some (record { width = width; depth = depth; relaxation_bound = relaxation_bound })
