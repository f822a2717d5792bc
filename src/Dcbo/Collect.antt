-- ===== src/Dcbo/Collect.antt =====
-- `double_collect`. The loops read a history; `k` counts the shared accesses of the call.
use semantic_relaxation_dcbo.Prelude.{ℕ, zero, suc, ◌+◌, ◌%◌, ◌^◌, not, ◌==◌, if◌then◌else◌, update}
use semantic_relaxation_dcbo.Dcbo.Partial.{Partial}

-- How the first loop ends: with a value, or with the tail versions that it collected.
pub data Collected : Type 0 where
  found : (value access : ℕ) → Collected
  collected : (counts : ℕ → ℕ) (access : ℕ) → Collected

-- How the second loop ends: at an index whose tail version has moved, or at the end.
pub data Checked : Type 0 where
  changed : (index access : ℕ) → Checked
  unchanged : (access : ℕ) → Checked

pub data Outcome : Type 0 where
  returned : (value access : ℕ) → Outcome
  out_of_fuel : Outcome

module _ (p : Partial) (width : ℕ) (H : ℕ → ℕ → p.Queue) where
  open p use {dequeue, tail_version}

  -- `(start_index + i) % set->width` on `uint32_t`
  abbrev pub index_at : ℕ → ℕ → ℕ
  index_at start_index i = (start_index + i) % 2 ^ 32 % width

  unfoldable pub collect : (rounds i start_index access : ℕ) → (ℕ → ℕ) → Collected
  collect zero i start_index k counts = collected counts k
  collect (suc n) i start_index k counts =
      let index = index_at start_index i in
      let v = (dequeue (H (k + 1) index)).0 in
      let rest =
        collect n (i + 1) start_index (k + 2) (update counts index (tail_version (H k index))) in
      if not (v == 0) then found v (k + 1) else rest

  unfoldable pub check : (rounds i start_index access : ℕ) → (ℕ → ℕ) → Checked
  check zero i start_index k counts = unchanged k
  check (suc n) i start_index k counts =
      let index = index_at start_index i in
      let rest = check n (i + 1) start_index (k + 1) counts in
      if not (counts index == tail_version (H k index)) then changed index k else rest

  unfoldable pub double_collect : (fuel start_index access : ℕ) → (ℕ → ℕ) → Outcome
  double_collect zero start_index k counts = out_of_fuel
  double_collect (suc fuel) start_index k counts = elim (collect width 0 start_index k counts) [
    | found v k' ↦ returned v k'
    | collected counts' k' ↦ elim (check width 0 start_index k' counts') [
      | unchanged k'' ↦ returned 0 k''
      | changed index k'' ↦ double_collect fuel index (k'' + 1) counts'
    ]
  ]
