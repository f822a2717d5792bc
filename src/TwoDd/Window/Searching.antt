-- ===== src/TwoDd/Window/Searching.antt =====
-- The search of `put_window` and `get_window` through the sub-structures: after `width` hops that
-- are not random, every index was seen.
use native.Mathlib.Nat.{mod-lt}
use semantic_relaxation_dcbo.Prelude.{
  ℕ, ◌+◌, ◌%◌, ◌^◌, ◌-◌, ◌≤◌, ◌<◌, ◌≡◌, ◌≢◌, ◌⊎◌, inl, inr, ltb, arith, if◌then◌else◌, Bool-cases,
  ltb→lt, ltb→ge,
}
use semantic_relaxation_dcbo.TwoDd.Window.{Params, Search, random_index, hop}

-- How many hops lead from index `k` forward to `index`, from 1 to `width`.
abbrev pub hops_to : ℕ → ℕ → ℕ → ℕ
hops_to width k index = if ltb k index then index - k else index + width - k

-- The last `hops` indices before `index` were seen with at least `bound` in `count`.
pub record IsSearching (set : Params) (bound : ℕ) (count : ℕ → ℕ) (s : Search) (index : ℕ)
    : Type 0 where
  pub few : s.hops ≤ set.width
  pub random_first : (s.hops ≡ 0) ⊎ (set.random_hops ≤ s.random)
  pub seen : (k : ℕ) → k < set.width → hops_to set.width k index ≤ s.hops → bound ≤ count k

pub random_index-lt :
    (draw width : ℕ) → 0 < width → width < 2 ^ 32 → random_index draw width < width
random_index-lt draw width wide narrow =
    let fits : width % 2 ^ 32 ≡ width = omega arith in rw fits (mod-lt draw wide)

module _ {set : Params} {bound : ℕ} {count : ℕ → ℕ} where
  pub restart-IsSearching :
      (s : Search) (index : ℕ) → s.hops ≡ 0 → IsSearching set bound count s index
  restart-IsSearching s index h = record {
    few = omega arith;
    random_first = inl h;
    seen = λ k lt near. ground arith;
  }

  pub hop-IsSearching :
      (draw : ℕ) (s : Search) (index : ℕ)
      → IsSearching set bound count s index
      → bound ≤ count index
      → s.hops ≢ set.width
      → index < set.width
      → set.width < 2 ^ 32
      → IsSearching set bound count (hop set draw index s).1 (hop set draw index s).0
        × ((hop set draw index s).0 < set.width)
  unfolding hop
  hop-IsSearching draw s index v here more lt narrow =
      elim (Bool-cases (ltb s.random set.random_hops)) [
        | inl e ↦ rw e (
          restart-IsSearching (record s { random = s.random + 1 }) _ (ground (arith, ltb→lt _ _ e)),
          random_index-lt draw set.width (omega arith) narrow,
        )
        | inr e ↦ rw e (
          record {
            few = ground arith;
            random_first = inr (ltb→ge _ _ e);
            seen = λ k klt near. ground (arith, v.seen k);
          },
          ground arith,
        )
      ]

  -- With `width` hops done, every index was seen.
  pub seen_all :
      (s : Search) (index : ℕ)
      → IsSearching set bound count s index
      → s.hops ≡ set.width
      → index < set.width
      → (k : ℕ) → k < set.width
      → bound ≤ count k
  seen_all s index v done lt k klt = ground (arith, v.seen k)
