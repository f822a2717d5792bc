-- ===== src/TwoDc/Window/Indices.antt =====
-- The index of a thread stays in range in `put_window` and `get_window`.
use native.Mathlib.Nat.{mod-lt}
use semantic_relaxation_dcbo.Prelude.{
  ℕ, ◌%◌, ◌^◌, ◌<◌, ◌≡◌, Bool, true, false, arith, Bool-cases, inl, inr, ltb, ◌==◌, add64,
  if◌then◌else◌,
}
use semantic_relaxation_dcbo.TwoDc.Window.{
  Params, Window, Thread, Search, same_window, hop, random_index, PutPc, put_enter, put_check,
  put_cae, put_branch, put_cae_step, put_step, GetPc, get_enter, get_check, get_cae, get_branch,
  get_cae_step, get_step,
}

module _ {D : Type 0} (count : D → ℕ) (set : Params) (wide : 0 < set.width)
    (narrow : set.width < 2 ^ 16) where
  random_index-lt : (draw : ℕ) → random_index draw set.width < set.width
  random_index-lt draw =
      let fits : set.width % 2 ^ 16 ≡ set.width = omega arith in rw fits (mod-lt draw wide)

  choose-lt :
      (draw index : ℕ) (contention : Bool)
      → index < set.width
      → (if contention then random_index draw set.width else index) < set.width
  choose-lt draw index true lt = random_index-lt draw
  choose-lt draw index false lt = lt

  hop-lt : (draw index : ℕ) (s : Search) → index < set.width → (hop set draw index s).0 < set.width
  unfolding hop
  hop-lt draw index s lt = elim (Bool-cases (ltb s.random set.random_hops)) [
    | inl e ↦ rw e (random_index-lt draw)
    | inr e ↦ rw e (ground arith)
  ]

  put_branch-lt :
      (draw : ℕ) (w : Window) (t : Thread) (s : Search) (d : D)
      → t.index < set.width
      → (put_branch count set draw w t s d).thread.index < set.width
  unfolding put_branch
  put_branch-lt draw w t s d lt = elim (Bool-cases (w.version == t.window.version)) [
    | inr e ↦ rw (e, put_branch) lt
    | inl e ↦ elim (Bool-cases (ltb (count d) t.window.max)) [
      | inl f ↦ rw (e, f, put_branch) lt
      | inr f ↦ elim (Bool-cases (s.hops == set.width)) [
        | inl g ↦ rw (e, f, g, put_branch) lt
        | inr g ↦ rw (e, f, g, put_branch) (hop-lt draw t.index s lt)
      ]
    ]
  ]

  pub put_step-lt :
      (splice : D → D → D) (draw : ℕ) (array : ℕ → D) (w : Window) (t : Thread) (pc : PutPc D)
      → t.index < set.width
      → (put_step count set splice draw array w t pc).thread.index < set.width
  unfolding put_step put_cae_step
  put_step-lt splice draw array w t (put_enter contention) lt = choose-lt draw t.index contention lt
  put_step-lt splice draw array w t (put_check s d) lt = put_branch-lt draw w t s d lt
  put_step-lt splice draw array w t (put_cae s) lt = elim (Bool-cases (same_window w t.window)) [
    | inl e ↦ rw (e, put_cae_step) lt
    | inr e ↦ rw (e, put_cae_step) lt
  ]
  put_step-lt splice draw array w t pc lt = lt

  get_branch-lt :
      (draw : ℕ) (w : Window) (t : Thread) (s : Search) (empty : Bool) (d : D)
      → t.index < set.width
      → (get_branch count set draw w t s empty d).thread.index < set.width
  unfolding get_branch
  get_branch-lt draw w t s empty d lt = elim (Bool-cases (w.version == t.window.version)) [
    | inr e ↦ rw (e, get_branch) lt
    | inl e ↦ elim (Bool-cases (ltb t.window.max (add64 (count d) set.depth))) [
      | inl f ↦ rw (e, f, get_branch) lt
      | inr f ↦ elim (Bool-cases (s.hops == set.width)) [
        | inl g ↦ elim (Bool-cases empty) [
          | inl h ↦ rw (e, f, g, h, get_branch) lt
          | inr h ↦ rw (e, f, g, h, get_branch) lt
        ]
        | inr g ↦ rw (e, f, g, get_branch) (hop-lt draw t.index s lt)
      ]
    ]
  ]

  pub get_step-lt :
      (splice : D → D → D) (draw : ℕ) (array : ℕ → D) (w : Window) (t : Thread) (pc : GetPc D)
      → t.index < set.width
      → (get_step count set splice draw array w t pc).thread.index < set.width
  unfolding get_step get_cae_step
  get_step-lt splice draw array w t (get_enter contention) lt = choose-lt draw t.index contention lt
  get_step-lt splice draw array w t (get_check s empty d) lt = get_branch-lt draw w t s empty d lt
  get_step-lt splice draw array w t (get_cae s) lt = elim (Bool-cases (same_window w t.window)) [
    | inl e ↦ rw (e, get_cae_step) lt
    | inr e ↦ rw (e, get_cae_step) lt
  ]
  get_step-lt splice draw array w t pc lt = lt
