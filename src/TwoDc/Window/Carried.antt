-- ===== src/TwoDc/Window/Carried.antt =====
-- What holds of every descriptor in the array holds of the one that `get_window` returns.
use semantic_relaxation_dcbo.Prelude.{ℕ, Bool, ltb, leb, ◌==◌, Bool-cases, inl, inr, add64, sub64}
use semantic_relaxation_dcbo.TwoDc.Window.{
  Params, Window, Thread, Search, same_window, GetPc, get_enter, get_read, get_read_rest, get_check,
  get_shift, get_cae, get_found, get_branch, get_cae_step, get_step,
}

abbrev pub GetCarries : {D : Type 0} → (D → Type 0) → GetPc D → Type 0
GetCarries P (get_read_rest s empty d) = P d
GetCarries P (get_check s empty d) = P d
GetCarries P (get_found d) = P d
GetCarries P _ = Unit

pub GetCarries-mono :
    {D : Type 0} (P Q : D → Type 0)
    → ((d : D) → P d → Q d)
    → (pc : GetPc D) → GetCarries P pc
    → GetCarries Q pc
GetCarries-mono P Q f (get_read_rest s empty d) k = f d k
GetCarries-mono P Q f (get_check s empty d) k = f d k
GetCarries-mono P Q f (get_found d) k = f d k
GetCarries-mono P Q f pc k = tt

module _ {D : Type 0} (count : D → ℕ) (set : Params) (P : D → Type 0) (w : Window)
    (t : Thread) where
  get_branch-GetCarries :
      (draw : ℕ) (s : Search) (empty : Bool) (d : D)
      → P d
      → GetCarries P (get_branch count set draw w t s empty d).pc
  unfolding get_branch
  get_branch-GetCarries draw s empty d k = elim (Bool-cases (w.version == t.window.version)) [
    | inr e ↦ rw (e, get_branch) tt
    | inl e ↦ elim (Bool-cases (ltb t.window.max (add64 (count d) set.depth))) [
      | inl f ↦ rw (e, f, get_branch) k
      | inr f ↦ elim (Bool-cases (s.hops == set.width)) [
        | inr g ↦ rw (e, f, g, get_branch) tt
        | inl g ↦ elim (Bool-cases empty) [
          | inl h ↦ rw (e, f, g, h, get_branch) k
          | inr h ↦ rw (e, f, g, h, get_branch) tt
        ]
      ]
    ]
  ]

  pub get_step-GetCarries :
      (splice : D → D → D)
      → ((d e : D) → P d → P (splice d e))
      → (draw : ℕ) (array : ℕ → D) → ((k : ℕ) → P (array k))
      → (pc : GetPc D) → GetCarries P pc
      → GetCarries P (get_step count set splice draw array w t pc).pc
  unfolding get_step get_cae_step
  get_step-GetCarries splice both draw array all (get_enter contention) k =
      elim (Bool-cases (t.window.version == w.version)) [ inl e ↦ rw e tt | inr e ↦ rw e tt ]
  get_step-GetCarries splice both draw array all (get_read s empty) k = all t.index
  get_step-GetCarries splice both draw array all (get_read_rest s empty d) k = both d _ k
  get_step-GetCarries splice both draw array all (get_check s empty d) k =
      get_branch-GetCarries draw s empty d k
  get_step-GetCarries splice both draw array all (get_shift s) k =
      elim (Bool-cases (t.window.version == w.version)) [
        | inr e ↦ rw e tt
        | inl e ↦ elim (Bool-cases (leb set.depth (sub64 t.window.max set.shift))) [
          | inl f ↦ rw (e, f) tt
          | inr f ↦ rw (e, f) tt
        ]
      ]
  get_step-GetCarries splice both draw array all (get_cae s) k =
      elim (Bool-cases (same_window w t.window)) [
        | inl e ↦ rw (e, get_cae_step) tt
        | inr e ↦ rw (e, get_cae_step) tt
      ]
  get_step-GetCarries splice both draw array all (get_found d) k = k
  get_step-GetCarries splice both draw array all pc k = tt
