-- ===== src/TwoDd/Window/Carried.antt =====
-- What holds of every descriptor in the array holds of the one that `get_window` returns.
use semantic_relaxation_dcbo.Prelude.{ℕ, Bool, not, ◌&&◌, ltb, ◌==◌, Bool-cases, inl, inr}
use semantic_relaxation_dcbo.TwoDd.Window.{
  Params, Windows, Thread, Search, GetPc, get_read, get_read_rest, get_read_put, get_check,
  get_shift, get_found, get_compare, get_branch, get_step,
}

abbrev pub GetCarries : {D : Type 0} → (D → Type 0) → GetPc D → Type 0
GetCarries P (get_read_rest s notempty d) = P d
GetCarries P (get_read_put s notempty d) = P d
GetCarries P (get_check s notempty d puts) = P d
GetCarries P (get_found d) = P d
GetCarries P _ = Unit

pub GetCarries-mono :
    {D : Type 0} (P Q : D → Type 0)
    → ((d : D) → P d → Q d)
    → (pc : GetPc D) → GetCarries P pc
    → GetCarries Q pc
GetCarries-mono P Q f (get_read_rest s notempty d) k = f d k
GetCarries-mono P Q f (get_read_put s notempty d) k = f d k
GetCarries-mono P Q f (get_check s notempty d puts) k = f d k
GetCarries-mono P Q f (get_found d) k = f d k
GetCarries-mono P Q f pc k = tt

module _ {D : Type 0} (put_count get_count : D → ℕ) (set : Params) (P : D → Type 0) (w : Windows)
    (t : Thread) where
  get_branch-GetCarries :
      (draw : ℕ) (s : Search) (notempty : Bool) (d : D) (puts : ℕ)
      → P d
      → GetCarries P (get_branch put_count get_count set draw w t s notempty d puts).pc
  unfolding get_branch
  get_branch-GetCarries draw s notempty d puts k = elim (Bool-cases (w.get_max == t.get_max)) [
    | inr e ↦ rw (e, get_branch) tt
    | inl e ↦ elim (Bool-cases (ltb (get_count d) w.get_max && not (puts == get_count d))) [
      | inl f ↦ rw (e, f, get_branch) k
      | inr f ↦ elim (Bool-cases (s.hops == set.width)) [
        | inr g ↦ rw (e, f, g, get_branch) tt
        | inl g ↦ elim (Bool-cases notempty) [
          | inl h ↦ rw (e, f, g, h, get_branch) tt
          | inr h ↦ rw (e, f, g, h, get_branch) k
        ]
      ]
    ]
  ]

  pub get_step-GetCarries :
      (splice : D → D → D)
      → ((d e : D) → P d → P (splice d e))
      → (draw : ℕ) (put_array get_array : ℕ → D) → ((k : ℕ) → P (get_array k))
      → (pc : GetPc D) → GetCarries P pc
      → GetCarries P (get_step put_count get_count set splice draw put_array get_array w t pc).pc
  unfolding get_step
  get_step-GetCarries splice both draw put_array get_array all get_compare k =
      elim (Bool-cases (t.get_max == w.get_max)) [ inl e ↦ rw e tt | inr e ↦ rw e tt ]
  get_step-GetCarries splice both draw put_array get_array all (get_read s n) k = all t.index
  get_step-GetCarries splice both draw put_array get_array all (get_read_rest s n d) k = both d _ k
  get_step-GetCarries splice both draw put_array get_array all (get_read_put s n d) k = k
  get_step-GetCarries splice both draw put_array get_array all (get_check s n d puts) k =
      get_branch-GetCarries draw s n d puts k
  get_step-GetCarries splice both draw put_array get_array all (get_shift s) k =
      elim (Bool-cases (t.get_max == w.get_max)) [ inl e ↦ rw e tt | inr e ↦ rw e tt ]
  get_step-GetCarries splice both draw put_array get_array all (get_found d) k = k
  get_step-GetCarries splice both draw put_array get_array all pc k = tt
