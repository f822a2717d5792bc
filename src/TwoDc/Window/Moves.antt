-- ===== src/TwoDc/Window/Moves.antt =====
-- How a step of `put_window` or `get_window` moves the global window.
use semantic_relaxation_dcbo.Prelude.{
  ℕ, ◌+◌, ◌^◌, ◌≤◌, ◌<◌, ◌≡◌, ◌⊎◌, inl, inr, Bool, refl, arith, Bool-cases, ltb, leb, ◌==◌, leb→le,
  add64, sub64,
}
use semantic_relaxation_dcbo.TwoDc.Window.{
  Params, Window, Thread, Search, same_window, PutPc, put_check, put_cae, put_branch, put_cae_step,
  put_step, GetPc, get_enter, get_check, get_shift, get_cae, get_branch, get_cae_step, get_step,
}

-- A window stays as it is, or moves by `shift` to its next version, and not below `depth`.
abbrev pub Moves : Params → Window → Window → Type 0
Moves set w w' =
    ((w'.version ≡ w.version) × (w'.max ≡ w.max))
    ⊎ ((w'.version ≡ w.version + 1)
        × ((w'.max ≡ w.max + set.shift) ⊎ ((w'.max + set.shift ≡ w.max) × (set.depth ≤ w'.max))))

module _ {D : Type 0} (set : Params) where
  -- What a thread that is about to move the window down has found.
  abbrev pub GetKnows : Thread → GetPc D → Type 0
  GetKnows t (get_cae s) = set.depth ≤ sub64 t.window.max set.shift
  GetKnows t _ = Unit

module _ {D : Type 0} (count : D → ℕ) (set : Params) (w : Window) (t : Thread)
    (up_fits : w.max + set.shift < 2 ^ 64) (version_fits : w.version + 1 < 2 ^ 64)
    (high : set.depth ≤ w.max) (gentle : set.shift ≤ set.depth) where
  stays : Moves set w w
  stays = inl (refl, refl)

  put_branch-Moves :
      (draw : ℕ) (s : Search) (d : D) → (put_branch count set draw w t s d).window ≡ w
  unfolding put_branch
  put_branch-Moves draw s d = grind arith

  get_branch-Moves :
      (draw : ℕ) (s : Search) (empty : Bool) (d : D)
      → (get_branch count set draw w t s empty d).window ≡ w
  unfolding get_branch
  get_branch-Moves draw s empty d = grind arith

  put_cae_step-Moves : (s : Search) → Moves set w (put_cae_step count set w t s).window
  unfolding put_cae_step
  put_cae_step-Moves s = elim (Bool-cases (same_window w t.window)) [
    | inl e ↦ rw (e, put_cae_step) (inr (ground arith, inl (ground arith)))
    | inr e ↦ rw (e, put_cae_step) stays
  ]

  get_cae_step-Moves :
      (s : Search)
      → set.depth ≤ sub64 t.window.max set.shift
      → Moves set w (get_cae_step count set w t s).window
  unfolding get_cae_step
  get_cae_step-Moves s deep = elim (Bool-cases (same_window w t.window)) [
    | inl e ↦ rw (e, get_cae_step) (inr (ground arith, inr (ground arith)))
    | inr e ↦ rw (e, get_cae_step) stays
  ]

  same-Moves : (w' : Window) → w' ≡ w → Moves set w w'
  same-Moves w' e = rw e stays

  pub put_step-Moves :
      (splice : D → D → D) (draw : ℕ) (array : ℕ → D) (pc : PutPc D)
      → Moves set w (put_step count set splice draw array w t pc).window
  unfolding put_step
  put_step-Moves splice draw array (put_check s d) = same-Moves _ (put_branch-Moves draw s d)
  put_step-Moves splice draw array (put_cae s) = put_cae_step-Moves s
  put_step-Moves splice draw array pc = stays

  pub get_step-Moves :
      (splice : D → D → D) (draw : ℕ) (array : ℕ → D) (pc : GetPc D)
      → GetKnows set t pc
      → Moves set w (get_step count set splice draw array w t pc).window
  unfolding get_step
  get_step-Moves splice draw array (get_check s empty d) k =
      same-Moves _ (get_branch-Moves draw s empty d)
  get_step-Moves splice draw array (get_cae s) k = get_cae_step-Moves s k
  get_step-Moves splice draw array pc k = stays

module _ {D : Type 0} (count : D → ℕ) (set : Params) (w : Window) (t : Thread) where
  get_branch-GetKnows :
      (draw : ℕ) (s : Search) (empty : Bool) (d : D)
      → let r = get_branch count set draw w t s empty d in GetKnows set r.thread r.pc
  unfolding get_branch
  get_branch-GetKnows draw s empty d = elim (Bool-cases (w.version == t.window.version)) [
    | inr e ↦ rw (e, get_branch) tt
    | inl e ↦ elim (Bool-cases (ltb t.window.max (add64 (count d) set.depth))) [
      | inl f ↦ rw (e, f, get_branch) tt
      | inr f ↦ elim (Bool-cases (s.hops == set.width)) [
        | inr g ↦ rw (e, f, g, get_branch) tt
        | inl g ↦ elim (Bool-cases empty) [
          | inl h ↦ rw (e, f, g, h, get_branch) tt
          | inr h ↦ rw (e, f, g, h, get_branch) tt
        ]
      ]
    ]
  ]

  pub get_step-GetKnows :
      (splice : D → D → D) (draw : ℕ) (array : ℕ → D) (pc : GetPc D)
      → let r = get_step count set splice draw array w t pc in GetKnows set r.thread r.pc
  unfolding get_step get_cae_step
  get_step-GetKnows splice draw array (get_enter contention) =
      elim (Bool-cases (t.window.version == w.version)) [ inl e ↦ rw e tt | inr e ↦ rw e tt ]
  get_step-GetKnows splice draw array (get_check s empty d) = get_branch-GetKnows draw s empty d
  get_step-GetKnows splice draw array (get_shift s) =
      elim (Bool-cases (t.window.version == w.version)) [
        | inr e ↦ rw e tt
        | inl e ↦ elim (Bool-cases (leb set.depth (sub64 t.window.max set.shift))) [
          | inl f ↦ rw (e, f) (leb→le _ _ f)
          | inr f ↦ rw (e, f) tt
        ]
      ]
  get_step-GetKnows splice draw array (get_cae s) = elim (Bool-cases (same_window w t.window)) [
    | inl e ↦ rw (e, get_cae_step) tt
    | inr e ↦ rw (e, get_cae_step) tt
  ]
  get_step-GetKnows splice draw array pc = tt
