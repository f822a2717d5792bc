-- ===== src/TwoDc/Counter/Windows.antt =====
-- The window of src/2Dc-counter in every interleaving.
use native.Mathlib.Nat.{zero-add, suc-mul}
use semantic_relaxation_dcbo.Prelude.{
  ℕ, suc, ◌+◌, ◌*◌, ◌^◌, ◌≤◌, ◌<◌, ◌≡◌, ◌⊎◌, inl, inr, Bool-cases, List, length, arith, refl, ltb,
  ◌==◌,
}
use semantic_relaxation_dcbo.Machine.{System, Inv, run, run-Inv, run-related, turn}
use semantic_relaxation_dcbo.TwoDc.Window.{
  Params, Window, Thread, PutPc, put_found, GetPc, get_found,
}
use semantic_relaxation_dcbo.TwoDc.Window.Moves.{
  Moves, GetKnows, put_step-Moves, get_step-Moves, get_step-GetKnows,
}
use semantic_relaxation_dcbo.TwoDc.Counter.{
  Shared, CounterPc, idle, incrementing, decrementing, returned, returned_empty, Local, count_of,
  whole, params, shift_of, step, increment_cae, increment_step, decrement_cae, decrement_step,
  create_counter, run_counter,
}

abbrev Knows : Params → Thread → CounterPc → Type 0
Knows set t (decrementing pc) = GetKnows set t pc
Knows set t _ = Unit

module _ (set : Params) where
  record IsSound (n : ℕ) (s : Shared) : Type 0 where
    deep : set.depth ≤ s.window.max
    high : s.window.max ≤ set.depth + n * set.shift
    version_le : s.window.version ≤ n

  record ThreadKnows (s : Shared) (l : Local) : Type 0 where
    knows : Knows set l.thread l.pc

  record Kept (s : Shared) (r : Shared × Local) : Type 0 where
    moves : Moves set s.window r.0.window
    knows : Knows set r.1.thread r.1.pc

  module _ (s : Shared) (t : Thread) (up_fits : s.window.max + set.shift < 2 ^ 64)
      (version_fits : s.window.version + 1 < 2 ^ 64) (deep : set.depth ≤ s.window.max)
      (gentle : set.shift ≤ set.depth) where
    increment_cae-Kept : (d : ℕ) → Kept s (increment_cae set s t d)
    unfolding increment_cae
    increment_cae-Kept d = elim (Bool-cases (s.array t.index == d)) [
      | inl e ↦ rw (e, increment_cae) (record { moves = inl (refl, refl); knows = tt })
      | inr e ↦ rw (e, increment_cae) (record { moves = inl (refl, refl); knows = tt })
    ]

    decrement_cae-Kept : (d : ℕ) → Kept s (decrement_cae set s t d)
    unfolding decrement_cae
    decrement_cae-Kept d = elim (Bool-cases (s.array t.index == d)) [
      | inl e ↦ rw (e, decrement_cae) (record { moves = inl (refl, refl); knows = tt })
      | inr e ↦ rw (e, decrement_cae) (record { moves = inl (refl, refl); knows = tt })
    ]

    increment_step-Kept : (draw : ℕ) (pc : PutPc ℕ) → Kept s (increment_step set draw s t pc)
    unfolding increment_step
    increment_step-Kept draw (put_found d) = increment_cae-Kept d
    increment_step-Kept draw pc = record {
      moves =
          put_step-Moves count_of set s.window t up_fits version_fits deep gentle whole draw s.array
            pc;
      knows = tt;
    }

    decrement_step-Kept :
        (draw : ℕ) (pc : GetPc ℕ) → GetKnows set t pc → Kept s (decrement_step set draw s t pc)
    unfolding decrement_step
    decrement_step-Kept draw (get_found d) k = elim (Bool-cases (ltb 0 d)) [
      | inl e ↦ rw (e, decrement_step) (decrement_cae-Kept d)
      | inr e ↦ rw (e, decrement_step) (record { moves = inl (refl, refl); knows = tt })
    ]
    decrement_step-Kept draw pc k = record {
      moves =
          get_step-Moves count_of set s.window t up_fits version_fits deep gentle whole draw s.array
            pc k;
      knows = get_step-GetKnows count_of set s.window t whole draw s.array pc;
    }

    begin-Kept : (draw : ℕ) → Kept s (step set draw s (record { thread = t; pc = idle }))
    unfolding step
    begin-Kept draw = elim (Bool-cases (draw == 0)) [
      | inl e ↦ rw (e, step) (record { moves = inl (refl, refl); knows = tt })
      | inr e ↦ rw (e, step) (record { moves = inl (refl, refl); knows = tt })
    ]

    step-Kept :
        (draw : ℕ) (pc : CounterPc)
        → Knows set t pc
        → Kept s (step set draw s (record { thread = t; pc = pc }))
    unfolding step
    step-Kept draw idle k = begin-Kept draw
    step-Kept draw (incrementing pc) k = increment_step-Kept draw pc
    step-Kept draw (decrementing pc) k = decrement_step-Kept draw pc k
    step-Kept draw (returned v) k = record { moves = inl (refl, refl); knows = tt }
    step-Kept draw returned_empty k = record { moves = inl (refl, refl); knows = tt }

  module _ (limit : ℕ) (fits : set.depth + limit * set.shift < 2 ^ 64) (short : limit < 2 ^ 64)
      (gentle : set.shift ≤ set.depth) where
    shift_more : (n : ℕ) → n < limit → n * set.shift + set.shift ≤ limit * set.shift
    shift_more n lt = grind arith

    turn-Kept :
        (n c : ℕ) (s : Shared) (l : Local)
        → n < limit
        → IsSound n s
        → ThreadKnows s l
        → Kept s (step set c s l)
    turn-Kept n c s l lt sound k =
        step-Kept s l.thread (omega (arith, shift_more n lt, sound.high))
          (omega (arith, sound.version_le)) sound.deep gentle c l.pc k.knows

    moved-IsSound :
        (n : ℕ) (s s' : Shared) → Moves set s.window s'.window → IsSound n s → IsSound (suc n) s'
    moved-IsSound n s s' (inl (version, max)) sound = record {
      deep = omega (arith, sound.deep);
      high = omega (arith, sound.high, suc-mul n set.shift);
      version_le = omega (arith, sound.version_le);
    }
    moved-IsSound n s s' (inr (version, inl max)) sound = record {
      deep = omega (arith, sound.deep);
      high = omega (arith, sound.high, suc-mul n set.shift);
      version_le = omega (arith, sound.version_le);
    }
    moved-IsSound n s s' (inr (version, inr (max, deep))) sound = record {
      deep = deep;
      high = omega (arith, sound.high, suc-mul n set.shift);
      version_le = omega (arith, sound.version_le);
    }

    own-kept :
        (n c : ℕ) (s : Shared) (l : Local)
        → n < limit
        → IsSound n s
        → ThreadKnows s l
        → IsSound (suc n) (step set c s l).0 × ThreadKnows (step set c s l).0 (step set c s l).1
    own-kept n c s l lt sound k =
        let r = turn-Kept n c s l lt sound k in
        (moved-IsSound n s _ r.moves sound, record { knows = r.knows })

    other-kept :
        (n c : ℕ) (s : Shared) (l q : Local)
        → n < limit
        → IsSound n s
        → ThreadKnows s l
        → ThreadKnows s q
        → ThreadKnows (step set c s l).0 q
    other-kept n c s l q lt sound k other = record { knows = other.knows }

    start-Inv : Inv IsSound ThreadKnows 0 (create_counter set.depth)
    start-Inv = record {
      memory = record { deep = omega arith; high = omega arith; version_le = omega arith };
      threads = λ i. record { knows = tt };
    }

    run-Sound :
        (schedule : List (ℕ × ℕ))
        → length schedule ≤ limit
        → Inv IsSound ThreadKnows (length schedule) (run_counter set schedule)
    unfolding run_counter
    run-Sound schedule le =
        let v =
          run-Inv (step set) IsSound ThreadKnows limit own-kept other-kept 0 schedule
            (create_counter set.depth) (omega arith) start-Inv in
        rw zero-add at v

    -- A later window has a later version, or is the same.
    abbrev Later : Shared → Shared → Type 0
    Later s s' =
        (s.window.version < s'.window.version)
        ⊎ ((s'.window.version ≡ s.window.version) × (s'.window.max ≡ s.window.max))

    Moves-Later : (s s' : Shared) → Moves set s.window s'.window → Later s s'
    Moves-Later s s' (inl same) = inr same
    Moves-Later s s' (inr (version, _)) = inl (omega arith)

    Later-trans : (s r q : Shared) → Later s r → Later r q → Later s q
    Later-trans s r q (inl less) (inl less') = inl (omega arith)
    Later-trans s r q (inl less) (inr (version, max)) = inl (omega arith)
    Later-trans s r q (inr (version, max)) (inl less) = inl (omega arith)
    Later-trans s r q (inr (version, max)) (inr (version', max')) = inr (omega arith, omega arith)

    run-Later :
        (n : ℕ) (rest : List (ℕ × ℕ)) (s : System Shared Local)
        → n + length rest ≤ limit
        → Inv IsSound ThreadKnows n s
        → Later s.shared (run (step set) rest s).shared
    run-Later n rest s le v =
        run-related (step set) IsSound ThreadKnows limit own-kept other-kept Later
          (λ s. inr (refl, refl)) Later-trans
          (λ n c s l lt sound k.
            Moves-Later s (step set c s l).0 (turn-Kept n c s l lt sound k).moves)
          n rest s le v

shift-le : (depth : ℕ) → 0 < depth → shift_of depth ≤ depth
shift-le depth deep = ground arith

-- In every interleaving of threads on a counter of depth at least 1, with too few turns for the
-- window's max or version to wrap: a turn leaves the window as it is, or moves it by `shift` up or
-- down and to the next version; it never moves below `depth`, and its version counts no more than
-- the turns.
pub window-Moves :
    (width depth : ℕ) (schedule : List (ℕ × ℕ)) (i c : ℕ)
    → 0 < depth
    → length schedule + 1 < 2 ^ 64
    → depth + (length schedule + 1) * shift_of depth < 2 ^ 64
    → let set = params width depth in
      let s = run_counter set schedule in
      Moves set s.shared.window (turn (step set) s i c).shared.window
      × (depth ≤ s.shared.window.max)
      × (s.shared.window.version ≤ length schedule)
unfolding turn
window-Moves width depth schedule i c deep short fits =
    let set = params width depth in
    let gentle = shift-le depth deep in
    let v = run-Sound set (length schedule + 1) fits short gentle schedule (omega arith) in
    (
      (turn-Kept set (length schedule + 1) fits short gentle (length schedule) c _ _ (omega arith)
          v.memory (v.threads i)).moves,
      v.memory.deep,
      v.memory.version_le,
    )

-- The window after a schedule, and after further turns.
abbrev pub window_after : (width depth : ℕ) (schedule : List (ℕ × ℕ)) → Window
window_after width depth schedule = (run_counter (params width depth) schedule).shared.window

abbrev pub window_later : (width depth : ℕ) (schedule rest : List (ℕ × ℕ)) → Window
window_later width depth schedule rest =
    let set = params width depth in (run (step set) rest (run_counter set schedule)).shared.window

-- On a counter of depth at least 1, with too few turns for the window's max or version to wrap: if
-- after further turns of any threads the window's version is what it was, so is its max.
pub version-max :
    (width depth : ℕ) (schedule rest : List (ℕ × ℕ))
    → 0 < depth
    → length schedule + length rest < 2 ^ 64
    → depth + (length schedule + length rest) * shift_of depth < 2 ^ 64
    → (window_later width depth schedule rest).version ≡ (window_after width depth schedule).version
    → (window_later width depth schedule rest).max ≡ (window_after width depth schedule).max
version-max width depth schedule rest deep short fits same =
    let set = params width depth in
    let gentle = shift-le depth deep in
    let turns = length schedule + length rest in
    let v = run-Sound set turns fits short gentle schedule (omega arith) in
    elim (run-Later set turns fits short gentle (length schedule) rest (run_counter set schedule)
      (omega arith) v) [ inl less ↦ absurd (omega arith) | inr unmoved ↦ unmoved.1 ]
