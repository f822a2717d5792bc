-- ===== src/TwoDd/Counter/Invariant.antt =====
-- The counter keeps the bounds of the window in every interleaving.
use semantic_relaxation_dcbo.Prelude.{
  sub64, ℕ, suc, ◌+◌, ◌*◌, ◌^◌, ◌≤◌, ◌<◌, ◌≡◌, true, false, arith, refl, update, ltb, ◌==◌,
  if◌then◌else◌, Bool-cases, inl, inr,
}
use semantic_relaxation_dcbo.TwoDd.Window.{
  Params, Thread, Turn, PutPc, put_enter, put_found, put_step, GetPc, get_enter, get_found,
  get_step,
}
use semantic_relaxation_dcbo.TwoDd.Window.Bounds.{
  IsBounded, Grows, IsBehind, IsSplice, PutKnows, GetKnows,
}
use semantic_relaxation_dcbo.TwoDd.Window.Put.{PutKept, put_step-kept}
use semantic_relaxation_dcbo.TwoDd.Window.Get.{GetKept, get_step-kept}
use semantic_relaxation_dcbo.TwoDd.Window.Stable.{IsBehind-mono, PutKnows-mono, GetKnows-mono}
use semantic_relaxation_dcbo.TwoDd.Counter.{
  Descriptor, same_descriptor, splice, put_count_of, get_count_of, Shared, CounterPc, idle,
  incrementing, decrementing, returned, returned_empty, Local, step, increment_cae, increment_step,
  decrement_cae, decrement_step,
}

abbrev pub puts_of : Shared → ℕ → ℕ
puts_of s k = (s.array k).put_count

abbrev pub gets_of : Shared → ℕ → ℕ
gets_of s k = (s.array k).get_count

-- After `n` turns no sub-counter has been incremented more than `n` times.
pub record IsSound (set : Params) (n : ℕ) (s : Shared) : Type 0 where
  pub bounded : IsBounded set (puts_of s) (gets_of s) s.windows
  pub few : (k : ℕ) → k < set.width → puts_of s k ≤ n

abbrev pub Knows : Params → Shared → Thread → CounterPc → Type 0
Knows set s t idle = Unit
Knows set s t (incrementing pc) =
    PutKnows put_count_of get_count_of set (puts_of s) (gets_of s) s.windows t pc
Knows set s t (decrementing pc) =
    GetKnows put_count_of get_count_of set (puts_of s) (gets_of s) s.windows t pc
Knows set s t (returned v) = Unit
Knows set s t returned_empty = Unit

pub record ThreadKnows (set : Params) (s : Shared) (l : Local) : Type 0 where
  pub behind : IsBehind set s.windows l.thread
  pub knows : Knows set s l.thread l.pc

abbrev pub GrowsTo : Shared → Shared → Type 0
GrowsTo s s' = Grows (puts_of s) (gets_of s) s.windows (puts_of s') (gets_of s') s'.windows

-- What a turn keeps.
pub record Kept (set : Params) (n : ℕ) (s : Shared) (r : Shared × Local) : Type 0 where
  pub sound : IsSound set (suc n) r.0
  pub known : ThreadKnows set r.0 r.1
  pub grows : GrowsTo s r.0

module _ (set : Params) (n : ℕ) (s : Shared) (t : Thread) (few_turns : n + 2 * set.depth < 2 ^ 64)
    (sound : IsSound set n s) (behind : IsBehind set s.windows t) where
  open sound.bounded use {puts_le, le_puts, gets-le-puts, le_gets, ahead}

  pub put_max_fits : s.windows.put_max + set.depth < 2 ^ 64
  put_max_fits = omega (arith, le_puts t.index behind.index, sound.few t.index behind.index)

  same-Grows : GrowsTo s s
  same-Grows = record {
    more_puts = λ k. omega arith;
    more_gets = λ k. omega arith;
    put_max = omega arith;
    get_max = omega arith;
  }

  -- A turn that leaves shared memory alone.
  unchanged-Kept : (l : Local) → ThreadKnows set s l → Kept set n s (s, l)
  unchanged-Kept l k = record {
    sound = record { bounded = sound.bounded; few = λ i lt. omega (arith, sound.few i lt) };
    known = k;
    grows = same-Grows;
  }

  -- A descriptor may be overwritten by one whose counts are not lower and fit the put window.
  record Fits (e : Descriptor) : Type 0 where
    more_puts : puts_of s t.index ≤ e.put_count
    more_gets : gets_of s t.index ≤ e.get_count
    puts_le : e.put_count ≤ s.windows.put_max
    gets-le-puts : e.get_count ≤ e.put_count
    few : e.put_count ≤ n + 1

  written : Descriptor → Shared
  written e = record s { array = update s.array t.index e }

  written-IsSound : (e : Descriptor) → Fits e → IsSound set (suc n) (written e)
  unfolding written
  written-IsSound e f = record {
    bounded = record {
      puts_le = λ k lt. ground (arith, puts_le k lt);
      le_puts = λ k lt. ground (arith, le_puts k lt);
      gets-le-puts = λ k lt. ground (arith, gets-le-puts k lt);
      le_gets = λ k lt. ground (arith, le_gets k lt);
      ahead = ahead;
    };
    few = λ k lt. ground (arith, sound.few k lt);
  }

  written-Grows : (e : Descriptor) → Fits e → GrowsTo s (written e)
  unfolding written
  written-Grows e f = record {
    more_puts = λ k. ground arith;
    more_gets = λ k. ground arith;
    put_max = omega arith;
    get_max = omega arith;
  }

  written-Kept :
      (e : Descriptor) (pc : CounterPc)
      → Fits e
      → Knows set (written e) t pc
      → Kept set n s (written e, record { thread = t; pc = pc })
  unfolding written
  written-Kept e pc f k = record {
    sound = written-IsSound e f;
    known = record {
      behind = record {
        index = behind.index;
        narrow = behind.narrow;
        put_max = behind.put_max;
        get_max = behind.get_max;
      };
      knows = k;
    };
    grows = written-Grows e f;
  }

  -- A compare-exchange writes over the descriptor that it has just found in place.
  increment_cae-Kept :
      (d : Descriptor) → d.put_count < s.windows.put_max → Kept set n s (increment_cae set s t d)
  unfolding increment_cae written
  increment_cae-Kept d below = elim (Bool-cases (same_descriptor (s.array t.index) d)) [
    | inl e ↦
        rw (e, increment_cae)
          (written-Kept _ (returned _)
            (ground (
              arith,
              puts_le t.index behind.index,
              gets-le-puts t.index behind.index,
              sound.few t.index behind.index,
              put_max_fits,
            ))
            tt)
    | inr e ↦ rw (e, increment_cae) (unchanged-Kept _ (record { behind = behind; knows = tt }))
  ]

  decrement_cae-Kept :
      (d : Descriptor)
      → ltb 0 (sub64 d.put_count d.get_count) ≡ true
      → Kept set n s (decrement_cae set s t d)
  unfolding decrement_cae written
  decrement_cae-Kept d more = elim (Bool-cases (same_descriptor (s.array t.index) d)) [
    | inl e ↦
        rw (e, decrement_cae)
          (written-Kept _ (returned _)
            (ground (
              arith,
              puts_le t.index behind.index,
              gets-le-puts t.index behind.index,
              sound.few t.index behind.index,
              put_max_fits,
            ))
            tt)
    | inr e ↦ rw (e, decrement_cae) (unchanged-Kept _ (record { behind = behind; knows = tt }))
  ]

  -- A step of `put_window` or `get_window` moves a window and leaves the descriptors.
  after_put :
      (r : Turn (PutPc Descriptor))
      → PutKept put_count_of get_count_of set (puts_of s) (gets_of s) s.windows r
      → Kept set n s
          (record s { windows = r.windows }, record { thread = r.thread; pc = incrementing r.pc })
  after_put r k = record {
    sound = record { bounded = k.bounded; few = λ i lt. omega (arith, sound.few i lt) };
    known = record { behind = k.behind; knows = k.knows };
    grows = record {
      more_puts = λ i. omega arith;
      more_gets = λ i. omega arith;
      put_max = k.grows;
      get_max = omega (arith, k.get_same);
    };
  }

  after_get :
      (r : Turn (GetPc Descriptor))
      → GetKept put_count_of get_count_of set (puts_of s) (gets_of s) s.windows r
      → Kept set n s
          (record s { windows = r.windows }, record { thread = r.thread; pc = decrementing r.pc })
  after_get r k = record {
    sound = record { bounded = k.bounded; few = λ i lt. omega (arith, sound.few i lt) };
    known = record { behind = k.behind; knows = k.knows };
    grows = record {
      more_puts = λ i. omega arith;
      more_gets = λ i. omega arith;
      put_max = omega (arith, k.put_same);
      get_max = k.grows;
    };
  }

  splice-IsSplice : IsSplice put_count_of get_count_of splice
  splice-IsSplice = record { put_either = λ d e. inr refl; get_either = λ d e. inl refl }

  put_kept :
      (draw : ℕ) (pc : PutPc Descriptor)
      → Knows set s t (incrementing pc)
      → PutKept put_count_of get_count_of set
          (puts_of s)
          (gets_of s)
          s.windows
          (put_step put_count_of get_count_of set splice draw s.array s.windows t pc)
  put_kept draw pc k =
      put_step-kept put_count_of get_count_of set (puts_of s) (gets_of s) s.windows t sound.bounded
        behind splice draw s.array pc splice-IsSplice (λ i. refl) put_max_fits k

  get_kept :
      (draw : ℕ) (pc : GetPc Descriptor)
      → Knows set s t (decrementing pc)
      → GetKept put_count_of get_count_of set
          (puts_of s)
          (gets_of s)
          s.windows
          (get_step put_count_of get_count_of set splice draw s.array s.array s.windows t pc)
  get_kept draw pc k =
      get_step-kept put_count_of get_count_of set (puts_of s) (gets_of s) s.windows t sound.bounded
        behind splice draw s.array s.array pc splice-IsSplice (λ i. refl) (λ i. refl) put_max_fits k

  increment_step-Kept :
      (draw : ℕ) (pc : PutPc Descriptor)
      → Knows set s t (incrementing pc)
      → Kept set n s (increment_step set draw s t pc)
  unfolding increment_step
  increment_step-Kept draw (put_found d) k = increment_cae-Kept d k
  increment_step-Kept draw pc k = after_put _ (put_kept draw pc k)

  decrement_step-Kept :
      (draw : ℕ) (pc : GetPc Descriptor)
      → Knows set s t (decrementing pc)
      → Kept set n s (decrement_step set draw s t pc)
  unfolding decrement_step
  decrement_step-Kept draw (get_found d) k =
      elim (Bool-cases (ltb 0 (sub64 d.put_count d.get_count))) [
        | inl e ↦ rw (e, decrement_step) (decrement_cae-Kept d e)
        | inr e ↦ rw (e, decrement_step) (unchanged-Kept _ (record { behind = behind; knows = tt }))
      ]
  decrement_step-Kept draw pc k = after_get _ (get_kept draw pc k)

  begin-Knows :
      (draw : ℕ)
      → Knows set s t
          (if draw == 0 then incrementing (put_enter false) else decrementing (get_enter false))
  begin-Knows draw = elim (Bool-cases (draw == 0)) [ inl e ↦ rw e tt | inr e ↦ rw e tt ]

  pub step-Kept :
      (draw : ℕ) (pc : CounterPc)
      → Knows set s t pc
      → Kept set n s (step set draw s (record { thread = t; pc = pc }))
  unfolding step
  step-Kept draw idle k = unchanged-Kept _ (record { behind = behind; knows = begin-Knows draw })
  step-Kept draw (incrementing pc) k = increment_step-Kept draw pc k
  step-Kept draw (decrementing pc) k = decrement_step-Kept draw pc k
  step-Kept draw (returned v) k = unchanged-Kept _ (record { behind = behind; knows = tt })
  step-Kept draw returned_empty k = unchanged-Kept _ (record { behind = behind; knows = tt })

-- What a thread knows is kept when another thread takes a turn.
pub ThreadKnows-mono :
    (set : Params) (s s' : Shared)
    → GrowsTo s s'
    → (l : Local) → ThreadKnows set s l
    → ThreadKnows set s' l
ThreadKnows-mono set s s' g l k = record {
  behind =
      IsBehind-mono put_count_of get_count_of set (puts_of s) (gets_of s) (puts_of s') (gets_of s')
        s.windows s'.windows g l.thread k.behind;
  knows = Knows-mono l.pc k.knows;
}
  where
    Knows-mono : (pc : CounterPc) → Knows set s l.thread pc → Knows set s' l.thread pc
    Knows-mono idle h = tt
    Knows-mono (incrementing pc) h =
        PutKnows-mono put_count_of get_count_of set (puts_of s) (gets_of s) (puts_of s')
          (gets_of s') s.windows s'.windows g l.thread pc h
    Knows-mono (decrementing pc) h =
        GetKnows-mono put_count_of get_count_of set (puts_of s) (gets_of s) (puts_of s')
          (gets_of s') s.windows s'.windows g l.thread pc h
    Knows-mono (returned v) h = tt
    Knows-mono returned_empty h = tt
