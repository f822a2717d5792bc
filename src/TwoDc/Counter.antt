-- ===== src/TwoDc/Counter.antt =====
-- src/2Dc-counter: a counter of `width` sub-counters under the 2Dc window, by any number of threads.
pub mod Balance
pub mod Windows
mod Tests
use semantic_relaxation_dcbo.Prelude.{
  ℕ, zero, suc, ◌+◌, ◌/◌, Bool, true, false, ltb, ◌==◌, if◌then◌else◌, update, List, add64, sub64,
  mul64,
}
use semantic_relaxation_dcbo.Machine.{System, run}
use semantic_relaxation_dcbo.TwoDc.Window.{
  Params, Window, Thread, PutPc, put_enter, put_found, put_step, GetPc, get_enter, get_found,
  get_step,
}

-- A descriptor is the count alone, so that a second load of it adds nothing.
abbrev pub whole : ℕ → ℕ → ℕ
whole d e = d

abbrev pub count_of : ℕ → ℕ
count_of d = d

-- The window, and the counts of `set_array`.
pub record Shared : Type 0 where
  pub window : Window
  pub array : ℕ → ℕ

-- Between two calls a thread is `idle`; `returned_empty` is the return of 0 that counts a
-- `my_null_count`.
pub data CounterPc : Type 0 where
  idle : CounterPc
  incrementing : PutPc ℕ → CounterPc
  decrementing : GetPc ℕ → CounterPc
  returned : ℕ → CounterPc
  returned_empty : CounterPc

pub record Local : Type 0 where
  pub thread : Thread
  pub pc : CounterPc

module _ (set : Params) where
  -- `counter_cae` without the analysis: replace the count at `index` if it is as it was read.
  unfoldable pub counter_cae : Shared → ℕ → ℕ → ℕ → Shared × Bool
  counter_cae s index read new =
      if s.array index == read
      then (record s { array = update s.array index new }, true)
      else (s, false)

  -- `increment` from the return of `put_window`; after a failure it goes back there with contention.
  unfoldable pub increment_cae : Shared → Thread → ℕ → Shared × Local
  unfolding counter_cae
  increment_cae s t d =
      let new = add64 d 1 in
      let (s', done) = counter_cae s t.index d new in
      (
        s',
        record {
          thread = t;
          pc = if done then returned (mul64 new set.width) else incrementing (put_enter true);
        },
      )

  unfoldable pub increment_step : ℕ → Shared → Thread → PutPc ℕ → Shared × Local
  unfolding increment_cae put_step
  increment_step draw s t (put_found d) = increment_cae s t d
  increment_step draw s t pc =
      let r = put_step count_of set whole draw s.array s.window t pc in
      (record s { window = r.window }, record { thread = r.thread; pc = incrementing r.pc })

  unfoldable pub decrement_cae : Shared → Thread → ℕ → Shared × Local
  unfolding counter_cae
  decrement_cae s t d =
      let new = sub64 d 1 in
      let (s', done) = counter_cae s t.index d new in
      (
        s',
        record {
          thread = t;
          pc = if done then returned (mul64 new set.width) else decrementing (get_enter true);
        },
      )

  unfoldable pub decrement_step : ℕ → Shared → Thread → GetPc ℕ → Shared × Local
  unfolding decrement_cae get_step
  decrement_step draw s t (get_found d) =
      if ltb 0 d then decrement_cae s t d else (s, record { thread = t; pc = returned_empty })
  decrement_step draw s t pc =
      let r = get_step count_of set whole draw s.array s.window t pc in
      (record s { window = r.window }, record { thread = r.thread; pc = decrementing r.pc })

  -- One turn of a thread; an idle one begins `increment` on 0 and `decrement` on any other draw.
  unfoldable pub step : ℕ → Shared → Local → Shared × Local
  unfolding increment_step decrement_step
  step draw s l = elim l.pc [
    | idle ↦ (
      s,
      record l {
        pc = if draw == 0 then incrementing (put_enter false) else decrementing (get_enter false);
      },
    )
    | incrementing pc ↦ increment_step draw s l.thread pc
    | decrementing pc ↦ decrement_step draw s l.thread pc
    | returned v ↦ (s, record l { pc = idle })
    | returned_empty ↦ (s, record l { pc = idle })
  ]

  -- `counter_size`, over the sub-counters below `k`
  unfoldable pub counter_size : Shared → ℕ → ℕ
  counter_size s zero = 0
  counter_size s (suc k) = add64 (counter_size s k) (s.array k)

-- `set->shift`
abbrev pub shift_of : ℕ → ℕ
shift_of depth = if ltb 1 (depth / 2) then depth / 2 else 1

-- The constants of a counter that `create_counter` sets for a width and a depth.
abbrev pub params : (width depth : ℕ) → Params
params width depth = record {
  width = width;
  depth = depth;
  shift = shift_of depth;
  random_hops = 2;
}

-- Its window starts at `depth` with version 0, and every thread's at zero.
abbrev pub create_counter : ℕ → System Shared Local
create_counter depth = record {
  shared = record { window = record { max = depth; version = 0 }; array = λ k. 0 };
  local = λ i. record {
    thread = record { index = 0; window = record { max = 0; version = 0 } };
    pc = idle;
  };
}

pub run_counter : Params → List (ℕ × ℕ) → System Shared Local
run_counter set schedule = run (step set) schedule (create_counter set.depth)
