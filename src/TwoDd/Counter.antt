-- ===== src/TwoDd/Counter.antt =====
-- src/2Dd-counter: a counter of `width` sub-counters under the 2Dd window, by any number of threads.
pub mod Invariant
pub mod Spread
pub mod Taken
pub mod Count
mod Tests
use semantic_relaxation_dcbo.Prelude.{
  ℕ, zero, suc, ◌+◌, ◌-◌, ◌*◌, ◌%◌, ◌^◌, Bool, true, false, ◌&&◌, ltb, ◌==◌, if◌then◌else◌, update,
  List, add64, sub64, mul64,
}
use semantic_relaxation_dcbo.Machine.{System, run}
use semantic_relaxation_dcbo.TwoDd.Window.{
  Params, Windows, Thread, PutPc, put_enter, put_found, put_step, GetPc, get_enter, get_found,
  get_step,
}

-- `descriptor_t`
pub record Descriptor : Type 0 where
  pub get_count : ℕ
  pub put_count : ℕ

abbrev pub put_count_of : Descriptor → ℕ
put_count_of d = d.put_count

abbrev pub get_count_of : Descriptor → ℕ
get_count_of d = d.get_count

-- A descriptor is copied in two loads of eight bytes.
abbrev pub splice : Descriptor → Descriptor → Descriptor
splice d e = record { get_count = d.get_count; put_count = e.put_count }

abbrev pub same_descriptor : Descriptor → Descriptor → Bool
same_descriptor d e = (d.get_count == e.get_count) && (d.put_count == e.put_count)

-- The windows, and the array that is both `get_array` and `put_array`.
pub record Shared : Type 0 where
  pub windows : Windows
  pub array : ℕ → Descriptor

-- Between two calls a thread is `idle`; in one it is in `put_window` or `get_window`, and at their
-- return before the compare-exchange. `returned_empty` is the return of 0 that counts a
-- `my_null_count`.
pub data CounterPc : Type 0 where
  idle : CounterPc
  incrementing : PutPc Descriptor → CounterPc
  decrementing : GetPc Descriptor → CounterPc
  returned : ℕ → CounterPc
  returned_empty : CounterPc

pub record Local : Type 0 where
  pub thread : Thread
  pub pc : CounterPc

abbrev pub estimate : Params → Descriptor → ℕ
estimate set d = mul64 (sub64 d.put_count d.get_count) set.width

module _ (set : Params) where
  -- `counter_cae` without the analysis: replace the descriptor at `index` if it is as it was read.
  unfoldable pub counter_cae : Shared → ℕ → Descriptor → Descriptor → Shared × Bool
  counter_cae s index read new =
      if same_descriptor (s.array index) read
      then (record s { array = update s.array index new }, true)
      else (s, false)

  -- `increment` from the return of `put_window`; after a failure it goes back there with contention.
  unfoldable pub increment_cae : Shared → Thread → Descriptor → Shared × Local
  unfolding counter_cae
  increment_cae s t d =
      let new : Descriptor = record d { put_count = add64 d.put_count 1 } in
      let (s', done) = counter_cae s t.index d new in
      (
        s',
        record {
          thread = t;
          pc = if done then returned (estimate set new) else incrementing (put_enter true);
        },
      )

  unfoldable pub increment_step : ℕ → Shared → Thread → PutPc Descriptor → Shared × Local
  unfolding increment_cae put_step
  increment_step draw s t (put_found d) = increment_cae s t d
  increment_step draw s t pc =
      let r = put_step put_count_of get_count_of set splice draw s.array s.windows t pc in
      (record s { windows = r.windows }, record { thread = r.thread; pc = incrementing r.pc })

  unfoldable pub decrement_cae : Shared → Thread → Descriptor → Shared × Local
  unfolding counter_cae
  decrement_cae s t d =
      let new : Descriptor = record d { get_count = add64 d.get_count 1 } in
      let (s', done) = counter_cae s t.index d new in
      (
        s',
        record {
          thread = t;
          pc = if done then returned (estimate set new) else decrementing (get_enter true);
        },
      )

  unfoldable pub decrement_step : ℕ → Shared → Thread → GetPc Descriptor → Shared × Local
  unfolding decrement_cae get_step
  decrement_step draw s t (get_found d) =
      if ltb 0 (sub64 d.put_count d.get_count)
      then decrement_cae s t d
      else (s, record { thread = t; pc = returned_empty })
  decrement_step draw s t pc =
      let r = get_step put_count_of get_count_of set splice draw s.array s.array s.windows t pc in
      (record s { windows = r.windows }, record { thread = r.thread; pc = decrementing r.pc })

  -- One turn of a thread; an idle one begins `increment` on 0 and `decrement` on any other draw.
  unfoldable pub step : ℕ → Shared → Local → Shared × Local
  unfolding increment_step decrement_step
  step draw s l = elim l.pc [
    | idle ↦ (
      s,
      record l {
        pc = if draw == 0 then incrementing (put_enter false) else decrementing (get_enter false);
      },
    )
    | incrementing pc ↦ increment_step draw s l.thread pc
    | decrementing pc ↦ decrement_step draw s l.thread pc
    | returned v ↦ (s, record l { pc = idle })
    | returned_empty ↦ (s, record l { pc = idle })
  ]

  -- `counter_size`, over the sub-counters below `k`
  unfoldable pub counter_size : Shared → ℕ → ℕ
  counter_size s zero = 0
  counter_size s (suc k) =
      add64 (counter_size s k) (sub64 (s.array k).put_count (s.array k).get_count)

abbrev pub empty_descriptor : Descriptor
empty_descriptor = record { get_count = 0; put_count = 0 }

-- `create_counter` zeroes the descriptors; the window variables are zero until a thread moves them.
abbrev pub create_counter : System Shared Local
create_counter = record {
  shared = record { windows = record { put_max = 0; get_max = 0 }; array = λ k. empty_descriptor };
  local = λ i. record { thread = record { index = 0; put_max = 0; get_max = 0 }; pc = idle };
}

pub run_counter : Params → List (ℕ × ℕ) → System Shared Local
run_counter set schedule = run (step set) schedule create_counter
