-- ===== src/Choices.antt =====
-- src/multi-counter_random-relaxed with `NUM_CHOICES`: a counter of `width` sub-counters, of which an
-- increment takes the lowest of those that it draws and a decrement the highest, by any number of
-- threads, one shared access at a time.
pub mod Balance
mod Tests
use semantic_relaxation_dcbo.Prelude.{
  ℕ, zero, suc, ◌+◌, ◌%◌, ◌^◌, Bool, true, false, ltb, ◌==◌, if◌then◌else◌, update, List, add64,
  sub64, mul64,
}
use semantic_relaxation_dcbo.Machine.{System, run}

-- `width`, the macro `NUM_CHOICES`, and whether `VALIDATESIZE` is 1
pub record Params : Type 0 where
  pub width : ℕ
  pub num_choices : ℕ
  pub validate_size : Bool

-- The fields of the nodes of `array`; a count of `int64_t` is its 64 bits.
pub record Shared : Type 0 where
  pub count : ℕ → ℕ
  pub version : ℕ → ℕ

-- `descriptor_t`, with the index that it was read at, which `thread_index` holds.
pub record Descriptor : Type 0 where
  pub index : ℕ
  pub count : ℕ
  pub version : ℕ

-- Where a thread stands in `get_increment_index` or in `get_decrement_index`: before a load of a
-- version or of the count that goes with it. `first_again` is the second load of the count.
pub data IndexPc : Type 0 where
  first_version : IndexPc
  first_count : (index version : ℕ) → IndexPc
  first_again : (index version : ℕ) → IndexPc
  next_version : (i : ℕ) → Descriptor → IndexPc
  next_count : (i : ℕ) → Descriptor → (index version : ℕ) → IndexPc
  chosen : Descriptor → IndexPc

-- Between two calls a thread is `idle`; `returned_empty` is the return of 0 that counts a
-- `my_null_count`.
pub data CounterPc : Type 0 where
  idle : CounterPc
  incrementing : IndexPc → CounterPc
  decrementing : IndexPc → CounterPc
  returned : ℕ → CounterPc
  returned_empty : CounterPc

-- `<` on `int64_t`
abbrev pub ltb_int64 : ℕ → ℕ → Bool
ltb_int64 a b = ltb (add64 a (2 ^ 63)) (add64 b (2 ^ 63))

-- The count of a sub-counter, beside the version that was read before.
abbrev pub loaded : Shared → (index version : ℕ) → Descriptor
loaded s index version = record { index = index; count = s.count index; version = version }

-- `CAE` of a sub-counter from `d` to `new` and the version after.
unfoldable pub counter_cae : Shared → Descriptor → (new : ℕ) → Shared × Bool
counter_cae s d new =
    if s.count d.index == d.count
    then if s.version d.index == d.version
      then (
        record {
          count = update s.count d.index new;
          version = update s.version d.index (add64 d.version 1);
        },
        true,
      )
      else (s, false)
    else (s, false)

module _ (set : Params) where
  -- `random_index`, whose draw is the result of `my_random`
  abbrev pub random_index : ℕ → ℕ
  random_index draw = draw % set.width

  -- The test of the loop: without a next turn the choice is made.
  abbrev pub choice_loop : (i : ℕ) → Descriptor → IndexPc
  choice_loop i d = if ltb i set.num_choices then next_version i d else chosen d

  unfoldable pub get_increment_index : ℕ → Shared → IndexPc → IndexPc
  get_increment_index draw s first_version =
      first_count (random_index draw) (s.version (random_index draw))
  get_increment_index draw s (first_count index v) = first_again index v
  get_increment_index draw s (first_again index v) = choice_loop 1 (loaded s index v)
  get_increment_index draw s (next_version i d) =
      next_count i d (random_index draw) (s.version (random_index draw))
  get_increment_index draw s (next_count i d index v) =
      if ltb_int64 (s.count index) d.count
      then choice_loop (i + 1) (loaded s index v)
      else choice_loop (i + 1) d
  get_increment_index draw s (chosen d) = chosen d

  unfoldable pub get_decrement_index : ℕ → Shared → IndexPc → IndexPc
  get_decrement_index draw s first_version =
      first_count (random_index draw) (s.version (random_index draw))
  get_decrement_index draw s (first_count index v) = choice_loop 1 (loaded s index v)
  get_decrement_index draw s (first_again index v) = choice_loop 1 (loaded s index v)
  get_decrement_index draw s (next_version i d) =
      next_count i d (random_index draw) (s.version (random_index draw))
  get_decrement_index draw s (next_count i d index v) =
      if ltb_int64 d.count (s.count index)
      then choice_loop (i + 1) (loaded s index v)
      else choice_loop (i + 1) d
  get_decrement_index draw s (chosen d) = chosen d

  -- `increment` once the choice is made; after a failure it chooses again.
  unfoldable pub increment_cae : Shared → Descriptor → Shared × CounterPc
  unfolding counter_cae
  increment_cae s d =
      let new = add64 d.count 1 in
      let (s', done) = counter_cae s d new in
      (s', if done then returned (mul64 new set.width) else incrementing first_version)

  unfoldable pub increment_step : ℕ → Shared → IndexPc → Shared × CounterPc
  unfolding increment_cae get_increment_index
  increment_step draw s (chosen d) = increment_cae s d
  increment_step draw s c = (s, incrementing (get_increment_index draw s c))

  -- What `decrement` returns.
  abbrev pub taken : (new : ℕ) → ℕ
  taken new = if set.validate_size then 1 else mul64 new set.width

  -- `decrement` once the choice is made, of a count that is not zero.
  unfoldable pub decrement_cae : Shared → Descriptor → Shared × CounterPc
  unfolding counter_cae
  decrement_cae s d =
      let new = sub64 d.count 1 in
      let (s', done) = counter_cae s d new in
      (s', if done then returned (taken new) else decrementing first_version)

  unfoldable pub decrement_step : ℕ → Shared → IndexPc → Shared × CounterPc
  unfolding decrement_cae get_decrement_index
  decrement_step draw s (chosen d) = if d.count == 0 then (s, returned_empty) else decrement_cae s d
  decrement_step draw s c = (s, decrementing (get_decrement_index draw s c))

  -- One access of a thread; an idle one begins `increment` on 0 and `decrement` on any other draw.
  unfoldable pub step : ℕ → Shared → CounterPc → Shared × CounterPc
  unfolding increment_step decrement_step
  step draw s pc = elim pc [
    | idle ↦ (s, if draw == 0 then incrementing first_version else decrementing first_version)
    | incrementing c ↦ increment_step draw s c
    | decrementing c ↦ decrement_step draw s c
    | returned v ↦ (s, idle)
    | returned_empty ↦ (s, idle)
  ]

  -- `counter_size`, over the sub-counters below `k`
  unfoldable pub counter_size : Shared → ℕ → ℕ
  counter_size s zero = 0
  counter_size s (suc k) = add64 (counter_size s k) (s.count k)

-- `create_counter`
abbrev pub create_counter : System Shared CounterPc
create_counter = record { shared = record { count = λ k. 0; version = λ k. 0 }; local = λ i. idle }

unfoldable pub run_counter : Params → List (ℕ × ℕ) → System Shared CounterPc
run_counter set schedule = run (step set) schedule create_counter
