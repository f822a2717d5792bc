-- ===== src/TwoDd/Counter/Count.antt =====
-- No count is lost in src/2Dd-counter: the sub-counters together hold what was added and not taken.
use semantic_relaxation_dcbo.Prelude.{
  sub64, ℕ, zero, suc, ◌+◌, ◌-◌, ◌*◌, ◌^◌, ◌≤◌, ◌<◌, ◌≡◌, true, List, length, arith, refl, update,
  total, total-same, total-bump, total_mono, ◌%◌, Bool-cases, inl, inr, ltb,
}
use semantic_relaxation_dcbo.Machine.{tally, tally-le, run-tally}
use semantic_relaxation_dcbo.TwoDd.Window.{Params, Thread, PutPc, put_found, GetPc, get_found}
use semantic_relaxation_dcbo.TwoDd.Counter.{
  Descriptor, same_descriptor, Shared, CounterPc, incrementing, decrementing, returned, Local, step,
  increment_cae, increment_step, decrement_cae, decrement_step, create_counter, run_counter,
  counter_size,
}
use semantic_relaxation_dcbo.TwoDd.Counter.Invariant.{
  puts_of, gets_of, IsSound, Knows, ThreadKnows, put_max_fits,
}
use semantic_relaxation_dcbo.TwoDd.Counter.Spread.{own-kept, other-kept, start-Inv, run_counter-Inv}

abbrev incremented : CounterPc → CounterPc → ℕ
incremented (incrementing _) (returned _) = 1
incremented _ _ = 0

abbrev decremented : CounterPc → CounterPc → ℕ
decremented (decrementing _) (returned _) = 1
decremented _ _ = 0

-- A turn that ends an increment.
abbrev pub increments : Local → Local → ℕ
increments l l' = incremented l.pc l'.pc

-- A turn that ends a decrement which took one.
abbrev pub decrements : Local → Local → ℕ
decrements l l' = decremented l.pc l'.pc

module _ (set : Params) where
  abbrev pub all_puts : Shared → ℕ
  all_puts s = total (puts_of s) set.width

  abbrev pub all_gets : Shared → ℕ
  all_gets s = total (gets_of s) set.width

  record Counted (s : Shared) (l : Local) (r : Shared × Local) : Type 0 where
    puts : all_puts r.0 ≡ all_puts s + increments l r.1
    gets : all_gets r.0 ≡ all_gets s + decrements l r.1

  module _ (n : ℕ) (s : Shared) (t : Thread) (few : n + 2 * set.depth < 2 ^ 64)
      (sound : IsSound set n s) (index : t.index < set.width)
      (fits : s.windows.put_max + set.depth < 2 ^ 64) where
    open sound.bounded use {puts_le, gets-le-puts}

    abbrev at : CounterPc → Local
    at pc = record { thread = t; pc = pc }

    abbrev written : Descriptor → Shared
    written new = record s { array = update s.array t.index new }

    one_put :
        (new : Descriptor)
        → new.put_count ≡ puts_of s t.index + 1
        → all_puts (written new) ≡ all_puts s + 1
    one_put new e =
        total-bump (puts_of s) (puts_of (written new)) set.width t.index index (ground arith)
          (λ k ne. ground arith)

    no_put :
        (new : Descriptor) → new.put_count ≡ puts_of s t.index → all_puts (written new) ≡ all_puts s
    no_put new e = total-same (puts_of s) (puts_of (written new)) set.width (λ k lt. ground arith)

    one_get :
        (new : Descriptor)
        → new.get_count ≡ gets_of s t.index + 1
        → all_gets (written new) ≡ all_gets s + 1
    one_get new e =
        total-bump (gets_of s) (gets_of (written new)) set.width t.index index (ground arith)
          (λ k ne. ground arith)

    no_get :
        (new : Descriptor) → new.get_count ≡ gets_of s t.index → all_gets (written new) ≡ all_gets s
    no_get new e = total-same (gets_of s) (gets_of (written new)) set.width (λ k lt. ground arith)

    increment_cae-Counted :
        (d : Descriptor)
        → d.put_count < s.windows.put_max
        → Counted s (at (incrementing (put_found d))) (increment_cae set s t d)
    unfolding increment_cae
    increment_cae-Counted d below = elim (Bool-cases (same_descriptor (s.array t.index) d)) [
      | inl e ↦
          rw (e, increment_cae)
            (record {
              puts = one_put _ (ground arith);
              gets = omega (
                arith,
                no_get (record d { put_count = (d.put_count + 1) % 2 ^ 64 }) (ground arith),
              );
            })
      | inr e ↦ rw (e, increment_cae) (record { puts = omega arith; gets = omega arith })
    ]

    decrement_cae-Counted :
        (d : Descriptor)
        → ltb 0 (sub64 d.put_count d.get_count) ≡ true
        → Counted s (at (decrementing (get_found d))) (decrement_cae set s t d)
    unfolding decrement_cae
    decrement_cae-Counted d more = elim (Bool-cases (same_descriptor (s.array t.index) d)) [
      | inl e ↦
          rw (e, decrement_cae)
            (record {
              puts = omega (
                arith,
                no_put (record d { get_count = (d.get_count + 1) % 2 ^ 64 }) (ground arith),
              );
              gets = one_get _ (ground (arith, puts_le t.index index, gets-le-puts t.index index));
            })
      | inr e ↦ rw (e, decrement_cae) (record { puts = omega arith; gets = omega arith })
    ]

    decrement_step-Counted :
        (draw : ℕ) (pc : GetPc Descriptor)
        → Counted s (at (decrementing pc)) (decrement_step set draw s t pc)
    unfolding decrement_step
    decrement_step-Counted draw (get_found d) =
        elim (Bool-cases (ltb 0 (sub64 d.put_count d.get_count))) [
          | inl e ↦ rw (e, decrement_step) (decrement_cae-Counted d e)
          | inr e ↦ rw (e, decrement_step) (record { puts = omega arith; gets = omega arith })
        ]
    decrement_step-Counted draw pc = record { puts = omega arith; gets = omega arith }

    increment_step-Counted :
        (draw : ℕ) (pc : PutPc Descriptor)
        → Knows set s t (incrementing pc)
        → Counted s (at (incrementing pc)) (increment_step set draw s t pc)
    unfolding increment_step
    increment_step-Counted draw (put_found d) k = increment_cae-Counted d k
    increment_step-Counted draw pc k = record { puts = omega arith; gets = omega arith }

    step-Counted :
        (draw : ℕ) (pc : CounterPc) → Knows set s t pc → Counted s (at pc) (step set draw s (at pc))
    unfolding step
    step-Counted draw (incrementing pc) k = increment_step-Counted draw pc k
    step-Counted draw (decrementing pc) k = decrement_step-Counted draw pc
    step-Counted draw pc k = record { puts = omega arith; gets = omega arith }

  counted :
      (n c : ℕ) (s : Shared) (l : Local)
      → n < 2 ^ 64 - 2 * set.depth
      → IsSound set n s
      → ThreadKnows set s l
      → Counted s l (step set c s l)
  counted n c s l few sound k =
      step-Counted n s l.thread (omega arith) sound k.behind.index
        (put_max_fits set n s l.thread (omega arith) sound k.behind) c l.pc k.knows

  -- The sum of `counter_size` does not wrap while the puts do not.
  counter_size-sum :
      (s : Shared) (k : ℕ)
      → ((i : ℕ) → i < k → gets_of s i ≤ puts_of s i)
      → total (puts_of s) k < 2 ^ 64
      → counter_size set s k + total (gets_of s) k ≡ total (puts_of s) k
  unfolding counter_size total
  counter_size-sum s zero order fits = refl
  counter_size-sum s (suc k) order fits = omega (
    arith,
    counter_size-sum s k (λ i lt. order i (omega arith)) (omega arith),
    order k (omega arith),
    total_mono (gets_of s) (puts_of s) k (λ i lt. order i (omega arith)),
  )

  all_puts-start : (s : Shared) (k : ℕ) → ((i : ℕ) → puts_of s i ≡ 0) → total (puts_of s) k ≡ 0
  unfolding total
  all_puts-start s zero z = refl
  all_puts-start s (suc k) z = omega (arith, all_puts-start s k z, z k)

  all_gets-start : (s : Shared) (k : ℕ) → ((i : ℕ) → gets_of s i ≡ 0) → total (gets_of s) k ≡ 0
  unfolding total
  all_gets-start s zero z = refl
  all_gets-start s (suc k) z = omega (arith, all_gets-start s k z, z k)

  module _ (schedule : List (ℕ × ℕ)) (wide : 0 < set.width) (narrow : set.width < 2 ^ 32)
      (short : length schedule + 2 * set.depth ≤ 2 ^ 64) where
    puts_tally :
        all_puts (run_counter set schedule).shared
        ≡ all_puts create_counter.shared + tally (step set) increments schedule create_counter
    unfolding run_counter
    puts_tally =
        run-tally (step set) (IsSound set) (ThreadKnows set) (2 ^ 64 - 2 * set.depth) (own-kept set)
          (other-kept set) all_puts increments
          (λ n c s l few sound k. (counted n c s l few sound k).puts) 0 schedule create_counter
          (omega arith) (start-Inv set wide narrow)

    gets_tally :
        all_gets (run_counter set schedule).shared
        ≡ all_gets create_counter.shared + tally (step set) decrements schedule create_counter
    unfolding run_counter
    gets_tally =
        run-tally (step set) (IsSound set) (ThreadKnows set) (2 ^ 64 - 2 * set.depth) (own-kept set)
          (other-kept set) all_gets decrements
          (λ n c s l few sound k. (counted n c s l few sound k).gets) 0 schedule create_counter
          (omega arith) (start-Inv set wide narrow)

increments-le-one : (l l' : Local) → increments l l' ≤ 1
increments-le-one l l' = grind arith

-- For a width from 1 on that `random_index` can take, in every interleaving of at most
-- `2 ^ 64 - 2 * depth` and fewer than `2 ^ 64` turns: `counter_size` over all the sub-counters, read
-- while no thread moves, is the number of finished increments less the number of decrements that
-- took one.
pub counter_size_exact :
    (set : Params) (schedule : List (ℕ × ℕ))
    → 0 < set.width
    → set.width < 2 ^ 32
    → length schedule + 2 * set.depth ≤ 2 ^ 64
    → length schedule < 2 ^ 64
    → counter_size set (run_counter set schedule).shared set.width
        + tally (step set) decrements schedule create_counter
      ≡ tally (step set) increments schedule create_counter
counter_size_exact set schedule wide narrow short no_wrap =
    let s = (run_counter set schedule).shared in
    let none_put = all_puts-start set create_counter.shared set.width (λ i. refl) in
    let none_got = all_gets-start set create_counter.shared set.width (λ i. refl) in
    let few = tally-le (step set) increments increments-le-one schedule create_counter in
    omega (
      arith,
      counter_size-sum set s set.width
          (run_counter-Inv set schedule wide narrow short).memory.bounded.gets-le-puts
          (omega (arith, puts_tally set schedule wide narrow short)),
      puts_tally set schedule wide narrow short,
      gets_tally set schedule wide narrow short,
    )
