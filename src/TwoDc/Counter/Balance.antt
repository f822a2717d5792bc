-- ===== src/TwoDc/Counter/Balance.antt =====
-- No count is lost in src/2Dc-counter: the sub-counters together hold what was added and not taken.
use native.Mathlib.Nat.{zero-add}
use semantic_relaxation_dcbo.Prelude.{
  ◌-◌, ℕ, zero, suc, ◌+◌, ◌^◌, ◌≤◌, ◌<◌, ◌≡◌, true, List, length, arith, refl, update, total,
  total-bump, total-zero, le-total, Bool-cases, inl, inr, ltb, add64, sub64, ◌==◌, ==→eq, ltb→lt,
}
use semantic_relaxation_dcbo.Machine.{tally, Inv, run-Inv, run-balance}
use semantic_relaxation_dcbo.TwoDc.Window.{Params, Thread, PutPc, put_found, GetPc, get_found}
use semantic_relaxation_dcbo.TwoDc.Window.Indices.{put_step-lt, get_step-lt}
use semantic_relaxation_dcbo.TwoDc.Counter.{
  Shared, CounterPc, incrementing, decrementing, returned, Local, count_of, whole, step,
  increment_cae, increment_step, decrement_cae, decrement_step, create_counter, run_counter,
  counter_size,
}

abbrev incremented : CounterPc → CounterPc → ℕ
incremented (incrementing _) (returned _) = 1
incremented _ _ = 0

abbrev decremented : CounterPc → CounterPc → ℕ
decremented (decrementing _) (returned _) = 1
decremented _ _ = 0

-- A turn that ends an increment.
abbrev pub increments : Local → Local → ℕ
increments l l' = incremented l.pc l'.pc

-- A turn that ends a decrement which took one.
abbrev pub decrements : Local → Local → ℕ
decrements l l' = decremented l.pc l'.pc

increments-le-one : (l l' : Local) → increments l l' ≤ 1
increments-le-one l l' = grind arith

module _ (set : Params) where
  abbrev pub all_counts : Shared → ℕ
  all_counts s = total s.array set.width

  -- A turn from `l` that leaves `r`.
  record Balances (s : Shared) (l : Local) (r : Shared × Local) : Type 0 where
    sum : all_counts r.0 + decrements l r.1 ≡ all_counts s + increments l r.1
    index : r.1.thread.index < set.width

  module _ (wide : 0 < set.width) (narrow : set.width < 2 ^ 16) (n : ℕ) (s : Shared) (t : Thread)
      (few : n + 1 < 2 ^ 64) (sum_le : all_counts s ≤ n) (index : t.index < set.width) where
    abbrev at : CounterPc → Local
    at pc = record { thread = t; pc = pc }

    count_le : s.array t.index ≤ n
    count_le = omega (arith, le-total s.array set.width t.index index)

    increment_cae-Balances :
        (d : ℕ) → Balances s (at (incrementing (put_found d))) (increment_cae set s t d)
    unfolding increment_cae
    increment_cae-Balances d = elim (Bool-cases (s.array t.index == d)) [
      | inl e ↦
          rw (e, increment_cae)
            (record {
              sum = omega (
                arith,
                total-bump s.array (update s.array t.index (add64 d 1)) set.width t.index index
                    (ground (arith, count_le, ==→eq _ _ e)) (λ k ne. ground arith),
              );
              index = index;
            })
      | inr e ↦ rw (e, increment_cae) (record { sum = omega arith; index = index })
    ]

    decrement_cae-Balances :
        (d : ℕ)
        → ltb 0 d ≡ true
        → Balances s (at (decrementing (get_found d))) (decrement_cae set s t d)
    unfolding decrement_cae
    decrement_cae-Balances d some_count = elim (Bool-cases (s.array t.index == d)) [
      | inl e ↦
          rw (e, decrement_cae)
            (record {
              sum = omega (
                arith,
                total-bump (update s.array t.index (sub64 d 1)) s.array set.width t.index index
                    (ground (arith, count_le, ==→eq _ _ e, ltb→lt _ _ some_count))
                    (λ k ne. ground arith),
              );
              index = index;
            })
      | inr e ↦ rw (e, decrement_cae) (record { sum = omega arith; index = index })
    ]

    increment_step-Balances :
        (draw : ℕ) (pc : PutPc ℕ)
        → Balances s (at (incrementing pc)) (increment_step set draw s t pc)
    unfolding increment_step
    increment_step-Balances draw (put_found d) = increment_cae-Balances d
    increment_step-Balances draw pc = record {
      sum = omega arith;
      index = put_step-lt count_of set wide narrow whole draw s.array s.window t pc index;
    }

    decrement_step-Balances :
        (draw : ℕ) (pc : GetPc ℕ)
        → Balances s (at (decrementing pc)) (decrement_step set draw s t pc)
    unfolding decrement_step
    decrement_step-Balances draw (get_found d) = elim (Bool-cases (ltb 0 d)) [
      | inl e ↦ rw (e, decrement_step) (decrement_cae-Balances d e)
      | inr e ↦ rw (e, decrement_step) (record { sum = omega arith; index = index })
    ]
    decrement_step-Balances draw pc = record {
      sum = omega arith;
      index = get_step-lt count_of set wide narrow whole draw s.array s.window t pc index;
    }

    step-Balances : (draw : ℕ) (pc : CounterPc) → Balances s (at pc) (step set draw s (at pc))
    unfolding step
    step-Balances draw (incrementing pc) = increment_step-Balances draw pc
    step-Balances draw (decrementing pc) = decrement_step-Balances draw pc
    step-Balances draw pc = record { sum = omega arith; index = index }

  -- After `n` turns the sum is at most `n`.
  record IsSound (n : ℕ) (s : Shared) : Type 0 where
    sum_le : all_counts s ≤ n

  record IsIn (s : Shared) (l : Local) : Type 0 where
    index : l.thread.index < set.width

  module _ (wide : 0 < set.width) (narrow : set.width < 2 ^ 16) where
    balanced :
        (n c : ℕ) (s : Shared) (l : Local)
        → n < 2 ^ 64 - 1
        → IsSound n s
        → IsIn s l
        → Balances s l (step set c s l)
    balanced n c s l few sound k =
        step-Balances wide narrow n s l.thread (omega arith) sound.sum_le k.index c l.pc

    own-kept :
        (n c : ℕ) (s : Shared) (l : Local)
        → n < 2 ^ 64 - 1
        → IsSound n s
        → IsIn s l
        → IsSound (suc n) (step set c s l).0 × IsIn (step set c s l).0 (step set c s l).1
    own-kept n c s l few sound k =
        let b = balanced n c s l few sound k in
        (
          record {
            sum_le = omega (arith, b.sum, increments-le-one l (step set c s l).1, sound.sum_le);
          },
          record { index = b.index },
        )

    start-Inv : Inv IsSound IsIn 0 (create_counter set.depth)
    start-Inv = record {
      memory = record {
        sum_le =
            omega (arith, total-zero (create_counter set.depth).shared.array set.width (λ k. refl));
      };
      threads = λ i. record { index = wide };
    }

    run_counter-Inv :
        (schedule : List (ℕ × ℕ))
        → length schedule < 2 ^ 64
        → Inv IsSound IsIn (length schedule) (run_counter set schedule)
    unfolding run_counter
    run_counter-Inv schedule short =
        let v =
          run-Inv (step set) IsSound IsIn (2 ^ 64 - 1) own-kept
            (λ n c s l q few sound k other. record { index = other.index }) 0 schedule
            (create_counter set.depth) (omega arith) start-Inv in
        rw zero-add at v

    all_counts-tally :
        (schedule : List (ℕ × ℕ))
        → length schedule < 2 ^ 64
        → all_counts (run_counter set schedule).shared
            + tally (step set) decrements schedule (create_counter set.depth)
          ≡ all_counts (create_counter set.depth).shared
            + tally (step set) increments schedule (create_counter set.depth)
    unfolding run_counter
    all_counts-tally schedule short =
        run-balance (step set) IsSound IsIn (2 ^ 64 - 1) own-kept
          (λ n c s l q few sound k other. record { index = other.index }) all_counts increments
          decrements (λ n c s l few sound k. (balanced n c s l few sound k).sum) 0 schedule
          (create_counter set.depth) (omega arith) start-Inv

  -- The sum of `counter_size` does not wrap while the sum of counts does not.
  counter_size-total :
      (s : Shared) (k : ℕ) → total s.array k < 2 ^ 64 → counter_size set s k ≡ total s.array k
  unfolding counter_size total
  counter_size-total s zero fits = refl
  counter_size-total s (suc k) fits = omega (arith, counter_size-total s k (omega arith))

-- For a width from 1 on that `random_index` can take, in every interleaving of fewer than `2 ^ 64`
-- turns: `counter_size` over all the sub-counters, read while no thread moves, is the number of
-- finished increments less the number of decrements that took one.
pub counter_size-tally :
    (set : Params) (schedule : List (ℕ × ℕ))
    → 0 < set.width
    → set.width < 2 ^ 16
    → length schedule < 2 ^ 64
    → counter_size set (run_counter set schedule).shared set.width
        + tally (step set) decrements schedule (create_counter set.depth)
      ≡ tally (step set) increments schedule (create_counter set.depth)
counter_size-tally set schedule wide narrow short =
    let s = (run_counter set schedule).shared in
    let start = create_counter set.depth in
    let none = total-zero start.shared.array set.width (λ k. refl) in
    let held = (run_counter-Inv set wide narrow schedule short).memory.sum_le in
    omega (
      arith,
      none,
      counter_size-total set s set.width (omega (arith, held)),
      all_counts-tally set wide narrow schedule short,
    )
