-- ===== src/Choices/Balance.antt =====
-- No count is lost in src/multi-counter_random-relaxed: the sub-counters together hold what was added
-- and not taken.
use native.Mathlib.Nat.{mod-lt, zero-add}
use semantic_relaxation_dcbo.Prelude.{
  ◌-◌, ℕ, zero, suc, ◌+◌, ◌^◌, ◌≤◌, ◌<◌, ◌≡◌, true, false, List, length, arith, refl, update, total,
  total-bump, total-zero, le-total, Bool-cases, inl, inr, ltb, add64, sub64, ◌==◌, ==→eq,
  if◌then◌else◌, Bool,
}
use semantic_relaxation_dcbo.Machine.{tally, Inv, run-Inv, run-balance}
use semantic_relaxation_dcbo.Choices.{
  Params, Shared, Descriptor, IndexPc, first_version, first_count, first_again, next_version,
  next_count, chosen, CounterPc, idle, incrementing, decrementing, returned, ltb_int64, loaded,
  counter_cae, choice_loop, get_increment_index, get_decrement_index, increment_cae, increment_step,
  decrement_cae, decrement_step, step, counter_size, create_counter, run_counter,
}

-- A turn that ends an increment.
abbrev pub increments : CounterPc → CounterPc → ℕ
increments (incrementing _) (returned _) = 1
increments _ _ = 0

-- A turn that ends a decrement which took one.
abbrev pub decrements : CounterPc → CounterPc → ℕ
decrements (decrementing _) (returned _) = 1
decrements _ _ = 0

increments-le-one : (l l' : CounterPc) → increments l l' ≤ 1
increments-le-one l l' = grind arith

module _ (set : Params) where
  abbrev pub all_counts : Shared → ℕ
  all_counts s = total s.count set.width

  -- The indices that a choice holds are in range.
  IndexPcIn : IndexPc → Type 0
  IndexPcIn (first_count index v) = index < set.width
  IndexPcIn (first_again index v) = index < set.width
  IndexPcIn (next_version i d) = d.index < set.width
  IndexPcIn (next_count i d index v) = (d.index < set.width) × (index < set.width)
  IndexPcIn (chosen d) = d.index < set.width
  IndexPcIn _ = Unit

  IsIn : CounterPc → Type 0
  unfolding IndexPcIn
  IsIn (incrementing c) = IndexPcIn c
  IsIn (decrementing c) = IndexPcIn c
  IsIn _ = Unit

  -- A turn from `pc` that leaves `r`.
  record Balances (s : Shared) (pc : CounterPc) (r : Shared × CounterPc) : Type 0 where
    sum : all_counts r.0 + decrements pc r.1 ≡ all_counts s + increments pc r.1
    index : IsIn r.1

  choice_loop-In : (i : ℕ) (d : Descriptor) → d.index < set.width → IndexPcIn (choice_loop set i d)
  unfolding IndexPcIn
  choice_loop-In i d lt = elim (Bool-cases (ltb i set.num_choices)) [
    | inl e ↦ rw e lt
    | inr e ↦ rw e lt
  ]

  better-In :
      (better : Bool) (i : ℕ) (d d2 : Descriptor)
      → d.index < set.width
      → d2.index < set.width
      → IndexPcIn (if better then choice_loop set i d2 else choice_loop set i d)
  better-In true i d d2 lt lt2 = choice_loop-In i d2 lt2
  better-In false i d d2 lt lt2 = choice_loop-In i d lt

  module _ (wide : 0 < set.width) where
    get_increment_index-In :
        (draw : ℕ) (s : Shared) (c : IndexPc)
        → IndexPcIn c
        → IndexPcIn (get_increment_index set draw s c)
    unfolding IndexPcIn get_increment_index
    get_increment_index-In draw s first_version k = mod-lt draw wide
    get_increment_index-In draw s (first_count index v) k = k
    get_increment_index-In draw s (first_again index v) k = choice_loop-In 1 (loaded s index v) k
    get_increment_index-In draw s (next_version i d) k = (k, mod-lt draw wide)
    get_increment_index-In draw s (next_count i d index v) k =
        better-In (ltb_int64 (s.count index) d.count) (i + 1) d (loaded s index v) k.0 k.1
    get_increment_index-In draw s (chosen d) k = k

    get_decrement_index-In :
        (draw : ℕ) (s : Shared) (c : IndexPc)
        → IndexPcIn c
        → IndexPcIn (get_decrement_index set draw s c)
    unfolding IndexPcIn get_decrement_index
    get_decrement_index-In draw s first_version k = mod-lt draw wide
    get_decrement_index-In draw s (first_count index v) k = choice_loop-In 1 (loaded s index v) k
    get_decrement_index-In draw s (first_again index v) k = choice_loop-In 1 (loaded s index v) k
    get_decrement_index-In draw s (next_version i d) k = (k, mod-lt draw wide)
    get_decrement_index-In draw s (next_count i d index v) k =
        better-In (ltb_int64 d.count (s.count index)) (i + 1) d (loaded s index v) k.0 k.1
    get_decrement_index-In draw s (chosen d) k = k

    module _ (n : ℕ) (s : Shared) (few : n + 1 < 2 ^ 63) (sum_le : all_counts s ≤ n) where
      count_le : (k : ℕ) → k < set.width → s.count k ≤ n
      count_le k lt = omega (arith, le-total s.count set.width k lt)

      increment_cae-Balances :
          (d : Descriptor)
          → d.index < set.width
          → Balances s (incrementing (chosen d)) (increment_cae set s d)
      unfolding increment_cae counter_cae IsIn IndexPcIn
      increment_cae-Balances d lt = elim (Bool-cases (s.count d.index == d.count)) [
        | inr e ↦ rw (e, increment_cae) (record { sum = omega arith; index = tt })
        | inl e ↦ elim (Bool-cases (s.version d.index == d.version)) [
          | inr f ↦ rw (e, f, increment_cae) (record { sum = omega arith; index = tt })
          | inl f ↦
              rw (e, f, increment_cae)
                (record {
                  sum = omega (
                    arith,
                    total-bump s.count (update s.count d.index (add64 d.count 1)) set.width d.index
                        lt (ground (arith, count_le d.index lt, ==→eq _ _ e))
                        (λ k ne. ground arith),
                  );
                  index = tt;
                })
        ]
      ]

      decrement_cae-Balances :
          (d : Descriptor)
          → (d.count == 0) ≡ false
          → d.index < set.width
          → Balances s (decrementing (chosen d)) (decrement_cae set s d)
      unfolding decrement_cae counter_cae IsIn IndexPcIn
      decrement_cae-Balances d some_count lt = elim (Bool-cases (s.count d.index == d.count)) [
        | inr e ↦ rw (e, decrement_cae) (record { sum = omega arith; index = tt })
        | inl e ↦ elim (Bool-cases (s.version d.index == d.version)) [
          | inr f ↦ rw (e, f, decrement_cae) (record { sum = omega arith; index = tt })
          | inl f ↦
              rw (e, f, decrement_cae)
                (record {
                  sum = omega (
                    arith,
                    total-bump (update s.count d.index (sub64 d.count 1)) s.count set.width d.index
                        lt (ground (arith, count_le d.index lt, ==→eq _ _ e, some_count))
                        (λ k ne. ground arith),
                  );
                  index = tt;
                })
        ]
      ]

      increment_step-Balances :
          (draw : ℕ) (c : IndexPc)
          → IndexPcIn c
          → Balances s (incrementing c) (increment_step set draw s c)
      unfolding increment_step IsIn IndexPcIn
      increment_step-Balances draw (chosen d) k = increment_cae-Balances d k
      increment_step-Balances draw c k = record {
        sum = omega arith;
        index = get_increment_index-In draw s c k;
      }

      decrement_step-Balances :
          (draw : ℕ) (c : IndexPc)
          → IndexPcIn c
          → Balances s (decrementing c) (decrement_step set draw s c)
      unfolding decrement_step IsIn IndexPcIn
      decrement_step-Balances draw (chosen d) k = elim (Bool-cases (d.count == 0)) [
        | inl e ↦ rw (e, decrement_step) (record { sum = omega arith; index = tt })
        | inr e ↦ rw (e, decrement_step) (decrement_cae-Balances d e k)
      ]
      decrement_step-Balances draw c k = record {
        sum = omega arith;
        index = get_decrement_index-In draw s c k;
      }

      step-Balances : (draw : ℕ) (pc : CounterPc) → IsIn pc → Balances s pc (step set draw s pc)
      unfolding step IsIn IndexPcIn
      step-Balances draw (incrementing c) k = increment_step-Balances draw c k
      step-Balances draw (decrementing c) k = decrement_step-Balances draw c k
      step-Balances draw idle k = elim (Bool-cases (draw == 0)) [
        | inl e ↦ rw (e, step) (record { sum = omega arith; index = tt })
        | inr e ↦ rw (e, step) (record { sum = omega arith; index = tt })
      ]
      step-Balances draw pc k = record { sum = omega arith; index = tt }

  -- After `n` turns the sum is at most `n`.
  record IsSound (n : ℕ) (s : Shared) : Type 0 where
    sum_le : all_counts s ≤ n

  module _ (wide : 0 < set.width) where
    own-kept :
        (n c : ℕ) (s : Shared) (l : CounterPc)
        → n < 2 ^ 63 - 1
        → IsSound n s
        → IsIn l
        → IsSound (suc n) (step set c s l).0 × IsIn (step set c s l).1
    own-kept n c s l few sound k =
        let b = step-Balances wide n s (omega arith) sound.sum_le c l k in
        (
          record {
            sum_le = omega (arith, b.sum, increments-le-one l (step set c s l).1, sound.sum_le);
          },
          b.index,
        )

    start-Inv : Inv IsSound (λ s. IsIn) 0 create_counter
    unfolding IsIn
    start-Inv = record {
      memory = record {
        sum_le = omega (arith, total-zero create_counter.shared.count set.width (λ k. refl));
      };
      threads = λ i. tt;
    }

    run_counter-Inv :
        (schedule : List (ℕ × ℕ))
        → length schedule < 2 ^ 63
        → Inv IsSound (λ s. IsIn) (length schedule) (run_counter set schedule)
    unfolding run_counter
    run_counter-Inv schedule short =
        let v =
          run-Inv (step set) IsSound (λ s. IsIn) (2 ^ 63 - 1) own-kept
            (λ n c s l q few sound k other. other) 0 schedule create_counter (omega arith)
            start-Inv in
        rw zero-add at v

    all_counts-tally :
        (schedule : List (ℕ × ℕ))
        → length schedule < 2 ^ 63
        → all_counts (run_counter set schedule).shared
            + tally (step set) decrements schedule create_counter
          ≡ all_counts create_counter.shared + tally (step set) increments schedule create_counter
    unfolding run_counter
    all_counts-tally schedule short =
        run-balance (step set) IsSound (λ s. IsIn) (2 ^ 63 - 1) own-kept
          (λ n c s l q few sound k other. other) all_counts increments decrements
          (λ n c s l few sound k. (step-Balances wide n s (omega arith) sound.sum_le c l k).sum) 0
          schedule create_counter (omega arith) start-Inv

  -- The sum of `counter_size` does not wrap while the sum of counts does not.
  counter_size-total :
      (s : Shared) (k : ℕ) → total s.count k < 2 ^ 64 → counter_size set s k ≡ total s.count k
  unfolding counter_size total
  counter_size-total s zero fits = refl
  counter_size-total s (suc k) fits = omega (arith, counter_size-total s k (omega arith))

-- For at least one sub-counter, in every interleaving of fewer than `2 ^ 63` turns: `counter_size`
-- over all the sub-counters, read while no thread moves, is the number of finished increments less
-- the number of decrements that took one, whatever the choices were.
pub choices-tally :
    (set : Params) (schedule : List (ℕ × ℕ))
    → 0 < set.width
    → length schedule < 2 ^ 63
    → counter_size set (run_counter set schedule).shared set.width
        + tally (step set) decrements schedule create_counter
      ≡ tally (step set) increments schedule create_counter
choices-tally set schedule wide short =
    let s = (run_counter set schedule).shared in
    let none = total-zero create_counter.shared.count set.width (λ k. refl) in
    let held = (run_counter-Inv set wide schedule short).memory.sum_le in
    omega (
      arith,
      none,
      counter_size-total set s set.width (omega (arith, held)),
      all_counts-tally set wide schedule short,
    )
