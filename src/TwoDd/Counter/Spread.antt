-- ===== src/TwoDd/Counter/Spread.antt =====
-- The sub-counters of src/2Dd-counter stay close together in every interleaving.
use semantic_relaxation_dcbo.Prelude.{ℕ, suc, ◌+◌, ◌-◌, ◌*◌, ◌^◌, ◌≤◌, ◌<◌, List, length, arith}
use native.Mathlib.Nat.{zero-add}
use semantic_relaxation_dcbo.Machine.{Inv, run-Inv}
use semantic_relaxation_dcbo.TwoDd.Window.{Params}
use semantic_relaxation_dcbo.TwoDd.Counter.{Shared, Local, step, create_counter, run_counter}
use semantic_relaxation_dcbo.TwoDd.Counter.Invariant.{
  puts_of, gets_of, IsSound, ThreadKnows, Kept, step-Kept, ThreadKnows-mono,
}

module _ (set : Params) where
  step-own :
      (n c : ℕ) (s : Shared) (l : Local)
      → n < 2 ^ 64 - 2 * set.depth
      → IsSound set n s
      → ThreadKnows set s l
      → Kept set n s (step set c s l)
  step-own n c s l few sound k =
      step-Kept set n s l.thread (omega arith) sound k.behind c l.pc k.knows

  pub own-kept :
      (n c : ℕ) (s : Shared) (l : Local)
      → n < 2 ^ 64 - 2 * set.depth
      → IsSound set n s
      → ThreadKnows set s l
      → IsSound set (suc n) (step set c s l).0
        × ThreadKnows set (step set c s l).0 (step set c s l).1
  own-kept n c s l few sound k = let r = step-own n c s l few sound k in (r.sound, r.known)

  pub other-kept :
      (n c : ℕ) (s : Shared) (l q : Local)
      → n < 2 ^ 64 - 2 * set.depth
      → IsSound set n s
      → ThreadKnows set s l
      → ThreadKnows set s q
      → ThreadKnows set (step set c s l).0 q
  other-kept n c s l q few sound k other =
      ThreadKnows-mono set s (step set c s l).0 (step-own n c s l few sound k).grows q other

  pub start-Inv :
      0 < set.width → set.width < 2 ^ 32 → Inv (IsSound set) (ThreadKnows set) 0 create_counter
  start-Inv wide narrow = record {
    memory = record {
      bounded = record {
        puts_le = λ k lt. omega arith;
        le_puts = λ k lt. omega arith;
        gets-le-puts = λ k lt. omega arith;
        le_gets = λ k lt. omega arith;
        ahead = (0, omega arith);
      };
      few = λ k lt. omega arith;
    };
    threads = λ i. record {
      behind = record {
        index = wide;
        narrow = narrow;
        put_max = omega arith;
        get_max = omega arith;
      };
      knows = tt;
    };
  }

  pub run_counter-Inv :
      (schedule : List (ℕ × ℕ))
      → 0 < set.width
      → set.width < 2 ^ 32
      → length schedule + 2 * set.depth ≤ 2 ^ 64
      → Inv (IsSound set) (ThreadKnows set) (length schedule) (run_counter set schedule)
  unfolding run_counter
  run_counter-Inv schedule wide narrow short =
      let v =
        run-Inv (step set) (IsSound set) (ThreadKnows set) (2 ^ 64 - 2 * set.depth) own-kept
          other-kept 0 schedule create_counter (omega arith) (start-Inv wide narrow) in
      rw zero-add at v

-- For a width from 1 on that `random_index` can take, in every interleaving of any number of threads
-- of at most `2 ^ 64 - 2 * depth` turns: no sub-counter has been incremented more than `depth` times
-- oftener than another, none has been decremented oftener than incremented, no increment is past the
-- put window, the get window is at most two depths past any sub-counter's decrements, and it is not
-- past the put window.
pub counts_close :
    (set : Params) (schedule : List (ℕ × ℕ))
    → 0 < set.width
    → set.width < 2 ^ 32
    → length schedule + 2 * set.depth ≤ 2 ^ 64
    → (i j : ℕ) → i < set.width
    → j < set.width
    → let s = (run_counter set schedule).shared in
      (puts_of s i ≤ puts_of s j + set.depth)
      × (gets_of s i ≤ puts_of s i)
      × (puts_of s i ≤ s.windows.put_max)
      × (s.windows.get_max ≤ gets_of s i + 2 * set.depth)
      × (s.windows.get_max ≤ s.windows.put_max)
counts_close set schedule wide narrow short i j i_in j_in =
    let sound = (run_counter-Inv set schedule wide narrow short).memory in
    let b = sound.bounded in
    (
      omega (arith, b.puts_le i i_in, b.le_puts j j_in),
      b.gets-le-puts i i_in,
      b.puts_le i i_in,
      b.le_gets i i_in,
      omega (arith, b.ahead.1),
    )
