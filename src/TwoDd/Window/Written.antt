-- ===== src/TwoDd/Window/Written.antt =====
-- A descriptor is overwritten by one whose counts are not lower and fit the put window.
use semantic_relaxation_dcbo.Prelude.{
  ℕ, ◌≤◌, ◌<◌, ◌≡◌, ◌≢◌, ◌==◌, arith, subst, Bool-cases, inl, inr, ==→eq, ==→ne,
}
use semantic_relaxation_dcbo.TwoDd.Window.{Params, Windows}
use semantic_relaxation_dcbo.TwoDd.Window.Bounds.{IsBounded, Grows}

-- `puts'` and `gets'` are the counts afterwards; they differ at `index` at most.
pub record Fits (puts gets : ℕ → ℕ) (w : Windows) (index : ℕ) (puts' gets' : ℕ → ℕ) : Type 0 where
  pub more_puts : puts index ≤ puts' index
  pub more_gets : gets index ≤ gets' index
  pub puts_le : puts' index ≤ w.put_max
  pub gets-le-puts : gets' index ≤ puts' index
  pub puts_same : (k : ℕ) → k ≢ index → puts' k ≡ puts k
  pub gets_same : (k : ℕ) → k ≢ index → gets' k ≡ gets k

-- A property of the entries holds of all if it holds at `index` and elsewhere.
at_each : (P : ℕ → Type 0) (index : ℕ) → P index → ((k : ℕ) → k ≢ index → P k) → (k : ℕ) → P k
at_each P index here elsewhere k = elim (Bool-cases (k == index)) [
  | inl e ↦ let back : index ≡ k = omega (arith, ==→eq k index e) in subst P back here
  | inr e ↦ elsewhere k (==→ne k index e)
]

module _ (puts gets : ℕ → ℕ) (w : Windows) (index : ℕ) (puts' gets' : ℕ → ℕ)
    (f : Fits puts gets w index puts' gets') where
  all_puts : (k : ℕ) → puts k ≤ puts' k
  all_puts =
      at_each (λ k. puts k ≤ puts' k) index f.more_puts (λ k ne. omega (arith, f.puts_same k ne))

  all_gets : (k : ℕ) → gets k ≤ gets' k
  all_gets =
      at_each (λ k. gets k ≤ gets' k) index f.more_gets (λ k ne. omega (arith, f.gets_same k ne))

  pub Fits-Grows : Grows puts gets w puts' gets' w
  Fits-Grows = record {
    more_puts = all_puts;
    more_gets = all_gets;
    put_max = omega arith;
    get_max = omega arith;
  }

  pub Fits-IsBounded : (set : Params) → IsBounded set puts gets w → IsBounded set puts' gets' w
  Fits-IsBounded set b = record {
    puts_le =
        at_each (λ k. k < set.width → puts' k ≤ w.put_max) index (λ lt. f.puts_le)
          (λ k ne lt. omega (arith, f.puts_same k ne, b.puts_le k lt));
    le_puts = λ k lt. omega (arith, b.le_puts k lt, all_puts k);
    gets-le-puts =
        at_each (λ k. k < set.width → gets' k ≤ puts' k) index (λ lt. f.gets-le-puts)
          (λ k ne lt. omega (arith, f.puts_same k ne, f.gets_same k ne, b.gets-le-puts k lt));
    le_gets = λ k lt. omega (arith, b.le_gets k lt, all_gets k);
    ahead = b.ahead;
  }
