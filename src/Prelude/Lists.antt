-- ===== src/Prelude/Lists.antt =====
-- Lists over the native numbers, and families indexed by a number.
use Prim.Native.Nat.{ℕ, zero, suc, ◌+◌, ◌*◌, ◌≤◌, ◌<◌}
use mathlib.Core.Path.{◌≡◌, refl, ap}
use mathlib.Core.Logic.{◌≢◌, inl, inr}
use mathlib.Core.List.{List, [], ◌∷◌, ◌++◌}
use native.Mathlib.Omega.{arith}
use semantic_relaxation_dcbo.Prelude.Tests.{◌==◌, if◌then◌else◌, Bool-cases, ==→eq, ==→ne}

-- `f` with the entry at `i` overwritten: an array write.
abbrev pub update {ℓ} : {A : Type ℓ} → (ℕ → A) → ℕ → A → ℕ → A
update f i a j = if i == j then a else f j

module _ {ℓ} {A : Type ℓ} where
  abbrev pub length : List A → ℕ
  length [] = 0
  length (x ∷ xs) = suc (length xs)

  pub length-append : (xs ys : List A) → length (xs ++ ys) ≡ length xs + length ys
  length-append [] ys = omega arith
  length-append (x ∷ xs) ys = omega (arith, length-append xs ys)

-- The sum of a family below an index.
unfoldable pub total : (ℕ → ℕ) → ℕ → ℕ
total f zero = 0
total f (suc n) = total f n + f n

pub total-same : (f g : ℕ → ℕ) (n : ℕ) → ((k : ℕ) → k < n → g k ≡ f k) → total g n ≡ total f n
unfolding total
total-same f g zero h = refl
total-same f g (suc n) h =
    omega (arith, total-same f g n (λ k lt. h k (omega arith)), h n (omega arith))

-- One more at one index is one more in the sum.
pub total-bump :
    (f g : ℕ → ℕ) (n i : ℕ)
    → i < n
    → g i ≡ f i + 1
    → ((k : ℕ) → k ≢ i → g k ≡ f k)
    → total g n ≡ total f n + 1
unfolding total
total-bump f g zero i lt here others = absurd (omega arith)
total-bump f g (suc n) i lt here others = elim (Bool-cases (i == n)) [
  | inl e ↦
      let at_n : i ≡ n = ==→eq i n e in
      omega (arith, total-same f g n (λ k k_lt. others k (omega arith)), here, ap f at_n, ap g at_n)
  | inr e ↦
      let off_n : i ≢ n = ==→ne i n e in
      omega (arith, total-bump f g n i (omega arith) here others, others n (omega arith))
]

pub total_mono : (f g : ℕ → ℕ) (n : ℕ) → ((k : ℕ) → k < n → f k ≤ g k) → total f n ≤ total g n
unfolding total
total_mono f g zero h = omega arith
total_mono f g (suc n) h =
    omega (arith, total_mono f g n (λ k lt. h k (omega arith)), h n (omega arith))

pub total-lt :
    (f g : ℕ → ℕ) (n i : ℕ)
    → ((k : ℕ) → k < n → f k ≤ g k)
    → i < n
    → f i < g i
    → total f n < total g n
unfolding total
total-lt f g zero i h lt less = absurd (omega arith)
total-lt f g (suc n) i h lt less = elim (Bool-cases (i == n)) [
  | inl e ↦
      let at_n : i ≡ n = ==→eq i n e in
      omega (arith, total_mono f g n (λ k k_lt. h k (omega arith)), less, ap f at_n, ap g at_n)
  | inr e ↦
      let off_n : i ≢ n = ==→ne i n e in
      omega (
        arith,
        total-lt f g n i (λ k k_lt. h k (omega arith)) (omega arith) less,
        h n (omega arith),
      )
]

-- One entry is at most the sum.
pub le-total : (f : ℕ → ℕ) (n i : ℕ) → i < n → f i ≤ total f n
unfolding total
le-total f zero i lt = absurd (omega arith)
le-total f (suc n) i lt = elim (Bool-cases (i == n)) [
  | inl e ↦ let at_n : i ≡ n = ==→eq i n e in omega (arith, ap f at_n)
  | inr e ↦ let off_n : i ≢ n = ==→ne i n e in omega (arith, le-total f n i (omega arith))
]

pub total-zero : (f : ℕ → ℕ) (n : ℕ) → ((k : ℕ) → f k ≡ 0) → total f n ≡ 0
unfolding total
total-zero f zero z = refl
total-zero f (suc n) z = omega (arith, total-zero f n z, z n)

pub total-le-mul :
    (f : ℕ → ℕ) (n bound : ℕ) → ((k : ℕ) → k < n → f k ≤ bound) → total f n ≤ n * bound
unfolding total
total-le-mul f zero bound h = omega arith
total-le-mul f (suc n) bound h =
    omega (arith, total-le-mul f n bound (λ k lt. h k (omega arith)), h n (omega arith))
