-- ===== src/Relaxation/Tests.antt =====
-- Runs of the relaxation analysis, and the theorems at concrete lists.
use semantic_relaxation_dcbo.Prelude.{inl, inr, ℕ, ◌≡◌, Option, some, ◌>>=◌, [], ◌∷◌, refl, arith}
use semantic_relaxation_dcbo.Relaxation.{
  Analysis, empty_analysis, add_linear, find_before, remove_first, remove_after, remove_linear,
  add_relaxed_dist,
}
use semantic_relaxation_dcbo.Relaxation.Sound.{Holds}
use semantic_relaxation_dcbo.Relaxation.Add.{added, add_linear-Holds}
use semantic_relaxation_dcbo.Relaxation.Search.{extract}
use semantic_relaxation_dcbo.Relaxation.Remove.{remove_linear-Holds}

-- Three values are enqueued, and the second and the third come out before the first.
abbrev three_removed : Option (ℕ × ℕ × ℕ × ℕ)
three_removed = do
  a ← add_linear empty_analysis 5 0
  b ← add_linear a 6 0
  c ← add_linear b 7 0
  d ← remove_linear 3 c 6
  e ← remove_linear 3 d 7
  f ← remove_linear 3 e 5
  some (
    f.linear_clone.size,
    f.val f.error_dists.head,
    f.val (f.next f.error_dists.head),
    f.val f.error_dists.tail,
  )

distances_recorded : three_removed ≡ some (0, 1, 1, 0)
unfolding add_linear remove_linear find_before remove_first remove_after add_relaxed_dist
distances_recorded = refl

start_Holds : Holds empty_analysis [] []
start_Holds = (
  [],
  [],
  record {
    clone = record { linked = refl; tail = refl; size = refl };
    dists = record { linked = refl; tail = refl; size = refl };
    distinct = tt;
    distinct_dists = tt;
    apart = λ a i. absurd i;
    made = λ a i. elim i [ inl j ↦ absurd j | inr j ↦ absurd j ];
    some_fresh = omega arith;
  },
  refl,
  refl,
)

add_linear-Holds_example :
    (s' : Analysis) × (add_linear empty_analysis 5 0 ≡ some s') × Holds s' (added [] 5 0) []
add_linear-Holds_example =
    add_linear-Holds empty_analysis [] [] start_Holds 5 0 (omega arith) (omega arith)

-- The states after one and after two values.
abbrev one_in : Analysis
one_in = (add_linear-Holds empty_analysis [] [] start_Holds 5 0 (omega arith) (omega arith)).0

one_in-Holds : Holds one_in (5 ∷ []) []
one_in-Holds = (add_linear-Holds empty_analysis [] [] start_Holds 5 0 (omega arith) (omega arith)).2

abbrev two_in : Analysis
two_in = (add_linear-Holds one_in (5 ∷ []) [] one_in-Holds 6 0 (omega arith) (omega arith)).0

two_in-Holds : Holds two_in (5 ∷ 6 ∷ []) []
two_in-Holds = (add_linear-Holds one_in (5 ∷ []) [] one_in-Holds 6 0 (omega arith) (omega arith)).2

second : extract 6 (5 ∷ 6 ∷ []) ≡ some (1, 5 ∷ [])
unfolding extract
second = refl

remove_linear-Holds_example :
    (s' : Analysis) × (remove_linear 2 two_in 6 ≡ some s') × Holds s' (5 ∷ []) (1 ∷ [])
remove_linear-Holds_example =
    remove_linear-Holds two_in (5 ∷ 6 ∷ []) [] two_in-Holds 6 1 (5 ∷ []) second (omega arith)
      (omega arith) 2 (omega arith)
