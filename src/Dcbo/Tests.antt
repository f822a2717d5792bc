-- ===== src/Dcbo/Tests.antt =====
-- Calls over MS queues, and the theorems at them.
use native.Mathlib.Numerals.{add-one}
use semantic_relaxation_dcbo.Prelude.{
  ℕ, zero, suc, ◌+◌, ◌-◌, ◌%◌, ◌^◌, ◌≤◌, ◌<◌, ◌≡◌, ◌≢◌, ◌⊎◌, false, [], ◌∷◌, arith, refl, ◌==◌,
  if◌then◌else◌, total, Bool-cases, inl, inr,
}
use semantic_relaxation_dcbo.Ms.Queue.{Fifo, put, get, ms_partial}
use semantic_relaxation_dcbo.Dcbo.Partial.{IsEmpty, Later, now, dequeued, IsHistory}
use semantic_relaxation_dcbo.Dcbo.Collect.{returned, collect, check, double_collect}
use semantic_relaxation_dcbo.Dcbo.Linearizable.{double_collect-empty}
use semantic_relaxation_dcbo.Dcbo.Progress.{all_enqueues, double_collect-Returns}
use semantic_relaxation_dcbo.Dcbo.Choice.{enqueue, dequeue, choose, deq_heuristic, enq_heuristic}
use semantic_relaxation_dcbo.Dcbo.Best.{enqueue_best}
use semantic_relaxation_dcbo.Dcbo.Dequeue.{dequeue_sound}

-- Queue 1 holds a 9, which another thread takes before the call's second access; the others are
-- empty, and queue 0 has had 3 items.
abbrev history : ℕ → ℕ → Fifo
history zero i =
    if i == 1
    then record { items = 8 ∷ []; puts = 1; gets = 0 }
    else record { items = []; puts = 3; gets = 3 }
history (suc k) i =
    if i == 1
    then record { items = []; puts = 1; gets = 1 }
    else record { items = []; puts = 3; gets = 3 }

history-IsHistory : IsHistory ms_partial history
history-IsHistory = record { next = λ k i. rw add-one (goes k i); few = λ k i. fits k i }
  where
    goes : (k i : ℕ) → Later ms_partial (history k i) (history (suc k) i)
    goes zero i = elim (Bool-cases (i == 1)) [
      | inl taken ↦ rw taken (dequeued now)
      | inr other ↦ rw other now
    ]
    goes (suc k) i = now

    fits : (k i : ℕ) → (history k i).puts < (history 0 i).puts + 2 ^ 64
    fits zero i = omega arith
    fits (suc k) i = elim (Bool-cases (i == 1)) [
      | inl taken ↦ rw taken (omega arith)
      | inr other ↦ rw other (omega arith)
    ]

abbrev no_counts : ℕ → ℕ
no_counts j = 0

-- The second queue is met empty at access 3, and both versions are found again at 4 and 5.
double_collect_runs : double_collect ms_partial 2 history 1 0 0 no_counts ≡ returned 0 6
unfolding double_collect collect check
double_collect_runs = refl

double_collect-empty_example :
    (t : ℕ) × (0 ≤ t) × (t ≤ 6) × ((j : ℕ) → j < 2 → IsEmpty ms_partial (history t j))
double_collect-empty_example =
    double_collect-empty ms_partial 2 history history-IsHistory 1 0 0 no_counts 6 (omega arith)
      (omega arith) (omega arith) double_collect_runs

-- From access 0 on there are no enqueues.
enqueues_stay :
    (m : ℕ) → 0 ≤ m → all_enqueues ms_partial 2 history m < all_enqueues ms_partial 2 history 0 + 1
unfolding all_enqueues total
enqueues_stay zero le = omega arith
enqueues_stay (suc m) le = omega arith

double_collect-Returns_example :
    (value : ℕ) × (access : ℕ) × (double_collect ms_partial 2 history 1 0 0 no_counts
      ≡ returned value access)
double_collect-Returns_example =
    double_collect-Returns ms_partial 2 history history-IsHistory 1 0 0 no_counts (omega arith)
      (omega arith) (omega arith) enqueues_stay

abbrev draws : ℕ → ℕ
draws k = k

enqueue_best_example :
    let (index, at, queue) = enqueue ms_partial 2 history draws false 2 7 5 0 in
    let heuristic = enq_heuristic ms_partial false in
    (index < 2)
    × (at ≡ 0 + 1 + (2 - 1))
    × (queue ≡ put 7 5 (history at index))
    × ((s : ℕ) × (0 ≤ s)
        × (s < at)
        × (index ≡ draws s % 2)
        × ((m : ℕ)
            → 0 ≤ m
            → m < at
            → heuristic (history s index) ≤ heuristic (history m (draws m % 2))))
enqueue_best_example = enqueue_best ms_partial 2 history draws false 2 7 5 0 (omega arith)

-- The second sample has fewer enqueues.
enqueue_runs : (enqueue ms_partial 2 history draws false 2 7 5 0).0 ≡ 1
unfolding enqueue
enqueue_runs = refl

dequeue_runs : dequeue ms_partial 2 history draws false 2 1 0 no_counts ≡ returned 0 9
unfolding dequeue double_collect collect check choose deq_heuristic
dequeue_runs = refl

dequeue_sound_example :
    ((◌≡◌ {A = ℕ} 0 0)
      × ((t : ℕ) × (0 ≤ t) × (t ≤ 9) × ((j : ℕ) → j < 2 → IsEmpty ms_partial (history t j))))
    ⊎ ((◌≢◌ {A = ℕ} 0 0)
        × ((a : ℕ) × (j : ℕ) × (0 ≤ a) × (a ≤ 9) × (j < 2) × (0 ≡ (get (history a j)).0)))
dequeue_sound_example =
    dequeue_sound ms_partial 2 history history-IsHistory draws false 2 1 0 no_counts 0 9
      (omega arith) (omega arith) dequeue_runs
