-- ===== src/Cas/Tests.antt =====
-- Runs of the single counter, and the theorem at a concrete schedule.
use semantic_relaxation_dcbo.Prelude.{ℕ, ◌≡◌, true, false, List, [], ◌∷◌, ◌++◌, some, refl}
use semantic_relaxation_dcbo.Machine.{turn, turns}
use semantic_relaxation_dcbo.Cas.{create_counter, run_counter, step}
use semantic_relaxation_dcbo.Cas.Refine.{
  incrementing, decrementing, found_empty, replay, history, cas_counter-Replays,
}

-- Two threads increment at once, so that the second must load again; then one of them decrements.
abbrev contended : List (ℕ × ℕ)
contended = turns 0 0 2 ++ turns 1 0 2 ++ turns 0 0 1 ++ turns 1 0 3 ++ turns 0 1 4

history-contended :
    history false contended create_counter ≡ incrementing 1 ∷ incrementing 2 ∷ decrementing 1 ∷ []
unfolding history turn step
history-contended = refl

history-empty : history true (turns 0 1 2) create_counter ≡ found_empty ∷ []
unfolding history turn step
history-empty = refl

cas_counter-Replays_example :
    replay false (history false contended create_counter) 0
    ≡ some (run_counter false contended).shared
cas_counter-Replays_example = cas_counter-Replays false contended
