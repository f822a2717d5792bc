-- ===== src/TwoDd/Counter/Taken.antt =====
-- Where a decrement of src/2Dd-counter takes one.
use semantic_relaxation_dcbo.Prelude.{◌+◌, ◌<◌, ◌≡◌, ◌⊎◌}
use semantic_relaxation_dcbo.TwoDd.Window.{Params}
use semantic_relaxation_dcbo.TwoDd.Window.Bounds.{AllReach}
use semantic_relaxation_dcbo.TwoDd.Counter.{Shared, Local}
use semantic_relaxation_dcbo.TwoDd.Counter.Invariant.{gets_of}

-- The thread whose turn it is takes one from the sub-counter at its index: below the get window, or
-- with every sub-counter within a depth of the thread's window.
abbrev pub TakesOne : Params → Shared → Local → Shared → Type 0
TakesOne set s l s' =
    (gets_of s' l.thread.index ≡ gets_of s l.thread.index + 1)
    × ((gets_of s l.thread.index < s.windows.get_max)
        ⊎ AllReach set l.thread.get_max (λ k. gets_of s k + set.depth))
