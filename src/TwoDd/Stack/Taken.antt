-- ===== src/TwoDd/Stack/Taken.antt =====
-- Where a pop of src/2Dd-stack takes a node off.
use semantic_relaxation_dcbo.Prelude.{◌+◌, ◌<◌, ◌≡◌, ◌⊎◌}
use semantic_relaxation_dcbo.TwoDd.Window.{Params}
use semantic_relaxation_dcbo.TwoDd.Window.Bounds.{AllReach}
use semantic_relaxation_dcbo.TwoDd.Stack.{Shared, Local}
use semantic_relaxation_dcbo.TwoDd.Stack.Counts.{gets_of}

-- The thread whose turn it is pops the stack at its index: below the get window, or with every stack
-- within a depth of the thread's window.
abbrev pub PopsOne : Params → Shared → Local → Shared → Type 0
PopsOne set s l s' =
    (gets_of s' l.thread.index ≡ gets_of s l.thread.index + 1)
    × ((gets_of s l.thread.index < s.windows.get_max)
        ⊎ AllReach set l.thread.get_max (λ k. gets_of s k + set.depth))
