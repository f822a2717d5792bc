-- ===== src/TwoDd/Stack/Counts.antt =====
-- The counts of the descriptors of src/2Dd-stack, and what a thread knows of them.
use semantic_relaxation_dcbo.Prelude.{ℕ, suc, ◌+◌, ◌≤◌, ◌<◌, ◌≡◌, ◌≢◌, true, arith}
use semantic_relaxation_dcbo.Nodes.Stacks.{Event, no_event, pushed_on, popped_off}
use semantic_relaxation_dcbo.TwoDd.Window.{Params, Thread, get_found}
use semantic_relaxation_dcbo.TwoDd.Window.Bounds.{
  IsBounded, Grows, IsBehind, PutKnows, GetKnows, TakesWithin,
}
use semantic_relaxation_dcbo.TwoDd.Window.Stable.{IsBehind-mono, PutKnows-mono, GetKnows-mono}
use semantic_relaxation_dcbo.TwoDd.Stack.{
  Descriptor, same_descriptor, put_count_of, get_count_of, Shared, StackPc, pushing, push_cae,
  popping, pop_cae, Local,
}
use semantic_relaxation_dcbo.TwoDd.Stack.Refine.{event}

abbrev pub puts_of : Shared → ℕ → ℕ
puts_of s k = (s.array k).put_count

abbrev pub gets_of : Shared → ℕ → ℕ
gets_of s k = (s.array k).get_count

-- What an event does to the counts.
abbrev pub Counted : Event → Shared → Shared → Type 0
Counted no_event s s' =
    ((k : ℕ) → puts_of s' k ≡ puts_of s k) × ((k : ℕ) → gets_of s' k ≡ gets_of s k)
Counted (pushed_on i v) s s' =
    (puts_of s' i ≡ puts_of s i + 1)
    × ((k : ℕ) → k ≢ i → puts_of s' k ≡ puts_of s k)
    × ((k : ℕ) → gets_of s' k ≡ gets_of s k)
Counted (popped_off i v) s s' =
    (gets_of s' i ≡ gets_of s i + 1)
    × ((k : ℕ) → k ≢ i → gets_of s' k ≡ gets_of s k)
    × ((k : ℕ) → puts_of s' k ≡ puts_of s k)

-- After `n` turns no stack has been pushed on more than `n` times.
pub record IsCounted (set : Params) (n : ℕ) (s : Shared) : Type 0 where
  pub bounded : IsBounded set (puts_of s) (gets_of s) s.windows
  pub few : (k : ℕ) → puts_of s k ≤ n

abbrev pub CountKnows : Params → Shared → Thread → StackPc → Type 0
CountKnows set s t (pushing new_node pc) =
    PutKnows put_count_of get_count_of set (puts_of s) (gets_of s) s.windows t pc
CountKnows set s t (push_cae new_node d) = d.put_count < s.windows.put_max
CountKnows set s t (popping pc) =
    GetKnows put_count_of get_count_of set (puts_of s) (gets_of s) s.windows t pc
CountKnows set s t (pop_cae d next) =
    TakesWithin put_count_of get_count_of set (puts_of s) (gets_of s) s.windows t d
CountKnows set s t _ = Unit

pub record LocalCounts (set : Params) (s : Shared) (l : Local) : Type 0 where
  pub behind : IsBehind set s.windows l.thread
  pub knows : CountKnows set s l.thread l.pc

abbrev pub GrowsTo : Shared → Shared → Type 0
GrowsTo s s' = Grows (puts_of s) (gets_of s) s.windows (puts_of s') (gets_of s') s'.windows

-- What a turn keeps of the counts.
pub record CountKept (set : Params) (n : ℕ) (s : Shared) (l : Local) (r : Shared × Local)
    : Type 0 where
  pub counted : IsCounted set (suc n) r.0
  pub known : LocalCounts set r.0 r.1
  pub grows : GrowsTo s r.0
  pub counts : Counted (event s l r.1) s r.0

pub same_descriptor→eq :
    (d e : Descriptor)
    → same_descriptor d e ≡ true
    → (d.node ≡ e.node) × (d.put_count ≡ e.put_count) × (d.get_count ≡ e.get_count)
same_descriptor→eq d e h = (ground arith, ground arith, ground arith)

-- What a thread knows is kept when another thread takes a turn.
pub LocalCounts-mono :
    (set : Params) (s s' : Shared)
    → GrowsTo s s'
    → (l : Local) → LocalCounts set s l
    → LocalCounts set s' l
LocalCounts-mono set s s' g l k = record {
  behind =
      IsBehind-mono put_count_of get_count_of set (puts_of s) (gets_of s) (puts_of s') (gets_of s')
        s.windows s'.windows g l.thread k.behind;
  knows = CountKnows-mono l.pc k.knows;
}
  where
    CountKnows-mono : (pc : StackPc) → CountKnows set s l.thread pc → CountKnows set s' l.thread pc
    CountKnows-mono (pushing new_node pc) h =
        PutKnows-mono put_count_of get_count_of set (puts_of s) (gets_of s) (puts_of s')
          (gets_of s') s.windows s'.windows g l.thread pc h
    CountKnows-mono (push_cae new_node d) h = omega (arith, g.put_max)
    CountKnows-mono (popping pc) h =
        GetKnows-mono put_count_of get_count_of set (puts_of s) (gets_of s) (puts_of s')
          (gets_of s') s.windows s'.windows g l.thread pc h
    CountKnows-mono (pop_cae d next) h =
        GetKnows-mono put_count_of get_count_of set (puts_of s) (gets_of s) (puts_of s')
          (gets_of s') s.windows s'.windows g l.thread (get_found d) h
    CountKnows-mono pc h = tt
