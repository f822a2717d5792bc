-- ===== src/TwoDd/Window/Bounds.antt =====
-- The two windows and the counts that they bound: an invariant of shared memory, what each thread
-- in `put_window` or `get_window` knows of it, and that every step keeps both.
use semantic_relaxation_dcbo.Prelude.{ℕ, ◌+◌, ◌*◌, ◌≤◌, ◌<◌, ◌≡◌, ◌⊎◌, ◌^◌, Bool, true, false}
use semantic_relaxation_dcbo.TwoDd.Window.{
  Params, Windows, Thread, PutPc, put_read, put_read_rest, put_check, put_shift, put_cae, put_found,
  GetPc, get_read, get_read_rest, get_read_put, get_check, get_shift, get_cae, get_found,
}
use semantic_relaxation_dcbo.TwoDd.Window.Searching.{IsSearching}

-- `puts k` and `gets k` are the counts of sub-structure `k`.
pub record IsBounded (set : Params) (puts gets : ℕ → ℕ) (w : Windows) : Type 0 where
  pub puts_le : (k : ℕ) → k < set.width → puts k ≤ w.put_max
  pub le_puts : (k : ℕ) → k < set.width → w.put_max ≤ puts k + set.depth
  pub gets-le-puts : (k : ℕ) → k < set.width → gets k ≤ puts k
  pub le_gets : (k : ℕ) → k < set.width → w.get_max ≤ gets k + 2 * set.depth
  pub ahead : (r : ℕ) × (w.put_max ≡ w.get_max + r * set.depth)

-- A copy of a descriptor has each count from one of its two loads.
pub record IsSplice {D : Type 0} (put_count get_count : D → ℕ) (splice : D → D → D) : Type 0 where
  pub put_either :
      (d e : D) → (put_count (splice d e) ≡ put_count d) ⊎ (put_count (splice d e) ≡ put_count e)
  pub get_either :
      (d e : D) → (get_count (splice d e) ≡ get_count d) ⊎ (get_count (splice d e) ≡ get_count e)

-- Counts and windows only grow.
pub record Grows (puts gets : ℕ → ℕ) (w : Windows) (puts' gets' : ℕ → ℕ) (w' : Windows)
    : Type 0 where
  pub more_puts : (k : ℕ) → puts k ≤ puts' k
  pub more_gets : (k : ℕ) → gets k ≤ gets' k
  pub put_max : w.put_max ≤ w'.put_max
  pub get_max : w.get_max ≤ w'.get_max

-- The thread's index is in range, in a width that `random_index` can take, and its copies of the
-- windows are not ahead of the windows.
pub record IsBehind (set : Params) (w : Windows) (t : Thread) : Type 0 where
  pub index : t.index < set.width
  pub narrow : set.width < 2 ^ 32
  pub put_max : t.put_max ≤ w.put_max
  pub get_max : t.get_max ≤ w.get_max

abbrev pub AllReach : Params → ℕ → (ℕ → ℕ) → Type 0
AllReach set bound count = (k : ℕ) → k < set.width → bound ≤ count k

module _ {D : Type 0} (put_count get_count : D → ℕ) (set : Params) (puts gets : ℕ → ℕ) (w : Windows)
    (t : Thread) where
  abbrev pub PutKnows : PutPc D → Type 0
  PutKnows (put_read s) = IsSearching set t.put_max puts s t.index
  PutKnows (put_read_rest s d) =
      IsSearching set t.put_max puts s t.index × (put_count d ≤ puts t.index)
  PutKnows (put_check s d) = IsSearching set t.put_max puts s t.index × (put_count d ≤ puts t.index)
  PutKnows (put_shift s) = AllReach set t.put_max puts
  PutKnows (put_cae s) = AllReach set t.put_max puts
  PutKnows (put_found d) = put_count d < w.put_max
  PutKnows _ = Unit

  abbrev pub reached : ℕ → ℕ
  reached k = gets k + set.depth

  pub record GetChecks (d : D) (put : ℕ) : Type 0 where
    pub past : get_count d ≤ gets t.index
    pub below : put ≤ w.put_max
    pub order : get_count d ≤ put
    pub empty : put ≡ get_count d → t.get_max ≤ put + set.depth

  abbrev pub SomeLeft : Bool → Type 0
  SomeLeft true = t.get_max < w.put_max
  SomeLeft false = Unit

  -- What is found is below the thread's window, or every sub-structure was seen within a depth of it.
  abbrev pub TakesWithin : D → Type 0
  TakesWithin d = (get_count d < t.get_max) ⊎ AllReach set t.get_max reached

  abbrev pub GetKnows : GetPc D → Type 0
  GetKnows (get_read s notempty) = IsSearching set t.get_max reached s t.index × SomeLeft notempty
  GetKnows (get_read_rest s notempty d) =
      IsSearching set t.get_max reached s t.index × SomeLeft notempty × (get_count d ≤ gets t.index)
  GetKnows (get_read_put s notempty d) =
      IsSearching set t.get_max reached s t.index × SomeLeft notempty × (get_count d ≤ gets t.index)
  GetKnows (get_check s notempty d put) =
      IsSearching set t.get_max reached s t.index × SomeLeft notempty × GetChecks d put
  GetKnows (get_shift s) = AllReach set t.get_max reached × (t.get_max < w.put_max)
  GetKnows (get_cae s) = AllReach set t.get_max reached × (t.get_max < w.put_max)
  GetKnows (get_found d) = TakesWithin d
  GetKnows _ = Unit
