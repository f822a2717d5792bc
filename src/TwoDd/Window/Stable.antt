-- ===== src/TwoDd/Window/Stable.antt =====
-- What a thread knows stays true while the others go on: counts and windows only grow.
use semantic_relaxation_dcbo.Prelude.{inl, inr, ℕ, ◌+◌, ◌≤◌, arith, Bool, true, false}
use semantic_relaxation_dcbo.TwoDd.Window.{
  Params, Windows, Thread, Search, PutPc, put_enter, put_copy, put_read, put_read_rest, put_check,
  put_shift, put_cae, put_resync, put_found, GetPc, get_enter, get_compare, get_copy, get_read,
  get_read_rest, get_read_put, get_check, get_shift, get_cae, get_resync, get_found,
}
use semantic_relaxation_dcbo.TwoDd.Window.Searching.{IsSearching}
use semantic_relaxation_dcbo.TwoDd.Window.Bounds.{IsBehind, Grows, PutKnows, GetKnows, SomeLeft}

IsSearching-mono :
    (set : Params) (bound : ℕ) (count count' : ℕ → ℕ) (s : Search) (index : ℕ)
    → ((k : ℕ) → count k ≤ count' k)
    → IsSearching set bound count s index
    → IsSearching set bound count' s index
IsSearching-mono set bound count count' s index more v = record {
  few = v.few;
  random_first = v.random_first;
  seen = λ k lt near. omega (arith, v.seen k lt near, more k);
}

module _ {D : Type 0} (put_count get_count : D → ℕ) (set : Params) (puts gets puts' gets' : ℕ → ℕ)
    (w w' : Windows) (g : Grows puts gets w puts' gets' w') (t : Thread) where
  pub IsBehind-mono : IsBehind set w t → IsBehind set w' t
  IsBehind-mono b = record {
    index = b.index;
    narrow = b.narrow;
    put_max = omega (arith, b.put_max, g.put_max);
    get_max = omega (arith, b.get_max, g.get_max);
  }

  pub PutKnows-mono :
      (pc : PutPc D)
      → PutKnows put_count get_count set puts gets w t pc
      → PutKnows put_count get_count set puts' gets' w' t pc
  PutKnows-mono (put_enter contention) k = tt
  PutKnows-mono put_copy k = tt
  PutKnows-mono (put_read s) k = IsSearching-mono set _ puts puts' s _ g.more_puts k
  PutKnows-mono (put_read_rest s d) k =
      (IsSearching-mono set _ puts puts' s _ g.more_puts k.0, omega (arith, g.more_puts t.index))
  PutKnows-mono (put_check s d) k =
      (IsSearching-mono set _ puts puts' s _ g.more_puts k.0, omega (arith, g.more_puts t.index))
  PutKnows-mono (put_shift s) k = λ i lt. omega (arith, k i lt, g.more_puts i)
  PutKnows-mono (put_cae s) k = λ i lt. omega (arith, k i lt, g.more_puts i)
  PutKnows-mono (put_resync s) k = tt
  PutKnows-mono (put_found d) k = omega (arith, g.put_max)

  SomeLeft-mono :
      (notempty : Bool)
      → SomeLeft put_count get_count set puts gets w t notempty
      → SomeLeft put_count get_count set puts' gets' w' t notempty
  SomeLeft-mono true l = omega (arith, g.put_max)
  SomeLeft-mono false l = tt

  more_reached : (k : ℕ) → gets k + set.depth ≤ gets' k + set.depth
  more_reached k = omega (arith, g.more_gets k)

  pub GetKnows-mono :
      (pc : GetPc D)
      → GetKnows put_count get_count set puts gets w t pc
      → GetKnows put_count get_count set puts' gets' w' t pc
  GetKnows-mono (get_enter contention) k = tt
  GetKnows-mono get_compare k = tt
  GetKnows-mono get_copy k = tt
  GetKnows-mono (get_read s notempty) k =
      (IsSearching-mono set _ _ _ s _ more_reached k.0, SomeLeft-mono notempty k.1)
  GetKnows-mono (get_read_rest s notempty d) k = (
    IsSearching-mono set _ _ _ s _ more_reached k.0,
    SomeLeft-mono notempty k.1,
    omega (arith, g.more_gets t.index),
  )
  GetKnows-mono (get_read_put s notempty d) k = (
    IsSearching-mono set _ _ _ s _ more_reached k.0,
    SomeLeft-mono notempty k.1,
    omega (arith, g.more_gets t.index),
  )
  GetKnows-mono (get_check s notempty d put) k = (
    IsSearching-mono set _ _ _ s _ more_reached k.0,
    SomeLeft-mono notempty k.1,
    record {
      past = omega (arith, k.2.past, g.more_gets t.index);
      below = omega (arith, k.2.below, g.put_max);
      order = k.2.order;
      empty = k.2.empty;
    },
  )
  GetKnows-mono (get_shift s) k =
      (λ i lt. omega (arith, k.0 i lt, g.more_gets i), omega (arith, k.1, g.put_max))
  GetKnows-mono (get_cae s) k =
      (λ i lt. omega (arith, k.0 i lt, g.more_gets i), omega (arith, k.1, g.put_max))
  GetKnows-mono (get_resync s) k = tt
  GetKnows-mono (get_found d) (inl below) = inl below
  GetKnows-mono (get_found d) (inr reach) = inr (λ i lt. omega (arith, reach i lt, g.more_gets i))
