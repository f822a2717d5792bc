-- ===== src/TwoDd/Window/Get.antt =====
-- Every step of `get_window` keeps the bounds, and what the thread knows.
use semantic_relaxation_dcbo.Prelude.{
  ℕ, zero, suc, ◌+◌, ◌*◌, ◌%◌, ◌^◌, ◌≤◌, ◌<◌, ◌≡◌, Bool, true, false, not, ◌&&◌, ◌||◌, arith, refl,
  inl, inr, ltb, ◌==◌, Bool-cases, ==→eq, ==→ne,
}
use semantic_relaxation_dcbo.TwoDd.Window.{
  Params, Windows, Thread, Turn, Search, GetPc, get_enter, get_compare, get_copy, get_read,
  get_read_rest, get_read_put, get_check, get_shift, get_cae, get_resync, get_found, get_step,
  get_branch, fresh_search, restart, hop, choose_index, shifted,
}
use semantic_relaxation_dcbo.TwoDd.Window.Searching.{
  IsSearching, random_index-lt, restart-IsSearching, hop-IsSearching, seen_all,
}
use semantic_relaxation_dcbo.TwoDd.Window.Bounds.{
  IsBounded, IsBehind, GetKnows, GetChecks, SomeLeft, AllReach, reached, IsSplice,
}

module _ {D : Type 0} (put_count get_count : D → ℕ) (set : Params) (puts gets : ℕ → ℕ) where
  pub record GetKept (w : Windows) (r : Turn (GetPc D)) : Type 0 where
    pub bounded : IsBounded set puts gets r.windows
    pub behind : IsBehind set r.windows r.thread
    pub knows : GetKnows put_count get_count set puts gets r.windows r.thread r.pc
    pub grows : w.get_max ≤ r.windows.get_max
    pub put_same : r.windows.put_max ≡ w.put_max

  module _ (w : Windows) (t : Thread) (bounded : IsBounded set puts gets w)
      (behind : IsBehind set w t) where
    -- A step that leaves the windows alone.
    unmoved :
        (t' : Thread) (pc : GetPc D)
        → IsBehind set w t'
        → GetKnows put_count get_count set puts gets w t' pc
        → GetKept w (record { windows = w; thread = t'; pc = pc })
    unmoved t' pc b k = record {
      bounded = bounded;
      behind = b;
      knows = k;
      grows = omega arith;
      put_same = refl;
    }

    synced : Thread
    synced = record t { get_max = w.get_max }

    synced-IsBehind : IsBehind set w synced
    unfolding synced
    synced-IsBehind = record {
      index = behind.index;
      narrow = behind.narrow;
      put_max = behind.put_max;
      get_max = omega arith;
    }

    -- A sub-structure that is passed has reached the window, up to one depth if it is empty.
    passed :
        (d : D) (put : ℕ)
        → w.get_max ≡ t.get_max
        → (ltb (get_count d) w.get_max && not (put == get_count d)) ≡ false
        → GetChecks put_count get_count set puts gets w t d put
        → t.get_max ≤ gets t.index + set.depth
    passed d put e no_item c = ground (arith, c.empty)

    left :
        (d : D) (put : ℕ) (notempty : Bool)
        → w.get_max ≡ t.get_max
        → (ltb (get_count d) w.get_max && not (put == get_count d)) ≡ false
        → GetChecks put_count get_count set puts gets w t d put
        → SomeLeft put_count get_count set puts gets w t notempty
        → SomeLeft put_count get_count set puts gets w t (notempty || not (put == get_count d))
    left d put true e no_item c l = l
    left d put false e no_item c l = elim (Bool-cases (put == get_count d)) [
      | inl same ↦ rw same tt
      | inr more ↦ rw more (ground arith)
    ]

    left_true :
        (notempty : Bool)
        → notempty ≡ true
        → SomeLeft put_count get_count set puts gets w t notempty
        → t.get_max < w.put_max
    left_true true e l = l
    left_true false e l = cc

    below_window :
        (d : D) (put : ℕ)
        → w.get_max ≡ t.get_max
        → (ltb (get_count d) w.get_max && not (put == get_count d)) ≡ true
        → get_count d < t.get_max
    below_window d put e found = ground arith

    get_branch-kept :
        (draw : ℕ) (s : Search) (notempty : Bool) (d : D) (put : ℕ)
        → IsSearching set t.get_max (reached put_count get_count set puts gets w t) s t.index
        → SomeLeft put_count get_count set puts gets w t notempty
        → GetChecks put_count get_count set puts gets w t d put
        → GetKept w (get_branch put_count get_count set draw w t s notempty d put)
    unfolding get_branch synced
    get_branch-kept draw s notempty d put v l c = elim (Bool-cases (w.get_max == t.get_max)) [
      | inr e ↦
          rw (e, get_branch)
            (unmoved synced (get_read (restart s) false) synced-IsBehind
              (restart-IsSearching _ _ refl, tt))
      | inl e ↦ elim (Bool-cases (ltb (get_count d) w.get_max && not (put == get_count d))) [
        | inl found ↦
            rw (e, found, get_branch)
              (unmoved t (get_found d) behind (inl (below_window d put (==→eq _ _ e) found)))
        | inr pass ↦ elim (Bool-cases (s.hops == set.width)) [
          | inr more ↦
              rw (e, pass, more, get_branch)
                (let next =
                    hop-IsSearching draw s t.index v (passed d put (==→eq _ _ e) pass c)
                      (==→ne _ _ more) behind.index behind.narrow in
                  unmoved (record t { index = (hop set draw t.index s).0 })
                    (get_read (hop set draw t.index s).1 (notempty || not (put == get_count d)))
                    (record {
                      index = next.1;
                      narrow = behind.narrow;
                      put_max = behind.put_max;
                      get_max = behind.get_max;
                    })
                    (next.0, left d put notempty (==→eq _ _ e) pass c l))
          | inl all ↦ elim (Bool-cases notempty) [
            | inl some_left ↦
                rw (e, pass, all, some_left, get_branch)
                  (unmoved t (get_shift s) behind (
                    seen_all s t.index v (==→eq _ _ all) behind.index,
                    left_true notempty some_left l,
                  ))
            | inr none_left ↦
                rw (e, pass, all, none_left, get_branch)
                  (unmoved t (get_found d) behind
                    (inr (seen_all s t.index v (==→eq _ _ all) behind.index)))
          ]
        ]
      ]
    ]

    chosen-IsBehind :
        (draw : ℕ) (contention : Bool) → IsBehind set w (choose_index set draw contention synced)
    unfolding synced
    chosen-IsBehind draw true = record {
      index = random_index-lt draw set.width (omega (arith, behind.index)) behind.narrow;
      narrow = behind.narrow;
      put_max = behind.put_max;
      get_max = omega arith;
    }
    chosen-IsBehind draw false = synced-IsBehind

    moved : Windows
    moved = record w { get_max = shifted set t.get_max }

    one_depth_less :
        (r : ℕ)
        → w.put_max ≡ w.get_max + r * set.depth
        → w.get_max < w.put_max
        → (r' : ℕ) × (w.put_max ≡ w.get_max + set.depth + r' * set.depth)
    one_depth_less zero e lt = absurd (omega (arith, e))
    one_depth_less (suc r) e lt = (r, grind (arith, e))

    -- The window moves only when every sub-structure has reached it or was seen empty, and when
    -- some item is left above it.
    moved-IsBounded :
        w.put_max + set.depth < 2 ^ 64
        → AllReach set t.get_max (reached put_count get_count set puts gets w t)
        → t.get_max < w.put_max
        → w.get_max ≡ t.get_max
        → IsBounded set puts gets moved × (w.get_max ≤ moved.get_max)
    unfolding moved
    moved-IsBounded fits reach lt e =
        let less = one_depth_less bounded.ahead.0 bounded.ahead.1 (omega arith) in
        let no_wrap : (t.get_max + set.depth) % 2 ^ 64 ≡ w.get_max + set.depth =
          ground (arith, less.1) in
        (
          record {
            puts_le = bounded.puts_le;
            le_puts = bounded.le_puts;
            gets-le-puts = bounded.gets-le-puts;
            le_gets = λ k lt. ground (arith, reach k lt, no_wrap);
            ahead = (less.0, ground (arith, less.1, no_wrap));
          },
          omega (arith, no_wrap),
        )

    pub get_step-kept :
        (splice : D → D → D) (draw : ℕ) (put_array get_array : ℕ → D) (pc : GetPc D)
        → IsSplice put_count get_count splice
        → ((k : ℕ) → put_count (put_array k) ≡ puts k)
        → ((k : ℕ) → get_count (get_array k) ≡ gets k)
        → w.put_max + set.depth < 2 ^ 64
        → GetKnows put_count get_count set puts gets w t pc
        → GetKept w (get_step put_count get_count set splice draw put_array get_array w t pc)
    unfolding get_step synced moved
    get_step-kept splice draw put_array get_array (get_enter contention) sp puts_are gets_are fits
          k =
        unmoved _ get_compare (chosen-IsBehind draw contention) tt
    get_step-kept splice draw put_array get_array get_compare sp puts_are gets_are fits k =
        elim (Bool-cases (t.get_max == w.get_max)) [
          | inl e ↦
              rw (e, get_step)
                (unmoved t (get_read fresh_search false) behind (restart-IsSearching _ _ refl, tt))
          | inr e ↦ rw (e, get_step) (unmoved t get_copy behind tt)
        ]
    get_step-kept splice draw put_array get_array get_copy sp puts_are gets_are fits k =
        unmoved synced (get_read fresh_search false) synced-IsBehind
          (restart-IsSearching _ _ refl, tt)
    get_step-kept splice draw put_array get_array (get_read s notempty) sp puts_are gets_are fits
          k =
        unmoved t (get_read_rest s notempty (get_array t.index)) behind
          (k.0, k.1, omega (arith, gets_are t.index))
    get_step-kept splice draw put_array get_array (get_read_rest s notempty d) sp puts_are gets_are
          fits k =
        unmoved t (get_read_put s notempty (splice d (get_array t.index))) behind
          (k.0, k.1, omega (arith, gets_are t.index, sp.get_either d (get_array t.index)))
    get_step-kept splice draw put_array get_array (get_read_put s notempty d) sp puts_are gets_are
          fits k =
        unmoved t (get_check s notempty d (put_count (put_array t.index))) behind (
          k.0,
          k.1,
          record {
            past = k.2;
            below = ground (arith, puts_are t.index, bounded.puts_le t.index behind.index);
            order = ground (arith, puts_are t.index, bounded.gets-le-puts t.index behind.index);
            empty = λ _. omega (
              arith,
              puts_are t.index,
              bounded.le_puts t.index behind.index,
              bounded.ahead.1,
              behind.get_max,
            );
          },
        )
    get_step-kept splice draw put_array get_array (get_check s notempty d put) sp puts_are gets_are
          fits k =
        get_branch-kept draw s notempty d put k.0 k.1 k.2
    get_step-kept splice draw put_array get_array (get_shift s) sp puts_are gets_are fits k =
        elim (Bool-cases (t.get_max == w.get_max)) [
          | inl e ↦ rw (e, get_step) (unmoved t (get_cae s) behind k)
          | inr e ↦ rw (e, get_step) (unmoved t (get_resync s) behind tt)
        ]
    get_step-kept splice draw put_array get_array (get_cae s) sp puts_are gets_are fits k =
        elim (Bool-cases (w.get_max == t.get_max)) [
          | inl e ↦
              rw (e, get_step)
                (let m = moved-IsBounded fits k.0 k.1 (==→eq _ _ e) in
                  record {
                    bounded = m.0;
                    behind = record {
                      index = behind.index;
                      narrow = behind.narrow;
                      put_max = behind.put_max;
                      get_max = omega (arith, m.1, behind.get_max);
                    };
                    knows = tt;
                    grows = m.1;
                    put_same = refl;
                  })
          | inr e ↦ rw (e, get_step) (unmoved synced (get_resync s) synced-IsBehind tt)
        ]
    get_step-kept splice draw put_array get_array (get_resync s) sp puts_are gets_are fits k =
        unmoved synced (get_read (restart s) false) synced-IsBehind
          (restart-IsSearching _ _ refl, tt)
    get_step-kept splice draw put_array get_array (get_found d) sp puts_are gets_are fits k =
        unmoved t (get_found d) behind k
