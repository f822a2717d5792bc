-- ===== src/TwoDd/Window/Put.antt =====
-- Every step of `put_window` keeps the bounds, and what the thread knows.
use semantic_relaxation_dcbo.Prelude.{
  ℕ, ◌+◌, ◌^◌, ◌≤◌, ◌<◌, ◌≡◌, Bool, true, false, arith, refl, inl, inr, ltb, ◌==◌, Bool-cases,
  ==→eq, ==→ne, ltb→lt, ltb→ge,
}
use semantic_relaxation_dcbo.TwoDd.Window.{
  Params, Windows, Thread, Turn, Search, PutPc, put_enter, put_copy, put_read, put_read_rest,
  put_check, put_shift, put_cae, put_resync, put_found, put_step, put_branch, fresh_search, restart,
  hop, choose_index, shifted,
}
use semantic_relaxation_dcbo.TwoDd.Window.Searching.{
  IsSearching, random_index-lt, restart-IsSearching, hop-IsSearching, seen_all,
}
use semantic_relaxation_dcbo.TwoDd.Window.Bounds.{IsBounded, IsBehind, PutKnows, AllReach, IsSplice}

module _ {D : Type 0} (put_count get_count : D → ℕ) (set : Params) (puts gets : ℕ → ℕ) where
  pub record PutKept (w : Windows) (r : Turn (PutPc D)) : Type 0 where
    pub bounded : IsBounded set puts gets r.windows
    pub behind : IsBehind set r.windows r.thread
    pub knows : PutKnows put_count get_count set puts gets r.windows r.thread r.pc
    pub grows : w.put_max ≤ r.windows.put_max
    pub get_same : r.windows.get_max ≡ w.get_max

  module _ (w : Windows) (t : Thread) (bounded : IsBounded set puts gets w)
      (behind : IsBehind set w t) where
    -- A step that leaves the windows alone.
    unmoved :
        (t' : Thread) (pc : PutPc D)
        → IsBehind set w t'
        → PutKnows put_count get_count set puts gets w t' pc
        → PutKept w (record { windows = w; thread = t'; pc = pc })
    unmoved t' pc b k = record {
      bounded = bounded;
      behind = b;
      knows = k;
      grows = omega arith;
      get_same = refl;
    }

    synced : Thread
    synced = record t { put_max = w.put_max }

    synced-IsBehind : IsBehind set w synced
    unfolding synced
    synced-IsBehind = record {
      index = behind.index;
      narrow = behind.narrow;
      put_max = omega arith;
      get_max = behind.get_max;
    }

    put_branch-kept :
        (draw : ℕ) (s : Search) (d : D)
        → IsSearching set t.put_max puts s t.index
        → put_count d ≤ puts t.index
        → PutKept w (put_branch put_count get_count set draw w t s d)
    unfolding put_branch synced
    put_branch-kept draw s d v past = elim (Bool-cases (w.put_max == t.put_max)) [
      | inr e ↦
          rw (e, put_branch)
            (unmoved synced (put_read (restart s)) synced-IsBehind (restart-IsSearching _ _ refl))
      | inl e ↦ elim (Bool-cases (ltb (put_count d) w.put_max)) [
        | inl found ↦ rw (e, found, put_branch) (unmoved t (put_found d) behind (ltb→lt _ _ found))
        | inr full ↦ elim (Bool-cases (s.hops == set.width)) [
          | inr more ↦
              rw (e, full, more, put_branch)
                (let next =
                    hop-IsSearching draw s t.index v (omega (arith, ==→eq _ _ e, ltb→ge _ _ full))
                      (==→ne _ _ more) behind.index behind.narrow in
                  unmoved (record t { index = (hop set draw t.index s).0 }) _
                    (record {
                      index = next.1;
                      narrow = behind.narrow;
                      put_max = behind.put_max;
                      get_max = behind.get_max;
                    })
                    next.0)
          | inl all ↦
              rw (e, full, all, put_branch)
                (unmoved t (put_shift s) behind (seen_all s t.index v (==→eq _ _ all) behind.index))
        ]
      ]
    ]

    chosen-IsBehind :
        (draw : ℕ) (contention : Bool) → IsBehind set w (choose_index set draw contention t)
    chosen-IsBehind draw true = record {
      index = random_index-lt draw set.width (omega (arith, behind.index)) behind.narrow;
      narrow = behind.narrow;
      put_max = behind.put_max;
      get_max = behind.get_max;
    }
    chosen-IsBehind draw false = behind

    moved : Windows
    moved = record w { put_max = shifted set t.put_max }

    -- The window moves only when every sub-structure has reached it.
    moved-IsBounded :
        w.put_max + set.depth < 2 ^ 64
        → AllReach set t.put_max puts
        → w.put_max ≡ t.put_max
        → IsBounded set puts gets moved × (w.put_max ≤ moved.put_max)
    unfolding moved
    moved-IsBounded fits reach e = (
      record {
        puts_le = λ k lt. ground (arith, bounded.puts_le k lt);
        le_puts = λ k lt. ground (arith, reach k lt);
        gets-le-puts = bounded.gets-le-puts;
        le_gets = bounded.le_gets;
        ahead = (bounded.ahead.0 + 1, grind (arith, bounded.ahead.1));
      },
      omega arith,
    )

    pub put_step-kept :
        (splice : D → D → D) (draw : ℕ) (put_array : ℕ → D) (pc : PutPc D)
        → IsSplice put_count get_count splice
        → ((k : ℕ) → put_count (put_array k) ≡ puts k)
        → w.put_max + set.depth < 2 ^ 64
        → PutKnows put_count get_count set puts gets w t pc
        → PutKept w (put_step put_count get_count set splice draw put_array w t pc)
    unfolding put_step synced moved
    put_step-kept splice draw put_array (put_enter contention) sp agree fits k =
        elim (Bool-cases (t.put_max == w.put_max)) [
          | inl e ↦
              rw (e, put_step)
                (unmoved _ (put_read fresh_search) (chosen-IsBehind draw contention)
                  (restart-IsSearching _ _ refl))
          | inr e ↦ rw (e, put_step) (unmoved _ put_copy (chosen-IsBehind draw contention) tt)
        ]
    put_step-kept splice draw put_array put_copy sp agree fits k =
        unmoved synced (put_read fresh_search) synced-IsBehind (restart-IsSearching _ _ refl)
    put_step-kept splice draw put_array (put_read s) sp agree fits k =
        unmoved t (put_read_rest s (put_array t.index)) behind (k, omega (arith, agree t.index))
    put_step-kept splice draw put_array (put_read_rest s d) sp agree fits k =
        unmoved t (put_check s (splice d (put_array t.index))) behind
          (k.0, omega (arith, agree t.index, sp.put_either d (put_array t.index)))
    put_step-kept splice draw put_array (put_check s d) sp agree fits k =
        put_branch-kept draw s d k.0 k.1
    put_step-kept splice draw put_array (put_shift s) sp agree fits k =
        elim (Bool-cases (t.put_max == w.put_max)) [
          | inl e ↦ rw (e, put_step) (unmoved t (put_cae s) behind k)
          | inr e ↦ rw (e, put_step) (unmoved t (put_resync s) behind tt)
        ]
    put_step-kept splice draw put_array (put_cae s) sp agree fits k =
        elim (Bool-cases (w.put_max == t.put_max)) [
          | inl e ↦
              rw (e, put_step)
                (let m = moved-IsBounded fits k (==→eq _ _ e) in
                  record {
                    bounded = m.0;
                    behind = record {
                      index = behind.index;
                      narrow = behind.narrow;
                      put_max = omega (arith, m.1, behind.put_max);
                      get_max = behind.get_max;
                    };
                    knows = tt;
                    grows = m.1;
                    get_same = refl;
                  })
          | inr e ↦ rw (e, put_step) (unmoved synced (put_resync s) synced-IsBehind tt)
        ]
    put_step-kept splice draw put_array (put_resync s) sp agree fits k =
        unmoved synced (put_read (restart s)) synced-IsBehind (restart-IsSearching _ _ refl)
    put_step-kept splice draw put_array (put_found d) sp agree fits k =
        unmoved t (put_found d) behind k
