-- ===== src/TwoDd/Window.antt =====
-- include/2Dd-window.c: `put_window` and `get_window`, one shared access at a time.
-- `put_count` and `get_count` read a descriptor of the data structure that includes the window.
pub mod Searching
pub mod Bounds
pub mod Put
pub mod Get
pub mod Stable
pub mod Carried
pub mod Written
use semantic_relaxation_dcbo.Prelude.{
  ℕ, ◌+◌, ◌%◌, ◌^◌, Bool, false, not, ◌&&◌, ◌||◌, ltb, leb, ◌==◌, if◌then◌else◌,
}

-- The constants of `DS_TYPE` that the window reads.
pub record Params : Type 0 where
  pub width : ℕ
  pub depth : ℕ
  pub random_hops : ℕ

-- `global_PWindow.content.max` and `global_GWindow.content.max`
pub record Windows : Type 0 where
  pub put_max : ℕ
  pub get_max : ℕ

-- `thread_index`, `thread_PWindow.max` and `thread_GWindow.max`
pub record Thread : Type 0 where
  pub index : ℕ
  pub put_max : ℕ
  pub get_max : ℕ

-- The locals `random` and `hops`.
pub record Search : Type 0 where
  pub random : ℕ
  pub hops : ℕ

abbrev pub fresh_search : Search
fresh_search = record { random = 0; hops = 0 }

-- `random_index`, whose `width` is a `uint32_t`; `draw` is the result of `my_random`.
abbrev pub random_index : ℕ → ℕ → ℕ
random_index draw width = draw % (width % 2 ^ 32)

-- `hop` on the thread's index: a random index first, for `random_hops` times, then the next one.
unfoldable pub hop : Params → ℕ → ℕ → Search → ℕ × Search
hop set draw index s =
    if ltb s.random set.random_hops
    then (random_index draw set.width, record s { random = s.random + 1 })
    else ((if leb set.width (index + 1) then 0 else index + 1), record s { hops = s.hops + 1 })

abbrev pub restart : Search → Search
restart s = record s { hops = 0 }

-- Where a thread stands in `put_window`.
pub data PutPc (D : Type 0) : Type 0 where
  put_enter : (contention : Bool) → PutPc D
  put_copy : PutPc D
  put_read : Search → PutPc D
  put_read_rest : Search → D → PutPc D
  put_check : Search → D → PutPc D
  put_shift : Search → PutPc D
  put_cae : Search → PutPc D
  put_resync : Search → PutPc D
  put_found : D → PutPc D

-- Where a thread stands in `get_window`.
pub data GetPc (D : Type 0) : Type 0 where
  get_enter : (contention : Bool) → GetPc D
  get_compare : GetPc D
  get_copy : GetPc D
  get_read : Search → (notempty : Bool) → GetPc D
  get_read_rest : Search → (notempty : Bool) → D → GetPc D
  get_read_put : Search → (notempty : Bool) → D → GetPc D
  get_check : Search → (notempty : Bool) → D → (put_count : ℕ) → GetPc D
  get_shift : Search → GetPc D
  get_cae : Search → GetPc D
  get_resync : Search → GetPc D
  get_found : D → GetPc D

pub record Turn (P : Type 0) : Type 0 where
  pub windows : Windows
  pub thread : Thread
  pub pc : P

-- `if(contention == 1) thread_index = random_index(set->width);`
abbrev pub choose_index : Params → ℕ → Bool → Thread → Thread
choose_index set draw contention t = record t {
  index = if contention then random_index draw set.width else t.index;
}

abbrev pub shifted : Params → ℕ → ℕ
shifted set max = (max + set.depth) % 2 ^ 64

module _ {D : Type 0} (put_count get_count : D → ℕ) (set : Params) where
  -- The branches of the loop of `put_window` on a descriptor and a window that it has read.
  unfoldable pub put_branch : ℕ → Windows → Thread → Search → D → Turn (PutPc D)
  unfolding hop
  put_branch draw w t s d =
      if not (w.put_max == t.put_max)
      then record {
        windows = w;
        thread = record t { put_max = w.put_max };
        pc = put_read (restart s);
      }
      else if ltb (put_count d) w.put_max
      then record { windows = w; thread = t; pc = put_found d }
      else if not (s.hops == set.width)
      then (let (index, s') = hop set draw t.index s in
          record { windows = w; thread = record t { index = index }; pc = put_read s' })
      else record { windows = w; thread = t; pc = put_shift s }

  -- One step of `put_window`; `put_found` is its return. A descriptor is copied in two loads, and
  -- `splice` joins the halves.
  unfoldable pub put_step :
      (splice : D → D → D) → ℕ → (put_array : ℕ → D) → Windows → Thread → PutPc D → Turn (PutPc D)
  unfolding put_branch
  put_step splice draw put_array w t (put_enter contention) = record {
    windows = w;
    thread = choose_index set draw contention t;
    pc = if not (t.put_max == w.put_max) then put_copy else put_read fresh_search;
  }
  put_step splice draw put_array w t put_copy = record {
    windows = w;
    thread = record t { put_max = w.put_max };
    pc = put_read fresh_search;
  }
  put_step splice draw put_array w t (put_read s) = record {
    windows = w;
    thread = t;
    pc = put_read_rest s (put_array t.index);
  }
  put_step splice draw put_array w t (put_read_rest s d) = record {
    windows = w;
    thread = t;
    pc = put_check s (splice d (put_array t.index));
  }
  put_step splice draw put_array w t (put_check s d) = put_branch draw w t s d
  put_step splice draw put_array w t (put_shift s) = record {
    windows = w;
    thread = t;
    pc = if t.put_max == w.put_max then put_cae s else put_resync s;
  }
  put_step splice draw put_array w t (put_cae s) = record {
    windows = if w.put_max == t.put_max then record w { put_max = shifted set t.put_max } else w;
    thread = if w.put_max == t.put_max then t else record t { put_max = w.put_max };
    pc = put_resync s;
  }
  put_step splice draw put_array w t (put_resync s) = record {
    windows = w;
    thread = record t { put_max = w.put_max };
    pc = put_read (restart s);
  }
  put_step splice draw put_array w t (put_found d) = record {
    windows = w;
    thread = t;
    pc = put_found d;
  }

  -- The branches of the loop of `get_window`.
  unfoldable pub get_branch : ℕ → Windows → Thread → Search → Bool → D → ℕ → Turn (GetPc D)
  unfolding hop
  get_branch draw w t s notempty d puts =
      if not (w.get_max == t.get_max)
      then record {
        windows = w;
        thread = record t { get_max = w.get_max };
        pc = get_read (restart s) false;
      }
      else if ltb (get_count d) w.get_max && not (puts == get_count d)
      then record { windows = w; thread = t; pc = get_found d }
      else if not (s.hops == set.width)
      then (let (index, s') = hop set draw t.index s in
          record {
            windows = w;
            thread = record t { index = index };
            pc = get_read s' (notempty || not (puts == get_count d));
          })
      else if notempty
      then record { windows = w; thread = t; pc = get_shift s }
      else record { windows = w; thread = t; pc = get_found d }

  -- One step of `get_window`; `get_found` is its return.
  unfoldable pub get_step :
      (splice : D → D → D)
      → ℕ
      → (put_array get_array : ℕ → D) → Windows
      → Thread
      → GetPc D
      → Turn (GetPc D)
  unfolding get_branch
  get_step splice draw put_array get_array w t (get_enter contention) = record {
    windows = w;
    thread = choose_index set draw contention (record t { get_max = w.get_max });
    pc = get_compare;
  }
  get_step splice draw put_array get_array w t get_compare = record {
    windows = w;
    thread = t;
    pc = if not (t.get_max == w.get_max) then get_copy else get_read fresh_search false;
  }
  get_step splice draw put_array get_array w t get_copy = record {
    windows = w;
    thread = record t { get_max = w.get_max };
    pc = get_read fresh_search false;
  }
  get_step splice draw put_array get_array w t (get_read s notempty) = record {
    windows = w;
    thread = t;
    pc = get_read_rest s notempty (get_array t.index);
  }
  get_step splice draw put_array get_array w t (get_read_rest s notempty d) = record {
    windows = w;
    thread = t;
    pc = get_read_put s notempty (splice d (get_array t.index));
  }
  get_step splice draw put_array get_array w t (get_read_put s notempty d) = record {
    windows = w;
    thread = t;
    pc = get_check s notempty d (put_count (put_array t.index));
  }
  get_step splice draw put_array get_array w t (get_check s notempty d puts) =
      get_branch draw w t s notempty d puts
  get_step splice draw put_array get_array w t (get_shift s) = record {
    windows = w;
    thread = t;
    pc = if t.get_max == w.get_max then get_cae s else get_resync s;
  }
  get_step splice draw put_array get_array w t (get_cae s) = record {
    windows = if w.get_max == t.get_max then record w { get_max = shifted set t.get_max } else w;
    thread = if w.get_max == t.get_max then t else record t { get_max = w.get_max };
    pc = get_resync s;
  }
  get_step splice draw put_array get_array w t (get_resync s) = record {
    windows = w;
    thread = record t { get_max = w.get_max };
    pc = get_read (restart s) false;
  }
  get_step splice draw put_array get_array w t (get_found d) = record {
    windows = w;
    thread = t;
    pc = get_found d;
  }

-- `initialize_global_window`
abbrev pub initialize_global_window : ℕ → Windows
initialize_global_window depth = record { put_max = depth; get_max = depth }
