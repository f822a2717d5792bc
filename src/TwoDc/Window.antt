-- ===== src/TwoDc/Window.antt =====
-- include/2Dc-window.c: `put_window` and `get_window` on one window that moves up and down, one
-- shared access at a time. `count` reads the descriptor of the data structure that includes it.

pub mod Indices
pub mod Moves
pub mod Carried
use semantic_relaxation_dcbo.Prelude.{
  ℕ, ◌+◌, ◌%◌, ◌^◌, Bool, true, false, not, ◌&&◌, ltb, leb, ◌==◌, if◌then◌else◌, add64, sub64,
}

-- The constants of `DS_TYPE` that the window reads.
pub record Params : Type 0 where
  pub width : ℕ
  pub depth : ℕ
  pub shift : ℕ
  pub random_hops : ℕ

-- `window_t`
pub record Window : Type 0 where
  pub max : ℕ
  pub version : ℕ

abbrev pub same_window : Window → Window → Bool
same_window v w = (v.max == w.max) && (v.version == w.version)

-- `thread_index` and `thread_Window`
pub record Thread : Type 0 where
  pub index : ℕ
  pub window : Window

-- The locals `random` and `hops`, of 16 bits.
pub record Search : Type 0 where
  pub random : ℕ
  pub hops : ℕ

abbrev pub fresh_search : Search
fresh_search = record { random = 0; hops = 0 }

abbrev pub restart : Search → Search
restart s = record s { hops = 0 }

-- `random_index`, whose `width` is a `uint16_t`; `draw` is the result of `my_random`.
abbrev pub random_index : ℕ → ℕ → ℕ
random_index draw width = draw % (width % 2 ^ 16)

unfoldable pub hop : Params → ℕ → ℕ → Search → ℕ × Search
hop set draw index s =
    if ltb s.random set.random_hops
    then (random_index draw set.width, record s { random = (s.random + 1) % 2 ^ 16 })
    else (
      (if leb set.width (add64 index 1) then 0 else add64 index 1),
      record s { hops = (s.hops + 1) % 2 ^ 16 },
    )

-- Where a thread stands in `put_window`. `put_read_max` and `put_read_version` are the two loads of
-- `read_window`, and `put_read` and `put_read_rest` those of a descriptor.
pub data PutPc (D : Type 0) : Type 0 where
  put_enter : (contention : Bool) → PutPc D
  put_read_max : Search → PutPc D
  put_read_version : Search → PutPc D
  put_read : Search → PutPc D
  put_read_rest : Search → D → PutPc D
  put_check : Search → D → PutPc D
  put_shift : Search → PutPc D
  put_cae : Search → PutPc D
  put_found : D → PutPc D

pub data GetPc (D : Type 0) : Type 0 where
  get_enter : (contention : Bool) → GetPc D
  get_read_max : Search → GetPc D
  get_read_version : Search → GetPc D
  get_read : Search → (empty : Bool) → GetPc D
  get_read_rest : Search → (empty : Bool) → D → GetPc D
  get_check : Search → (empty : Bool) → D → GetPc D
  get_shift : Search → GetPc D
  get_cae : Search → GetPc D
  get_found : D → GetPc D

pub record Turn (P : Type 0) : Type 0 where
  pub window : Window
  pub thread : Thread
  pub pc : P

abbrev pub choose_index : Params → ℕ → Bool → Thread → Thread
choose_index set draw contention t = record t {
  index = if contention then random_index draw set.width else t.index;
}

-- `new_window` of `put_window` and of `get_window`
abbrev pub up : Params → Window → Window
up set w = record { max = add64 w.max set.shift; version = add64 w.version 1 }

abbrev pub down : Params → Window → Window
down set w = record { max = sub64 w.max set.shift; version = add64 w.version 1 }

module _ {D : Type 0} (count : D → ℕ) (set : Params) where
  -- The branches of the loop of `put_window` on a descriptor that it has read.
  unfoldable pub put_branch : ℕ → Window → Thread → Search → D → Turn (PutPc D)
  unfolding hop
  put_branch draw w t s d =
      if not (w.version == t.window.version)
      then record { window = w; thread = t; pc = put_read_max (restart s) }
      else if ltb (count d) t.window.max
      then record { window = w; thread = t; pc = put_found d }
      else if not (s.hops == set.width)
      then (let (index, s') = hop set draw t.index s in
          record { window = w; thread = record t { index = index }; pc = put_read s' })
      else record { window = w; thread = t; pc = put_shift s }

  -- The compare-exchange of the window: who fails is given the window that is there.
  unfoldable pub put_cae_step : Window → Thread → Search → Turn (PutPc D)
  put_cae_step w t s =
      if same_window w t.window
      then record {
        window = up set t.window;
        thread = record t { window = up set t.window };
        pc = put_read (restart s);
      }
      else record { window = w; thread = record t { window = w }; pc = put_read_max (restart s) }

  -- One step of `put_window`; `put_found` is its return.
  unfoldable pub put_step :
      (splice : D → D → D) → ℕ → (set_array : ℕ → D) → Window → Thread → PutPc D → Turn (PutPc D)
  unfolding put_branch put_cae_step
  put_step splice draw set_array w t (put_enter contention) = record {
    window = w;
    thread = choose_index set draw contention t;
    pc =
        if not (t.window.version == w.version)
        then put_read_max fresh_search
        else put_read fresh_search;
  }
  put_step splice draw set_array w t (put_read_max s) = record {
    window = w;
    thread = record t { window = record { max = w.max; version = t.window.version } };
    pc = put_read_version s;
  }
  put_step splice draw set_array w t (put_read_version s) = record {
    window = w;
    thread = record t { window = record { max = t.window.max; version = w.version } };
    pc = put_read s;
  }
  put_step splice draw set_array w t (put_read s) = record {
    window = w;
    thread = t;
    pc = put_read_rest s (set_array t.index);
  }
  put_step splice draw set_array w t (put_read_rest s d) = record {
    window = w;
    thread = t;
    pc = put_check s (splice d (set_array t.index));
  }
  put_step splice draw set_array w t (put_check s d) = put_branch draw w t s d
  put_step splice draw set_array w t (put_shift s) = record {
    window = w;
    thread = t;
    pc = if t.window.version == w.version then put_cae s else put_read (restart s);
  }
  put_step splice draw set_array w t (put_cae s) = put_cae_step w t s
  put_step splice draw set_array w t (put_found d) = record {
    window = w;
    thread = t;
    pc = put_found d;
  }

  -- The branches of the loop of `get_window`.
  unfoldable pub get_branch : ℕ → Window → Thread → Search → Bool → D → Turn (GetPc D)
  unfolding hop
  get_branch draw w t s empty d =
      if not (w.version == t.window.version)
      then record { window = w; thread = t; pc = get_read_max (restart s) }
      else if ltb t.window.max (add64 (count d) set.depth)
      then record { window = w; thread = t; pc = get_found d }
      else if not (s.hops == set.width)
      then (let (index, s') = hop set draw t.index s in
          record {
            window = w;
            thread = record t { index = index };
            pc = get_read s' (if ltb 0 (count d) then false else empty);
          })
      else if empty
      then record { window = w; thread = t; pc = get_found d }
      else record { window = w; thread = t; pc = get_shift s }

  unfoldable pub get_cae_step : Window → Thread → Search → Turn (GetPc D)
  get_cae_step w t s =
      if same_window w t.window
      then record {
        window = down set t.window;
        thread = record t { window = down set t.window };
        pc = get_read (restart s) true;
      }
      else record { window = w; thread = record t { window = w }; pc = get_read_max (restart s) }

  -- One step of `get_window`; `get_found` is its return.
  unfoldable pub get_step :
      (splice : D → D → D) → ℕ → (set_array : ℕ → D) → Window → Thread → GetPc D → Turn (GetPc D)
  unfolding get_branch get_cae_step
  get_step splice draw set_array w t (get_enter contention) = record {
    window = w;
    thread = choose_index set draw contention t;
    pc =
        if not (t.window.version == w.version)
        then get_read_max fresh_search
        else get_read fresh_search true;
  }
  get_step splice draw set_array w t (get_read_max s) = record {
    window = w;
    thread = record t { window = record { max = w.max; version = t.window.version } };
    pc = get_read_version s;
  }
  get_step splice draw set_array w t (get_read_version s) = record {
    window = w;
    thread = record t { window = record { max = t.window.max; version = w.version } };
    pc = get_read s true;
  }
  get_step splice draw set_array w t (get_read s empty) = record {
    window = w;
    thread = t;
    pc = get_read_rest s empty (set_array t.index);
  }
  get_step splice draw set_array w t (get_read_rest s empty d) = record {
    window = w;
    thread = t;
    pc = get_check s empty (splice d (set_array t.index));
  }
  get_step splice draw set_array w t (get_check s empty d) = get_branch draw w t s empty d
  get_step splice draw set_array w t (get_shift s) = record {
    window = w;
    thread = t;
    pc =
        if (t.window.version == w.version) && leb set.depth (sub64 t.window.max set.shift)
        then get_cae s
        else get_read (restart s) true;
  }
  get_step splice draw set_array w t (get_cae s) = get_cae_step w t s
  get_step splice draw set_array w t (get_found d) = record {
    window = w;
    thread = t;
    pc = get_found d;
  }

-- `initialize_global_window`, whose `depth` is a `uint16_t`
abbrev pub initialize_global_window : ℕ → Window
initialize_global_window depth = record { max = depth % 2 ^ 16; version = 1 }
