-- ===== src/TwoDd/Stack.antt =====
-- src/2Dd-stack: an array of `width` linked stacks under the 2Dd window, by any number of threads.
pub mod Refine
pub mod Counts
pub mod Steps
pub mod Bounds
pub mod Taken
mod Tests
use semantic_relaxation_dcbo.Prelude.{
  ℕ, zero, suc, Bool, true, false, ◌&&◌, ◌==◌, if◌then◌else◌, update, List, add32,
}
use semantic_relaxation_dcbo.Machine.{System, run}
use semantic_relaxation_dcbo.Nodes.Heap.{Heap, empty_heap, create_node, set_next, link}
use semantic_relaxation_dcbo.TwoDd.Window.{
  Params, Windows, Thread, PutPc, put_enter, put_found, put_step, GetPc, get_enter, get_found,
  get_step,
}

-- `descriptor_t`; the counts are `uint32_t`.
pub record Descriptor : Type 0 where
  pub node : ℕ
  pub put_count : ℕ
  pub get_count : ℕ

abbrev pub put_count_of : Descriptor → ℕ
put_count_of d = d.put_count

abbrev pub get_count_of : Descriptor → ℕ
get_count_of d = d.get_count

-- A descriptor is copied in two loads of eight bytes: the node, and the two counts.
abbrev pub splice : Descriptor → Descriptor → Descriptor
splice d e = record { node = d.node; put_count = e.put_count; get_count = e.get_count }

abbrev pub same_descriptor : Descriptor → Descriptor → Bool
same_descriptor d e =
    (d.node == e.node) && ((d.put_count == e.put_count) && (d.get_count == e.get_count))

-- The windows, the array that is both `get_array` and `put_array`, and the nodes.
pub record Shared : Type 0 where
  pub windows : Windows
  pub array : ℕ → Descriptor
  pub heap : Heap

-- Where a thread stands in `push` (its node is `new_node`) or in `pop`: in `put_window` or
-- `get_window`, before the compare-exchange, or before `descriptor.node->val`. `popped_empty` is the
-- return of 0 that counts a `my_null_count`.
pub data StackPc : Type 0 where
  idle : StackPc
  pushing : (new_node : ℕ) → PutPc Descriptor → StackPc
  push_cae : (new_node : ℕ) → Descriptor → StackPc
  pushed : StackPc
  popping : GetPc Descriptor → StackPc
  pop_cae : Descriptor → (next : ℕ) → StackPc
  pop_val : (node : ℕ) → StackPc
  popped : ℕ → StackPc
  popped_empty : StackPc

pub record Local : Type 0 where
  pub thread : Thread
  pub pc : StackPc

-- `do_cae` without the analysis: replace the descriptor at `index` if it is as it was read.
unfoldable pub do_cae : Shared → ℕ → Descriptor → Descriptor → Shared × Bool
do_cae s index read new =
    if same_descriptor (s.array index) read
    then (record s { array = update s.array index new }, true)
    else (s, false)

-- The compare-exchange of `push`; after a failure it goes back to `put_window` with contention.
unfoldable pub push_cae_step : Shared → Thread → (new_node : ℕ) → Descriptor → Shared × Local
unfolding do_cae
push_cae_step s t new_node d =
    let new_descriptor : Descriptor = record {
      node = new_node;
      put_count = add32 d.put_count 1;
      get_count = d.get_count;
    } in
    let (s', done) = do_cae s t.index d new_descriptor in
    if done
    then (record s' { heap = link s.heap new_node }, record { thread = t; pc = pushed })
    else (s', record { thread = t; pc = pushing new_node (put_enter true) })

-- The compare-exchange of `pop`.
unfoldable pub pop_cae_step : Shared → Thread → Descriptor → (next : ℕ) → Shared × Local
unfolding do_cae
pop_cae_step s t d next =
    let new_descriptor : Descriptor = record {
      node = next;
      put_count = d.put_count;
      get_count = add32 d.get_count 1;
    } in
    let (s', done) = do_cae s t.index d new_descriptor in
    (s', record { thread = t; pc = if done then pop_val d.node else popping (get_enter true) })

module _ (set : Params) where
  unfoldable pub push_step :
      ℕ → Shared → Thread → (new_node : ℕ) → PutPc Descriptor → Shared × Local
  unfolding put_step
  push_step draw s t new_node (put_found d) = (
    record s { heap = set_next s.heap new_node d.node },
    record { thread = t; pc = push_cae new_node d },
  )
  push_step draw s t new_node pc =
      let r = put_step put_count_of get_count_of set splice draw s.array s.windows t pc in
      (record s { windows = r.windows }, record { thread = r.thread; pc = pushing new_node r.pc })

  unfoldable pub pop_step : ℕ → Shared → Thread → GetPc Descriptor → Shared × Local
  unfolding get_step
  pop_step draw s t (get_found d) = (
    s,
    record {
      thread = t;
      pc = if d.node == 0 then popped_empty else pop_cae d (s.heap.next d.node);
    },
  )
  pop_step draw s t pc =
      let r = get_step put_count_of get_count_of set splice draw s.array s.array s.windows t pc in
      (record s { windows = r.windows }, record { thread = r.thread; pc = popping r.pc })

  -- A call begins: `pop` on 0, and `push` of any other draw.
  unfoldable pub begin : ℕ → Shared → Thread → Shared × Local
  unfolding create_node
  begin zero s t = (s, record { thread = t; pc = popping (get_enter false) })
  begin (suc v) s t =
      let (heap, new_node) = create_node s.heap (suc v) in
      (record s { heap = heap }, record { thread = t; pc = pushing new_node (put_enter false) })

  -- One turn of a thread.
  unfoldable pub step : ℕ → Shared → Local → Shared × Local
  unfolding begin push_step push_cae_step pop_step pop_cae_step
  step draw s l = elim l.pc [
    | idle ↦ begin draw s l.thread
    | pushing new_node pc ↦ push_step draw s l.thread new_node pc
    | push_cae new_node d ↦ push_cae_step s l.thread new_node d
    | pushed ↦ (s, record l { pc = idle })
    | popping pc ↦ pop_step draw s l.thread pc
    | pop_cae d next ↦ pop_cae_step s l.thread d next
    | pop_val node ↦ (s, record l { pc = popped (s.heap.val node) })
    | popped v ↦ (s, record l { pc = idle })
    | popped_empty ↦ (s, record l { pc = idle })
  ]

abbrev pub empty_descriptor : Descriptor
empty_descriptor = record { node = 0; put_count = 0; get_count = 0 }

-- `create_stack` empties the descriptors; the window variables are zero until a thread moves them.
abbrev pub create_stack : System Shared Local
create_stack = record {
  shared = record {
    windows = record { put_max = 0; get_max = 0 };
    array = λ k. empty_descriptor;
    heap = empty_heap;
  };
  local = λ i. record { thread = record { index = 0; put_max = 0; get_max = 0 }; pc = idle };
}

unfoldable pub run_stack : Params → List (ℕ × ℕ) → System Shared Local
run_stack set schedule = run (step set) schedule create_stack
