-- ===== src/Dra.antt =====
-- src/stack-dra: an array of linked stacks, of which a push takes the lowest of `num_choices` that it
-- draws and a pop the highest, by any number of threads, one shared access at a time.
pub mod Refine
pub mod Stamps
mod Tests
use semantic_relaxation_dcbo.Prelude.{
  ℕ, zero, suc, ◌+◌, ◌%◌, Bool, true, false, ltb, ◌==◌, if◌then◌else◌, update, List, add64,
}
use semantic_relaxation_dcbo.Machine.{System, run}
use semantic_relaxation_dcbo.Nodes.Heap.{Heap, empty_heap, create_node, set_next, link}

-- `width`, and the macro `NUM_CHOICES`
pub record Params : Type 0 where
  pub width : ℕ
  pub num_choices : ℕ

-- `array`, and the nodes with their `timestamp`.
pub record Shared : Type 0 where
  pub array : ℕ → ℕ
  pub heap : Heap
  pub timestamp : ℕ → ℕ

-- `descriptor_t`: a stack, and the node that was read at its top.
pub record Descriptor : Type 0 where
  pub index : ℕ
  pub node : ℕ

-- Where a thread stands in `push` (its node is `new_node`) or in `pop`. `first` is the first draw of
-- `get_push_index` or `get_pop_index`, `next` a draw in its loop, at `i`, and `compare` the test that
-- follows it.
pub data DraPc : Type 0 where
  idle : DraPc
  push_first : (new_node : ℕ) → DraPc
  push_next : (new_node i : ℕ) → Descriptor → DraPc
  push_compare : (new_node i : ℕ) → Descriptor → Descriptor → DraPc
  push_link : (new_node : ℕ) → Descriptor → DraPc
  push_cae : (new_node : ℕ) → Descriptor → DraPc
  pushed : DraPc
  pop_first : DraPc
  pop_next : (i : ℕ) → Descriptor → DraPc
  pop_compare : (i : ℕ) → Descriptor → Descriptor → DraPc
  pop_read : Descriptor → DraPc
  pop_cae : Descriptor → (next : ℕ) → DraPc
  pop_val : (node : ℕ) → DraPc
  popped : ℕ → DraPc
  popped_empty : DraPc

-- `stack_cae` without the analysis
unfoldable pub stack_cae : Shared → Descriptor → (new : ℕ) → Shared × Bool
stack_cae s d new =
    if s.array d.index == d.node
    then (record s { array = update s.array d.index new }, true)
    else (s, false)

-- The timestamp of a node that is pushed over `node`
abbrev pub next_timestamp : Shared → (node : ℕ) → ℕ
next_timestamp s node = if node == 0 then 0 else add64 (s.timestamp node) 1

-- `new_node->next = node`, and the timestamp.
unfoldable pub push_link_step : Shared → (new_node : ℕ) → Descriptor → Shared × DraPc
push_link_step s new_node d = (
  record s {
    heap = set_next s.heap new_node d.node;
    timestamp = update s.timestamp new_node (next_timestamp s d.node);
  },
  push_cae new_node d,
)

unfoldable pub push_cae_step : Shared → (new_node : ℕ) → Descriptor → Shared × DraPc
unfolding stack_cae
push_cae_step s new_node d =
    let (s', done) = stack_cae s d new_node in
    if done then (record s' { heap = link s.heap new_node }, pushed) else (s', push_first new_node)

unfoldable pub pop_cae_step : Shared → Descriptor → (next : ℕ) → Shared × DraPc
unfolding stack_cae
pop_cae_step s d next =
    let (s', done) = stack_cae s d next in (s', if done then pop_val d.node else pop_first)

module _ (set : Params) where
  -- `random_index`, whose draw is the result of `my_random`
  abbrev pub random_index : ℕ → ℕ
  random_index draw = draw % set.width

  -- `set->array[random_index(set)].node`
  abbrev pub drawn : ℕ → Shared → Descriptor
  drawn draw s = record { index = random_index draw; node = s.array (random_index draw) }

  -- The test of the loop of `get_push_index`; without a next turn the choice is made.
  abbrev pub push_loop : (new_node i : ℕ) → Descriptor → DraPc
  push_loop new_node i d =
      if ltb i set.num_choices then push_next new_node i d else push_link new_node d

  abbrev pub pop_loop : (i : ℕ) → Descriptor → DraPc
  pop_loop i d = if ltb i set.num_choices then pop_next i d else pop_read d

  -- The first draw of `get_push_index`: an empty stack is taken at once.
  unfoldable pub push_first_step : ℕ → Shared → (new_node : ℕ) → DraPc
  push_first_step draw s new_node =
      let d = drawn draw s in if d.node == 0 then push_link new_node d else push_loop new_node 1 d

  -- The body of its loop: of two stacks, an empty one or the one with the lower timestamp.
  unfoldable pub push_compare_step : Shared → (new_node i : ℕ) → Descriptor → Descriptor → DraPc
  push_compare_step s new_node i d d2 =
      if d2.node == 0
      then push_link new_node d2
      else if ltb (s.timestamp d2.node) (s.timestamp d.node)
      then push_loop new_node (i + 1) d2
      else push_loop new_node (i + 1) d

  -- The body of the loop of `get_pop_index`: the one that is not empty, or with the higher timestamp.
  unfoldable pub pop_compare_step : Shared → (i : ℕ) → Descriptor → Descriptor → DraPc
  pop_compare_step s i d d2 =
      if d.node == 0
      then pop_loop (i + 1) d2
      else if d2.node == 0
      then pop_loop (i + 1) d
      else if ltb (s.timestamp d.node) (s.timestamp d2.node)
      then pop_loop (i + 1) d2
      else pop_loop (i + 1) d

  unfoldable pub pop_read_step : Shared → Descriptor → DraPc
  pop_read_step s d = if d.node == 0 then popped_empty else pop_cae d (s.heap.next d.node)

  -- A call begins: `pop` on 0, and `push` of any other draw.
  unfoldable pub begin : ℕ → Shared → Shared × DraPc
  unfolding create_node
  begin zero s = (s, pop_first)
  begin (suc v) s =
      let (heap, new_node) = create_node s.heap (suc v) in
      (record s { heap = heap }, push_first new_node)

  -- One access of a thread.
  unfoldable pub step : ℕ → Shared → DraPc → Shared × DraPc
  unfolding begin push_first_step push_compare_step push_link_step push_cae_step pop_compare_step
      pop_read_step pop_cae_step
  step draw s pc = elim pc [
    | idle ↦ begin draw s
    | push_first new_node ↦ (s, push_first_step draw s new_node)
    | push_next new_node i d ↦ (s, push_compare new_node i d (drawn draw s))
    | push_compare new_node i d d2 ↦ (s, push_compare_step s new_node i d d2)
    | push_link new_node d ↦ push_link_step s new_node d
    | push_cae new_node d ↦ push_cae_step s new_node d
    | pushed ↦ (s, idle)
    | pop_first ↦ (s, pop_loop 1 (drawn draw s))
    | pop_next i d ↦ (s, pop_compare i d (drawn draw s))
    | pop_compare i d d2 ↦ (s, pop_compare_step s i d d2)
    | pop_read d ↦ (s, pop_read_step s d)
    | pop_cae d next ↦ pop_cae_step s d next
    | pop_val node ↦ (s, popped (s.heap.val node))
    | popped v ↦ (s, idle)
    | popped_empty ↦ (s, idle)
  ]

-- `create_stack`
abbrev pub create_stack : System Shared DraPc
create_stack = record {
  shared = record { array = λ k. 0; heap = empty_heap; timestamp = λ a. 0 };
  local = λ i. idle;
}

unfoldable pub run_stack : Params → List (ℕ × ℕ) → System Shared DraPc
run_stack set schedule = run (step set) schedule create_stack
