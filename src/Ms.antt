-- ===== src/Ms.antt =====
-- src/dcbo-ms/partial-ms.c: the Michael-Scott queue that is a partial queue of the d-CBO queue, by
-- any number of threads, one shared access at a time. src/ms/ms.c has the same code.
pub mod Chain
pub mod Writes
pub mod Knows
pub mod Steps
pub mod Invariant
pub mod Refine
pub mod Takes
pub mod Values
pub mod Queue
mod Tests
use semantic_relaxation_dcbo.Prelude.{
  ℕ, zero, suc, ◌+◌, Bool, true, false, ◌&&◌, ◌==◌, if◌then◌else◌, update, List, add64, sub64,
}
use semantic_relaxation_dcbo.Machine.{System, run}

-- `descriptor_t`; a node is its address, and 0 is NULL.
pub record Descriptor : Type 0 where
  pub node : ℕ
  pub count : ℕ

abbrev pub same_descriptor : Descriptor → Descriptor → Bool
same_descriptor d e = (d.node == e.node) && (d.count == e.count)

-- `ms_queue_t`, and the fields of the nodes. The allocator hands out addresses from `fresh` on; a
-- node that is in use is not handed out again.
pub record Shared : Type 0 where
  pub head : Descriptor
  pub tail : Descriptor
  pub next : ℕ → ℕ
  pub val : ℕ → ℕ
  pub fresh : ℕ

-- Where a thread stands in `ms_enqueue` (its node is `new`) or `ms_dequeue`: at the access that it
-- makes next. A descriptor is copied in two loads.
pub data MsPc : Type 0 where
  idle : MsPc
  enq_tail_node : (new : ℕ) → MsPc
  enq_tail_count : (new node : ℕ) → MsPc
  enq_next : (new : ℕ) (tail : Descriptor) → MsPc
  enq_link : (new : ℕ) (tail : Descriptor) → MsPc
  enq_help : (new : ℕ) (tail : Descriptor) → MsPc
  enq_help_cae : (new : ℕ) (tail : Descriptor) (next : ℕ) → MsPc
  enq_finish : (new : ℕ) (tail : Descriptor) → MsPc
  enqueued : MsPc
  deq_head_node : MsPc
  deq_head_count : (node : ℕ) → MsPc
  deq_tail_node : (head : Descriptor) → MsPc
  deq_tail_count : (head : Descriptor) (node : ℕ) → MsPc
  deq_compare : (head tail : Descriptor) → MsPc
  deq_help : (tail : Descriptor) → MsPc
  deq_help_cae : (tail : Descriptor) (next : ℕ) → MsPc
  deq_cae : (head : Descriptor) (next : ℕ) → MsPc
  deq_val_node : (head : Descriptor) → MsPc
  deq_val : (node : ℕ) → MsPc
  dequeued : ℕ → MsPc
  dequeued_empty : MsPc

-- `create_ms_node`
unfoldable pub create_ms_node : Shared → (val : ℕ) → Shared × ℕ
create_ms_node s val = (
  record s { val = update s.val s.fresh val; next = update s.next s.fresh 0; fresh = s.fresh + 1 },
  s.fresh,
)

-- `CAE(&q->tail, &tail, &new_tail)` and `deq_cae` on the head, without the analysis
unfoldable pub tail_cae : Shared → Descriptor → Descriptor → Shared
tail_cae s read new = if same_descriptor s.tail read then record s { tail = new } else s

unfoldable pub deq_head_cae : Shared → Descriptor → Descriptor → Shared × Bool
deq_head_cae s read new =
    if same_descriptor s.head read then (record s { head = new }, true) else (s, false)

-- `enq_cae` without the analysis
unfoldable pub enq_cae : Shared → (node new : ℕ) → Shared × Bool
enq_cae s node new =
    if s.next node == 0 then (record s { next = update s.next node new }, true) else (s, false)

abbrev pub advanced : Descriptor → ℕ → Descriptor
advanced d node = record { node = node; count = add64 d.count 1 }

-- One access of a thread; an idle one begins `ms_dequeue` on 0 and enqueues any other draw.
unfoldable pub step : ℕ → Shared → MsPc → Shared × MsPc
unfolding create_ms_node tail_cae deq_head_cae enq_cae
step zero s idle = (s, deq_head_node)
step (suc v) s idle = let (s', new) = create_ms_node s (suc v) in (s', enq_tail_node new)
step draw s (enq_tail_node new) = (s, enq_tail_count new s.tail.node)
step draw s (enq_tail_count new node) =
    (s, enq_next new (record { node = node; count = s.tail.count }))
step draw s (enq_next new tail) =
    (s, if s.next tail.node == 0 then enq_link new tail else enq_help new tail)
step draw s (enq_link new tail) =
    let (s', done) = enq_cae s tail.node new in
    (s', if done then enq_finish new tail else enq_tail_node new)
step draw s (enq_help new tail) = (s, enq_help_cae new tail (s.next tail.node))
step draw s (enq_help_cae new tail next) = (tail_cae s tail (advanced tail next), enq_tail_node new)
step draw s (enq_finish new tail) = (tail_cae s tail (advanced tail new), enqueued)
step draw s enqueued = (s, idle)
step draw s deq_head_node = (s, deq_head_count s.head.node)
step draw s (deq_head_count node) =
    (s, deq_tail_node (record { node = node; count = s.head.count }))
step draw s (deq_tail_node head) = (s, deq_tail_count head s.tail.node)
step draw s (deq_tail_count head node) =
    (s, deq_compare head (record { node = node; count = s.tail.count }))
step draw s (deq_compare head tail) = (
  s,
  if head.node == tail.node
      then (if s.next head.node == 0 then dequeued_empty else deq_help tail)
      else deq_cae head (s.next head.node),
)
step draw s (deq_help tail) = (s, deq_help_cae tail (s.next tail.node))
step draw s (deq_help_cae tail next) = (tail_cae s tail (advanced tail next), deq_head_node)
step draw s (deq_cae head next) =
    let (s', done) = deq_head_cae s head (advanced head next) in
    (s', if done then deq_val_node head else deq_head_node)
step draw s (deq_val_node head) = (s, deq_val (s.next head.node))
step draw s (deq_val node) = (s, dequeued (s.val node))
step draw s (dequeued v) = (s, idle)
step draw s dequeued_empty = (s, idle)

-- `ms_queue_size`, `ms_enq_count` and `ms_deq_count`
unfoldable pub ms_queue_size : Shared → ℕ
ms_queue_size s = sub64 s.tail.count s.head.count

abbrev pub ms_enq_count : Shared → ℕ
ms_enq_count s = s.tail.count

abbrev pub ms_deq_count : Shared → ℕ
ms_deq_count s = s.head.count

-- `init_ms_queue`: one node, at address 1, to which head and tail point.
abbrev pub init_ms_queue : System Shared MsPc
init_ms_queue = record {
  shared = record {
    head = record { node = 1; count = 0 };
    tail = record { node = 1; count = 0 };
    next = λ a. 0;
    val = λ a. 0;
    fresh = 2;
  };
  local = λ i. idle;
}

pub run_queue : List (ℕ × ℕ) → System Shared MsPc
run_queue schedule = run step schedule init_ms_queue
