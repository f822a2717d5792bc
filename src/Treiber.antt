-- ===== src/Treiber.antt =====
-- src/stack-treiber: Treiber's stack, by any number of threads, one shared access at a time.
pub mod Refine
mod Tests
use semantic_relaxation_dcbo.Prelude.{
  ℕ, zero, suc, Bool, true, false, ◌==◌, if◌then◌else◌, update, List,
}
use semantic_relaxation_dcbo.Machine.{System, run}
use semantic_relaxation_dcbo.Nodes.Heap.{Heap, empty_heap, create_node, set_next, link}

-- `mstack_t`, the nodes, and which of them were given to `ssmem_free`. A freed node is not handed out
-- again here, so that nothing is shown of a read that follows the free.
pub record Shared : Type 0 where
  pub heap : Heap
  pub top : ℕ
  pub freed : ℕ → Bool

-- Where a thread stands in `mstack_treiber_insert` (its node is `node`) or in
-- `mstack_treiber_delete`: at the access that it makes next.
pub data TreiberPc : Type 0 where
  idle : TreiberPc
  insert_read : (node : ℕ) → TreiberPc
  insert_next : (node top : ℕ) → TreiberPc
  insert_cas : (node top : ℕ) → TreiberPc
  inserted : TreiberPc
  delete_read : TreiberPc
  delete_next : (top : ℕ) → TreiberPc
  delete_cas : (top next : ℕ) → TreiberPc
  delete_free : (top : ℕ) → TreiberPc
  delete_val : (top : ℕ) → TreiberPc
  deleted : ℕ → TreiberPc
  deleted_empty : TreiberPc

-- `CAS_PTR(&qu->top, top, new)`, and whether it returns `top`. A push that succeeds links its node.
unfoldable pub cas_top : Shared → (top new : ℕ) → Shared × Bool
cas_top s top new = if s.top == top then (record s { top = new }, true) else (s, false)

unfoldable pub insert_cas_step : Shared → (node top : ℕ) → Shared × TreiberPc
unfolding cas_top
insert_cas_step s node top =
    let (s', done) = cas_top s top node in
    if done then (record s' { heap = link s.heap node }, inserted) else (s', insert_read node)

unfoldable pub delete_cas_step : Shared → (top next : ℕ) → Shared × TreiberPc
unfolding cas_top
delete_cas_step s top next =
    let (s', done) = cas_top s top next in (s', if done then delete_free top else delete_read)

-- One access of a thread; an idle one begins `mstack_treiber_delete` on 0 and inserts any other
-- draw.
unfoldable pub step : ℕ → Shared → TreiberPc → Shared × TreiberPc
unfolding create_node insert_cas_step delete_cas_step
step zero s idle = (s, delete_read)
step (suc v) s idle =
    let (heap, node) = create_node s.heap (suc v) in (record s { heap = heap }, insert_read node)
step draw s (insert_read node) = (s, insert_next node s.top)
step draw s (insert_next node top) =
    (record s { heap = set_next s.heap node top }, insert_cas node top)
step draw s (insert_cas node top) = insert_cas_step s node top
step draw s inserted = (s, idle)
step draw s delete_read = (s, if s.top == 0 then deleted_empty else delete_next s.top)
step draw s (delete_next top) = (s, delete_cas top (s.heap.next top))
step draw s (delete_cas top next) = delete_cas_step s top next
step draw s (delete_free top) = (record s { freed = update s.freed top true }, delete_val top)
step draw s (delete_val top) = (s, deleted (s.heap.val top))
step draw s (deleted v) = (s, idle)
step draw s deleted_empty = (s, idle)

-- `mstack_new`
abbrev pub mstack_new : System Shared TreiberPc
mstack_new = record {
  shared = record { heap = empty_heap; top = 0; freed = λ a. false };
  local = λ i. idle;
}

unfoldable pub run_treiber : List (ℕ × ℕ) → System Shared TreiberPc
run_treiber schedule = run step schedule mstack_new
