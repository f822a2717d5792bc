-- ===== src/Relaxation.antt =====
-- include/relaxation_analysis_queue.c: the linear list that measures how far out of order each
-- dequeue or pop is. Its callers hold a lock, so that one call is one step. A failed assertion and
-- a dereference of NULL are `none`.
pub mod Lists
pub mod Sound
pub mod Add
pub mod Search
pub mod First
pub mod Remove
mod Tests
use semantic_relaxation_dcbo.Prelude.{
  ℕ, zero, suc, ◌+◌, Bool, not, ◌==◌, if◌then◌else◌, update, Option, none, some, ◌>>=◌, add64,
  sub64,
}

-- `linear_list_t`
pub record LinearList : Type 0 where
  pub head : ℕ
  pub tail : ℕ
  pub size : ℕ

-- The nodes, at addresses from 1 to `fresh`, and the two lists.
pub record Analysis : Type 0 where
  pub next : ℕ → ℕ
  pub val : ℕ → ℕ
  pub fresh : ℕ
  pub linear_clone : LinearList
  pub error_dists : LinearList

abbrev pub empty_list : LinearList
empty_list = record { head = 0; tail = 0; size = 0 }

abbrev pub empty_analysis : Analysis
empty_analysis = record {
  next = λ a. 0;
  val = λ a. 0;
  fresh = 1;
  linear_clone = empty_list;
  error_dists = empty_list;
}

-- `add_linear`: at the head for 1 and at the tail for 0.
unfoldable pub add_linear : Analysis → (val end : ℕ) → Option Analysis
add_linear s val end =
    let node = s.fresh in
    let l = s.linear_clone in
    let made : Analysis = record s {
      val = update s.val node val;
      next = update s.next node 0;
      fresh = node + 1;
    } in
    let size = add64 l.size 1 in
    if l.head == 0
    then some (record made { linear_clone = record { head = node; tail = node; size = size } })
    else if end == 1
    then some (record made {
      next = update made.next node l.head;
      linear_clone = record { head = node; tail = l.tail; size = size };
    })
    else if end == 0
    then some (record made {
      next = update made.next l.tail node;
      linear_clone = record { head = l.head; tail = node; size = size };
    })
    else none

-- `add_relaxed_dist`
unfoldable pub add_relaxed_dist : Analysis → (dist_node : ℕ) → Analysis
add_relaxed_dist s dist_node =
    let l = s.error_dists in
    let size = add64 l.size 1 in
    let next = update s.next dist_node 0 in
    if l.head == 0
    then record s {
      next = next;
      error_dists = record { head = dist_node; tail = dist_node; size = size };
    }
    else record s {
      next = update next l.tail dist_node;
      error_dists = record { head = l.head; tail = dist_node; size = size };
    }

-- The search in `remove_linear`, on fuel: the node before the value, and the nodes skipped.
unfoldable pub find_before : (fuel : ℕ) → Analysis → (val skipped last_node : ℕ) → Option (ℕ × ℕ)
find_before zero s val skipped last_node = none
find_before (suc fuel) s val skipped last_node =
    let node = s.next last_node in
    let rest = find_before fuel s val (add64 skipped 1) node in
    if node == 0
    then none
    else if s.val node == val
    then some (last_node, skipped)
    else if s.next node == 0
    then none
    else rest

-- The first branch of `remove_linear`, with its assertions.
unfoldable pub remove_first : Analysis → Option Analysis
unfolding add_relaxed_dist
remove_first s =
    let l = s.linear_clone in
    let found_node = l.head in
    let only = found_node == l.tail in
    let taken : Analysis = record s {
      val = update s.val found_node 0;
      linear_clone = record {
        head = s.next found_node;
        tail = if only then 0 else l.tail;
        size = l.size;
      };
    } in
    if only
    then (if s.next found_node == 0
        then (if l.size == 0 then some (add_relaxed_dist taken found_node) else none)
        else none)
    else some (add_relaxed_dist taken found_node)

-- The other branch, from the end of the search.
unfoldable pub remove_after : Analysis → (last_node skipped : ℕ) → Analysis
unfolding add_relaxed_dist
remove_after s last_node skipped =
    let l = s.linear_clone in
    let found_node = s.next last_node in
    add_relaxed_dist
      (record s {
        next = update s.next last_node (s.next found_node);
        val = update s.val found_node skipped;
        linear_clone = record {
          head = l.head;
          tail = if found_node == l.tail then last_node else l.tail;
          size = l.size;
        };
      })
      found_node

-- `remove_linear`
unfoldable pub remove_linear : (fuel : ℕ) → Analysis → (val : ℕ) → Option Analysis
unfolding remove_first find_before remove_after
remove_linear fuel s val =
    let l = s.linear_clone in
    let smaller : Analysis = record s { linear_clone = record l { size = sub64 l.size 1 } } in
    if l.head == 0 then none else if s.val l.head == val then remove_first smaller else (do
      found ← find_before fuel smaller val 1 l.head
      some (remove_after smaller found.0 found.1))
