-- ===== src/Ms/Knows.antt =====
-- What a thread in `ms_enqueue` or `ms_dequeue` knows of the list, and that other threads keep it.
use semantic_relaxation_dcbo.Prelude.{ℕ, ◌≤◌, ◌<◌, ◌≡◌, ◌≢◌, ◌⊎◌, arith, sym, ◌∙◌}
use semantic_relaxation_dcbo.Ms.{
  Descriptor, Shared, MsPc, enq_tail_node, enq_tail_count, enq_next, enq_link, enq_help,
  enq_help_cae, enq_finish, deq_head_count, deq_tail_node, deq_tail_count, deq_compare, deq_help,
  deq_help_cae, deq_cae, deq_val_node,
}
use semantic_relaxation_dcbo.Ms.Chain.{node_at, IsPrivate, Grows}

-- A node that was the tail at some time.
pub record OnList (s : Shared) (node : ℕ) : Type 0 where
  pub place : ℕ
  pub place_le : place ≤ s.tail.count
  pub at : node ≡ node_at s.next place

-- `next` was read behind a node, and is not NULL.
pub record Behind (s : Shared) (node next : ℕ) : Type 0 where
  pub on_list : OnList s node
  pub some_next : next ≢ 0
  pub behind : next ≡ s.next node

-- A node that was the head at some time, when the head had advanced no further than to `limit`.
pub record HeadRead (s : Shared) (node limit : ℕ) : Type 0 where
  pub place : ℕ
  pub place_le : place ≤ limit
  pub limit_le : limit ≤ s.head.count
  pub at : node ≡ node_at s.next place

-- A node that was the tail when the head had advanced to `start` at least.
pub record TailRead (s : Shared) (start node : ℕ) : Type 0 where
  pub place : ℕ
  pub start_le : start ≤ place
  pub place_le : place ≤ s.tail.count
  pub at : node ≡ node_at s.next place

-- The head that was read has a node behind it, and was not the tail.
pub record HeadNext (s : Shared) (head : Descriptor) (next : ℕ) : Type 0 where
  pub some_next : next ≢ 0
  pub behind : next ≡ s.next head.node
  pub place : ℕ
  pub start_le : head.count ≤ place
  pub place_le : place ≤ s.tail.count
  pub other : node_at s.next place ≢ head.node

-- The node that a thread has made and not linked.
abbrev pub owned : MsPc → ℕ
owned (enq_tail_node new) = new
owned (enq_tail_count new _) = new
owned (enq_next new _) = new
owned (enq_link new _) = new
owned (enq_help new _) = new
owned (enq_help_cae new _ _) = new
owned _ = 0

abbrev pub Knows : Shared → MsPc → Type 0
Knows s (enq_tail_node new) = 1 ≤ new
Knows s (enq_tail_count new node) = (1 ≤ new) × OnList s node
Knows s (enq_next new tail) = (1 ≤ new) × OnList s tail.node
Knows s (enq_link new tail) = (1 ≤ new) × OnList s tail.node
Knows s (enq_help new tail) = (1 ≤ new) × OnList s tail.node × (s.next tail.node ≢ 0)
Knows s (enq_help_cae new tail next) = (1 ≤ new) × Behind s tail.node next
Knows s (enq_finish new tail) = Behind s tail.node new
Knows s (deq_head_count node) = HeadRead s node s.head.count
Knows s (deq_tail_node head) = HeadRead s head.node head.count
Knows s (deq_tail_count head node) = HeadRead s head.node head.count × TailRead s head.count node
Knows s (deq_compare head tail) = HeadRead s head.node head.count × TailRead s head.count tail.node
Knows s (deq_help tail) = OnList s tail.node × (s.next tail.node ≢ 0)
Knows s (deq_help_cae tail next) = Behind s tail.node next
Knows s (deq_cae head next) = HeadNext s head next
Knows s (deq_val_node head) = s.next head.node ≢ 0
Knows s _ = Unit

pub record ThreadKnows (s : Shared) (pc : MsPc) : Type 0 where
  pub own_node : (owned pc ≡ 0) ⊎ IsPrivate s (owned pc)
  pub knows : Knows s pc

-- No two threads own the same node.
abbrev pub Apart : MsPc → MsPc → Type 0
Apart l q = 0 < owned l → owned l ≢ owned q

pub Apart-swap : (l q : MsPc) → Apart l q → Apart q l
Apart-swap l q h pos e = h (omega arith) (sym e)

module _ (s s' : Shared) (g : Grows s s') where
  open g use {node_same, next_same, head_le, tail_le}

  OnList-mono : (node : ℕ) → OnList s node → OnList s' node
  OnList-mono node k = record {
    place = k.place;
    place_le = omega (arith, k.place_le, tail_le);
    at = k.at ∙ sym (node_same k.place k.place_le);
  }

  next_mono : (node : ℕ) → s.next node ≢ 0 → s'.next node ≢ 0
  next_mono node ne e = ne (sym (next_same node ne) ∙ e)

  Behind-mono : (node next : ℕ) → Behind s node next → Behind s' node next
  Behind-mono node next k = record {
    on_list = OnList-mono node k.on_list;
    some_next = k.some_next;
    behind = k.behind ∙ sym (next_same node (λ e. k.some_next (k.behind ∙ e)));
  }

  module _ (order : s.head.count ≤ s.tail.count) where
    HeadRead-mono :
        (node limit limit' : ℕ)
        → limit ≤ limit'
        → limit' ≤ s'.head.count
        → HeadRead s node limit
        → HeadRead s' node limit'
    HeadRead-mono node limit limit' le le' k = record {
      place = k.place;
      place_le = omega (arith, k.place_le);
      limit_le = le';
      at = k.at ∙ sym (node_same k.place (omega (arith, k.place_le, k.limit_le)));
    }

    TailRead-mono : (start node : ℕ) → TailRead s start node → TailRead s' start node
    TailRead-mono start node k = record {
      place = k.place;
      start_le = k.start_le;
      place_le = omega (arith, k.place_le, tail_le);
      at = k.at ∙ sym (node_same k.place k.place_le);
    }

    HeadNext-mono : (head : Descriptor) (next : ℕ) → HeadNext s head next → HeadNext s' head next
    HeadNext-mono head next k = record {
      some_next = k.some_next;
      behind = k.behind ∙ sym (next_same head.node (λ e. k.some_next (k.behind ∙ e)));
      place = k.place;
      start_le = k.start_le;
      place_le = omega (arith, k.place_le, tail_le);
      other = λ e. k.other (sym (node_same k.place k.place_le) ∙ e);
    }

    both_mono :
        (head : Descriptor) (node : ℕ)
        → HeadRead s head.node head.count × TailRead s head.count node
        → HeadRead s' head.node head.count × TailRead s' head.count node
    both_mono head node (h, t) = (
      HeadRead-mono _ _ _ (omega arith) (omega (arith, h.limit_le, head_le)) h,
      TailRead-mono _ _ t,
    )

    pub Knows-mono : (pc : MsPc) → Knows s pc → Knows s' pc
    Knows-mono (enq_tail_node new) k = k
    Knows-mono (enq_tail_count new node) k = (k.0, OnList-mono _ k.1)
    Knows-mono (enq_next new tail) k = (k.0, OnList-mono _ k.1)
    Knows-mono (enq_link new tail) k = (k.0, OnList-mono _ k.1)
    Knows-mono (enq_help new tail) k = (k.0, OnList-mono _ k.1, next_mono _ k.2)
    Knows-mono (enq_help_cae new tail next) k = (k.0, Behind-mono _ _ k.1)
    Knows-mono (enq_finish new tail) k = Behind-mono _ _ k
    Knows-mono (deq_head_count node) k = HeadRead-mono _ _ _ head_le (omega arith) k
    Knows-mono (deq_tail_node head) k =
        HeadRead-mono _ _ _ (omega arith) (omega (arith, k.limit_le, head_le)) k
    Knows-mono (deq_tail_count head node) k = both_mono head node k
    Knows-mono (deq_compare head tail) k = both_mono head tail.node k
    Knows-mono (deq_help tail) k = (OnList-mono _ k.0, next_mono _ k.1)
    Knows-mono (deq_help_cae tail next) k = Behind-mono _ _ k
    Knows-mono (deq_cae head next) k = HeadNext-mono _ _ k
    Knows-mono (deq_val_node head) k = next_mono _ k
    Knows-mono pc k = tt
