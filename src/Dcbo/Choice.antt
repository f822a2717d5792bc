-- ===== src/Dcbo/Choice.antt =====
-- `enqueue` and `dequeue`: sample `d` partial queues and work on the one that did best.
use semantic_relaxation_dcbo.Prelude.{
  ℕ, zero, suc, ◌+◌, ◌-◌, ◌%◌, ◌^◌, Bool, not, ltb, ◌==◌, if◌then◌else◌,
}
use semantic_relaxation_dcbo.Dcbo.Partial.{Partial}
use semantic_relaxation_dcbo.Dcbo.Collect.{Outcome, returned, double_collect}

-- Comparisons are made on a word's rank: that of a `uint64_t` is itself, and that of an `int64_t`
-- is its place from the least one up.
abbrev pub unsigned_rank : ℕ → ℕ
unsigned_rank a = a

abbrev pub signed_rank : ℕ → ℕ
signed_rank a = (a + 2 ^ 63) % 2 ^ 64

pub record Choice : Type 0 where
  pub index : ℕ
  pub value : ℕ
  pub access : ℕ

module _ (p : Partial) (length_heuristic : Bool) where
  open p use {Queue, queue_length, enq_count, deq_count}

  unfoldable pub enq_heuristic : Queue → ℕ
  enq_heuristic q = if length_heuristic then queue_length q else enq_count q

  -- `-PARTIAL_LENGTH(q)` on `size_t`
  unfoldable pub deq_heuristic : Queue → ℕ
  deq_heuristic q = if length_heuristic then (2 ^ 64 - queue_length q) % 2 ^ 64 else deq_count q

-- `draw k` is the result of `my_random` at the sample that is access `k`.
module _ (p : Partial) (width : ℕ) (H : ℕ → ℕ → p.Queue) (draw : ℕ → ℕ) where
  abbrev pub sample : ℕ → ℕ
  sample k = draw k % width

  abbrev pub reading : (p.Queue → ℕ) → ℕ → ℕ
  reading heuristic k = heuristic (H k (sample k))

  module _ (rank : ℕ → ℕ) (heuristic : p.Queue → ℕ) where
    -- the loop `for(int i = 1; i < set->d; i++)`, over the rounds left
    unfoldable pub choose_loop : (rounds access : ℕ) → (opt_index opt : ℕ) → Choice
    choose_loop zero k opt_index opt = record { index = opt_index; value = opt; access = k }
    choose_loop (suc n) k opt_index opt =
        let better = ltb (rank (reading heuristic k)) (rank opt) in
        choose_loop n (k + 1) (if better then sample k else opt_index)
          (if better then reading heuristic k else opt)

    unfoldable pub choose : (d access : ℕ) → Choice
    unfolding choose_loop
    choose d k = choose_loop (d - 1) (k + 1) (sample k) (reading heuristic k)

  module _ (length_heuristic : Bool) (d : ℕ) where
    -- The partial queue that is enqueued on, the access at which this is done, and what it leaves.
    unfoldable pub enqueue : (key val access : ℕ) → (index : ℕ) × (at : ℕ) × p.Queue
    unfolding choose enq_heuristic
    enqueue key val k =
        let c = choose unsigned_rank (enq_heuristic p length_heuristic) d k in
        (c.index, c.access, p.enqueue key val (H c.access c.index))

    unfoldable pub dequeue : (fuel access : ℕ) → (ℕ → ℕ) → Outcome
    dequeue fuel k counts =
        let c = choose signed_rank (deq_heuristic p length_heuristic) d k in
        let v = (p.dequeue (H c.access c.index)).0 in
        if not (v == 0)
        then returned v c.access
        else double_collect p width H fuel ((c.index + 1) % 2 ^ 32) (c.access + 1) counts
