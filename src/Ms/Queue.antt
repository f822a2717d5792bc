-- ===== src/Ms/Queue.antt =====
-- The MS queue as a partial queue of src/dcbo-ms/d-balanced-queue.c: the macros PARTIAL_* of
-- src/dcbo-ms/partial-ms.h.
use semantic_relaxation_dcbo.Prelude.{
  ℕ, suc, ◌+◌, ◌-◌, ◌%◌, ◌^◌, ◌<◌, ◌≡◌, arith, refl, sym, ap, ◌∙◌, subst, List, [], ◌∷◌, ◌++◌, map,
  length, inl, inr, sub64,
}
use semantic_relaxation_dcbo.Machine.{System, run}
use semantic_relaxation_dcbo.Machine.Pairs.{PairInv, run-PairRelated}
use semantic_relaxation_dcbo.Dcbo.Partial.{
  Partial, Later, now, enqueued, dequeued, Later-trans, IsHistory,
}
use semantic_relaxation_dcbo.Ms.{
  Shared, MsPc, step, run_queue, ms_queue_size, ms_enq_count, ms_deq_count, init_ms_queue,
}
use semantic_relaxation_dcbo.Ms.Chain.{IsSound}
use semantic_relaxation_dcbo.Ms.Knows.{ThreadKnows, Apart, Apart-swap}
use semantic_relaxation_dcbo.Ms.Invariant.{own-kept, other-kept, step-Kept, run_queue-Inv}
use semantic_relaxation_dcbo.Ms.Refine.{contents, Advances-cases, Stays, PutsIn, GivesOut}

-- A first-in first-out queue of positive values, each stored one less, since 0 is EMPTY; with how
-- often it was put into and taken from.
pub record Fifo : Type 0 where
  pub items : List ℕ
  pub puts : ℕ
  pub gets : ℕ

abbrev pub put : (key val : ℕ) → Fifo → Fifo
put key val q = record q { items = q.items ++ ((val - 1) ∷ []); puts = q.puts + 1 }

abbrev pub take_first : List ℕ → Fifo → ℕ × Fifo
take_first [] q = (0, q)
take_first (x ∷ xs) q = (suc x, record q { items = xs; gets = q.gets + 1 })

abbrev pub get : Fifo → ℕ × Fifo
get q = take_first q.items q

pub take_first-puts : (xs : List ℕ) (q : Fifo) → (take_first xs q).1.puts ≡ q.puts
take_first-puts [] q = refl
take_first-puts (x ∷ xs) q = refl

pub take_first-empty :
    (xs : List ℕ) (q : Fifo)
    → q.items ≡ xs
    → (take_first xs q).0 ≡ 0
    → (get (take_first xs q).1).0 ≡ 0
take_first-empty [] q same e = rw same refl
take_first-empty (x ∷ xs) q same e = absurd (omega arith)

-- The macros; the counts are `uint64_t`.
abbrev pub ms_partial : Partial
ms_partial = record {
  Queue = Fifo;
  enqueue = put;
  dequeue = get;
  queue_length = λ q. sub64 (q.puts % 2 ^ 64) (q.gets % 2 ^ 64);
  tail_version = λ q. q.puts % 2 ^ 64;
  enq_count = λ q. q.puts % 2 ^ 64;
  deq_count = λ q. q.gets % 2 ^ 64;
  enqueues = λ q. q.puts;
  cycle = 2 ^ 64;
  enqueues-enqueue = λ key val q. refl;
  enqueues-dequeue = λ q. take_first-puts q.items q;
  same_version = λ q r same. ap (λ k. k % 2 ^ 64) same;
  version_again = λ q r le lt same. omega arith;
  empty-dequeue = λ q e. take_first-empty q.items q refl e;
}

abbrev less_one : ℕ → ℕ
less_one v = v - 1

-- The queue that the memory holds.
unfoldable pub view : Shared → Fifo
view s = record { items = map less_one (contents s); puts = s.tail.count; gets = s.head.count }

map-end : (l : List ℕ) (v : ℕ) → map less_one (l ++ (v ∷ [])) ≡ map less_one l ++ ((v - 1) ∷ [])
map-end [] v = refl
map-end (x ∷ xs) v = ap (λ l. less_one x ∷ l) (map-end xs v)

fifo-eq :
    {xs ys : List ℕ} {a b c d : ℕ}
    → xs ≡ ys
    → a ≡ b
    → c ≡ d
    → ◌≡◌ {A = Fifo}
        (record { items = xs; puts = a; gets = c })
        (record { items = ys; puts = b; gets = d })
fifo-eq {xs} {ys} {a} {b} {c} {d} e f g =
    ap (λ l. record { items = l; puts = a; gets = c }) e
    ∙ ap (λ n. record { items = ys; puts = n; gets = c }) f
    ∙ ap (λ n. record { items = ys; puts = b; gets = n }) g

module _ (s s' : Shared) where
  Stays-Later : Stays s s' → Later ms_partial (view s) (view s')
  unfolding view
  Stays-Later h =
      subst (Later ms_partial (view s)) (sym (fifo-eq (ap (map less_one) h.same) h.tails h.heads))
        now

  PutsIn-Later : PutsIn s s' → Later ms_partial (view s) (view s')
  unfolding view
  PutsIn-Later h =
      let v = s'.val (s'.next s.tail.node) in
      let puts : s'.tail.count ≡ s.tail.count + 1 = omega (arith, h.tails) in
      subst (Later ms_partial (view s))
        (sym (fifo-eq (ap (map less_one) h.added ∙ map-end (contents s) v) puts h.heads))
        (enqueued 0 v now)

  GivesOut-Later : GivesOut s s' → Later ms_partial (view s) (view s')
  unfolding view
  GivesOut-Later h =
      let items = ap (map less_one) h.given in
      let gets : s'.head.count ≡ s.head.count + 1 = omega (arith, h.heads) in
      subst (Later ms_partial (view s))
        (ap (λ l. (take_first l (view s)).1) items ∙ sym (fifo-eq refl h.tails gets)) (dequeued now)

step-Later :
    (n c : ℕ) (s : Shared) (pc : MsPc)
    → n < 2 ^ 64 - 1
    → IsSound n s
    → ThreadKnows s pc
    → Later ms_partial (view s) (view (step c s pc).0)
step-Later n c s pc few sound k =
    let r = step-Kept n s sound (omega arith) c pc k in
    elim (Advances-cases n s _ sound r.sound r.grows r.advances) [
      | inl h ↦ Stays-Later s _ h
      | inr (inl h) ↦ PutsIn-Later s _ h
      | inr (inr h) ↦ GivesOut-Later s _ h
    ]

run-Later :
    (n : ℕ) (later : List (ℕ × ℕ)) (s : System Shared MsPc)
    → n + length later < 2 ^ 64
    → PairInv IsSound ThreadKnows Apart n s
    → Later ms_partial (view s.shared) (view (run step later s).shared)
run-Later n later s short v =
    run-PairRelated step IsSound ThreadKnows Apart (2 ^ 64 - 1) Apart-swap own-kept other-kept
      (λ s r. Later ms_partial (view s) (view r)) (λ s. now) (λ s r q. Later-trans ms_partial)
      step-Later n later s (omega arith) v

run-append :
    (a b : List (ℕ × ℕ)) (s : System Shared MsPc) → run step (a ++ b) s ≡ run step b (run step a s)
unfolding run
run-append [] b s = refl
run-append ((i, c) ∷ rest) b s = run-append rest b _

length-append : (a b : List (ℕ × ℕ)) → length (a ++ b) ≡ length a + length b
length-append [] b = omega arith
length-append (x ∷ xs) b = omega (arith, length-append xs b)

-- An array of MS queues, each under any interleaving of fewer than `2 ^ 64` turns, that go on between
-- any two accesses: what the queues hold is a history of partial queues as the double collect relies
-- on, whose length, tail version and counts are those that `ms_queue_size`, `ms_enq_count` and
-- `ms_deq_count` read.
pub ms_queues-IsHistory :
    (schedules more : ℕ → ℕ → List (ℕ × ℕ))
    → ((k j : ℕ) → length (schedules k j) < 2 ^ 64)
    → ((k j : ℕ) → schedules (k + 1) j ≡ schedules k j ++ more k j)
    → let memory : ℕ → ℕ → Shared = λ k j. (run_queue (schedules k j)).shared in
      IsHistory ms_partial (λ k j. view (memory k j))
      × ((k j : ℕ)
          → (ms_partial.queue_length (view (memory k j)) ≡ ms_queue_size (memory k j))
            × (ms_partial.tail_version (view (memory k j)) ≡ ms_enq_count (memory k j))
            × (ms_partial.enq_count (view (memory k j)) ≡ ms_enq_count (memory k j))
            × (ms_partial.deq_count (view (memory k j)) ≡ ms_deq_count (memory k j)))
unfolding view ms_queue_size run_queue
ms_queues-IsHistory schedules more short goes_on = (
  record {
    next = λ k j.
        let a = schedules k j in
        let fits = short (k + 1) j in
        let e = goes_on k j in
        let same : run_queue (schedules (k + 1) j) ≡ run step (more k j) (run_queue a) =
          ap run_queue e ∙ run-append a (more k j) init_ms_queue in
        subst (λ s. Later ms_partial (view (run_queue a).shared) (view s.shared)) (sym same)
          (run-Later (length a) (more k j) (run_queue a)
            (omega (arith, fits, ap length e, length-append a (more k j)))
            (run_queue-Inv a (short k j)));
    few = λ k j. omega (arith, (run_queue-Inv (schedules k j) (short k j)).memory.few, short k j);
  },
  λ k j.
      let m = (run_queue-Inv (schedules k j) (short k j)).memory in
      let puts : (run_queue (schedules k j)).shared.tail.count < 2 ^ 64 =
        omega (arith, m.few, short k j) in
      let gets : (run_queue (schedules k j)).shared.head.count < 2 ^ 64 =
        omega (arith, m.order, puts) in
      (omega arith, omega arith, omega arith, omega arith),
)
