-- ===== src/Ms/Invariant.antt =====
-- The invariant of the MS queue in every interleaving.
use native.Mathlib.Nat.{zero-add}
use semantic_relaxation_dcbo.Prelude.{
  ℕ, zero, suc, ◌+◌, ◌-◌, ◌^◌, ◌≤◌, ◌<◌, ◌≡◌, ◌≢◌, ◌⊎◌, inl, inr, arith, refl, sym, ap, ◌∙◌, ◌==◌,
  Bool-cases, ==→eq, ==→ne, List, length,
}
use semantic_relaxation_dcbo.Machine.Pairs.{PairInv, run-PairInv}
use semantic_relaxation_dcbo.Ms.{
  Descriptor, Shared, MsPc, idle, enq_tail_node, enq_tail_count, enq_next, enq_link, enq_help,
  enq_help_cae, enq_finish, enqueued, deq_head_node, deq_head_count, deq_tail_node, deq_tail_count,
  deq_compare, deq_help, deq_help_cae, deq_cae, deq_val_node, deq_val, dequeued, dequeued_empty,
  step, init_ms_queue, run_queue,
}
use semantic_relaxation_dcbo.Ms.Chain.{last_is_tail, node_at, IsSound, IsPrivate}
use semantic_relaxation_dcbo.Ms.Knows.{
  OnList, HeadRead, TailRead, owned, ThreadKnows, Knows-mono, Apart, Apart-swap,
}
use semantic_relaxation_dcbo.Ms.Steps.{Kept, quiet, begin_enqueue, link-Kept, tail-Kept, head-Kept}

module _ (n : ℕ) (s : Shared) (sound : IsSound n s) (fits : n + 1 < 2 ^ 64) where
  now_tail : OnList s s.tail.node
  now_tail = record { place = s.tail.count; place_le = omega arith; at = sound.tail_at }

  enq_next-Kept :
      (draw new : ℕ) (tail : Descriptor)
      → (new ≡ 0) ⊎ IsPrivate s new
      → (1 ≤ new) × OnList s tail.node
      → Kept n s (enq_next new tail) (step draw s (enq_next new tail))
  unfolding step
  enq_next-Kept draw new tail own k = elim (Bool-cases (s.next tail.node == 0)) [
    | inl e ↦ rw (e, step) (quiet n s sound _ (enq_link new tail) own refl k)
    | inr e ↦ rw (e, step) (quiet n s sound _ (enq_help new tail) own refl (k.0, k.1, ==→ne _ _ e))
  ]

  -- The head's node has none behind it only if it is the tail.
  head_some_next :
      (head tail : Descriptor)
      → HeadRead s head.node head.count
      → TailRead s head.count tail.node
      → head.node ≢ tail.node
      → s.next head.node ≢ 0
  head_some_next head tail h t ne e =
      let last =
        last_is_tail n s sound head.node h.place
          (omega (arith, h.place_le, h.limit_le, sound.order)) h.at e in
      let same : h.place ≡ t.place = omega (arith, h.place_le, t.start_le, t.place_le) in
      ne (h.at ∙ ap (node_at s.next) same ∙ sym t.at)

  compare-Kept :
      (draw : ℕ) (head tail : Descriptor)
      → HeadRead s head.node head.count × TailRead s head.count tail.node
      → Kept n s (deq_compare head tail) (step draw s (deq_compare head tail))
  unfolding step
  compare-Kept draw head tail (h, t) = elim (Bool-cases (head.node == tail.node)) [
    | inl e ↦ elim (Bool-cases (s.next head.node == 0)) [
      | inl f ↦ rw (e, f, step) (quiet n s sound _ dequeued_empty (inl refl) refl tt)
      | inr f ↦
          rw (e, f, step)
            (quiet n s sound _ (deq_help tail) (inl refl) refl (
              record { place = t.place; place_le = t.place_le; at = t.at },
              λ z. ==→ne _ _ f (ap s.next (==→eq _ _ e) ∙ z),
            ))
    ]
    | inr e ↦
        rw (e, step)
          (quiet n s sound _ (deq_cae head (s.next head.node)) (inl refl) refl (record {
            some_next = head_some_next head tail h t (==→ne _ _ e);
            behind = refl;
            place = t.place;
            start_le = t.start_le;
            place_le = t.place_le;
            other = λ z. ==→ne _ _ e (sym z ∙ sym t.at);
          }))
  ]

  pub step-Kept : (draw : ℕ) (pc : MsPc) → ThreadKnows s pc → Kept n s pc (step draw s pc)
  unfolding step
  step-Kept zero idle k = quiet n s sound _ deq_head_node (inl refl) refl tt
  step-Kept (suc v) idle k = begin_enqueue n s sound v
  step-Kept draw (enq_tail_node new) k =
      quiet n s sound _ (enq_tail_count new s.tail.node) k.own_node refl (k.knows, now_tail)
  step-Kept draw (enq_tail_count new node) k =
      quiet n s sound _ (enq_next new (record { node = node; count = s.tail.count })) k.own_node
        refl k.knows
  step-Kept draw (enq_next new tail) k = enq_next-Kept draw new tail k.own_node k.knows
  step-Kept draw (enq_link new tail) k =
      link-Kept n s sound draw new tail k.own_node k.knows.0 k.knows.1
  step-Kept draw (enq_help new tail) k =
      quiet n s sound _ (enq_help_cae new tail (s.next tail.node)) k.own_node refl
        (k.knows.0, record { on_list = k.knows.1; some_next = k.knows.2; behind = refl })
  step-Kept draw (enq_help_cae new tail next) k =
      tail-Kept n s sound fits _ (enq_tail_node new) tail next k.own_node refl (λ s'. k.knows.0)
        k.knows.1
  step-Kept draw (enq_finish new tail) k =
      tail-Kept n s sound fits _ enqueued tail new k.own_node refl (λ s'. tt) k.knows
  step-Kept draw enqueued k = quiet n s sound _ idle (inl refl) refl tt
  step-Kept draw deq_head_node k =
      quiet n s sound _ (deq_head_count s.head.node) (inl refl) refl (record {
        place = s.head.count;
        place_le = omega arith;
        limit_le = omega arith;
        at = sound.head_at;
      })
  step-Kept draw (deq_head_count node) k =
      quiet n s sound _ (deq_tail_node (record { node = node; count = s.head.count })) (inl refl)
        refl k.knows
  step-Kept draw (deq_tail_node head) k =
      quiet n s sound _ (deq_tail_count head s.tail.node) (inl refl) refl (
        k.knows,
        record {
          place = s.tail.count;
          start_le = omega (arith, k.knows.limit_le, sound.order);
          place_le = omega arith;
          at = sound.tail_at;
        },
      )
  step-Kept draw (deq_tail_count head node) k =
      quiet n s sound _ (deq_compare head (record { node = node; count = s.tail.count })) (inl refl)
        refl k.knows
  step-Kept draw (deq_compare head tail) k = compare-Kept draw head tail k.knows
  step-Kept draw (deq_help tail) k =
      quiet n s sound _ (deq_help_cae tail (s.next tail.node)) (inl refl) refl
        (record { on_list = k.knows.0; some_next = k.knows.1; behind = refl })
  step-Kept draw (deq_help_cae tail next) k =
      tail-Kept n s sound fits _ deq_head_node tail next (inl refl) refl (λ s'. tt) k.knows
  step-Kept draw (deq_cae head next) k = head-Kept n s sound fits draw head next k.knows
  step-Kept draw (deq_val_node head) k =
      quiet n s sound _ (deq_val (s.next head.node)) (inl refl) refl tt
  step-Kept draw (deq_val node) k = quiet n s sound _ (dequeued (s.val node)) (inl refl) refl tt
  step-Kept draw (dequeued v) k = quiet n s sound _ idle (inl refl) refl tt
  step-Kept draw dequeued_empty k = quiet n s sound _ idle (inl refl) refl tt

pub own-kept :
    (n c : ℕ) (s : Shared) (l : MsPc)
    → n < 2 ^ 64 - 1
    → IsSound n s
    → ThreadKnows s l
    → IsSound (suc n) (step c s l).0 × ThreadKnows (step c s l).0 (step c s l).1
own-kept n c s l few sound k =
    let r = step-Kept n s sound (omega arith) c l k in
    (r.sound, record { own_node = r.own_node; knows = r.knows })

pub other-kept :
    (n c : ℕ) (s : Shared) (l q : MsPc)
    → n < 2 ^ 64 - 1
    → IsSound n s
    → ThreadKnows s l
    → ThreadKnows s q
    → Apart l q
    → ThreadKnows (step c s l).0 q × Apart (step c s l).1 q
other-kept n c s l q few sound k other apart =
    let r = step-Kept n s sound (omega arith) c l k in
    (
      record {
        own_node = elim other.own_node [ inl none ↦ inl none | inr p ↦ inr (r.others _ p (off p)) ];
        knows = Knows-mono s _ r.grows sound.order q other.knows;
      },
      still_apart r.owns other.own_node,
    )
  where
    off : IsPrivate s (owned q) → owned q ≢ owned l
    off p e = apart (omega (arith, p.some_node)) (sym e)

    still_apart :
        (owned (step c s l).1 ≡ owned l)
          ⊎ ((owned (step c s l).1 ≡ 0) ⊎ (s.fresh ≤ owned (step c s l).1))
        → (owned q ≡ 0) ⊎ IsPrivate s (owned q)
        → Apart (step c s l).1 q
    still_apart (inl same) o pos e = apart (omega arith) (sym same ∙ e)
    still_apart (inr (inl none)) o pos e = omega arith
    still_apart (inr (inr new)) (inl none) pos e = omega arith
    still_apart (inr (inr new)) (inr p) pos e = omega (arith, p.used)

abbrev pub QueueInv : ℕ → List (ℕ × ℕ) → Type 0
QueueInv n schedule = PairInv IsSound ThreadKnows Apart n (run_queue schedule)

start-Inv : PairInv IsSound ThreadKnows Apart 0 init_ms_queue
unfolding node_at
start-Inv = record {
  memory = record {
    head_at = refl;
    tail_at = refl;
    order = omega arith;
    linked = λ k le. let first : k ≡ 0 = omega arith in rw first (omega arith);
    old = λ k. only_one k;
    ends = refl;
    null = refl;
    young = λ a le. refl;
    few = omega arith;
  };
  threads = λ i. record { own_node = inl refl; knows = tt };
  apart = λ i j ne pos. absurd (omega arith);
}
  where
    only_one : (k : ℕ) → node_at (λ a. 0) k < 2
    only_one zero = omega arith
    only_one (suc k) = omega arith

pub run_queue-Inv :
    (schedule : List (ℕ × ℕ)) → length schedule < 2 ^ 64 → QueueInv (length schedule) schedule
unfolding run_queue
run_queue-Inv schedule short =
    let v =
      run-PairInv step IsSound ThreadKnows Apart (2 ^ 64 - 1) Apart-swap own-kept other-kept 0
        schedule init_ms_queue (omega arith) start-Inv in
    rw zero-add at v
