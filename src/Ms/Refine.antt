-- ===== src/Ms/Refine.antt =====
-- The MS queue is a queue: what a turn does to the list of the values that it holds.
use semantic_relaxation_dcbo.Prelude.{
  ℕ, zero, suc, ◌+◌, ◌-◌, ◌^◌, ◌≤◌, ◌<◌, ◌≡◌, ◌≢◌, ◌⊎◌, inl, inr, arith, refl, sym, ap, ◌∙◌, List,
  [], ◌∷◌, ◌++◌, length, ◌==◌, Bool-cases, ==→eq,
}
use semantic_relaxation_dcbo.Ms.{
  Descriptor, Shared, MsPc, idle, enq_next, enq_link, deq_compare, deq_cae, deq_val_node,
  dequeued_empty, step, create_ms_node, enq_help_cae, enq_finish, deq_help_cae, tail_cae, enq_cae,
  deq_head_cae, same_descriptor, run_queue,
}
use semantic_relaxation_dcbo.Ms.Chain.{node_at, IsSound, Grows, last_is_tail}
use semantic_relaxation_dcbo.Ms.Knows.{ThreadKnows}
use semantic_relaxation_dcbo.Ms.Steps.{Advances}
use semantic_relaxation_dcbo.Ms.Invariant.{step-Kept, run_queue-Inv}

-- The values of the `count` nodes behind position `k`.
unfoldable pub items : (next val : ℕ → ℕ) → (k count : ℕ) → List ℕ
unfolding node_at
items next val k zero = []
items next val k (suc m) = val (node_at next (suc k)) ∷ items next val (suc k) m

-- The values in the queue: those of the nodes behind the head, up to the tail.
unfoldable pub contents : Shared → List ℕ
unfolding items
contents s = items s.next s.val s.head.count (s.tail.count - s.head.count)

-- The queue stays as it is.
pub record Stays (s s' : Shared) : Type 0 where
  pub heads : s'.head.count ≡ s.head.count
  pub tails : s'.tail.count ≡ s.tail.count
  pub same : contents s' ≡ contents s

-- It takes in, at its back, the value of the node behind the tail.
pub record PutsIn (s s' : Shared) : Type 0 where
  pub heads : s'.head.count ≡ s.head.count
  pub tails : s'.tail.count ≡ suc s.tail.count
  pub added : contents s' ≡ contents s ++ (s'.val (s'.next s.tail.node) ∷ [])

-- It gives out, at its front, the value of the node behind the head.
pub record GivesOut (s s' : Shared) : Type 0 where
  pub heads : s'.head.count ≡ suc s.head.count
  pub tails : s'.tail.count ≡ s.tail.count
  pub given : contents s ≡ s.val (s.next s.head.node) ∷ contents s'

-- The thread whose turn it is takes the value: it goes on to read this of the node behind `head`.
pub record Takes (s : Shared) (pc pc' : MsPc) : Type 0 where
  pub head : Descriptor
  pub next : ℕ
  pub at : pc ≡ deq_cae head next
  pub is_head : head.node ≡ s.head.node
  pub goes_on : pc' ≡ deq_val_node head

abbrev pub QueueStep : Shared → MsPc → Shared × MsPc → Type 0
QueueStep s pc r = Stays s r.0 ⊎ (PutsIn s r.0 ⊎ (GivesOut s r.0 × Takes s pc r.1))

items-last :
    (next val : ℕ → ℕ) (k m : ℕ)
    → items next val k (suc m) ≡ items next val k m ++ (val (node_at next (suc (k + m))) ∷ [])
unfolding items node_at
items-last next val k zero =
    let e : k ≡ k + 0 = omega arith in ap (λ j. val (node_at next (suc j)) ∷ []) e
items-last next val k (suc m) =
    let e : suc k + m ≡ k + suc m = omega arith in
    ap (λ l. val (node_at next (suc k)) ∷ l)
      (items-last next val (suc k) m
        ∙ ap (λ j. items next val (suc k) m ++ (val (node_at next (suc j)) ∷ [])) e)

module _ (n : ℕ) (s s' : Shared) (sound : IsSound n s) (sound' : IsSound (suc n) s')
    (g : Grows s s') where
  pub items-same :
      (k m : ℕ) → k + m ≤ s.tail.count → items s'.next s'.val k m ≡ items s.next s.val k m
  unfolding items node_at
  items-same k zero le = refl
  items-same k (suc m) le =
      let here : node_at s'.next (suc k) ≡ node_at s.next (suc k) =
        g.node_same (suc k) (omega arith) in
      let value = ap s'.val here ∙ g.val_same _ (sound.old (suc k)) in
      ap (λ v. v ∷ items s'.next s'.val (suc k) m) value
      ∙ ap (λ l. s.val (node_at s.next (suc k)) ∷ l) (items-same (suc k) m (omega arith))

  put_node : node_at s'.next (suc s.tail.count) ≡ s'.next s.tail.node
  unfolding node_at
  put_node = ap s'.next (g.node_same s.tail.count (omega arith) ∙ sym sound.tail_at)

  taken_node : node_at s.next (suc s.head.count) ≡ s.next s.head.node
  unfolding node_at
  taken_node = ap s.next (sym sound.head_at)

  pub Advances-cases : Advances s s' → Stays s s' ⊎ (PutsIn s s' ⊎ GivesOut s s')
  unfolding contents items
  Advances-cases (inl (head, tail)) = inl (record {
    heads = head;
    tails = tail;
    same =
        ap (items s'.next s'.val s'.head.count)
          (let e : s'.tail.count - s'.head.count ≡ s.tail.count - s.head.count = omega arith in e)
        ∙ ap (λ k. items s'.next s'.val k (s.tail.count - s.head.count)) head
        ∙ items-same s.head.count (s.tail.count - s.head.count) (omega (arith, sound.order));
  })
  Advances-cases (inr (inl (head, tail))) =
      let m = s.tail.count - s.head.count in
      let one_more : s'.tail.count - s'.head.count ≡ suc m = omega (arith, sound.order) in
      let at_tail : suc (s.head.count + m) ≡ suc s.tail.count = omega (arith, sound.order) in
      inr (
        inl (record {
          heads = head;
          tails = tail;
          added =
              ap (items s'.next s'.val s'.head.count) one_more
              ∙ ap (λ k. items s'.next s'.val k (suc m)) head
              ∙ items-last s'.next s'.val s.head.count m
              ∙ ap (λ l. l ++ (s'.val (node_at s'.next (suc (s.head.count + m))) ∷ []))
                  (items-same s.head.count m (omega (arith, sound.order)))
              ∙ ap (λ a. items s.next s.val s.head.count m ++ (s'.val a ∷ []))
                  (ap (node_at s'.next) at_tail ∙ put_node);
        }))
  Advances-cases (inr (inr (head, tail))) =
      let m = s'.tail.count - s'.head.count in
      let one_less : s.tail.count - s.head.count ≡ suc m = omega (arith, sound'.order) in
      inr (
        inr (record {
          heads = head;
          tails = tail;
          given =
              ap (items s.next s.val s.head.count) one_less
              ∙ ap (λ a. s.val a ∷ items s.next s.val (suc s.head.count) m) taken_node
              ∙ ap (λ l. s.val (s.next s.head.node) ∷ l)
                  (sym (
                    ap (λ k. items s'.next s'.val k m) head
                    ∙ items-same (suc s.head.count) m (omega (arith, sound'.order))));
        }))

-- Only the thread that takes a value moves the head.
pub head_moved-Takes :
    (c : ℕ) (s : Shared) (pc : MsPc)
    → (step c s pc).0.head.count ≢ s.head.count
    → Takes s pc (step c s pc).1
unfolding step create_ms_node tail_cae enq_cae deq_head_cae
head_moved-Takes zero s idle ne = absurd (ne refl)
head_moved-Takes (suc v) s idle ne = absurd (ne refl)
head_moved-Takes c s (enq_link new tail) ne = elim (Bool-cases (s.next tail.node == 0)) [
  | inl f ↦ absurd (rw (f, enq_cae, step) at ne refl)
  | inr f ↦ absurd (rw (f, enq_cae, step) at ne refl)
]
head_moved-Takes c s (enq_help_cae new tail next) ne =
    elim (Bool-cases (same_descriptor s.tail tail)) [
      | inl f ↦ absurd (rw (f, tail_cae, step) at ne refl)
      | inr f ↦ absurd (rw (f, tail_cae, step) at ne refl)
    ]
head_moved-Takes c s (enq_finish new tail) ne = elim (Bool-cases (same_descriptor s.tail tail)) [
  | inl f ↦ absurd (rw (f, tail_cae, step) at ne refl)
  | inr f ↦ absurd (rw (f, tail_cae, step) at ne refl)
]
head_moved-Takes c s (deq_help_cae tail next) ne = elim (Bool-cases (same_descriptor s.tail tail)) [
  | inl f ↦ absurd (rw (f, tail_cae, step) at ne refl)
  | inr f ↦ absurd (rw (f, tail_cae, step) at ne refl)
]
head_moved-Takes c s (deq_cae head next) ne = elim (Bool-cases (same_descriptor s.head head)) [
  | inr f ↦ absurd (rw (f, deq_head_cae, step) at ne refl)
  | inl f ↦ record {
    head = head;
    next = next;
    at = refl;
    is_head = ground arith;
    goes_on = rw (f, deq_head_cae, step);
  }
]
head_moved-Takes c s pc ne = absurd (ne refl)

-- In every interleaving of fewer than `2 ^ 64` turns of threads that enqueue and dequeue, a turn
-- leaves the list of the values in the queue as it is; or adds, at its back, the value of the node
-- behind the tail; or takes off its front the value of the node behind the head, and then the thread
-- whose turn it is goes on, in its `ms_dequeue`, to read the value of that node.
pub turn-QueueStep :
    (schedule : List (ℕ × ℕ)) (i c : ℕ)
    → length schedule + 1 < 2 ^ 64
    → let s = run_queue schedule in QueueStep s.shared (s.local i) (step c s.shared (s.local i))
turn-QueueStep schedule i c short =
    let s = run_queue schedule in
    let v = run_queue-Inv schedule (omega arith) in
    let r = step-Kept (length schedule) s.shared v.memory short c (s.local i) (v.threads i) in
    elim (Advances-cases (length schedule) s.shared _ v.memory r.sound r.grows r.advances) [
      | inl stays ↦ inl stays
      | inr (inl puts) ↦ inr (inl puts)
      | inr (inr gives) ↦
          inr (inr (gives, head_moved-Takes c s.shared (s.local i) (omega (arith, gives.heads))))
    ]

module _ (n : ℕ) (s : Shared) (sound : IsSound n s) where
  empties :
      (c : ℕ) (head tail : Descriptor)
      → ThreadKnows s (deq_compare head tail)
      → (step c s (deq_compare head tail)).1 ≡ dequeued_empty
      → contents s ≡ []
  unfolding step contents items
  empties c head tail k e = elim (Bool-cases (head.node == tail.node)) [
    | inr f ↦ absurd (cc (rw (f, step) at e))
    | inl f ↦ elim (Bool-cases (s.next head.node == 0)) [
      | inr g ↦ absurd (cc (rw (f, g, step) at e))
      | inl g ↦
          let h = k.knows.0 in
          let last =
            last_is_tail n s sound head.node h.place
              (omega (arith, h.place_le, h.limit_le, sound.order)) h.at (==→eq _ _ g) in
          let none : s.tail.count - s.head.count ≡ 0 = omega (arith, h.place_le, h.limit_le) in
          ap (items s.next s.val s.head.count) none
    ]
  ]

  step-empty :
      (c : ℕ) (pc : MsPc) → ThreadKnows s pc → (step c s pc).1 ≡ dequeued_empty → contents s ≡ []
  unfolding step
  step-empty zero idle k e = absurd cc
  step-empty (suc v) idle k e = absurd cc
  step-empty c (enq_next new tail) k e = elim (Bool-cases (s.next tail.node == 0)) [
    | inl f ↦ absurd (cc (rw (f, step) at e))
    | inr f ↦ absurd (cc (rw (f, step) at e))
  ]
  step-empty c (enq_link new tail) k e = elim (Bool-cases (enq_cae s tail.node new).1) [
    | inl f ↦ absurd (cc (rw (f, step) at e))
    | inr f ↦ absurd (cc (rw (f, step) at e))
  ]
  step-empty c (deq_compare head tail) k e = empties c head tail k e
  step-empty c (deq_cae head next) k e = elim (Bool-cases (same_descriptor s.head head)) [
    | inl f ↦ absurd (cc (rw (f, deq_head_cae, step) at e))
    | inr f ↦ absurd (cc (rw (f, deq_head_cae, step) at e))
  ]
  step-empty c pc k e = absurd cc

-- A call of `ms_dequeue` that returns EMPTY found the queue empty at the turn in which it settled
-- this, in every interleaving of fewer than `2 ^ 64` turns.
pub dequeued_empty-contents :
    (schedule : List (ℕ × ℕ)) (i c : ℕ)
    → length schedule < 2 ^ 64
    → (step c (run_queue schedule).shared ((run_queue schedule).local i)).1 ≡ dequeued_empty
    → contents (run_queue schedule).shared ≡ []
dequeued_empty-contents schedule i c short e =
    let s = run_queue schedule in
    let v = run_queue-Inv schedule short in
    step-empty (length schedule) s.shared v.memory c (s.local i) (v.threads i) e
