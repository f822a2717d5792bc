-- ===== src/TwoDc/Stack/Counts.antt =====
-- The counts of the descriptors of src/2Dc-stack: a turn changes them as its event says.
use semantic_relaxation_dcbo.Prelude.{
  ℕ, zero, suc, ◌+◌, ◌^◌, ◌<◌, ◌≡◌, ◌≢◌, true, arith, refl, sym, ◌∙◌, ◌==◌, Bool-cases, inl, inr,
  ==→ne, update, add64, sub64,
}
use semantic_relaxation_dcbo.Nodes.Stacks.{Event, no_event, pushed_on, popped_off}
use semantic_relaxation_dcbo.TwoDc.Window.{Params, Thread, put_found, get_found}
use semantic_relaxation_dcbo.TwoDc.Stack.{
  Descriptor, same_descriptor, Shared, StackPc, idle, pushing, push_cae, pushed, popping, pop_cae,
  pop_val, popped, popped_empty, Local, stack_cae, push_cae_step, pop_cae_step, push_step, pop_step,
  begin, step,
}
use semantic_relaxation_dcbo.TwoDc.Stack.Refine.{pc_event}

abbrev pub counts_of : Shared → ℕ → ℕ
counts_of s k = (s.array k).count

-- What an event does to the counts.
abbrev pub Counted : Event → Shared → Shared → Type 0
Counted no_event s s' = (k : ℕ) → counts_of s' k ≡ counts_of s k
Counted (pushed_on i v) s s' =
    (counts_of s' i ≡ counts_of s i + 1) × ((k : ℕ) → k ≢ i → counts_of s' k ≡ counts_of s k)
Counted (popped_off i v) s s' =
    (counts_of s i ≡ counts_of s' i + 1) × ((k : ℕ) → k ≢ i → counts_of s' k ≡ counts_of s k)

same_descriptor→eq :
    (d e : Descriptor) → same_descriptor d e ≡ true → (d.node ≡ e.node) × (d.count ≡ e.count)
same_descriptor→eq d e h = (ground arith, ground arith)

count_here :
    (array : ℕ → Descriptor) (i : ℕ) (d : Descriptor) → (update array i d i).count ≡ d.count
count_here array i d = elim (Bool-cases (i == i)) [
  | inl e ↦ rw e refl
  | inr e ↦ absurd (==→ne i i e refl)
]

count_elsewhere :
    (array : ℕ → Descriptor) (i : ℕ) (d : Descriptor) (k : ℕ)
    → k ≢ i
    → (update array i d k).count ≡ (array k).count
count_elsewhere array i d k ne = ground arith

module _ (set : Params) (s : Shared) (t : Thread) where
  -- A turn of the thread that leaves `r`.
  abbrev Counts : StackPc → Shared × Local → Type 0
  Counts pc r = Counted (pc_event s t.index pc r.1.pc) s r.0

  push_cae-Counts :
      (new_node : ℕ) (d : Descriptor)
      → counts_of s t.index + 1 < 2 ^ 64
      → Counts (push_cae new_node d) (push_cae_step s t new_node d)
  unfolding push_cae_step stack_cae
  push_cae-Counts new_node d fits = elim (Bool-cases (same_descriptor (s.array t.index) d)) [
    | inr e ↦ rw (e, push_cae_step, stack_cae) (λ k. refl)
    | inl e ↦
        let (node, count) = same_descriptor→eq (s.array t.index) d e in
        let one : add64 d.count 1 ≡ counts_of s t.index + 1 = omega arith in
        rw (e, push_cae_step, stack_cae)
          (count_here s.array t.index _ ∙ one, count_elsewhere s.array t.index _)
  ]

  pop_cae-Counts :
      (d : Descriptor) (next : ℕ)
      → counts_of s t.index < 2 ^ 64
      → (d.node ≡ (s.array t.index).node → 0 < counts_of s t.index)
      → Counts (pop_cae d next) (pop_cae_step s t d next)
  unfolding pop_cae_step stack_cae
  pop_cae-Counts d next fits some_left = elim (Bool-cases (same_descriptor (s.array t.index) d)) [
    | inr e ↦ rw (e, pop_cae_step, stack_cae) (λ k. refl)
    | inl e ↦
        let (node, count) = same_descriptor→eq (s.array t.index) d e in
        let left = some_left (sym node) in
        let one : counts_of s t.index ≡ sub64 d.count 1 + 1 = omega arith in
        let here = count_here s.array t.index (record { node = next; count = sub64 d.count 1 }) in
        rw (e, pop_cae_step, stack_cae)
          (omega (arith, one, here), count_elsewhere s.array t.index _)
  ]

  pub step-Counts :
      (draw : ℕ) (pc : StackPc)
      → counts_of s t.index + 1 < 2 ^ 64
      → ((d : Descriptor) (next : ℕ)
          → pc ≡ pop_cae d next
          → d.node ≡ (s.array t.index).node
          → 0 < counts_of s t.index)
      → Counts pc (step set draw s (record { thread = t; pc = pc }))
  unfolding step begin push_step pop_step
  step-Counts zero idle fits some_left = λ k. refl
  step-Counts (suc v) idle fits some_left = λ k. refl
  step-Counts draw (pushing new_node (put_found d)) fits some_left = λ k. refl
  step-Counts draw (pushing new_node pc) fits some_left = λ k. refl
  step-Counts draw (push_cae new_node d) fits some_left = push_cae-Counts new_node d fits
  step-Counts draw pushed fits some_left = λ k. refl
  step-Counts draw (popping (get_found d)) fits some_left = λ k. refl
  step-Counts draw (popping pc) fits some_left = λ k. refl
  step-Counts draw (pop_cae d next) fits some_left =
      pop_cae-Counts d next (omega arith) (some_left d next refl)
  step-Counts draw (pop_val node) fits some_left = λ k. refl
  step-Counts draw (popped v) fits some_left = λ k. refl
  step-Counts draw popped_empty fits some_left = λ k. refl
