-- ===== src/TwoDd/Stack/Steps.antt =====
-- Every turn of src/2Dd-stack keeps the bounds of the window.
use semantic_relaxation_dcbo.Prelude.{
  ℕ, zero, suc, ◌+◌, ◌*◌, ◌^◌, ◌≤◌, ◌<◌, ◌≡◌, ◌≢◌, true, false, arith, refl, sym, ap, subst, ◌∙◌,
  ◌==◌, Bool-cases, inl, inr, ==→eq, ==→ne, update, add32,
}
use semantic_relaxation_dcbo.Nodes.Heap.{Heap, link, set_next, create_node}
use semantic_relaxation_dcbo.Nodes.Stacks.{no_event}
use semantic_relaxation_dcbo.TwoDd.Window.{
  Params, Windows, Thread, PutPc, put_enter, put_found, put_step, GetPc, get_enter, get_found,
  get_step,
}
use semantic_relaxation_dcbo.TwoDd.Window.Bounds.{IsBounded, IsBehind, IsSplice}
use semantic_relaxation_dcbo.TwoDd.Window.Put.{PutKept, put_step-kept}
use semantic_relaxation_dcbo.TwoDd.Window.Get.{GetKept, get_step-kept}
use semantic_relaxation_dcbo.TwoDd.Window.Written.{Fits, Fits-Grows, Fits-IsBounded}
use semantic_relaxation_dcbo.TwoDd.Stack.{
  Descriptor, same_descriptor, put_count_of, get_count_of, splice, Shared, StackPc, idle, pushing,
  push_cae, pushed, popping, pop_cae, pop_val, popped, popped_empty, Local, do_cae, push_cae_step,
  pop_cae_step, push_step, pop_step, begin, step,
}
use semantic_relaxation_dcbo.TwoDd.Stack.Refine.{pc_event}
use semantic_relaxation_dcbo.TwoDd.Stack.Counts.{
  puts_of, gets_of, Counted, IsCounted, CountKnows, CountKept, same_descriptor→eq,
}

module _ (set : Params) (n : ℕ) (s : Shared) (t : Thread) (few_turns : n + 1 < 2 ^ 32)
    (shallow : n + 2 * set.depth < 2 ^ 64) (c : IsCounted set n s)
    (behind : IsBehind set s.windows t) where
  abbrev at : StackPc → Local
  at pc = record { thread = t; pc = pc }

  put_max_fits : s.windows.put_max + set.depth < 2 ^ 64
  put_max_fits = omega (arith, c.bounded.le_puts t.index behind.index, c.few t.index)

  -- A turn that leaves the descriptors alone.
  moved :
      (w : Windows) (h : Heap) (t' : Thread) (pc pc' : StackPc)
      → IsBounded set (puts_of s) (gets_of s) w
      → IsBehind set w t'
      → s.windows.put_max ≤ w.put_max
      → s.windows.get_max ≤ w.get_max
      → pc_event s t.index pc pc' ≡ no_event
      → CountKnows set (record s { windows = w; heap = h }) t' pc'
      → CountKept set n s
          (at pc)
          (record s { windows = w; heap = h }, record { thread = t'; pc = pc' })
  moved w h t' pc pc' bounded behind' put_le get_le none_done k = record {
    counted = record { bounded = bounded; few = λ i. omega (arith, c.few i) };
    known = record { behind = behind'; knows = k };
    grows = record {
      more_puts = λ i. omega arith;
      more_gets = λ i. omega arith;
      put_max = put_le;
      get_max = get_le;
    };
    counts =
        subst (λ e. Counted e s (record s { windows = w; heap = h })) (sym none_done)
          (λ i. refl, λ i. refl);
  }

  -- A turn that leaves the windows alone as well.
  unchanged :
      (h : Heap) (pc pc' : StackPc)
      → pc_event s t.index pc pc' ≡ no_event
      → CountKnows set (record s { heap = h }) t pc'
      → CountKept set n s (at pc) (record s { heap = h }, at pc')
  unchanged h pc pc' none_done k =
      moved s.windows h t pc pc' c.bounded behind (omega arith) (omega arith) none_done k

  -- A compare-exchange that writes a descriptor.
  record Raises (e : Descriptor) : Type 0 where
    more_puts : puts_of s t.index ≤ e.put_count
    more_gets : gets_of s t.index ≤ e.get_count
    puts_le : e.put_count ≤ s.windows.put_max
    order : e.get_count ≤ e.put_count
    one_more : e.put_count ≤ puts_of s t.index + 1

  module _ (h : Heap) (e : Descriptor) (raises : Raises e) where
    open raises use {more_puts, more_gets, puts_le, order, one_more}

    abbrev written : Shared
    written = record s { array = update s.array t.index e; heap = h }

    put_here : puts_of written t.index ≡ e.put_count
    put_here = ground arith

    get_here : gets_of written t.index ≡ e.get_count
    get_here = ground arith

    put_elsewhere : (k : ℕ) → k ≢ t.index → puts_of written k ≡ puts_of s k
    put_elsewhere k ne = ground arith

    get_elsewhere : (k : ℕ) → k ≢ t.index → gets_of written k ≡ gets_of s k
    get_elsewhere k ne = ground arith

    written-Fits :
        Fits (puts_of s) (gets_of s) s.windows t.index (puts_of written) (gets_of written)
    written-Fits = record {
      more_puts = omega (arith, put_here);
      more_gets = omega (arith, get_here);
      puts_le = omega (arith, put_here);
      gets-le-puts = omega (arith, put_here, get_here);
      puts_same = put_elsewhere;
      gets_same = get_elsewhere;
    }

    put_same : e.put_count ≡ puts_of s t.index → (k : ℕ) → puts_of written k ≡ puts_of s k
    put_same same k = elim (Bool-cases (k == t.index)) [
      | inl f ↦
          let back : k ≡ t.index = ==→eq k t.index f in
          ap (puts_of written) back ∙ put_here ∙ same ∙ ap (puts_of s) (sym back)
      | inr f ↦ put_elsewhere k (==→ne k t.index f)
    ]

    get_same : e.get_count ≡ gets_of s t.index → (k : ℕ) → gets_of written k ≡ gets_of s k
    get_same same k = elim (Bool-cases (k == t.index)) [
      | inl f ↦
          let back : k ≡ t.index = ==→eq k t.index f in
          ap (gets_of written) back ∙ get_here ∙ same ∙ ap (gets_of s) (sym back)
      | inr f ↦ get_elsewhere k (==→ne k t.index f)
    ]

    written_few : (k : ℕ) → puts_of written k ≤ n + 1
    written_few k = elim (Bool-cases (k == t.index)) [
      | inl f ↦
          let back : k ≡ t.index = ==→eq k t.index f in
          omega (arith, ap (puts_of written) back, put_here, c.few t.index)
      | inr f ↦ omega (arith, put_elsewhere k (==→ne k t.index f), c.few k)
    ]

    written-CountKept :
        (pc pc' : StackPc)
        → Counted (pc_event s t.index pc pc') s written
        → CountKnows set written t pc'
        → CountKept set n s (at pc) (written, at pc')
    written-CountKept pc pc' counts k = record {
      counted = record {
        bounded = Fits-IsBounded _ _ _ t.index _ _ written-Fits set c.bounded;
        few = λ k. omega (arith, written_few k);
      };
      known = record { behind = behind; knows = k };
      grows = Fits-Grows _ _ _ t.index _ _ written-Fits;
      counts = counts;
    }

  push_cae-CountKept :
      (new_node : ℕ) (d : Descriptor)
      → d.put_count < s.windows.put_max
      → CountKept set n s (at (push_cae new_node d)) (push_cae_step s t new_node d)
  unfolding push_cae_step do_cae
  push_cae-CountKept new_node d below = elim (Bool-cases (same_descriptor (s.array t.index) d)) [
    | inr e ↦
        rw (e, push_cae_step, do_cae)
          (unchanged s.heap (push_cae new_node d) (pushing new_node (put_enter true)) refl tt)
    | inl e ↦
        let (node, put, get) = same_descriptor→eq (s.array t.index) d e in
        let few = c.few t.index in
        let order = c.bounded.gets-le-puts t.index behind.index in
        let one : add32 d.put_count 1 ≡ puts_of s t.index + 1 = omega arith in
        let new : Descriptor = record {
          node = new_node;
          put_count = add32 d.put_count 1;
          get_count = d.get_count;
        } in
        let raises : Raises new = record {
          more_puts = omega arith;
          more_gets = omega arith;
          puts_le = omega arith;
          order = omega arith;
          one_more = omega arith;
        } in
        let h = link s.heap new_node in
        rw (e, push_cae_step, do_cae)
          (written-CountKept h new raises (push_cae new_node d) pushed
            (
              put_here h new raises ∙ one,
              put_elsewhere h new raises,
              get_same h new raises (sym get),
            )
            tt)
  ]

  pop_cae-CountKept :
      (d : Descriptor) (next : ℕ)
      → (d.node ≡ (s.array t.index).node → gets_of s t.index < puts_of s t.index)
      → CountKept set n s (at (pop_cae d next)) (pop_cae_step s t d next)
  unfolding pop_cae_step do_cae
  pop_cae-CountKept d next some_left = elim (Bool-cases (same_descriptor (s.array t.index) d)) [
    | inr e ↦
        rw (e, pop_cae_step, do_cae)
          (unchanged s.heap (pop_cae d next) (popping (get_enter true)) refl tt)
    | inl e ↦
        let (node, put, get) = same_descriptor→eq (s.array t.index) d e in
        let few = c.few t.index in
        let left = some_left (sym node) in
        let puts_le = c.bounded.puts_le t.index behind.index in
        let one : add32 d.get_count 1 ≡ gets_of s t.index + 1 = omega arith in
        let new : Descriptor = record {
          node = next;
          put_count = d.put_count;
          get_count = add32 d.get_count 1;
        } in
        let raises : Raises new = record {
          more_puts = omega arith;
          more_gets = omega arith;
          puts_le = omega arith;
          order = omega arith;
          one_more = omega arith;
        } in
        rw (e, pop_cae_step, do_cae)
          (written-CountKept s.heap new raises (pop_cae d next) (pop_val d.node)
            (
              get_here s.heap new raises ∙ one,
              get_elsewhere s.heap new raises,
              put_same s.heap new raises (sym put),
            )
            tt)
  ]

  splice-IsSplice : IsSplice put_count_of get_count_of splice
  splice-IsSplice = record { put_either = λ d e. inr refl; get_either = λ d e. inr refl }

  push_step-CountKept :
      (draw new_node : ℕ) (pc : PutPc Descriptor)
      → CountKnows set s t (pushing new_node pc)
      → CountKept set n s (at (pushing new_node pc)) (push_step set draw s t new_node pc)
  unfolding push_step
  push_step-CountKept draw new_node (put_found d) k =
      unchanged (set_next s.heap new_node d.node) (pushing new_node (put_found d))
        (push_cae new_node d) refl k
  push_step-CountKept draw new_node pc k =
      let r = put_step put_count_of get_count_of set splice draw s.array s.windows t pc in
      let kept : PutKept put_count_of get_count_of set (puts_of s) (gets_of s) s.windows r =
        put_step-kept put_count_of get_count_of set (puts_of s) (gets_of s) s.windows t c.bounded
          behind splice draw s.array pc splice-IsSplice (λ i. refl) put_max_fits k in
      moved r.windows s.heap r.thread (pushing new_node pc) (pushing new_node r.pc) kept.bounded
        kept.behind kept.grows (omega (arith, kept.get_same)) refl kept.knows

  pop_step-CountKept :
      (draw : ℕ) (pc : GetPc Descriptor)
      → CountKnows set s t (popping pc)
      → CountKept set n s (at (popping pc)) (pop_step set draw s t pc)
  unfolding pop_step
  pop_step-CountKept draw (get_found d) k = elim (Bool-cases (d.node == 0)) [
    | inl e ↦ rw (e, pop_step) (unchanged s.heap (popping (get_found d)) popped_empty refl tt)
    | inr e ↦
        rw (e, pop_step)
          (unchanged s.heap (popping (get_found d)) (pop_cae d (s.heap.next d.node)) refl k)
  ]
  pop_step-CountKept draw pc k =
      let r = get_step put_count_of get_count_of set splice draw s.array s.array s.windows t pc in
      let kept : GetKept put_count_of get_count_of set (puts_of s) (gets_of s) s.windows r =
        get_step-kept put_count_of get_count_of set (puts_of s) (gets_of s) s.windows t c.bounded
          behind splice draw s.array s.array pc splice-IsSplice (λ i. refl) (λ i. refl) put_max_fits
          k in
      moved r.windows s.heap r.thread (popping pc) (popping r.pc) kept.bounded kept.behind
        (omega (arith, kept.put_same)) kept.grows refl kept.knows

  begin-CountKept : (draw : ℕ) → CountKept set n s (at idle) (begin set draw s t)
  unfolding begin
  begin-CountKept zero = unchanged s.heap idle (popping (get_enter false)) refl tt
  begin-CountKept (suc v) =
      unchanged (create_node s.heap (suc v)).0 idle (pushing s.heap.fresh (put_enter false)) refl tt

  pub step-CountKept :
      (draw : ℕ) (pc : StackPc)
      → CountKnows set s t pc
      → ((d : Descriptor) (next : ℕ)
          → pc ≡ pop_cae d next
          → d.node ≡ (s.array t.index).node
          → gets_of s t.index < puts_of s t.index)
      → CountKept set n s (at pc) (step set draw s (at pc))
  unfolding step
  step-CountKept draw idle k some_left = begin-CountKept draw
  step-CountKept draw (pushing new_node pc) k some_left = push_step-CountKept draw new_node pc k
  step-CountKept draw (push_cae new_node d) k some_left = push_cae-CountKept new_node d k
  step-CountKept draw pushed k some_left = unchanged s.heap pushed idle refl tt
  step-CountKept draw (popping pc) k some_left = pop_step-CountKept draw pc k
  step-CountKept draw (pop_cae d next) k some_left =
      pop_cae-CountKept d next (some_left d next refl)
  step-CountKept draw (pop_val node) k some_left =
      unchanged s.heap (pop_val node) (popped (s.heap.val node)) refl tt
  step-CountKept draw (popped v) k some_left = unchanged s.heap (popped v) idle refl tt
  step-CountKept draw popped_empty k some_left = unchanged s.heap popped_empty idle refl tt
