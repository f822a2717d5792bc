-- ===== src/Nodes/Size.antt =====
-- `stack_size` of the stacks: a walk along the nodes of each.
use semantic_relaxation_dcbo.Prelude.{
  ℕ, zero, suc, ◌+◌, ◌^◌, ◌<◌, ◌≡◌, Option, none, some, List, [], ◌∷◌, length, total, arith, refl,
  ap, ◌∙◌, ◌==◌, Bool-cases, ==→eq, inl, inr, if◌then◌else◌, add64, ◌>>=◌,
}
use semantic_relaxation_dcbo.Nodes.Heap.{Heap, IsHeap, Chain}
use semantic_relaxation_dcbo.Nodes.Stacks.{Holds}

-- `while (node != NULL) { size++; node = node->next; }` on fuel; the size that it leaves.
unfoldable pub count_nodes : (fuel : ℕ) → Heap → (size node : ℕ) → Option ℕ
count_nodes zero h size node = none
count_nodes (suc fuel) h size node =
    let rest = count_nodes fuel h (add64 size 1) (h.next node) in
    if node == 0 then some size else rest

-- `stack_size`, over the stacks below `k`
unfoldable pub stack_size : (fuel : ℕ) → Heap → (tops : ℕ → ℕ) → (k : ℕ) → Option ℕ
unfolding count_nodes
stack_size fuel h tops zero = some 0
stack_size fuel h tops (suc k) = do
  size ← stack_size fuel h tops k
  count_nodes fuel h size (tops k)

module _ (h : Heap) (ok : IsHeap h) where
  -- Fuel beyond the length of the chain is enough.
  count_nodes-length :
      (fuel size node : ℕ) (values : List ℕ)
      → Chain h node values
      → length values < fuel
      → size + length values < 2 ^ 64
      → count_nodes fuel h size node ≡ some (size + length values)
  unfolding count_nodes
  count_nodes-length zero size node values c enough fits = absurd (omega arith)
  count_nodes-length (suc fuel) size node [] c enough fits =
      rw (c, count_nodes) (let e : size ≡ size + 0 = omega arith in ap some e)
  count_nodes-length (suc fuel) size node (v ∷ rest) c enough fits = elim (Bool-cases (node == 0)) [
    | inl e ↦ absurd (cc (c.0, ap h.linked (==→eq node 0 e), ok.null))
    | inr e ↦
        let next : count_nodes fuel h (add64 size 1) (h.next node)
            ≡ some (add64 size 1 + length rest) =
          count_nodes-length fuel (add64 size 1) (h.next node) rest c.2 (omega arith)
            (omega arith) in
        let sum : add64 size 1 + length rest ≡ size + suc (length rest) = omega arith in
        rw (e, count_nodes) (next ∙ ap some sum)
  ]

  -- The number of the values on the stacks.
  pub stack_size-total :
      (fuel : ℕ) (tops : ℕ → ℕ) (contents : ℕ → List ℕ) (k : ℕ)
      → Holds h tops contents
      → ((i : ℕ) → i < k → length (contents i) < fuel)
      → total (λ i. length (contents i)) k < 2 ^ 64
      → stack_size fuel h tops k ≡ some (total (λ i. length (contents i)) k)
  unfolding stack_size total
  stack_size-total fuel tops contents zero holds enough fits = refl
  stack_size-total fuel tops contents (suc k) holds enough fits =
      let before =
        stack_size-total fuel tops contents k holds (λ i lt. enough i (omega arith))
          (omega arith) in
      rw before (
        count_nodes-length fuel (total (λ i. length (contents i)) k) (tops k) (contents k) (holds k)
          (enough k (omega arith)) fits)
