-- ===== src/Mempool/Insert.antt =====
-- `mc_insert_node` and `mc_remove_node` on the chunks of the tree from left to right, with what the
-- kernel documents of the balancing.
use aws_neuron_driver.Common.{
  List, [], ◌∷◌, ◌++◌, ◌≤◌, ◌<◌, ◌≡◌, refl, sym, ◌∙◌, ap, ◌≢◌, ◌⊎◌, inl, inr, ltb, if◌then◌else◌,
  All, arith, eq→==, ne→==-false, lt→ltb, le→ltb-false,
}
use aws_neuron_driver.Mempool.{
  Chunk, Tree, leaf, node, Kernel, link_node, list_del, mc_insert_node, mc_remove_node,
}
use aws_neuron_driver.Mempool.Order.{to_list, chunk_end, IsOrdered, All-map, IsOrdered-Around}
use native.Mathlib.Decide.{dec_lt}

-- Where a chunk goes in a list in the order of addresses.
unfoldable pub place : Chunk → List Chunk → List Chunk
place c [] = c ∷ []
place c (d ∷ ds) = if ltb c.pa d.pa then c ∷ (d ∷ ds) else d ∷ place c ds

-- The balancing keeps the chunks in their order, and removal takes one out: what the kernel's
-- `rb_insert_color` and `rb_erase` promise.
pub record IsBalanced {G K : Type 0} (k : Kernel G K) : Type 0 where
  pub color_keeps : (c : Chunk) (t : Tree) → to_list (k.rb_insert_color c t) ≡ to_list t
  pub erase_takes : (c : Chunk) (t : Tree) → to_list (k.rb_erase c t) ≡ list_del c.mc (to_list t)

place-left :
    (c : Chunk) (xs : List Chunk) (d : Chunk) (ys : List Chunk)
    → c.pa < d.pa
    → place c (xs ++ d ∷ ys) ≡ place c xs ++ d ∷ ys
unfolding place
place-left c [] d ys h = ground arith
place-left c (x ∷ xs) d ys h = elim (dec_lt c.pa x.pa) [
  | yes k ↦ ground arith
  | no k ↦ ground (arith, place-left c xs d ys h)
]

place-right :
    (c : Chunk) (xs ys : List Chunk)
    → All (λ x. x.pa ≤ c.pa) xs
    → place c (xs ++ ys) ≡ xs ++ place c ys
unfolding place
place-right c [] ys h = refl
place-right c (x ∷ xs) ys h = ground (arith, h.0, place-right c xs ys h.1)

place-past :
    (c : Chunk) (xs : List Chunk) (d : Chunk) (ys : List Chunk)
    → d.pa ≤ c.pa
    → All (λ x. x.pa ≤ c.pa) xs
    → place c (xs ++ d ∷ ys) ≡ xs ++ d ∷ place c ys
unfolding place
place-past c xs d ys h all =
    place-right c xs (d ∷ ys) all ∙ ap (λ zs. xs ++ zs) (rw (le→ltb-false c.pa d.pa h) refl)

link_node-place :
    (c : Chunk) (t : Tree) → IsOrdered (to_list t) → to_list (link_node c t) ≡ place c (to_list t)
unfolding link_node to_list place
link_node-place c leaf o = refl
link_node-place c (node l d r) o =
    let a = IsOrdered-Around (to_list l) d (to_list r) o in
    elim (dec_lt c.pa d.pa) [
      | yes h ↦ rw (lt→ltb c.pa d.pa h) (
          ap (λ xs. xs ++ d ∷ to_list r) (link_node-place c l a.left_ordered)
          ∙ sym (place-left c (to_list l) d (to_list r) h))
      | no h ↦ rw (le→ltb-false c.pa d.pa (omega arith)) (
          ap (λ xs. to_list l ++ d ∷ xs) (link_node-place c r a.right_ordered)
          ∙ sym (
              place-past c (to_list l) d (to_list r) (omega arith)
                (All-map (λ x e. omega arith) (to_list l) a.left_below)))
    ]

-- Two chunks that do not overlap.
abbrev pub Apart : Chunk → Chunk → Type 0
Apart c d = (chunk_end c ≤ d.pa) ⊎ (chunk_end d ≤ c.pa)

pub All-place {κ} :
    (P : Chunk → Type κ) (c : Chunk) (xs : List Chunk) → P c → All P xs → All P (place c xs)
unfolding place
All-place P c [] p h = (p, tt)
All-place P c (x ∷ xs) p h = elim (dec_lt c.pa x.pa) [
  | yes k ↦ rw (lt→ltb c.pa x.pa k) (p, h)
  | no k ↦ rw (le→ltb-false c.pa x.pa (omega arith)) (h.0, All-place P c xs p h.1)
]

place-IsOrdered :
    (c : Chunk) (xs : List Chunk)
    → 0 < c.size
    → IsOrdered xs
    → All (Apart c) xs
    → IsOrdered (place c xs)
unfolding place
place-IsOrdered c [] pos o ap = (tt, tt)
place-IsOrdered c (x ∷ xs) pos o ap = elim (dec_lt c.pa x.pa) [
  | yes k ↦
      let before : chunk_end c ≤ x.pa = elim (ap.0) [ inl e ↦ e | inr e ↦ omega arith ] in
      rw (lt→ltb c.pa x.pa k) ((before, All-map (λ d e. omega arith) xs o.0), o)
  | no k ↦
      let after : chunk_end x ≤ c.pa = elim (ap.0) [ inl e ↦ omega arith | inr e ↦ e ] in
      rw (le→ltb-false c.pa x.pa (omega arith))
        (All-place (λ d. chunk_end x ≤ d.pa) c xs after o.0, place-IsOrdered c xs pos o.1 ap.1)
]

list_del-place :
    (c : Chunk) (xs : List Chunk) → All (λ d. d.mc ≢ c.mc) xs → list_del c.mc (place c xs) ≡ xs
unfolding place list_del
list_del-place c [] h = rw (eq→== c.mc c.mc refl) refl
list_del-place c (x ∷ xs) h = elim (dec_lt c.pa x.pa) [
  | yes k ↦ rw (lt→ltb c.pa x.pa k) (rw (eq→== c.mc c.mc refl) refl)
  | no k ↦
      rw (le→ltb-false c.pa x.pa (omega arith))
        (rw (ne→==-false x.mc c.mc h.0) (ap (λ ys. x ∷ ys) (list_del-place c xs h.1)))
]

module _ {G K : Type 0} (k : Kernel G K) (b : IsBalanced k) where
  pub mc_insert_node-place :
      (t : Tree) (c : Chunk)
      → IsOrdered (to_list t)
      → to_list (mc_insert_node k t c) ≡ place c (to_list t)
  unfolding mc_insert_node
  mc_insert_node-place t c o = b.color_keeps c (link_node c t) ∙ link_node-place c t o

  -- Inserting a chunk of at least one byte that overlaps none of a tree in order leaves the tree
  -- in order, when the kernel balances trees as it documents.
  pub mc_insert_node-IsOrdered :
      (t : Tree) (c : Chunk)
      → 0 < c.size
      → IsOrdered (to_list t)
      → All (Apart c) (to_list t)
      → IsOrdered (to_list (mc_insert_node k t c))
  mc_insert_node-IsOrdered t c pos o apart =
      rw (mc_insert_node-place t c o) (place-IsOrdered c (to_list t) pos o apart)

  -- Removal takes a chunk out of the tree that an insertion put there, and no other.
  pub mc_remove_node-mc_insert_node :
      (t : Tree) (c : Chunk)
      → IsOrdered (to_list t)
      → All (λ d. d.mc ≢ c.mc) (to_list t)
      → to_list (mc_remove_node k (mc_insert_node k t c) c) ≡ to_list t
  unfolding mc_remove_node
  mc_remove_node-mc_insert_node t c o fresh =
      b.erase_takes c (mc_insert_node k t c)
      ∙ ap (λ xs. list_del c.mc xs) (mc_insert_node-place t c o)
      ∙ list_del-place c (to_list t) fresh
