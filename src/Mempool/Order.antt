-- ===== src/Mempool/Order.antt =====
-- The chunks of the tree of host memory from left to right, and their order.
use aws_neuron_driver.Common.{
  ℕ, false, Option, none, some, List, [], ◌∷◌, ◌++◌, ◌+◌, ◌≤◌, ◌≡◌, ◌&&◌, ltb, leb, if◌then◌else◌,
  All,
}
use aws_neuron_driver.Mempool.{Chunk, Tree, leaf, node}

unfoldable pub to_list : Tree → List Chunk
to_list leaf = []
to_list (node l c r) = to_list l ++ c ∷ to_list r

-- The end of a chunk, which is the first address past it.
abbrev pub chunk_end : Chunk → ℕ
chunk_end c = c.pa + c.size

-- Chunks in the order of their addresses, none of which overlap.
abbrev pub IsOrdered : List Chunk → Type 0
IsOrdered [] = Unit
IsOrdered (c ∷ cs) = All (λ d. chunk_end c ≤ d.pa) cs × IsOrdered cs

-- The chunk that holds an address, by a look at one chunk after the other.
unfoldable pub chunk_at : (pa : ℕ) → List Chunk → Option Chunk
chunk_at pa [] = none
chunk_at pa (c ∷ cs) = if leb c.pa pa && ltb pa (chunk_end c) then some c else chunk_at pa cs

-- `c` does not hold `pa`.
abbrev pub Misses : (pa : ℕ) → Chunk → Type 0
Misses pa c = (leb c.pa pa && ltb pa (chunk_end c)) ≡ false

module _ {ℓ} {A : Type ℓ} where
  pub All-append {κ} : (P : A → Type κ) (xs ys : List A) → All P (xs ++ ys) → All P xs × All P ys
  All-append P [] ys h = (tt, h)
  All-append P (x ∷ xs) ys h = let rest = All-append P xs ys h.1 in ((h.0, rest.0), rest.1)

  pub All-map {κ μ} :
      {P : A → Type κ} {Q : A → Type μ} (f : (x : A) → P x → Q x) (xs : List A)
      → All P xs
      → All Q xs
  All-map f [] h = tt
  All-map f (x ∷ xs) h = (f x h.0, All-map f xs h.1)

-- What the order of the chunks around `c` says.
pub record Around (xs : List Chunk) (c : Chunk) (ys : List Chunk) : Type 0 where
  pub left_ordered : IsOrdered xs
  pub right_ordered : IsOrdered ys
  pub left_below : All (λ d. chunk_end d ≤ c.pa) xs
  pub right_above : All (λ d. chunk_end c ≤ d.pa) ys

pub IsOrdered-Around :
    (xs : List Chunk) (c : Chunk) (ys : List Chunk) → IsOrdered (xs ++ c ∷ ys) → Around xs c ys
IsOrdered-Around [] c ys h = record {
  left_ordered = tt;
  right_ordered = h.1;
  left_below = tt;
  right_above = h.0;
}
IsOrdered-Around (x ∷ xs) c ys h =
    let rest = IsOrdered-Around xs c ys h.1 in
    let heads = All-append (λ d. chunk_end x ≤ d.pa) xs (c ∷ ys) h.0 in
    record {
      left_ordered = (heads.0, rest.left_ordered);
      right_ordered = rest.right_ordered;
      left_below = (heads.1.0, rest.left_below);
      right_above = rest.right_above;
    }
