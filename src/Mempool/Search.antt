-- ===== src/Mempool/Search.antt =====
-- `mpset_search_mc` finds the chunk that holds an address.
use aws_neuron_driver.Common.{
  ℕ, none, some, List, [], ◌∷◌, ◌++◌, ◌≤◌, ◌<◌, ◌≡◌, refl, sym, ◌∙◌, Bool-cases, inl, inr, leb, ltb,
  ◌&&◌, ◌≢◌, All, arith, u64, ◌+◌, ◌^◌,
}
use aws_neuron_driver.Mempool.{Chunk, Tree, leaf, node, search_mc}
use aws_neuron_driver.Mempool.Order.{
  to_list, chunk_end, IsOrdered, chunk_at, Misses, All-append, All-map, IsOrdered-Around,
}
use mathlib.Core.Option.{some-injective}
use native.Mathlib.Decide.{dec_le, dec_lt}

chunk_at-left :
    (pa : ℕ) (xs ys : List Chunk) → All (Misses pa) xs → chunk_at pa (xs ++ ys) ≡ chunk_at pa ys
unfolding chunk_at
chunk_at-left pa [] ys h = refl
chunk_at-left pa (x ∷ xs) ys h = rw h.0 (chunk_at-left pa xs ys h.1)

chunk_at-none : (pa : ℕ) (ys : List Chunk) → All (Misses pa) ys → chunk_at pa ys ≡ none
unfolding chunk_at
chunk_at-none pa [] h = refl
chunk_at-none pa (y ∷ ys) h = rw h.0 (chunk_at-none pa ys h.1)

chunk_at-right :
    (pa : ℕ) (xs ys : List Chunk) → All (Misses pa) ys → chunk_at pa (xs ++ ys) ≡ chunk_at pa xs
unfolding chunk_at
chunk_at-right pa [] ys h = chunk_at-none pa ys h
chunk_at-right pa (x ∷ xs) ys h = rw (chunk_at-right pa xs ys h) refl

pub below-Misses : (pa : ℕ) (c : Chunk) → chunk_end c ≤ pa → Misses pa c
below-Misses pa c h = ground arith

pub above-Misses : (pa : ℕ) (c : Chunk) → pa < c.pa → Misses pa c
above-Misses pa c h = ground arith

pub here-holds :
    (pa : ℕ) (c : Chunk) (ys : List Chunk)
    → c.pa ≤ pa
    → pa < chunk_end c
    → chunk_at pa (c ∷ ys) ≡ some c
unfolding chunk_at
here-holds pa c ys h k = ground arith

search_mc-here :
    (l : Tree) (c : Chunk) (r : Tree) (pa : ℕ)
    → c.pa ≤ pa
    → pa ≤ chunk_end c
    → chunk_end c < 2 ^ 64
    → search_mc (node l c r) pa ≡ some c
unfolding search_mc
search_mc-here l c r pa h k fits =
    let whole : u64 (c.pa + c.size) ≡ c.pa + c.size = omega arith in ground (arith, whole)

search_mc-left :
    (l : Tree) (c : Chunk) (r : Tree) (pa : ℕ)
    → pa < c.pa
    → search_mc (node l c r) pa ≡ search_mc l pa
unfolding search_mc
search_mc-left l c r pa h = ground arith

search_mc-right :
    (l : Tree) (c : Chunk) (r : Tree) (pa : ℕ)
    → chunk_end c < pa
    → chunk_end c < 2 ^ 64
    → search_mc (node l c r) pa ≡ search_mc r pa
unfolding search_mc
search_mc-right l c r pa h fits =
    let whole : u64 (c.pa + c.size) ≡ c.pa + c.size = omega arith in ground (arith, whole)

-- A chunk that the search finds holds the address, or ends at it, on words of 64 bits.
pub search_mc-holds :
    (t : Tree) (pa : ℕ) (c : Chunk)
    → search_mc t pa ≡ some c
    → (c.pa ≤ pa) × (pa ≤ u64 (c.pa + c.size))
unfolding search_mc
search_mc-holds leaf pa c e = absurd (cc e)
search_mc-holds (node l d r) pa c e =
    elim (Bool-cases (leb d.pa pa && leb pa (u64 (d.pa + d.size)))) [
      | inl here ↦
          let same : d ≡ c = some-injective d c (rw here at e) in
          let low : d.pa ≤ pa = ground (arith, here) in
          let high : pa ≤ u64 (d.pa + d.size) = ground (arith, here) in
          (rw same at low, rw same at high)
      | inr not_here ↦ elim (Bool-cases (ltb pa d.pa)) [
        | inl left ↦ search_mc-holds l pa c (rw left at (rw not_here at e))
        | inr right ↦ search_mc-holds r pa c (rw right at (rw not_here at e))
      ]
    ]

-- On a tree whose chunks are in order and do not overlap, and at an address at which no chunk
-- ends, with all chunks below 2 ^ 64, `mpset_search_mc` is a look at one chunk after the other
-- for the one that holds the address.
pub search_mc-chunk_at :
    (t : Tree) (pa : ℕ)
    → IsOrdered (to_list t)
    → All (λ c. chunk_end c ≢ pa) (to_list t)
    → All (λ c. chunk_end c < 2 ^ 64) (to_list t)
    → search_mc t pa ≡ chunk_at pa (to_list t)
unfolding search_mc to_list
search_mc-chunk_at leaf pa o off fit = sym (chunk_at-none pa [] tt)
search_mc-chunk_at (node l c r) pa o off fit =
    let a = IsOrdered-Around (to_list l) c (to_list r) o in
    let offs = All-append (λ c. chunk_end c ≢ pa) (to_list l) (c ∷ to_list r) off in
    let fits = All-append (λ c. chunk_end c < 2 ^ 64) (to_list l) (c ∷ to_list r) fit in
    let below = λ (h : c.pa ≤ pa).
      chunk_at-left pa (to_list l) (c ∷ to_list r)
        (All-map (λ d e. below-Misses pa d (omega arith)) (to_list l) a.left_below) in
    elim (dec_lt pa c.pa) [
      | yes h ↦
          search_mc-left l c r pa h
          ∙ search_mc-chunk_at l pa a.left_ordered offs.0 fits.0
          ∙ sym (
              chunk_at-right pa (to_list l) (c ∷ to_list r) (
                above-Misses pa c h,
                All-map (λ d e. above-Misses pa d (omega arith)) (to_list r) a.right_above,
              ))
      | no h ↦ elim (dec_le pa (chunk_end c)) [
        | yes k ↦
            search_mc-here l c r pa (omega arith) k fits.1.0
            ∙ sym (
                below (omega arith)
                ∙ here-holds pa c (to_list r) (omega arith) (omega (arith, offs.1.0)))
        | no k ↦
            search_mc-right l c r pa (omega arith) fits.1.0
            ∙ search_mc-chunk_at r pa a.right_ordered offs.1.1 fits.1.1
            ∙ sym (
                below (omega arith)
                ∙ chunk_at-left pa (c ∷ []) (to_list r) (below-Misses pa c (omega arith), tt))
      ]
    ]
