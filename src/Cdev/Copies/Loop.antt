-- ===== src/Cdev/Copies/Loop.antt =====
-- The loop over the pieces of a copy ends, and its pieces are the whole copy.
use aws_neuron_driver.Common.{
  ℕ, zero, suc, List, [], ◌∷◌, ◌+◌, ◌-◌, ◌*◌, ◌/◌, ◌^◌, ◌≤◌, ◌<◌, ◌≡◌, refl, ◌∙◌, ap, u32, sub32, M,
  ◌>>◌, pure, arith, ne→==-false,
}
use native.Mathlib.Decide.{ℕ_discrete, dec_lt}
use aws_neuron_driver.Cdev.Copies.{piece_size, copy_loop, copy_fuel}

pub record Piece : Type 0 where
  pub at : ℕ
  pub size : ℕ

-- Pieces one after the other, from `lo` to `hi`, none of them empty or longer than the bounce buffer.
abbrev pub Covers : (lo hi : ℕ) → List Piece → Type 0
Covers lo hi [] = lo ≡ hi
Covers lo hi (p ∷ ps) = (p.at ≡ lo) × (0 < p.size) × (p.size ≤ 65536) × Covers (lo + p.size) hi ps

-- A step for each piece.
unfoldable pub run_pieces :
    {S : Type 0} → ((at size : ℕ) → M S (Unit {0})) → List Piece → M S (Unit {0})
run_pieces f [] = pure tt
run_pieces f (p ∷ ps) = f p.at p.size >> run_pieces f ps

piece_size-last : (remaining : ℕ) → remaining < 65536 → piece_size remaining ≡ remaining
unfolding piece_size
piece_size-last remaining lt = ground arith

piece_size-whole :
    (remaining : ℕ) → 65536 ≤ remaining → remaining < 2 ^ 31 → piece_size remaining ≡ 65536
unfolding piece_size
piece_size-whole remaining le lt = ground arith

piece_size-negative : (remaining : ℕ) → 2 ^ 31 ≤ remaining → piece_size remaining ≡ remaining
unfolding piece_size
piece_size-negative remaining le = ground arith

-- One round of the loop.
copy_loop-round :
    {S : Type 0} (f : (at size : ℕ) → M S (Unit {0})) (fuel offset remaining size : ℕ)
    → 0 < remaining
    → piece_size remaining ≡ size
    → copy_loop f (suc fuel) offset remaining
      ≡ (f offset size >> copy_loop f fuel (u32 (offset + size)) (sub32 remaining size))
unfolding copy_loop
copy_loop-round f fuel offset remaining size pos e =
    rw (ne→==-false remaining 0 (λ z. omega (arith, z)))
      (ap (λ n. f offset n >> copy_loop f fuel (u32 (offset + n)) (sub32 remaining n)) e)

copy_loop-end :
    {S : Type 0} (f : (at size : ℕ) → M S (Unit {0})) (fuel offset remaining : ℕ)
    → remaining ≡ 0
    → copy_loop f (suc fuel) offset remaining ≡ pure tt
unfolding copy_loop
copy_loop-end f fuel offset remaining e = rw e refl

-- The pieces that a loop goes through from `offset` on.
abbrev Pieces :
    {S : Type 0} → ((at size : ℕ) → M S (Unit {0})) → (fuel offset remaining : ℕ) → Type 0
Pieces f fuel offset remaining =
    (ps : List Piece) × Covers offset (offset + remaining) ps
    × (copy_loop f fuel offset remaining ≡ run_pieces f ps)

-- A piece, and those after it.
Pieces-round :
    {S : Type 0} (f : (at size : ℕ) → M S (Unit {0})) (fuel offset remaining size : ℕ)
    → 0 < size
    → size ≤ 65536
    → size ≤ remaining
    → offset + remaining < 2 ^ 31
    → piece_size remaining ≡ size
    → Pieces f fuel (offset + size) (remaining - size)
    → Pieces f (suc fuel) offset remaining
unfolding run_pieces
Pieces-round f fuel offset remaining size pos fits part small e (ps, covers, same) =
    let at : u32 (offset + size) ≡ offset + size = omega arith in
    let left : sub32 remaining size ≡ remaining - size = omega arith in
    let total : offset + size + (remaining - size) ≡ offset + remaining = omega arith in
    (
      record { at = offset; size = size } ∷ ps,
      (refl, pos, fits, rw total at covers),
      copy_loop-round f fuel offset remaining size (omega arith) e
          ∙ rw at (rw left (ap (λ g. f offset size >> g) same)),
    )

copy_loop_from :
    {S : Type 0} (f : (at size : ℕ) → M S (Unit {0})) (fuel offset remaining : ℕ)
    → offset + remaining < 2 ^ 31
    → remaining ≤ 65536 * fuel
    → Pieces f (suc fuel) offset remaining
unfolding run_pieces
copy_loop_from f zero offset remaining small enough =
    let none : remaining ≡ 0 = omega arith in
    ([], omega arith, copy_loop-end f 0 offset remaining none)
copy_loop_from f (suc n) offset remaining small enough = elim (ℕ_discrete remaining 0) [
  | yes e ↦ ([], omega (arith, e), copy_loop-end f (suc n) offset remaining e)
  | no ne ↦ elim (dec_lt remaining 65536) [
    | yes lt ↦
        Pieces-round f (suc n) offset remaining remaining (omega (arith, ne)) (omega arith)
          (omega arith) small (piece_size-last remaining lt)
          (copy_loop_from f n (offset + remaining) (remaining - remaining) (omega arith)
            (omega arith))
    | no ge ↦
        Pieces-round f (suc n) offset remaining 65536 (omega arith) (omega arith) (omega arith)
          small (piece_size-whole remaining (omega arith) (omega arith))
          (copy_loop_from f n (offset + 65536) (remaining - 65536) (omega arith) (omega arith))
  ]
]

-- For less than 2 ^ 31 bytes the copy loop of `ncdev_mem_buf_copy` and
-- `ncdev_dma_copy_descriptors` ends within a round for each 64K and two more, whatever a round
-- does: it is the run of a list of pieces of 1 byte to 64K that cover the range once and in
-- order.
pub copy_loop-pieces :
    {S : Type 0} (f : (at size : ℕ) → M S (Unit {0})) (size : ℕ)
    → size < 2 ^ 31
    → (ps : List Piece) × Covers 0 size ps × (copy_loop f (copy_fuel size) 0 size ≡ run_pieces f ps)
copy_loop-pieces f size small =
    let rounds : copy_fuel size ≡ suc (size / 65536 + 1) = omega arith in
    let enough : size ≤ 65536 * (size / 65536 + 1) = omega arith in
    let whole : 0 + size ≡ size = omega arith in
    let (ps, covers, same) = copy_loop_from f (size / 65536 + 1) 0 size (omega arith) enough in
    rw rounds (ps, rw whole at covers, same)

-- A copy of 2 ^ 31 bytes or more is one piece, far longer than the bounce buffer.
copy_loop-negative :
    {S : Type 0} (f : (at size : ℕ) → M S (Unit {0})) (size : ℕ)
    → 2 ^ 31 ≤ size
    → size < 2 ^ 32
    → copy_loop f (copy_fuel size) 0 size ≡ (f 0 size >> pure tt)
copy_loop-negative f size big small =
    let rounds : copy_fuel size ≡ suc (suc (size / 65536)) = omega arith in
    let left : sub32 size size ≡ 0 = omega arith in
    rw rounds (
      copy_loop-round f (suc (size / 65536)) 0 size size (omega arith)
        (piece_size-negative size big)
      ∙ ap (λ g. f 0 size >> g) (rw left (copy_loop-end f (size / 65536) (u32 (0 + size)) 0 refl)))
