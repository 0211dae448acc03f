-- ===== src/Dma/Layout.antt =====
-- How `HardwareDMAFifo::resize` (hardware.cpp) lays its blocks out in the memory map.
use libdyplo.Prelude.{
  ℕ, zero, suc, ◌+◌, ◌-◌, ◌*◌, ◌%◌, ◌^◌, ◌<◌, ◌≡◌, refl, ap, ◌∙◌, List, [], ◌∷◌, some, none, length,
  get_elem?, length-append, length-take, length-replicate, take, replicate, arith,
}
use libdyplo.Dma.{Block, Dma, zero_block, resize_blocks, lay_out, resize}

length-resize_blocks : (n : ℕ) (blocks : List Block) → length (resize_blocks n blocks) ≡ n
unfolding resize_blocks
length-resize_blocks n blocks = omega (
  arith,
  length-append (take n blocks) (replicate (n - length blocks) zero_block),
  length-take n blocks,
  length-replicate (n - length blocks) zero_block,
)

length-lay_out :
    (blocksize i offset : ℕ) (blocks : List Block)
    → length (lay_out blocksize i offset blocks) ≡ length blocks
unfolding lay_out
length-lay_out blocksize i offset [] = refl
length-lay_out blocksize i offset (b ∷ bs) =
    ap suc (length-lay_out blocksize (i + 1) ((offset + blocksize) % 2 ^ 32) bs)

-- The block has its place: its own index, its offset behind the blocks before it, no mapping.
pub record IsLaidOut (blocksize i : ℕ) (b : Block) : Type 0 where
  pub id_is : b.id ≡ i
  pub offset_is : b.offset ≡ i * blocksize % 2 ^ 32
  pub size_is : b.size ≡ blocksize
  pub unmapped : b.address ≡ none

next_offset :
    (blocksize i offset : ℕ)
    → offset ≡ i * blocksize % 2 ^ 32
    → (offset + blocksize) % 2 ^ 32 ≡ (i + 1) * blocksize % 2 ^ 32
next_offset blocksize i offset e = omega (arith, e)

lay_out_at :
    (blocksize i offset : ℕ) (blocks : List Block) (j place : ℕ)
    → offset ≡ i * blocksize % 2 ^ 32
    → j < length blocks
    → i + j ≡ place
    → (b : Block) × (get_elem? (lay_out blocksize i offset blocks) j ≡ some b)
      × IsLaidOut blocksize place b
unfolding lay_out
lay_out_at blocksize i offset [] j place e h p = absurd (omega arith)
lay_out_at blocksize i offset (b ∷ bs) zero place e h p =
    let same : i ≡ place = omega arith in
    (
      record b { id = i; offset = offset; size = blocksize; address = none },
      refl,
      record {
        id_is = same;
        offset_is = e ∙ ap (λ k. k * blocksize % 2 ^ 32) same;
        size_is = refl;
        unmapped = refl;
      },
    )
lay_out_at blocksize i offset (b ∷ bs) (suc j) place e h p =
    lay_out_at blocksize (i + 1) ((offset + blocksize) % 2 ^ 32) bs j place
      (next_offset blocksize i offset e) (omega arith) (omega arith)

-- After a resize there are as many blocks as were asked for, the head is the first, and block `i`
-- has its own index and lies `i` block sizes into the map (as a 32-bit offset), unmapped.
pub resize_lem :
    {σ : Type 0} (n blocksize i : ℕ) (d : Dma σ)
    → i < n
    → let d' = resize n blocksize d in
      (length d'.blocks ≡ n)
      × (d'.blocks_head ≡ 0)
      × ((b : Block) × (get_elem? d'.blocks i ≡ some b) × IsLaidOut blocksize i b)
unfolding resize
resize_lem n blocksize i d h =
    let sized = length-resize_blocks n d.blocks in
    (
      length-lay_out blocksize 0 0 (resize_blocks n d.blocks) ∙ sized,
      refl,
      lay_out_at blocksize 0 0 (resize_blocks n d.blocks) i i (omega arith) (omega arith)
          (omega arith),
    )
