-- ===== src/Programmer/Padding.antt =====
-- How HardwareProgrammer (hardware.cpp) pads what it sends by DMA.
use libdyplo.Prelude.{
  ℕ, ◌+◌, ◌-◌, ◌*◌, ◌%◌, ◌≤◌, ◌<◌, ◌≡◌, List, [], ◌++◌, some, none, length, take, set, overwrite,
  get_elem?, get_elem?-set, get_elem?-take, get_elem?-append, get_elem?-overwrite, get_elem?-ge,
  length-take, eq_of_get_elem?, arith, ◌==◌, if◌then◌else◌, ℕ_discrete, append-nil, zero, suc, refl,
  take_whole,
}
use libdyplo.Effects.{ok}
use libdyplo.FileIo.{gives}
use libdyplo.Dma.{Block, Driver, enqueue}
use libdyplo.Programmer.{DmaRoute, icap_nop, padded, nops, store_at_block, send_block, end_dma}

get_elem?-nop :
    (n i : ℕ) (memory : List ℕ)
    → n + 4 ≤ length memory
    → get_elem? (take (n + 4) (overwrite memory n icap_nop)) i
      ≡ get_elem? (take n memory ++ icap_nop) i
get_elem?-nop n i memory h = ground (
  arith,
  get_elem?-take (n + 4) (overwrite memory n icap_nop) i,
  get_elem?-overwrite memory n icap_nop i,
  get_elem?-append (take n memory) icap_nop i,
  get_elem?-take n memory i,
  length-take n memory,
  get_elem?-ge icap_nop (i - n),
)

-- A NOP that is stored behind `n` bytes goes out behind them.
pub take-nop :
    (n : ℕ) (memory : List ℕ)
    → n + 4 ≤ length memory
    → take (n + 4) (overwrite memory n icap_nop) ≡ take n memory ++ icap_nop
take-nop n memory h = eq_of_get_elem? _ _ (λ i. get_elem?-nop n i memory h)

pub length-nops : (n : ℕ) → length (nops n) ≡ n * 4
unfolding nops
length-nops zero = refl
length-nops (suc n) = omega (arith, length-nops n)

pub all_nops : (n : ℕ) → take (n * 4) (nops n) ≡ nops n
all_nops n = take_whole (n * 4) (nops n) (omega (arith, length-nops n))

module _ {σ : Type 0} (k : Driver σ) (i : ℕ) (b : Block) (n : ℕ) where
  send_block_lem :
      (bytes : ℕ) (memory : List ℕ) (r : DmaRoute σ)
      → get_elem? r.dma.blocks i ≡ some b
      → i < length r.dma.blocks
      → get_elem? r.memories i ≡ some memory
      → (k.dmablock_enqueue (record b { bytes_used = bytes }) r.dma.driver).0 ≡ gives n
      → let (x, r') = send_block k i bytes r in
        (x ≡ ok tt) × (r'.block ≡ none) × (r'.sent ≡ r.sent ++ take bytes memory)
  unfolding send_block enqueue
  send_block_lem bytes memory r there small mapped taken =
      ground (arith, get_elem?-set r.dma.blocks i (record b { bytes_used = bytes }) i small)

  -- `endProcessData` of a block whose memory holds the padded length and that the driver takes: of
  -- whole words, all go out, in order, and a NOP behind them where their number is odd; the length
  -- is returned, and the block is let go.
  pub end_dma_lem :
      (words : ℕ) (memory : List ℕ) (r : DmaRoute σ)
      → r.block ≡ some i
      → get_elem? r.dma.blocks i ≡ some b
      → i < length r.dma.blocks
      → i < length r.memories
      → get_elem? r.memories i ≡ some memory
      → padded (words * 4) ≤ length memory
      → (k.dmablock_enqueue (record b { bytes_used = padded (words * 4) }) r.dma.driver).0 ≡ gives n
      → let (x, r') = end_dma k (words * 4) r in
        (x ≡ ok (words * 4))
        × (r'.block ≡ none)
        × (r'.sent
            ≡ r.sent ++ (take (words * 4) memory ++ (if words % 2 == 0 then [] else icap_nop)))
  unfolding end_dma store_at_block
  end_dma_lem words memory r held there small mapped_in mapped fits taken =
      elim (ℕ_discrete (words % 2) 0) [
        | yes even ↦ ground (
          arith,
          send_block_lem (padded (words * 4)) memory r,
          append-nil (take (words * 4) memory),
        )
        | no odd ↦ ground (
          arith,
          send_block_lem (padded (words * 4)) (overwrite memory (words * 4) icap_nop)
              (record r { memories = set r.memories i (overwrite memory (words * 4) icap_nop) }),
          get_elem?-set r.memories i (overwrite memory (words * 4) icap_nop) i mapped_in,
          take-nop (words * 4) memory,
        )
      ]
