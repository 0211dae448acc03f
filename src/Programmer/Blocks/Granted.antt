-- ===== src/Programmer/Blocks/Granted.antt =====
-- The blocks that the driver grants to HardwareProgrammer (hardware.cpp).
use libdyplo.Prelude.{
  ◌%◌, ◌∙◌, ℕ, zero, suc, ◌≡◌, ◌≤◌, ◌<◌, refl, ap, List, [], ◌∷◌, some, length, get_elem?-ge, map,
  arith, dec_lt,
}
use libdyplo.Effects.{ok}
use libdyplo.FileIo.{gives}
use libdyplo.Dma.{
  Block, Dma, Driver, Configuration, mode_coherent, resize, unmap, unmap_blocks, map_blocks,
  reconfigure,
}
use libdyplo.Dma.Layout.{resize_lem}
use libdyplo.Bitstream.Reader.{buffer_size}
use libdyplo.Programmer.Blocks.{AllWide, AllMapped}

-- The driver grants the blocks that it is asked for, no more of them and none too small, and each of
-- them can be mapped.
pub record Grants {σ : Type 0} (k : Driver σ) : Type 0 where
  pub configures : (req : Configuration) (s : σ) → (n : ℕ) × ((k.dma_reconfigure req s).0 ≡ gives n)
  pub granted_size :
      (req : Configuration) (s : σ)
      → buffer_size ≤ req.size
      → buffer_size ≤ (k.dma_reconfigure req s).1.size
  pub granted_eights :
      (req : Configuration) (s : σ) → req.size % 8 ≡ 0 → (k.dma_reconfigure req s).1.size % 8 ≡ 0
  pub granted_count :
      (req : Configuration) (s : σ) → 0 < req.count → 0 < (k.dma_reconfigure req s).1.count
  pub not_more : (req : Configuration) (s : σ) → (k.dma_reconfigure req s).1.count ≤ req.count
  pub queries : (b : Block) (s : σ) → (n : ℕ) × ((k.dmablock_query b s).0 ≡ gives n)
  pub queried_size : (b : Block) (s : σ) → (k.dmablock_query b s).1.size ≡ b.size
  pub maps : (offset size : ℕ) (s : σ) → (a : ℕ) × ((k.map_block offset size s).0 ≡ gives a)

cons-AllWide :
    (w : ℕ) (b : Block) (bs : List Block) → b.size ≡ w → AllWide w bs → AllWide w (b ∷ bs)
cons-AllWide w b bs fits wide zero c e = ground (arith, e)
cons-AllWide w b bs fits wide (suc i) c e = wide i c e

pub map-AllMapped :
    (w : ℕ) (memory : Block → List ℕ)
    → ((b : Block) → length (memory b) ≡ b.size)
    → (bs : List Block) → AllWide w bs
    → AllMapped w (map memory bs)
map-AllMapped w memory sized [] wide i m e = absurd (ground (arith, e))
map-AllMapped w memory sized (b ∷ bs) wide zero m e = ground (arith, e, sized b, wide 0 b refl)
map-AllMapped w memory sized (b ∷ bs) wide (suc i) m e =
    map-AllMapped w memory sized bs (λ j c there. wide (suc j) c there) i m e

pub length-mapped : (memory : Block → List ℕ) (bs : List Block) → length (map memory bs) ≡ length bs
length-mapped memory [] = refl
length-mapped memory (b ∷ bs) = ap suc (length-mapped memory bs)

resize-AllWide :
    {σ : Type 0} (n size : ℕ) (d : Dma σ) → 0 < n → AllWide size (resize n size d).blocks
resize-AllWide n size d some_blocks i b e =
    let (sized, first, rest) = resize_lem n size 0 d some_blocks in
    elim (dec_lt i n) [
      | yes small ↦
          let (sized', first', (b', there, laid_out)) = resize_lem n size i d small in
          ground (arith, e, there, laid_out.size_is)
      | no large ↦
          absurd (
            ground
              (arith, e, get_elem?-ge (resize n size d).blocks i (omega (arith, sized, large))))
    ]

module _ {σ : Type 0} (k : Driver σ) (grants : Grants k) where
  map_blocks-AllWide :
      (w : ℕ) (bs : List Block) (s : σ)
      → AllWide w bs
      → (bs' : List Block) × (s' : σ) × (map_blocks k bs s ≡ (ok tt, bs', s'))
        × (length bs' ≡ length bs)
        × AllWide w bs'
  unfolding map_blocks
  map_blocks-AllWide w [] s wide = ([], s, refl, refl, wide)
  map_blocks-AllWide w (b ∷ bs) s wide =
      let (n, queried) = grants.queries b s in
      let b' : Block = (k.dmablock_query b s).1 in
      let (a, mapped) = grants.maps b'.offset b'.size (k.dmablock_query b s).2 in
      let (bs', s', runs, sized, wide') =
        map_blocks-AllWide w bs (k.map_block b'.offset b'.size (k.dmablock_query b s).2).1
          (λ i c there. wide (suc i) c there) in
      (
        record b' { address = some a } ∷ bs',
        s',
        ground (arith, queried, mapped, runs),
        ap suc sized,
        cons-AllWide w (record b' { address = some a }) bs'
            (grants.queried_size b s ∙ wide 0 b refl) wide',
      )

  -- `reconfigure` of a fifo without blocks.
  pub reconfigure-AllWide :
      (size count : ℕ) (s : σ)
      → buffer_size ≤ size
      → size % 8 ≡ 0
      → 0 < count
      → (w : ℕ) × (d : Dma σ) × (reconfigure k mode_coherent size count
            (record { blocks = []; blocks_head = 0; driver = s })
          ≡ (ok tt, d))
        × (d.blocks_head ≡ 0)
        × (0 < length d.blocks)
        × (length d.blocks ≤ count)
        × AllWide w d.blocks
        × (buffer_size ≤ w)
        × (w % 8 ≡ 0)
        × (w
            ≡ (k.dma_reconfigure
                (record { mode = mode_coherent; size = size; count = count })
                s).1.size)
  unfolding reconfigure unmap unmap_blocks
  reconfigure-AllWide size count s fits eights some_blocks =
      let req : Configuration = record { mode = mode_coherent; size = size; count = count } in
      let (n, configured) = grants.configures req s in
      let granted : Configuration = (k.dma_reconfigure req s).1 in
      let s1 : σ = (k.dma_reconfigure req s).2 in
      let d0 : Dma σ = record { blocks = []; blocks_head = 0; driver = s1 } in
      let more = grants.granted_count req s some_blocks in
      let (sized, first, rest) = resize_lem granted.count granted.size 0 d0 more in
      let d1 : Dma σ = resize granted.count granted.size d0 in
      let (bs, s2, runs, same, wide) =
        map_blocks-AllWide granted.size d1.blocks d1.driver
          (resize-AllWide granted.count granted.size d0 more) in
      (
        granted.size,
        record d1 { blocks = bs; driver = s2 },
        ground (arith, configured, runs),
        first,
        omega (arith, same, sized, more),
        omega (arith, same, sized, grants.not_more req s),
        wide,
        grants.granted_size req s fits,
        grants.granted_eights req s eights,
        refl,
      )
