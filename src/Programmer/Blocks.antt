-- ===== src/Programmer/Blocks.antt =====
-- The blocks that HardwareProgrammer (hardware.cpp) fills, with a driver that serves them.
pub mod Convert
pub mod Copy
pub mod First
pub mod Granted
pub mod Image
pub mod Padded
pub mod Tags
pub mod Words
use libdyplo.Prelude.{
  ℕ, ◌+◌, ◌-◌, ◌*◌, ◌/◌, ◌%◌, ◌≤◌, ◌<◌, ◌≡◌, refl, ap, sym, ◌∙◌, List, [], ◌∷◌, ◌++◌, Option, some,
  none, length, take, set, overwrite, get_elem?, get_elem?-take, get_elem?-overwrite, get_elem?-ge,
  eq_of_get_elem?, get_elem?-set, get_elem?-lt, length-set, length-overwrite, Bool, Bool-cases, inl,
  inr, ltb, leb, ◌==◌, ◌&&◌, not, arith, if◌then◌else◌, ℕ_discrete, append-nil,
}
use libdyplo.Effects.{Result, ok, proceed}
use libdyplo.FileIo.{gives}
use libdyplo.Dma.{Block, Dma, Driver, rewritten, next_head, dequeue, enqueue, take_head}
use libdyplo.Dma.Flush.{Returns}
use libdyplo.Bitstream.Reader.{buffer_size}
use libdyplo.Programmer.{
  DmaRoute, icap_nop, padded, take_block, begin_dma, store_at_block, store_dma, send_block, end_dma,
}
use libdyplo.Programmer.Padding.{take-nop}

-- The driver gives each block that it is asked for, takes each one that it is given, and leaves the
-- sizes of the blocks.
pub record Serves {σ : Type 0} (k : Driver σ) : Type 0 where
  pub returns : Returns k
  pub given_size : (b : Block) (s : σ) → (k.dmablock_dequeue b s).1.size ≡ b.size
  pub takes : (b : Block) (s : σ) → (n : ℕ) × ((k.dmablock_enqueue b s).0 ≡ gives n)
  pub taken_size : (b : Block) (s : σ) → (k.dmablock_enqueue b s).1.size ≡ b.size

-- Every block is of `w` bytes, and so is the memory that it is mapped to.
abbrev pub AllWide : ℕ → List Block → Type 0
AllWide w blocks = (i : ℕ) (b : Block) → get_elem? blocks i ≡ some b → b.size ≡ w

abbrev pub AllMapped : ℕ → List (List ℕ) → Type 0
AllMapped w memories =
    (i : ℕ) (memory : List ℕ) → get_elem? memories i ≡ some memory → length memory ≡ w

-- A block holds a buffer of the image reader at least.
pub record IsSound {σ : Type 0} (w : ℕ) (r : DmaRoute σ) : Type 0 where
  pub least : buffer_size ≤ w
  pub eights : w % 8 ≡ 0
  pub head_in : r.dma.blocks_head < length r.dma.blocks
  -- Two blocks are asked for.
  pub few : length r.dma.blocks ≤ 2
  pub wide : AllWide w r.dma.blocks
  pub mapped : AllMapped w r.memories
  pub one_each : length r.memories ≡ length r.dma.blocks
  pub held_in : (i : ℕ) → r.block ≡ some i → i < length r.dma.blocks

set-AllWide :
    (w : ℕ) (blocks : List Block) (i : ℕ) (b : Block)
    → i < length blocks
    → b.size ≡ w
    → AllWide w blocks
    → AllWide w (set blocks i b)
set-AllWide w blocks i b h fits wide j c e = elim (ℕ_discrete j i) [
  | yes same ↦ ground (arith, get_elem?-set blocks i b j h, e)
  | no other ↦ wide j c (ground (arith, get_elem?-set blocks i b j h, e))
]

set-AllMapped :
    (w : ℕ) (memories : List (List ℕ)) (i : ℕ) (memory : List ℕ)
    → i < length memories
    → length memory ≡ w
    → AllMapped w memories
    → AllMapped w (set memories i memory)
set-AllMapped w memories i memory h fits mapped j m e = elim (ℕ_discrete j i) [
  | yes same ↦ ground (arith, get_elem?-set memories i memory j h, e)
  | no other ↦ mapped j m (ground (arith, get_elem?-set memories i memory j h, e))
]

module _ {σ : Type 0} (k : Driver σ) (serves : Serves k) (w : ℕ) where
  -- What a call on the ring leaves of it.
  abbrev Kept : Dma σ → Dma σ → Type 0
  Kept d d' =
      (length d'.blocks ≡ length d.blocks)
      × (d'.blocks_head < length d'.blocks)
      × AllWide w d'.blocks

  dequeue-Kept :
      (d : Dma σ)
      → d.blocks_head < length d.blocks
      → AllWide w d.blocks
      → (d' : Dma σ) × (dequeue k d ≡ (ok (some d.blocks_head), d')) × Kept d d'
  unfolding dequeue
  dequeue-Kept d h wide =
      let (b, there) = get_elem?-lt d.blocks d.blocks_head h in
      elim (Bool-cases (ltb 0 b.state)) [
        | inr user ↦ (
          record d { blocks_head = next_head (length d.blocks) d.blocks_head },
          rw (there, user, take_head),
          (refl, ground arith, wide),
        )
        | inl driver ↦
            let (n, given) = serves.returns.answers b d.driver in
            let b' : Block = rewritten b (k.dmablock_dequeue b d.driver).1 in
            (
              record d {
                blocks = set d.blocks d.blocks_head b';
                blocks_head = next_head (length d.blocks) d.blocks_head;
                driver = (k.dmablock_dequeue b d.driver).2;
              },
              rw (there, driver, given, take_head),
              (
                length-set d.blocks d.blocks_head b',
                ground (arith, length-set d.blocks d.blocks_head b'),
                set-AllWide w d.blocks d.blocks_head b' h
                    (omega (arith, serves.given_size b d.driver, wide d.blocks_head b there)) wide,
              ),
            )
      ]

  enqueue-Kept :
      (i : ℕ) (d : Dma σ)
      → i < length d.blocks
      → d.blocks_head < length d.blocks
      → AllWide w d.blocks
      → (d' : Dma σ) × (enqueue k i d ≡ (ok tt, d')) × Kept d d'
  unfolding enqueue
  enqueue-Kept i d small h wide =
      let (b, there) = get_elem?-lt d.blocks i small in
      let (n, taken) = serves.takes b d.driver in
      let b' : Block = rewritten b (k.dmablock_enqueue b d.driver).1 in
      (
        record d { blocks = set d.blocks i b'; driver = (k.dmablock_enqueue b d.driver).2 },
        rw (there, taken, enqueue),
        (
          length-set d.blocks i b',
          omega (arith, length-set d.blocks i b', h),
          set-AllWide w d.blocks i b' small
              (omega (arith, serves.taken_size b d.driver, wide i b there)) wide,
        ),
      )

  pub take_block-IsSound :
      (r : DmaRoute σ)
      → IsSound w r
      → (i : ℕ) × (b : Block) × (r' : DmaRoute σ) × (take_block k r ≡ (ok (i, b), r'))
        × (r'.block ≡ some i)
        × (b.size ≡ w)
        × (r'.sent ≡ r.sent)
        × IsSound w r'
  unfolding take_block
  take_block-IsSound r sound = by_block r.block refl
    where
      by_block :
          (held : Option ℕ)
          → r.block ≡ held
          → (i : ℕ) × (b : Block) × (r' : DmaRoute σ) × (take_block k r ≡ (ok (i, b), r'))
            × (r'.block ≡ some i)
            × (b.size ≡ w)
            × (r'.sent ≡ r.sent)
            × IsSound w r'
      by_block (some i) e =
          let (b, there) = get_elem?-lt r.dma.blocks i (sound.held_in i e) in
          (i, b, r, ground (arith, e, there), e, sound.wide i b there, refl, sound)
      by_block none e =
          let (d', given, (same, head, wide)) = dequeue-Kept r.dma sound.head_in sound.wide in
          let i = r.dma.blocks_head in
          let small : i < length d'.blocks = omega (arith, same, sound.head_in) in
          let (b, there) = get_elem?-lt d'.blocks i small in
          (
            i,
            b,
            record r { dma = d'; block = some i },
            rw (take_block, e, given, proceed, there) refl,
            refl,
            wide i b there,
            refl,
            record {
              least = sound.least;
              eights = sound.eights;
              head_in = head;
              few = omega (arith, same, sound.few);
              wide = wide;
              mapped = sound.mapped;
              one_each = sound.one_each ∙ sym same;
              held_in = λ j h. ground (arith, h, small);
            },
          )

  abbrev pub stored_at : ℕ → List ℕ → ℕ → List ℕ → DmaRoute σ → DmaRoute σ
  stored_at i memory p bytes r = record r { memories = set r.memories i (overwrite memory p bytes) }

  pub store-IsSound :
      (i p : ℕ) (bytes memory : List ℕ) (r : DmaRoute σ)
      → IsSound w r
      → i < length r.memories
      → get_elem? r.memories i ≡ some memory
      → IsSound w (stored_at i memory p bytes r)
  store-IsSound i p bytes memory r sound small there = record {
    least = sound.least;
    eights = sound.eights;
    head_in = sound.head_in;
    few = sound.few;
    wide = sound.wide;
    mapped =
        set-AllMapped w r.memories i (overwrite memory p bytes) small
          (omega (arith, length-overwrite memory p bytes, sound.mapped i memory there))
          sound.mapped;
    one_each = length-set r.memories i (overwrite memory p bytes) ∙ sound.one_each;
    held_in = sound.held_in;
  }

  pub store_at_block-fits :
      (i p : ℕ) (bytes memory : List ℕ) (r : DmaRoute σ)
      → get_elem? r.memories i ≡ some memory
      → p + length bytes ≤ length memory
      → store_at_block k i p bytes r ≡ (ok tt, stored_at i memory p bytes r)
  unfolding store_at_block
  store_at_block-fits i p bytes memory r there fits = ground (arith, there)

  pub send_block-IsSound :
      (i bytes : ℕ) (memory : List ℕ) (r : DmaRoute σ)
      → IsSound w r
      → i < length r.dma.blocks
      → get_elem? r.memories i ≡ some memory
      → (r' : DmaRoute σ) × (send_block k i bytes r ≡ (ok tt, r'))
        × (r'.block ≡ none)
        × (r'.sent ≡ r.sent ++ take bytes memory)
        × IsSound w r'
  unfolding send_block
  send_block-IsSound i bytes memory r sound small there =
      let (b, at) = get_elem?-lt r.dma.blocks i small in
      let blocks : List Block = set r.dma.blocks i (record b { bytes_used = bytes }) in
      let same = length-set r.dma.blocks i (record b { bytes_used = bytes }) in
      let (d', taken, (same', head, wide)) =
        enqueue-Kept i (record r.dma { blocks = blocks }) (omega (arith, same, small))
          (omega (arith, same, sound.head_in))
          (set-AllWide w r.dma.blocks i (record b { bytes_used = bytes }) small (sound.wide i b at)
            sound.wide) in
      (
        record r { dma = d'; block = none; sent = r.sent ++ take bytes memory },
        rw (send_block, at, taken, there) refl,
        refl,
        refl,
        record {
          least = sound.least;
          eights = sound.eights;
          head_in = head;
          few = omega (arith, same, same', sound.few);
          wide = wide;
          mapped = sound.mapped;
          one_each = omega (arith, sound.one_each, same, same');
          held_in = λ j h. ground (arith, h);
        },
      )
