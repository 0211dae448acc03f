-- ===== src/Programmer/Blocks/Words.antt =====
-- Whole words that HardwareProgrammer (hardware.cpp) sends in a block.
use libdyplo.Prelude.{
  ℕ, ◌+◌, ◌*◌, ◌/◌, ◌%◌, ◌≤◌, ◌<◌, ◌≡◌, refl, ap, ◌∙◌, List, ◌++◌, Option, some, none, length, take,
  overwrite, get_elem?, get_elem?-take, get_elem?-overwrite, get_elem?-ge, eq_of_get_elem?,
  get_elem?-set, get_elem?-lt, arith, ℕ_discrete, append-nil, min,
}
use libdyplo.Effects.{Result, ok}
use libdyplo.Dma.{Driver}
use libdyplo.Bitstream.Reader.{buffer_size}
use libdyplo.Programmer.{DmaRoute, icap_nop, padded, begin_dma, store_dma, end_dma, send_nop, nops}
use libdyplo.Programmer.Blocks.Padded.{padded_words}
use libdyplo.Programmer.Padding.{take-nop, length-nops}
use libdyplo.Programmer.Blocks.{
  Serves, IsSound, stored_at, take_block-IsSound, store-IsSound, store_at_block-fits,
  send_block-IsSound,
}

get_elem?-front :
    (bytes memory : List ℕ) (i : ℕ)
    → length bytes ≤ length memory
    → get_elem? (take (length bytes) (overwrite memory 0 bytes)) i ≡ get_elem? bytes i
get_elem?-front bytes memory i h = ground (
  arith,
  get_elem?-take (length bytes) (overwrite memory 0 bytes) i,
  get_elem?-overwrite memory 0 bytes i,
  get_elem?-ge bytes i,
)

take-overwrite :
    (bytes memory : List ℕ)
    → length bytes ≤ length memory
    → take (length bytes) (overwrite memory 0 bytes) ≡ bytes
take-overwrite bytes memory h = eq_of_get_elem? _ _ (λ i. get_elem?-front bytes memory i h)

module _ {σ : Type 0} (k : Driver σ) (serves : Serves k) (w : ℕ) where
  -- A call on the route that returns `a`, leaves it sound and the block in the hand that is said,
  -- and has then sent `xs`.
  abbrev pub Does : {A : Type 0} → A → Option ℕ → List ℕ → Result A × DmaRoute σ → Type 0
  Does a held xs out =
      (r : DmaRoute σ) × (out ≡ (ok a, r)) × (r.block ≡ held) × (r.sent ≡ xs) × IsSound w r

  -- With the block `i` in hand, whose memory holds `bytes` in front.
  pub record Holds (i : ℕ) (bytes : List ℕ) (r : DmaRoute σ) : Type 0 where
    pub sound : IsSound w r
    pub held : r.block ≡ some i
    pub memory : List ℕ
    pub there : get_elem? r.memories i ≡ some memory
    pub front : take (length bytes) memory ≡ bytes

  pub store_dma-Holds :
      (i : ℕ) (bytes : List ℕ) (r : DmaRoute σ)
      → IsSound w r
      → r.block ≡ some i
      → length bytes ≤ w
      → (r' : DmaRoute σ) × (store_dma k bytes r ≡ (ok tt, r'))
        × (r'.sent ≡ r.sent)
        × Holds i bytes r'
  unfolding store_dma
  store_dma-Holds i bytes r sound held fits =
      let small : i < length r.memories = omega (arith, sound.one_each, sound.held_in i held) in
      let (memory, there) = get_elem?-lt r.memories i small in
      (
        stored_at k serves w i memory 0 bytes r,
        ground (
          arith,
          held,
          store_at_block-fits k serves w i 0 bytes memory r there,
          sound.mapped i memory there,
        ),
        refl,
        record {
          sound = store-IsSound k serves w i 0 bytes memory r sound small there;
          held = held;
          memory = overwrite memory 0 bytes;
          there = ground (arith, get_elem?-set r.memories i (overwrite memory 0 bytes) i small);
          front = take-overwrite bytes memory (omega (arith, sound.mapped i memory there));
        },
      )

  end_even :
      (i n : ℕ) (memory : List ℕ) (r : DmaRoute σ)
      → IsSound w r
      → r.block ≡ some i
      → get_elem? r.memories i ≡ some memory
      → n % 8 ≡ 0
      → Does n none (r.sent ++ take n memory) (end_dma k n r)
  unfolding end_dma
  end_even i n memory r sound held there even =
      let (r', sends, free, out, sound') =
        send_block-IsSound k serves w i (padded n) memory r sound (sound.held_in i held) there in
      (
        r',
        ground (arith, sends, held),
        free,
        out ∙ ap (λ m. r.sent ++ take m memory) (omega (arith, even)),
        sound',
      )

  end_odd :
      (i n : ℕ) (memory : List ℕ) (r : DmaRoute σ)
      → IsSound w r
      → r.block ≡ some i
      → get_elem? r.memories i ≡ some memory
      → n ≤ w
      → n % 8 ≡ 4
      → Does n none (r.sent ++ (take n memory ++ icap_nop)) (end_dma k n r)
  unfolding end_dma
  end_odd i n memory r sound held there fits odd =
      let small : i < length r.memories = omega (arith, sound.one_each, sound.held_in i held) in
      let room : n + 4 ≤ length memory = omega (arith, sound.mapped i memory there) in
      let filled : List ℕ = overwrite memory n icap_nop in
      let (r', sends, free, out, sound') =
        send_block-IsSound k serves w i (n + 4) filled (stored_at k serves w i memory n icap_nop r)
          (store-IsSound k serves w i n icap_nop memory r sound small there) (sound.held_in i held)
          (ground (arith, get_elem?-set r.memories i filled i small)) in
      (
        r',
        ground (arith, sends, held, store_at_block-fits k serves w i n icap_nop memory r there),
        free,
        out ∙ ap (◌++◌ r.sent) (take-nop n memory room),
        sound',
      )

  -- `endProcessData` of whole words that the block's memory holds in front.
  pub end_dma-Holds :
      (i words : ℕ) (bytes : List ℕ) (r : DmaRoute σ)
      → Holds i bytes r
      → length bytes ≡ words * 4
      → length bytes ≤ w
      → Does (length bytes) none (r.sent ++ padded_words bytes) (end_dma k (length bytes) r)
  end_dma-Holds i words bytes r holds e fits = elim (ℕ_discrete (words % 2) 0) [
    | yes even ↦
        let (r', ends, free, out, sound') =
          end_even i (length bytes) holds.memory r holds.sound holds.held holds.there
            (omega (arith, e, even)) in
        (r', ends, free, ground (arith, out, holds.front, append-nil bytes, e, even), sound')
    | no odd ↦
        let (r', ends, free, out, sound') =
          end_odd i (length bytes) holds.memory r holds.sound holds.held holds.there fits
            (omega (arith, e, odd)) in
        (r', ends, free, ground (arith, out, holds.front, e, odd), sound')
  ]

  -- `beginProcessData` of as much as a buffer holds.
  pub begin_dma-IsSound :
      (n : ℕ) (r : DmaRoute σ)
      → IsSound w r
      → n ≤ w
      → (i : ℕ) × Does n (some i) r.sent (begin_dma k n r)
  unfolding begin_dma
  begin_dma-IsSound n r sound fits =
      let (i, b, r', takes, held, wide, out, sound') = take_block-IsSound k serves w r sound in
      (i, (r', ground (arith, takes, wide), held, out, sound'))

  -- No more is granted than a block holds.
  pub begin_dma-grants :
      (n : ℕ) (r : DmaRoute σ)
      → IsSound w r
      → (i : ℕ) × Does (min w n) (some i) r.sent (begin_dma k n r)
  unfolding begin_dma
  begin_dma-grants n r sound =
      let (i, b, r', takes, held, wide, out, sound') = take_block-IsSound k serves w r sound in
      (i, (r', ground (arith, takes, wide), held, out, sound'))

  -- `sendNOP` of an even number of NOPs.
  pub send_nop-IsSound :
      (count : ℕ) (r : DmaRoute σ)
      → IsSound w r
      → count % 2 ≡ 0
      → count * 4 ≤ buffer_size
      → Does count none (r.sent ++ nops count) (send_nop k count r)
  unfolding send_nop
  send_nop-IsSound count r sound even fits =
      let (i, b, r', takes, held, wide, out, sound') = take_block-IsSound k serves w r sound in
      let small : i < length r'.memories = omega (arith, sound'.one_each, sound'.held_in i held) in
      let (memory, there) = get_elem?-lt r'.memories i small in
      let sized = length-nops count in
      let room : length (nops count) ≤ length memory =
        omega (arith, sized, sound'.mapped i memory there) in
      let filled : List ℕ = overwrite memory 0 (nops count) in
      let (r'', sends, free, out', sound'') =
        send_block-IsSound k serves w i (count * 4) filled
          (stored_at k serves w i memory 0 (nops count) r')
          (store-IsSound k serves w i 0 (nops count) memory r' sound' small there)
          (sound'.held_in i held) (ground (arith, get_elem?-set r'.memories i filled i small)) in
      let same : (count + 1) / 2 * 2 ≡ count = omega (arith, even) in
      (
        r'',
        ground (
          arith,
          takes,
          same,
          wide,
          sends,
          store_at_block-fits k serves w i 0 (nops count) memory r' there,
        ),
        free,
        ground (arith, out, out', sized, take-overwrite (nops count) memory room),
        sound'',
      )
