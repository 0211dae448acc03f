-- ===== src/Dma/Reconfigure.antt =====
-- `HardwareDMAFifo::reconfigure` (hardware.cpp) neither loses nor keeps a mapping that it should not.
use libdyplo.Prelude.{
  ℕ, ◌+◌, ◌%◌, ◌^◌, ◌≡◌, ◌⊎◌, inl, inr, refl, ◌∙◌, List, [], ◌∷◌, Option, some, none, ◌==◌, ◌||◌,
  ◌&&◌, ◌<◌, if◌then◌else◌, Bool-cases, arith,
}
use libdyplo.Effects.{Exn, io_error, Result, ok, throw}
use libdyplo.FileIo.{Answer, gives, fails}
use libdyplo.Dma.{
  Block, Dma, Driver, Configuration, resize_blocks, lay_out, resize, unmap_blocks, unmap, dispose,
  map_blocks, reconfigure, or_dispose, mode_coherent, mode_streaming,
}

-- One if the second pair of address and size is the first, and 0 otherwise.
abbrev pub same_mapping : ℕ → ℕ → ℕ → ℕ → ℕ
same_mapping x n address size = if (x == address) && (n == size) then 1 else 0

-- How many blocks are mapped at address `x` with size `n`.
abbrev pub mappings : ℕ → ℕ → List Block → ℕ
mappings x n [] = 0
mappings x n (b ∷ bs) = elim b.address [
  | none ↦ mappings x n bs
  | some a ↦ mappings x n bs + same_mapping x n a b.size
]

-- `live` counts the mappings that the process holds, by address and size: `mmap` adds that which it
-- gives, `munmap` of one that is held takes it away, and the driver's calls leave them.
pub record Counts {σ : Type 0} (k : Driver σ) (live : σ → ℕ → ℕ → ℕ) : Type 0 where
  pub mapped :
      (offset size : ℕ) (s : σ) (a : ℕ)
      → (k.map_block offset size s).0 ≡ gives a
      → (x n : ℕ) → live (k.map_block offset size s).1 x n ≡ live s x n + same_mapping x n a size
  pub not_mapped :
      (offset size : ℕ) (s : σ) (e : ℕ)
      → (k.map_block offset size s).0 ≡ fails e
      → (x n : ℕ) → live (k.map_block offset size s).1 x n ≡ live s x n
  pub unmapped :
      (address size : ℕ) (s : σ)
      → 0 < live s address size
      → (x n : ℕ)
      → live (k.unmap_block address size s) x n + same_mapping x n address size ≡ live s x n
  pub reconfigured :
      (req : Configuration) (s : σ) (x n : ℕ) → live (k.dma_reconfigure req s).2 x n ≡ live s x n
  pub queried : (b : Block) (s : σ) (x n : ℕ) → live (k.dmablock_query b s).2 x n ≡ live s x n
  pub freed : (s : σ) (x n : ℕ) → live (k.dmablock_free s) x n ≡ live s x n

-- No block is mapped.
abbrev pub NoneMapped : List Block → Type 0
NoneMapped bs = (x n : ℕ) → mappings x n bs ≡ 0

address_cases : (o : Option ℕ) → (o ≡ none) ⊎ ((a : ℕ) × (o ≡ some a))
address_cases none = inl refl
address_cases (some a) = inr (a, refl)

answer_cases : (o : Answer) → ((n : ℕ) × (o ≡ gives n)) ⊎ ((e : ℕ) × (o ≡ fails e))
answer_cases (gives n) = inl (n, refl)
answer_cases (fails e) = inr (e, refl)

mappings-head :
    (b : Block) (bs : List Block) (a : ℕ) → b.address ≡ some a → 0 < mappings a b.size (b ∷ bs)
mappings-head b bs a h = ground (arith, h)

not_mapped-head : (b : Block) (bs : List Block) → NoneMapped (b ∷ bs) → b.address ≡ none
not_mapped-head b bs m = elim (address_cases b.address) [
  | inl h ↦ h
  | inr (a, h) ↦ absurd (ground (arith, mappings-head b bs a h, m a b.size))
]

not_mapped-rest : (b : Block) (bs : List Block) → NoneMapped (b ∷ bs) → NoneMapped bs
not_mapped-rest b bs m x n = ground (arith, m x n, not_mapped-head b bs m)

module _ {σ : Type 0} (k : Driver σ) (live : σ → ℕ → ℕ → ℕ) (counts : Counts k live) where
  -- The mappings that the process holds are those of the blocks, and `extra`.
  abbrev Held : (ℕ → ℕ → ℕ) → List Block → σ → Type 0
  Held extra bs s = (x n : ℕ) → live s x n ≡ mappings x n bs + extra x n

  abbrev nothing : ℕ → ℕ → ℕ
  nothing x n = 0

  -- No block is mapped, and none of the process's mappings is left but `extra`.
  abbrev Unmapped : (ℕ → ℕ → ℕ) → List Block × σ → Type 0
  Unmapped extra (bs, s) = ((x n : ℕ) → live s x n ≡ extra x n) × NoneMapped bs

  unmap-none :
      (b : Block) (bs : List Block) (s : σ) (extra : ℕ → ℕ → ℕ)
      → b.address ≡ none
      → Unmapped extra (unmap_blocks k bs s)
      → Unmapped extra (unmap_blocks k (b ∷ bs) s)
  unfolding unmap_blocks
  unmap-none b bs s extra h rest = rw h rest

  unmap-some :
      (b : Block) (bs : List Block) (s : σ) (extra : ℕ → ℕ → ℕ) (a : ℕ)
      → b.address ≡ some a
      → Unmapped extra (unmap_blocks k bs (k.unmap_block a b.size s))
      → Unmapped extra (unmap_blocks k (b ∷ bs) s)
  unfolding unmap_blocks
  unmap-some b bs s extra a h rest = rw h rest

  unmap_blocks_lem :
      (bs : List Block) (s : σ) (extra : ℕ → ℕ → ℕ)
      → Held extra bs s
      → Unmapped extra (unmap_blocks k bs s)
  unfolding unmap_blocks
  unmap_blocks_lem [] s extra e = (λ x n. ground (arith, e x n), λ x n. refl)
  unmap_blocks_lem (b ∷ bs) s extra e = elim (address_cases b.address) [
    | inl h ↦
        unmap-none b bs s extra h (unmap_blocks_lem bs s extra (λ x n. ground (arith, e x n, h)))
    | inr (a, h) ↦
        let held : 0 < live s a b.size = omega (arith, e a b.size, mappings-head b bs a h) in
        let e' : Held extra bs (k.unmap_block a b.size s) =
          λ x n. ground (arith, e x n, h, counts.unmapped a b.size s held x n) in
        unmap-some b bs s extra a h (unmap_blocks_lem bs (k.unmap_block a b.size s) extra e')
  ]

  -- How the mapping of blocks that are not mapped ends, when the process held `base`.
  abbrev Mapped : (ℕ → ℕ → ℕ) → Result (Unit {0}) × List Block × σ → Type 0
  Mapped base (r, bs, s) = Held base bs s × ((r ≡ ok tt) ⊎ ((e : Exn) × (r ≡ throw e)))

  abbrev Holds : (ℕ → ℕ → ℕ) → σ → Type 0
  Holds base s = (x n : ℕ) → live s x n ≡ base x n

  map-refused :
      (b : Block) (bs : List Block) (s : σ) (base : ℕ → ℕ → ℕ) (e : ℕ)
      → Holds base s
      → NoneMapped (b ∷ bs)
      → (k.dmablock_query b s).0 ≡ fails e
      → Mapped base (map_blocks k (b ∷ bs) s)
  unfolding map_blocks
  map-refused b bs s base e l m h =
      rw (h, map_blocks)
        (
          λ x n. ground (arith, counts.queried b s x n, l x n, m x n, not_mapped-head b bs m),
          inr (io_error e "DYPLO_IOCDMABLOCK_QUERY", refl),
        )

  module _ (b : Block) (bs : List Block) (s : σ) (base : ℕ → ℕ → ℕ) (n : ℕ) (l : Holds base s)
      (m : NoneMapped (b ∷ bs)) (queried : (k.dmablock_query b s).0 ≡ gives n) where
    abbrev asked : Block
    asked = (k.dmablock_query b s).1

    abbrev then_state : σ
    then_state = (k.dmablock_query b s).2

    abbrev mapped : Answer × σ
    mapped = k.map_block asked.offset asked.size then_state

    map-failed : (e : ℕ) → mapped.0 ≡ fails e → Mapped base (map_blocks k (b ∷ bs) s)
    unfolding map_blocks
    map-failed e h =
        rw (queried, h, map_blocks)
          (
            λ x y. ground (
              arith,
              counts.not_mapped asked.offset asked.size then_state e h x y,
              counts.queried b s x y,
              l x y,
              m x y,
              not_mapped-head b bs m,
            ),
            inr (io_error e "mmap", refl),
          )

    map-next :
        (a : ℕ)
        → mapped.0 ≡ gives a
        → Mapped (λ x y. base x y + same_mapping x y a asked.size) (map_blocks k bs mapped.1)
        → Mapped base (map_blocks k (b ∷ bs) s)
    unfolding map_blocks
    map-next a h (left, ends) = rw (queried, h, map_blocks) (λ x y. omega (arith, left x y), ends)

    next_held :
        (a : ℕ)
        → mapped.0 ≡ gives a
        → Holds (λ x y. base x y + same_mapping x y a asked.size) mapped.1
    next_held a h x y = omega (
      arith,
      counts.mapped asked.offset asked.size then_state a h x y,
      counts.queried b s x y,
      l x y,
    )

  map_blocks_lem :
      (bs : List Block) (s : σ) (base : ℕ → ℕ → ℕ)
      → Holds base s
      → NoneMapped bs
      → Mapped base (map_blocks k bs s)
  unfolding map_blocks
  map_blocks_lem [] s base e m = (λ x n. omega (arith, e x n), inl refl)
  map_blocks_lem (b ∷ bs) s base e m = elim (answer_cases (k.dmablock_query b s).0) [
    | inr (code, h) ↦ map-refused b bs s base code e m h
    | inl (n, h) ↦ elim (answer_cases (mapped b bs s base n e m h).0) [
      | inr (code, h') ↦ map-failed b bs s base n e m h code h'
      | inl (a, h') ↦ map-next b bs s base n e m h a h' (
          map_blocks_lem bs (mapped b bs s base n e m h).1 _ (next_held b bs s base n e m h a h')
            (not_mapped-rest b bs m))
    ]
  ]

  laid_out-unmapped :
      (blocksize i offset : ℕ) (blocks : List Block)
      → NoneMapped (lay_out blocksize i offset blocks)
  unfolding lay_out
  laid_out-unmapped blocksize i offset [] x n = refl
  laid_out-unmapped blocksize i offset (b ∷ bs) x n =
      laid_out-unmapped blocksize (i + 1) ((offset + blocksize) % 2 ^ 32) bs x n

  -- How `reconfigure` ends: the mappings that the process holds are those of the blocks; and it
  -- returns, or it throws and no block is mapped.
  abbrev Reconfigured : Result (Unit {0}) × Dma σ → Type 0
  Reconfigured (r, d) =
      ((x n : ℕ) → live d.driver x n ≡ mappings x n d.blocks)
      × ((r ≡ ok tt) ⊎ (((e : Exn) × (r ≡ throw e)) × NoneMapped d.blocks))

  dispose_lem :
      (d : Dma σ)
      → Held nothing d.blocks d.driver
      → Holds nothing (dispose k d).driver × NoneMapped (dispose k d).blocks
  unfolding dispose unmap
  dispose_lem d e =
      let (none_left, none_mapped) = unmap_blocks_lem d.blocks d.driver nothing e in
      (λ x n. counts.freed (unmap_blocks k d.blocks d.driver).1 x n ∙ none_left x n, none_mapped)

  or_dispose_lem :
      (d : Dma σ) (out : Result (Unit {0}) × List Block × σ)
      → Mapped nothing out
      → Reconfigured (or_dispose k out.0 (record d { blocks = out.1; driver = out.2 }))
  or_dispose_lem d (r, bs, s) (left, inl done) = rw done (λ x n. omega (arith, left x n), inl refl)
  or_dispose_lem d (r, bs, s) (left, inr (e, thrown)) =
      let (none_left, none_mapped) = dispose_lem (record d { blocks = bs; driver = s }) left in
      rw thrown (λ x n. omega (arith, none_left x n, none_mapped x n), inr ((e, refl), none_mapped))

  -- When the process holds, at each address and size, as many mappings as there are blocks mapped
  -- there with that size, it does so after `reconfigure` too, whatever the driver and `mmap` answer;
  -- and the call returns, or it throws and leaves no block mapped.
  pub reconfigure_lem :
      (mode size count : ℕ) (d : Dma σ)
      → ((x n : ℕ) → live d.driver x n ≡ mappings x n d.blocks)
      → let (r, d') = reconfigure k mode size count d in
        ((x n : ℕ) → live d'.driver x n ≡ mappings x n d'.blocks)
        × ((r ≡ ok tt) ⊎ (((e : Exn) × (r ≡ throw e)) × NoneMapped d'.blocks))
  unfolding reconfigure unmap resize
  reconfigure_lem mode size count d e =
      let (none_left, none_mapped) =
        unmap_blocks_lem d.blocks d.driver nothing (λ x n. omega (arith, e x n)) in
      let u : List Block × σ = unmap_blocks k d.blocks d.driver in
      let asked_for : Configuration = record { mode = mode; size = size; count = count } in
      let out : Answer × Configuration × σ = k.dma_reconfigure asked_for u.1 in
      let empty : Holds nothing out.2 =
        λ x n. counts.reconfigured asked_for u.1 x n ∙ none_left x n in
      let blank : List Block = lay_out out.1.size 0 0 (resize_blocks out.1.count u.0) in
      let unmapped : NoneMapped blank =
        laid_out-unmapped out.1.size 0 0 (resize_blocks out.1.count u.0) in
      elim (answer_cases out.0) [
        | inr (code, h) ↦
            rw (h, reconfigure)
              (
                λ x n. omega (arith, empty x n, none_mapped x n),
                inr ((io_error code "reconfigure", refl), none_mapped),
              )
        | inl (n, h) ↦ elim (Bool-cases (mode == mode_coherent || mode == mode_streaming)) [
          | inr other ↦
              rw (h, other, reconfigure) (λ x n. omega (arith, empty x n, unmapped x n), inl refl)
          | inl memory ↦
              rw (h, memory, reconfigure)
                (or_dispose_lem (record { blocks = blank; blocks_head = 0; driver = out.2 })
                  (map_blocks k blank out.2) (map_blocks_lem blank out.2 nothing empty unmapped))
        ]
      ]
