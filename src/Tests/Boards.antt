-- ===== src/Tests/Boards.antt =====
-- Device nodes and DMA blocks at concrete inputs.
use libdyplo.Prelude.{
  ℕ, ◌+◌, ◌<◌, ◌≡◌, ◌⊎◌, refl, inl, inr, Bool-cases, Bool, true, List, ◌&&◌, [], ◌∷◌, some, length,
  get_elem?, ltb, ◌==◌, if◌then◌else◌, arith,
}
use libdyplo.Effects.{Exn, ok, throw}
use libdyplo.FileIo.{Answer, gives, fails}
use libdyplo.Devices.{fifo_r, fifo_w, dma, cfg, ctl, NodePath, AccessMode, ebusy}
use libdyplo.Dma.{Block, Dma, Driver, zero_block, resize, flush}
use libdyplo.Dma.{mode_coherent, reconfigure}
use libdyplo.Dma.Reconfigure.{Counts, NoneMapped, same_mapping, mappings, reconfigure_lem}
use libdyplo.Dma.Layout.{IsLaidOut, resize_lem}
use libdyplo.Dma.Flush.{Returns, Flushed, flush_lem}

-- The first node of each kind is taken.
abbrev board : NodePath → AccessMode → Answer
board path access = elim path.node [
  | fifo_r i ↦ if i == 0 then fails ebusy else gives i
  | fifo_w i ↦ if i == 0 then fails ebusy else gives i
  | dma i ↦ if i == 0 then fails ebusy else gives i
  | cfg i ↦ gives i
  | ctl ↦ gives 0
]

-- Three fifos each way.
abbrev present : NodePath → Bool
present path = elim path.node [
  | fifo_r i ↦ ltb i 3
  | fifo_w i ↦ ltb i 3
  | dma i ↦ true
  | cfg i ↦ true
  | ctl ↦ true
]

-- A driver that finishes a block whenever it is asked, and counts how often it was.
abbrev prompt : Driver ℕ
prompt = record {
  dma_reconfigure = λ req s. (gives 0, req, s);
  dmablock_query = λ b s. (gives 0, b, s);
  dmablock_dequeue = λ b s. (gives 0, record b { state = 0 }, s + 1);
  dmablock_enqueue = λ b s. (gives 0, record b { state = 1 }, s);
  dmablock_free = λ s. s;
  map_block = λ offset size s. (gives offset, s);
  unmap_block = λ address size s. s;
}

prompt-Returns : Returns prompt
prompt-Returns = record { answers = λ b s. (0, refl); owned = λ b s. refl }

-- Two blocks, one of them with the driver.
abbrev in_flight : Dma ℕ
in_flight = record {
  blocks = (record zero_block { state = 1 }) ∷ (record zero_block { id = 1 }) ∷ [];
  blocks_head = 0;
  driver = 0;
}

flush_lem_example :
    (d' : Dma ℕ) × (flush prompt 2 in_flight ≡ (ok tt, d')) × Flushed prompt prompt-Returns 2 0 d'
flush_lem_example = flush_lem prompt prompt-Returns 2 in_flight (ground arith) (ground arith)

-- The driver has it, and gives it.
abbrev first_block : Block
first_block = record zero_block { state = 1 }

resize_lem_example :
    let d' = resize 4 65536 in_flight in
    (length d'.blocks ≡ 4)
    × (d'.blocks_head ≡ 0)
    × ((b : Block) × (get_elem? d'.blocks 3 ≡ some b) × IsLaidOut 65536 3 b)
resize_lem_example = resize_lem 4 65536 3 in_flight (ground arith)

-- A mapping that the process holds.
record Held : Type 0 where
  address : ℕ
  size : ℕ

abbrev times_held : List Held → ℕ → ℕ → ℕ
times_held [] x n = 0
times_held (h ∷ hs) x n = times_held hs x n + same_mapping x n h.address h.size

-- `munmap` of the mapping at this address with this size, if there is one.
abbrev without_mapping : ℕ → ℕ → List Held → List Held
without_mapping address size [] = []
without_mapping address size (h ∷ hs) =
    let rest = without_mapping address size hs in
    if address == h.address && size == h.size then hs else h ∷ rest

-- A driver whose state is the mappings, and that fails to map behind the first block.
abbrev one_mapping : Driver (List Held)
one_mapping = record {
  dma_reconfigure = λ req s. (gives 0, req, s);
  dmablock_query = λ b s. (gives 0, b, s);
  dmablock_dequeue = λ b s. (gives 0, b, s);
  dmablock_enqueue = λ b s. (gives 0, b, s);
  dmablock_free = λ s. s;
  map_block = λ offset size s.
      if offset == 0
      then (gives 4096, record { address = 4096; size = size } ∷ s)
      else (fails 12, s);
  unmap_block = λ address size s. without_mapping address size s;
}

times_held-without :
    (address size : ℕ) (hs : List Held)
    → 0 < times_held hs address size
    → (x n : ℕ)
    → times_held (without_mapping address size hs) x n + same_mapping x n address size
      ≡ times_held hs x n
times_held-without address size [] h x n = absurd (omega (arith, h))
times_held-without address size (held ∷ hs) h x n =
    elim (Bool-cases (address == held.address && size == held.size)) [
      | inl same ↦ ground (arith, same)
      | inr other ↦
          ground (arith, other, times_held-without address size hs (ground (arith, h, other)) x n)
    ]

one_mapping-Counts : Counts one_mapping times_held
one_mapping-Counts = record {
  mapped = λ offset size s a h x n. ground (arith, h);
  not_mapped = λ offset size s e h x n. ground (arith, h);
  unmapped = λ address size s h x n. times_held-without address size s h x n;
  reconfigured = λ req s x n. refl;
  queried = λ b s x n. refl;
  freed = λ s x n. refl;
}

reconfigure_lem_example :
    let (r, d') =
      reconfigure one_mapping mode_coherent 65536 2
        (record { blocks = []; blocks_head = 0; driver = [] }) in
    ((x n : ℕ) → times_held d'.driver x n ≡ mappings x n d'.blocks)
    × ((r ≡ ok tt) ⊎ (((e : Exn) × (r ≡ throw e)) × NoneMapped d'.blocks))
reconfigure_lem_example =
    reconfigure_lem one_mapping times_held one_mapping-Counts mode_coherent 65536 2
      (record { blocks = []; blocks_head = 0; driver = [] }) (λ x n. refl)
