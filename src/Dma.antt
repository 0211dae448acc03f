-- ===== src/Dma.antt =====
-- HardwareDMAFifo (hardware.hpp, hardware.cpp): the ring of DMA blocks that a process shares with the
-- driver. The driver's ioctl calls and `mmap` are parameters.
pub mod Layout
pub mod Rotation
pub mod Flush
pub mod Reconfigure
use Prim.Native.String.{String}
use libdyplo.Prelude.{
  ℕ, zero, suc, ◌+◌, ◌%◌, ◌^◌, Bool, true, false, List, [], ◌∷◌, Option, some, none, ltb, ◌==◌,
  ◌||◌, if◌then◌else◌, length, get_elem?, set, map, take, replicate, ◌++◌, ◌-◌,
}
use libdyplo.Effects.{
  Exn, io_error, Result, ok, throw, waiting, fault, M, ◌>>=◌, ◌>>◌, pure, raise, get, put,
}
use libdyplo.FileIo.{Answer, gives, fails}

pub record Block : Type 0 where
  pub id : ℕ
  pub offset : ℕ
  pub size : ℕ
  pub bytes_used : ℕ
  pub user_signal : ℕ
  pub state : ℕ
  -- Where the block is mapped; `none` is NULL.
  pub address : Option ℕ

-- `struct dyplo_dma_configuration_req`
pub record Configuration : Type 0 where
  pub mode : ℕ
  pub size : ℕ
  pub count : ℕ

-- What the driver and `mmap` answer. A call may rewrite the structure that it is given.
pub record Driver (σ : Type 0) : Type 0 where
  pub dma_reconfigure : Configuration → σ → Answer × Configuration × σ
  pub dmablock_query : Block → σ → Answer × Block × σ
  pub dmablock_dequeue : Block → σ → Answer × Block × σ
  pub dmablock_enqueue : Block → σ → Answer × Block × σ
  pub dmablock_free : σ → σ
  pub map_block : ℕ → ℕ → σ → Answer × σ
  pub unmap_block : ℕ → ℕ → σ → σ

pub record Dma (σ : Type 0) : Type 0 where
  pub blocks : List Block
  pub blocks_head : ℕ
  pub driver : σ

abbrev pub eagain : ℕ
eagain = 11

abbrev pub mode_ringbuffer : ℕ
mode_ringbuffer = 1

abbrev pub mode_coherent : ℕ
mode_coherent = 2

abbrev pub mode_streaming : ℕ
mode_streaming = 3

abbrev pub zero_block : Block
zero_block = record {
  id = 0;
  offset = 0;
  size = 0;
  bytes_used = 0;
  user_signal = 0;
  state = 0;
  address = none;
}

-- `std::vector::resize`: what is there stays, and what is new is zero.
unfoldable pub resize_blocks : ℕ → List Block → List Block
resize_blocks n blocks = take n blocks ++ replicate (n - length blocks) zero_block

-- The loop of `resize`, from block `i` at the offset that has come up.
unfoldable pub lay_out : ℕ → ℕ → ℕ → List Block → List Block
lay_out blocksize i offset [] = []
lay_out blocksize i offset (b ∷ bs) =
    record b { id = i; offset = offset; size = blocksize; address = none }
    ∷ lay_out blocksize (i + 1) ((offset + blocksize) % 2 ^ 32) bs

-- `++blocks_head`, back to the beginning at the end.
abbrev pub next_head : ℕ → ℕ → ℕ
next_head n head = if head + 1 == n then 0 else head + 1

module _ {σ : Type 0} where
  unfoldable pub resize : ℕ → ℕ → Dma σ → Dma σ
  unfolding resize_blocks lay_out
  resize number_of_blocks blocksize d = record d {
    blocks = lay_out blocksize 0 0 (resize_blocks number_of_blocks d.blocks);
    blocks_head = 0;
  }

-- A driver's call writes the structure's first part; `data` lies behind that.
abbrev pub rewritten : Block → Block → Block
rewritten b b' = record b' { address = b.address }

module _ {σ : Type 0} (k : Driver σ) where
  open k use {
    dma_reconfigure, dmablock_query, dmablock_dequeue, dmablock_enqueue, dmablock_free, map_block,
    unmap_block,
  }

  -- The loop of `unmap`.
  unfoldable pub unmap_blocks : List Block → σ → List Block × σ
  unmap_blocks [] s = ([], s)
  unmap_blocks (b ∷ bs) s = elim b.address [
    | none ↦ let (bs', s') = unmap_blocks bs s in (b ∷ bs', s')
    | some address ↦
        let (bs', s') = unmap_blocks bs (unmap_block address b.size s) in
        (record b { address = none } ∷ bs', s')
  ]

  unfoldable pub unmap : Dma σ → Dma σ
  unfolding unmap_blocks
  unmap d = let (bs, s) = unmap_blocks d.blocks d.driver in record d { blocks = bs; driver = s }

  unfoldable pub dispose : Dma σ → Dma σ
  unfolding unmap
  dispose d = let d' = unmap d in record d' { driver = dmablock_free d'.driver }

  -- The state of the block at `blocks_head` is looked at, and the driver asked for it if the driver
  -- owns it. Without blocks there is nothing to point to.
  unfoldable pub take_head : (Exn → Dma σ → Result (Option ℕ) × Dma σ) → M (Dma σ) (Option ℕ)
  take_head refused d = elim (get_elem? d.blocks d.blocks_head) [
    | none ↦ (fault, d)
    | some b ↦ elim (ltb 0 b.state) [
      | false ↦ (
        ok (some d.blocks_head),
        record d { blocks_head = next_head (length d.blocks) d.blocks_head },
      )
      | true ↦
          let (answer, b', s) = dmablock_dequeue b d.driver in
          let d' = record d { blocks = set d.blocks d.blocks_head (rewritten b b'); driver = s } in
          elim answer [
            | fails e ↦ refused (io_error e "DYPLO_IOCDMABLOCK_DEQUEUE") d'
            | gives n ↦ (
              ok (some d.blocks_head),
              record d' { blocks_head = next_head (length d.blocks) d.blocks_head },
            )
          ]
    ]
  ]

  abbrev pub or_null : Exn → Dma σ → Result (Option ℕ) × Dma σ
  or_null (io_error e context) d =
      if e == eagain then (ok none, d) else (throw (io_error e context), d)
  or_null x d = (throw x, d)

  -- `dequeue`: the index of the block, or `none` for NULL where the driver has none to give yet.
  unfoldable pub dequeue : M (Dma σ) (Option ℕ)
  unfolding take_head
  dequeue = take_head or_null

  unfoldable pub enqueue : ℕ → M (Dma σ) (Unit {0})
  enqueue i d = elim (get_elem? d.blocks i) [
    | none ↦ (fault, d)
    | some b ↦
        let (answer, b', s) = dmablock_enqueue b d.driver in
        let d' = record d { blocks = set d.blocks i (rewritten b b'); driver = s } in
        elim answer [
          | fails e ↦ (throw (io_error e "DYPLO_IOCDMABLOCK_ENQUEUE"), d')
          | gives n ↦ (ok tt, d')
        ]
  ]

  -- The loop of `flush`, until the head is back at `current`, for `rounds` turns at most.
  unfoldable pub flush_loop : ℕ → ℕ → M (Dma σ) (Unit {0})
  flush_loop zero current d = (waiting, d)
  flush_loop (suc rounds) current d =
      (take_head raise >>= λ _ d'. elim (d'.blocks_head == current) [
        | true ↦ (ok tt, d')
        | false ↦ flush_loop rounds current d'
      ])
        d

  unfoldable pub flush : ℕ → M (Dma σ) (Unit {0})
  unfolding flush_loop
  flush rounds d = flush_loop rounds d.blocks_head d

  -- The loop of `reconfigure` that asks for each block and maps it, with the blocks done so far.
  unfoldable pub map_blocks : List Block → σ → Result (Unit {0}) × List Block × σ
  map_blocks [] s = (ok tt, [], s)
  map_blocks (b ∷ bs) s =
      let (answer, b', s') = dmablock_query b s in
      elim answer [
        | fails e ↦ (throw (io_error e "DYPLO_IOCDMABLOCK_QUERY"), rewritten b b' ∷ bs, s')
        | gives n ↦
            let (mapped, s'') = map_block b'.offset b'.size s' in
            elim mapped [
              | fails e ↦ (throw (io_error e "mmap"), rewritten b b' ∷ bs, s'')
              | gives address ↦
                  let (r, bs', s''') = map_blocks bs s'' in
                  (r, record b' { address = some address } ∷ bs', s''')
            ]
      ]

  -- `catch (const std::exception&) { dispose(); throw; }`
  abbrev pub or_dispose : Result (Unit {0}) → Dma σ → Result (Unit {0}) × Dma σ
  or_dispose (throw x) d = (throw x, dispose d)
  or_dispose r d = (r, d)

  unfoldable pub reconfigure : ℕ → ℕ → ℕ → M (Dma σ) (Unit {0})
  unfolding unmap resize map_blocks
  reconfigure mode size count d =
      let d' = unmap d in
      let (answer, req, s) =
        dma_reconfigure (record { mode = mode; size = size; count = count }) d'.driver in
      elim answer [
        | fails e ↦ (throw (io_error e "reconfigure"), record d' { driver = s })
        | gives n ↦
            let d'' = resize req.count req.size (record d' { driver = s }) in
            elim (mode == mode_coherent || mode == mode_streaming) [
              | false ↦ (ok tt, d'')
              | true ↦
                  let (r, bs, s') = map_blocks d''.blocks d''.driver in
                  or_dispose r (record d'' { blocks = bs; driver = s' })
            ]
      ]
