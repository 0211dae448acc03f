-- ===== src/Programmer.antt =====
-- HardwareProgrammer (hardware.cpp): the callback that sends an image to the ICAP node, through DMA
-- blocks or through a CPU fifo.
pub mod Blocks
pub mod CpuFifo
pub mod Padding
pub mod Setup
use libdyplo.Prelude.{
  ℕ, ◌+◌, ◌-◌, ◌*◌, ◌/◌, ◌%◌, ◌^◌, ◌≤◌, Bool, true, false, List, [], ◌∷◌, ◌++◌, Option, some, none,
  ltb, leb, ◌==◌, ◌&&◌, not, if◌then◌else◌, length, get_elem?, set, take, drop, overwrite, zero,
  suc,
}
use libdyplo.Effects.{
  Result, ok, throw, fault, static_id_mismatch, io_error, M, proceed, ◌>>=◌, ◌>>◌, pure, raise, get,
  put,
}
use libdyplo.FileIo.{Answer, gives, fails, checked}
use libdyplo.Dma.{Block, Dma, Driver, dequeue, enqueue}
use libdyplo.Bitstream.Reader.{Callback, buffer_size}
use libdyplo.Bitstream.Writer.{Writer, write_output}

-- 0x20000000 in little-endian order.
abbrev pub icap_nop : List ℕ
icap_nop = 0 ∷ 0 ∷ 0 ∷ 0x20 ∷ []

unfoldable pub nops : ℕ → List ℕ
nops zero = []
nops (suc n) = icap_nop ++ nops n

-- The DMA fifo, the memory that each of its blocks is mapped to, the block that is being filled, and
-- what the blocks that were enqueued have brought to the node.
pub record DmaRoute (σ : Type 0) : Type 0 where
  pub dma : Dma σ
  pub memories : List (List ℕ)
  pub block : Option ℕ
  pub sent : List ℕ

-- `(length + 7) & 0xFFFFFFF8`
abbrev pub padded : ℕ → ℕ
padded length_bytes = (length_bytes + 7) / 8 * 8

module _ {σ : Type 0} (k : Driver σ) where
  abbrev pub on_dma : {B : Type 0} → M (Dma σ) B → M (DmaRoute σ) B
  on_dma m r = let (x, d) = m r.dma in (x, record r { dma = d })

  -- The block that is being filled, or one that is dequeued; NULL is looked through at once.
  unfoldable pub take_block : M (DmaRoute σ) (ℕ × Block)
  take_block r = elim r.block [
    | some i ↦ elim (get_elem? r.dma.blocks i) [ some b ↦ (ok (i, b), r) | none ↦ (fault, r) ]
    | none ↦
        (on_dma (dequeue k) >>= λ taken r'. elim taken [
          | none ↦ (fault, r')
          | some i ↦ elim (get_elem? r'.dma.blocks i) [
            | some b ↦ (ok (i, b), record r' { block = some i })
            | none ↦ (fault, r')
          ]
        ])
          r
  ]

  unfoldable pub begin_dma : ℕ → M (DmaRoute σ) ℕ
  unfolding take_block
  begin_dma remaining = do
    (i, b) ← take_block
    pure (if ltb b.size remaining then b.size else remaining)

  -- A store of bytes into the memory of block `i`.
  unfoldable pub store_at_block : ℕ → ℕ → List ℕ → M (DmaRoute σ) (Unit {0})
  store_at_block i p bytes r = elim (get_elem? r.memories i) [
    | none ↦ (fault, r)
    | some memory ↦
        if leb (p + length bytes) (length memory)
        then (ok tt, record r { memories = set r.memories i (overwrite memory p bytes) })
        else (fault, r)
  ]

  unfoldable pub store_dma : List ℕ → M (DmaRoute σ) (Unit {0})
  unfolding store_at_block
  store_dma bytes r = elim r.block [ some i ↦ store_at_block i 0 bytes r | none ↦ (fault, r) ]

  -- `block->bytes_used = bytes; dma_writer->enqueue(block); block = NULL;`
  unfoldable pub send_block : ℕ → ℕ → M (DmaRoute σ) (Unit {0})
  send_block i bytes r = elim (get_elem? r.dma.blocks i) [
    | none ↦ (fault, r)
    | some b ↦
        (on_dma (enqueue k i) >>= λ _ r'. elim (get_elem? r.memories i) [
          | none ↦ (fault, r')
          | some memory ↦ (ok tt, record r' { block = none; sent = r'.sent ++ take bytes memory })
        ])
          (record r {
            dma = record r.dma { blocks = set r.dma.blocks i (record b { bytes_used = bytes }) };
          })
  ]

  -- The DMA node writes 64 bits at a time: a NOP goes behind a length that is not a multiple of that.
  unfoldable pub end_dma : ℕ → M (DmaRoute σ) ℕ
  unfolding store_at_block send_block
  end_dma length_bytes r = elim r.block [
    | none ↦ (fault, r)
    | some i ↦
        ((if not (length_bytes % 8 == 0) && leb (length_bytes % 8) 4
              then store_at_block i (length_bytes / 8 * 8 + 4) icap_nop
              else pure tt)
            >>= λ _. send_block i (padded length_bytes) >>= λ _. pure length_bytes)
          r
  ]

  -- A block of `count` NOPs, as many as fit.
  abbrev pub send_nops : ℕ → ℕ → M (DmaRoute σ) ℕ
  send_nops i count =
      store_at_block i 0 (nops count) >>= λ _. send_block i (count * 4) >>= λ _. pure count

  -- `sendNOP`, with the count rounded up to a multiple of 2; a block that is too small is filled.
  unfoldable pub send_nop : ℕ → M (DmaRoute σ) ℕ
  unfolding take_block store_at_block send_block nops
  send_nop count = take_block >>= λ (i, b).
      if ltb b.size ((count + 1) / 2 * 2 * 4)
      then (store_at_block i 0 (nops (b.size / 4)) >>= λ _.
          send_block i b.size >>= λ _. pure (b.size / 4))
      else send_nops i ((count + 1) / 2 * 2)

-- The route to the ICAP node that the constructor found.
pub data Route (σ : Type 0) : Type 0 where
  by_dma : DmaRoute σ → Route σ
  by_cpu : Writer → Route σ

-- The CPU fifo's state is that of a file's writer: `cpu_buffer`, which is of BUFFER_SIZE bytes and
-- allocated by the first call, what the node has received, and what `::write` will answer.
unfoldable pub begin_cpu : ℕ → M Writer ℕ
begin_cpu bytes_remaining w =
    (ok (if ltb buffer_size bytes_remaining then buffer_size else bytes_remaining), w)

-- A store into `cpu_buffer`.
unfoldable pub store_cpu : List ℕ → M Writer (Unit {0})
store_cpu bytes w =
    if leb (length bytes) buffer_size
    then (ok tt, record w { buffer = bytes ++ drop (length bytes) w.buffer })
    else (fault, w)

-- `cpu_fifo->write(cpu_buffer, length_bytes)`
unfoldable pub end_cpu : ℕ → M Writer ℕ
end_cpu length_bytes w = write_output length_bytes w.answers w

-- `control.readDyploStaticID()` answers `read_id`; what it gave is kept.
pub record Programmer (σ : Type 0) : Type 0 where
  pub route : Route σ
  pub read_id : Answer
  pub dyplo_user_id : Option ℕ

module _ {σ : Type 0} (k : Driver σ) where
  -- A call on whichever route there is.
  unfoldable pub on_route : {B : Type 0} → M (DmaRoute σ) B → M Writer B → M (Programmer σ) B
  on_route by_block by_fifo p = elim p.route [
    | by_dma r ↦ let (x, r') = by_block r in (x, record p { route = by_dma r' })
    | by_cpu w ↦ let (x, w') = by_fifo w in (x, record p { route = by_cpu w' })
  ]

  -- A write of NOPs to the CPU fifo, from an array of its own.
  unfoldable pub send_nop_fifo : ℕ → M Writer ℕ
  unfolding nops
  send_nop_fifo count w =
      let (x, w') = write_output (count * 4) w.answers (record w { buffer = nops count }) in
      proceed (λ _. pure count) (x, record w' { buffer = w.buffer })

  unfoldable pub send_nop_route : ℕ → M (Programmer σ) ℕ
  unfolding on_route send_nop_fifo
  send_nop_route count = on_route (send_nop k count) (send_nop_fifo ((count + 1) / 2 * 2))

  unfoldable pub get_static_id : M (Programmer σ) ℕ
  get_static_id p = elim p.dyplo_user_id [
    | some id ↦ (ok id, p)
    | none ↦ elim p.read_id [
      | fails e ↦ (throw (io_error e "readDyploStaticID"), p)
      | gives id ↦ (ok (id % 2 ^ 16), record p { dyplo_user_id = some (id % 2 ^ 16) })
    ]
  ]

  unfoldable pub verify_user_id : ℕ → M (Programmer σ) (Unit {0})
  unfolding get_static_id
  verify_user_id user_id =
      get_static_id >>= λ id. if id == user_id then pure tt else raise static_id_mismatch

  abbrev pub programmer : Callback (Programmer σ)
  programmer = record {
    begin_process_data = λ remaining. on_route (begin_dma k remaining) (begin_cpu remaining);
    store = λ bytes. on_route (store_dma k bytes) (store_cpu bytes);
    end_process_data = λ count. on_route (end_dma k count) (end_cpu count);
    verify_static_id = verify_user_id;
  }
