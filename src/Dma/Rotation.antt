-- ===== src/Dma/Rotation.antt =====
-- `HardwareDMAFifo::dequeue` (hardware.cpp), on every branch.
use libdyplo.Prelude.{ℕ, set}
use libdyplo.Dma.{Block, Dma, Driver, rewritten}

module _ {σ : Type 0} (k : Driver σ) (d : Dma σ) (b : Block) where
  -- The block at the head as the driver has rewritten it, the driver's state, and a head.
  abbrev pub told : ℕ → Dma σ
  told head = record {
    blocks = set d.blocks d.blocks_head (rewritten b (k.dmablock_dequeue b d.driver).1);
    blocks_head = head;
    driver = (k.dmablock_dequeue b d.driver).2;
  }
