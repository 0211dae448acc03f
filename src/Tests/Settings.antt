-- ===== src/Tests/Settings.antt =====
-- The settings of the driver, license files and the making of a programmer at concrete inputs.
use Prim.Native.Nat.{bit_or}
use libdyplo.Prelude.{
  ℕ, zero, suc, ◌+◌, ◌-◌, ◌*◌, ◌/◌, ◌%◌, ◌^◌, ◌≤◌, ◌<◌, ◌≡◌, refl, true, false, [], ◌∷◌, ◌++◌, some,
  ltb, ◌==◌, if◌then◌else◌, arith, ap, ◌∙◌,
}
use libdyplo.Effects.{ok, throw, io_error}
use libdyplo.FileIo.{Answer, gives, fails}
use libdyplo.Words.{bit, bit-zero, bit-bit_or}
use libdyplo.Devices.{fifo_w, dma, ebusy}
use libdyplo.Control.{
  ControlDriver, Request, backplane_enable, backplane_disable, enable_node, disable_node,
  is_node_enabled, write_dyplo_license,
}
use libdyplo.Control.Nodes.{KeepsNodes, enable_node_lem}
use libdyplo.Control.License.{Line, has_text, write_dyplo_license_file}
use libdyplo.Control.License.RoundTrip.{license_line, license_round_trip}
use libdyplo.Programmer.Setup.{Board, Boot}

-- The bits of `x` that `m` does not have, of so many.
abbrev without_bits : ℕ → ℕ → ℕ → ℕ
without_bits zero x m = 0
without_bits (suc f) x m = without_bits f (x / 2) (m / 2) * 2 + (x % 2 - m % 2)

bit-without_bits : (i f x m : ℕ) → x ≤ f → bit i (without_bits f x m) ≡ bit i x - bit i m
bit-without_bits i zero x m h = omega (arith, bit-zero i, ap (bit i) none_there)
  where
    none_there : x ≡ 0
    none_there = omega arith
bit-without_bits zero (suc f) x m h = omega arith
bit-without_bits (suc i) (suc f) x m h =
    ap (bit i) (half f x m) ∙ bit-without_bits i f (x / 2) (m / 2) (omega arith)
  where
    half : (f x m : ℕ) → without_bits (suc f) x m / 2 ≡ without_bits f (x / 2) (m / 2)
    half f x m = omega arith

-- A driver that keeps the mask of nodes and the license.
record Kept : Type 0 where
  mask : ℕ
  key : ℕ

abbrev tell_mask : Request → Kept → Answer × Kept
tell_mask (backplane_enable m) s = (gives 0, record s { mask = bit_or s.mask m })
tell_mask (backplane_disable m) s = (gives 0, record s { mask = without_bits s.mask s.mask m })
tell_mask _ s = (gives s.mask, s)

abbrev keeper : ControlDriver Kept
keeper = record {
  errno = λ s. 0;
  tell = tell_mask;
  set_routes = λ items s. (gives 0, s);
  get_routes = λ n s. (gives 0, [], s);
  set_license = λ blob s. (gives 0, record s { key = blob });
  get_variable = λ v s. (gives 0, s.key, s);
}

abbrev kept : Kept
kept = record { mask = 5; key = 0 }

keeper-KeepsNodes : KeepsNodes keeper
keeper-KeepsNodes = record {
  mask = λ s. s.mask;
  status = λ s. refl;
  enables = λ m s. refl;
  enabled = λ m i s. bit-bit_or i s.mask m;
  disables = λ m s. refl;
  disabled = λ m i s. bit-without_bits i s.mask s.mask m (omega arith);
}

enable_node_lem_example :
    let (r, s') = enable_node keeper 31 kept in
    let (r', s'') = disable_node keeper 31 kept in
    (r ≡ ok tt)
    × ((is_node_enabled keeper 2 s').0 ≡ (
        if 31 == 31
        then throw (io_error (keeper.errno s') "")
        else (if 2 == 31 then ok true else (is_node_enabled keeper 2 kept).0)))
    × (r' ≡ ok tt)
    × ((is_node_enabled keeper 2 s'').0
        ≡ (if 2 == 31 then ok false else (is_node_enabled keeper 2 kept).0))
unfolding keeper-KeepsNodes
enable_node_lem_example =
    enable_node_lem keeper keeper-KeepsNodes 31 2 kept (ground arith) (ground arith) small
  where
    small : kept.mask < 2 ^ 31
    small = ground arith

abbrev remark : Line
remark = b'#' ∷ b'=' ∷ b'1' ∷ []

license_round_trip_example :
    write_dyplo_license_file keeper
      (some ((remark ∷ []) ++ (license_line 0x1f00abcd ∷ remark ∷ [])))
      kept
    ≡ write_dyplo_license keeper 0x1f00abcd kept
unfolding has_text
license_round_trip_example =
    license_round_trip keeper 0x1f00abcd (remark ∷ []) (remark ∷ []) kept (ground arith) (refl, tt)

-- The first DMA node is busy; the driver takes every request but has no room for DMA blocks.
abbrev bench : Board ℕ
bench = record {
  icap = gives 9;
  prefix = "/dev/dyplo";
  sys_open = λ path access. elim path.node [
    | dma i ↦ if i == 0 then fails ebusy else gives i
    | _ ↦ fails ebusy
  ];
  sys_access = λ path. elim path.node [ fifo_w i ↦ ltb i 2 | _ ↦ true ];
  access_errno = λ path. 2;
  rounds = 3;
  dma_driver = record {
    dma_reconfigure = λ req s. (fails 12, req, s);
    dmablock_query = λ b s. (gives 0, b, s);
    dmablock_dequeue = λ b s. (gives 0, b, s);
    dmablock_enqueue = λ b s. (gives 0, b, s);
    dmablock_free = λ s. s;
    map_block = λ offset size s. (gives offset, s);
    unmap_block = λ address size s. s;
  };
  memory = λ b. [];
  node_request = λ fd r. gives 0;
  fifo_answers = [];
  static_id = gives 5;
  fsync = gives 0;
}

abbrev nothing_open : Boot ℕ
nothing_open = record { handles = []; driver = 0 }
