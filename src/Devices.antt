-- ===== src/Devices.antt =====
-- Opening the driver's device nodes (HardwareContext of hardware.cpp), over the answers of the
-- operating system to `::open` and `::access`.
pub mod Available
pub mod Errno
use Prim.Native.String.{String}
use libdyplo.Prelude.{ℕ, zero, suc, ◌+◌, Bool, true, false, ◌==◌}
use libdyplo.Effects.{Result, ok, throw, io_error, waiting, fault}
use libdyplo.FileIo.{Answer, gives, fails}

abbrev pub ebusy : ℕ
ebusy = 16

abbrev pub enodev : ℕ
enodev = 19

abbrev pub eacces : ℕ
eacces = 13

-- The values of `access & O_ACCMODE`.
pub data AccessMode : Type 0 where
  rdonly wronly rdwr : AccessMode

-- A path is a prefix, then `r`, `w`, `d` or `cfg` with an index, or `ctl`.
pub data Node : Type 0 where
  fifo_r fifo_w dma cfg : ℕ → Node
  ctl : Node

pub record NodePath : Type 0 where
  pub prefix : String
  pub node : Node

abbrev pub driver_prefix : String
driver_prefix = "/dev/dyplo"

-- `count_numbered_files`, counting from `result`, for `rounds` files at most.
unfoldable pub count_numbered_files : ℕ → (ℕ → Bool) → ℕ → Result ℕ
count_numbered_files zero accessible result = waiting
count_numbered_files (suc rounds) accessible result = elim (accessible result) [
  | true ↦ count_numbered_files rounds accessible (result + 1)
  | false ↦ ok result
]

-- The loops over the indices of one kind of node, with `left` of them to try.
unfoldable pub open_first : (ℕ → Result Answer) → ℕ → ℕ → Result ℕ
open_first open_node index zero = throw (io_error enodev "")
open_first open_node index (suc left) = elim (open_node index) [
  | ok (gives handle) ↦ ok handle
  | ok (fails e) ↦ elim (e == ebusy) [
    | true ↦ open_first open_node (index + 1) left
    | false ↦ throw (io_error e "")
  ]
  | throw x ↦ throw x
  | waiting ↦ waiting
  | fault ↦ fault
]

-- `errno` after such a loop, when it was `errno` before: that of the last opening that failed.
unfoldable pub last_errno : (ℕ → Result Answer) → ℕ → ℕ → ℕ → ℕ
last_errno open_node errno index zero = errno
last_errno open_node errno index (suc left) = elim (open_node index) [
  | ok (fails e) ↦ elim (e == ebusy) [ true ↦ last_errno open_node e (index + 1) left | false ↦ e ]
  | ok (gives handle) ↦ errno
  | throw x ↦ errno
  | waiting ↦ errno
  | fault ↦ errno
]

-- The loops run over what was counted, if the counting ended.
abbrev pub within_count : Result ℕ → (ℕ → Result ℕ) → Result ℕ
within_count (ok n) f = f n
within_count (throw x) f = throw x
within_count waiting f = waiting
within_count fault f = fault

module _ (prefix : String) (sys_open : NodePath → AccessMode → Answer)
    (sys_access : NodePath → Bool) where
  abbrev node_at : Node → NodePath
  node_at n = record { prefix = prefix; node = n }

  -- An access that is neither to read nor to write is refused before `::open`.
  unfoldable pub open_fifo : ℕ → AccessMode → Result Answer
  open_fifo fifo rdonly = ok (sys_open (node_at (fifo_r fifo)) rdonly)
  open_fifo fifo wronly = ok (sys_open (node_at (fifo_w fifo)) wronly)
  open_fifo fifo rdwr = throw (io_error eacces "")

  unfoldable pub open_dma : ℕ → AccessMode → Answer
  open_dma index access = sys_open (node_at (dma index)) access

  unfoldable pub open_config : ℕ → AccessMode → Answer
  open_config index access = sys_open (node_at (cfg index)) access

  unfoldable pub open_control : AccessMode → Answer
  open_control access = sys_open (node_at ctl) access

  unfoldable pub open_available_dma : AccessMode → Result ℕ
  unfolding open_first open_dma
  open_available_dma access = open_first (λ index. ok (open_dma index access)) 0 31

  -- The fifos are counted under the driver's own prefix.
  unfoldable pub cpu_fifo_count_r : ℕ → Result ℕ
  cpu_fifo_count_r rounds =
      count_numbered_files rounds
        (λ i. sys_access (record { prefix = driver_prefix; node = fifo_r i })) 0

  unfoldable pub cpu_fifo_count_w : ℕ → Result ℕ
  cpu_fifo_count_w rounds =
      count_numbered_files rounds
        (λ i. sys_access (record { prefix = driver_prefix; node = fifo_w i })) 0

  unfoldable pub open_available_write_fifo : ℕ → Result ℕ
  unfolding cpu_fifo_count_w
  open_available_write_fifo rounds =
      within_count (cpu_fifo_count_w rounds) (open_first (λ index. open_fifo index wronly) 0)

  -- `errno` when `openAvailableWriteFifo` throws, if `access_errno` tells that of an access that
  -- fails, which ends the counting.
  unfoldable pub write_fifo_errno : (NodePath → ℕ) → ℕ → ℕ
  unfolding cpu_fifo_count_w last_errno
  write_fifo_errno access_errno rounds = elim (cpu_fifo_count_w rounds) [
    | ok n ↦
        last_errno (λ index. open_fifo index wronly)
          (access_errno (record { prefix = driver_prefix; node = fifo_w n })) 0 n
    | throw x ↦ 0
    | waiting ↦ 0
    | fault ↦ 0
  ]

  unfoldable pub open_available_read_fifo : ℕ → Result ℕ
  unfolding cpu_fifo_count_r
  open_available_read_fifo rounds =
      within_count (cpu_fifo_count_r rounds) (open_first (λ index. open_fifo index rdonly) 0)
