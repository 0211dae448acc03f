-- ===== src/Control.antt =====
-- HardwareControl, HardwareConfig and HardwareFifo (hardware.cpp, hardware.hpp) over the requests of
-- dyplo-ioctl.h. What the driver answers is a parameter.
pub mod Nodes
pub mod License
use Prim.Native.String.{String}
use Prim.Native.Nat.{bit_and}
use libdyplo.Prelude.{ℕ, ◌%◌, ◌^◌, Bool, false, List, ltb, ◌==◌, ◌&&◌, not, if◌then◌else◌}
use libdyplo.Effects.{Result, io_error, ok, throw, fault, M, proceed, ◌>>=◌, pure, lift}
use libdyplo.FileIo.{Answer, gives, fails, checked}

-- `struct dyplo_route_item_t`, and HardwareControl::Route, which has the same layout.
pub record RouteItem : Type 0 where
  pub dst_fifo : ℕ
  pub dst_node : ℕ
  pub src_fifo : ℕ
  pub src_node : ℕ

-- The requests that tell the driver a value, or ask it for its return value.
pub data Request : Type 0 where
  route_clear query_id backplane_status enable_self disable_self delete_self : Request
  reset_self icap_index query_treshold query_usersignal license_info : Request
  route_tell route_single_delete : RouteItem → Request
  route_delete backplane_enable backplane_disable to_logic from_logic : ℕ → Request
  reset_write reset_read treshold usersignal : ℕ → Request

-- The requests that fill a variable.
pub data Variable : Type 0 where
  license_key device_id static_id : Variable

pub record ControlDriver (σ : Type 0) : Type 0 where
  -- The thread's `errno`, which only a request that fails sets.
  pub errno : σ → ℕ
  pub tell : Request → σ → Answer × σ
  pub set_routes : List RouteItem → σ → Answer × σ
  pub get_routes : ℕ → σ → Answer × List RouteItem × σ
  pub set_license : ℕ → σ → Answer × σ
  pub get_variable : Variable → σ → Answer × ℕ × σ

-- What a C function returns as an `int`.
pub data ℤ : Type 0 where
  pos negsuc : ℕ → ℤ

-- `::ioctl` returns -1 for an error, and says in `errno` which.
abbrev pub returned : Answer → ℤ
returned (gives n) = pos n
returned (fails e) = negsuc 0

-- `(result < 0) && (result != -ENODEV)`, with ENODEV 19.
abbrev pub is_failure : ℤ → Bool
is_failure (pos n) = false
is_failure (negsuc n) = not (n == 18)

-- What `getIcapNodeIndex` makes of the answer: a failure, or the result as it is.
unfoldable pub icap_result : Answer → Result ℤ
icap_result (gives n) = ok (pos n)
icap_result (fails e) =
    if is_failure (returned (fails e))
    then throw (io_error e "getIcapNodeIndex")
    else ok (returned (fails e))

-- `1 << node`; a shift by the width of `int` or more is undefined.
abbrev pub node_bit : {σ : Type 0} → ℕ → M σ ℕ
node_bit node = lift (if ltb node 32 then ok (2 ^ node) else fault)

module _ {σ : Type 0} (k : ControlDriver σ) where
  open k use {errno, tell, set_routes, get_routes, set_license, get_variable}

  -- A call whose error becomes an IOException with the name of the method.
  abbrev pub called : String → (σ → Answer × σ) → M σ ℕ
  called function call s = let (answer, s') = call s in (checked function answer, s')

  abbrev pub request : String → Request → M σ ℕ
  request function r = called function (tell r)

  abbrev pub command : String → Request → M σ (Unit {0})
  command function r = request function r >>= λ _. pure tt

  unfoldable pub route_delete_all : M σ (Unit {0})
  route_delete_all = command "routeDeleteAll" route_clear

  -- The arguments are `unsigned char`.
  abbrev pub route_item : ℕ → ℕ → ℕ → ℕ → RouteItem
  route_item src_node src_fifo dst_node dst_fifo = record {
    dst_fifo = dst_fifo % 2 ^ 8;
    dst_node = dst_node % 2 ^ 8;
    src_fifo = src_fifo % 2 ^ 8;
    src_node = src_node % 2 ^ 8;
  }

  unfoldable pub route_add_single : ℕ → ℕ → ℕ → ℕ → M σ (Unit {0})
  route_add_single src_node src_fifo dst_node dst_fifo =
      command "routeAddSingle" (route_tell (route_item src_node src_fifo dst_node dst_fifo))

  unfoldable pub route_delete_single : ℕ → ℕ → ℕ → ℕ → M σ (Unit {0})
  route_delete_single src_node src_fifo dst_node dst_fifo =
      command "routeDeleteSingle"
        (route_single_delete (route_item src_node src_fifo dst_node dst_fifo))

  -- The count, or -1, is handed over unchecked, with what the driver has put into the items.
  unfoldable pub route_get_all : ℕ → M σ (ℤ × List RouteItem)
  route_get_all n_items s =
      let (answer, items, s') = get_routes n_items s in (ok (returned answer, items), s')

  unfoldable pub route_add : List RouteItem → M σ (Unit {0})
  route_add items = called "routeAdd" (set_routes items) >>= λ _. pure tt

  unfoldable pub route_delete_to : ℕ → M σ (Unit {0})
  route_delete_to node = command "routeDelete" (route_delete node)

  -- The answer is kept in an `int`: one that has bit 31 is less than 0 there, and is taken for a
  -- failure, with the `errno` of whatever failed last.
  abbrev pub as_mask : ℕ → M σ ℕ
  as_mask result s =
      if ltb result (2 ^ 31) then (ok result, s) else (throw (io_error (errno s) ""), s)

  unfoldable pub get_enabled_nodes : M σ ℕ
  get_enabled_nodes = request "" backplane_status >>= as_mask

  unfoldable pub enable_nodes : ℕ → M σ (Unit {0})
  enable_nodes mask = command "enableNodes" (backplane_enable mask)

  unfoldable pub disable_nodes : ℕ → M σ (Unit {0})
  disable_nodes mask = command "disableNodes" (backplane_disable mask)

  unfoldable pub is_node_enabled : ℕ → M σ Bool
  unfolding get_enabled_nodes
  is_node_enabled node = do
    mask ← get_enabled_nodes
    bit ← node_bit node
    pure (not (bit_and mask bit == 0))

  unfoldable pub enable_node : ℕ → M σ (Unit {0})
  unfolding enable_nodes
  enable_node node = node_bit node >>= enable_nodes

  unfoldable pub disable_node : ℕ → M σ (Unit {0})
  unfolding disable_nodes
  disable_node node = node_bit node >>= disable_nodes

  unfoldable pub write_dyplo_license : ℕ → M σ (Unit {0})
  write_dyplo_license blob = called "writeDyploLicense" (set_license blob) >>= λ _. pure tt

  -- A variable that the driver fills.
  abbrev pub filled : String → Variable → M σ ℕ
  filled function v s =
      let (answer, value, s') = get_variable v s in
      proceed (λ _. pure value) (checked function answer, s')

  unfoldable pub read_dyplo_license : M σ ℕ
  read_dyplo_license = filled "readDyploLicense" license_key

  unfoldable pub read_dyplo_device_id : M σ ℕ
  read_dyplo_device_id = filled "readDyploDeviceID" device_id

  unfoldable pub read_dyplo_license_info : M σ ℕ
  read_dyplo_license_info = request "" license_info

  unfoldable pub read_dyplo_static_id : M σ ℕ
  read_dyplo_static_id = filled "readDyploStaticID" static_id >>= λ id. pure (id % 2 ^ 16)

  unfoldable pub get_icap_node_index : M σ ℤ
  unfolding icap_result
  get_icap_node_index s = let (answer, s') = tell icap_index s in (icap_result answer, s')

  -- HardwareConfig
  unfoldable pub reset_write_fifos : ℕ → M σ (Unit {0})
  reset_write_fifos mask = command "resetWriteFifos" (reset_write mask)

  unfoldable pub reset_read_fifos : ℕ → M σ (Unit {0})
  reset_read_fifos mask = command "resetReadFifos" (reset_read mask)

  unfoldable pub is_enabled : M σ Bool
  is_enabled = request "" backplane_status >>= λ result. pure (not (result == 0))

  unfoldable pub enable : M σ (Unit {0})
  enable = command "enableNode" enable_self

  unfoldable pub disable : M σ (Unit {0})
  disable = command "disableNode" disable_self

  unfoldable pub get_node_index : M σ ℕ
  get_node_index = request "getNodeIndex" query_id

  unfoldable pub delete_routes : M σ (Unit {0})
  delete_routes = command "deleteRoutes" delete_self

  -- HardwareFifo
  unfoldable pub reset_fifo : M σ (Unit {0})
  reset_fifo = command "reset" reset_self

  unfoldable pub get_node_and_fifo_index : M σ ℕ
  get_node_and_fifo_index = request "getNodeAndFifoIndex" query_id

  unfoldable pub add_route_to : ℕ → M σ (Unit {0})
  add_route_to destination = command "addRouteTo" (to_logic destination)

  unfoldable pub add_route_from : ℕ → M σ (Unit {0})
  add_route_from source = command "addRouteFrom" (from_logic source)

  unfoldable pub get_data_treshold : M σ ℕ
  get_data_treshold = request "getDataTreshold" query_treshold

  unfoldable pub set_data_treshold : ℕ → M σ (Unit {0})
  set_data_treshold value = command "setDataTreshold" (treshold value)

  unfoldable pub set_user_signal : ℕ → M σ (Unit {0})
  set_user_signal value = command "setUserSignal" (usersignal value)

  unfoldable pub get_user_signal : M σ ℕ
  get_user_signal = request "getUserSignal" query_usersignal
