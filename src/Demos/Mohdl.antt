-- ===== src/Demos/Mohdl.antt =====
-- dyplodemohdlapp.cpp: routes between the processor and two nodes, and values for their configuration.
pub mod Configured
use libdyplo.Prelude.{
  ℕ, zero, suc, ◌+◌, ◌-◌, ◌*◌, ◌%◌, ◌^◌, Bool, true, false, List, [], ◌∷◌, ◌++◌, ltb, leb, ◌==◌,
  if◌then◌else◌, length, take, drop, min,
}
use libdyplo.Effects.{
  Exn, runtime_error, Result, ok, throw, waiting, fault, M, ◌>>=◌, ◌>>◌, pure, raise, lift,
}
use libdyplo.FileIo.{Answer, gives, fails, checked, own_descriptor, write}
use libdyplo.Devices.{NodePath, AccessMode, wronly, rdonly, rdwr, open_config, open_control}
use libdyplo.Control.{ℤ, RouteItem, ControlDriver, route_add}
use libdyplo.Demos.Integers.{Text, atoi}
use Prim.Native.String.{String}

abbrev pub n_hdl : ℕ
n_hdl = 2

abbrev pub n_fifos : ℕ
n_fifos = 4

-- The two routes of one fifo, to the node and back; the fields are `unsigned char`.
abbrev pub route_pair : ℕ → ℕ → List RouteItem
route_pair hdl fifo =
    record {
      src_fifo = (hdl * n_fifos + fifo) % 2 ^ 8;
      src_node = 0;
      dst_fifo = fifo % 2 ^ 8;
      dst_node = (hdl + 1) % 2 ^ 8;
    }
    ∷ record {
      src_fifo = fifo % 2 ^ 8;
      src_node = (hdl + 1) % 2 ^ 8;
      dst_fifo = (hdl * n_fifos + fifo) % 2 ^ 8;
      dst_node = 0;
    }
    ∷ []

-- The inner loop with `left` fifos to go, and the outer one with `left` nodes to go.
unfoldable pub node_routes : ℕ → ℕ → ℕ → List RouteItem
node_routes zero hdl fifo = []
node_routes (suc left) hdl fifo = route_pair hdl fifo ++ node_routes left hdl (suc fifo)

unfoldable pub routes : ℕ → ℕ → List RouteItem
unfolding node_routes
routes zero hdl = []
routes (suc left) hdl = node_routes n_fifos hdl 0 ++ routes left (suc hdl)

-- What an argument asks for; a `-` before another character is looked at as a number.
pub data Argument : Type 0 where
  be_verbose : Argument
  show_usage : Argument
  number : Argument

abbrev pub argument : Text → Argument
argument [] = number
argument (c ∷ []) = number
argument (c ∷ d ∷ rest) =
    if c == b'-'
    then (if d == b'v' then be_verbose else if d == b'h' then show_usage else number)
    else number

-- The command line: `none` shows the usage; a value beyond the array's end is a fault.
pub data Command : Type 0 where
  usage : Command
  run : Bool → List ℤ → Command

unfoldable pub parse_arguments : Bool → List ℤ → List Text → Result Command
unfolding atoi
parse_arguments verbose values [] = ok (run verbose values)
parse_arguments verbose values (arg ∷ args) = elim (argument arg) [
  | be_verbose ↦ parse_arguments true values args
  | show_usage ↦ ok usage
  | number ↦ elim (atoi arg) [
    | ok v ↦
        if ltb (length values) (n_fifos * n_hdl)
        then parse_arguments verbose (values ++ (v ∷ [])) args
        else fault
    | throw e ↦ throw e
    | waiting ↦ waiting
    | fault ↦ fault
  ]
]

-- What was written to the configuration of which node.
abbrev pub Writes : Type 0
Writes = List (ℕ × List ℤ)

module _ (prefix : String) (sys_open : NodePath → AccessMode → Answer)
    (sys_access : NodePath → Bool) (sys_write : ℕ → List ℤ → Answer) where
  -- `File f(ctrl.openConfig(hdl, O_WRONLY))` and the write; a short write is an error. An `int` has
  -- four bytes.
  unfoldable pub write_node : ℕ → List ℤ → M Writes (Unit {0})
  write_node hdl values ws =
      (lift (own_descriptor (open_config prefix sys_open sys_access hdl wronly)) >>= λ fd.
      lift (write (sys_write fd values)) >>= λ n.
      if ltb n (length values * 4)
      then raise (runtime_error "Failed to write config data")
      else λ s. (ok tt, s ++ ((hdl, values) ∷ [])))
        ws

  -- The loop `while (index > 0)`, for `rounds` turns at most.
  unfoldable pub write_config : ℕ → ℕ → List ℤ → M Writes (Unit {0})
  unfolding write_node
  write_config rounds hdl [] = pure tt
  write_config zero hdl (v ∷ vs) = lift waiting
  write_config (suc rounds) hdl (v ∷ vs) =
      write_node hdl (take n_fifos (v ∷ vs))
      >> write_config rounds (hdl + 1) (drop n_fifos (v ∷ vs))

  -- `dyplo::File cfg(ctrl.openConfig(hdl, O_RDONLY))` and the read of its values, for `left` nodes.
  unfoldable pub show_config : {S : Type 0} → (ℕ → Answer) → ℕ → ℕ → M S (Unit {0})
  show_config sys_read zero hdl = pure tt
  show_config sys_read (suc left) hdl =
      lift (own_descriptor (open_config prefix sys_open sys_access hdl rdonly)) >>= λ fd.
      lift (checked "" (sys_read hdl)) >>= λ n.
      if n == n_fifos * 4
      then show_config sys_read left (hdl + 1)
      else raise (runtime_error "Failed to read config data")

  -- The `try` block: the configuration is shown, and the routes are added.
  unfoldable pub set_up_routes :
      {σ : Type 0} → ControlDriver σ → (ℕ → Answer) → Bool → M σ (Unit {0})
  unfolding show_config routes
  set_up_routes k sys_read verbose =
      (if verbose then show_config sys_read n_hdl 1 else pure tt) >>= λ _.
      lift (own_descriptor (open_control prefix sys_open sys_access rdwr)) >>= λ fd.
      route_add k (routes n_hdl 0)

  -- `catch (const std::exception& ex)`, which only prints; 0 is returned in both cases.
  abbrev pub after_catch : {S : Type 0} → Result (Unit {0}) × S → Result ℕ × S
  after_catch (ok tt, s) = (ok 0, s)
  after_catch (throw e, s) = (ok 0, s)
  after_catch (waiting, s) = (waiting, s)
  after_catch (fault, s) = (fault, s)

  -- `main` with the arguments behind the program's name. The loop that writes is outside of `try`:
  -- an exception of it ends the program.
  unfoldable pub mohdl_main :
      {σ : Type 0} → ControlDriver σ → (ℕ → Answer) → List Text → M (Writes × σ) ℕ
  unfolding parse_arguments write_config set_up_routes
  mohdl_main k sys_read args s = elim (parse_arguments false [] args) [
    | ok usage ↦ (ok 1, s)
    | ok (run verbose values) ↦
        let (r, ws) = write_config (length values) 1 values s.0 in
        elim r [
          | ok _ ↦ let (x, c) = after_catch (set_up_routes k sys_read verbose s.1) in (x, (ws, c))
          | throw e ↦ (throw e, (ws, s.1))
          | waiting ↦ (waiting, (ws, s.1))
          | fault ↦ (fault, (ws, s.1))
        ]
    | throw e ↦ (throw e, s)
    | waiting ↦ (waiting, s)
    | fault ↦ (fault, s)
  ]
