-- ===== src/Stress.antt =====
-- The nodes of the stress test (testdyplostress.cpp): StressNode and its registers, and the search for
-- the nodes that the test uses.
pub mod Lanes
use libdyplo.Prelude.{
  ℕ, zero, suc, ◌+◌, ◌-◌, ◌*◌, ◌/◌, ◌%◌, Bool, true, false, List, [], ◌∷◌, ◌++◌, ltb, ◌==◌,
  if◌then◌else◌,
}
use libdyplo.Effects.{
  Result, ok, throw, waiting, fault, io_error, runtime_error, M, ◌>>=◌, ◌>>◌, pure, raise, lift,
}
use libdyplo.FileIo.{Answer, gives, fails, write, seek}
use libdyplo.Devices.{ebusy, enodev}

-- The node's file: where it stands, and its registers, by their number. `lseek` and `::write` answer
-- by position.
pub record Registers : Type 0 where
  pub position : ℕ
  pub values : ℕ → ℕ
  pub seek_answer : ℕ → Answer
  pub write_answer : ℕ → Answer

pub record StressNodeLane : Type 0 where
  pub burst_interval : ℕ
  pub burst_length : ℕ
  pub output_stepsize : ℕ
  pub input_stepsize : ℕ

unfoldable pub new_lane : ℕ → ℕ → ℕ → StressNodeLane
new_lane burst_interval burst_length stepsize = record {
  burst_interval = burst_interval;
  burst_length = burst_length;
  output_stepsize = stepsize;
  input_stepsize = stepsize;
}

abbrev pub store_words : ℕ → List ℕ → (ℕ → ℕ) → ℕ → ℕ
store_words at [] values i = values i
store_words at (x ∷ xs) values i =
    let rest = store_words (at + 1) xs values i in if i == at then x else rest

abbrev pub seek_to : ℕ → M Registers (Unit {0})
seek_to offset n = elim (n.seek_answer offset) [
  | gives p ↦ (ok tt, record n { position = offset })
  | fails e ↦ (throw (io_error e ""), n)
]

-- A write of whole registers; its result is not looked at.
abbrev pub write_words : List ℕ → M Registers (Unit {0})
write_words words n = elim (n.write_answer n.position) [
  | gives count ↦ (ok tt, record n { values = store_words (n.position / 4) words n.values })
  | fails e ↦ (throw (io_error e ""), n)
]

abbrev pub write_at : ℕ → List ℕ → M Registers (Unit {0})
write_at offset words = seek_to offset >>= λ _. write_words words

unfoldable pub reset_node : M Registers (Unit {0})
reset_node = write_at 0x04 (1 ∷ [])

unfoldable pub reset_lane : ℕ → M Registers (Unit {0})
reset_lane lane = write_at (0x40 * lane + 0x40) (1 ∷ [])

unfoldable pub set_lane_params : ℕ → StressNodeLane → M Registers (Unit {0})
set_lane_params lane s =
    write_at (0x40 * lane + 0x44)
      (s.burst_interval ∷ s.burst_length ∷ s.output_stepsize ∷ s.input_stepsize ∷ [])

unfoldable pub enable_stress : ℕ → M Registers (Unit {0})
enable_stress enabled = write_at 0x00 (enabled ∷ [])

unfoldable pub start_lanes : ℕ → M Registers (Unit {0})
start_lanes lane_mask = write_at 0x08 (lane_mask ∷ [])

unfoldable pub stop_lanes : ℕ → M Registers (Unit {0})
stop_lanes lane_mask = write_at 0x0C (lane_mask ∷ [])

-- A read of one register, with the answer of `::read`; EQUAL throws where that is not 4.
abbrev pub read_word : Answer → M Registers ℕ
read_word (fails e) n = (throw (io_error e ""), n)
read_word (gives count) n =
    (if count == 4 then ok (n.values (n.position / 4)) else throw (runtime_error "EQUAL"), n)

-- The register is read twice, and the second value counts.
unfoldable pub read_error : Answer → Answer → M Registers ℕ
read_error first second = do seek_to 0x14; _ ← read_word first; seek_to 0x14; read_word second

-- What the search comes to know of the id: the bit of the mask, and the answer of `openConfig`.
pub record Candidate : Type 0 where
  pub is_candidate : Bool
  pub opened : Answer

-- The loop of the constructor of Stress over the ids from `id` on, with the programming of the file
-- that `findPartition` names: the nodes that it has found, with their handles. A node that does not
-- exist is the last.
unfoldable pub find_nodes : (ℕ → Candidate) → (ℕ → Result ℕ) → ℕ → ℕ → Result (List (ℕ × ℕ))
find_nodes known program_node zero id = ok []
find_nodes known program_node (suc left) id = elim (known id).is_candidate [
  | false ↦ find_nodes known program_node left (id + 1)
  | true ↦ elim (known id).opened [
    | fails e ↦ if e == ebusy then find_nodes known program_node left (id + 1) else ok []
    | gives handle ↦ elim (program_node id) [
      | ok count ↦ elim (find_nodes known program_node left (id + 1)) [
        | ok nodes ↦ ok ((id, handle) ∷ nodes)
        | throw x ↦ throw x
        | waiting ↦ waiting
        | fault ↦ fault
      ]
      | throw x ↦ throw x
      | waiting ↦ waiting
      | fault ↦ fault
    ]
  ]
]

-- The nodes that the environment names by their ids, in the order of the names.
unfoldable pub fixed_nodes : (ℕ → Answer) → List ℕ → List (ℕ × ℕ)
fixed_nodes opened [] = []
fixed_nodes opened (id ∷ ids) = elim (opened id) [
  | gives handle ↦ (id, handle) ∷ fixed_nodes opened ids
  | fails e ↦ fixed_nodes opened ids
]

-- What the driver and the files answer to the constructor of Stress.
pub record Bench : Type 0 where
  pub fixed : List ℕ
  pub fixed_opened : ℕ → Answer
  pub candidates : Result ℕ
  pub known : ℕ → Candidate
  pub program_node : ℕ → Result ℕ
  pub programmer : Result (Unit {0})
  pub disable_nodes : ℕ → Result (Unit {0})
  pub enable_nodes : ℕ → Result (Unit {0})

infixl 5 ◌then◌
abbrev ◌then◌ : {A B : Type 0} → Result A → (A → Result B) → Result B
ok a then f = f a
throw e then f = throw e
waiting then f = waiting
fault then f = fault

abbrev pub no_node : ℕ → List (ℕ × ℕ) → Bool
no_node candidates [] = candidates == 0
no_node candidates (n ∷ nodes) = false

-- The constructor of Stress, which enables the candidates when the programmer is gone.
unfoldable pub new_stress : Bench → Result (List (ℕ × ℕ))
unfolding fixed_nodes find_nodes
new_stress b =
    let fixed = fixed_nodes b.fixed_opened b.fixed in
    b.candidates then λ candidates.
    if no_node candidates fixed
    then throw (runtime_error "No testNode available")
    else b.disable_nodes candidates then λ _. b.programmer then λ _.
        find_nodes b.known b.program_node 31 1 then λ found.
        b.enable_nodes candidates then λ _. ok (fixed ++ found)

-- `Stress::openAvailableFifo`, over the answers of `openFifo`, from `index` on.
unfoldable pub open_available_fifo : (ℕ → Answer) → ℕ → ℕ → Result ℕ
open_available_fifo opened zero index = throw (io_error enodev "")
open_available_fifo opened (suc left) index = elim (opened index) [
  | gives handle ↦ ok handle
  | fails e ↦
      if e == ebusy then open_available_fifo opened left (index + 1) else throw (io_error e "")
]
