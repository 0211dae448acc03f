-- ===== src/Stress/Lanes.antt =====
-- The lanes of a StressNode (testdyplostress.cpp) do not share registers.
use libdyplo.Prelude.{ℕ, ◌+◌, ◌*◌, ◌/◌, ◌≡◌, ◌≤◌, ◌<◌, ◌⊎◌, arith}
use libdyplo.Effects.{ok}
use libdyplo.FileIo.{gives}
use libdyplo.Stress.{Registers, StressNodeLane, set_lane_params}

-- The register of the lane's own command.
abbrev pub lane_register : ℕ → ℕ
lane_register lane = 16 * lane + 16

-- The settings of a lane go to the four registers behind its own command, and no other register
-- changes.
pub set_lane_params_lem :
    (lane p q : ℕ) (s : StressNodeLane) (n : Registers)
    → n.seek_answer (0x40 * lane + 0x44) ≡ gives p
    → n.write_answer (0x40 * lane + 0x44) ≡ gives q
    → let (r, n') = set_lane_params lane s n in
      (r ≡ ok tt)
      × (n'.values (lane_register lane + 1) ≡ s.burst_interval)
      × (n'.values (lane_register lane + 2) ≡ s.burst_length)
      × (n'.values (lane_register lane + 3) ≡ s.output_stepsize)
      × (n'.values (lane_register lane + 4) ≡ s.input_stepsize)
      × ((i : ℕ)
          → (i ≤ lane_register lane) ⊎ (lane_register lane + 4 < i)
          → n'.values i ≡ n.values i)
unfolding set_lane_params
set_lane_params_lem lane p q s n sought written =
    let at : (0x40 * lane + 0x44) / 4 ≡ lane_register lane + 1 = omega arith in
    (
      ground (arith, sought, written),
      ground (arith, sought, written, at),
      ground (arith, sought, written, at),
      ground (arith, sought, written, at),
      ground (arith, sought, written, at),
      λ i away. ground (arith, sought, written, at, away),
    )
