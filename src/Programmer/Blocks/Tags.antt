-- ===== src/Programmer/Blocks/Tags.antt =====
-- The header of a .bit file, as HardwareProgrammer (hardware.cpp) is shown it.
use libdyplo.Prelude.{
  ℕ, zero, suc, ◌+◌, ◌^◌, ◌%◌, ◌≡◌, ◌<◌, refl, ◌∙◌, Bool, true, false, List, Option, some, none,
  length, ◌==◌, arith, ℕ_discrete,
}
use libdyplo.Effects.{Result, ok}
use libdyplo.FileIo.{gives}
use libdyplo.Dma.{Driver}
use libdyplo.Bitstream.Description.{Description, parse_description_tag, byte_at, u16_at}
use libdyplo.Bitstream.Reader.{Transfer, verify, process_tag, find_data}
use libdyplo.Bitstream.Header.{Header, data_tag, other_tag}
use libdyplo.Programmer.{Programmer, programmer, get_static_id, verify_user_id}
use libdyplo.Programmer.CpuFifo.{Known}
use libdyplo.Programmer.Setup.BitFile.{let_through, AllLetThrough}

module _ {σ : Type 0} (k : Driver σ) (id : ℕ) where
  abbrev pub Knows : Programmer σ → Type 0
  Knows p = (p.read_id ≡ gives id) × Known (gives id) p.dyplo_user_id

  -- A check that returns, and leaves the route.
  abbrev pub Passes : Programmer σ → Result (Unit {0}) × Programmer σ → Type 0
  Passes p (r, p') = (r ≡ ok tt) × (p'.route ≡ p.route) × Knows p'

  verify_user_id-Passes :
      (user_id : ℕ) (p : Programmer σ)
      → (id % 2 ^ 16 == user_id) ≡ true
      → Knows p
      → Passes p (verify_user_id k user_id p)
  unfolding verify_user_id get_static_id
  verify_user_id-Passes user_id p same (asked, known) = go p.dyplo_user_id refl known
    where
      go :
          (kept : Option ℕ)
          → p.dyplo_user_id ≡ kept
          → Known (gives id) kept
          → Passes p (verify_user_id k user_id p)
      go none e h = ground (arith, asked, e, same)
      go (some n) e h = ground (arith, asked, e, h, same)

  verify-Passes :
      (user_id : Option ℕ) (partial : Bool) (p : Programmer σ)
      → let_through id (record { user_id = user_id; is_partial = partial }) ≡ true
      → Knows p
      → Passes p (verify (programmer k) (record { user_id = user_id; is_partial = partial }) p)
  verify-Passes none partial p h knows = (refl, refl, knows)
  verify-Passes (some user_id) false p h knows = (refl, refl, knows)
  verify-Passes (some user_id) true p h knows = verify_user_id-Passes (user_id % 2 ^ 16) p h knows

  module _ (buffer : List ℕ) (through : AllLetThrough id buffer) where
    -- What going through the tags leaves of a transfer.
    abbrev pub Looked : Transfer (Programmer σ) → Transfer (Programmer σ) → Type 0
    Looked t t' = (t'.input ≡ t.input) × (t'.target.route ≡ t.target.route) × Knows t'.target

    process_tag-Looked :
        (p : ℕ) (t : Transfer (Programmer σ))
        → Knows t.target
        → (t' : Transfer (Programmer σ)) × (process_tag
              (programmer k)
              (byte_at buffer p)
              (u16_at buffer (p + 1))
              buffer
              (p + 3)
              t
            ≡ (ok tt, t'))
          × Looked t t'
    unfolding process_tag
    process_tag-Looked p t knows = elim (ℕ_discrete (byte_at buffer p) b'a') [
      | yes a ↦
          let d : Description = parse_description_tag buffer (p + 3) (u16_at buffer (p + 1)) in
          let (r, route, knows') =
            verify-Passes d.user_id d.is_partial t.target (through p a) knows in
          (
            record t { target = (verify (programmer k) d t.target).1 },
            ground (arith, a, r),
            (refl, route, knows'),
          )
      | no other ↦ (t, ground (arith, other), (refl, refl, knows))
    ]

    pub find_data-Looked :
        (rounds p e : ℕ) (t : Transfer (Programmer σ))
        → Header buffer p e
        → e < length buffer
        → length buffer < p + rounds
        → Knows t.target
        → (t' : Transfer (Programmer σ)) × (find_data
              (programmer k)
              rounds
              buffer
              (length buffer)
              p
              t
            ≡ (ok e, t'))
          × Looked t t'
    unfolding find_data
    find_data-Looked zero p e t (data_tag q h) inside enough knows = absurd (omega arith)
    find_data-Looked zero p e t (other_tag q e' ne lt rest) inside enough knows =
        absurd (omega arith)
    find_data-Looked (suc rounds) p e t (data_tag q h) inside enough knows =
        (t, ground (arith, h), (refl, refl, knows))
    find_data-Looked (suc rounds) p e t (other_tag q e' ne lt rest) inside enough knows =
        let (t1, tag, (same, route, knows1)) = process_tag-Looked q t knows in
        let (t2, found, (same2, route2, knows2)) =
          find_data-Looked rounds (q + 3 + u16_at buffer (q + 1)) e' t1 rest inside (omega arith)
            knows1 in
        (t2, ground (arith, ne, lt, tag, found), (same2 ∙ same, route2 ∙ route, knows2))
