-- ===== src/FileQueue/Arrival.antt =====
-- What `begin_read` of FileInputQueue (filequeue.hpp) takes in when elements arrive whole.
pub mod Turn
pub mod Load
use native.Mathlib.Nat.{mul_comm, mul-sub, mul-div_cancel}
use libdyplo.Prelude.{
  ℕ, zero, suc, ◌+◌, ◌-◌, ◌*◌, ◌≤◌, ◌<◌, ◌≡◌, ◌⊎◌, inl, inr, refl, ap, sym, ◌∙◌, List, [], ◌∷◌,
  ◌++◌, length, take, drop, overwrite, append_assoc, arith, leb, if◌then◌else◌, dec_lt, length-take,
  length-drop, le→leb, lt→not_leb, take-append-drop,
}
use libdyplo.FileIo.{piece, failure, Stream, Read, got, failed, sys_read}
use libdyplo.Queue.Blocks.{Multiple}

-- All the bytes that a file has yet to deliver, whatever comes between them.
abbrev pub bytes_of : Stream → List ℕ
bytes_of [] = []
bytes_of (failure e ∷ s) = bytes_of s
bytes_of (piece bs ∷ s) = bs ++ bytes_of s

-- Every piece brings whole elements.
abbrev pub Whole : ℕ → Stream → Type 0
Whole width [] = Unit {0}
Whole width (failure e ∷ s) = Whole width s
Whole width (piece bs ∷ s) = Multiple width (length bs) × Whole width s

-- A read that has got `bs`: it takes them from the front, and uses up a piece or all of the space.
abbrev pub Gets : ℕ → ℕ → Stream → List ℕ → Stream → Type 0
Gets width count s bs s' =
    (bs ++ bytes_of s' ≡ bytes_of s)
    × (length bs ≤ count)
    × Multiple width (length bs)
    × Whole width s'
    × ((length s' < length s) ⊎ ((length s' ≡ length s) × (length bs ≡ count)) ⊎ (bs ≡ []))

abbrev pub Fails : ℕ → Stream → Stream → Type 0
Fails width s s' = (bytes_of s' ≡ bytes_of s) × Whole width s' × (length s' < length s)

pub Multiple-minus : (b m n : ℕ) → Multiple b m → Multiple b n → Multiple b (m - n)
Multiple-minus b m n p q =
    (p.0 - q.0, rw (mul_comm (p.0 - q.0) b, mul-sub b p.0 q.0) (omega (arith, p.1, q.1)))

pub read_lem :
    (width count : ℕ) (s : Stream)
    → Multiple width count
    → Whole width s
    → let (r, s') = sys_read count s in
      ((bs : List ℕ) × (r ≡ got bs) × Gets width count s bs s')
      ⊎ ((e : ℕ) × (r ≡ failed e) × Fails width s s')
unfolding sys_read
read_lem width count [] m w =
    inl ([], refl, (refl, omega arith, (0, omega arith), w, inr (inr refl)))
read_lem width count (failure e ∷ s) m w = inr (e, refl, (refl, w, omega arith))
read_lem width count (piece bs ∷ s) m w = elim (dec_lt count (length bs)) [
  | no fits ↦
      rw (sys_read, le→leb (length bs) count (omega arith))
        (inl (bs, refl, (refl, omega arith, w.0, w.1, inl (omega arith))))
  | yes long ↦
      rw (sys_read, lt→not_leb (length bs) count long)
        (inl (
          take count bs,
          refl,
          (
            joined,
            omega (arith, full long),
            rw (full long) m,
            (rw (length-drop count bs) (Multiple-minus width (length bs) count w.0 m), w.1),
            inr (inl (refl, full long)),
          ),
        ))
]
  where
    full : count < length bs → length (take count bs) ≡ count
    full h = omega (arith, length-take count bs)

    joined : take count bs ++ (drop count bs ++ bytes_of s) ≡ bs ++ bytes_of s
    joined =
        sym (append_assoc (take count bs) (drop count bs) (bytes_of s))
        ∙ ap (λ xs. xs ++ bytes_of s) (take-append-drop count bs)
