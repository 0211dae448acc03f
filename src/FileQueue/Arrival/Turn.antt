-- ===== src/FileQueue/Arrival/Turn.antt =====
-- What one turn of the loop leaves in `begin_read` of FileInputQueue (filequeue.hpp).
use native.Mathlib.Nat.{mul-div_cancel, le-div_iff_mul-le}
use libdyplo.Prelude.{
  ℕ, ◌+◌, ◌-◌, ◌*◌, ◌/◌, ◌≤◌, ◌<◌, ◌≡◌, ◌⊎◌, inl, refl, ap, sym, ◌∙◌, subst, List, [], ◌++◌, length,
  take, overwrite, append_assoc, arith, get_elem?, get_elem?-take, get_elem?-append,
  get_elem?-overwrite, get_elem?-ge, eq_of_get_elem?, length-take, length-overwrite,
}
use libdyplo.Effects.{Exn, Result, ok, throw, waiting}
use libdyplo.FileIo.{Stream}
use libdyplo.Queue.Blocks.{Multiple}
use libdyplo.FileQueue.Input.{Input, loaded}
use libdyplo.FileQueue.Arrival.{bytes_of, Whole, Gets}

get_elem?-stored :
    (p i : ℕ) (bs buff : List ℕ)
    → p + length bs ≤ length buff
    → get_elem? (take (p + length bs) (overwrite buff p bs)) i ≡ get_elem? (take p buff ++ bs) i
get_elem?-stored p i bs buff h = ground (
  arith,
  get_elem?-take (p + length bs) (overwrite buff p bs) i,
  get_elem?-overwrite buff p bs i,
  get_elem?-append (take p buff) bs i,
  get_elem?-take p buff i,
  length-take p buff,
  get_elem?-ge bs (i - p),
)

pub take-stored :
    (p : ℕ) (bs buff : List ℕ)
    → p + length bs ≤ length buff
    → take (p + length bs) (overwrite buff p bs) ≡ take p buff ++ bs
take-stored p bs buff h = eq_of_get_elem? _ _ (λ i. get_elem?-stored p i bs buff h)

pub Multiple-plus : (b : ℕ) {m n : ℕ} → Multiple b m → Multiple b n → Multiple b (m + n)
Multiple-plus b p q = (p.0 + q.0, grind (arith, p.1, q.1))

-- The queue has whole elements up to `position`, and what is to come are whole elements.
pub record IsLoading (width position : ℕ) (q : Input) : Type 0 where
  pub storage : q.capacity * width ≤ length q.buff
  pub within : position ≤ q.capacity * width
  pub whole_position : Multiple width position
  pub whole_stream : Whole width q.stream

-- What is in the buffer up to `position`, and then what the file has yet to deliver.
abbrev pub coming : ℕ → Input → List ℕ
coming position q = take position q.buff ++ bytes_of q.stream

-- How the loading ends, from `all` bytes, with `least` elements wanted in all.
abbrev pub Loaded : ℕ → ℕ → List ℕ → Result ℕ × Input → Type 0
Loaded width least all (r, q') =
    ((n : ℕ) × (r ≡ ok n)
      × (q'.size ≡ n)
      × (least ≤ n)
      × IsLoading width (n * width) q'
      × (coming (n * width) q' ≡ all))
    ⊎ ((e : Exn) × (r ≡ throw e))
    ⊎ ((r ≡ waiting) × (q'.poller.polls ≡ []))

module _ (width : ℕ) (pos : 0 < width) where
  loaded-Loaded :
      (count_min bytes_read : ℕ) (q : Input)
      → IsLoading width (q.carry * width + bytes_read) q
      → Multiple width bytes_read
      → count_min * width ≤ bytes_read
      → Loaded width
          (q.carry + count_min)
          (coming (q.carry * width + bytes_read) q)
          (loaded width bytes_read q)
  loaded-Loaded count_min bytes_read q l m enough = inl (
    q.carry + bytes_read / width,
    refl,
    refl,
    least,
    rw all_of (record {
      storage = l.storage;
      within = l.within;
      whole_position = l.whole_position;
      whole_stream = l.whole_stream;
    }),
    ap (λ p. take p q.buff ++ bytes_of q.stream) all_of,
  )
    where
      quotient : bytes_read / width ≡ m.0
      quotient = ap (λ b. b / width) m.1 ∙ mul-div_cancel m.0 pos

      all_of : (q.carry + bytes_read / width) * width ≡ q.carry * width + bytes_read
      all_of = rw (quotient) (grind (arith, m.1))

      least : q.carry + count_min ≤ q.carry + bytes_read / width
      least = ground (arith, le-div_iff_mul-le {k = width} {x = count_min} {y = bytes_read} pos)

  pub loaded-at :
      (count_min bytes_read position : ℕ) (q : Input)
      → position ≡ q.carry * width + bytes_read
      → IsLoading width position q
      → Multiple width bytes_read
      → count_min * width ≤ bytes_read
      → Loaded width (q.carry + count_min) (coming position q) (loaded width bytes_read q)
  loaded-at count_min bytes_read position q e l m enough =
      subst (λ p. Loaded width (q.carry + count_min) (coming p q) (loaded width bytes_read q))
        (sym e)
        (loaded-Loaded count_min bytes_read q (subst (λ p. IsLoading width p q) e l) m enough)

  -- A turn of the loop that has stored what it has read.
  pub stored-IsLoading :
      (position : ℕ) (bs : List ℕ) (s : Stream) (q : Input)
      → IsLoading width position q
      → Gets width (q.capacity * width - position) q.stream bs s
      → let q' : Input = record q { buff = overwrite q.buff position bs; stream = s } in
        IsLoading width (position + length bs) q'
        × (coming (position + length bs) q' ≡ coming position q)
  stored-IsLoading position bs s q l (bytes, fits, whole, whole', _) = (
    record {
      storage = omega (arith, l.storage, length-overwrite q.buff position bs);
      within = omega (arith, l.within);
      whole_position = Multiple-plus width l.whole_position whole;
      whole_stream = whole';
    },
    ap (λ xs. xs ++ bytes_of s)
          (take-stored position bs q.buff (omega (arith, l.storage, l.within)))
        ∙ append_assoc (take position q.buff) bs (bytes_of s)
        ∙ ap (λ xs. take position q.buff ++ xs) bytes,
  )
