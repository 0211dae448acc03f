-- ===== src/Bitstream/Chunks.antt =====
-- Chunks of bytes on their way into the file of a FpgaImageFileWriter (hardware.cpp).
use libdyplo.Prelude.{
  ℕ, zero, suc, ◌+◌, ◌*◌, ◌≤◌, ◌≡◌, refl, ap, ◌∙◌, List, [], ◌∷◌, ◌++◌, length, take, drop,
  append_assoc, take-append-drop, arith,
}
use libdyplo.Effects.{Result, ok}
use libdyplo.Bitstream.Reader.{Transfer}
use libdyplo.Bitstream.Writer.{Writer}
use libdyplo.Bitstream.Bytes.{AreBytes, reverse_fours}

pub take-front : (xs ys : List ℕ) → take (length xs) (xs ++ ys) ≡ xs
take-front [] ys = refl
take-front (x ∷ xs) ys = ap (◌∷◌ x) (take-front xs ys)

-- The writer after it has stored and written `bytes`.
abbrev pub passed : List ℕ → Writer → Writer
passed bytes w = record {
  buffer = bytes ++ drop (length bytes) w.buffer;
  output = w.output ++ bytes;
  answers = [];
}

-- What a transfer into a writer that takes everything comes to.
abbrev pub Writes : ℕ → List ℕ → Result ℕ × Transfer Writer → Type 0
Writes n output (r, t) = (r ≡ ok n) × (t.target.output ≡ output)

pub rejoin :
    (n : ℕ) (out xs rest : List ℕ) → rest ≡ drop n xs → (out ++ take n xs) ++ rest ≡ out ++ xs
rejoin n out xs rest e =
    ap (◌++◌ (out ++ take n xs)) e
    ∙ append_assoc out (take n xs) (drop n xs)
    ∙ ap (◌++◌ out) (take-append-drop n xs)

pub length-reverse_fours :
    (src : List ℕ) (size : ℕ) → size * 4 ≤ length src → length (reverse_fours src size) ≡ size * 4
length-reverse_fours src zero h = refl
length-reverse_fours [] (suc size) h = absurd (omega arith)
length-reverse_fours (a ∷ []) (suc size) h = absurd (omega arith)
length-reverse_fours (a ∷ b ∷ []) (suc size) h = absurd (omega arith)
length-reverse_fours (a ∷ b ∷ c ∷ []) (suc size) h = absurd (omega arith)
length-reverse_fours (a ∷ b ∷ c ∷ d ∷ src) (suc size) h =
    omega (arith, length-reverse_fours src size (omega arith))

four_more : (m : ℕ) → suc m * 4 ≡ suc (suc (suc (suc (m * 4))))
four_more m = omega arith

-- The first words of a source, and the words behind them.
pub reverse_fours-split :
    (src : List ℕ) (m size all : ℕ)
    → m + size ≡ all
    → all * 4 ≤ length src
    → reverse_fours src m ++ reverse_fours (drop (m * 4) src) size ≡ reverse_fours src all
reverse_fours-split src zero size all e h = ap (reverse_fours src) (omega arith)
reverse_fours-split src (suc m) size zero e h = absurd (omega arith)
reverse_fours-split [] (suc m) size (suc all) e h = absurd (omega arith)
reverse_fours-split (a ∷ []) (suc m) size (suc all) e h = absurd (omega arith)
reverse_fours-split (a ∷ b ∷ []) (suc m) size (suc all) e h = absurd (omega arith)
reverse_fours-split (a ∷ b ∷ c ∷ []) (suc m) size (suc all) e h = absurd (omega arith)
reverse_fours-split (a ∷ b ∷ c ∷ d ∷ src) (suc m) size (suc all) e h =
    rw (four_more m)
      (ap (λ r. d ∷ c ∷ b ∷ a ∷ r) (reverse_fours-split src m size all (omega arith) (omega arith)))

-- No more of the source is read than there are words.
pub reverse_fours-take :
    (src : List ℕ) (m : ℕ)
    → m * 4 ≤ length src
    → reverse_fours (take (m * 4) src) m ≡ reverse_fours src m
reverse_fours-take src zero h = refl
reverse_fours-take [] (suc m) h = absurd (omega arith)
reverse_fours-take (a ∷ []) (suc m) h = absurd (omega arith)
reverse_fours-take (a ∷ b ∷ []) (suc m) h = absurd (omega arith)
reverse_fours-take (a ∷ b ∷ c ∷ []) (suc m) h = absurd (omega arith)
reverse_fours-take (a ∷ b ∷ c ∷ d ∷ src) (suc m) h =
    rw (four_more m) (ap (λ r. d ∷ c ∷ b ∷ a ∷ r) (reverse_fours-take src m (omega arith)))

pub take-AreBytes : (n : ℕ) (xs : List ℕ) → AreBytes xs → AreBytes (take n xs)
take-AreBytes zero xs h = tt
take-AreBytes (suc n) [] h = tt
take-AreBytes (suc n) (x ∷ xs) h = (h.0, take-AreBytes n xs h.1)

pub drop-AreBytes : (n : ℕ) (xs : List ℕ) → AreBytes xs → AreBytes (drop n xs)
drop-AreBytes zero xs h = h
drop-AreBytes (suc n) [] h = tt
drop-AreBytes (suc n) (x ∷ xs) h = drop-AreBytes n xs h.1
