-- ===== src/FileQueue/Carry.antt =====
-- What FileInputQueue (filequeue.hpp) keeps between two reads.
use libdyplo.Prelude.{
  ℕ, zero, suc, ◌+◌, ◌*◌, ◌^◌, ◌≤◌, ◌<◌, ◌≡◌, refl, ap, ◌∙◌, List, [], ◌∷◌, ◌++◌, length-append,
  length, take, drop, arith, overwrite, length-take, length-drop, get_elem?, get_elem?-take,
  get_elem?-drop, get_elem?-overwrite, eq_of_get_elem?,
}
use libdyplo.Effects.{ok}
use libdyplo.FileIo.{piece, Stream, sys_read}
use libdyplo.FileQueue.Input.{Input, load_turn, load_loop, begin_read_file, end_read_file}

-- The bytes of the elements that are in the buffer.
abbrev pub held : ℕ → Input → List ℕ
held width q = take (q.size * width) q.buff

get_elem?-left_over :
    (a b i : ℕ) (xs : List ℕ)
    → b + a ≤ length xs
    → get_elem? (take a (overwrite xs 0 (take a (drop b xs)))) i ≡ get_elem? (take a (drop b xs)) i
get_elem?-left_over a b i xs h = ground (
  arith,
  get_elem?-take a (overwrite xs 0 (take a (drop b xs))) i,
  get_elem?-take a (drop b xs) i,
  get_elem?-overwrite xs 0 (take a (drop b xs)) i,
  length-take a (drop b xs),
  length-drop b xs,
)

get_elem?-held :
    (a b c i : ℕ) (xs : List ℕ)
    → b + a ≡ c
    → get_elem? (take a (drop b xs)) i ≡ get_elem? (drop b (take c xs)) i
get_elem?-held a b c i xs e = ground (
  arith,
  get_elem?-take a (drop b xs) i,
  get_elem?-drop b xs i,
  get_elem?-drop b (take c xs) i,
  get_elem?-take c xs (b + i),
)

left_over :
    (a b c : ℕ) (xs : List ℕ)
    → b + a ≡ c
    → c ≤ length xs
    → take a (overwrite xs 0 (take a (drop b xs))) ≡ drop b (take c xs)
left_over a b c xs e h =
    eq_of_get_elem? _ _
      (λ i. get_elem?-left_over a b i xs (omega arith) ∙ get_elem?-held a b c i xs e)

drop_all : (n : ℕ) (xs : List ℕ) → drop n (take n xs) ≡ []
drop_all zero xs = refl
drop_all (suc n) [] = refl
drop_all (suc n) (x ∷ xs) = drop_all n xs

-- After `end_read` of `n` of the elements that are in the buffer, at least one, the others are in
-- the buffer, in order from its beginning, and are carried over.
pub end_read_file_lem :
    (width n k : ℕ) (q : Input)
    → 0 < n
    → q.size ≡ n + k
    → q.size < 2 ^ 32
    → q.size * width ≤ length q.buff
    → let (r, q') = end_read_file width n q in
      (r ≡ ok tt)
      × (held width q' ≡ drop (n * width) (held width q))
      × (q'.carry ≡ k)
      × (q'.size ≡ k)
unfolding end_read_file
end_read_file_lem width zero k q pos sum small fits = absurd (omega arith)
end_read_file_lem width (suc n) k q pos sum small fits = ground (
  arith,
  ap (λ z. z * width) sum,
  left_over (k * width) (suc n * width) (q.size * width) q.buff,
  drop_all (q.size * width) q.buff,
)

-- Elements of four bytes, none carried over and room for two: a read that brings an element and
-- fewer than four bytes more grants the one. When that is released those bytes are gone, from the
-- queue and from the file.
pub partial_element :
    (rounds : ℕ) (element part : List ℕ) (rest : Stream) (q : Input)
    → q.stream ≡ piece (element ++ part) ∷ rest
    → q.carry ≡ 0
    → 2 ≤ q.capacity
    → length element ≡ 4
    → length part < 4
    → let (r, q') = begin_read_file (suc rounds) 4 1 q in
      let (r', q'') = end_read_file 4 1 q' in
      (r ≡ ok 1) × (r' ≡ ok tt) × (q''.size ≡ 0) × (q''.carry ≡ 0) × (q''.stream ≡ rest)
unfolding begin_read_file load_loop load_turn end_read_file sys_read
partial_element rounds (a ∷ element) part rest q e c cap four short =
    ground (arith, length-append element part)
partial_element rounds [] part rest q e c cap four short = absurd (omega arith)
