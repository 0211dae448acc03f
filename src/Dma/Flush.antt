-- ===== src/Dma/Flush.antt =====
-- `HardwareDMAFifo::flush` and `dequeue` (hardware.cpp) go round the ring of blocks.
use libdyplo.Prelude.{
  ℕ, zero, suc, ◌+◌, ◌-◌, ◌≤◌, ◌<◌, ◌≡◌, ◌≢◌, inl, inr, refl, ap, ◌∙◌, sym, Bool, false, List, some,
  length, get_elem?, set, leb, ◌&&◌, ◌||◌, length-set, get_elem?-set, get_elem?-lt, ltb, Bool-cases,
  ℕ_discrete, arith, if◌then◌else◌,
}
use libdyplo.Effects.{ok, raise}
use libdyplo.FileIo.{gives}
use libdyplo.Dma.{Block, Dma, Driver, rewritten, next_head, take_head, flush_loop, flush}

-- A block that the driver owns is given back, when it is asked for, in the state of the user's.
pub record Returns {σ : Type 0} (k : Driver σ) : Type 0 where
  pub answers : (b : Block) (s : σ) → (n : ℕ) × ((k.dmablock_dequeue b s).0 ≡ gives n)
  pub owned : (b : Block) (s : σ) → (k.dmablock_dequeue b s).1.state ≡ 0

-- The block at an index, if there is one, is the user's.
abbrev pub IsOwned : List Block → ℕ → Type 0
IsOwned blocks i = (b : Block) → get_elem? blocks i ≡ some b → b.state ≡ 0

module _ {σ : Type 0} (k : Driver σ) (returns : Returns k) where
  -- One turn of the loop, on a block that is there.
  record Turned (d d' : Dma σ) : Type 0 where
    same_length : length d'.blocks ≡ length d.blocks
    moved : d'.blocks_head ≡ next_head (length d.blocks) d.blocks_head
    head_owned : IsOwned d'.blocks d.blocks_head
    others : (i : ℕ) → i ≢ d.blocks_head → get_elem? d'.blocks i ≡ get_elem? d.blocks i

  take_head_lem :
      (d : Dma σ)
      → d.blocks_head < length d.blocks
      → (d' : Dma σ) × (take_head k raise d ≡ (ok (some d.blocks_head), d')) × Turned d d'
  unfolding take_head
  take_head_lem d h =
      let (b, there) = get_elem?-lt d.blocks d.blocks_head h in
      elim (Bool-cases (ltb 0 b.state)) [
        | inr user ↦ (
          record d { blocks_head = next_head (length d.blocks) d.blocks_head },
          rw (there, user, take_head),
          record {
            same_length = refl;
            moved = refl;
            head_owned = λ c e. ground (arith, there, e, user);
            others = λ i h. refl;
          },
        )
        | inl driver ↦
            let (n, given) = returns.answers b d.driver in
            let b' : Block = rewritten b (k.dmablock_dequeue b d.driver).1 in
            (
              record d {
                blocks = set d.blocks d.blocks_head b';
                blocks_head = next_head (length d.blocks) d.blocks_head;
                driver = (k.dmablock_dequeue b d.driver).2;
              },
              rw (there, driver, given, take_head),
              record {
                same_length = length-set d.blocks d.blocks_head b';
                moved = refl;
                head_owned = λ c e. ground (
                  arith,
                  e,
                  get_elem?-set d.blocks d.blocks_head b' d.blocks_head h,
                  returns.owned b d.driver,
                );
                others = λ i ne. ground (arith, get_elem?-set d.blocks d.blocks_head b' i h, ne);
              },
            )
      ]

  -- The blocks from the head round to `current`, which the loop has still to visit.
  abbrev pending : ℕ → ℕ → ℕ → Bool
  pending head current i =
      if ltb head current then leb head i && ltb i current else leb head i || ltb i current

  abbrev turns_left : ℕ → ℕ → ℕ → ℕ
  turns_left n head current = if ltb head current then current - head else n + current - head

  abbrev Visited : ℕ → Dma σ → Type 0
  Visited current d =
      (i : ℕ) → i < length d.blocks → pending d.blocks_head current i ≡ false → IsOwned d.blocks i

  -- How the loop ends.
  abbrev pub Flushed : ℕ → ℕ → Dma σ → Type 0
  Flushed n current d' =
      (length d'.blocks ≡ n) × (d'.blocks_head ≡ current) × ((i : ℕ) → i < n → IsOwned d'.blocks i)

  Visited-next :
      (current : ℕ) (d d' : Dma σ)
      → d.blocks_head < length d.blocks
      → current < length d.blocks
      → Visited current d
      → Turned d d'
      → d'.blocks_head ≢ current
      → Visited current d'
  Visited-next current d d' h c visited t ne i small done b e = elim (ℕ_discrete i d.blocks_head) [
    | yes same ↦ t.head_owned b (ap (get_elem? d'.blocks) (sym same) ∙ e)
    | no other ↦
        visited i (omega (arith, t.same_length, small))
          (ground (arith, done, t.moved, t.same_length, small, other, ne)) b
          (sym (t.others i other) ∙ e)
  ]

  Visited-all :
      (current : ℕ) (d d' : Dma σ)
      → d.blocks_head < length d.blocks
      → current < length d.blocks
      → Visited current d
      → Turned d d'
      → d'.blocks_head ≡ current
      → Flushed (length d.blocks) current d'
  Visited-all current d d' h c visited t back = (
    t.same_length,
    back,
    λ i small b e. elim (ℕ_discrete i d.blocks_head) [
      | yes same ↦ t.head_owned b (ap (get_elem? d'.blocks) (sym same) ∙ e)
      | no other ↦
          visited i small (ground (arith, t.moved, small, other, back)) b
            (sym (t.others i other) ∙ e)
    ],
  )

  flush_last :
      (rounds current head : ℕ) (d d' : Dma σ)
      → take_head k raise d ≡ (ok (some head), d')
      → d'.blocks_head ≡ current
      → flush_loop k (suc rounds) current d ≡ (ok tt, d')
  unfolding flush_loop
  flush_last rounds current head d d' turn back = ground (arith, turn, back)

  flush_again :
      (rounds current head : ℕ) (d d' : Dma σ)
      → take_head k raise d ≡ (ok (some head), d')
      → d'.blocks_head ≢ current
      → flush_loop k (suc rounds) current d ≡ flush_loop k rounds current d'
  unfolding flush_loop
  flush_again rounds current head d d' turn more = ground (arith, turn, more)

  flush_loop_lem :
      (rounds current : ℕ) (d : Dma σ)
      → d.blocks_head < length d.blocks
      → current < length d.blocks
      → turns_left (length d.blocks) d.blocks_head current ≤ rounds
      → Visited current d
      → (d' : Dma σ) × (flush_loop k rounds current d ≡ (ok tt, d'))
        × Flushed (length d.blocks) current d'
  unfolding flush_loop
  flush_loop_lem zero current d h c enough visited = absurd (ground arith)
  flush_loop_lem (suc rounds) current d h c enough visited =
      let (d', turn, t) = take_head_lem d h in
      elim (ℕ_discrete d'.blocks_head current) [
        | yes back ↦ (
          d',
          flush_last rounds current d.blocks_head d d' turn back,
          Visited-all current d d' h c visited t back,
        )
        | no more ↦
            let (d'', run, done) =
              flush_loop_lem rounds current d' (ground (arith, t.moved, t.same_length))
                (omega (arith, t.same_length)) (ground (arith, t.moved, t.same_length, more))
                (Visited-next current d d' h c visited t more) in
            (
              d'',
              flush_again rounds current d.blocks_head d d' turn more ∙ run,
              (done.0 ∙ t.same_length, done.1, λ i small. done.2 i (omega (arith, t.same_length))),
            )
      ]

  -- With the head at one of the blocks and a driver that gives its blocks back, `flush` returns
  -- after a round for each block at most, every block is the user's, and the head is where it was.
  pub flush_lem :
      (rounds : ℕ) (d : Dma σ)
      → d.blocks_head < length d.blocks
      → length d.blocks ≤ rounds
      → (d' : Dma σ) × (flush k rounds d ≡ (ok tt, d')) × Flushed (length d.blocks) d.blocks_head d'
  unfolding flush
  flush_lem rounds d h enough =
      flush_loop_lem rounds d.blocks_head d h h (ground arith)
        (λ i small done b e. absurd (ground (arith, done, small)))
