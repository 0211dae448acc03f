-- ===== src/Devices/Available.antt =====
-- Which device node `openAvailableDMA` and its like (hardware.cpp) open.
use Prim.Native.String.{String}
use libdyplo.Prelude.{
  ℕ, zero, suc, ◌+◌, ◌≤◌, ◌<◌, ◌≡◌, ◌≢◌, refl, ap, Bool, true, false, ◌==◌, ==_iff, Bool-cases, inl,
  inr, dec_lt, ℕ_discrete, ◌⊎◌, sym, ◌∙◌, arith,
}
use libdyplo.Effects.{Result, ok, throw, io_error}
use libdyplo.FileIo.{Answer, gives, fails}
use libdyplo.Devices.{
  AccessMode, rdonly, wronly, fifo_w, fifo_r, NodePath, driver_prefix, ebusy, enodev,
  count_numbered_files, open_first, open_fifo, open_dma, open_available_dma,
  open_available_write_fifo, open_available_read_fifo,
}

-- The nodes from `from` up to, not including, `to` answer that they are busy.
abbrev pub BusyUpTo : (ℕ → Answer) → ℕ → ℕ → Type 0
BusyUpTo open_node from to = (j : ℕ) → from ≤ j → j < to → open_node j ≡ fails ebusy

abbrev pub decided : Answer → Result ℕ
decided (gives handle) = ok handle
decided (fails e) = throw (io_error e "")

-- The first node from `from` on that is not busy decides; if all `left` are, there is no device.
abbrev pub FirstFree : (ℕ → Answer) → ℕ → ℕ → Result ℕ → Type 0
FirstFree open_node from left r =
    ((i : ℕ) × (from ≤ i)
      × (i < from + left)
      × BusyUpTo open_node from i
      × (open_node i ≢ fails ebusy)
      × (r ≡ decided (open_node i)))
    ⊎ (BusyUpTo open_node from (from + left) × (r ≡ throw (io_error enodev "")))

module _ (open_node : ℕ → Answer) where
  abbrev answers : ℕ → Result Answer
  answers index = ok (open_node index)

  open_first_busy :
      (index left : ℕ)
      → open_node index ≡ fails ebusy
      → open_first answers index (suc left) ≡ open_first answers (index + 1) left
  unfolding open_first
  open_first_busy index left e = rw (e, open_first)

  open_first_here :
      (index left : ℕ) (a : Answer)
      → open_node index ≡ a
      → a ≢ fails ebusy
      → open_first answers index (suc left) ≡ decided (open_node index)
  unfolding open_first
  open_first_here index left (gives handle) e h = rw (e, open_first)
  open_first_here index left (fails code) e h = elim (Bool-cases (code == ebusy)) [
    | inl same ↦ absurd (h (ap fails ((==_iff code ebusy).0 same)))
    | inr other ↦ rw (e, other, open_first)
  ]

  busy_more :
      (from to : ℕ)
      → open_node from ≡ fails ebusy
      → BusyUpTo open_node (from + 1) to
      → BusyUpTo open_node from to
  busy_more from to e h j lo hi = elim (dec_lt from j) [
    | yes p ↦ h j (omega arith) hi
    | no p ↦ let same : j ≡ from = omega arith in rw same e
  ]

  not_busy : (a : Answer) → (a ≡ fails ebusy) ⊎ (a ≢ fails ebusy)
  not_busy (gives handle) = inr (λ h. cc)
  not_busy (fails code) = elim (ℕ_discrete code ebusy) [
    | yes e ↦ inl (ap fails e)
    | no n ↦ inr (λ h. ground (arith, n, h))
  ]

  open_first_lem : (left from : ℕ) → FirstFree open_node from left (open_first answers from left)
  unfolding open_first
  open_first_lem zero from = inr (λ j lo hi. absurd (omega arith), refl)
  open_first_lem (suc left) from = elim (not_busy (open_node from)) [
    | inr free ↦ inl (
      from,
      omega arith,
      omega arith,
      λ j lo hi. absurd (omega arith),
      free,
      open_first_here from left (open_node from) refl free,
    )
    | inl busy ↦ elim (open_first_lem left (from + 1)) [
      | inl (i, lo, hi, before, free, r) ↦ inl (
        i,
        omega arith,
        omega arith,
        busy_more from i busy before,
        free,
        open_first_busy from left busy ∙ r,
      )
      | inr (before, r) ↦ inr (
        λ j lo hi. busy_more from (from + 1 + left) busy before j lo (omega arith),
        open_first_busy from left busy ∙ r,
      )
    ]
  ]

-- The files `0` up to `n` are there, and `n` is not.
abbrev pub CountIs : (ℕ → Bool) → ℕ → Type 0
CountIs accessible n = ((j : ℕ) → j < n → accessible j ≡ true) × (accessible n ≡ false)

pub count_from :
    (rounds : ℕ) (accessible : ℕ → Bool) (start n : ℕ)
    → CountIs accessible n
    → start ≤ n
    → n < start + rounds
    → count_numbered_files rounds accessible start ≡ ok n
unfolding count_numbered_files
count_from zero accessible start n c from to = absurd (omega arith)
count_from (suc rounds) accessible start n c from to = elim (dec_lt start n) [
  | yes p ↦
      rw (c.0 start p, count_numbered_files)
        (count_from rounds accessible (start + 1) n c (omega arith) (omega arith))
  | no p ↦
      let same : n ≡ start = omega arith in
      rw (ap accessible (sym same) ∙ c.1, count_numbered_files) (ap ok (sym same))
]

module _ (prefix : String) (sys_open : NodePath → AccessMode → Answer)
    (sys_access : NodePath → Bool) where
  -- `openAvailableDMA` gives the first of the 31 DMA nodes that is not busy, or throws what opening
  -- that one fails with; and it throws ENODEV when all are busy.
  pub open_available_dma_lem :
      (access : AccessMode)
      → FirstFree
          (λ k. open_dma prefix sys_open sys_access k access)
          0
          31
          (open_available_dma prefix sys_open sys_access access)
  unfolding open_available_dma
  open_available_dma_lem access =
      open_first_lem (λ k. open_dma prefix sys_open sys_access k access) 31 0

  -- With `n` write fifos under the driver's prefix, `openAvailableWriteFifo` gives the first of the
  -- context's own write fifos below `n` that is not busy, or throws what opening it fails with; and
  -- it throws ENODEV when all are busy. `n + 1` rounds of counting are enough.
  pub open_available_write_fifo_lem :
      (n rounds : ℕ)
      → CountIs (λ i. sys_access (record { prefix = driver_prefix; node = fifo_w i })) n
      → n < rounds
      → FirstFree
          (λ k. sys_open (record { prefix = prefix; node = fifo_w k }) wronly)
          0
          n
          (open_available_write_fifo prefix sys_open sys_access rounds)
  unfolding open_available_write_fifo open_fifo
  open_available_write_fifo_lem n rounds c enough =
      rw (count_from rounds _ 0 n c (omega arith) (omega arith))
        (open_first_lem (λ k. sys_open (record { prefix = prefix; node = fifo_w k }) wronly) n 0)

  -- With `n` read fifos under the driver's prefix, `openAvailableReadFifo` gives the first of the
  -- context's own read fifos below `n` that is not busy, or throws what opening it fails with; and
  -- it throws ENODEV when all are busy. `n + 1` rounds of counting are enough.
  pub open_available_read_fifo_lem :
      (n rounds : ℕ)
      → CountIs (λ i. sys_access (record { prefix = driver_prefix; node = fifo_r i })) n
      → n < rounds
      → FirstFree
          (λ k. sys_open (record { prefix = prefix; node = fifo_r k }) rdonly)
          0
          n
          (open_available_read_fifo prefix sys_open sys_access rounds)
  unfolding open_available_read_fifo open_fifo
  open_available_read_fifo_lem n rounds c enough =
      rw (count_from rounds _ 0 n c (omega arith) (omega arith))
        (open_first_lem (λ k. sys_open (record { prefix = prefix; node = fifo_r k }) rdonly) n 0)

  -- Where the driver's own prefix has no write fifo, none is found under any prefix, though
  -- `openFifo` might open one.
  pub write_fifo_ignores_prefix :
      (rounds : ℕ)
      → sys_access (record { prefix = driver_prefix; node = fifo_w 0 }) ≡ false
      → open_available_write_fifo prefix sys_open sys_access (suc rounds)
        ≡ throw (io_error enodev "")
  unfolding open_available_write_fifo count_numbered_files open_first
  write_fifo_ignores_prefix rounds e = rw (e, count_numbered_files)
