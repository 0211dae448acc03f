-- ===== src/Devices/Errno.antt =====
-- What is in `errno` when `openAvailableWriteFifo` (hardware.cpp) fails.
use Prim.Native.String.{String}
use libdyplo.Prelude.{
  ℕ, zero, suc, ◌+◌, ◌≤◌, ◌<◌, ◌≡◌, ◌≢◌, refl, ap, Bool, ◌==◌, ==_iff, Bool-cases, inl, inr, dec_lt,
  ◌⊎◌, sym, ◌∙◌, arith,
}
use libdyplo.Effects.{Exn, ok, throw}
use libdyplo.FileIo.{Answer, gives, fails}
use libdyplo.Devices.{
  AccessMode, wronly, fifo_w, NodePath, driver_prefix, ebusy, last_errno, write_fifo_errno,
  open_fifo, open_available_write_fifo,
}
use libdyplo.Devices.Available.{
  BusyUpTo, FirstFree, decided, CountIs, count_from, open_available_write_fifo_lem,
}

-- `errno` when the loop over `left` nodes has failed, and was `before`: the error of the first one
-- that is not busy; EBUSY when all are, and there is one; and what it was when there is none.
abbrev pub ErrorLeft : (ℕ → Answer) → ℕ → ℕ → ℕ → ℕ → Type 0
ErrorLeft open_node before from left e =
    ((i : ℕ) × (from ≤ i)
      × (i < from + left)
      × BusyUpTo open_node from i
      × (open_node i ≡ fails e)
      × (e ≢ ebusy))
    ⊎ (BusyUpTo open_node from (from + left) × (0 < left) × (e ≡ ebusy))
    ⊎ ((left ≡ 0) × (e ≡ before))

module _ (open_node : ℕ → Answer) where
  last_errno_busy :
      (errno index left : ℕ)
      → open_node index ≡ fails ebusy
      → last_errno (λ j. ok (open_node j)) errno index (suc left)
        ≡ last_errno (λ j. ok (open_node j)) ebusy (index + 1) left
  unfolding last_errno
  last_errno_busy errno index left e = rw (e, last_errno)

  last_errno_here :
      (errno index left e : ℕ)
      → open_node index ≡ fails e
      → e ≢ ebusy
      → last_errno (λ j. ok (open_node j)) errno index (suc left) ≡ e
  unfolding last_errno
  last_errno_here errno index left e h other = elim (Bool-cases (e == ebusy)) [
    | inl same ↦ absurd (other ((==_iff e ebusy).0 same))
    | inr another ↦ rw (h, last_errno, another)
  ]

  errno_all_busy :
      (errno from left : ℕ)
      → BusyUpTo open_node from (from + suc left)
      → last_errno (λ j. ok (open_node j)) errno from (suc left) ≡ ebusy
  unfolding last_errno
  errno_all_busy errno from zero busy =
      last_errno_busy errno from zero (busy from (omega arith) (omega arith))
  errno_all_busy errno from (suc left) busy =
      last_errno_busy errno from (suc left) (busy from (omega arith) (omega arith))
      ∙ errno_all_busy ebusy (from + 1) left (λ j lo hi. busy j (omega arith) (omega arith))

  errno_first :
      (errno from left i e : ℕ)
      → from ≤ i
      → i < from + left
      → BusyUpTo open_node from i
      → open_node i ≡ fails e
      → e ≢ ebusy
      → last_errno (λ j. ok (open_node j)) errno from left ≡ e
  errno_first errno from zero i e lo hi busy h other = absurd (omega arith)
  errno_first errno from (suc left) i e lo hi busy h other = elim (dec_lt from i) [
    | yes more ↦
        last_errno_busy errno from left (busy from (omega arith) more)
        ∙ errno_first ebusy (from + 1) left i e (omega arith) (omega arith)
            (λ j lo' hi'. busy j (omega arith) hi') h other
    | no last ↦
        let same : from ≡ i = omega arith in
        last_errno_here errno from left e (ap open_node same ∙ h) other
  ]

module _ (prefix : String) (sys_open : NodePath → AccessMode → Answer)
    (sys_access : NodePath → Bool) where
  -- What is in `errno` when no write fifo could be opened.
  pub write_fifo_errno_lem :
      (access_errno : NodePath → ℕ) (n rounds : ℕ) (y : Exn)
      → CountIs (λ i. sys_access (record { prefix = driver_prefix; node = fifo_w i })) n
      → n < rounds
      → open_available_write_fifo prefix sys_open sys_access rounds ≡ throw y
      → ErrorLeft
          (λ k. sys_open (record { prefix = prefix; node = fifo_w k }) wronly)
          (access_errno (record { prefix = driver_prefix; node = fifo_w n }))
          0
          n
          (write_fifo_errno prefix sys_open sys_access access_errno rounds)
  unfolding write_fifo_errno open_fifo
  write_fifo_errno_lem access_errno n rounds y c enough thrown =
      rw (write_fifo_errno, count_from rounds _ 0 n c (omega arith) (omega arith))
        (ended n refl (open_available_write_fifo_lem prefix sys_open sys_access n rounds c enough))
    where
      open_node : ℕ → Answer
      open_node k = sys_open (record { prefix = prefix; node = fifo_w k }) wronly

      before : ℕ
      before = access_errno (record { prefix = driver_prefix; node = fifo_w n })

      decided_by : (a : Answer) → throw y ≡ decided a → (e : ℕ) × (a ≡ fails e)
      decided_by (gives handle) h = absurd (ground (arith, h))
      decided_by (fails e) h = (e, refl)

      ended :
          (left : ℕ)
          → left ≡ n
          → FirstFree open_node 0 left (open_available_write_fifo prefix sys_open sys_access rounds)
          → ErrorLeft open_node before 0 left (last_errno (λ k. ok (open_node k)) before 0 left)
      ended left same (inl (i, lo, hi, busy, free, r)) =
          let (e, h) = decided_by (open_node i) (sym thrown ∙ r) in
          let other : e ≢ ebusy = λ again. free (h ∙ ap fails again) in
          rw (errno_first open_node before 0 left i e lo hi busy h other)
            (inl (i, lo, hi, busy, h, other))
      ended zero same (inr (busy, r)) = inr (inr (refl, refl))
      ended (suc left) same (inr (busy, r)) =
          rw (errno_all_busy open_node before 0 left busy) (inr (inl (busy, omega arith, refl)))
