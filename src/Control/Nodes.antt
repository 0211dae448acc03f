-- ===== src/Control/Nodes.antt =====
-- Enabling and disabling one node at a time (HardwareControl of hardware.hpp and hardware.cpp).
use Prim.Native.Nat.{max}
use native.Mathlib.Nat.{pow-suc}
use libdyplo.Prelude.{
  ℕ, zero, suc, refl, ◌/◌, ◌≤◌, dec_lt, ℕ_discrete, ltb, ◌-◌, ◌*◌, ◌^◌, ◌<◌, ◌≡◌, true, false, ◌==◌,
  not, if◌then◌else◌, arith, lt→ltb,
}
use libdyplo.Effects.{ok, throw, io_error}
use libdyplo.FileIo.{gives}
use libdyplo.Words.{bit, some_bit, bit-small, bit-le, bit-pow, bit_and-pow}
use libdyplo.Control.{
  ControlDriver, backplane_status, backplane_enable, backplane_disable, get_enabled_nodes,
  enable_nodes, disable_nodes, is_node_enabled, enable_node, disable_node,
}

-- The driver keeps a mask of the nodes that are enabled: the status is the mask, and enabling or
-- disabling changes the bits that are told.
pub record KeepsNodes {σ : Type 0} (k : ControlDriver σ) : Type 0 where
  pub mask : σ → ℕ
  pub status : (s : σ) → k.tell backplane_status s ≡ (gives (mask s), s)
  pub enables : (m : ℕ) (s : σ) → (k.tell (backplane_enable m) s).0 ≡ gives 0
  pub enabled :
      (m i : ℕ) (s : σ)
      → bit i (mask (k.tell (backplane_enable m) s).1) ≡ max (bit i (mask s)) (bit i m)
  pub disables : (m : ℕ) (s : σ) → (k.tell (backplane_disable m) s).0 ≡ gives 0
  pub disabled :
      (m i : ℕ) (s : σ) → bit i (mask (k.tell (backplane_disable m) s).1) ≡ bit i (mask s) - bit i m

pow_pos : (i : ℕ) → 0 < 2 ^ i
pow_pos zero = ground arith
pow_pos (suc i) = omega (arith, pow-suc 2 i, pow_pos i)

-- A number whose bits from `i` on are 0.
small_of_bits : (i x : ℕ) → ((j : ℕ) → i ≤ j → bit j x ≡ 0) → x < 2 ^ i
small_of_bits zero x h = elim (dec_lt 0 x) [
  | no nothing ↦ omega arith
  | yes some ↦ let (j, there) = some_bit x some in absurd (omega (arith, there, h j))
]
small_of_bits (suc i) x h =
    omega (arith, pow-suc 2 i, small_of_bits i (x / 2) (λ j from. h (suc j) (omega (arith, from))))

module _ {σ : Type 0} (k : ControlDriver σ) (keeps : KeepsNodes k) where
  is_node_enabled_lem :
      (i : ℕ) (s : σ)
      → i < 32
      → keeps.mask s < 2 ^ 31
      → is_node_enabled k i s ≡ (ok (bit i (keeps.mask s) == 1), s)
  unfolding is_node_enabled get_enabled_nodes
  is_node_enabled_lem i s h small =
      rw
        (
          keeps.status s,
          lt→ltb (keeps.mask s) (2 ^ 31) small,
          lt→ltb i 32 h,
          bit_and-pow i (keeps.mask s),
          seen i (keeps.mask s),
        )
        refl
    where
      seen : (i m : ℕ) → not (bit i m * 2 ^ i == 0) ≡ (bit i m == 1)
      seen i m = ground (arith, bit-le i m, pow_pos i)

  is_node_enabled-negative :
      (i : ℕ) (s : σ)
      → bit 31 (keeps.mask s) ≡ 1
      → (is_node_enabled k i s).0 ≡ throw (io_error (k.errno s) "")
  unfolding is_node_enabled get_enabled_nodes
  is_node_enabled-negative i s h =
      let large : ltb (keeps.mask s) (2 ^ 31) ≡ false = elim (dec_lt (keeps.mask s) (2 ^ 31)) [
        | yes small ↦ absurd (omega (arith, h, bit-small 31 31 (keeps.mask s) small (omega arith)))
        | no not_small ↦ ground (arith, not_small)
      ] in
      rw (keeps.status s, large) refl

  module _ (n : ℕ) (s : σ) (small : keeps.mask s < 2 ^ 31) where
    enabled-small : n < 31 → keeps.mask (k.tell (backplane_enable (2 ^ n)) s).1 < 2 ^ 31
    enabled-small h = small_of_bits 31 _ (λ j from.
        ground
          (arith, keeps.enabled (2 ^ n) j s, bit-pow j n, bit-small 31 j (keeps.mask s) small from))

    disabled-small : keeps.mask (k.tell (backplane_disable (2 ^ n)) s).1 < 2 ^ 31
    disabled-small = small_of_bits 31 _ (λ j from.
        omega (arith, keeps.disabled (2 ^ n) j s, bit-small 31 j (keeps.mask s) small from))

  -- With a driver that keeps a mask of the enabled nodes, and for nodes below 32, while node 31 is
  -- not enabled: `enableNode` returns, and afterwards `isNodeEnabled` says yes of that node and what
  -- it said before of every other, unless the node is number 31, when it throws for every node;
  -- `disableNode` returns, and afterwards it says no of that node and what it said before of every
  -- other.
  pub enable_node_lem :
      (n i : ℕ) (s : σ)
      → n < 32
      → i < 32
      → keeps.mask s < 2 ^ 31
      → let (r, s') = enable_node k n s in
        let (r', s'') = disable_node k n s in
        (r ≡ ok tt)
        × ((is_node_enabled k i s').0 ≡ (
            if n == 31
            then throw (io_error (k.errno s') "")
            else (if i == n then ok true else (is_node_enabled k i s).0)))
        × (r' ≡ ok tt)
        × ((is_node_enabled k i s'').0 ≡ (if i == n then ok false else (is_node_enabled k i s).0))
  unfolding enable_node enable_nodes disable_node disable_nodes
  enable_node_lem n i s h h' small = elim (ℕ_discrete n 31) [
    | yes top ↦ ground (
      arith,
      top,
      keeps.enables (2 ^ 31) s,
      keeps.disables (2 ^ 31) s,
      keeps.disabled (2 ^ 31) i s,
      bit-pow i 31,
      bit-le i (keeps.mask s),
      is_node_enabled-negative i (k.tell (backplane_enable (2 ^ 31)) s).1
          (ground (arith, keeps.enabled (2 ^ 31) 31 s, bit-pow 31 31, bit-le 31 (keeps.mask s))),
      is_node_enabled_lem i s h' small,
      is_node_enabled_lem i (k.tell (backplane_disable (2 ^ 31)) s).1 h'
          (disabled-small 31 s small),
    )
    | no other ↦ ground (
      arith,
      other,
      lt→ltb n 32 h,
      keeps.enables (2 ^ n) s,
      keeps.disables (2 ^ n) s,
      keeps.enabled (2 ^ n) i s,
      keeps.disabled (2 ^ n) i s,
      bit-pow i n,
      bit-le i (keeps.mask s),
      is_node_enabled_lem i s h' small,
      is_node_enabled_lem i (k.tell (backplane_enable (2 ^ n)) s).1 h'
          (enabled-small n s small (omega (arith, h, other))),
      is_node_enabled_lem i (k.tell (backplane_disable (2 ^ n)) s).1 h' (disabled-small n s small),
    )
  ]
