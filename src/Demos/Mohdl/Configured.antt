-- ===== src/Demos/Mohdl/Configured.antt =====
-- What dyplodemohdlapp.cpp makes of numbers on its command line.
use libdyplo.Prelude.{
  ℕ, zero, suc, ◌+◌, ◌-◌, ◌*◌, ◌/◌, ◌%◌, ◌≡◌, ◌<◌, ◌≤◌, ◌⊎◌, inl, inr, Bool, true, false, List, [],
  ◌∷◌, ◌++◌, ltb, leb, ◌==◌, if◌then◌else◌, length, take, drop, map, refl, arith, ap, ap₂,
  get_elem?-take, get_elem?-drop, ◌∙◌, sym, All, Option, none, get_elem?, dec_lt, append_assoc,
  length-append, length-drop, append-nil, Bool-cases,
}
use libdyplo.Effects.{ok, fault, proceed}
use libdyplo.FileIo.{Answer, gives, own_descriptor, write}
use libdyplo.Devices.{NodePath, AccessMode, wronly, rdwr, open_config, open_control}
use libdyplo.Control.{ℤ, pos, negsuc, ControlDriver, route_add}
use libdyplo.Demos.Integers.{Text, print_int, print_digits}
use libdyplo.Demos.Integers.RoundTrip.{
  IsInt, atoi-print_int, print_digits-BeginsWithDigit, BeginsWithDigit,
}
use libdyplo.Demos.Mohdl.{
  n_hdl, n_fifos, routes, number, argument, run, parse_arguments, Writes, write_node, write_config,
  set_up_routes, mohdl_main,
}
use Prim.Native.String.{String}

argument-digit :
    (text : Text)
    → BeginsWithDigit text
    → (argument text ≡ number) × (argument (b'-' ∷ text) ≡ number)
argument-digit text (d, [], h, e) = rw e (refl, ground arith)
argument-digit text (d, c ∷ cs, h, e) = rw e (ground arith, ground arith)

argument-print_int : (z : ℤ) → argument (print_int z) ≡ number
unfolding print_int
argument-print_int (pos n) =
    (argument-digit (print_digits (suc n) n []) (print_digits-BeginsWithDigit n n [])).0
argument-print_int (negsuc n) =
    (argument-digit (print_digits (suc (suc n)) (suc n) [])
      (print_digits-BeginsWithDigit (suc n) (suc n) [])).1

parse_arguments-numbers :
    (verbose : Bool) (before vs : List ℤ)
    → All IsInt vs
    → length before ≤ 8
    → parse_arguments verbose before (map print_int vs)
      ≡ (if leb (length before + length vs) 8 then ok (run verbose (before ++ vs)) else fault)
unfolding parse_arguments
parse_arguments-numbers verbose before [] h small = ground (arith, append-nil before)
parse_arguments-numbers verbose before (v ∷ vs) h small =
    elim (Bool-cases (ltb (length before) (n_fifos * n_hdl))) [
      | inl room ↦
          rw (parse_arguments, argument-print_int v, atoi-print_int v h.0, room)
            (parse_arguments-numbers verbose (before ++ (v ∷ [])) vs h.1
                (ground (arith, length-append before (v ∷ []), room))
              ∙ ap₂ (λ n xs. if leb n 8 then ok (run verbose xs) else fault)
                  (omega (arith, length-append before (v ∷ []))) (append_assoc before (v ∷ []) vs))
      | inr full ↦
          rw (parse_arguments, argument-print_int v, atoi-print_int v h.0, full)
            (ground (arith, full))
    ]

-- The value at a place of what was written to a node, the first time.
abbrev pub value_at : Writes → ℕ → ℕ → Option ℤ
value_at [] node i = none
value_at ((hdl, vs) ∷ ws) node i = if hdl == node then get_elem? vs i else value_at ws node i

-- Value number `i` is at place `i % 4` of what goes to the node that is `i / 4` behind `hdl`.
abbrev pub Spreads : ℕ → List ℤ → Writes → Type 0
Spreads hdl vs ws = (i : ℕ) → i < length vs → value_at ws (hdl + i / 4) (i % 4) ≡ get_elem? vs i

-- The first group, and the others.
spread-cons :
    (hdl : ℕ) (vs : List ℤ) (ws : Writes)
    → Spreads (hdl + 1) (drop 4 vs) ws
    → Spreads hdl vs ((hdl, take 4 vs) ∷ ws)
spread-cons hdl vs ws spread i h = elim (dec_lt i 4) [
  | yes first ↦ ground (arith, get_elem?-take 4 vs i)
  | no after ↦ rw (other_node after) (
      ap₂ (value_at ws) (omega arith) (omega arith)
      ∙ spread (i - 4) (omega (arith, length-drop 4 vs))
      ∙ get_elem?-drop 4 vs (i - 4)
      ∙ ap (get_elem? vs) (omega arith))
]
  where
    other_node : (i < 4 → ⊥) → (hdl == hdl + i / 4) ≡ false
    other_node after = ground (arith, after)

module _ (prefix : String) (sys_open : NodePath → AccessMode → Answer)
    (sys_access : NodePath → Bool) (sys_write : ℕ → List ℤ → Answer)
    (opened : (hdl : ℕ) (access : AccessMode)
      → (fd : ℕ) × (open_config prefix sys_open sys_access hdl access ≡ gives fd))
    (taken : (fd : ℕ) (vs : List ℤ) → sys_write fd vs ≡ gives (length vs * 4)) where
  write_node-all :
      (hdl : ℕ) (vs : List ℤ) (ws : Writes)
      → write_node prefix sys_open sys_access sys_write hdl vs ws ≡ (ok tt, ws ++ ((hdl, vs) ∷ []))
  unfolding write_node own_descriptor write
  write_node-all hdl vs ws =
      let (fd, e) = opened hdl wronly in
      rw (write_node, e, taken fd vs, own_descriptor, write, proceed, no_less) refl
    where
      no_less : ltb (length vs * 4) (length vs * 4) ≡ false
      no_less = ground arith

  write_config-all :
      (rounds hdl : ℕ) (vs : List ℤ) (ws : Writes)
      → length vs ≤ rounds
      → let (r, ws') = write_config prefix sys_open sys_access sys_write rounds hdl vs ws in
        (r ≡ ok tt) × ((gs : Writes) × (ws' ≡ ws ++ gs) × Spreads hdl vs gs)
  unfolding write_config
  write_config-all rounds hdl [] ws enough =
      (refl, ([], sym (append-nil ws), λ i h. absurd (omega (arith, h))))
  write_config-all zero hdl (v ∷ vs) ws enough = absurd (omega arith)
  write_config-all (suc rounds) hdl (v ∷ vs) ws enough =
      let group : List ℤ = take n_fifos (v ∷ vs) in
      let (r, (gs, all, spread)) =
        write_config-all rounds (hdl + 1) (drop n_fifos (v ∷ vs)) (ws ++ ((hdl, group) ∷ []))
          (omega (arith, enough, length-drop n_fifos (v ∷ vs))) in
      rw (write_config, write_node-all hdl group ws, proceed)
        (
          r,
          (
            (hdl, group) ∷ gs,
            all ∙ append_assoc ws ((hdl, group) ∷ []) gs,
            spread-cons hdl (v ∷ vs) gs spread,
          ),
        )

module _ (prefix : String) (sys_open : NodePath → AccessMode → Answer)
    (sys_access : NodePath → Bool) (sys_write : ℕ → List ℤ → Answer) where
  -- With numbers as its arguments, each an `int` as it is printed, configuration nodes that can be
  -- opened and that take all that is written to them, a control node that can be opened, and a driver
  -- that takes the routes: `main` returns 0, and value number `i` has been written to node `1 + i / 4`
  -- at place `i % 4`, and the routes of both nodes have been given to the driver, if there are eight
  -- values at most; and with more of them it writes beyond the end of its array.
  pub mohdl_main_lem :
      {σ : Type 0} (k : ControlDriver σ) (sys_read : ℕ → Answer) (vs : List ℤ) (ws : Writes) (c : σ)
      (control n : ℕ)
      → ((hdl : ℕ) (access : AccessMode)
          → (fd : ℕ) × (open_config prefix sys_open sys_access hdl access ≡ gives fd))
      → ((fd : ℕ) (xs : List ℤ) → sys_write fd xs ≡ gives (length xs * 4))
      → open_control prefix sys_open sys_access rdwr ≡ gives control
      → (k.set_routes (routes n_hdl 0) c).0 ≡ gives n
      → All IsInt vs
      → let (r, s) =
          mohdl_main prefix sys_open sys_access sys_write k sys_read (map print_int vs) (ws, c) in
        ((length vs ≤ 8)
          × (r ≡ ok 0)
          × ((gs : Writes) × (s.0 ≡ ws ++ gs) × Spreads 1 vs gs)
          × (s.1 ≡ (k.set_routes (routes n_hdl 0) c).1))
        ⊎ ((8 < length vs) × (r ≡ fault))
  unfolding mohdl_main set_up_routes route_add own_descriptor
  mohdl_main_lem k sys_read vs ws c control n opened taken controlled routed ints =
      elim (dec_lt 8 (length vs)) [
        | yes many ↦
            rw (mohdl_main, parse_arguments-numbers false [] vs ints (omega arith), too_many many)
              (inr (many, refl))
        | no few ↦
            let (r, gs) =
              write_config-all prefix sys_open sys_access sys_write opened taken (length vs) 1 vs ws
                (omega arith) in
            rw
              (
                mohdl_main,
                parse_arguments-numbers false [] vs ints (omega arith),
                few_enough few,
                r,
                set_up_routes,
                controlled,
                own_descriptor,
                route_add,
                routed,
                proceed,
              )
              (inl (omega arith, refl, gs, refl))
      ]
    where
      too_many : 8 < length vs → leb (0 + length vs) 8 ≡ false
      too_many h = ground arith

      few_enough : (8 < length vs → ⊥) → leb (0 + length vs) 8 ≡ true
      few_enough h = ground (arith, h)
