-- ===== src/Bitstream/Simulation.antt =====
-- FpgaImageReader (hardware.cpp) does the same with callbacks that answer alike.
use libdyplo.Prelude.{
  ℕ, zero, suc, ◌+◌, ◌-◌, ◌%◌, ◌^◌, ◌/◌, List, ◌≡◌, refl, ap, Option, some, none, length, ltb, leb,
  ◌==◌, Bool-cases, inl, inr, ◌&&◌, true, false, ℕ_discrete, arith,
}
use libdyplo.Effects.{ok, waiting, M}
use libdyplo.Effects.Alike.{Alike, Sim, lift-Sim, if-Sim, bind-Sim}
use libdyplo.FileIo.{read_all}
use libdyplo.Bitstream.Bytes.{swap_buffer_aligned}
use libdyplo.Bitstream.Description.{byte_at, u16_at, parse_description_tag, Description}
use libdyplo.Bitstream.Reader.{
  Callback, Transfer, align_size, buffer_size, on_target, read_input, verify, process_tag,
  find_data, finish_chunk, store_swapped, transfer_loop, first_chunk, u32_at, process_bit,
  copy_loop, all_ones, check_raw, process_raw, is_bit, process_file,
}

-- The same file, and callbacks in related states.
abbrev pub Together : {σ τ : Type 0} → (σ → τ → Type 0) → Transfer σ → Transfer τ → Type 0
Together R t t' = (t.input ≡ t'.input) × R t.target t'.target

module _ {σ τ : Type 0} (R : σ → τ → Type 0) (k : Callback σ) (k' : Callback τ)
    (begin_alike : (n : ℕ) → Sim R (k.begin_process_data n) (k'.begin_process_data n))
    (store_alike : (bytes : List ℕ) → Sim R (k.store bytes) (k'.store bytes))
    (end_alike : (n : ℕ) → Sim R (k.end_process_data n) (k'.end_process_data n)) where
  on_target-Sim :
      {B : Type 0} (m : M σ B) (n : M τ B)
      → Sim R m n
      → Sim (Together R) (on_target k m) (on_target k' n)
  on_target-Sim m n alike t t' (same, related) =
      let (r, related') = alike t.target t'.target related in (r, (same, related'))

  read_input-Sim : (count : ℕ) → Sim (Together R) (read_input k count) (read_input k' count)
  read_input-Sim count t t' (same, related) =
      (ap (λ i. (read_all count i).0) same, (ap (λ i. (read_all count i).1) same, related))

  finish_chunk-Sim : (count : ℕ) → Sim (Together R) (finish_chunk k count) (finish_chunk k' count)
  unfolding finish_chunk
  finish_chunk-Sim count = bind-Sim (Together R) _ _ _ _ (on_target-Sim _ _ (end_alike count)) (λ n.
      if-Sim (Together R) (ltb n count) _ _ _ _ (lift-Sim (Together R) _) (lift-Sim (Together R) _))

  pub copy_loop-Sim :
      (rounds total : ℕ) → Sim (Together R) (copy_loop k rounds total) (copy_loop k' rounds total)
  unfolding copy_loop
  copy_loop-Sim zero total = lift-Sim (Together R) waiting
  copy_loop-Sim (suc rounds) total =
      bind-Sim (Together R) _ _ _ _ (on_target-Sim _ _ (begin_alike buffer_size)) (λ _.
        bind-Sim (Together R) _ _ _ _ (read_input-Sim buffer_size) (λ bytes.
          bind-Sim (Together R) _ _ _ _ (on_target-Sim _ _ (store_alike bytes)) (λ _.
            if-Sim (Together R) (length bytes == 0) _ _ _ _ (lift-Sim (Together R) (ok total)) (
              bind-Sim (Together R) _ _ _ _ (finish_chunk-Sim (length bytes))
                (λ n. copy_loop-Sim rounds (total + n))))))

  pub process_raw-Sim :
      (rounds : ℕ) (buffer : List ℕ)
      → Sim (Together R) (check_raw k buffer) (check_raw k' buffer)
      → Sim (Together R) (process_raw k rounds buffer) (process_raw k' rounds buffer)
  unfolding process_raw
  process_raw-Sim rounds buffer checked = bind-Sim (Together R) _ _ _ _ checked (λ _.
      bind-Sim (Together R) _ _ _ _ (on_target-Sim _ _ (begin_alike (length buffer))) (λ total.
        bind-Sim (Together R) _ _ _ _ (on_target-Sim _ _ (store_alike _)) (λ _.
          bind-Sim (Together R) _ _ _ _ (finish_chunk-Sim (length buffer))
            (λ _. copy_loop-Sim rounds total))))

  store_swapped-Sim :
      (bytes : List ℕ) (count : ℕ)
      → Sim (Together R) (store_swapped k bytes count) (store_swapped k' bytes count)
  unfolding store_swapped
  store_swapped-Sim bytes count =
      bind-Sim (Together R) _ _ _ _ (lift-Sim (Together R) (swap_buffer_aligned bytes (count / 4)))
        (λ swapped. on_target-Sim _ _ (store_alike swapped))

  transfer_turn-Sim :
      (rounds total size : ℕ)
      → ((total' : ℕ)
          → Sim
              (Together R)
              (transfer_loop k rounds total' size)
              (transfer_loop k' rounds total' size))
      → Sim
          (Together R)
          (transfer_loop k (suc rounds) total size)
          (transfer_loop k' (suc rounds) total size)
  unfolding transfer_loop
  transfer_turn-Sim rounds total size rest t t' together = elim (Bool-cases (ltb total size)) [
    | inr all_there ↦ rw (transfer_loop, all_there) (refl, together)
    | inl more ↦
        rw (transfer_loop, more)
          (bind-Sim (Together R) _ _ _ _ (on_target-Sim _ _ (begin_alike (size - total)))
            (λ to_read. bind-Sim (Together R) _ _ _ _ (read_input-Sim to_read) (λ bytes.
              bind-Sim (Together R) _ _ _ _ (lift-Sim (Together R) _) (λ _.
                if-Sim (Together R) (ltb (length bytes) to_read) _ _ _ _ (lift-Sim (Together R) _) (
                  bind-Sim (Together R) _ _ _ _ (store_swapped-Sim bytes (length bytes)) (λ _.
                    bind-Sim (Together R) _ _ _ _ (finish_chunk-Sim to_read) (λ n. rest _))))))
            t t' together)
  ]

  transfer_loop-Sim :
      (rounds total size : ℕ)
      → Sim (Together R) (transfer_loop k rounds total size) (transfer_loop k' rounds total size)
  unfolding transfer_loop
  transfer_loop-Sim zero total size = lift-Sim (Together R) waiting
  transfer_loop-Sim (suc rounds) total size =
      transfer_turn-Sim rounds total size (λ total'. transfer_loop-Sim rounds total' size)

  first_chunk-Sim :
      (bytes : List ℕ) (size : ℕ)
      → Sim (Together R) (first_chunk k bytes size) (first_chunk k' bytes size)
  unfolding first_chunk
  first_chunk-Sim bytes size =
      if-Sim (Together R) (leb size (length bytes)) _ _ _ _ (lift-Sim (Together R) _) (
        if-Sim (Together R) (length bytes % align_size == 0) _ _ _ _ (lift-Sim (Together R) _) (
          bind-Sim (Together R) _ _ _ _ (read_input-Sim _) (λ more.
            if-Sim (Together R) (ltb (length more) (align_size - length bytes % align_size)) _ _ _ _
              (lift-Sim (Together R) _) (lift-Sim (Together R) _))))

  -- Only the descriptions that may stand in the buffer are looked at.
  module _ (buffer : List ℕ)
      (tags_alike : (p : ℕ)
        → byte_at buffer p ≡ b'a'
        → let d = parse_description_tag buffer (p + 3) (u16_at buffer (p + 1)) in
          Sim R (verify k d) (verify k' d)) where
    process_tag-Sim :
        (p : ℕ)
        → Sim
            (Together R)
            (process_tag k (byte_at buffer p) (u16_at buffer (p + 1)) buffer (p + 3))
            (process_tag k' (byte_at buffer p) (u16_at buffer (p + 1)) buffer (p + 3))
    unfolding process_tag
    process_tag-Sim p t t' together = elim (ℕ_discrete (byte_at buffer p) b'a') [
      | yes a ↦ go_on (tags_alike p a) (ground (arith, a))
      | no other ↦ skipped (ground (arith, other))
    ]
      where
        go_on :
            Sim R
              (verify k (parse_description_tag buffer (p + 3) (u16_at buffer (p + 1))))
              (verify k' (parse_description_tag buffer (p + 3) (u16_at buffer (p + 1))))
            → (byte_at buffer p == b'a') ≡ true
            → Alike
                (Together R)
                (process_tag k (byte_at buffer p) (u16_at buffer (p + 1)) buffer (p + 3) t)
                (process_tag k' (byte_at buffer p) (u16_at buffer (p + 1)) buffer (p + 3) t')
        go_on alike a = rw (process_tag, a) (on_target-Sim _ _ alike t t' together)

        skipped :
            (byte_at buffer p == b'a') ≡ false
            → Alike
                (Together R)
                (process_tag k (byte_at buffer p) (u16_at buffer (p + 1)) buffer (p + 3) t)
                (process_tag k' (byte_at buffer p) (u16_at buffer (p + 1)) buffer (p + 3) t')
        skipped other = rw (process_tag, other) (refl, together)

    find_data-Sim :
        (rounds end p : ℕ)
        → Sim (Together R) (find_data k rounds buffer end p) (find_data k' rounds buffer end p)
    unfolding find_data
    find_data-Sim zero end p = lift-Sim (Together R) waiting
    find_data-Sim (suc rounds) end p =
        if-Sim (Together R) (byte_at buffer p == b'e') _ _ _ _ (lift-Sim (Together R) (ok p)) (
          if-Sim (Together R) (leb end (p + 1)) _ _ _ _ (lift-Sim (Together R) _) (
            if-Sim (Together R) (leb end (p + 3 + u16_at buffer (p + 1))) _ _ _ _
              (lift-Sim (Together R) _)
              (bind-Sim (Together R) _ _ _ _ (process_tag-Sim p)
                (λ _. find_data-Sim rounds end (p + 3 + u16_at buffer (p + 1))))))

    pub process_bit-Sim :
        (rounds : ℕ) → Sim (Together R) (process_bit k rounds buffer) (process_bit k' rounds buffer)
    unfolding process_bit
    process_bit-Sim rounds =
        bind-Sim (Together R) _ _ _ _ (find_data-Sim (length buffer) (length buffer) 13) (λ e.
          if-Sim (Together R) (leb (length buffer) (e + 5)) _ _ _ _ (lift-Sim (Together R) _) (
            bind-Sim (Together R) _ _ _ _ (first_chunk-Sim _ (u32_at k buffer (e + 1)))
              (λ (bytes, offered).
                bind-Sim (Together R) _ _ _ _ (on_target-Sim _ _ (begin_alike offered)) (λ granted.
                  bind-Sim (Together R) _ _ _ _ (store_swapped-Sim bytes _) (λ _.
                    bind-Sim (Together R) _ _ _ _ (finish_chunk-Sim _) (λ _.
                      bind-Sim (Together R) _ _ _ _
                        (transfer_loop-Sim rounds _ (u32_at k buffer (e + 1)))
                        (λ _. lift-Sim (Together R) _)))))))

  module _ (verify_alike : (id : ℕ) → Sim R (k.verify_static_id id) (k'.verify_static_id id)) where
    check_raw-Sim : (buffer : List ℕ) → Sim (Together R) (check_raw k buffer) (check_raw k' buffer)
    unfolding check_raw
    check_raw-Sim buffer =
        if-Sim (Together R) (all_ones k buffer 0) _ _ _ _ (lift-Sim (Together R) _) (
          if-Sim (Together R) ((byte_at buffer 0 == 0) && all_ones k buffer 4) _ _ _ _
            (on_target-Sim _ _ (verify_alike (u16_at buffer 2))) (lift-Sim (Together R) _))

    verify-Sim : (d : Description) → Sim R (verify k d) (verify k' d)
    verify-Sim d = by_id d.user_id
      where
        by_id :
            (user_id : Option ℕ)
            → Sim R
                (verify k (record d { user_id = user_id }))
                (verify k' (record d { user_id = user_id }))
        by_id (some id) =
            if-Sim R d.is_partial _ _ _ _ (verify_alike (id % 2 ^ 16)) (lift-Sim R (ok tt))
        by_id none = lift-Sim R (ok tt)

    pub process_file-Sim :
        (rounds : ℕ) → Sim (Together R) (process_file k rounds) (process_file k' rounds)
    unfolding process_file is_bit
    process_file-Sim rounds = bind-Sim (Together R) _ _ _ _ (read_input-Sim align_size) (λ buffer.
        if-Sim (Together R) (ltb (length buffer) 64) _ _ _ _ (lift-Sim (Together R) _) (
          if-Sim (Together R) (is_bit k buffer) _ _ _ _
            (process_bit-Sim buffer (λ p a. verify-Sim _) rounds)
            (process_raw-Sim rounds buffer (check_raw-Sim buffer))))
