-- ===== src/Bitstream/Reader.antt =====
-- FpgaImageReader (hardware.hpp, hardware.cpp): a bitstream file goes through a buffer to a callback.
use libdyplo.Prelude.{
  ℕ, zero, suc, ◌+◌, ◌-◌, ◌*◌, ◌/◌, ◌%◌, ◌^◌, Bool, true, false, List, [], ◌∷◌, ◌++◌, some, none,
  ltb, leb, ◌==◌, ◌&&◌, if◌then◌else◌, length, take, drop, replicate,
}
use libdyplo.Effects.{
  ok, waiting, fault, truncated_file, runtime_error, M, ◌>>=◌, pure, raise, lift,
}
use libdyplo.FileIo.{Stream, read_all}
use Prim.Native.Nat.{bit_or}
use libdyplo.Bitstream.Bytes.{swap_buffer_aligned}
use libdyplo.Bitstream.Description.{byte_at, u16_at, matches, Description, parse_description_tag}

-- FpgaImageReaderCallback. `store` writes bytes where `begin_process_data` points.
pub record Callback (σ : Type 0) : Type 0 where
  pub begin_process_data : ℕ → M σ ℕ
  pub store : List ℕ → M σ (Unit {0})
  pub end_process_data : ℕ → M σ ℕ
  pub verify_static_id : ℕ → M σ (Unit {0})

-- The file that is read, and what the callback keeps.
pub record Transfer (σ : Type 0) : Type 0 where
  pub input : Stream
  pub target : σ

abbrev pub align_size : ℕ
align_size = 4096

abbrev pub buffer_size : ℕ
buffer_size = 16384

module _ {σ : Type 0} (k : Callback σ) where
  -- A step of the callback within the transfer, and `read_all` of the file.
  abbrev pub on_target : {B : Type 0} → M σ B → M (Transfer σ) B
  on_target m t = let (r, s) = m t.target in (r, record t { target = s })

  abbrev pub read_input : ℕ → M (Transfer σ) (List ℕ)
  read_input count t = let (r, s) = read_all count t.input in (r, record t { input = s })

  abbrev pub verify : Description → M σ (Unit {0})
  verify d = elim d.user_id [
    | some id ↦ if d.is_partial then k.verify_static_id (id % 2 ^ 16) else pure tt
    | none ↦ pure tt
  ]

  unfoldable pub process_tag : ℕ → ℕ → List ℕ → ℕ → M (Transfer σ) (Unit {0})
  unfolding parse_description_tag
  process_tag tag size buffer p =
      if tag == b'a' then on_target (verify (parse_description_tag buffer p size)) else pure tt

  -- The loop over the tags from `data` on, of a buffer whose end is `end`; it returns where the tag
  -- 'e' stands. A turn moves on by three bytes at least.
  unfoldable pub find_data : ℕ → List ℕ → ℕ → ℕ → M (Transfer σ) ℕ
  unfolding byte_at process_tag
  find_data zero buffer end p = λ t. (waiting, t)
  find_data (suc rounds) buffer end p =
      let size = u16_at buffer (p + 1) in
      let next = p + 3 + size in
      let rest = find_data rounds buffer end next in
      if byte_at buffer p == b'e'
      then pure p
      else if leb end (p + 1)
      then raise truncated_file
      else if leb end next
      then raise truncated_file
      else process_tag (byte_at buffer p) size buffer (p + 3) >>= λ _. rest

  -- `endProcessData`, whose count may not be less than what it was given.
  unfoldable pub finish_chunk : ℕ → M (Transfer σ) ℕ
  finish_chunk count = on_target (k.end_process_data count) >>= λ n.
      if ltb n count then raise truncated_file else pure n

  -- `swap_buffer_aligned` of `count >> 2` words into the callback's buffer. A callback that grants
  -- more than it is asked for is a fault, though the code would go on with what else the buffer holds.
  unfoldable pub store_swapped : List ℕ → ℕ → M (Transfer σ) (Unit {0})
  store_swapped bytes count =
      lift (swap_buffer_aligned bytes (count / 4)) >>= λ swapped. on_target (k.store swapped)

  -- What was read lies in a vector of BUFFER_SIZE bytes; more than that has overrun it.
  abbrev pub within_buffer : List ℕ → M (Transfer σ) (Unit {0})
  within_buffer bytes = lift (if ltb buffer_size (length bytes) then fault else ok tt)

  -- The loop `while (total_bytes < size)`, for `rounds` turns at most.
  unfoldable pub transfer_loop : ℕ → ℕ → ℕ → M (Transfer σ) (Unit {0})
  unfolding finish_chunk store_swapped
  transfer_loop zero total size t = (waiting, t)
  transfer_loop (suc rounds) total size t = elim (ltb total size) [
    | false ↦ (ok tt, t)
    | true ↦
        (on_target (k.begin_process_data (size - total)) >>= λ to_read.
        read_input to_read >>= λ bytes. within_buffer bytes >>= λ _.
        if ltb (length bytes) to_read
        then raise truncated_file
        else store_swapped bytes (length bytes) >>= λ _.
            finish_chunk to_read >>= λ n. transfer_loop rounds ((total + n) % 2 ^ 32) size)
          t
  ]

  -- What lies in the buffer behind the header, filled up to whole blocks unless it is all there is.
  unfoldable pub first_chunk : List ℕ → ℕ → M (Transfer σ) (List ℕ × ℕ)
  first_chunk bytes size =
      if leb size (length bytes)
      then pure (bytes, size)
      else if length bytes % align_size == 0
      then pure (bytes, length bytes)
      else read_input (align_size - length bytes % align_size) >>= λ more.
          if ltb (length more) (align_size - length bytes % align_size)
          then raise truncated_file
          else pure (bytes ++ more, length bytes + (align_size - length bytes % align_size))

  -- `data[0] << 24 | data[1] << 16 | data[2] << 8 | data[3]`
  abbrev pub u32_at : List ℕ → ℕ → ℕ
  u32_at buffer p =
      bit_or
        (bit_or (bit_or (byte_at buffer p * 2 ^ 24) (byte_at buffer (p + 1) * 2 ^ 16))
          (byte_at buffer (p + 2) * 2 ^ 8))
        (byte_at buffer (p + 3))

  -- The rest of a .bit file, with the first bytes of it in `buffer`.
  unfoldable pub process_bit : ℕ → List ℕ → M (Transfer σ) ℕ
  unfolding find_data byte_at first_chunk store_swapped finish_chunk transfer_loop
  process_bit rounds buffer = find_data (length buffer) buffer (length buffer) 13 >>= λ e.
      if leb (length buffer) (e + 5)
      then raise truncated_file
      else first_chunk (drop (e + 5) buffer) (u32_at buffer (e + 1)) >>= λ (bytes, offered).
          on_target (k.begin_process_data offered) >>= λ granted.
          store_swapped bytes (granted % 2 ^ 32) >>= λ _. finish_chunk (granted % 2 ^ 32) >>= λ _.
          transfer_loop rounds (granted % 2 ^ 32) (u32_at buffer (e + 1)) >>= λ _.
          pure (u32_at buffer (e + 1))

  -- The loop that copies the rest of a .bin or .partial file.
  unfoldable pub copy_loop : ℕ → ℕ → M (Transfer σ) ℕ
  unfolding finish_chunk
  copy_loop zero total = λ t. (waiting, t)
  copy_loop (suc rounds) total = on_target (k.begin_process_data buffer_size) >>= λ _.
      read_input buffer_size >>= λ bytes. on_target (k.store bytes) >>= λ _.
      if length bytes == 0
      then pure total
      else finish_chunk (length bytes) >>= λ n. copy_loop rounds (total + n)

  abbrev pub all_ones : List ℕ → ℕ → Bool
  all_ones buffer p = matches buffer p (0xff ∷ 0xff ∷ 0xff ∷ 0xff ∷ [])

  -- Which file it is, when it is not a .bit file.
  unfoldable pub check_raw : List ℕ → M (Transfer σ) (Unit {0})
  unfolding matches byte_at
  check_raw buffer =
      if all_ones buffer 0
      then pure tt
      else if (byte_at buffer 0 == 0) && all_ones buffer 4
      then on_target (k.verify_static_id (u16_at buffer 2))
      else raise (runtime_error "Unrecognized bitstream format")

  unfoldable pub process_raw : ℕ → List ℕ → M (Transfer σ) ℕ
  unfolding check_raw finish_chunk copy_loop
  process_raw rounds buffer = check_raw buffer >>= λ _.
      on_target (k.begin_process_data (length buffer)) >>= λ total.
      on_target (k.store (take total (buffer ++ replicate (total - length buffer) 0))) >>= λ _.
      finish_chunk (length buffer) >>= λ _. copy_loop rounds total

  -- The magic marker of a .bit file.
  unfoldable pub is_bit : List ℕ → Bool
  unfolding byte_at
  is_bit buffer = (u16_at buffer 0 == 9) && (u16_at buffer 11 == 1) && (byte_at buffer 13 == b'a')

  unfoldable pub process_file : ℕ → M (Transfer σ) ℕ
  unfolding is_bit process_bit process_raw
  process_file rounds = read_input align_size >>= λ buffer.
      if ltb (length buffer) 64
      then raise truncated_file
      else if is_bit buffer
      then process_bit rounds buffer
      else process_raw rounds buffer
