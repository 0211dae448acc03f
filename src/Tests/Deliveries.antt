-- ===== src/Tests/Deliveries.antt =====
-- HardwareProgrammer over a CPU fifo and over DMA blocks at concrete inputs.
use libdyplo.Prelude.{
  ◌%◌, ◌^◌, zero, suc, List, Bool, false, ◌==◌, ◌||◌, ◌≢◌, ap, length, drop, inl, ℕ, [], ◌∷◌, ◌++◌,
  ◌≡◌, refl, replicate, arith, ltb, true, ◌+◌, length-replicate,
}
use libdyplo.Effects.{ok, io_error}
use libdyplo.Effects.Alike.{Alike}
use libdyplo.FileIo.{gives, fails, Stream, piece}
use libdyplo.FileIo.ReadAll.{arriving}
use libdyplo.Devices.{
  fifo_w, dma, open_available_dma, open_available_write_fifo, open_first, open_dma, open_fifo,
  cpu_fifo_count_w, count_numbered_files,
}
use libdyplo.Bitstream.Bytes.{u16_of, reverse_fours}
use libdyplo.Bitstream.Description.{
  byte_at, matches, user_id_key, partial_key, field_length, describe_field, describe,
  parse_description_tag, strtoul, skip_space, skip_prefix, hex_digits,
}
use libdyplo.Bitstream.Image.{IsImage}
use libdyplo.Bitstream.Header.{data_tag, other_tag}
use libdyplo.Programmer.Setup.BitFile.{AllLetThrough, program-image}
use libdyplo.Bitstream.Reader.{is_bit}
use libdyplo.Bitstream.Writer.{Writer}
use libdyplo.Programmer.{nops, icap_nop}
use libdyplo.Dma.{Driver}
use libdyplo.Programmer.Blocks.{Serves}
use libdyplo.Programmer.Blocks.Granted.{Grants}
use libdyplo.Programmer.Setup.ByDma.{BroughtByDma, program-dma}
use libdyplo.Programmer.Setup.{Board, Boot, program}
use libdyplo.Programmer.Setup.Delivery.{Brought, program-IsBin}

abbrev bin_image : Stream
bin_image = piece (replicate 40 0xff) ∷ piece (replicate 30 1) ∷ []

-- No DMA node can be opened, and two CPU fifos can.
abbrev fifo_bench : Board ℕ
fifo_bench = record {
  icap = gives 9;
  prefix = "/dev/dyplo";
  sys_open = λ path access. elim path.node [ fifo_w i ↦ gives (10 + i) | _ ↦ fails 13 ];
  sys_access = λ path. elim path.node [ fifo_w i ↦ ltb i 2 | _ ↦ true ];
  access_errno = λ path. 2;
  rounds = 3;
  dma_driver = record {
    dma_reconfigure = λ req s. (fails 12, req, s);
    dmablock_query = λ b s. (gives 0, b, s);
    dmablock_dequeue = λ b s. (gives 0, b, s);
    dmablock_enqueue = λ b s. (gives 0, b, s);
    dmablock_free = λ s. s;
    map_block = λ offset size s. (gives offset, s);
    unmap_block = λ address size s. s;
  };
  memory = λ b. [];
  node_request = λ fd r. gives 0;
  fifo_answers = [];
  static_id = gives 5;
  fsync = gives 0;
}

abbrev pub other_handle : Boot ℕ
other_handle = record { handles = 7 ∷ []; driver = 0 }

program-IsBin_example :
    (program fifo_bench 71 bin_image other_handle
      ≡ (ok (length (arriving bin_image) % 2 ^ 32), other_handle))
    × Brought fifo_bench 71 bin_image (arriving bin_image ++ nops 256)
unfolding is_bit u16_of byte_at matches open_available_dma open_available_write_fifo open_first
    open_dma open_fifo cpu_fifo_count_w count_numbered_files
program-IsBin_example =
    program-IsBin fifo_bench 71 9 10 0 0 (io_error 13 "") bin_image other_handle refl refl refl refl
      refl refl tt (refl, refl) (ground arith) (ground arith)

-- A CPU fifo that takes a part of the first block, and then fails.
abbrev failing : Writer
failing = record { buffer = []; output = []; answers = gives 6 ∷ fails 5 ∷ [] }

-- A driver that grants what it is asked for, and finishes a block whenever it is asked.
abbrev pub willing : Driver ℕ
willing = record {
  dma_reconfigure = λ req s. (gives 0, req, s);
  dmablock_query = λ b s. (gives 0, b, s);
  dmablock_dequeue = λ b s. (gives 0, record b { state = 0 }, s + 1);
  dmablock_enqueue = λ b s. (gives 0, record b { state = 1 }, s);
  dmablock_free = λ s. s;
  map_block = λ offset size s. (gives offset, s);
  unmap_block = λ address size s. s;
}

pub willing-Serves : Serves willing
willing-Serves = record {
  returns = record { answers = λ b s. (0, refl); owned = λ b s. refl };
  given_size = λ b s. refl;
  takes = λ b s. (0, refl);
  taken_size = λ b s. refl;
}

pub willing-Grants : Grants willing
willing-Grants = record {
  configures = λ req s. (0, refl);
  granted_size = λ req s fits. fits;
  granted_count = λ req s more. more;
  not_more = λ req s. ground arith;
  queries = λ b s. (0, refl);
  granted_eights = λ req s eights. eights;
  queried_size = λ b s. refl;
  maps = λ offset size s. (offset, refl);
}

-- Every DMA node can be opened.
abbrev pub dma_bench : Board ℕ
dma_bench = record fifo_bench {
  sys_open = λ path access. elim path.node [ dma i ↦ gives (20 + i) | _ ↦ fails 13 ];
  sys_access = λ path. true;
  dma_driver = willing;
  memory = λ b. replicate b.size 0;
}

-- 17 words, in two pieces.
abbrev odd_image : Stream
odd_image = piece (replicate 40 0xff) ∷ piece (replicate 28 1) ∷ []

program-dma_example :
    let (r, s') = program dma_bench 69 odd_image other_handle in
    (r ≡ ok (length (arriving odd_image) % 2 ^ 32))
    × (s'.handles ≡ 7 ∷ [])
    × BroughtByDma dma_bench willing-Serves willing-Grants
        (λ b. length-replicate b.size 0)
        69
        odd_image
        other_handle
        ((arriving odd_image ++ icap_nop) ++ nops 256)
unfolding is_bit u16_of byte_at matches open_available_dma open_first open_dma
program-dma_example =
    program-dma dma_bench willing-Serves willing-Grants (λ b. length-replicate b.size 0) 69 9 20 0
      17 odd_image other_handle refl refl refl tt (refl, refl) (ground arith) refl (ground arith)

-- "UserID=5;PARTIAL=TRUE;" and 18 more of ';'.
abbrev pub description : List ℕ
description =
    user_id_key
    ++ (b'5' ∷ b';' ∷ [])
    ++ partial_key
    ++ (b'T' ∷ b'R' ∷ b'U' ∷ b'E' ∷ [])
    ++ replicate 19 b';'

abbrev pub in_front : List ℕ
in_front = 0 ∷ 9 ∷ 15 ∷ 240 ∷ 15 ∷ 240 ∷ 15 ∷ 240 ∷ 15 ∷ 240 ∷ 0 ∷ 0 ∷ 1 ∷ []

abbrev behind : List ℕ
behind = 0 ∷ 40 ∷ (description ++ (b'e' ∷ 0 ∷ 0 ∷ 0 ∷ 8 ∷ 1 ∷ 2 ∷ 3 ∷ 4 ∷ 5 ∷ 6 ∷ 7 ∷ 8 ∷ []))

-- A partial bitstream for the static id 5, with two words of data.
abbrev partial_content : List ℕ
partial_content = in_front ++ (b'a' ∷ behind)

partial_content-IsImage : IsImage partial_content 56 2
unfolding is_bit u16_of byte_at
partial_content-IsImage = record {
  are_bytes = ground arith;
  long = ground arith;
  magic = refl;
  header = other_tag 13 56 (λ h. omega (arith, h)) (ground arith) (data_tag 56 refl);
  inside = ground arith;
  words = refl;
  complete = ground arith;
}

abbrev pub has_tag : List ℕ → Bool
has_tag [] = false
has_tag (b ∷ bs) = (b == b'a') || has_tag bs

no_tag : (bs : List ℕ) (p : ℕ) → has_tag bs ≡ false → byte_at bs p ≢ b'a'
unfolding byte_at
no_tag [] p none_there h = absurd (ground (arith, h))
no_tag (b ∷ bs) zero none_there h = absurd (ground (arith, none_there, h))
no_tag (b ∷ bs) (suc p) none_there h = no_tag bs p (ground (arith, none_there)) h

pub only_tag :
    (bs cs : List ℕ) (p : ℕ)
    → has_tag bs ≡ false
    → has_tag cs ≡ false
    → byte_at (bs ++ (b'a' ∷ cs)) p ≡ b'a'
    → p ≡ length bs
unfolding byte_at
only_tag [] cs zero first rest h = refl
only_tag [] cs (suc p) first rest h = absurd (no_tag cs p rest h)
only_tag (b ∷ bs) cs zero first rest h = absurd (ground (arith, first, h))
only_tag (b ∷ bs) cs (suc p) first rest h = ap suc (only_tag bs cs p (ground (arith, first)) rest h)

partial_let_through : AllLetThrough 5 partial_content
unfolding byte_at matches u16_of field_length describe_field describe parse_description_tag strtoul
    skip_space skip_prefix hex_digits
partial_let_through p h = rw (only_tag in_front behind p refl refl h) refl

program-image_example :
    (program fifo_bench 3 (piece partial_content ∷ []) other_handle ≡ (ok 8, other_handle))
    × Brought fifo_bench 3
        (piece partial_content ∷ [])
        (reverse_fours (drop 61 partial_content) 2 ++ nops 256)
unfolding open_available_dma open_available_write_fifo open_first open_dma open_fifo
    cpu_fifo_count_w count_numbered_files
program-image_example =
    program-image fifo_bench 5 3 56 2 (piece partial_content ∷ []) refl refl tt
      partial_content-IsImage partial_let_through (inl (ground arith)) (ground arith) 9 10 0 0
      (io_error 13 "") other_handle refl refl refl refl refl
