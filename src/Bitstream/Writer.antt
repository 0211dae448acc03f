-- ===== src/Bitstream/Writer.antt =====
-- FpgaImageFileWriter (hardware.cpp): the callback that writes the image to a file.
use libdyplo.Prelude.{ℕ, List, [], ◌∷◌, ◌++◌, length, take, drop, min, ltb, leb, if◌then◌else◌}
use libdyplo.Effects.{ok, throw, fault, io_error, M}
use libdyplo.FileIo.{Answer, gives, fails}
use libdyplo.Bitstream.Reader.{Callback, buffer_size}

-- The buffer of the writer, what its file has received, and what `::write` will answer: how many
-- bytes it takes at most, or an error. Behind those answers it takes what it is given.
pub record Writer : Type 0 where
  pub buffer : List ℕ
  pub output : List ℕ
  pub answers : List Answer

abbrev pub written : ℕ → Writer → Writer
written n w = record w { output = w.output ++ take n w.buffer }

-- `output_file.write(buffer, length_bytes)`
unfoldable pub write_output : ℕ → List Answer → M Writer ℕ
write_output count [] w = (ok count, written count w)
write_output count (gives n ∷ answers) w =
    (ok (min n count), written (min n count) (record w { answers = answers }))
write_output count (fails e ∷ answers) w = (throw (io_error e ""), record w { answers = answers })

unfoldable pub begin_process_data : ℕ → M Writer ℕ
begin_process_data remaining w =
    (ok (if ltb buffer_size remaining then buffer_size else remaining), w)

-- A store through the granted pointer; the buffer is of BUFFER_SIZE bytes.
unfoldable pub store_bytes : List ℕ → M Writer (Unit {0})
store_bytes bytes w =
    if leb (length bytes) buffer_size
    then (ok tt, record w { buffer = bytes ++ drop (length bytes) w.buffer })
    else (fault, w)

unfoldable pub end_process_data : ℕ → M Writer ℕ
unfolding write_output
end_process_data count w = write_output count w.answers w

unfoldable pub verify_static_id : ℕ → M Writer (Unit {0})
verify_static_id id w = (ok tt, w)

abbrev pub file_writer : Callback Writer
file_writer = record {
  begin_process_data = begin_process_data;
  store = store_bytes;
  end_process_data = end_process_data;
  verify_static_id = verify_static_id;
}
