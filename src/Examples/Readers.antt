-- ===== src/Examples/Readers.antt =====
-- The theorems on the reader, at a line that comes in pieces.
use telnetlib.Prelude.{true, [], ◌∷◌, ◌≡◌, refl, arith, Bytes, List}
use telnetlib.Reader.{Reader, returned, pausable, unpausable, data_fed}
use telnetlib.Reader.Reads.{find, starts_with, readuntil}
use telnetlib.Reader.Plain.{search_until}
use telnetlib.Reader.Until.{forget, readuntil-search_until}
use telnetlib.Reader.Delivery.{schedule_of, readuntil_delivers}
use telnetlib.Reader.Flow.{IsFlowing}
use telnetlib.Reader.Flow.Calls.{
  until, line, here, called, new_reader, after_call, reader-IsFlowing,
}

abbrev line_end : Bytes
line_end = 13 ∷ 10 ∷ []

-- a reader with an H in its buffer
abbrev begun : Reader
begun = record (new_reader 5 unpausable) { buffer = b'H' ∷ [] }

-- the line end is divided, and an empty piece comes between
abbrev pieces : List (List Bytes)
pieces = ((b'P' ∷ []) ∷ (13 ∷ []) ∷ []) ∷ ([] ∷ []) ∷ ((10 ∷ b'!' ∷ []) ∷ []) ∷ []

readuntil_delivers_example :
    (readuntil line_end (schedule_of pieces) begun).0 ≡ returned (b'H' ∷ b'P' ∷ 13 ∷ 10 ∷ [])
unfolding find starts_with
readuntil_delivers_example =
    readuntil_delivers line_end 2 pieces begun (omega arith) refl refl refl (omega arith) refl

readuntil-search_until_example :
    forget (readuntil line_end (schedule_of pieces) begun)
    ≡ search_until line_end (schedule_of pieces) begun
readuntil-search_until_example = readuntil-search_until line_end (schedule_of pieces) begun

-- thirteen bytes pause the transport, and a line leaves ten
abbrev many_bytes : Bytes
many_bytes = 1 ∷ 2 ∷ 10 ∷ 4 ∷ 5 ∷ 6 ∷ 7 ∷ 8 ∷ 9 ∷ 11 ∷ 12 ∷ 14 ∷ 15 ∷ []

abbrev fed_reader : Reader
fed_reader =
    after_call (until line_end) (((data_fed many_bytes) ∷ []) ∷ []) (new_reader 5 (pausable true))

reader-IsFlowing_example : IsFlowing (after_call line [] fed_reader)
reader-IsFlowing_example =
    reader-IsFlowing 5 (pausable true) (after_call line [] fed_reader) refl
      (called (called here (until line_end) ((data_fed many_bytes ∷ []) ∷ [])) line [])
