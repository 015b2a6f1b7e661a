-- ===== src/Examples/Keys.antt =====
-- The theorem on the filter of the client's input, at a cursor key that comes in pieces.
use telnetlib.Prelude.{[], ◌∷◌, ◌++◌, some, ◌≡◌, refl, arith, Bytes}
use telnetlib.Shell.InputFilter.{InputFilter, new_filter, sort_sequences, insert_sequence, feed}
use telnetlib.Reader.Reads.{starts_with}
use telnetlib.Shell.InputFilter.Pieces.{feed_both, feed_in_pieces}
use telnetlib.Shell.InputFilter.Tables.{atascii_bytes, atascii_sequences}

abbrev atascii : InputFilter
atascii = new_filter atascii_sequences atascii_bytes

-- ESC and [ of a cursor key, and its A with a DEL behind it
abbrev key_start : Bytes
key_start = b'x' ∷ 27 ∷ b'[' ∷ []

abbrev key_end : Bytes
key_end = b'A' ∷ 127 ∷ []

feed_in_pieces_example :
    (r : Bytes × InputFilter) × (feed 10 (key_start ++ key_end) atascii ≡ some r)
    × (feed_both 10 key_start key_end atascii ≡ some r)
unfolding sort_sequences insert_sequence starts_with
feed_in_pieces_example = feed_in_pieces atascii key_start key_end 10 refl (omega arith)
