-- ===== src/Server/Names.antt =====
-- Texts of server.py and fingerprinting.py: keys of `_extra`, names that are asked for and names of
-- terminals.
use telnetlib.Prelude.{List, [], ◌∷◌, Bytes}

abbrev pub key_term : Bytes
key_term = b'T' ∷ b'E' ∷ b'R' ∷ b'M' ∷ []

abbrev pub key_lang : Bytes
key_lang = b'L' ∷ b'A' ∷ b'N' ∷ b'G' ∷ []

abbrev pub key_charset : Bytes
key_charset = b'C' ∷ b'H' ∷ b'A' ∷ b'R' ∷ b'S' ∷ b'E' ∷ b'T' ∷ []

abbrev pub info_charset : Bytes
info_charset = b'c' ∷ b'h' ∷ b'a' ∷ b'r' ∷ b's' ∷ b'e' ∷ b't' ∷ []

abbrev pub info_rows : Bytes
info_rows = b'r' ∷ b'o' ∷ b'w' ∷ b's' ∷ []

abbrev pub info_cols : Bytes
info_cols = b'c' ∷ b'o' ∷ b'l' ∷ b's' ∷ []

abbrev pub info_tspeed : Bytes
info_tspeed = b't' ∷ b's' ∷ b'p' ∷ b'e' ∷ b'e' ∷ b'd' ∷ []

abbrev pub info_xdisploc : Bytes
info_xdisploc = b'x' ∷ b'd' ∷ b'i' ∷ b's' ∷ b'p' ∷ b'l' ∷ b'o' ∷ b'c' ∷ []

abbrev pub info_term : Bytes
info_term = b't' ∷ b'e' ∷ b'r' ∷ b'm' ∷ []

abbrev pub info_timeout : Bytes
info_timeout = b't' ∷ b'i' ∷ b'm' ∷ b'e' ∷ b'o' ∷ b'u' ∷ b't' ∷ []

abbrev pub ansi : Bytes
ansi = b'A' ∷ b'N' ∷ b'S' ∷ b'I' ∷ []

abbrev pub vt100 : Bytes
vt100 = b'V' ∷ b'T' ∷ b'1' ∷ b'0' ∷ b'0' ∷ []

abbrev pub mtts : Bytes
mtts = b'M' ∷ b'T' ∷ b'T' ∷ b'S' ∷ b' ' ∷ []

abbrev pub user : Bytes
user = b'U' ∷ b'S' ∷ b'E' ∷ b'R' ∷ []

abbrev pub us_ascii : Bytes
us_ascii = b'U' ∷ b'S' ∷ b'-' ∷ b'A' ∷ b'S' ∷ b'C' ∷ b'I' ∷ b'I' ∷ []

abbrev pub lang_c : Bytes
lang_c = b'C' ∷ []

-- MUD_TERMINALS
abbrev pub mud_terminals : List Bytes
mud_terminals =
    (b'm' ∷ b'u' ∷ b'd' ∷ b'l' ∷ b'e' ∷ b't' ∷ [])
    ∷ (b'c' ∷ b'm' ∷ b'u' ∷ b'd' ∷ [])
    ∷ (b'z' ∷ b'm' ∷ b'u' ∷ b'd' ∷ [])
    ∷ (b'm' ∷ b'u' ∷ b's' ∷ b'h' ∷ b'c' ∷ b'l' ∷ b'i' ∷ b'e' ∷ b'n' ∷ b't' ∷ [])
    ∷ (b'a' ∷ b't' ∷ b'l' ∷ b'a' ∷ b'n' ∷ b't' ∷ b'i' ∷ b's' ∷ [])
    ∷ (b't' ∷ b'i' ∷ b'n' ∷ b't' ∷ b'i' ∷ b'n' ∷ b'+' ∷ b'+' ∷ [])
    ∷ (b't' ∷ b't' ∷ b'+' ∷ b'+' ∷ [])
    ∷ (b'b' ∷ b'l' ∷ b'o' ∷ b'w' ∷ b't' ∷ b'o' ∷ b'r' ∷ b'c' ∷ b'h' ∷ [])
    ∷ (b'm' ∷ b'u' ∷ b'd' ∷ b'r' ∷ b'a' ∷ b'm' ∷ b'm' ∷ b'e' ∷ b'r' ∷ [])
    ∷ (b'k' ∷ b'i' ∷ b'l' ∷ b'd' ∷ b'c' ∷ b'l' ∷ b'i' ∷ b'e' ∷ b'n' ∷ b't' ∷ [])
    ∷ (b'p' ∷ b'o' ∷ b'r' ∷ b't' ∷ b'a' ∷ b'l' ∷ [])
    ∷ (b'b' ∷ b'e' ∷ b'i' ∷ b'p' ∷ [])
    ∷ (b's' ∷ b'a' ∷ b'v' ∷ b'i' ∷ b't' ∷ b'a' ∷ b'r' ∷ [])
    ∷ []

-- the variables of `on_request_environ`, but for USER
abbrev pub environ_names : List Bytes
environ_names =
    (b'L' ∷ b'O' ∷ b'G' ∷ b'N' ∷ b'A' ∷ b'M' ∷ b'E' ∷ [])
    ∷ (b'D' ∷ b'I' ∷ b'S' ∷ b'P' ∷ b'L' ∷ b'A' ∷ b'Y' ∷ [])
    ∷ (b'L' ∷ b'A' ∷ b'N' ∷ b'G' ∷ [])
    ∷ (b'T' ∷ b'E' ∷ b'R' ∷ b'M' ∷ [])
    ∷ (b'T' ∷ b'E' ∷ b'R' ∷ b'M' ∷ b'_' ∷ b'P' ∷ b'R' ∷ b'O' ∷ b'G' ∷ b'R' ∷ b'A' ∷ b'M' ∷ [])
    ∷ (b'C' ∷ b'O' ∷ b'L' ∷ b'U' ∷ b'M' ∷ b'N' ∷ b'S' ∷ [])
    ∷ (b'L' ∷ b'I' ∷ b'N' ∷ b'E' ∷ b'S' ∷ [])
    ∷ (b'C' ∷ b'O' ∷ b'L' ∷ b'O' ∷ b'R' ∷ b'T' ∷ b'E' ∷ b'R' ∷ b'M' ∷ [])
    ∷ (b'E' ∷ b'D' ∷ b'I' ∷ b'T' ∷ b'O' ∷ b'R' ∷ [])
    ∷ (b'I' ∷ b'P' ∷ b'A' ∷ b'D' ∷ b'D' ∷ b'R' ∷ b'E' ∷ b'S' ∷ b'S' ∷ [])
    ∷ []

-- on_request_charset
abbrev pub charset_names : List Bytes
charset_names =
    (b'U' ∷ b'T' ∷ b'F' ∷ b'-' ∷ b'8' ∷ [])
    ∷ (b'U' ∷ b'T' ∷ b'F' ∷ b'-' ∷ b'1' ∷ b'6' ∷ [])
    ∷ (b'L' ∷ b'A' ∷ b'T' ∷ b'I' ∷ b'N' ∷ b'1' ∷ [])
    ∷ (b'C' ∷ b'P' ∷ b'1' ∷ b'2' ∷ b'5' ∷ b'2' ∷ [])
    ∷ (b'I' ∷ b'S' ∷ b'O' ∷ b'-' ∷ b'8' ∷ b'8' ∷ b'5' ∷ b'9' ∷ b'-' ∷ b'1' ∷ b'5' ∷ [])
    ∷ (b'C' ∷ b'P' ∷ b'4' ∷ b'3' ∷ b'7' ∷ [])
    ∷ (b'S' ∷ b'H' ∷ b'I' ∷ b'F' ∷ b'T' ∷ b'_' ∷ b'J' ∷ b'I' ∷ b'S' ∷ [])
    ∷ (b'C' ∷ b'P' ∷ b'9' ∷ b'3' ∷ b'2' ∷ [])
    ∷ (b'B' ∷ b'I' ∷ b'G' ∷ b'5' ∷ [])
    ∷ (b'C' ∷ b'P' ∷ b'9' ∷ b'5' ∷ b'0' ∷ [])
    ∷ (b'G' ∷ b'B' ∷ b'K' ∷ [])
    ∷ (b'G' ∷ b'B' ∷ b'2' ∷ b'3' ∷ b'1' ∷ b'2' ∷ [])
    ∷ (b'C' ∷ b'P' ∷ b'9' ∷ b'3' ∷ b'6' ∷ [])
    ∷ (b'E' ∷ b'U' ∷ b'C' ∷ b'-' ∷ b'K' ∷ b'R' ∷ [])
    ∷ (b'C' ∷ b'P' ∷ b'9' ∷ b'4' ∷ b'9' ∷ [])
    ∷ (b'U' ∷ b'S' ∷ b'-' ∷ b'A' ∷ b'S' ∷ b'C' ∷ b'I' ∷ b'I' ∷ [])
    ∷ []
