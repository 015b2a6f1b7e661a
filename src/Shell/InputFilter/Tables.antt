-- ===== src/Shell/InputFilter/Tables.antt =====
-- client_shell.py: `_INPUT_XLAT` and `_INPUT_SEQ_XLAT`.
use telnetlib.Prelude.{ℕ, [], ◌∷◌, Bytes}
use telnetlib.Dict.{Dict}

abbrev pub atascii_bytes : Dict ℕ ℕ
atascii_bytes = (127, 126) ∷ (8, 126) ∷ (13, 155) ∷ (10, 155) ∷ []

abbrev pub petscii_bytes : Dict ℕ ℕ
petscii_bytes = (127, 20) ∷ (8, 20) ∷ []

abbrev pub atascii_sequences : Dict Bytes Bytes
atascii_sequences =
    ((27 ∷ 91 ∷ 65 ∷ []), (28 ∷ []))
    ∷ ((27 ∷ 91 ∷ 66 ∷ []), (29 ∷ []))
    ∷ ((27 ∷ 91 ∷ 67 ∷ []), (31 ∷ []))
    ∷ ((27 ∷ 91 ∷ 68 ∷ []), (30 ∷ []))
    ∷ ((27 ∷ 79 ∷ 65 ∷ []), (28 ∷ []))
    ∷ ((27 ∷ 79 ∷ 66 ∷ []), (29 ∷ []))
    ∷ ((27 ∷ 79 ∷ 67 ∷ []), (31 ∷ []))
    ∷ ((27 ∷ 79 ∷ 68 ∷ []), (30 ∷ []))
    ∷ ((27 ∷ 91 ∷ 51 ∷ 126 ∷ []), (126 ∷ []))
    ∷ ((9 ∷ []), (127 ∷ []))
    ∷ []

abbrev pub petscii_sequences : Dict Bytes Bytes
petscii_sequences =
    ((27 ∷ 91 ∷ 65 ∷ []), (145 ∷ []))
    ∷ ((27 ∷ 91 ∷ 66 ∷ []), (17 ∷ []))
    ∷ ((27 ∷ 91 ∷ 67 ∷ []), (29 ∷ []))
    ∷ ((27 ∷ 91 ∷ 68 ∷ []), (157 ∷ []))
    ∷ ((27 ∷ 79 ∷ 65 ∷ []), (145 ∷ []))
    ∷ ((27 ∷ 79 ∷ 66 ∷ []), (17 ∷ []))
    ∷ ((27 ∷ 79 ∷ 67 ∷ []), (29 ∷ []))
    ∷ ((27 ∷ 79 ∷ 68 ∷ []), (157 ∷ []))
    ∷ ((27 ∷ 91 ∷ 51 ∷ 126 ∷ []), (20 ∷ []))
    ∷ ((27 ∷ 91 ∷ 72 ∷ []), (19 ∷ []))
    ∷ ((27 ∷ 91 ∷ 50 ∷ 126 ∷ []), (148 ∷ []))
    ∷ []
