-- ===== src/Comport.antt =====
-- stream_writer.py: the data of `_handle_sb_comport`, and what it stores.
use telnetlib.Prelude.{
  ℕ, ◌+◌, ◌*◌, ◌||◌, [], ◌∷◌, Option, none, some, if◌then◌else◌, ◌==◌, nat_eq, Bytes, ltb,
}

-- The texts of _COMPORT_PARITY and _COMPORT_STOPSIZE; an unknown one is "unknown-" with the number.
pub data Parity : Type 0 where
  parity_request parity_none parity_odd parity_even parity_mark parity_space : Parity
  parity_unknown : ℕ → Parity

pub data StopSize : Type 0 where
  stopsize_request stopsize_1 stopsize_2 stopsize_1_5 : StopSize
  stopsize_unknown : ℕ → StopSize

-- The dict `comport_data`; `none` for a key that it does not have.
pub record Comport : Type 0 where
  pub signature : Option Bytes
  pub baudrate : Option ℕ
  pub datasize : Option ℕ
  pub parity : Option Parity
  pub stopsize : Option StopSize
  pub control : Option ℕ
  pub linestate : Option ℕ
  pub modemstate : Option ℕ

-- _COMPORT_PARITY.get(parity, ...)
unfoldable pub parity_of : ℕ → Parity
parity_of parity =
    if parity == 0
    then parity_request
    else if parity == 1
    then parity_none
    else if parity == 2
    then parity_odd
    else if parity == 3
    then parity_even
    else if parity == 4
    then parity_mark
    else if parity == 5
    then parity_space
    else parity_unknown parity

-- _COMPORT_STOPSIZE.get(stopsize, ...)
unfoldable pub stopsize_of : ℕ → StopSize
stopsize_of stopsize =
    if stopsize == 0
    then stopsize_request
    else if stopsize == 1
    then stopsize_1
    else if stopsize == 2
    then stopsize_2
    else if stopsize == 3
    then stopsize_1_5
    else stopsize_unknown stopsize

-- payload.decode("ascii", errors="replace"): a byte that is not ASCII is U+FFFD
unfoldable pub ascii_replaced : Bytes → Bytes
ascii_replaced [] = []
ascii_replaced (c ∷ cs) = (if ltb c 128 then c else 65533) ∷ ascii_replaced cs

-- The branches of _handle_sb_comport for a payload of one byte.
unfoldable pub comport_byte : ℕ → ℕ → Comport → Comport
comport_byte subcmd c d =
    if subcmd == 0 || subcmd == 100
    then record d { signature = some (ascii_replaced (c ∷ [])) }
    else if subcmd == 2 || subcmd == 102
    then record d { datasize = some c }
    else if subcmd == 3 || subcmd == 103
    then record d { parity = some (parity_of c) }
    else if subcmd == 4 || subcmd == 104
    then record d { stopsize = some (stopsize_of c) }
    else if subcmd == 5 || subcmd == 105
    then record d { control = some c }
    else if subcmd == 6 || subcmd == 106
    then record d { linestate = some c }
    else if subcmd == 7 || subcmd == 107
    then record d { modemstate = some c }
    else d

-- The branches of SIGNATURE and of a baud rate in four bytes.
unfoldable pub comport_signature : ℕ → Bytes → Comport → Comport
comport_signature subcmd payload d =
    if subcmd == 0 || subcmd == 100
    then record d { signature = some (ascii_replaced payload) }
    else d

unfoldable pub comport_store : ℕ → Bytes → Comport → Comport
comport_store subcmd [] d = d
comport_store subcmd (c ∷ []) d = comport_byte subcmd c d
comport_store subcmd (a ∷ b ∷ c ∷ e ∷ []) d =
    if subcmd == 1 || subcmd == 101
    then record d { baudrate = some (((a * 256 + b) * 256 + c) * 256 + e) }
    else comport_signature subcmd (a ∷ b ∷ c ∷ e ∷ []) d
comport_store subcmd payload d = comport_signature subcmd payload d

abbrev pub no_comport : Comport
no_comport = record {
  signature = none;
  baudrate = none;
  datasize = none;
  parity = none;
  stopsize = none;
  control = none;
  linestate = none;
  modemstate = none;
}

-- `if self.comport_data is None: self.comport_data = {}`
abbrev pub comport_of : Option Comport → Comport
comport_of none = no_comport
comport_of (some d) = d
