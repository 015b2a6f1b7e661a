-- ===== src/Host.antt =====
-- What the application gives the writer: the values that its registered callbacks return, and the
-- codec library. The writer calls `_ext_offer_callback` and `_ext_send_callback` for them.
use telnetlib.Prelude.{List, Bytes, Option}
use telnetlib.Dict.{Dict}
use telnetlib.Session.{EnvKey, ℤ}

pub record Host : Type 0 where
  -- the names offered by CHARSET, in ASCII
  pub charset_offers : List Bytes
  -- the variables asked for by NEW_ENVIRON
  pub environ_offers : List EnvKey
  -- rows and columns of the window
  pub rows : ℤ
  pub cols : ℤ
  -- str.encode(encoding, "replace")
  pub encode : Bytes → Bytes → Bytes
  -- bytes.decode(encoding, "replace"), for an encoding that the library knows, as `encode`
  pub decode : Bytes → Bytes → Bytes
  -- int(text), or ValueError
  pub parse_int : Bytes → Option ℤ
  -- what is sent for TTYPE and XDISPLOC, and the two speeds in decimal
  pub ttype : Bytes
  pub xdisploc : Bytes
  pub rx : Bytes
  pub tx : Bytes
  -- the variables sent for the names that are asked for
  pub environ_reply : List Bytes → Dict Bytes Bytes
  -- the choice from the character sets on offer
  pub charset_reply : List Bytes → Option Bytes
