-- ===== src/Subneg/Payloads.antt =====
-- stream_writer.py: `_handle_sb_comport` and the handlers of GMCP, MSDP, MSSP, ZMP, AARDWOLF and
-- ATCP, for the bytes behind the option.
use telnetlib.Prelude.{ℕ, [], ◌∷◌, Option, none, some, if◌then◌else◌, ◌==◌, nat_eq, Bytes}
use telnetlib.Telopt.{
  opt_com_port_option, opt_gmcp, opt_msdp, opt_mssp, opt_zmp, opt_aardwolf, opt_atcp,
}
use telnetlib.Exec.{ok, err, pure, raise, gets, modify, ◌>>=◌, no_return, value_error}
use telnetlib.Mud.Codecs.{gmcp_decode, zmp_decode, atcp_decode, aardwolf_decode}
use telnetlib.Mud.Msdp.{done, out_of_fuel, msdp_decode}
use telnetlib.Mud.Mssp.{mssp_decode}
use telnetlib.Comport.{comport_store, comport_of}
use telnetlib.Session.{
  Session, Act, call, gmcp_called, msdp_called, mssp_called, zmp_called, aardwolf_called,
  atcp_called,
}
use telnetlib.Session.Payloads.{Codec}

-- _handle_sb_comport
unfoldable pub handle_sb_comport : Bytes → Act (Unit {0})
handle_sb_comport [] = pure tt
handle_sb_comport (subcmd ∷ payload) = modify (λ s. record s {
  comport_data = some (comport_store subcmd payload (comport_of s.comport_data));
})

-- "utf-8"
abbrev pub utf_8 : Bytes
utf_8 = 117 ∷ 116 ∷ 102 ∷ 45 ∷ 56 ∷ []

-- `self.environ_encoding or "utf-8"`
abbrev pub payload_encoding : Bytes → Bytes
payload_encoding [] = utf_8
payload_encoding (c ∷ cs) = c ∷ cs

module _ (codec : Codec) where
  -- the decoder for the session's encoding
  abbrev pub payload_decode : Session → Bytes → Option Bytes
  payload_decode s = codec.decode (payload_encoding s.environ_encoding)

  -- _handle_sb_gmcp
  unfoldable pub handle_sb_gmcp : Bytes → Act (Unit {0})
  handle_sb_gmcp buf = do
    decode ← gets payload_decode
    elim (gmcp_decode codec.json decode buf) [
      | err x ↦ raise x
      | ok (name, data_) ↦ call (gmcp_called name data_)
    ]

  -- _handle_sb_msdp, with the fuel given
  unfoldable pub handle_sb_msdp : ℕ → Bytes → Act (Unit {0})
  handle_sb_msdp fuel buf = do
    decode ← gets payload_decode
    elim (msdp_decode decode fuel buf) [
      | done variables rest ↦ call (msdp_called variables)
      | out_of_fuel ↦ raise no_return
    ]

  -- _handle_sb_mssp, with the fuel given
  unfoldable pub handle_sb_mssp : ℕ → Bytes → Act (Unit {0})
  handle_sb_mssp fuel buf = do
    decode ← gets payload_decode
    elim (mssp_decode decode fuel buf) [
      | some variables ↦ call (mssp_called variables)
      | none ↦ raise no_return
    ]

  -- _handle_sb_zmp
  unfoldable pub handle_sb_zmp : Bytes → Act (Unit {0})
  handle_sb_zmp buf = do decode ← gets payload_decode; call (zmp_called (zmp_decode decode buf))

  -- _handle_sb_aardwolf
  unfoldable pub handle_sb_aardwolf : Bytes → Act (Unit {0})
  handle_sb_aardwolf buf = call (aardwolf_called (aardwolf_decode buf))

  -- _handle_sb_atcp
  unfoldable pub handle_sb_atcp : Bytes → Act (Unit {0})
  handle_sb_atcp buf = do
    decode ← gets payload_decode
    let (name, value) = atcp_decode decode buf in call (atcp_called name value)

  -- The entries of `fn_call` for these options.
  unfoldable pub handle_sb_mud : ℕ → ℕ → Bytes → Act (Unit {0})
  handle_sb_mud fuel cmd buf =
      if cmd == opt_com_port_option
      then handle_sb_comport buf
      else if cmd == opt_gmcp
      then handle_sb_gmcp buf
      else if cmd == opt_msdp
      then handle_sb_msdp fuel buf
      else if cmd == opt_mssp
      then handle_sb_mssp fuel buf
      else if cmd == opt_zmp
      then handle_sb_zmp buf
      else if cmd == opt_aardwolf
      then handle_sb_aardwolf buf
      else if cmd == opt_atcp
      then handle_sb_atcp buf
      else raise value_error
