-- ===== src/Subneg.antt =====
-- stream_writer.py: `handle_subnegotiation`, and the handlers of STATUS, MSP, MXP, MCCP2 and MCCP3.
-- The handlers of COM_PORT_OPTION, GMCP, MSDP, MSSP, ZMP, AARDWOLF and ATCP are the parameter `mud`;
-- Subneg.Payloads has the ones of the class.
pub mod Terminal
pub mod Linemode
pub mod Texts
pub mod Payloads
use telnetlib.Prelude.{
  ℕ, Bool, true, false, not, ◌&&◌, ◌||◌, [], ◌∷◌, if◌then◌else◌, ◌==◌, nat_eq, Bytes, elem,
}
use telnetlib.Telopt.{
  cmd_sb, sub_is, sub_send, opt_status, opt_sndloc, opt_ttype, opt_naws, opt_tspeed, opt_lflow,
  opt_linemode, opt_xdisploc, opt_new_environ, opt_charset, opt_com_port_option, opt_msdp, opt_mssp,
  opt_mccp2_compress, opt_mccp3_compress, opt_msp, opt_mxp, opt_zmp, opt_aardwolf, opt_atcp,
  opt_gmcp,
}
use telnetlib.Exec.{Exec, pure, raise, gets, modify, ◌>>=◌, ◌>>◌, when, value_error, index_error}
use telnetlib.Host.{Host}
use telnetlib.Session.{Session, Act, sb_called, mccp2_called, pending_enabled, set_pending, call}
use telnetlib.Session.Requests.{send_status}
use telnetlib.Subneg.Terminal.{
  handle_sb_naws, handle_sb_lflow, handle_sb_tspeed, handle_sb_ttype, handle_sb_xdisploc,
  handle_sb_sndloc,
}
use telnetlib.Subneg.Linemode.{handle_sb_linemode}
use telnetlib.Subneg.Texts.{handle_sb_charset, handle_sb_environ}

-- _EMPTY_SB_OK
abbrev pub empty_sb_ok : Bytes
empty_sb_ok =
    opt_mxp ∷ opt_msp ∷ opt_zmp ∷ opt_aardwolf ∷ opt_atcp ∷ opt_mccp2_compress ∷ opt_mccp3_compress
    ∷ []

-- _handle_sb_status; `_receive_status` only logs
unfoldable pub handle_sb_status : Bytes → Act (Unit {0})
handle_sb_status [] = raise index_error
handle_sb_status (opt ∷ buf) =
    if opt == sub_send then send_status else if opt == sub_is then pure tt else raise value_error

abbrev pub is_nil : Bytes → Bool
is_nil [] = true
is_nil (c ∷ cs) = false

module _ (host : Host) (mud : ℕ → Bytes → Act (Unit {0})) where
  -- the dict `fn_call`
  unfoldable pub fn_call : ℕ → Bytes → Act (Unit {0})
  fn_call cmd buf =
      if cmd == opt_linemode
      then handle_sb_linemode buf
      else if cmd == opt_lflow
      then handle_sb_lflow buf
      else if cmd == opt_naws
      then handle_sb_naws buf
      else if cmd == opt_sndloc
      then handle_sb_sndloc buf
      else if cmd == opt_new_environ
      then handle_sb_environ host buf
      else if cmd == opt_charset
      then handle_sb_charset host buf
      else if cmd == opt_ttype
      then handle_sb_ttype host buf
      else if cmd == opt_tspeed
      then handle_sb_tspeed host buf
      else if cmd == opt_xdisploc
      then handle_sb_xdisploc host buf
      else if cmd == opt_status
      then handle_sb_status buf
      else if cmd == opt_msp || cmd == opt_mxp
      then call (sb_called cmd buf)
      else if cmd == opt_mccp2_compress
      then (do modify (λ s. record s { mccp2_activated = true }); call mccp2_called)
      else if cmd == opt_mccp3_compress
      then modify (λ s. record s { mccp3_active = true })
      else if elem cmd (
          opt_com_port_option ∷ opt_gmcp ∷ opt_msdp ∷ opt_mssp ∷ opt_zmp ∷ opt_aardwolf ∷ opt_atcp
          ∷ [])
      then mud cmd buf
      else raise value_error

  -- handle_subnegotiation
  unfoldable pub handle_subnegotiation : Bytes → Act (Unit {0})
  handle_subnegotiation [] = raise value_error
  handle_subnegotiation (cmd ∷ buf) =
      if cmd == 0
      then raise value_error
      else if is_nil buf && not (elem cmd empty_sb_ok)
      then raise value_error
      else (do
        waiting ← gets (λ s. pending_enabled s cmd_sb cmd)
        when waiting (modify (set_pending cmd_sb cmd false))
        fn_call cmd buf)
