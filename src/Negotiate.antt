-- ===== src/Negotiate.antt =====
-- stream_writer.py: `handle_do`, `handle_dont`, `handle_will`, `handle_wont` and `handle_logout`,
-- with the callbacks that the writer registers by default.
pub mod Replies
use telnetlib.Prelude.{
  ℕ, Bool, true, false, ◌&&◌, ◌||◌, not, [], ◌∷◌, none, some, if◌then◌else◌, ◌==◌, nat_eq, bytes_eq,
  Bytes, elem,
}
use telnetlib.Telopt.{
  cmd_iac, cmd_do, cmd_dont, cmd_will, cmd_wont, cmd_sb, cmd_se, opt_binary, opt_echo, opt_sga,
  opt_status, opt_tm, opt_logout, opt_sndloc, opt_ttype, opt_eor, opt_naws, opt_tspeed, opt_lflow,
  opt_linemode, opt_xdisploc, opt_new_environ, opt_charset, opt_com_port_option, opt_msdp, opt_mssp,
  opt_mccp2_compress, opt_mccp3_compress, opt_msp, opt_mxp, opt_zmp, opt_aardwolf, opt_atcp,
  opt_gmcp,
}
use telnetlib.Exec.{Exec, pure, raise, gets, modify, ◌>>=◌, ◌>>◌, when, value_error}
use telnetlib.Slc.Objects.{slc_default}
use telnetlib.Slc.Change.{slc_add}
use telnetlib.Host.{Host}
use telnetlib.Session.{
  Session, Act, iac_called, enabled, remote_enabled, local_enabled, pending_enabled, set_pending,
  set_local, set_remote, send_iac, call, add, on_tabs,
}
use telnetlib.Session.Iac.{iac}
use telnetlib.Session.Requests.{
  request_status, request_comport_signature, request_send, request_charset, request_environ,
  send_lineflow_mode, send_linemode, slc_start, slc_end, send_naws, send_status,
}

-- _MUD_PROTOCOL_OPTIONS
abbrev pub mud_protocol_options : Bytes
mud_protocol_options =
    opt_gmcp ∷ opt_msdp ∷ opt_mssp ∷ opt_msp ∷ opt_mxp ∷ opt_zmp ∷ opt_aardwolf ∷ opt_atcp ∷ []

-- the options that only a client performs
abbrev pub client_options : Bytes
client_options =
    opt_linemode ∷ opt_ttype ∷ opt_naws ∷ opt_new_environ ∷ opt_xdisploc ∷ opt_lflow ∷ opt_tspeed
    ∷ opt_sndloc ∷ []

-- the options that `handle_do` agrees to
abbrev pub do_options : Bytes
do_options =
    opt_echo ∷ opt_linemode ∷ opt_binary ∷ opt_sga ∷ opt_lflow ∷ opt_eor ∷ opt_ttype
    ∷ opt_new_environ ∷ opt_xdisploc ∷ opt_tspeed ∷ opt_charset ∷ opt_naws ∷ opt_status
    ∷ opt_mccp2_compress ∷ opt_gmcp ∷ opt_msdp ∷ opt_mssp ∷ opt_msp ∷ opt_mxp ∷ opt_zmp
    ∷ opt_aardwolf ∷ opt_atcp ∷ []

-- `self.compression is False or self.get_extra_info("ssl_object") is not None`
abbrev pub no_compression : Session → Bool
no_compression s = s.tls || (elim s.compression [ none ↦ false | some wanted ↦ not wanted ])

-- `if not self.local_option.enabled(opt): self.iac(cmd, opt)`
unfoldable pub unless_local : ℕ → ℕ → Act (Unit {0})
unless_local cmd opt = do
  on ← gets (λ s. local_enabled s opt)
  if on then pure tt else (iac cmd opt >>= λ _. pure tt)

-- handle_logout, the default callback of LOGOUT; DO closes the transport
unfoldable pub handle_logout : ℕ → Act (Unit {0})
handle_logout cmd =
    if cmd == cmd_do
    then modify (λ s. record s { closing = true })
    else if cmd == cmd_will
    then (iac cmd_dont opt_logout >>= λ _. pure tt)
    else pure tt

-- handle_dont
unfoldable pub handle_dont : ℕ → Act (Unit {0})
handle_dont opt = when (opt == opt_logout) (handle_logout cmd_dont)

-- the options that `handle_will` agrees to with DO
abbrev pub will_options : Bytes
will_options =
    opt_binary ∷ opt_sga ∷ opt_echo ∷ opt_naws ∷ opt_linemode ∷ opt_eor ∷ opt_sndloc
    ∷ opt_com_port_option ∷ opt_mccp2_compress ∷ opt_mccp3_compress ∷ opt_gmcp ∷ opt_msdp ∷ opt_mssp
    ∷ opt_msp ∷ opt_mxp ∷ opt_zmp ∷ opt_aardwolf ∷ opt_atcp ∷ []

-- those that it answers with a request
abbrev pub reported_options : Bytes
reported_options =
    opt_xdisploc ∷ opt_ttype ∷ opt_tspeed ∷ opt_new_environ ∷ opt_lflow ∷ opt_charset ∷ []

-- `if not self.remote_option.enabled(opt): self.iac(DO, opt); self.remote_option[opt] = True`
unfoldable pub accept_will : ℕ → Act (Unit {0})
accept_will opt = do
  on ← gets (λ s. remote_enabled s opt)
  if on then pure tt else (do iac cmd_do opt; modify (set_remote (opt ∷ []) true))

-- self.default_linemode: LMODE_MODE_REMOTE and LMODE_MODE_LIT_ECHO
abbrev pub default_linemode : ℕ
default_linemode = 16

-- what `handle_will` does once it has agreed
unfoldable pub will_follow_up : ℕ → Act (Unit {0})
will_follow_up opt = do
  client ← gets (λ s. not s.server)
  when (elem opt (opt_naws ∷ opt_linemode ∷ opt_sndloc ∷ opt_mxp ∷ [])) (do
    modify (set_pending cmd_sb opt true)
    when (opt == opt_linemode) (send_linemode default_linemode))
  when (opt == opt_com_port_option && client) (request_comport_signature >>= λ _. pure tt)
  when (opt == opt_mccp3_compress && client) (do
    send_iac (cmd_iac ∷ cmd_sb ∷ opt_mccp3_compress ∷ cmd_iac ∷ cmd_se ∷ [])
    modify (λ s. record s { mccp3_active = true }))

-- The first branch of `handle_will` behind `always_dont`.
unfoldable pub will_known : ℕ → Act (Unit {0})
will_known opt = do
  s ← gets (λ s. s)
  if opt == opt_echo && s.server
      then raise value_error
      else if elem opt (opt_naws ∷ opt_linemode ∷ opt_sndloc ∷ []) && not s.server
      then (do
        iac cmd_dont opt
        modify (λ t. record t { directional_refusals = add opt t.directional_refusals }))
      else if not s.server && elem opt mud_protocol_options
      then (if elem opt s.always_do || elem opt s.passive_do
          then accept_will opt
          else (iac cmd_dont opt >>= λ _. pure tt))
      else if elem opt (opt_mccp2_compress ∷ opt_mccp3_compress ∷ []) && no_compression s
      then (iac cmd_dont opt >>= λ _. pure tt)
      else (do accept_will opt; will_follow_up opt)

module _ (host : Host) where
  -- what `handle_do` does once it has agreed
  unfoldable pub do_follow_up : ℕ → Act (Unit {0})
  do_follow_up opt =
      if opt == opt_naws
      then send_naws host
      else if opt == opt_status
      then send_status
      else when
          (elem opt (
            opt_lflow ∷ opt_ttype ∷ opt_new_environ ∷ opt_xdisploc ∷ opt_tspeed ∷ opt_linemode
            ∷ opt_mxp ∷ []))
          (do
            modify (set_pending cmd_sb opt true)
            client ← gets (λ s. not s.server)
            when (opt == opt_linemode && client) (do
              modify (set_local (opt_linemode ∷ []) true)
              slc_start
              on_tabs (slc_add 0 (record { mask = slc_default; val = 0 }))
              slc_end))

  -- The branch of `handle_do` for the options that it knows.
  unfoldable pub do_known : ℕ → Act Bool
  do_known opt = do
    declines ← gets (λ s. not s.server && elem opt mud_protocol_options)
    wanted ← gets (λ s. elem opt s.always_will)
    barred ← gets (λ s. elem opt (opt_mccp2_compress ∷ opt_mccp3_compress ∷ []) && no_compression s)
    if declines
        then (if wanted
            then (do unless_local cmd_will opt; pure true)
            else (do unless_local cmd_wont opt; pure false))
        else if barred
        then (do iac cmd_wont opt; pure false)
        else (do unless_local cmd_will opt; do_follow_up opt; pure true)

  -- handle_do
  unfoldable pub handle_do : ℕ → Act Bool
  handle_do opt = do
    s ← gets (λ s. s)
    if elem opt s.always_wont
        then (do unless_local cmd_wont opt; pure false)
        else if opt == opt_echo && not s.server
        then (do iac cmd_wont opt_echo; pure true)
        else if s.server && elem opt client_options
        then (do
          iac cmd_wont opt
          modify (λ t. record t { directional_refusals = add opt t.directional_refusals })
          pure true)
        else if not s.server && opt == opt_logout
        then raise value_error
        else if opt == opt_tm
        then (do iac cmd_will opt_tm; call (iac_called opt_tm cmd_do); pure true)
        else if opt == opt_logout
        then (do handle_logout cmd_do; pure true)
        else if elem opt do_options
        then do_known opt
        else if elem opt s.always_will
        then (do unless_local cmd_will opt; pure true)
        else (do
          modify (λ t. record t { rejected_do = add opt t.rejected_do })
          unless_local cmd_wont opt
          pure false)

  -- the table of requests of `handle_will`; LFLOW is what is left
  unfoldable pub will_request : ℕ → Act (Unit {0})
  will_request opt =
      if opt == opt_xdisploc || opt == opt_ttype || opt == opt_tspeed
      then (request_send opt >>= λ _. pure tt)
      else if opt == opt_charset
      then (request_charset host >>= λ _. pure tt)
      else if opt == opt_new_environ
      then (request_environ host >>= λ _. pure tt)
      else (send_lineflow_mode >>= λ _. pure tt)

  -- The branch of `handle_will` for XDISPLOC, TTYPE, TSPEED, NEW_ENVIRON, LFLOW and CHARSET.
  unfoldable pub will_reported : ℕ → Act (Unit {0})
  will_reported opt = do
    server ← gets (λ s. s.server)
    if not server && not (opt == opt_charset)
        then (do
          iac cmd_dont opt
          modify (λ t. record t { directional_refusals = add opt t.directional_refusals }))
        else (do
          when (opt == opt_charset && not server) (iac cmd_do opt_charset >>= λ _. pure tt)
          modify (set_remote (opt ∷ []) true)
          offered ← gets (λ s. local_enabled s opt_charset)
          when (opt == opt_charset && server && not offered) (do
            modify (set_local (opt_charset ∷ []) true)
            send_iac (cmd_iac ∷ cmd_will ∷ opt_charset ∷ []))
          when (not (opt == opt_charset && not server)) (will_request opt))

  -- handle_will
  unfoldable pub handle_will : ℕ → Act (Unit {0})
  handle_will opt = do
    s ← gets (λ s. s)
    if elem opt s.always_dont
        then (do iac cmd_dont opt; modify (set_remote (opt ∷ []) false))
        else if elem opt will_options
        then will_known opt
        else if opt == opt_tm
        then (if not (pending_enabled s cmd_do opt_tm)
            then raise value_error
            else (do call (iac_called opt_tm cmd_will); modify (set_remote (opt_tm ∷ []) true)))
        else if opt == opt_logout
        then (if not s.server then raise value_error else handle_logout cmd_will)
        else if opt == opt_status
        then (do modify (set_remote (opt_status ∷ []) true); request_status; pure tt)
        else if elem opt reported_options
        then will_reported opt
        else if elem opt s.always_do
        then accept_will opt
        else (do
          iac cmd_dont opt
          modify (λ t. record t { rejected_will = add opt t.rejected_will })
          waiting ← gets (λ t. pending_enabled t cmd_do opt)
          when waiting (modify (set_pending cmd_do opt false)))

-- handle_wont
unfoldable pub handle_wont : ℕ → Act (Unit {0})
handle_wont opt = do
  waiting ← gets (λ s. pending_enabled s cmd_do opt_tm)
  if opt == opt_tm && not waiting
      then raise value_error
      else if opt == opt_tm
      then modify (set_remote (opt ∷ []) false)
      else if opt == opt_logout
      then handle_logout cmd_wont
      else modify (set_remote (opt ∷ []) false)
