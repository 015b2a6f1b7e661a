-- ===== src/Server/Check.antt =====
-- server.py and server_base.py: what the server asks for to begin with, `check_negotiation` with
-- `_check_encoding`, and the timer that calls it.
pub mod Complete
pub mod Failed
pub mod Language
pub mod Steps
use telnetlib.Prelude.{
  ℕ, Bool, true, false, ◌&&◌, ◌||◌, not, List, [], ◌∷◌, Option, none, some, if◌then◌else◌, ◌==◌,
  bytes_eq, Bytes,
}
use telnetlib.Telopt.{
  cmd_do, cmd_will, cmd_sb, opt_binary, opt_sga, opt_naws, opt_ttype, opt_charset, opt_new_environ,
  opt_mccp2_compress, opt_mccp3_compress,
}
use telnetlib.Exec.{pure, gets, modify, ◌>>=◌, ◌>>◌, when}
use telnetlib.Host.{Host}
use telnetlib.Session.{Options, remote_enabled, local_enabled, pending_enabled}
use telnetlib.Session.Iac.{iac, refused}
use telnetlib.Session.Requests.{has_key, request_charset}
use telnetlib.Server.{Library, Protocol, Srv, on_session, is_blank}
use telnetlib.Server.Names.{charset_names}
use telnetlib.Server.Variables.{on_request_environ, inbinary, outbinary, encoding}
use telnetlib.Server.Terminal.{negotiate_environ, negotiate_echo}

-- `any(self.writer.pending_option.values())`, and the sum of the options that are on
unfoldable pub any_on : Options → Bool
any_on [] = false
any_on ((key, value) ∷ d) = value || any_on d

-- begin_negotiation of TelnetServer: the first check is scheduled, and TTYPE is asked for
unfoldable pub begin_negotiation : Srv (Unit {0})
begin_negotiation = do on_session (iac cmd_do opt_ttype); pure tt

-- begin_advanced_negotiation
unfoldable pub begin_advanced_negotiation : Srv (Unit {0})
begin_advanced_negotiation = do
  p ← gets (λ p. p)
  when (not p.line_mode) (do on_session (iac cmd_will opt_sga); pure tt)
  on_session (iac cmd_will opt_binary)
  on_session (iac cmd_do opt_naws)
  when (not (is_blank p.default_encoding)) (do on_session (iac cmd_do opt_charset); pure tt)
  when (p.mccp2_enabled && not p.session.tls) (do
    on_session (iac cmd_will opt_mccp2_compress)
    on_session (iac cmd_will opt_mccp3_compress)
    pure tt)

-- negotiation_should_advance
abbrev pub negotiation_should_advance : Protocol → Bool
negotiation_should_advance p = any_on p.session.remote_option || any_on p.session.local_option

-- BaseServer.check_negotiation; `begin_advanced_negotiation` runs when the loop comes to it
unfoldable pub base_check : Srv Bool
base_check = do
  modify (λ p. record p { advanced = p.advanced || negotiation_should_advance p })
  gets (λ p. not (any_on p.session.pending_option))

-- the requests of the server, from its callbacks
abbrev pub server_host : Library → Host → Protocol → Host
server_host lib host p = record host {
  charset_offers = charset_names;
  environ_offers = on_request_environ lib p;
}

-- Whether the encoding is agreed upon.
abbrev pub encoding_done : Protocol → Bool
encoding_done p = (outbinary p && inbinary p) || p.session.force_binary

-- CHARSET is on, and no request has been sent yet.
unfoldable pub charset_request_due : Protocol → Bool
charset_request_due p =
    remote_enabled p.session opt_charset
    && (local_enabled p.session opt_charset
        && not (has_key p.session.pending_option (cmd_sb ∷ opt_charset ∷ [])))

-- We send BINARY, and the client has not been asked to.
unfoldable pub binary_request_due : Protocol → Bool
binary_request_due p =
    outbinary p
    && (not (inbinary p) && not (has_key p.session.pending_option (cmd_do ∷ opt_binary ∷ [])))

-- remote_option.get(TTYPE) is False
abbrev pub ttype_refused : Protocol → Bool
ttype_refused p = refused p.session opt_ttype

-- SB NEW_ENVIRON or SB CHARSET is pending
abbrev pub is_waiting : Protocol → Bool
is_waiting p =
    pending_enabled p.session cmd_sb opt_new_environ || pending_enabled p.session cmd_sb opt_charset

abbrev pub is_unset : Option Bool → Bool
is_unset none = true
is_unset (some b) = false

-- the end of `check_negotiation`, which sets `waiter_encoding`
unfoldable pub check_outcome : Bool → Bool → Bool → Bool → Srv Bool
check_outcome final waiting parent result = do
  p ← gets (λ p. p)
  if is_unset p.waiter_encoding && result
      then (do
        modify (λ p. record p { waiter_encoding = some result })
        pure (not waiting && (parent && result)))
      else if is_unset p.waiter_encoding && (ttype_refused p || final)
      then (do modify (λ p. record p { waiter_encoding = some result }); pure parent)
      else pure (not waiting && (parent && result))

-- the deferred request for NEW_ENVIRON in `check_negotiation`
unfoldable pub deferred_environ : Bool → Srv (Unit {0})
deferred_environ final = do
  p ← gets (λ p. p)
  when
      (not p.environ_requested
        && (p.advanced
            && (ttype_refused p
                || final
                || (not (pending_enabled p.session cmd_do opt_ttype)
                    && not (pending_enabled p.session cmd_sb opt_ttype)))))
      negotiate_environ

-- `_check_encoding` where BINARY is asked for
unfoldable pub ask_binary : Srv Bool
ask_binary = do on_session (iac cmd_do opt_binary); pure false

-- the end of `_check_negotiation_timer`
unfoldable pub timer_end : Bool → Bool → Srv Bool
timer_end final complete =
    if complete || final
    then (do modify (λ p. record p { waiter_connected = true }); pure false)
    else pure true

-- self.encoding(outgoing=True, incoming=True), which is only logged, but may raise
unfoldable pub encoding_logged : Library → Srv Bytes
encoding_logged lib p = (encoding lib p true true, p)

module _ (lib : Library) (host : Host) where
  -- its request for CHARSET
  unfoldable pub ask_charset : Srv (Unit {0})
  ask_charset = do
    p ← gets (λ p. p)
    when (charset_request_due p) (do on_session (request_charset (server_host lib host p)); pure tt)

  -- _check_encoding
  unfoldable pub check_encoding : Srv Bool
  check_encoding = do
    due ← gets binary_request_due
    if due then ask_binary else (do ask_charset; gets encoding_done)

  -- the deferred ECHO of `check_negotiation`
  unfoldable pub deferred_echo : Bool → Srv (Unit {0})
  deferred_echo final = do
    p ← gets (λ p. p)
    when (not p.echo_negotiated && (p.advanced && (ttype_refused p || final))) (negotiate_echo lib)

  -- TelnetServer.check_negotiation
  unfoldable pub check_negotiation : Bool → Srv Bool
  check_negotiation final = do
    deferred_echo final
    deferred_environ final
    waiting ← gets is_waiting
    parent ← base_check
    result ← check_encoding
    encoding_logged lib
    check_outcome final waiting parent result

  -- `_check_negotiation_timer`, where `final` tells whether `connect_maxwait` is over; it returns
  -- whether another call is scheduled.
  unfoldable pub check_negotiation_timer : Bool → Srv Bool
  check_negotiation_timer final = do complete ← check_negotiation final; timer_end final complete
