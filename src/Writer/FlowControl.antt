-- ===== src/Writer/FlowControl.antt =====
-- LFLOW between two writers.
use telnetlib.Prelude.{
  ℕ, Bool, true, false, not, [], ◌∷◌, ◌++◌, ◌≡◌, arith, Bytes, nat_eq, bytes_eq, elem,
  if◌then◌else◌, ap, ◌∙◌,
}
use telnetlib.Telopt.{opt_lflow, lflow_restart_any, lflow_restart_xon}
use telnetlib.Exec.{◌>>=◌}
use telnetlib.Host.{Host}
use telnetlib.Session.{Session, Act, remote_enabled, local_enabled, send_iac}
use telnetlib.Session.Requests.{escape_iac, frame, send_lineflow_mode}
use telnetlib.Subneg.{fn_call, handle_subnegotiation}
use telnetlib.Subneg.Terminal.{handle_sb_lflow}
use telnetlib.Interp.{Interp, feed_all}
use telnetlib.Interp.Stream.{IsIdle}
use telnetlib.Interp.Commands.{feed_all-frame}
use telnetlib.Writer.{telnet_writer}

-- what the server sends
abbrev restart_mode : Bool → ℕ
restart_mode any = if any then lflow_restart_any else lflow_restart_xon

send_lineflow_mode-sent :
    (s : Session)
    → s.server ≡ true
    → s.closing ≡ false
    → remote_enabled s opt_lflow ≡ true
    → (send_lineflow_mode s).1.sent
      ≡ s.sent ++ frame opt_lflow (escape_iac (restart_mode s.xon_any ∷ []))
unfolding send_lineflow_mode send_iac escape_iac ◌>>=◌
send_lineflow_mode-sent s server conn known = ground arith

module _ (host : Host) (mud : ℕ → Bytes → Act (Unit {0})) where
  lflow_heard :
      (any : Bool) (s : Session)
      → local_enabled s opt_lflow ≡ true
      → (handle_subnegotiation host mud (opt_lflow ∷ restart_mode any ∷ []) s).1.xon_any ≡ not any
  unfolding handle_subnegotiation fn_call handle_sb_lflow ◌>>=◌ elem
  lflow_heard true s on = ground arith
  lflow_heard false s on = ground arith

  -- The restart mode that a server announces on an open connection, on which nothing was written
  -- before and where the peer's LFLOW is on, is reversed by a peer whose own LFLOW is on and that is
  -- between two commands with nothing buffered: its `xon_any` becomes the opposite of the server's.
  pub restart_mode_reversed :
      (s : Session) (i : Interp)
      → s.server ≡ true
      → s.closing ≡ false
      → s.sent ≡ []
      → remote_enabled s opt_lflow ≡ true
      → local_enabled i.session opt_lflow ≡ true
      → IsIdle i
      → i.sb_buffer ≡ []
      → (feed_all (telnet_writer host mud) (send_lineflow_mode s).1.sent i).1.session.xon_any
        ≡ not s.xon_any
  restart_mode_reversed s i server conn fresh known on idle empty =
      let (quiet, done) =
        feed_all-frame (telnet_writer host mud) opt_lflow (restart_mode s.xon_any ∷ []) i idle empty
          (omega arith) in
      rw (send_lineflow_mode-sent s server conn known, fresh)
        (ap (λ t. t.xon_any) done.session ∙ lflow_heard s.xon_any i.session on)
