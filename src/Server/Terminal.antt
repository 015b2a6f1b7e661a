-- ===== src/Server/Terminal.antt =====
-- server.py: `on_ttype` with `_negotiate_environ` and `_negotiate_echo`, and `_is_maybe_mud` of
-- fingerprinting.py.
pub mod Cycle
pub mod Returns
use telnetlib.Prelude.{
  ℕ, suc, ◌-◌, Bool, true, false, ◌&&◌, ◌||◌, not, List, [], ◌∷◌, Option, none, some, if◌then◌else◌,
  ◌==◌, nat_eq, bytes_eq, Bytes, ltb,
}
use telnetlib.Telopt.{
  cmd_do, cmd_will, cmd_sb, opt_echo, opt_ttype, opt_new_environ, opt_gmcp, opt_msdp, opt_mxp,
  opt_msp, opt_atcp, opt_aardwolf,
}
use telnetlib.Exec.{pure, gets, modify, ◌>>=◌, ◌>>◌, when}
use telnetlib.Reader.Reads.{starts_with}
use telnetlib.Session.{set_pending, remote_enabled, pending_enabled}
use telnetlib.Session.Iac.{iac}
use telnetlib.Session.Requests.{request_send}
use telnetlib.Server.{
  Info, text, null, Library, Protocol, Srv, on_session, set_extra, info, text_of, is_text, is_blank,
  ttype_key,
}
use telnetlib.Server.Names.{key_term, ansi, mtts, mud_terminals}

-- TTYPE_LOOPMAX
abbrev pub ttype_loopmax : ℕ
ttype_loopmax = 8

-- t in MUD_TERMINALS
abbrev pub is_one_of : Bytes → List Bytes → Bool
is_one_of t [] = false
is_one_of t (x ∷ xs) = t == x || is_one_of t xs

-- _is_maybe_mud
unfoldable pub is_maybe_mud : Library → Protocol → Bool
is_maybe_mud lib p =
    let is_mud = λ (key : Bytes). is_one_of (lib.lower (text_of (info lib p key))) mud_terminals in
    is_mud key_term
    || is_mud (ttype_key 1)
    || is_mud (ttype_key 2)
    || is_mud (ttype_key 3)
    || remote_enabled p.session opt_gmcp
    || remote_enabled p.session opt_msdp
    || remote_enabled p.session opt_mxp
    || remote_enabled p.session opt_msp
    || remote_enabled p.session opt_atcp
    || remote_enabled p.session opt_aardwolf

-- _negotiate_environ
unfoldable pub negotiate_environ : Srv (Unit {0})
negotiate_environ = do
  asked ← gets (λ p. p.environ_requested)
  if asked then pure tt else (do
    modify (λ p. record p { environ_requested = true })
    on_session (iac cmd_do opt_new_environ)
    pure tt)

-- `self._ttype_count += 1` and the next request
unfoldable pub ttype_next : Srv (Unit {0})
ttype_next = do
  modify (λ p. record p { ttype_count = suc p.ttype_count })
  on_session (request_send opt_ttype)
  pure tt

-- The terminal is the second one reported, where the third is MTTS.
unfoldable pub retermed : Option Info → Srv (Unit {0})
retermed second = do
  set_extra key_term (elim second [ none ↦ null | some val ↦ val ])
  negotiate_environ

-- The variables are asked for after the first type, unless it is ANSI, and else after the second.
unfoldable pub ttype_environ : ℕ → Bytes → Srv (Unit {0})
ttype_environ n ttype = do
  asked ← gets (λ p. p.environ_requested)
  when
      ((ttype_key n == ttype_key 1 && not (ttype == ansi))
        || (ttype_key n == ttype_key 2 && not asked))
      negotiate_environ

module _ (lib : Library) where
  -- _negotiate_echo
  unfoldable pub negotiate_echo : Srv (Unit {0})
  negotiate_echo = do
    done ← gets (λ p. p.echo_negotiated)
    if done then pure tt else (do
      modify (λ p. record p { echo_negotiated = true })
      silent ← gets (λ p. p.line_mode || is_maybe_mud lib p)
      if silent then pure tt else (do on_session (iac cmd_will opt_echo); pure tt))

  -- `on_ttype` up to the test of a cycle, for the value of `_ttype_count`
  unfoldable pub ttype_received : ℕ → Bytes → Srv (Unit {0})
  ttype_received n ttype = do
    set_extra (ttype_key n) (text ttype)
    when (not (is_blank ttype)) (set_extra key_term (text ttype))
    negotiate_echo
    ttype_environ n ttype

  -- The rest of `on_ttype`: whether the cycle of terminal types has come to its end. `last` is the
  -- value reported before.
  unfoldable pub ttype_cycle : ℕ → Bytes → Srv (Unit {0})
  ttype_cycle n ttype = do
    first ← gets (λ p. info lib p (ttype_key 1))
    second ← gets (λ p. info lib p (ttype_key 2))
    last ← gets (λ p. info lib p (ttype_key (n - 1)))
    if not (ttype_key n == ttype_key 1) && is_text first ttype
        then negotiate_environ
        else if is_blank ttype || ltb ttype_loopmax n
        then negotiate_environ
        else if n == 3 && starts_with mtts (lib.upper ttype)
        then retermed second
        else if is_text last ttype
        then negotiate_environ
        else ttype_next

  -- on_ttype
  unfoldable pub on_ttype : Bytes → Srv (Unit {0})
  on_ttype ttype = do n ← gets (λ p. p.ttype_count); ttype_received n ttype; ttype_cycle n ttype

  -- The writer's `handle_subnegotiation` for a TTYPE IS: an answer that was awaited is so no more, and
  -- the callback is called.
  unfoldable pub ttype_reported : Bytes → Srv (Unit {0})
  ttype_reported ttype = do
    on_session (
        modify (λ s.
          if pending_enabled s cmd_sb opt_ttype then set_pending cmd_sb opt_ttype false s else s))
    on_ttype ttype

  -- one report after the other
  unfoldable pub ttypes_reported : List Bytes → Srv (Unit {0})
  ttypes_reported [] = pure tt
  ttypes_reported (ttype ∷ ttypes) = do ttype_reported ttype; ttypes_reported ttypes
