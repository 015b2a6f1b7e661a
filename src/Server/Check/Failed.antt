-- ===== src/Server/Check/Failed.antt =====
-- What becomes of the negotiation of server.py once the encoding has failed.
use mathlib.Core.Path.{subst}
use telnetlib.Prelude.{
  ℕ, Bool, true, false, [], ◌∷◌, some, bytes_eq, nat_eq, ◌≡◌, ◌⊎◌, inl, inr, refl, sym, ap, ◌∙◌,
  Bool-cases, elem, Bytes, arith,
}
use telnetlib.Telopt.{cmd_do, cmd_will, opt_binary, opt_echo, opt_new_environ}
use telnetlib.Exec.{ok, Exec, gets, modify, ◌>>=◌}
use telnetlib.Exec.Keeps.{Keeps, Keeps-modify, keeps_rules, bind-ok}
use telnetlib.Host.{Host}
use telnetlib.Session.{Session, enabled, local_enabled, sending, send_iac}
use telnetlib.Session.Iac.{iac}
use telnetlib.Session.Requests.{request_charset}
use telnetlib.Server.{Library, Protocol, on_session}
use telnetlib.Server.Terminal.{negotiate_environ, negotiate_echo}
use telnetlib.Server.Check.{
  encoding_done, binary_request_due, check_encoding, check_outcome, deferred_echo, deferred_environ,
  ask_charset, check_negotiation,
}
use telnetlib.Server.Check.Steps.{charset_free, ask_charset-Asked, check_encoding-Checked, based}
use telnetlib.Server.Check.Complete.{outcome_reached}
use telnetlib.Server.Names.{us_ascii}
use telnetlib.Server.Variables.{encoding, may_encode}

-- `waiter_encoding` is set, and neither do we send BINARY nor is it forced.
record Failed (b : Bool) (p : Protocol) : Type 0 where
  waiter : p.waiter_encoding ≡ some b
  outbound : local_enabled p.session opt_binary ≡ false
  unforced : p.session.force_binary ≡ false

-- An action of the writer that leaves what is on at our end.
pub record IsMild {A : Type 0} (m : Exec Session A) : Type 0 where
  pub locals : (s : Session) → (m s).1.local_option ≡ s.local_option
  pub force : (s : Session) → (m s).1.force_binary ≡ s.force_binary

pub iac-IsMild : (cmd opt : ℕ) → (cmd ≡ cmd_do) ⊎ (cmd ≡ cmd_will) → IsMild (iac cmd opt)
unfolding iac ◌>>=◌ elem
iac-IsMild cmd opt r = record { locals = λ s. ground (arith, r); force = λ s. ground (arith, r) }

sending-local : (buf : Bytes) (s : Session) → (sending buf s).local_option ≡ s.local_option
sending-local buf s = ground arith

sending-force : (buf : Bytes) (s : Session) → (sending buf s).force_binary ≡ s.force_binary
sending-force buf s = ground arith

pub request_charset-IsMild : (host : Host) → IsMild (request_charset host)
unfolding request_charset ◌>>=◌ send_iac
request_charset-IsMild host = record {
  locals = λ s. elim (Bool-cases (charset_free s)) [
    | inl e ↦ rw e (sending-local _ s)
    | inr e ↦ rw e refl
  ];
  force = λ s. elim (Bool-cases (charset_free s)) [
    | inl e ↦ rw e (sending-force _ s)
    | inr e ↦ rw e refl
  ];
}

module _ (b : Bool) where
  on_session-Failed : {A : Type 0} (m : Exec Session A) → IsMild m → Keeps (Failed b) (on_session m)
  unfolding on_session
  on_session-Failed m mild = record {
    at = λ p f. record {
      waiter = f.waiter;
      outbound = ap (λ d. enabled d (opt_binary ∷ [])) (mild.locals p.session) ∙ f.outbound;
      unforced = mild.force p.session ∙ f.unforced;
    };
  }

  -- the flags, which are not looked at
  environ_requested-Failed : Keeps (Failed b) (modify (λ p. record p { environ_requested = true }))
  environ_requested-Failed =
      Keeps-modify _
        λ p f. record { waiter = f.waiter; outbound = f.outbound; unforced = f.unforced }

  echo_negotiated-Failed : Keeps (Failed b) (modify (λ p. record p { echo_negotiated = true }))
  echo_negotiated-Failed =
      Keeps-modify _
        λ p f. record { waiter = f.waiter; outbound = f.outbound; unforced = f.unforced }

  environ-Failed : Keeps (Failed b) (on_session (iac cmd_do opt_new_environ))
  environ-Failed = on_session-Failed _ (iac-IsMild cmd_do opt_new_environ (inl refl))

  echo-Failed : Keeps (Failed b) (on_session (iac cmd_will opt_echo))
  echo-Failed = on_session-Failed _ (iac-IsMild cmd_will opt_echo (inr refl))

  negotiate_environ-Failed : Keeps (Failed b) negotiate_environ
  unfolding negotiate_environ
  negotiate_environ-Failed = search (keeps_rules, environ_requested-Failed, environ-Failed) depth 14

  negotiate_echo-Failed : (lib : Library) → Keeps (Failed b) (negotiate_echo lib)
  unfolding negotiate_echo
  negotiate_echo-Failed lib = search (keeps_rules, echo_negotiated-Failed, echo-Failed) depth 14

  deferred_environ-Failed : (final : Bool) → Keeps (Failed b) (deferred_environ final)
  unfolding deferred_environ
  deferred_environ-Failed final = search (keeps_rules, negotiate_environ-Failed) depth 14

  deferred_echo-Failed :
      (lib : Library) (host : Host) (final : Bool) → Keeps (Failed b) (deferred_echo lib host final)
  unfolding deferred_echo
  deferred_echo-Failed lib host final = search (keeps_rules, negotiate_echo-Failed) depth 14

  ask_charset-Failed : (lib : Library) (host : Host) → Keeps (Failed b) (ask_charset lib host)
  unfolding ask_charset
  ask_charset-Failed lib host =
      search (keeps_rules, on_session-Failed, request_charset-IsMild) depth 14

not_due : {b : Bool} (p : Protocol) → Failed b p → binary_request_due p ≡ false
unfolding binary_request_due
not_due p f = rw f.outbound refl

not_done : {b : Bool} (p : Protocol) → Failed b p → ok (encoding_done p) ≡ ok false
not_done p f = rw (f.outbound, f.unforced) refl

-- The encoding is that of a connection without BINARY.
ascii_only :
    {b : Bool} (lib : Library) (p : Protocol) → Failed b p → encoding lib p true true ≡ ok us_ascii
unfolding encoding may_encode
ascii_only lib p f = rw (f.outbound, f.unforced) refl

module _ (lib : Library) (host : Host) (b : Bool) where
  based-Failed : (final : Bool) (p : Protocol) → Failed b p → Failed b (based lib host final p)
  based-Failed final p f =
      let g =
        (deferred_environ-Failed b final).at _ ((deferred_echo-Failed b lib host final).at p f) in
      record { waiter = g.waiter; outbound = g.outbound; unforced = g.unforced }

  -- No request for BINARY is due, and the encoding is not agreed upon.
  encoding_fails :
      (p : Protocol)
      → Failed b p
      → ((check_encoding lib host p).0 ≡ ok false) × Failed b (check_encoding lib host p).1
  unfolding check_encoding ◌>>=◌
  encoding_fails p f =
      let g = (ask_charset-Failed b lib host).at p f in
      let asked = ask_charset-Asked lib host p in
      rw (not_due p f) (
        subst (λ r. (r.0 ≡ ok false) × Failed b r.1)
          (sym (bind-ok (ask_charset lib host) (λ _. gets encoding_done) p tt asked.returns))
          (not_done _ g, g))

  outcome_fails :
      (final waiting parent result : Bool) (p : Protocol)
      → Failed b p
      → result ≡ false
      → (check_outcome final waiting parent result p).0 ≡ ok false
  unfolding check_outcome ◌>>=◌
  outcome_fails final waiting parent result p f e = ground (arith, f.waiter, e)

  -- Once the encoding is declared to have failed, while we do not send BINARY and it is not forced,
  -- `check_negotiation` never returns True, even if nothing is pending.
  pub failed_waits :
      (final : Bool) (p : Protocol)
      → p.waiter_encoding ≡ some b
      → local_enabled p.session opt_binary ≡ false
      → p.session.force_binary ≡ false
      → (check_negotiation lib host final p).0 ≡ ok false
  failed_waits final p w o u =
      let f = based-Failed final p (record { waiter = w; outbound = o; unforced = u }) in
      let c = check_encoding-Checked lib host (based lib host final p) in
      let (e, g) = encoding_fails _ f in
      ap (λ r. r.0) (outcome_reached lib host final p us_ascii (ascii_only lib _ g))
      ∙ outcome_fails final _ _ c.result _ g (ground (arith, c.returns, e))
