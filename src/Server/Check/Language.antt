-- ===== src/Server/Check/Language.antt =====
-- The last call of the timer of server.py, for what a client's LANG makes of it.
use telnetlib.Prelude.{
  Bool, true, false, not, if◌then◌else◌, some, none, Option, nat_eq, bytes_eq, ◌≡◌, inl, inr, refl,
  ap, ◌∙◌, Bytes, arith,
}
use telnetlib.Telopt.{cmd_do, cmd_will, opt_binary, opt_echo, opt_new_environ}
use telnetlib.Dict
use telnetlib.Dict.{Dict}
use telnetlib.Exec.{Exc, ok, err, Exec, modify}
use telnetlib.Exec.Keeps.{Keeps, Keeps-modify, keeps_rules}
use telnetlib.Host.{Host}
use telnetlib.Session.{Session}
use telnetlib.Session.Iac.{iac}
use telnetlib.Server.{Info, Library, Protocol, on_session, info, text_of}
use telnetlib.Server.Names.{key_lang, info_charset, us_ascii}
use telnetlib.Server.Variables.{encoding, lang_codec, may_encode, or_default}
use telnetlib.Server.Terminal.{negotiate_environ, negotiate_echo}
use telnetlib.Server.Check.{
  check_encoding, deferred_echo, deferred_environ, ask_binary, ask_charset, check_negotiation_timer,
}
use telnetlib.Server.Check.Steps.{based}
use telnetlib.Server.Check.Complete.{checked, timer_ends, timer_raises}
use telnetlib.Server.Check.Failed.{IsMild, iac-IsMild, request_charset-IsMild}

-- What `check_negotiation` leaves alone before it calls `encoding`.
record Unmoved (extra : Dict Bytes Info) (forced connected : Bool) (p : Protocol) : Type 0 where
  known : p.extra ≡ extra
  force : p.session.force_binary ≡ forced
  marked : p.waiter_connected ≡ connected

module _ (extra : Dict Bytes Info) (forced connected : Bool) where
  on_session-Unmoved :
      {A : Type 0} (m : Exec Session A)
      → IsMild m
      → Keeps (Unmoved extra forced connected) (on_session m)
  unfolding on_session
  on_session-Unmoved m mild = record {
    at = λ p u. record {
      known = u.known;
      force = mild.force p.session ∙ u.force;
      marked = u.marked;
    };
  }

  -- the flags, which are not looked at
  environ_requested-Unmoved :
      Keeps (Unmoved extra forced connected) (modify (λ p. record p { environ_requested = true }))
  environ_requested-Unmoved =
      Keeps-modify _ λ p u. record { known = u.known; force = u.force; marked = u.marked }

  echo_negotiated-Unmoved :
      Keeps (Unmoved extra forced connected) (modify (λ p. record p { echo_negotiated = true }))
  echo_negotiated-Unmoved =
      Keeps-modify _ λ p u. record { known = u.known; force = u.force; marked = u.marked }

  environ-Unmoved : Keeps (Unmoved extra forced connected) (on_session (iac cmd_do opt_new_environ))
  environ-Unmoved = on_session-Unmoved _ (iac-IsMild cmd_do opt_new_environ (inl refl))

  echo-Unmoved : Keeps (Unmoved extra forced connected) (on_session (iac cmd_will opt_echo))
  echo-Unmoved = on_session-Unmoved _ (iac-IsMild cmd_will opt_echo (inr refl))

  binary-Unmoved : Keeps (Unmoved extra forced connected) (on_session (iac cmd_do opt_binary))
  binary-Unmoved = on_session-Unmoved _ (iac-IsMild cmd_do opt_binary (inl refl))

  negotiate_environ-Unmoved : Keeps (Unmoved extra forced connected) negotiate_environ
  unfolding negotiate_environ
  negotiate_environ-Unmoved =
      search (keeps_rules, environ_requested-Unmoved, environ-Unmoved) depth 14

  negotiate_echo-Unmoved :
      (lib : Library) → Keeps (Unmoved extra forced connected) (negotiate_echo lib)
  unfolding negotiate_echo
  negotiate_echo-Unmoved lib = search (keeps_rules, echo_negotiated-Unmoved, echo-Unmoved) depth 14

  deferred_environ-Unmoved :
      (final : Bool) → Keeps (Unmoved extra forced connected) (deferred_environ final)
  unfolding deferred_environ
  deferred_environ-Unmoved final = search (keeps_rules, negotiate_environ-Unmoved) depth 14

  module _ (lib : Library) (host : Host) where
    deferred_echo-Unmoved :
        (final : Bool) → Keeps (Unmoved extra forced connected) (deferred_echo lib host final)
    unfolding deferred_echo
    deferred_echo-Unmoved final = search (keeps_rules, negotiate_echo-Unmoved) depth 14

    ask_charset-Unmoved : Keeps (Unmoved extra forced connected) (ask_charset lib host)
    unfolding ask_charset
    ask_charset-Unmoved = search (keeps_rules, on_session-Unmoved, request_charset-IsMild) depth 14

    ask_binary-Unmoved : Keeps (Unmoved extra forced connected) ask_binary
    unfolding ask_binary
    ask_binary-Unmoved = search (keeps_rules, binary-Unmoved) depth 14

    check_encoding-Unmoved : Keeps (Unmoved extra forced connected) (check_encoding lib host)
    unfolding check_encoding
    check_encoding-Unmoved = search (keeps_rules, ask_binary-Unmoved, ask_charset-Unmoved) depth 14

module _ (lib : Library) (host : Host) where
  checked-Unmoved :
      (p : Protocol)
      → Unmoved p.extra p.session.force_binary p.waiter_connected (checked lib host true p)
  checked-Unmoved p =
      let e = p.extra in
      let f = p.session.force_binary in
      let c = p.waiter_connected in
      let start : Unmoved e f c p = record { known = refl; force = refl; marked = refl } in
      let u =
        (deferred_environ-Unmoved e f c true).at _
          ((deferred_echo-Unmoved e f c lib host true).at p start) in
      (check_encoding-Unmoved e f c lib host).at (based lib host true p)
        (record { known = u.known; force = u.force; marked = u.marked })

  -- LANG at the time of the call is LANG at the start.
  lang_kept :
      (p : Protocol)
      → text_of (info lib (checked lib host true p) key_lang) ≡ text_of (info lib p key_lang)
  unfolding info
  lang_kept p =
      ap
        (λ d.
          text_of
            (elim (Dict.get d key_lang) [ none ↦ lib.transport_info key_lang | some v ↦ some v ]))
        (checked-Unmoved p).known

  -- Where codecs.lookup raises nothing else for the codeset of LANG, `encoding` returns.
  encoding_returns :
      (p : Protocol) (named : Option Bytes)
      → lang_codec lib (text_of (info lib p key_lang)) ≡ ok named
      → (codec : Bytes) × (encoding lib p true true ≡ ok codec)
  unfolding encoding
  encoding_returns p named h = (
    (if not (may_encode p true true) then us_ascii else elim named [
      | some candidate ↦ candidate
      | none ↦ or_default (text_of (info lib p info_charset)) p.default_encoding
    ]),
    ground (arith, h),
  )

  -- The negotiation ends at the deadline, where codecs.lookup finds a codec for the codeset of the
  -- client's LANG or raises LookupError, or LANG has none: the call of the timer behind
  -- `connect_maxwait` returns, marks the connection as negotiated whatever is still pending, and
  -- schedules no other call.
  pub negotiation_ends :
      (p : Protocol) (named : Option Bytes)
      → lang_codec lib (text_of (info lib p key_lang)) ≡ ok named
      → ((check_negotiation_timer lib host true p).0 ≡ ok false)
        × ((check_negotiation_timer lib host true p).1.waiter_connected ≡ true)
  negotiation_ends p named h =
      let (codec, e) =
        encoding_returns (checked lib host true p) named (ap (lang_codec lib) (lang_kept p) ∙ h) in
      timer_ends lib host p codec e

  forced_raises :
      (p : Protocol) (x : Exc)
      → p.session.force_binary ≡ true
      → lang_codec lib (text_of (info lib p key_lang)) ≡ err x
      → encoding lib p true true ≡ err x
  unfolding encoding may_encode
  forced_raises p x f h = ground (arith, f, h)

  -- Where BINARY is forced and codecs.lookup raises another error than LookupError for the codeset of
  -- the client's LANG, a ValueError for example, the call of the timer behind `connect_maxwait` raises
  -- it too, and leaves the connection marked as negotiated or not as it was.
  pub negotiation_hangs :
      (p : Protocol) (x : Exc)
      → p.session.force_binary ≡ true
      → lang_codec lib (text_of (info lib p key_lang)) ≡ err x
      → ((check_negotiation_timer lib host true p).0 ≡ err x)
        × ((check_negotiation_timer lib host true p).1.waiter_connected ≡ p.waiter_connected)
  negotiation_hangs p x f h =
      let u = checked-Unmoved p in
      let e = timer_raises lib host p x (
        forced_raises (checked lib host true p) x (u.force ∙ f)
          (ap (lang_codec lib) (lang_kept p) ∙ h)) in
      (ap (λ r. r.0) e, ap (λ r. r.1.waiter_connected) e ∙ u.marked)
