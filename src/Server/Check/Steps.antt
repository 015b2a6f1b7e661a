-- ===== src/Server/Check/Steps.antt =====
-- The parts of `check_negotiation` of server.py: each returns, and what it leaves pending.
use mathlib.Core.Path.{subst}
use telnetlib.Prelude.{
  ℕ, Bool, true, false, ◌&&◌, ◌||◌, not, [], ◌∷◌, if◌then◌else◌, ◌==◌, bytes_eq, bytes_beq_iff,
  nat_eq, ◌≡◌, inl, inr, refl, sym, ap, ◌∙◌, Bool-cases, elem, Bytes, arith,
}
use telnetlib.Telopt.{cmd_do, cmd_sb, opt_binary, opt_charset}
use telnetlib.Dict
use telnetlib.Exec.{Result, ok, Exec, pure, gets, ◌>>=◌, ◌>>◌, when}
use telnetlib.Exec.Keeps.{bind-ok}
use telnetlib.Host.{Host}
use telnetlib.Session.{
  Session, Options, enabled, remote_enabled, local_enabled, pending_enabled, sending, send_iac,
}
use telnetlib.Session.Iac.{iac, is_let_through, iac_result, IsNegotiation-do}
use telnetlib.Session.Requests.{request_charset}
use telnetlib.Server.{Library, Protocol, Srv, on_session}
use telnetlib.Server.Terminal.{negotiate_environ, negotiate_echo}
use telnetlib.Server.Terminal.Returns.{negotiate_environ_ok, negotiate_echo_ok}
use telnetlib.Server.Check.{
  any_on, base_check, negotiation_should_advance, server_host, encoding_done, binary_request_due,
  charset_request_due, check_encoding, is_waiting, check_outcome, deferred_echo, deferred_environ,
  ask_binary, ask_charset, encoding_logged, check_negotiation,
}

when-returns :
    (b : Bool) (m : Srv (Unit {0})) (p : Protocol) → (m p).0 ≡ ok tt → (when b m p).0 ≡ ok tt
unfolding ◌>>=◌
when-returns true m p h = h
when-returns false m p h = refl

-- the condition of `request_charset`
abbrev pub charset_free : Session → Bool
charset_free s =
    (remote_enabled s opt_charset || local_enabled s opt_charset)
    && not (pending_enabled s cmd_sb opt_charset)

pub request_charset_ok :
    (host : Host) (s : Session) → (request_charset host s).0 ≡ ok (charset_free s)
unfolding request_charset ◌>>=◌ send_iac
request_charset_ok host s = elim (Bool-cases (charset_free s)) [
  | inl e ↦ rw e refl
  | inr e ↦ rw e refl
]

-- What is not a request of `check_encoding` stays as it was in the pending options.
abbrev pub IsOther : Bytes → Type 0
IsOther key = ((key == (cmd_do ∷ opt_binary ∷ [])) || (key == (cmd_sb ∷ opt_charset ∷ []))) ≡ false

pub iac_do_pending :
    (opt : ℕ) (s : Session) (key : Bytes)
    → (key == (cmd_do ∷ opt ∷ [])) ≡ false
    → enabled (iac cmd_do opt s).1.pending_option key ≡ enabled s.pending_option key
unfolding iac ◌>>=◌ elem enabled
iac_do_pending opt s key h = ground (
  arith,
  Dict.get-put s.pending_option (cmd_do ∷ opt ∷ []) key true,
  Dict.get-put s.pending_option (cmd_do ∷ opt ∷ []) key false,
  bytes_beq_iff key (cmd_do ∷ opt ∷ []),
  bytes_beq_iff (cmd_do ∷ opt ∷ []) key,
)

sending-pending : (buf : Bytes) (s : Session) → (sending buf s).pending_option ≡ s.pending_option
sending-pending buf s = ground arith

pub put_pending :
    (s : Session) (key : Bytes)
    → (key == (cmd_sb ∷ opt_charset ∷ [])) ≡ false
    → enabled (Dict.put s.pending_option (cmd_sb ∷ opt_charset ∷ []) true) key
      ≡ enabled s.pending_option key
unfolding enabled
put_pending s key h = ground (
  arith,
  Dict.get-put s.pending_option (cmd_sb ∷ opt_charset ∷ []) key true,
  bytes_beq_iff key (cmd_sb ∷ opt_charset ∷ []),
  bytes_beq_iff (cmd_sb ∷ opt_charset ∷ []) key,
)

request_charset_pending :
    (host : Host) (s : Session) (key : Bytes)
    → (key == (cmd_sb ∷ opt_charset ∷ [])) ≡ false
    → enabled (request_charset host s).1.pending_option key ≡ enabled s.pending_option key
unfolding request_charset ◌>>=◌ send_iac
request_charset_pending host s key h = elim (Bool-cases (charset_free s)) [
  | inl e ↦ rw e (put_pending (sending _ s) key h ∙ ap (λ d. enabled d key) (sending-pending _ s))
  | inr e ↦ rw e refl
]

pub any_on-enabled : (d : Options) (key : Bytes) → any_on d ≡ false → enabled d key ≡ false
unfolding any_on enabled Dict.get
any_on-enabled [] key h = refl
any_on-enabled ((k, v) ∷ d) key h = ground (arith, any_on-enabled d key)

-- a method of the writer that returns, with a value after it
pub then_pure :
    {A B : Type 0} (m : Exec Session A) (a : A) (b : B) (p : Protocol)
    → (m p.session).0 ≡ ok a
    → (on_session m >> pure b) p ≡ (ok b, record p { session = (m p.session).1 })
unfolding on_session ◌>>=◌
then_pure m a b p h = bind-ok (on_session m) (λ _. pure b) p a h

-- `_check_encoding` returns, and leaves the other pending options as they are.
pub record Checked (p : Protocol) (r : Result Bool × Protocol) : Type 0 where
  pub result : Bool
  pub returns : r.0 ≡ ok result
  pub keeps :
      (key : Bytes)
      → IsOther key
      → enabled r.1.session.pending_option key ≡ enabled p.session.pending_option key

pub record Asked (p : Protocol) (r : Result (Unit {0}) × Protocol) : Type 0 where
  pub returns : r.0 ≡ ok tt
  pub keeps :
      (key : Bytes)
      → IsOther key
      → enabled r.1.session.pending_option key ≡ enabled p.session.pending_option key

either_way :
    {A : Type 0} (P : Result A × Protocol → Type 0) (b : Bool) (m n : Srv A) (p : Protocol)
    → P (m p)
    → P (n p)
    → P ((if b then m else n) p)
either_way P true m n p x y = x
either_way P false m n p x y = y

ask_binary-Checked : (p : Protocol) → Checked p (ask_binary p)
unfolding ask_binary
ask_binary-Checked p =
    subst (Checked p)
      (sym (
        then_pure (iac cmd_do opt_binary) (is_let_through cmd_do opt_binary p.session) false p
          (iac_result cmd_do opt_binary p.session IsNegotiation-do)))
      (record {
        result = false;
        returns = refl;
        keeps = λ key o. iac_do_pending opt_binary p.session key (ground (arith, o));
      })

module _ (lib : Library) (host : Host) where
  deferred_echo_ok : (final : Bool) (p : Protocol) → (deferred_echo lib host final p).0 ≡ ok tt
  unfolding deferred_echo ◌>>=◌
  deferred_echo_ok final p = when-returns _ (negotiate_echo lib) p (negotiate_echo_ok lib p)

  deferred_environ_ok : (final : Bool) (p : Protocol) → (deferred_environ final p).0 ≡ ok tt
  unfolding deferred_environ ◌>>=◌
  deferred_environ_ok final p = when-returns _ negotiate_environ p (negotiate_environ_ok p)

  pub ask_charset-Asked : (p : Protocol) → Asked p (ask_charset lib host p)
  unfolding ask_charset ◌>>=◌
  ask_charset-Asked p =
      either_way (Asked p) (charset_request_due p)
        (on_session (request_charset (server_host lib host p)) >> pure tt) (pure tt) p
        (subst (Asked p)
          (sym (
            then_pure (request_charset (server_host lib host p)) (charset_free p.session) tt p
              (request_charset_ok (server_host lib host p) p.session)))
          (record {
            returns = refl;
            keeps = λ key o.
                request_charset_pending (server_host lib host p) p.session key (ground (arith, o));
          }))
        (record { returns = refl; keeps = λ key o. refl })

  pub check_encoding-Checked : (p : Protocol) → Checked p (check_encoding lib host p)
  unfolding check_encoding ◌>>=◌
  check_encoding-Checked p =
      let asked = ask_charset-Asked p in
      either_way (Checked p) (binary_request_due p) ask_binary
        (ask_charset lib host >> gets encoding_done) p (ask_binary-Checked p)
        (subst (Checked p)
          (sym (bind-ok (ask_charset lib host) (λ _. gets encoding_done) p tt asked.returns))
          (record {
            result = encoding_done (ask_charset lib host p).1;
            returns = refl;
            keeps = asked.keeps;
          }))

  -- The state in which `check_negotiation` looks at the pending options.
  abbrev pub deferred : Bool → Protocol → Protocol
  deferred final p = (deferred_environ final (deferred_echo lib host final p).1).1

  abbrev pub based : Bool → Protocol → Protocol
  based final p =
      let d = deferred final p in record d { advanced = d.advanced || negotiation_should_advance d }

  -- Nothing that it does first raises, so that its result is that of its last two parts.
  pub check_negotiation-outcome :
      (final : Bool) (p : Protocol)
      → check_negotiation lib host final p
        ≡ (encoding_logged lib
              >> check_outcome final
                  (is_waiting (deferred final p))
                  (not (any_on (deferred final p).session.pending_option))
                  (check_encoding-Checked (based final p)).result)
            (check_encoding lib host (based final p)).1
  unfolding check_negotiation base_check ◌>>=◌
  check_negotiation-outcome final p =
      bind-ok (deferred_echo lib host final) _ p tt (deferred_echo_ok final p)
      ∙ (bind-ok (deferred_environ final) _ _ tt (deferred_environ_ok final _)
          ∙ bind-ok (check_encoding lib host)
              (λ result.
                encoding_logged lib
                >> check_outcome final (is_waiting (deferred final p))
                    (not (any_on (deferred final p).session.pending_option)) result)
              (based final p) _ (check_encoding-Checked (based final p)).returns)
