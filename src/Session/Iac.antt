-- ===== src/Session/Iac.antt =====
-- stream_writer.py: `iac`.
use telnetlib.Prelude.{
  ℕ, Bool, true, false, ◌&&◌, ◌||◌, not, [], ◌∷◌, ◌++◌, none, some, if◌then◌else◌, ◌==◌, ◌⊎◌, Bytes,
  nat_eq, bytes_eq, elem, ◌≡◌, append-nil, refl, arith, ap, ◌∙◌,
}
use telnetlib.Telopt.{cmd_iac, cmd_do, cmd_dont, cmd_will, cmd_wont, opt_tm, opt_logout}
use telnetlib.Dict
use telnetlib.Exec.{ok, pure, raise, gets, modify, ◌>>=◌, ◌>>◌, when, value_error}
use telnetlib.Session.{
  Session, Act, enabled, remote_enabled, local_enabled, pending_enabled, set_pending, set_local,
  set_remote, send_iac,
}

-- `opt in self.remote_option and not self.remote_option.enabled(opt)`
abbrev pub refused : Session → ℕ → Bool
refused s opt = elim (Dict.get s.remote_option (opt ∷ [])) [ none ↦ false | some value ↦ not value ]

-- The part of `iac` from the test of DONT on.
iac_send : ℕ → ℕ → Act Bool
iac_send cmd opt = do
  skip ← gets (λ s. cmd == cmd_dont && not (opt == opt_logout) && refused s opt)
  if skip then pure false else do
    when (cmd == cmd_dont && not (opt == opt_logout)) (modify (set_remote (opt ∷ []) false))
    when (cmd == cmd_wont) (modify (set_local (opt ∷ []) false))
    send_iac (cmd_iac ∷ cmd ∷ opt ∷ [])
    pure true

-- The part from the test of DO and WILL on.
iac_request : ℕ → ℕ → Act Bool
iac_request cmd opt = do
  busy ← gets (λ s. (cmd == cmd_do || cmd == cmd_will) && pending_enabled s cmd opt)
  if busy then pure false else do
    when (cmd == cmd_do || cmd == cmd_will) (modify (set_pending cmd opt true))
    skip ← gets (λ s. cmd == cmd_will && not (opt == opt_tm) && local_enabled s opt)
    if skip then (do modify (set_pending cmd opt false); pure false) else iac_send cmd opt

-- iac
unfoldable pub iac : ℕ → ℕ → Act Bool
unfolding iac_request iac_send send_iac
iac cmd opt =
    if not (elem cmd (cmd_do ∷ cmd_dont ∷ cmd_will ∷ cmd_wont ∷ [])) then raise value_error else do
      skip ←
          gets (λ s.
            cmd == cmd_do && not (elem opt (opt_tm ∷ opt_logout ∷ [])) && remote_enabled s opt)
      if skip then (do modify (set_pending cmd opt false); pure false) else iac_request cmd opt

-- What a call of `iac` adds to the stream.
abbrev pub reply : Bool → ℕ → ℕ → Bytes
reply true cmd opt = cmd_iac ∷ cmd ∷ opt ∷ []
reply false cmd opt = []

-- What the guards of `iac` let through, by the state of the option.
abbrev pub is_let_through : ℕ → ℕ → Session → Bool
is_let_through cmd opt s =
    if cmd == cmd_do
    then not (pending_enabled s cmd opt)
      && (opt == opt_tm || opt == opt_logout || not (remote_enabled s opt))
    else if cmd == cmd_will
    then not (pending_enabled s cmd opt) && (opt == opt_tm || not (local_enabled s opt))
    else if cmd == cmd_dont
    then opt == opt_logout || not (refused s opt)
    else true

abbrev pub IsNegotiation : ℕ → Type 0
IsNegotiation cmd = elem cmd (cmd_do ∷ cmd_dont ∷ cmd_will ∷ cmd_wont ∷ []) ≡ true

pub IsNegotiation-do : IsNegotiation cmd_do
unfolding elem
IsNegotiation-do = refl

pub IsNegotiation-dont : IsNegotiation cmd_dont
unfolding elem
IsNegotiation-dont = refl

pub IsNegotiation-will : IsNegotiation cmd_will
unfolding elem
IsNegotiation-will = refl

pub IsNegotiation-wont : IsNegotiation cmd_wont
unfolding elem
IsNegotiation-wont = refl

-- `iac` with one of the four commands never raises.
pub iac_result :
    (cmd opt : ℕ) (s : Session)
    → IsNegotiation cmd
    → (iac cmd opt s).0 ≡ ok (is_let_through cmd opt s)
unfolding iac ◌>>=◌ elem
iac_result cmd opt s neg = ground arith

-- On an open connection `iac` with one of the four commands returns what its guards let through, and
-- writes the three bytes where that is True, and nothing otherwise.
pub iac_exact :
    (cmd opt : ℕ) (s : Session)
    → IsNegotiation cmd
    → s.closing ≡ false
    → ((iac cmd opt s).0 ≡ ok (is_let_through cmd opt s))
      × ((iac cmd opt s).1.sent ≡ s.sent ++ reply (is_let_through cmd opt s) cmd opt)
unfolding iac ◌>>=◌ elem
iac_exact cmd opt s neg open_conn =
    (ground (arith, append-nil s.sent), ground (arith, append-nil s.sent))

-- What is not due is not written.
iac_not_due :
    (cmd opt : ℕ) (s : Session)
    → IsNegotiation cmd
    → is_let_through cmd opt s ≡ false
    → (iac cmd opt s).1.sent ≡ s.sent
unfolding iac ◌>>=◌ elem
iac_not_due cmd opt s neg e = ground (arith, e)

-- After `iac` with DO or WILL, on any connection and whatever it returned.
iac_leaves_not_due :
    (cmd opt : ℕ) (s : Session)
    → (cmd ≡ cmd_do) ⊎ (cmd ≡ cmd_will)
    → is_let_through cmd opt (iac cmd opt s).1 ≡ false
unfolding iac ◌>>=◌ elem enabled
iac_leaves_not_due cmd opt s req = ground (
  arith,
  Dict.get-put s.pending_option (cmd ∷ opt ∷ []) (cmd ∷ opt ∷ []) true,
  Dict.get-put s.pending_option (cmd ∷ opt ∷ []) (cmd ∷ opt ∷ []) false,
)

request-IsNegotiation : (cmd : ℕ) → (cmd ≡ cmd_do) ⊎ (cmd ≡ cmd_will) → IsNegotiation cmd
unfolding elem
request-IsNegotiation cmd req = ground (arith, req)

-- A request is made once: a second call of `iac` with DO or WILL and the same option, right after the
-- first, writes nothing and returns False, on any connection and whatever the first call did.
pub iac_once :
    (cmd opt : ℕ) (s : Session)
    → (cmd ≡ cmd_do) ⊎ (cmd ≡ cmd_will)
    → ((iac cmd opt (iac cmd opt s).1).0 ≡ ok false)
      × ((iac cmd opt (iac cmd opt s).1).1.sent ≡ (iac cmd opt s).1.sent)
iac_once cmd opt s req =
    let neg = request-IsNegotiation cmd req in
    let old = iac_leaves_not_due cmd opt s req in
    (
      iac_result cmd opt (iac cmd opt s).1 neg ∙ ap ok old,
      iac_not_due cmd opt (iac cmd opt s).1 neg old,
    )

-- After `iac` with WONT the option is off on our side, and after DONT it is off on the peer's side,
-- except that the peer's LOGOUT stays as it was; on any connection.
pub iac_refusal :
    (opt : ℕ) (s : Session)
    → (local_enabled (iac cmd_wont opt s).1 opt ≡ false)
      × (remote_enabled (iac cmd_dont opt s).1 opt
          ≡ (if opt == opt_logout then remote_enabled s opt else false))
unfolding iac ◌>>=◌ elem enabled
iac_refusal opt s = (
  ground (arith, Dict.get-put s.local_option (opt ∷ []) (opt ∷ []) false),
  ground (arith, Dict.get-put s.remote_option (opt ∷ []) (opt ∷ []) false),
)
