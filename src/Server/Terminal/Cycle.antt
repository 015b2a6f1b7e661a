-- ===== src/Server/Terminal/Cycle.antt =====
-- How much the server writes while it asks for terminal types.
use telnetlib.Prelude.{
  ℕ, suc, ◌+◌, ◌-◌, ◌*◌, ◌≤◌, true, false, ◌&&◌, ◌||◌, not, List, [], ◌∷◌, if◌then◌else◌, ◌==◌,
  nat_eq, bytes_eq, ◌≡◌, ◌⊎◌, inl, inr, refl, Bool-cases, elem, Bytes, ltb, length, length-append,
  arith,
}
use telnetlib.Telopt.{cmd_do, cmd_will, cmd_sb, sub_send, opt_echo, opt_ttype, opt_new_environ}
use telnetlib.Exec.{Exec, pure, ◌>>=◌}
use telnetlib.Exec.Keeps.{
  Keeps, Keeps-modify, Keeps-pure, Keeps-bind, if-leads, bind-leads, keeps_rules,
}
use telnetlib.Session.{Session, send_iac, set_pending, remote_enabled, pending_enabled}
use telnetlib.Session.Iac.{iac, reply}
use telnetlib.Session.Requests.{frame, request_send}
use telnetlib.Server.{
  Info, Library, Protocol, on_session, set_extra, info, is_text, is_blank, ttype_key,
}
use telnetlib.Server.Names.{mtts}
use telnetlib.Reader.Reads.{starts_with}
use telnetlib.Server.Terminal.{
  ttype_loopmax, ttype_reported, ttypes_reported, is_maybe_mud, negotiate_environ, negotiate_echo,
  ttype_environ, ttype_received, ttype_next, retermed, ttype_cycle, on_ttype,
}

-- `iac` with DO or WILL writes at most its three bytes.
iac_writes :
    (cmd opt : ℕ) (s : Session)
    → (cmd ≡ cmd_do) ⊎ (cmd ≡ cmd_will)
    → length (iac cmd opt s).1.sent ≤ length s.sent + 3
unfolding iac ◌>>=◌ elem
iac_writes cmd opt s req = ground (arith, length-append s.sent (reply true cmd opt))

request_send_writes :
    (opt : ℕ) (s : Session) → length (request_send opt s).1.sent ≤ length s.sent + 6
unfolding request_send ◌>>=◌ send_iac
request_send_writes opt s =
    elim (Bool-cases (remote_enabled s opt && not (pending_enabled s cmd_sb opt))) [
      | inl e ↦ rw e (ground (arith, length-append s.sent (frame opt (sub_send ∷ []))))
      | inr e ↦ rw e (omega arith)
    ]

-- What the server has written, with what it may still write: six bytes for each terminal type that
-- it may still ask for, and three each for DO NEW_ENVIRON and WILL ECHO.
abbrev budget : Protocol → ℕ
budget p =
    length p.session.sent
    + 6 * (9 - p.ttype_count)
    + (if p.environ_requested then 0 else 3)
    + (if p.echo_negotiated then 0 else 3)

record Within (n b : ℕ) (p : Protocol) : Type 0 where
  count : p.ttype_count ≡ n
  cost : budget p ≤ b

module _ (n b : ℕ) where
  set_extra-Within : (key : Bytes) (value : Info) → Keeps (Within n b) (set_extra key value)
  unfolding set_extra
  set_extra-Within key value = Keeps-modify _ λ p w. record { count = w.count; cost = w.cost }

  -- a method of the writer that writes at most what is left
  spend :
      {A : Type 0} (m : Exec Session A) (k : ℕ) (p : Protocol)
      → length (m p.session).1.sent ≤ length p.session.sent + k
      → p.ttype_count ≡ n
      → budget p + k ≤ b
      → Within n b ((on_session m >>= λ _. pure {A = Unit {0}} tt) p).1
  unfolding on_session ◌>>=◌
  spend m k p writes count cost =
      bind-leads {R = Within n b} {Q = Within n b} (on_session m) (λ _. pure {A = Unit {0}} tt)
        (λ a s w. w) (λ s w. w) p (record { count = count; cost = omega (arith, writes, cost) })

  negotiate_environ-Within : Keeps (Within n b) negotiate_environ
  unfolding negotiate_environ ◌>>=◌
  negotiate_environ-Within = record {
    at = λ p w.
        if-leads (Within n b) p.environ_requested _ _ p (λ e. w)
          (λ e.
            spend (iac cmd_do opt_new_environ) 3 (record p { environ_requested = true })
              (iac_writes cmd_do opt_new_environ p.session (inl refl)) w.count
              (ground (arith, w.cost, e)));
  }

  module _ (lib : Library) where
    negotiate_echo-Within : Keeps (Within n b) (negotiate_echo lib)
    unfolding negotiate_echo ◌>>=◌
    negotiate_echo-Within = record {
      at = λ p w.
          if-leads (Within n b) p.echo_negotiated _ _ p (λ e. w)
            (λ e.
              if-leads (Within n b)
                (p.line_mode || is_maybe_mud lib (record p { echo_negotiated = true })) _ _
                (record p { echo_negotiated = true })
                (λ f. record { count = w.count; cost = ground (arith, w.cost) })
                (λ f.
                  spend (iac cmd_will opt_echo) 3 (record p { echo_negotiated = true })
                    (iac_writes cmd_will opt_echo p.session (inr refl)) w.count
                    (ground (arith, w.cost, e))));
    }

    ttype_environ-Within : (ttype : Bytes) → Keeps (Within n b) (ttype_environ n ttype)
    unfolding ttype_environ
    ttype_environ-Within ttype = search (keeps_rules, negotiate_environ-Within) depth 14

    ttype_received-Within : (ttype : Bytes) → Keeps (Within n b) (ttype_received lib n ttype)
    unfolding ttype_received
    ttype_received-Within ttype =
        search (keeps_rules, set_extra-Within, ttype_environ-Within, negotiate_echo-Within) depth 14

record Bounded (b : ℕ) (p : Protocol) : Type 0 where
  count : p.ttype_count ≤ 9
  cost : budget p ≤ b

Within-Bounded : (n b : ℕ) (p : Protocol) → n ≤ 9 → Within n b p → Bounded b p
Within-Bounded n b p h w = record { count = omega (arith, w.count, h); cost = w.cost }

module _ (lib : Library) (b : ℕ) where
  ttype_next-Bounded : (n : ℕ) (p : Protocol) → n ≤ 8 → Within n b p → Bounded b (ttype_next p).1
  unfolding ttype_next ◌>>=◌
  ttype_next-Bounded n p h w = Within-Bounded (suc n) b _ (omega (arith, h)) (
      spend (suc n) b (request_send opt_ttype) 6 (record p { ttype_count = suc p.ttype_count })
        (request_send_writes opt_ttype p.session) (omega (arith, w.count))
        (ground (arith, w.cost, w.count, h)))

  ends-Bounded : (n : ℕ) (p : Protocol) → n ≤ 9 → Within n b p → Bounded b (negotiate_environ p).1
  ends-Bounded n p h w = Within-Bounded n b _ h ((negotiate_environ-Within n b).at p w)

  retermed-Bounded :
      (n : ℕ) (ttype : Bytes) (p : Protocol)
      → n ≤ 9
      → Within n b p
      → Bounded b (retermed (info lib p (ttype_key 2)) p).1
  unfolding retermed ◌>>=◌ set_extra
  retermed-Bounded n ttype p h w = ends-Bounded n _ h (record { count = w.count; cost = w.cost })

  ttype_cycle-Bounded :
      (n : ℕ) (ttype : Bytes) (p : Protocol)
      → n ≤ 9
      → Within n b p
      → Bounded b (ttype_cycle lib n ttype p).1
  unfolding ttype_cycle ◌>>=◌ set_extra
  ttype_cycle-Bounded n ttype p h w =
      let Q = Bounded b in
      let first = not (ttype_key n == ttype_key 1) && is_text (info lib p (ttype_key 1)) ttype in
      let stop = is_blank ttype || ltb ttype_loopmax n in
      let mud = n == 3 && starts_with mtts (lib.upper ttype) in
      let again = is_text (info lib p (ttype_key (n - 1))) ttype in
      if-leads Q first _ _ p (λ e. ends-Bounded n p h w)
        λ e.
          if-leads Q stop _ _ p (λ f. ends-Bounded n p h w)
            λ f.
              if-leads Q mud _ _ p (λ g. retermed-Bounded n ttype p h w)
                λ g.
                  if-leads Q again _ _ p (λ i. ends-Bounded n p h w)
                    λ i. ttype_next-Bounded n p (ground (arith, f, h)) w

  on_ttype-Bounded : (ttype : Bytes) → Keeps (Bounded b) (on_ttype lib ttype)
  unfolding on_ttype ◌>>=◌
  on_ttype-Bounded ttype = record {
    at = λ p w.
        bind-leads {R = Within p.ttype_count b} {Q = Bounded b}
          (ttype_received lib p.ttype_count ttype) (λ _. ttype_cycle lib p.ttype_count ttype)
          (λ a s v. ttype_cycle-Bounded p.ttype_count ttype s w.count v)
          (λ s v. Within-Bounded p.ttype_count b s w.count v) p
          ((ttype_received-Within p.ttype_count b lib ttype).at p
            (record { count = refl; cost = w.cost }));
  }

  ttype_reported-Bounded : (ttype : Bytes) → Keeps (Bounded b) (ttype_reported lib ttype)
  unfolding ttype_reported on_session ◌>>=◌
  ttype_reported-Bounded ttype = record {
    at = λ p w.
        (on_ttype-Bounded ttype).at
          (record p {
            session =
                if pending_enabled p.session cmd_sb opt_ttype
                then set_pending cmd_sb opt_ttype false p.session
                else p.session;
          })
          (record { count = w.count; cost = ground (arith, w.cost) });
  }

  ttypes_reported-Bounded : (ttypes : List Bytes) → Keeps (Bounded b) (ttypes_reported lib ttypes)
  unfolding ttypes_reported
  ttypes_reported-Bounded [] = Keeps-pure tt
  ttypes_reported-Bounded (ttype ∷ ttypes) =
      Keeps-bind _ _ (ttype_reported-Bounded ttype) (λ _. ttypes_reported-Bounded ttypes)

-- However many terminal types a peer reports to a server that has seen none, and whatever they are,
-- the server counts to nine at most and writes at most 54 bytes: eight more requests, DO NEW_ENVIRON
-- and WILL ECHO.
pub ttypes_bounded :
    (lib : Library) (ttypes : List Bytes) (p : Protocol)
    → p.ttype_count ≡ 1
    → ((ttypes_reported lib ttypes p).1.ttype_count ≤ 9)
      × (length (ttypes_reported lib ttypes p).1.session.sent ≤ length p.session.sent + 54)
ttypes_bounded lib ttypes p first =
    let w =
      (ttypes_reported-Bounded lib (length p.session.sent + 54) ttypes).at p
        (record { count = ground (arith, first); cost = ground (arith, first) }) in
    (w.count, omega (arith, w.cost))
