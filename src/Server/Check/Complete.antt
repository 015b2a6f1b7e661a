-- ===== src/Server/Check/Complete.antt =====
-- When the negotiation of server.py is over.
use telnetlib.Prelude.{
  Bool, true, false, ◌&&◌, ◌||◌, not, if◌then◌else◌, bytes_eq, nat_eq, ◌≡◌, refl, ap, ◌∙◌, Bytes,
  arith,
}
use telnetlib.Exec.{Exc, ok, err, continue, ◌>>=◌}
use telnetlib.Exec.Keeps.{bind-ok}
use telnetlib.Host.{Host}
use telnetlib.Server.{Library, Protocol, Srv}
use telnetlib.Server.Variables.{encoding}
use telnetlib.Server.Check.{
  check_encoding, ttype_refused, is_unset, check_outcome, check_negotiation,
  check_negotiation_timer, timer_end, encoding_logged, any_on, is_waiting,
}
use telnetlib.Server.Check.Steps.{
  check_encoding-Checked, check_negotiation-outcome, based, deferred,
}

outcome_total :
    (final waiting parent result : Bool) (p : Protocol)
    → (b : Bool) × ((check_outcome final waiting parent result p).0 ≡ ok b)
unfolding check_outcome ◌>>=◌
outcome_total final waiting parent result p = (
  (if is_unset p.waiter_encoding && result
      then not waiting && (parent && result)
      else if is_unset p.waiter_encoding && (ttype_refused p || final)
      then parent
      else not waiting && (parent && result)),
  ground arith,
)

timer_final :
    (b : Bool) (p : Protocol)
    → ((timer_end true b p).0 ≡ ok false) × ((timer_end true b p).1.waiter_connected ≡ true)
unfolding timer_end ◌>>=◌
timer_final true p = (refl, refl)
timer_final false p = (refl, refl)

module _ (lib : Library) (host : Host) where
  -- the last part of `check_negotiation`, behind the call of `encoding`
  abbrev pub outcome : Bool → Protocol → Srv Bool
  outcome final p =
      check_outcome final (is_waiting (deferred lib host final p))
        (not (any_on (deferred lib host final p).session.pending_option))
        (check_encoding-Checked lib host (based lib host final p)).result

  -- the state in which `encoding` is called
  abbrev pub checked : Bool → Protocol → Protocol
  checked final p = (check_encoding lib host (based lib host final p)).1

  -- Where `encoding` returns, the result is that of the last part.
  pub outcome_reached :
      (final : Bool) (p : Protocol) (codec : Bytes)
      → encoding lib (checked final p) true true ≡ ok codec
      → check_negotiation lib host final p ≡ outcome final p (checked final p)
  unfolding encoding_logged
  outcome_reached final p codec h =
      check_negotiation-outcome lib host final p
      ∙ bind-ok (encoding_logged lib) (λ _. outcome final p) (checked final p) codec h

  -- Where it raises, `check_negotiation` does.
  encoding_raises :
      (final : Bool) (p : Protocol) (x : Exc)
      → encoding lib (checked final p) true true ≡ err x
      → check_negotiation lib host final p ≡ (err x, checked final p)
  unfolding encoding_logged ◌>>=◌
  encoding_raises final p x h =
      check_negotiation-outcome lib host final p
      ∙ ap (λ r. continue r (λ _. outcome final p) (checked final p)) h

  -- The last call of the timer, where `encoding` returns.
  pub timer_ends :
      (p : Protocol) (codec : Bytes)
      → encoding lib (checked true p) true true ≡ ok codec
      → ((check_negotiation_timer lib host true p).0 ≡ ok false)
        × ((check_negotiation_timer lib host true p).1.waiter_connected ≡ true)
  unfolding check_negotiation_timer ◌>>=◌
  timer_ends p codec v =
      let (b, e) = outcome_total true _ _ _ (checked true p) in
      let returns = ap (λ r. r.0) (outcome_reached true p codec v) ∙ e in
      let h = bind-ok (check_negotiation lib host true) (timer_end true) p b returns in
      let t = timer_final b (check_negotiation lib host true p).1 in
      (ap (λ r. r.0) h ∙ t.0, ap (λ r. r.1.waiter_connected) h ∙ t.1)

  -- The last call of the timer, where it raises.
  pub timer_raises :
      (p : Protocol) (x : Exc)
      → encoding lib (checked true p) true true ≡ err x
      → check_negotiation_timer lib host true p ≡ (err x, checked true p)
  unfolding check_negotiation_timer ◌>>=◌
  timer_raises p x v = ap (λ r. continue r.0 (timer_end true) r.1) (encoding_raises true p x v)
