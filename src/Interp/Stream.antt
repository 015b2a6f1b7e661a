-- ===== src/Interp/Stream.antt =====
-- Application data through the parser: what `_escape_iac` escapes is received as it was sent.
use telnetlib.Prelude.{
  ℕ, Bool, true, false, [], ◌∷◌, ◌++◌, ◌≡◌, ◌≢◌, refl, arith, Bytes, ◌==◌, nat_eq, Bool-cases, inl,
  inr,
}
use telnetlib.Telopt.{cmd_iac}
use telnetlib.Exec.{Result, ok, ◌>>=◌}
use telnetlib.Session.{call}
use telnetlib.Session.Requests.{escape_iac}
use telnetlib.Interp.{
  nothing, Interp, Methods, keep_cmd, is_oob, on_session, snoop_byte, other_byte, iac_byte, in_band,
  feed_byte, feed_all,
}

-- Between two commands: the next byte is neither part of a command nor of a subnegotiation.
pub record IsIdle (i : Interp) : Type 0 where
  pub no_iac : i.iac_received ≡ false
  pub no_cmd : keep_cmd i.cmd_received ≡ nothing

in_band-append :
    (r : Result Bool) (x : ℕ) (xs ys : Bytes) → in_band r x (xs ++ ys) ≡ in_band r x xs ++ ys
in_band-append (ok true) x xs ys = refl
in_band-append _ x xs ys = refl

module _ (m : Methods) where
  pub feed_byte-plain :
      (b : ℕ) (i : Interp)
      → IsIdle i
      → b ≢ cmd_iac
      → ((feed_byte m b i).0 ≡ ok true) × IsIdle (feed_byte m b i).1
  unfolding feed_byte other_byte snoop_byte on_session call is_oob keep_cmd ◌>>=◌
  feed_byte-plain b i h ne = ground (arith, h.no_iac, h.no_cmd)

  -- after an IAC of data
  record IsEscaped (i : Interp) : Type 0 where
    iac : i.iac_received ≡ true
    no_cmd : keep_cmd i.cmd_received ≡ nothing

  feed_byte-iac :
      (i : Interp)
      → IsIdle i
      → ((feed_byte m cmd_iac i).0 ≡ ok false) × IsEscaped (feed_byte m cmd_iac i).1
  unfolding feed_byte iac_byte is_oob keep_cmd ◌>>=◌
  feed_byte-iac i h = ground (arith, h.no_iac, h.no_cmd)

  feed_byte-iac_again :
      (i : Interp)
      → IsEscaped i
      → ((feed_byte m cmd_iac i).0 ≡ ok true) × IsIdle (feed_byte m cmd_iac i).1
  unfolding feed_byte iac_byte is_oob keep_cmd ◌>>=◌
  feed_byte-iac_again i h = ground (arith, h.iac, h.no_cmd)

  -- what the reader gets of a stream, and the parser behind it
  pub feed_all-append :
      (xs ys : Bytes) (i : Interp)
      → feed_all m (xs ++ ys) i ≡ (
        (feed_all m xs i).0 ++ (feed_all m ys (feed_all m xs i).1).0,
        (feed_all m ys (feed_all m xs i).1).1,
      )
  unfolding feed_all
  feed_all-append [] ys i = refl
  feed_all-append (x ∷ xs) ys i =
      rw (feed_all-append xs ys (feed_byte m x i).1, in_band-append (feed_byte m x i).0)

  -- Whatever bytes `_escape_iac` is given, a peer between two commands passes exactly these bytes
  -- on to its reader, and is between two commands again, in every mode and whatever its handlers
  -- do.
  pub feed_all-escape_iac :
      (sent : Bytes) (i : Interp)
      → IsIdle i
      → ((feed_all m (escape_iac sent) i).0 ≡ sent) × IsIdle (feed_all m (escape_iac sent) i).1
  unfolding feed_all escape_iac
  feed_all-escape_iac [] i h = (refl, h)
  feed_all-escape_iac (c ∷ cs) i h = elim (Bool-cases (c == cmd_iac)) [
    | inl is_iac ↦
        let first = feed_byte-iac i h in
        let again = feed_byte-iac_again (feed_byte m cmd_iac i).1 first.1 in
        let rest = feed_all-escape_iac cs _ again.1 in
        (ground (arith, first.0, again.0, rest.0), ground (arith, rest.1))
    | inr not_iac ↦
        let first = feed_byte-plain c i h (ground arith) in
        let rest = feed_all-escape_iac cs _ first.1 in
        rw not_iac (ground (arith, first.0, rest.0), rest.1)
  ]
