-- ===== src/Interp/Buffer.antt =====
-- The subnegotiation buffer holds bytes only while a subnegotiation is read.
use telnetlib.Prelude.{ℕ, [], ◌∷◌, ◌≡◌, ◌⊎◌, arith, Bytes, nat_eq, elem}
use telnetlib.Telopt.{cmd_sb}
use telnetlib.Exec.{◌>>=◌}
use telnetlib.Session.{call}
use telnetlib.Interp.{
  byte, Interp, Methods, keep_cmd, is_oob, on_session, second_byte, snoop_byte, sb_end, third_byte,
  command_byte, other_byte, iac_byte, feed_byte, feed_all,
}

-- Nothing is buffered, or a subnegotiation has begun and not ended.
abbrev pub IsWellFormed : Interp → Type 0
IsWellFormed i = (i.sb_buffer ≡ []) ⊎ (i.cmd_received ≡ byte cmd_sb)

module _ (m : Methods) where
  feed_byte-IsWellFormed : (b : ℕ) (i : Interp) → IsWellFormed i → IsWellFormed (feed_byte m b i).1
  unfolding feed_byte iac_byte other_byte second_byte snoop_byte command_byte sb_end third_byte
      on_session call is_oob keep_cmd elem ◌>>=◌
  feed_byte-IsWellFormed b i h = ground arith

  -- Whatever bytes are read, and whatever the handlers do or raise, a parser that holds buffered
  -- bytes only within a subnegotiation does so afterwards.
  pub feed_all-IsWellFormed :
      (bytes : Bytes) (i : Interp) → IsWellFormed i → IsWellFormed (feed_all m bytes i).1
  unfolding feed_all
  feed_all-IsWellFormed [] i h = h
  feed_all-IsWellFormed (b ∷ bs) i h =
      feed_all-IsWellFormed bs (feed_byte m b i).1 (feed_byte-IsWellFormed b i h)
