-- ===== src/Writer/Payloads.antt =====
-- The payloads of GMCP, MSDP and MSSP between two writers.
use telnetlib.Prelude.{
  ℕ, suc, ◌*◌, ◌<◌, true, false, ◌||◌, [], ◌∷◌, ◌++◌, some, ◌≡◌, ◌≢◌, arith, Bytes, nat_eq,
  bytes_eq, elem, length,
}
use telnetlib.Telopt.{cmd_iac, opt_gmcp, opt_msdp, opt_mssp}
use telnetlib.Dict.{Dict}
use telnetlib.Exec.{ok, ◌>>=◌}
use telnetlib.Host.{Host}
use telnetlib.Mud.Codecs.{Json, gmcp_decode}
use telnetlib.Mud.Msdp.{Value, Fields, field, msdp_encode, encode_fields, msdp_decode, done}
use telnetlib.Mud.Msdp.RoundTrip.{ArePlainFields, msdp_decode-encode}
use telnetlib.Mud.Mssp.{MsspValue, mssp_encode, mssp_decode}
use telnetlib.Mud.Mssp.RoundTrip.{ArePlainVariables, mssp_decode-encode}
use telnetlib.Session.{
  Session, Event, local_enabled, remote_enabled, send_iac, call, msdp_called, mssp_called,
  gmcp_called,
}
use telnetlib.Session.Requests.{escape_iac, frame}
use telnetlib.Session.Payloads.{Codec, send_payload, send_msdp, send_mssp}
use telnetlib.Subneg.{fn_call, handle_subnegotiation}
use telnetlib.Subneg.Payloads.{
  handle_sb_mud, handle_sb_gmcp, handle_sb_msdp, handle_sb_mssp, payload_decode,
}
use telnetlib.Interp.{Interp, feed_all}
use telnetlib.Interp.Stream.{IsIdle}
use telnetlib.Interp.Commands.{feed_all-frame}
use telnetlib.Writer.{telnet_writer}

-- The writer is open, nothing was written, and one of the sides has the option.
pub record CanSend (opt : ℕ) (s : Session) : Type 0 where
  pub conn : s.closing ≡ false
  pub fresh : s.sent ≡ []
  pub known : (local_enabled s opt || remote_enabled s opt) ≡ true

send_payload-sent :
    (opt : ℕ) (payload : Bytes) (s : Session)
    → CanSend opt s
    → (send_payload opt payload s).1.sent ≡ frame opt (escape_iac payload)
unfolding send_payload send_iac ◌>>=◌
send_payload-sent opt payload s h = ground (arith, h.conn, h.fresh, h.known)

module _ (peer : Host) (codec : Codec) (fuel : ℕ) where
  -- The peer calls one callback, and is where it was.
  abbrev pub Hears : Interp → Bytes → Event → Type 0
  Hears i sent event =
      let after = feed_all (telnet_writer peer (handle_sb_mud codec fuel)) sent i in
      (after.0 ≡ []) × IsIdle after.1 × (after.1.session.events ≡ i.session.events ++ (event ∷ []))

  payload_reported :
      (opt : ℕ) (payload : Bytes) (event : Event) (s : Session) (i : Interp)
      → CanSend opt s
      → IsIdle i
      → i.sb_buffer ≡ []
      → opt ≢ cmd_iac
      → (handle_subnegotiation peer (handle_sb_mud codec fuel) (opt ∷ payload) i.session).1.events
        ≡ i.session.events ++ (event ∷ [])
      → Hears i (send_payload opt payload s).1.sent event
  payload_reported opt payload event s i can idle empty ne heard =
      let (quiet, end) =
        feed_all-frame (telnet_writer peer (handle_sb_mud codec fuel)) opt payload i idle empty
          ne in
      rw (send_payload-sent opt payload s can) (quiet, end.idle, rw end.session heard)

  msdp_heard :
      (k : ℕ) (ks : Bytes) (variables : Fields) (rest : Bytes) (s : Session)
      → msdp_decode (payload_decode codec s) fuel (k ∷ ks) ≡ done variables rest
      → (handle_subnegotiation peer (handle_sb_mud codec fuel) (opt_msdp ∷ k ∷ ks) s).1.events
        ≡ s.events ++ (msdp_called variables ∷ [])
  unfolding handle_subnegotiation fn_call handle_sb_mud handle_sb_msdp call ◌>>=◌ elem
  msdp_heard k ks variables rest s e = ground (arith, e)

  mssp_heard :
      (k : ℕ) (ks : Bytes) (variables : Dict Bytes MsspValue) (s : Session)
      → mssp_decode (payload_decode codec s) fuel (k ∷ ks) ≡ some variables
      → (handle_subnegotiation peer (handle_sb_mud codec fuel) (opt_mssp ∷ k ∷ ks) s).1.events
        ≡ s.events ++ (mssp_called variables ∷ [])
  unfolding handle_subnegotiation fn_call handle_sb_mud handle_sb_mssp call ◌>>=◌ elem
  mssp_heard k ks variables s e = ground (arith, e)

  gmcp_heard :
      (k : ℕ) (ks name : Bytes) (data_ : Json) (s : Session)
      → gmcp_decode codec.json (payload_decode codec s) (k ∷ ks) ≡ ok (name, data_)
      → (handle_subnegotiation peer (handle_sb_mud codec fuel) (opt_gmcp ∷ k ∷ ks) s).1.events
        ≡ s.events ++ (gmcp_called name data_ ∷ [])
  unfolding handle_subnegotiation fn_call handle_sb_mud handle_sb_gmcp call ◌>>=◌ elem
  gmcp_heard k ks name data_ s e = ground (arith, e)

  -- The MSDP variables that a writer sends, one at least, with tables and lists within each other to
  -- any depth, reach the peer's callback, whole and in order: what `send_msdp` writes on an open
  -- connection, on which nothing was written before and where one of the two sides has MSDP, makes a
  -- peer that is between two commands with nothing buffered call the callback once, with the
  -- variables; nothing of it reaches the peer's reader, also where a byte is 255, and the peer is
  -- between two commands again. Both have the codec, which in the peer's encoding gives back each
  -- text and the empty text from no bytes, no encoded text holds one of the six bytes of MSDP, the
  -- keys of each table differ, and the fuel is more than twice the payload and one.
  pub msdp_reported :
      (k : Bytes) (v : Value) (more : Fields) (s : Session) (i : Interp)
      → let variables = field k v more in
        CanSend opt_msdp s
        → IsIdle i
        → i.sb_buffer ≡ []
        → payload_decode codec i.session [] ≡ some []
        → ArePlainFields codec.encode (payload_decode codec i.session) variables
        → suc (2 * length (msdp_encode codec.encode variables)) < fuel
        → Hears i (send_msdp codec variables s).1.sent (msdp_called variables)
  unfolding send_msdp msdp_encode encode_fields
  msdp_reported k v more s i can idle empty nothing plain enough =
      payload_reported opt_msdp _ (msdp_called (field k v more)) s i can idle empty (omega arith) (
        msdp_heard _ _ (field k v more) [] i.session (
          msdp_decode-encode codec.encode (payload_decode codec i.session) nothing (field k v more)
            fuel plain enough))

  -- The MSSP variables that a writer sends, one at least, reach the peer's callback, whole and in
  -- order: what `send_mssp` writes on an open connection, on which nothing was written before and
  -- where one of the two sides has MSSP, makes a peer that is between two commands with nothing
  -- buffered call the callback once, with the variables; nothing of it reaches the peer's reader,
  -- and the peer is between two commands again. Both have the codec, which in the peer's encoding
  -- gives back each key and value, no encoded text holds MSSP_VAR or MSSP_VAL, the keys differ, no
  -- list has fewer than two values, and the fuel is more than the length of the payload.
  pub mssp_reported :
      (k : Bytes) (v : MsspValue) (more : Dict Bytes MsspValue) (s : Session) (i : Interp)
      → let variables = (k, v) ∷ more in
        CanSend opt_mssp s
        → IsIdle i
        → i.sb_buffer ≡ []
        → ArePlainVariables codec.encode (payload_decode codec i.session) variables
        → length (mssp_encode codec.encode variables) < fuel
        → Hears i (send_mssp codec variables s).1.sent (mssp_called variables)
  unfolding send_mssp mssp_encode
  mssp_reported k v more s i can idle empty plain enough =
      payload_reported opt_mssp _ (mssp_called ((k, v) ∷ more)) s i can idle empty (omega arith) (
        mssp_heard _ _ ((k, v) ∷ more) i.session (
          mssp_decode-encode codec.encode (payload_decode codec i.session) ((k, v) ∷ more) fuel
            plain enough))
