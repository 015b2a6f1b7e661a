-- ===== src/Writer/Reports.antt =====
-- What one writer sends in a subnegotiation reaches the callback of its peer.
use telnetlib.Prelude.{
  ℕ, false, [], ◌∷◌, ◌++◌, ◌≡◌, ◌≢◌, refl, arith, Bytes, nat_eq, bytes_eq, elem, All,
}
use telnetlib.Telopt.{cmd_iac, opt_naws, opt_new_environ, sub_is}
use telnetlib.Dict.{Dict}
use telnetlib.Exec.{◌>>=◌}
use telnetlib.Environ.{encode_env_buf, decode_env_buf}
use telnetlib.Environ.RoundTrip.{Distinct, IsSendable, decode-encode_env_buf}
use telnetlib.Host.{Host}
use telnetlib.Session.{Session, Act, naws_called, environ_called, send_iac, call}
use telnetlib.Session.Requests.{escape_iac, frame, clamp, pack_hh, send_naws, send_environ_batch}
use telnetlib.Subneg.{fn_call, handle_subnegotiation}
use telnetlib.Subneg.Terminal.{handle_sb_naws, unpack_hh}
use telnetlib.Subneg.Texts.{
  keys_of, is_empty, environ_requested, environ_received, handle_sb_environ, send_next_batch,
}
use telnetlib.Interp.{Interp, feed_all}
use telnetlib.Interp.Stream.{IsIdle}
use telnetlib.Interp.Commands.{feed_all-frame}
use telnetlib.Writer.{telnet_writer}

send_naws-sent :
    (host : Host) (s : Session)
    → s.closing ≡ false
    → (send_naws host s).1.sent
      ≡ s.sent ++ frame opt_naws (escape_iac (pack_hh (clamp host.cols) (clamp host.rows)))
unfolding send_naws send_iac ◌>>=◌
send_naws-sent host s conn = ground arith

module _ (host peer : Host) (mud : ℕ → Bytes → Act (Unit {0})) where
  naws_heard :
      (cols rows : ℕ) (s : Session)
      → (handle_subnegotiation peer mud (opt_naws ∷ pack_hh cols rows) s).1.events
        ≡ s.events ++ (naws_called rows cols ∷ [])
  unfolding handle_subnegotiation fn_call handle_sb_naws unpack_hh call ◌>>=◌ elem
  naws_heard cols rows s = ground arith

  -- The size of a window, whatever integers the application gives, reaches the peer: what
  -- `_send_naws` writes on an open connection, on which nothing was written before, makes a peer
  -- that is between two commands with nothing buffered call its NAWS callback once, with the rows
  -- and the columns limited to 0 to 65535; nothing of it reaches the peer's reader, also where a
  -- byte of the size is 255, and the peer is between two commands again.
  pub naws_reported :
      (s : Session) (i : Interp)
      → s.closing ≡ false
      → s.sent ≡ []
      → IsIdle i
      → i.sb_buffer ≡ []
      → let after = feed_all (telnet_writer peer mud) (send_naws host s).1.sent i in
        (after.0 ≡ [])
        × IsIdle after.1
        × (after.1.session.events
            ≡ i.session.events ++ (naws_called (clamp host.rows) (clamp host.cols) ∷ []))
  naws_reported s i conn fresh idle empty =
      let size = pack_hh (clamp host.cols) (clamp host.rows) in
      let (quiet, done) =
        feed_all-frame (telnet_writer peer mud) opt_naws size i idle empty (omega arith) in
      rw (send_naws-sent host s conn, fresh)
        (
          quiet,
          done.idle,
          rw done.session (naws_heard (clamp host.cols) (clamp host.rows) i.session),
        )

escape_iac-plain : (buf : Bytes) → All (λ c. c ≢ cmd_iac) buf → escape_iac buf ≡ buf
unfolding escape_iac
escape_iac-plain [] a = refl
escape_iac-plain (c ∷ cs) (ne, a) = ground (arith, escape_iac-plain cs a)

module _ (host peer : Host) (mud : ℕ → Bytes → Act (Unit {0})) where
  environ_requested-sent :
      (wanted : Dict Bytes Bytes) (s : Session)
      → s.closing ≡ false
      → (environ_requested host wanted s).1.sent
        ≡ s.sent
          ++ frame opt_new_environ (
              sub_is
              ∷ encode_env_buf
                  (host.encode s.environ_encoding)
                  (host.environ_reply (keys_of wanted)))
  unfolding environ_requested send_iac ◌>>=◌
  environ_requested-sent wanted s conn = ground arith

  environ_heard :
      (buf : Bytes) (env : Dict Bytes Bytes) (s : Session)
      → decode_env_buf (peer.decode s.environ_encoding) buf ≡ env
      → is_empty env ≡ false
      → (handle_subnegotiation peer mud (opt_new_environ ∷ sub_is ∷ buf) s).1.events
        ≡ s.events ++ (environ_called env ∷ [])
  unfolding handle_subnegotiation fn_call handle_sb_environ environ_received send_next_batch
      send_environ_batch send_iac call ◌>>=◌ elem
  environ_heard buf env s decoded some_env = ground (arith, decoded)

  -- The environment that a client sends when it is asked for its variables reaches the server's
  -- callback, whole and in order: what the client writes on an open connection, on which nothing was
  -- written before, makes a peer that is between two commands with nothing buffered call the
  -- callback once, with the client's variables, of which there is one at least. The peer decodes
  -- each name and value that the client encodes; the names are different, no encoded name holds a
  -- VALUE byte, no encoded value ends with ESC, and no encoded byte is 255, which the writer does
  -- not escape here.
  pub environ_reported :
      (wanted env : Dict Bytes Bytes) (s : Session) (i : Interp)
      → s.closing ≡ false
      → s.sent ≡ []
      → IsIdle i
      → i.sb_buffer ≡ []
      → host.environ_reply (keys_of wanted) ≡ env
      → is_empty env ≡ false
      → Distinct env
      → All
          (IsSendable (host.encode s.environ_encoding) (peer.decode i.session.environ_encoding))
          env
      → All (λ c. c ≢ cmd_iac) (encode_env_buf (host.encode s.environ_encoding) env)
      → let after = feed_all (telnet_writer peer mud) (environ_requested host wanted s).1.sent i in
        (after.0 ≡ [])
        × IsIdle after.1
        × (after.1.session.events ≡ i.session.events ++ (environ_called env ∷ []))
  environ_reported wanted env s i conn fresh idle empty chosen some_env distinct sendable plain =
      let payload = sub_is ∷ encode_env_buf (host.encode s.environ_encoding) env in
      let (quiet, done) =
        feed_all-frame (telnet_writer peer mud) opt_new_environ payload i idle empty
          (omega arith) in
      let same = escape_iac-plain payload (omega arith, plain) in
      let decoded =
        decode-encode_env_buf (host.encode s.environ_encoding)
          (peer.decode i.session.environ_encoding) env distinct sendable in
      rw (environ_requested-sent wanted s conn, fresh, chosen)
        (
          rw same at quiet,
          (rw same at done).idle,
          rw (rw same at done).session (environ_heard _ env i.session decoded some_env),
        )
