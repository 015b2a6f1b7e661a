-- ===== src/Subneg/Texts.antt =====
-- stream_writer.py: `_handle_sb_charset` and `_handle_sb_environ`, for the bytes behind the option.
use telnetlib.Prelude.{
  ℕ, Bool, true, false, not, ◌||◌, List, [], ◌∷◌, ◌++◌, none, some, if◌then◌else◌, ◌==◌, nat_eq,
  bytes_eq, Bytes, elem,
}
use telnetlib.Telopt.{
  cmd_sb, sub_is, sub_send, sub_info, opt_charset, opt_new_environ, opt_ttype, charset_request,
  charset_accepted, charset_rejected,
}
use telnetlib.Dict.{Dict}
use telnetlib.Exec.{
  pure, raise, gets, modify, ◌>>=◌, ◌>>◌, when, value_error, index_error, not_implemented,
}
use telnetlib.Environ.{encode_env_buf, decode_env_buf}
use telnetlib.Host.{Host}
use telnetlib.Session.{Act, charset_called, environ_called, set_pending, send_iac, call}
use telnetlib.Session.Requests.{frame, send_environ_batch}
use telnetlib.Subneg.Terminal.{ascii, settle_will}

-- buf.split(sep), where `cur` is the part that is being read
split_from : ℕ → Bytes → Bytes → List Bytes
split_from sep cur [] = cur ∷ []
split_from sep cur (c ∷ cs) =
    let next = cur ∷ split_from sep [] cs in
    let same = split_from sep (cur ++ (c ∷ [])) cs in if c == sep then next else same

-- [charset.decode("ascii") for charset in parts]
ascii_each : List Bytes → Act (List Bytes)
ascii_each [] = pure []
ascii_each (part ∷ parts) = do text ← ascii part; texts ← ascii_each parts; pure (text ∷ texts)

-- `self.environ_encoding = charset` and `_force_binary_on_protocol`
abbrev use_charset : Bytes → Act (Unit {0})
use_charset charset = modify (λ s. record s { environ_encoding = charset; force_binary = true })

-- The branch of REQUEST.
charset_requested : Host → Bytes → Act (Unit {0})
charset_requested host [] = raise index_error
charset_requested host (sep ∷ buf) = do
  offers ← ascii_each (split_from sep [] buf)
  elim (host.charset_reply offers) [
    | none ↦ send_iac (frame opt_charset (charset_rejected ∷ []))
    | some selected ↦ (do
      text ← ascii selected
      send_iac (frame opt_charset (charset_accepted ∷ text))
      use_charset selected)
  ]

-- _handle_sb_charset; 4 to 7 are the commands of translation tables
unfoldable pub handle_sb_charset : Host → Bytes → Act (Unit {0})
unfolding split_from ascii_each charset_requested
handle_sb_charset host [] = raise index_error
handle_sb_charset host (opt ∷ buf) =
    if opt == charset_request
    then charset_requested host buf
    else if opt == charset_accepted
    then (do charset ← ascii buf; use_charset charset; call (charset_called charset))
    else if opt == charset_rejected
    then pure tt
    else if elem opt (4 ∷ 5 ∷ 6 ∷ 7 ∷ [])
    then raise not_implemented
    else raise value_error

abbrev pub keys_of : Dict Bytes Bytes → List Bytes
keys_of [] = []
keys_of ((key, value) ∷ env) = key ∷ keys_of env

abbrev pub is_empty : Dict Bytes Bytes → Bool
is_empty [] = true
is_empty (item ∷ env) = false

-- `if self._environ_batches: self._send_environ_batch(self._environ_batches.pop(0))`
unfoldable pub send_next_batch : Host → Act (Unit {0})
send_next_batch host = do
  batches ← gets (λ s. s.environ_batches)
  elim batches [
    | [] ↦ pure tt
    | first ∷ rest ↦ (do
      modify (λ s. record s { environ_batches = rest })
      send_environ_batch host first)
  ]

-- The branch of IS and INFO.
unfoldable pub environ_received : Host → ℕ → Dict Bytes Bytes → Act (Unit {0})
environ_received host opt env = do
  when (opt == sub_is) (modify (set_pending cmd_sb opt_new_environ false))
  when (not (is_empty env)) (call (environ_called env))
  send_next_batch host

-- The branch of SEND; it clears the pending WILL of TTYPE.
unfoldable pub environ_requested : Host → Dict Bytes Bytes → Act (Unit {0})
environ_requested host env = do
  encoding ← gets (λ s. s.environ_encoding)
  send_iac (
      frame opt_new_environ
        (sub_is ∷ encode_env_buf (host.encode encoding) (host.environ_reply (keys_of env))))
  settle_will opt_ttype

-- _handle_sb_environ
unfoldable pub handle_sb_environ : Host → Bytes → Act (Unit {0})
handle_sb_environ host [] = raise index_error
handle_sb_environ host (opt ∷ raw) = do
  when (opt == sub_send) (modify (λ s. record s { environ_send_raw = some raw }))
  encoding ← gets (λ s. s.environ_encoding)
  let env = decode_env_buf (host.decode encoding) raw in
      if opt == sub_is || opt == sub_info
      then environ_received host opt env
      else if opt == sub_send
      then environ_requested host env
      else pure tt
