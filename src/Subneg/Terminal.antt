-- ===== src/Subneg/Terminal.antt =====
-- stream_writer.py: the `_handle_sb_` methods of NAWS, LFLOW, TSPEED, TTYPE, XDISPLOC and SNDLOC. Each
-- takes the bytes behind the option.
use telnetlib.Prelude.{
  ℕ, ◌+◌, ◌*◌, Bool, true, false, not, ◌&&◌, ◌||◌, [], ◌∷◌, ◌++◌, none, some, if◌then◌else◌, ◌==◌,
  nat_eq, ltb, Bytes,
}
use telnetlib.Telopt.{
  cmd_will, sub_is, sub_send, opt_naws, opt_lflow, opt_tspeed, opt_ttype, opt_xdisploc, lflow_off,
  lflow_on, lflow_restart_any, lflow_restart_xon,
}
use telnetlib.Exec.{
  pure, raise, gets, modify, ◌>>=◌, ◌>>◌, when, value_error, index_error, struct_error,
  unicode_error,
}
use telnetlib.Host.{Host}
use telnetlib.Session.{
  Act, naws_called, ttype_called, xdisploc_called, sndloc_called, tspeed_called, remote_enabled,
  local_enabled, pending_enabled, set_pending, set_remote, send_iac, call,
}
use telnetlib.Session.Requests.{frame}

abbrev pub is_ascii : Bytes → Bool
is_ascii [] = true
is_ascii (c ∷ cs) = ltb c 128 && is_ascii cs

-- text.encode("ascii") and buf.decode("ascii")
unfoldable pub ascii : Bytes → Act Bytes
ascii text = if is_ascii text then pure text else raise unicode_error

-- `cols, rows = struct.unpack("!HH", buf)` and the callback
unfoldable pub unpack_hh : Bytes → Act (Unit {0})
unpack_hh (a ∷ b ∷ c ∷ d ∷ []) = call (naws_called (c * 256 + d) (a * 256 + b))
unpack_hh _ = raise struct_error

-- _handle_sb_naws
unfoldable pub handle_sb_naws : Bytes → Act (Unit {0})
handle_sb_naws buf = do
  assumed ← gets (λ s. not (remote_enabled s opt_naws) && not s.in_loop_detection)
  when assumed (modify (set_remote (opt_naws ∷ []) true))
  unpack_hh buf

-- _handle_sb_lflow
unfoldable pub handle_sb_lflow : Bytes → Act (Unit {0})
handle_sb_lflow buf = do
  allowed ← gets (λ s. local_enabled s opt_lflow)
  if not allowed then raise value_error else elim buf [
    | [] ↦ raise index_error
    | opt ∷ rest ↦
        if opt == lflow_off || opt == lflow_on
        then modify (λ s. record s { lflow = opt == lflow_on })
        else if opt == lflow_restart_any || opt == lflow_restart_xon
        then modify (λ s. record s { xon_any = opt == lflow_restart_xon })
        else raise value_error
  ]

-- The bytes up to a comma, and those behind it.
until_comma : Bytes → Bytes × Bytes
until_comma [] = ([], [])
until_comma (c ∷ cs) =
    let (before, after) = until_comma cs in if c == b',' then ([], cs) else (c ∷ before, after)

-- `if self.pending_option.enabled(WILL + opt): self.pending_option[WILL + opt] = False`
abbrev pub settle_will : ℕ → Act (Unit {0})
settle_will opt = do
  waiting ← gets (λ s. pending_enabled s cmd_will opt)
  when waiting (modify (set_pending cmd_will opt false))

-- The two speeds that were received; an illegal one is only logged.
report_speeds : Host → Bytes → Bytes → Act (Unit {0})
report_speeds host rx tx = elim (host.parse_int rx) [
  | none ↦ pure tt
  | some rx_int ↦ elim (host.parse_int tx) [
    | none ↦ pure tt
    | some tx_int ↦ call (tspeed_called rx_int tx_int)
  ]
]

-- _handle_sb_tspeed
unfoldable pub handle_sb_tspeed : Host → Bytes → Act (Unit {0})
unfolding until_comma report_speeds
handle_sb_tspeed host [] = raise index_error
handle_sb_tspeed host (opt ∷ buf) =
    let (rx_buf, rest) = until_comma buf in
    let (tx_buf, ignored) = until_comma rest in
    if opt == sub_is
    then (do rx ← ascii rx_buf; tx ← ascii tx_buf; report_speeds host rx tx)
    else if opt == sub_send
    then (do
      send_iac (frame opt_tspeed (sub_is ∷ (host.rx ++ (b',' ∷ host.tx))))
      settle_will opt_tspeed)
    else pure tt

-- _handle_sb_xdisploc
unfoldable pub handle_sb_xdisploc : Host → Bytes → Act (Unit {0})
handle_sb_xdisploc host [] = raise index_error
handle_sb_xdisploc host (opt ∷ buf) =
    if opt == sub_is
    then (do text ← ascii buf; call (xdisploc_called text))
    else if opt == sub_send
    then (do
      text ← ascii host.xdisploc
      send_iac (frame opt_xdisploc (sub_is ∷ text))
      settle_will opt_xdisploc)
    else pure tt

-- _handle_sb_ttype
unfoldable pub handle_sb_ttype : Host → Bytes → Act (Unit {0})
handle_sb_ttype host [] = raise index_error
handle_sb_ttype host (opt ∷ buf) =
    if opt == sub_is
    then (do
      server ← gets (λ s. s.server)
      if server then (do text ← ascii buf; call (ttype_called text)) else pure tt)
    else if opt == sub_send
    then (do
      text ← ascii host.ttype
      send_iac (frame opt_ttype (sub_is ∷ text))
      settle_will opt_ttype)
    else pure tt

-- _handle_sb_sndloc
unfoldable pub handle_sb_sndloc : Bytes → Act (Unit {0})
handle_sb_sndloc buf = do text ← ascii buf; call (sndloc_called text)
