-- ===== src/Subneg/Linemode.antt =====
-- stream_writer.py: `_handle_sb_linemode` and the methods that it calls, for the bytes behind the
-- option.
pub mod Modes
use telnetlib.Prelude.{
  ℕ, ◌%◌, true, not, ◌&&◌, ◌||◌, [], ◌∷◌, some, if◌then◌else◌, ◌==◌, nat_eq, leb, Bytes, bit_or,
  length, elem,
}
use telnetlib.Telopt.{
  cmd_do, cmd_dont, cmd_will, cmd_wont, cmd_sb, opt_linemode, lmode_mode, lmode_slc,
  lmode_forwardmask,
}
use telnetlib.Exec.{pure, raise, gets, modify, ◌>>=◌, ◌>>◌, when, value_error, index_error}
use telnetlib.Slc.Objects.{linemode_eq, is_linemode_ack, lmode_ack}
use telnetlib.Slc.Change.{slc_send, process_triplets}
use telnetlib.Session.{Act, remote_enabled, local_enabled, set_local, set_remote, on_tabs}
use telnetlib.Session.Requests.{send_linemode, slc_start, slc_end, request_forwardmask}

-- A mode without the acknowledge bit.
unfoldable pub suggested_mode : ℕ → Act (Unit {0})
suggested_mode mask = do
  s ← gets (λ s. s)
  if linemode_eq s.linemode mask
      then pure tt
      else if not (local_enabled s opt_linemode || remote_enabled s opt_linemode)
      then pure tt
      else (do
        send_linemode (bit_or mask lmode_ack)
        modify (λ s. record s { linemode = bit_or mask lmode_ack }))

-- A mode with the bit.
unfoldable pub acknowledged_mode : ℕ → Act (Unit {0})
acknowledged_mode mask = do
  s ← gets (λ s. s)
  if not s.server
      then when (linemode_eq s.linemode mask) (modify (λ s. record s { linemode = mask }))
      else (do
        modify (λ s. record s { linemode = mask })
        when (not s.tabs.slc_sent) (do
          slc_start
          on_tabs (slc_send true [])
          slc_end
          modify (λ s. record s { tabs = record s.tabs { slc_sent = true } })))

-- _handle_sb_linemode_mode
unfoldable pub handle_sb_linemode_mode : Bytes → Act (Unit {0})
handle_sb_linemode_mode [] = raise value_error
handle_sb_linemode_mode (mask ∷ rest) =
    if is_linemode_ack mask then acknowledged_mode mask else suggested_mode mask

-- _handle_sb_linemode_slc
unfoldable pub handle_sb_linemode_slc : Bytes → Act (Unit {0})
handle_sb_linemode_slc buf = if not (length buf % 3 == 0) then raise value_error else (do
  server ← gets (λ s. s.server)
  on_tabs (process_triplets server buf)
  pending ← gets (λ s. not (length s.tabs.slc_buffer == 0))
  when pending (do slc_start; slc_end)
  when server (request_forwardmask >>= λ _. pure tt))

-- _handle_do_forwardmask
unfoldable pub handle_do_forwardmask : Bytes → Act (Unit {0})
handle_do_forwardmask mask =
    when (leb 1 (length mask) && leb (length mask) 32)
      (modify (λ s. record s { forwardmask = some mask }))

-- `opt = SB + LINEMODE + slc.LMODE_FORWARDMASK`
abbrev pub forwardmask_key : Bytes
forwardmask_key = cmd_sb ∷ opt_linemode ∷ lmode_forwardmask ∷ []

-- _handle_sb_forwardmask
unfoldable pub handle_sb_forwardmask : ℕ → Bytes → Act (Unit {0})
handle_sb_forwardmask cmd buf = do
  server ← gets (λ s. s.server)
  if server && (cmd == cmd_do || cmd == cmd_dont)
      then pure tt
      else if not server && (cmd == cmd_will || cmd == cmd_wont)
      then pure tt
      else if not server && cmd == cmd_dont && not (length buf == 0)
      then pure tt
      else if not server && cmd == cmd_do && length buf == 0
      then pure tt
      else if cmd == cmd_will || cmd == cmd_wont
      then modify (set_remote forwardmask_key (cmd == cmd_will))
      else (do
        modify (set_local forwardmask_key (cmd == cmd_do))
        when (cmd == cmd_do) (handle_do_forwardmask buf))

-- The part of `_handle_sb_linemode` for DO, DONT, WILL and WONT.
unfoldable pub linemode_command : ℕ → Bytes → Act (Unit {0})
linemode_command cmd [] = raise index_error
linemode_command cmd (sb_opt ∷ buf) =
    if sb_opt == lmode_forwardmask then handle_sb_forwardmask cmd buf else raise value_error

-- _handle_sb_linemode
unfoldable pub handle_sb_linemode : Bytes → Act (Unit {0})
handle_sb_linemode [] = raise index_error
handle_sb_linemode (opt ∷ buf) =
    if opt == lmode_mode
    then handle_sb_linemode_mode buf
    else if opt == lmode_slc
    then handle_sb_linemode_slc buf
    else if elem opt (cmd_do ∷ cmd_dont ∷ cmd_will ∷ cmd_wont ∷ [])
    then linemode_command opt buf
    else raise value_error
