-- ===== src/Interp.antt =====
-- stream_writer.py: `feed_byte`, `is_oob` and `mode`. The five `handle_` methods that a subclass may
-- override are the parameter `Methods`; Negotiate and Subneg have the class's own. `feed_all` feeds a
-- whole stream; Chunk has `_process_data_chunk` of _base.py, which feeds a part of it.
pub mod Stream
pub mod Commands
pub mod Recorded
pub mod Empty
pub mod Buffer
pub mod Chunk
use telnetlib.Prelude.{
  ℕ, ◌+◌, Bool, true, false, ◌&&◌, ◌||◌, not, [], ◌∷◌, ◌++◌, Option, none, some, if◌then◌else◌,
  ◌==◌, nat_eq, Bytes, elem,
}
use telnetlib.Telopt.{
  cmd_iac, cmd_do, cmd_dont, cmd_will, cmd_wont, cmd_sb, cmd_se, cmd_nop, cmd_dm, cmd_brk, cmd_ip,
  cmd_ao, cmd_ayt, cmd_ec, cmd_el, cmd_ga, cmd_eof, cmd_susp, cmd_abort, cmd_eor, opt_tm, opt_echo,
  opt_sga, opt_linemode,
}
use telnetlib.Exec.{
  Result, ok, err, Exec, pure, raise, gets, modify, ◌>>=◌, ◌>>◌, when, finally, index_error,
}
use telnetlib.Slc.Objects.{is_local}
use telnetlib.Slc.Table.{snoop}
use telnetlib.Session.{
  Session, Act, iac_called, slc_called, enabled, remote_enabled, local_enabled, pending_enabled,
  set_pending, set_local, call,
}

-- `cmd_received`: False or None, a command byte, or the pair that a finished negotiation leaves
pub data Cmd : Type 0 where
  nothing : Cmd
  byte : ℕ → Cmd
  pair : ℕ → ℕ → Cmd

pub record Interp : Type 0 where
  pub byte_count : ℕ
  pub iac_received : Bool
  pub cmd_received : Cmd
  pub slc_received : Option ℕ
  pub sb_buffer : Bytes
  pub session : Session

pub record Methods : Type 0 where
  pub handle_do : ℕ → Act Bool
  pub handle_dont : ℕ → Act (Unit {0})
  pub handle_will : ℕ → Act (Unit {0})
  pub handle_wont : ℕ → Act (Unit {0})
  pub handle_subnegotiation : Bytes → Act (Unit {0})

-- the keys of `_iac_callback`
abbrev pub iac_commands : Bytes
iac_commands =
    cmd_brk ∷ cmd_ip ∷ cmd_ao ∷ cmd_ayt ∷ cmd_ec ∷ cmd_el ∷ cmd_eof ∷ cmd_susp ∷ cmd_abort ∷ cmd_nop
    ∷ cmd_dm ∷ cmd_ga ∷ cmd_eor ∷ opt_tm ∷ []

-- `iac_mbs`
abbrev pub iac_mbs : Bytes
iac_mbs = cmd_do ∷ cmd_dont ∷ cmd_will ∷ cmd_wont ∷ cmd_sb ∷ []

-- `self.cmd_received in iac_mbs and self.cmd_received`
unfoldable pub keep_cmd : Cmd → Cmd
keep_cmd (byte c) = if elem c iac_mbs then byte c else nothing
keep_cmd _ = nothing

abbrev pub is_cmd : Cmd → Bool
is_cmd nothing = false
is_cmd _ = true

-- is_oob
unfoldable pub is_oob : Interp → Bool
is_oob i = i.iac_received || is_cmd i.cmd_received

pub data Mode : Type 0 where
  local remote kludge : Mode

-- mode
unfoldable pub mode : Session → Mode
mode s =
    if remote_enabled s opt_linemode
    then (if is_local s.linemode then local else remote)
    else if s.server
    then (if local_enabled s opt_echo && local_enabled s opt_sga then kludge else local)
    else if remote_enabled s opt_echo && (remote_enabled s opt_sga || local_enabled s opt_sga)
    then kludge
    else local

-- `self.mode == "remote" or self.mode == "kludge" and self.slc_simulated`
unfoldable pub snoops : Session → Bool
unfolding mode
snoops s = elim (mode s) [ local ↦ false | remote ↦ true | kludge ↦ s.slc_simulated ]

unfoldable pub on_session : {A : Type 0} → Act A → Exec Interp A
on_session m i = let (r, s) = m i.session in (r, record i { session = s })

-- DM, BRK, IP, AO, AYT, EOR, ABORT, EOF, SUSP, EC, EL, EW, RP, LNEXT and XON have an SLC callback,
-- and so has XOFF.
abbrev pub slc_callbacks : Bytes
slc_callbacks = 1 ∷ 2 ∷ 3 ∷ 4 ∷ 5 ∷ 6 ∷ 7 ∷ 8 ∷ 9 ∷ 10 ∷ 11 ∷ 12 ∷ 13 ∷ 14 ∷ 15 ∷ 16 ∷ []

-- The last branch of `feed_byte`.
unfoldable pub snoop_byte : ℕ → Exec Interp (Unit {0})
snoop_byte b i = elim (snoop {C = ℕ} b i.session.tabs.slctab i.session.tabs.objects []).1 [
  | none ↦ (ok tt, record i { slc_received = none })
  | some func ↦
      on_session (when (elem func slc_callbacks) (call (slc_called func)))
        (record i { slc_received = some func })
]

-- The second byte of a command that is not within a subnegotiation.
unfoldable pub second_byte : ℕ → Exec Interp (Unit {0})
second_byte b =
    if elem b iac_mbs
    then modify (λ i. record i { cmd_received = byte b; iac_received = false })
    else if elem b iac_commands
    then (do
      modify (λ i. record i { cmd_received = byte b })
      on_session (call (iac_called b b))
      modify (λ i. record i { iac_received = false }))
    else modify (λ i. record i { cmd_received = nothing; iac_received = false })

-- clears a pending option that is set
abbrev pub settle : ℕ → ℕ → Session → Session
settle cmd opt s = if pending_enabled s cmd opt then set_pending cmd opt false s else s

-- An IAC: escaped within a subnegotiation, it is data of the buffer.
unfoldable pub iac_byte : Cmd → Exec Interp (Unit {0})
iac_byte cmd = modify (λ i. record i {
  iac_received = not i.iac_received;
  sb_buffer = (elim cmd [
    | byte c ↦ if i.iac_received && c == cmd_sb then i.sb_buffer ++ (cmd_iac ∷ []) else i.sb_buffer
    | _ ↦ i.sb_buffer
  ]);
})

-- the assignments that `feed_byte` begins with
abbrev pub begin_byte : Interp → Interp
begin_byte i = record i {
  byte_count = i.byte_count + 1;
  slc_received = none;
  cmd_received = keep_cmd i.cmd_received;
}

abbrev pub in_band : Result Bool → ℕ → Bytes → Bytes
in_band (ok true) b out = b ∷ out
in_band _ b out = out

module _ (m : Methods) where
  -- The byte behind an IAC within a subnegotiation. The name of the first byte of the buffer is
  -- looked up in the arguments of a log call, before the `try`.
  unfoldable pub sb_end : ℕ → Exec Interp (Unit {0})
  sb_end b = do
    modify (λ i. record i { cmd_received = byte b })
    buf ← gets (λ i. i.sb_buffer)
    if not (b == cmd_se)
        then modify (λ i. record i { sb_buffer = []; iac_received = false })
        else elim buf [
          | [] ↦ raise index_error
          | c ∷ cs ↦
              finally (on_session (m.handle_subnegotiation (c ∷ cs)))
                (λ i. record i { sb_buffer = []; iac_received = false })
        ]

  -- The four branches of the third byte.
  unfoldable pub do_byte : ℕ → Act (Unit {0})
  do_byte opt =
      finally (do r ← m.handle_do opt; modify (set_local (opt ∷ []) r))
        (λ s. if pending_enabled s cmd_will opt then set_pending cmd_will opt false s else s)

  unfoldable pub dont_byte : ℕ → Act (Unit {0})
  dont_byte opt =
      finally (m.handle_dont opt)
        (λ s. set_local (opt ∷ []) false (set_pending cmd_will opt false s))

  unfoldable pub will_byte : ℕ → Act (Unit {0})
  will_byte opt = finally (m.handle_will opt) (λ s. settle cmd_dont opt (settle cmd_do opt s))

  unfoldable pub wont_byte : ℕ → Act (Unit {0})
  wont_byte opt = do m.handle_wont opt; modify (set_pending cmd_do opt false)

  unfoldable pub third_byte : ℕ → ℕ → Exec Interp (Unit {0})
  third_byte cmd opt =
      finally
        (on_session (
          if cmd == cmd_do
          then do_byte opt
          else if cmd == cmd_dont
          then dont_byte opt
          else if cmd == cmd_will
          then will_byte opt
          else wont_byte opt))
        (λ i. record i { iac_received = false; cmd_received = pair opt opt })

  -- A byte behind a command byte of two or three bytes.
  unfoldable pub command_byte : ℕ → ℕ → Bool → Exec Interp (Unit {0})
  command_byte cmd b escaped =
      if cmd == cmd_sb && escaped
      then sb_end b
      else if cmd == cmd_sb
      then modify (λ i. record i { sb_buffer = i.sb_buffer ++ (b ∷ []) })
      else third_byte cmd b

  unfoldable pub other_byte : ℕ → Bool → Cmd → Bool → Exec Interp (Unit {0})
  other_byte b escaped (byte cmd) snooping = command_byte cmd b escaped
  other_byte b escaped _ snooping =
      if escaped then second_byte b else if snooping then snoop_byte b else pure tt

  -- feed_byte
  unfoldable pub feed_byte : ℕ → Exec Interp Bool
  feed_byte b = do
    modify begin_byte
    cmd ← gets (λ i. i.cmd_received)
    escaped ← gets (λ i. i.iac_received)
    snooping ← gets (λ i. snoops i.session)
    if b == cmd_iac then iac_byte cmd else other_byte b escaped cmd snooping
    gets (λ i. not (is_oob i))

  -- Every byte is fed; one is passed on to the reader if `feed_byte` returns True. An exception is
  -- logged, and the byte that raised it is not passed on.
  unfoldable pub feed_all : Bytes → Interp → Bytes × Interp
  feed_all [] i = ([], i)
  feed_all (b ∷ bs) i =
      let (r, i') = feed_byte b i in let (out, i'') = feed_all bs i' in (in_band r b out, i'')
