-- ===== src/Examples/Chunks.antt =====
-- The theorem on the shortcut for received data, at a server that is asked to suppress go-ahead.
use telnetlib.Prelude.{
  ℕ, true, false, [], ◌∷◌, none, Option, ◌≡◌, ◌≢◌, refl, arith, Bytes, nat_eq, bytes_eq, elem,
}
use telnetlib.Telopt.{cmd_iac, cmd_do, opt_sga}
use telnetlib.Exec.{pure}
use telnetlib.Dict
use telnetlib.Session.{Session, Act}
use telnetlib.Exec.{◌>>=◌}
use telnetlib.Session.{call, enabled, send_iac}
use telnetlib.Session.Iac.{iac}
use telnetlib.Negotiate.{handle_do, do_known, unless_local, do_follow_up}
use telnetlib.Interp.{
  Interp, Methods, keep_cmd, is_oob, on_session, snoop_byte, other_byte, iac_byte, second_byte,
  command_byte, third_byte, do_byte, feed_byte, feed_all,
}
use telnetlib.Interp.Stream.{IsIdle}
use telnetlib.Interp.Chunk.{is_special, server_special, process_data_chunk}
use telnetlib.Interp.Chunk.Shortcut.{
  Plain, StaysPlain, Same, Plain-same, server_special-Plain, process_data_chunk-feed_all,
}
use telnetlib.Writer.{telnet_writer}
use telnetlib.Examples.{new_session, new_interp, test_host}

-- what the server calls IAC and the characters of the table
abbrev table_values : Option Bytes
table_values = server_special (new_session true)

new_Plain : Plain table_values (new_session true)
new_Plain = server_special-Plain (new_session true) refl refl

new_Same : Same (new_interp true) (new_interp true)
new_Same = record { same_iac = refl; same_cmd = refl; same_buffer = refl; same_session = refl }

-- `IAC DO SGA` and a text of two letters
abbrev two_texts : Bytes
two_texts = cmd_iac ∷ cmd_do ∷ opt_sga ∷ 99 ∷ 100 ∷ []

abbrev quiet_mud : ℕ → Bytes → Act (Unit {0})
quiet_mud opt buf = pure tt

abbrev server_writer : Methods
server_writer = telnet_writer test_host quiet_mud

-- The table and MCCP2 are what they were at the start.
unchanged :
    (s : Session)
    → s.tabs ≡ (new_session true).tabs
    → s.mccp2_activated ≡ false
    → Plain table_values s
unchanged s tabs begun = Plain-same table_values s (new_session true) tabs begun new_Plain

abbrev after_iac : Interp
after_iac = (feed_byte server_writer cmd_iac (new_interp true)).1

abbrev after_do : Interp
after_do = (feed_byte server_writer cmd_do after_iac).1

abbrev after_sga : Interp
after_sga = (feed_byte server_writer opt_sga after_do).1

-- A letter between two commands changes neither of them.
letter_keeps :
    (b : ℕ) (i : Interp)
    → b ≢ cmd_iac
    → IsIdle i
    → Plain table_values i.session
    → IsIdle (feed_byte server_writer b i).1
      × Plain table_values (feed_byte server_writer b i).1.session
unfolding feed_byte other_byte snoop_byte on_session call is_oob keep_cmd ◌>>=◌
letter_keeps b i ne idle h = (
  record {
    no_iac = ground (arith, idle.no_iac, idle.no_cmd);
    no_cmd = ground (arith, idle.no_iac, idle.no_cmd);
  },
  Plain-same table_values (feed_byte server_writer b i).1.session i.session
      (ground (arith, idle.no_iac, idle.no_cmd)) (ground (arith, idle.no_iac, idle.no_cmd)) h,
)

sga_Plain : Plain table_values after_sga.session
unfolding feed_byte ◌>>=◌ other_byte keep_cmd iac_byte second_byte elem command_byte third_byte
    on_session do_byte handle_do do_known unless_local enabled Dict.get iac do_follow_up Dict.put
    is_oob send_iac
sga_Plain = unchanged after_sga.session refl refl

sga_IsIdle : IsIdle after_sga
unfolding feed_byte ◌>>=◌ other_byte keep_cmd iac_byte second_byte elem command_byte third_byte
    on_session do_byte handle_do do_known unless_local enabled Dict.get iac do_follow_up Dict.put
    is_oob send_iac
sga_IsIdle = record { no_iac = refl; no_cmd = refl }

two_texts-StaysPlain : StaysPlain table_values server_writer two_texts (new_interp true)
unfolding feed_byte ◌>>=◌ iac_byte other_byte keep_cmd second_byte elem
two_texts-StaysPlain =
    let (idle, first) = letter_keeps 99 after_sga (omega arith) sga_IsIdle sga_Plain in
    let (_, second) = letter_keeps 100 _ (omega arith) idle first in
    (
      new_Plain,
      (
        unchanged after_iac.session refl refl,
        (unchanged after_do.session refl refl, (sga_Plain, (first, second))),
      ),
    )

process_data_chunk-feed_all_example :
    ((process_data_chunk server_writer table_values two_texts (new_interp true)).reader
      ≡ (feed_all server_writer two_texts (new_interp true)).0)
    × ((process_data_chunk server_writer table_values two_texts (new_interp true)).remainder ≡ none)
    × Same
        (process_data_chunk server_writer table_values two_texts (new_interp true)).interp
        (feed_all server_writer two_texts (new_interp true)).1
unfolding is_special server_special elem
process_data_chunk-feed_all_example =
    process_data_chunk-feed_all table_values server_writer two_texts (new_interp true)
      (new_interp true) refl new_Same two_texts-StaysPlain
