-- ===== src/Lib.antt =====
-- telnetlib3: a model of the Telnet core of the library, with proofs.
--
-- TelnetWriter (telnetlib3/stream_writer.py) both reads and writes the protocol: `feed_byte` takes
-- the received bytes one at a time, hands data on to the reader, and calls `handle_do`,
-- `handle_dont`, `handle_will`, `handle_wont` or `handle_subnegotiation` when a command is
-- complete; these answer by `iac` and by subnegotiations that they write to the transport. What
-- they share is the writer's state: the options of both ends and the pending ones, the table of
-- special line characters (telnetlib3/slc.py) and the buffers.
--
--   Prelude, Dict, Exec: Boolean tests, lists, dicts in insertion order, and code that reads and
--   writes a state and may raise; Exec/Keeps has the rules by which such code keeps an invariant.
--   Telopt: the bytes of telnetlib3/telopt.py.
--   Slc: telnetlib3/slc.py. Objects is class SLC, Table the tables, whose objects stand for
--   references to a store, since `generate_slctab` shares them, and Forwardmask the generated
--   mask. Change is `_slc_add` to `_slc_change` of the writer.
--   Environ: the format of environment variables, `_escape_environ` to `_decode_env_buf`.
--   Mud: telnetlib3/mud.py. Msdp and Mssp are the encoders and decoders of these protocols, Codecs
--   those of GMCP, ZMP, ATCP and Aardwolf, and Text what they share. `msdp_decode` and `mssp_decode`
--   run on fuel: one unit for each round of a loop and each call of `parse_value`. MSSP needs more
--   than the number of bytes; for MSDP twice that and two is enough for all that the encoder writes,
--   and there are payloads for which no fuel is.
--   Comport: the data of COM-PORT-OPTION that the writer keeps.
--   Host: what the application and the codec library give the writer; parameters.
--   Session: the state that the handlers use, and class Option. Iac is the method `iac`, Requests
--   the methods that write a subnegotiation, Payloads those for GMCP, MSDP and MSSP, and Waiters
--   `wait_for` with the assignments that wake it.
--   Negotiate: the four handlers of DO, DONT, WILL and WONT.
--   Subneg: `handle_subnegotiation` and the `_handle_sb_` methods, by what they are about. The
--   handlers of the MUD protocols and of COM-PORT-OPTION are a parameter of it, as most theorems
--   hold whatever they do; Subneg/Payloads has the class's own.
--   Interp: `feed_byte`, for any five handlers. `feed_all` feeds every byte of a stream; Chunk is
--   `_process_data_chunk` (telnetlib3/_base.py), with its shortcut for bytes that are not special
--   and its stop where MCCP2 begins, and is compared with `feed_all`.
--   Writer: the parser with the handlers of Negotiate and Subneg, as class TelnetWriter has them.
--   Reader: telnetlib3/stream_reader.py, class TelnetReader. A coroutine is its parts between two
--   waits, and `drive` runs it on what the protocol does while it waits, as lists of calls of
--   `feed_data`, `feed_eof` and `set_exception`, each of which comes before it runs again; one
--   coroutine reads at a time. Reads has the methods that read, Until compares `readuntil` with
--   Plain, a search of the whole buffer, Search and Feeding are lemmas of it, Delivery is about the
--   bytes that come, and Flow about the pauses of the transport.
--   Shell: telnetlib3/client_shell.py, classes InputFilter and LinemodeBuffer. The loop of the first
--   runs on fuel: more than the number of bytes is enough where no sequence is empty. The buffer of
--   the second has its last character first, and Echo is about what it echoes.
--   Guard: `ConnectionCounter` of telnetlib3/guard_shells.py and the `guarded_shell` of
--   telnetlib3/server.py, run_server. A connection is the phase in which its coroutine waits, and
--   a step takes one connection to its next wait, in any order. Slots has a server that counts its
--   connections instead, and Refinement compares the two.
--   ServerShell: telnetlib3/server_shell.py; LineEditor is class _LineEditor, Escapes `filter_ansi` and
--   Readline `readline_async`, whose loop runs on fuel: more than the number of characters is enough.
--   The pattern of wcwidth is a function to the end of a match.
--   Server: class TelnetServer of telnetlib3/server.py with BaseServer of
--   telnetlib3/server_base.py. Its state holds the writer's Session; Terminal is `on_ttype` and what
--   it asks for, Variables the other callbacks and `encoding`, and Check `check_negotiation` with its
--   timer, where Language is about the encoding that it looks up; Clients is the queue and the list of
--   those that are connected. `str.upper`, `str.lower`, the codecs and the transport's information
--   are the record Library. The digits of a number run on fuel above the number.
--   Client: class TelnetClient of telnetlib3/client.py as far as it answers a server: Offers is about
--   CHARSET and Disclosed about NEW_ENVIRON. The codecs and the process's environment are the record
--   System. The pass over a name's zeros runs on fuel, of which the name's length is enough.
--   Examples: concrete states to which the theorems are applied.
--
-- A byte is a native number, and a text the list of its code points. Every other loop is structural:
-- those of the tables count down the thirty functions, or the characters of a mask, that the
-- source's `range` gives, and the others follow a list. A call of a registered callback is an event
-- of the session, as the default callbacks only log.
--
-- Not modelled: the decoding reader and `read` to the end of the stream; asyncio transports,
-- timers and tasks, the rest of the client's protocol, the server's TLS detection, the rest of
-- the shells, fingerprinting, TLS and compression streams, Python's character codecs and JSON
-- library, which are parameters, and logging, except where its arguments raise.
pub mod Prelude
pub mod Dict
pub mod Exec
pub mod Telopt
pub mod Slc
pub mod Environ
pub mod Mud
pub mod Comport
pub mod Guard
pub mod Host
pub mod Server
pub mod ServerShell
pub mod Client
pub mod Session
pub mod Negotiate
pub mod Subneg
pub mod Interp
pub mod Writer
pub mod Reader
pub mod Shell
pub mod Examples
