-- ===== src/Writer.antt =====
-- stream_writer.py: class `TelnetWriter`, the parser with the class's own handlers.
pub mod Handshake
pub mod Refusal
pub mod FlowControl
pub mod Reports
pub mod Payloads
use telnetlib.Prelude.{ℕ, Bytes}
use telnetlib.Host.{Host}
use telnetlib.Session.{Act}
use telnetlib.Negotiate.{handle_do, handle_dont, handle_will, handle_wont}
use telnetlib.Subneg.{handle_subnegotiation}
use telnetlib.Interp.{Methods}

abbrev pub telnet_writer : Host → (ℕ → Bytes → Act (Unit {0})) → Methods
telnet_writer host mud = record {
  handle_do = handle_do host;
  handle_dont = handle_dont;
  handle_will = handle_will host;
  handle_wont = handle_wont;
  handle_subnegotiation = handle_subnegotiation host mud;
}
