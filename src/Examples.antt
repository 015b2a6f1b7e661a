-- ===== src/Examples.antt =====
-- Concrete states on which the theorems are applied.
mod Parser
mod Options
mod Characters
mod Variables
mod Writers
mod Chunks
mod Payloads
mod Readers
mod Keys
mod Lines
mod Servers
mod Negotiations
mod Clients
mod Waiting
mod Typing
use telnetlib.Prelude.{ℕ, Bool, true, false, [], ◌∷◌, none, some, Bytes}
use telnetlib.Dict.{Dict}
use telnetlib.Exec.{Exec, pure}
use telnetlib.Slc.Change.{new_tabs}
use telnetlib.Host.{Host}
use telnetlib.Session.{Session, pos}
use telnetlib.Negotiate.{handle_do, handle_dont, handle_will, handle_wont}
use telnetlib.Interp.{Interp, Methods, nothing}

-- TelnetWriter.__init__ of a server or a client
abbrev pub new_session : Bool → Session
new_session server = record {
  server = server;
  closing = false;
  sent = [];
  events = [];
  pending_option = [];
  local_option = [];
  remote_option = [];
  always_will = [];
  always_do = [];
  always_wont = [];
  always_dont = [];
  passive_do = [];
  rejected_will = [];
  rejected_do = [];
  directional_refusals = [];
  compression = none;
  tls = false;
  mccp2_activated = false;
  mccp2_active = false;
  mccp3_active = false;
  lflow = true;
  xon_any = false;
  slc_simulated = true;
  linemode = 0;
  tabs = new_tabs;
  environ_batches = [];
  environ_encoding = b'a' ∷ b's' ∷ b'c' ∷ b'i' ∷ b'i' ∷ [];
  in_loop_detection = false;
  environ_send_raw = none;
  forwardmask = none;
  comport_data = none;
  force_binary = false;
}

abbrev pub new_interp : Bool → Interp
new_interp server = record {
  byte_count = 0;
  iac_received = false;
  cmd_received = nothing;
  slc_received = none;
  sb_buffer = [];
  session = new_session server;
}

abbrev pub test_host : Host
test_host = record {
  charset_offers = (b'U' ∷ b'T' ∷ b'F' ∷ b'-' ∷ b'8' ∷ []) ∷ [];
  environ_offers = [];
  rows = pos 24;
  cols = pos 80;
  encode = λ encoding text. text;
  decode = λ encoding text. text;
  parse_int = λ text. none;
  ttype = b'v' ∷ b't' ∷ [];
  xdisploc = [];
  rx = b'9' ∷ [];
  tx = b'9' ∷ [];
  environ_reply = λ names. [];
  charset_reply = λ offers. none;
}

-- the writer's own negotiation, and subnegotiations that are ignored
abbrev pub test_methods : Methods
test_methods = record {
  handle_do = handle_do test_host;
  handle_dont = handle_dont;
  handle_will = handle_will test_host;
  handle_wont = handle_wont;
  handle_subnegotiation = λ buf. pure tt;
}
