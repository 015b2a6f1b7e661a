-- ===== src/Session.antt =====
-- stream_writer.py: what the option handlers of `TelnetWriter` read and write, and class `Option`.
-- The parser's own fields are in Interp. `sent` is what `transport.write` was given, in order, and
-- `events` are the calls of registered callbacks, which by default only log.
pub mod Iac
pub mod Requests
pub mod Payloads
pub mod Waiters
use telnetlib.Prelude.{
  ℕ, Bool, true, false, ◌&&◌, ◌||◌, not, List, [], ◌∷◌, ◌++◌, Option, none, some, if◌then◌else◌,
  ◌==◌, Bytes, bytes_eq, elem,
}
use telnetlib.Dict
use telnetlib.Dict.{Dict}
use telnetlib.Exec.{Exec, gets, modify}
use telnetlib.Slc.Change.{Tabs}
use telnetlib.Comport.{Comport}
use telnetlib.Mud.Codecs.{Json, Aardwolf}
use telnetlib.Mud.Msdp.{Fields}
use telnetlib.Mud.Mssp.{MsspValue}

-- Class `Option`; a key is the bytes of an option, or of a command and an option.
abbrev pub Options : Type 0
Options = Dict Bytes Bool

-- Option.enabled
unfoldable pub enabled : Options → Bytes → Bool
enabled d key = elim (Dict.get d key) [ none ↦ false | some value ↦ value ]

-- An item of a request for environment variables: the bytes VAR or USERVAR, or a name.
pub data EnvKey : Type 0 where
  all_of : ℕ → EnvKey
  name : Bytes → EnvKey

-- A Python integer; `negsuc n` is -(n + 1).
pub data ℤ : Type 0 where
  pos : ℕ → ℤ
  negsuc : ℕ → ℤ

-- A call of a callback, with its arguments. Texts are lists of code points.
pub data Event : Type 0 where
  iac_called : ℕ → ℕ → Event
  slc_called : ℕ → Event
  naws_called : ℕ → ℕ → Event
  ttype_called : Bytes → Event
  xdisploc_called : Bytes → Event
  sndloc_called : Bytes → Event
  charset_called : Bytes → Event
  environ_called : Dict Bytes Bytes → Event
  tspeed_called : ℤ → ℤ → Event
  sb_called : ℕ → Bytes → Event
  mccp2_called : Event
  gmcp_called : Bytes → Json → Event
  msdp_called : Fields → Event
  mssp_called : Dict Bytes MsspValue → Event
  zmp_called : List Bytes → Event
  aardwolf_called : Aardwolf → Event
  atcp_called : Bytes → Bytes → Event

pub record Session : Type 0 where
  pub server : Bool
  pub closing : Bool
  pub sent : Bytes
  pub events : List Event
  pub pending_option : Options
  pub local_option : Options
  pub remote_option : Options
  pub always_will : Bytes
  pub always_do : Bytes
  pub always_wont : Bytes
  pub always_dont : Bytes
  pub passive_do : Bytes
  pub rejected_will : Bytes
  pub rejected_do : Bytes
  pub directional_refusals : Bytes
  pub compression : Option Bool
  pub tls : Bool
  pub mccp2_activated : Bool
  pub mccp2_active : Bool
  pub mccp3_active : Bool
  pub lflow : Bool
  pub xon_any : Bool
  pub slc_simulated : Bool
  pub linemode : ℕ
  pub tabs : Tabs
  pub environ_batches : List (List EnvKey)
  pub environ_encoding : Bytes
  pub in_loop_detection : Bool
  pub environ_send_raw : Option Bytes
  pub forwardmask : Option Bytes
  pub comport_data : Option Comport
  -- a field of the protocol
  pub force_binary : Bool

abbrev pub Act : Type 0 → Type 0
Act A = Exec Session A

abbrev pub remote_enabled : Session → ℕ → Bool
remote_enabled s opt = enabled s.remote_option (opt ∷ [])

abbrev pub local_enabled : Session → ℕ → Bool
local_enabled s opt = enabled s.local_option (opt ∷ [])

abbrev pub pending_enabled : Session → ℕ → ℕ → Bool
pending_enabled s cmd opt = enabled s.pending_option (cmd ∷ opt ∷ [])

-- self.pending_option[cmd + opt] = value, and so on
abbrev pub set_pending : ℕ → ℕ → Bool → Session → Session
set_pending cmd opt value s = record s {
  pending_option = Dict.put s.pending_option (cmd ∷ opt ∷ []) value;
}

abbrev pub set_local : Bytes → Bool → Session → Session
set_local key value s = record s { local_option = Dict.put s.local_option key value }

abbrev pub set_remote : Bytes → Bool → Session → Session
set_remote key value s = record s { remote_option = Dict.put s.remote_option key value }

-- send_iac, and `transport.write` behind `if not self.is_closing()`
abbrev pub sending : Bytes → Session → Session
sending buf s = if s.closing then s else record s { sent = s.sent ++ buf }

unfoldable pub send_iac : Bytes → Act (Unit {0})
send_iac buf = modify (sending buf)

unfoldable pub call : Event → Act (Unit {0})
call e = modify (λ s. record s { events = s.events ++ (e ∷ []) })

-- set.add
abbrev pub add : ℕ → Bytes → Bytes
add x xs = if elem x xs then xs else x ∷ xs

-- an SLC method of the same object
unfoldable pub on_tabs : {A : Type 0} → Exec Tabs A → Act A
on_tabs m s = let (r, t) = m s.tabs in (r, record s { tabs = t })
