-- ===== src/Server.antt =====
-- server.py, class TelnetServer, with BaseServer of server_base.py and TelnetProtocolBase of _base.py:
-- the state of the negotiation that the server leads, and what its methods share.
pub mod Names
pub mod Clients
pub mod Terminal
pub mod Variables
pub mod Check
use telnetlib.Prelude.{
  ℕ, zero, suc, ◌+◌, ◌-◌, ◌/◌, ◌%◌, Bool, true, false, ◌&&◌, ◌||◌, not, List, [], ◌∷◌, ◌++◌, Option,
  none, some, if◌then◌else◌, ◌==◌, nat_eq, bytes_eq, Bytes, ltb,
}
use telnetlib.Dict
use telnetlib.Dict.{Dict}
use telnetlib.Exec.{Result, Exec, modify}
use telnetlib.Session.{Session}
use telnetlib.Server.Names.{info_charset, info_rows, info_cols, info_term, info_timeout}

-- A value of `_extra`; `null` is None.
pub data Info : Type 0 where
  text : Bytes → Info
  number : ℕ → Info
  null : Info

-- What the server uses of Python and of the transport: str.upper, str.lower, codecs.lookup, and the
-- transport's get_extra_info. codecs.lookup finds a codec or raises LookupError, which is the Boolean,
-- or raises another error, as it does for a name with a NUL.
pub record Library : Type 0 where
  pub upper : Bytes → Bytes
  pub lower : Bytes → Bytes
  pub has_codec : Bytes → Result Bool
  pub transport_info : Bytes → Option Info

pub record Protocol : Type 0 where
  -- the writer, and `force_binary`
  pub session : Session
  pub extra : Dict Bytes Info
  pub ttype_count : ℕ
  pub environ_requested : Bool
  pub echo_negotiated : Bool
  -- begin_advanced_negotiation has been scheduled
  pub advanced : Bool
  -- the results of the futures, once they are set
  pub waiter_encoding : Option Bool
  pub waiter_connected : Bool
  pub mccp2_enabled : Bool
  pub line_mode : Bool
  -- [] for False
  pub default_encoding : Bytes

abbrev pub Srv : Type 0 → Type 0
Srv A = Exec Protocol A

-- TelnetServer.__init__, but for the writer, which `connection_made` makes
abbrev pub new_protocol : Session → Bytes → ℕ → ℕ → ℕ → Bytes → Bool → Option Bool → Protocol
new_protocol session term cols rows timeout encoding line_mode compression = record {
  session = session;
  extra =
      (info_term, text term)
      ∷ (info_charset, text encoding)
      ∷ (info_cols, number cols)
      ∷ (info_rows, number rows)
      ∷ (info_timeout, number timeout)
      ∷ [];
  ttype_count = 1;
  environ_requested = false;
  echo_negotiated = false;
  advanced = false;
  waiter_encoding = none;
  waiter_connected = false;
  mccp2_enabled = elim compression [ none ↦ false | some wanted ↦ wanted ];
  line_mode = line_mode;
  default_encoding = encoding;
}

-- a method of the writer
unfoldable pub on_session : {A : Type 0} → Exec Session A → Srv A
on_session m p = let (r, s) = m p.session in (r, record p { session = s })

-- self._extra[key] = value
unfoldable pub set_extra : Bytes → Info → Srv (Unit {0})
set_extra key value = modify (λ p. record p { extra = Dict.put p.extra key value })

-- get_extra_info(key), of the protocol and of the writer alike
unfoldable pub info : Library → Protocol → Bytes → Option Info
info lib p key = elim (Dict.get p.extra key) [ none ↦ lib.transport_info key | some v ↦ some v ]

-- get_extra_info(key) or ""; no number is ever stored under a key that is read as a text
abbrev pub text_of : Option Info → Bytes
text_of (some (text t)) = t
text_of _ = []

-- t == get_extra_info(key)
abbrev pub is_text : Option Info → Bytes → Bool
is_text (some (text u)) t = t == u
is_text _ t = false

abbrev pub is_blank : Bytes → Bool
is_blank [] = true
is_blank (c ∷ cs) = false

-- str(n); the fuel is more than the number of digits
unfoldable pub decimal_from : ℕ → ℕ → Bytes
decimal_from zero n = []
decimal_from (suc fuel) n =
    let front = decimal_from fuel (n / 10) in
    if ltb n 10 then (48 + n) ∷ [] else front ++ ((48 + n % 10) ∷ [])

-- f"ttype{n}"
unfoldable pub ttype_key : ℕ → Bytes
unfolding decimal_from
ttype_key n = b't' ∷ b't' ∷ b'y' ∷ b'p' ∷ b'e' ∷ decimal_from (suc n) n
