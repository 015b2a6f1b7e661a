-- ===== src/Examples/Negotiations.antt =====
-- A server that negotiates with a client.
use telnetlib.Prelude.{
  ◌-◌, ◌≤◌, true, false, ◌&&◌, [], ◌∷◌, none, some, if◌then◌else◌, bytes_eq, nat_eq, elem, leb, ◌≡◌,
  refl, Bytes, length, arith,
}
use telnetlib.Telopt.{cmd_sb, opt_new_environ}
use telnetlib.Dict
use telnetlib.Exec.{ok, err, value_error}
use telnetlib.Session.{enabled}
use telnetlib.Server.{Library, Protocol, new_protocol, text, info}
use telnetlib.Server.Names.{ansi, key_lang}
use telnetlib.Server.Terminal.{ttypes_reported}
use telnetlib.Server.Terminal.Cycle.{ttypes_bounded}
use telnetlib.Server.Variables.{
  on_environ, encoding, lang_codec, encoding_from_lang, before_char, behind_char,
}
use telnetlib.Server.Variables.Trusted.{on_environ_trusted}
use telnetlib.Server.Variables.Charset.{locale, encoding_by_lang}
use telnetlib.Server.Check.{check_negotiation, check_negotiation_timer}
use telnetlib.Server.Check.Language.{negotiation_ends, negotiation_hangs}
use telnetlib.Server.Check.Failed.{failed_waits}
use telnetlib.Examples.{new_session, test_host}

-- str.upper on ASCII
abbrev ascii_upper : Bytes → Bytes
ascii_upper [] = []
ascii_upper (c ∷ cs) = (if leb 97 c && leb c 122 then c - 32 else c) ∷ ascii_upper cs

upper_idempotent : (t : Bytes) → ascii_upper (ascii_upper t) ≡ ascii_upper t
upper_idempotent [] = refl
upper_idempotent (c ∷ cs) = ground (arith, upper_idempotent cs)

abbrev plain_library : Library
plain_library = record {
  upper = ascii_upper;
  lower = λ t. t;
  has_codec = λ t. if elem 0 t then err value_error else ok true;
  transport_info = λ key. none;
}

abbrev fresh : Protocol
fresh = new_protocol (new_session true) [] 80 25 300 (b'u' ∷ b't' ∷ b'f' ∷ b'8' ∷ []) false none

abbrev xterm : Bytes
xterm = b'x' ∷ b't' ∷ []

ttypes_bounded_example :
    ((ttypes_reported plain_library (xterm ∷ ansi ∷ xterm ∷ []) fresh).1.ttype_count ≤ 9)
    × (length (ttypes_reported plain_library (xterm ∷ ansi ∷ xterm ∷ []) fresh).1.session.sent ≤ 54)
ttypes_bounded_example = ttypes_bounded plain_library (xterm ∷ ansi ∷ xterm ∷ []) fresh refl

abbrev peer : Bytes
peer = b'p' ∷ b'e' ∷ b'e' ∷ b'r' ∷ []

abbrev asked_for : Protocol
asked_for = record fresh { extra = (peer, text (b'1' ∷ [])) ∷ [] }

on_environ_trusted_example :
    Dict.get (on_environ plain_library ((peer, b'2' ∷ []) ∷ []) asked_for).1.extra peer
    ≡ some (text (b'1' ∷ []))
unfolding Dict.get
on_environ_trusted_example =
    on_environ_trusted plain_library upper_idempotent ((peer, b'2' ∷ []) ∷ []) asked_for peer refl

abbrev french : Protocol
french = record fresh {
  extra = (key_lang, text (locale (b'f' ∷ b'r' ∷ []) (b'k' ∷ b'8' ∷ []) (b'e' ∷ []))) ∷ [];
  session = record (new_session true) { force_binary = true };
}

encoding_by_lang_example : encoding plain_library french true false ≡ ok (b'k' ∷ b'8' ∷ [])
unfolding info Dict.get elem
encoding_by_lang_example =
    encoding_by_lang plain_library french true false (b'f' ∷ b'r' ∷ []) (b'k' ∷ b'8' ∷ [])
      (b'e' ∷ []) refl refl refl refl refl refl

-- NEW_ENVIRON has been asked for and answered, and the encoding is forced.
abbrev answered : Protocol
answered = record fresh {
  environ_requested = true;
  echo_negotiated = true;
  session = record (new_session true) {
    force_binary = true;
    pending_option = (cmd_sb ∷ opt_new_environ ∷ [], false) ∷ [];
  };
}

negotiation_ends_example :
    ((check_negotiation_timer plain_library test_host true french).0 ≡ ok false)
    × ((check_negotiation_timer plain_library test_host true french).1.waiter_connected ≡ true)
unfolding lang_codec encoding_from_lang before_char behind_char info Dict.get elem
negotiation_ends_example =
    negotiation_ends plain_library test_host french (some (b'k' ∷ b'8' ∷ [])) refl

-- a client whose LANG has a NUL
abbrev broken : Protocol
broken = record fresh {
  extra = (key_lang, text (locale (b'f' ∷ b'r' ∷ []) (0 ∷ []) (b'e' ∷ []))) ∷ [];
  session = record (new_session true) { force_binary = true };
}

negotiation_hangs_example :
    ((check_negotiation_timer plain_library test_host true broken).0 ≡ err value_error)
    × ((check_negotiation_timer plain_library test_host true broken).1.waiter_connected ≡ false)
unfolding lang_codec encoding_from_lang before_char behind_char info Dict.get elem
negotiation_hangs_example = negotiation_hangs plain_library test_host broken value_error refl refl

-- a client that has refused TTYPE, and answered everything else
abbrev without_types : Protocol
without_types = record fresh {
  environ_requested = true;
  echo_negotiated = true;
  waiter_encoding = some false;
}

failed_waits_example : (check_negotiation plain_library test_host false without_types).0 ≡ ok false
unfolding enabled Dict.get
failed_waits_example = failed_waits plain_library test_host false false without_types refl refl refl
