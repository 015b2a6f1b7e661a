-- ===== src/Server/Variables.antt =====
-- server.py: `on_request_environ`, `on_environ` and the other callbacks that store what the client
-- reports; `encoding`, with `encoding_from_lang` of accessories.py.
pub mod Trusted
pub mod Charset
use telnetlib.Prelude.{
  ℕ, Bool, true, false, ◌&&◌, ◌||◌, not, List, [], ◌∷◌, ◌++◌, Option, none, some, if◌then◌else◌,
  ◌==◌, nat_eq, bytes_eq, Bytes, elem, map,
}
use telnetlib.Telopt.{env_var, env_uservar}
use telnetlib.Dict
use telnetlib.Dict.{Dict}
use telnetlib.Exec.{Result, ok, err, type_error, pure, gets, modify, ◌>>=◌, ◌>>◌, when}
use telnetlib.Session.{EnvKey, all_of, name, remote_enabled, local_enabled}
use telnetlib.Telopt.{opt_binary}
use telnetlib.Server.{
  Info, text, number, null, Library, Protocol, Srv, set_extra, info, text_of, is_blank, ttype_key,
}
use telnetlib.Server.Names.{
  key_lang, key_charset, info_charset, info_rows, info_cols, info_tspeed, info_xdisploc, ansi,
  vt100, user, us_ascii, lang_c, environ_names,
}

-- what `on_request_environ` returns for the first two terminal types
unfoldable pub variables_for : Bytes → Bytes → List EnvKey
variables_for ttype1 ttype2 =
    let is_ms_telnet = ttype1 == ansi && ttype2 == vt100 in
    (if is_ms_telnet then [] else name user ∷ [])
    ++ (map name environ_names ++ (all_of env_var ∷ all_of env_uservar ∷ []))

-- on_request_environ
unfoldable pub on_request_environ : Library → Protocol → List EnvKey
unfolding variables_for
on_request_environ lib p =
    variables_for (text_of (info lib p (ttype_key 1))) (text_of (info lib p (ttype_key 2)))

-- on_naws
unfoldable pub on_naws : ℕ → ℕ → Srv (Unit {0})
on_naws rows cols = do set_extra info_rows (number rows); set_extra info_cols (number cols)

-- on_charset
unfoldable pub on_charset : Bytes → Srv (Unit {0})
on_charset charset = set_extra info_charset (text charset)

-- on_tspeed
unfoldable pub on_tspeed : Bytes → Bytes → Srv (Unit {0})
on_tspeed rx tx = set_extra info_tspeed (text (rx ++ (b',' ∷ tx)))

-- on_xdisploc
unfoldable pub on_xdisploc : Bytes → Srv (Unit {0})
on_xdisploc xdisploc = set_extra info_xdisploc (text xdisploc)

-- the mapping without its empty values
unfoldable pub without_empty : Dict Bytes Bytes → Dict Bytes Bytes
without_empty [] = []
without_empty ((key, val) ∷ mapping) =
    let rest = without_empty mapping in if is_blank val then rest else (key, val) ∷ rest

-- {key.upper(): val for key, val in mapping.items()}, on top of `done`
unfoldable pub uppercased : Library → Dict Bytes Bytes → Dict Bytes Bytes → Dict Bytes Bytes
uppercased lib done [] = done
uppercased lib done ((key, val) ∷ mapping) =
    uppercased lib (Dict.put done (lib.upper key) val) mapping

-- self._extra.update(u_mapping)
unfoldable pub updated : Dict Bytes Info → Dict Bytes Bytes → Dict Bytes Info
updated extra [] = extra
updated extra ((key, val) ∷ mapping) = updated (Dict.put extra key (text val)) mapping

abbrev pub value_or_empty : Option Bytes → Bytes
value_or_empty none = []
value_or_empty (some val) = val

-- Whether BINARY is presumed: CHARSET is given, or LANG with an encoding.
unfoldable pub presumes_binary : Dict Bytes Bytes → Bool
presumes_binary u_mapping =
    let lang = value_or_empty (Dict.get u_mapping key_lang) in
    not (is_blank (value_or_empty (Dict.get u_mapping key_charset)))
    || (elem b'.' lang && not (lang == lang_c))

-- on_environ
unfoldable pub on_environ : Library → Dict Bytes Bytes → Srv (Unit {0})
on_environ lib mapping =
    let u_mapping = uppercased lib [] (without_empty mapping) in
    modify (λ p. record p {
      extra = updated p.extra u_mapping;
      session = record p.session {
        force_binary = if presumes_binary u_mapping then true else p.session.force_binary;
      };
    })

-- the part of a text up to a character, and the part behind the first of them
unfoldable pub before_char : ℕ → Bytes → Bytes
before_char x [] = []
before_char x (c ∷ cs) = let rest = before_char x cs in if c == x then [] else c ∷ rest

unfoldable pub behind_char : ℕ → Bytes → Bytes
behind_char x [] = []
behind_char x (c ∷ cs) = let rest = behind_char x cs in if c == x then cs else rest

-- encoding_from_lang
unfoldable pub encoding_from_lang : Bytes → Option Bytes
encoding_from_lang lang =
    if not (elem b'.' lang) then none else some (before_char b'@' (behind_char b'.' lang))

-- inbinary and outbinary of the writer
abbrev pub inbinary : Protocol → Bool
inbinary p = remote_enabled p.session opt_binary

abbrev pub outbinary : Protocol → Bool
outbinary p = local_enabled p.session opt_binary

-- whether the direction may carry more than ASCII
unfoldable pub may_encode : Protocol → Bool → Bool → Bool
may_encode p outgoing incoming =
    p.session.force_binary
    || ((outgoing && not incoming && outbinary p)
        || (not outgoing && incoming && inbinary p)
        || (outgoing && incoming && (outbinary p && inbinary p)))

-- get_extra_info("charset") or self.default_encoding
abbrev pub or_default : Bytes → Bytes → Bytes
or_default [] default = default
or_default (c ∷ cs) default = c ∷ cs

-- What LANG asks for, if Python knows it; what codecs.lookup raises beside LookupError goes on.
unfoldable pub lang_codec : Library → Bytes → Result (Option Bytes)
lang_codec lib lang =
    if is_blank lang || lang == lang_c then ok none else elim (encoding_from_lang lang) [
      | none ↦ ok none
      | some candidate ↦ if is_blank candidate then ok none else elim (lib.has_codec candidate) [
        | ok known ↦ ok (if known then some candidate else none)
        | err x ↦ err x
      ]
    ]

-- TelnetServer.encoding
unfoldable pub encoding : Library → Protocol → Bool → Bool → Result Bytes
encoding lib p outgoing incoming =
    if not (outgoing || incoming)
    then err type_error
    else if not (may_encode p outgoing incoming)
    then ok us_ascii
    else elim (lang_codec lib (text_of (info lib p key_lang))) [
      | ok named ↦ elim named [
        | some candidate ↦ ok candidate
        | none ↦ ok (or_default (text_of (info lib p info_charset)) p.default_encoding)
      ]
      | err x ↦ err x
    ]
