-- ===== src/Server/Variables/Charset.antt =====
-- Which encoding the server uses.
use telnetlib.Prelude.{
  ℕ, Bool, true, false, ◌&&◌, ◌||◌, not, [], ◌∷◌, ◌++◌, some, if◌then◌else◌, ◌==◌, nat_eq, bytes_eq,
  ◌≡◌, refl, elem, Bytes, arith,
}
use telnetlib.Telopt.{opt_binary}
use telnetlib.Exec.{ok}
use telnetlib.Session.{remote_enabled, local_enabled}
use telnetlib.Server.{text, Library, Protocol, info, is_blank}
use telnetlib.Server.Names.{key_lang, us_ascii, lang_c}
use telnetlib.Server.Variables.{
  before_char, behind_char, encoding_from_lang, may_encode, lang_codec, encoding,
}

behind_char-append :
    (x : ℕ) (before after : Bytes)
    → elem x before ≡ false
    → behind_char x (before ++ (x ∷ after)) ≡ after
unfolding behind_char elem
behind_char-append x [] after h = ground arith
behind_char-append x (c ∷ cs) after h = ground (arith, behind_char-append x cs after)

before_char-append :
    (x : ℕ) (before after : Bytes)
    → elem x before ≡ false
    → before_char x (before ++ (x ∷ after)) ≡ before
unfolding before_char elem
before_char-append x [] after h = ground arith
before_char-append x (c ∷ cs) after h = ground (arith, before_char-append x cs after)

elem-append : (x : ℕ) (before after : Bytes) → elem x (before ++ (x ∷ after)) ≡ true
unfolding elem
elem-append x [] after = ground arith
elem-append x (c ∷ cs) after = ground (arith, elem-append x cs after)

-- language.codeset@modifier
abbrev pub locale : Bytes → Bytes → Bytes → Bytes
locale language codeset modifier = language ++ (b'.' ∷ (codeset ++ (b'@' ∷ modifier)))

encoding_from_lang-locale :
    (language codeset modifier : Bytes)
    → elem b'.' language ≡ false
    → elem b'@' codeset ≡ false
    → encoding_from_lang (locale language codeset modifier) ≡ some codeset
unfolding encoding_from_lang
encoding_from_lang-locale language codeset modifier h k =
    rw
      (
        elem-append b'.' language (codeset ++ (b'@' ∷ modifier)),
        behind_char-append b'.' language (codeset ++ (b'@' ∷ modifier)) h,
        before_char-append b'@' codeset modifier k,
      )
      refl

-- Such a LANG is not empty, and not the locale C.
locale-named :
    (language codeset modifier : Bytes)
    → is_blank (locale language codeset modifier) || locale language codeset modifier == lang_c
      ≡ false
locale-named [] codeset modifier = refl
locale-named (c ∷ []) codeset modifier = ground arith
locale-named (c ∷ d ∷ cs) codeset modifier = ground arith

-- BINARY is forced, or it is on at each end that sends in a direction asked for: at our end for what
-- goes out, at the peer's for what comes in.
abbrev pub carries_all : Protocol → Bool → Bool → Bool
carries_all p outgoing incoming =
    p.session.force_binary
    || ((not outgoing || local_enabled p.session opt_binary)
        && (not incoming || remote_enabled p.session opt_binary))

-- A client's LANG decides: with a LANG of the form language.codeset@modifier, where the language holds
-- no '.', the codeset no '@', and the codeset is not empty and Python knows it, the encoding, asked for
-- at least one direction, is the codeset if BINARY is forced, or if it is on at our end, where the
-- outgoing direction is asked for, and at the peer's, where the incoming one is. Else it is US-ASCII.
pub encoding_by_lang :
    (lib : Library) (p : Protocol) (outgoing incoming : Bool) (language codeset modifier : Bytes)
    → outgoing || incoming ≡ true
    → info lib p key_lang ≡ some (text (locale language codeset modifier))
    → elem b'.' language ≡ false
    → elem b'@' codeset ≡ false
    → is_blank codeset ≡ false
    → lib.has_codec codeset ≡ ok true
    → encoding lib p outgoing incoming
      ≡ ok (if carries_all p outgoing incoming then codeset else us_ascii)
unfolding encoding lang_codec may_encode
encoding_by_lang lib p outgoing incoming language codeset modifier d l h k e c =
    rw
      (
        d,
        l,
        locale-named language codeset modifier,
        encoding_from_lang-locale language codeset modifier h k,
        e,
        c,
      )
      (ground (arith, d))
