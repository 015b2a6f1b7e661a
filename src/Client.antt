-- ===== src/Client.antt =====
-- client.py, class TelnetClient: what the client answers when it is asked for a character set, for
-- its environment, its terminal and its encoding.
pub mod Offers
pub mod Disclosed
use telnetlib.Prelude.{
  ℕ, zero, suc, Bool, true, false, ◌&&◌, ◌||◌, not, List, [], ◌∷◌, ◌++◌, Option, none, some,
  if◌then◌else◌, ◌==◌, nat_eq, bytes_eq, Bytes, length, ltb, leb,
}
use telnetlib.Dict
use telnetlib.Dict.{Dict}
use telnetlib.Exec.{Result, ok, err}
use telnetlib.Session.{Session, remote_enabled, local_enabled}
use telnetlib.Server.Terminal.{is_one_of}
use telnetlib.Telopt.{opt_binary}

-- What is sent for a variable: a text, or the number of lines or columns.
pub data EnvValue : Type 0 where
  env_text : Bytes → EnvValue
  env_number : ℕ → EnvValue

pub record Client : Type 0 where
  pub session : Session
  -- [] for no encoding of its own
  pub default_encoding : Bytes
  pub send_environ : List Bytes
  -- of `_extra`
  pub charset : Bytes
  pub lang : Bytes
  pub term : Bytes
  pub rows : ℕ
  pub cols : ℕ

-- `codecs.lookup(name).name`, where none is LookupError and another error is what it raises, as it
-- does for a name with a NUL; and os.environ.get(name, "")
pub record System : Type 0 where
  pub lookup : Bytes → Result (Option Bytes)
  pub environ : Bytes → Bytes

-- a character that str.strip drops
abbrev pub is_space : ℕ → Bool
is_space c = c == 32 || (leb 9 c && leb c 13) || (leb 28 c && leb c 31)

abbrev pub lstripped : Bytes → Bytes
lstripped [] = []
lstripped (c ∷ cs) = let rest = lstripped cs in if is_space c then rest else c ∷ cs

abbrev pub keep_unless_blank : ℕ → Bytes → Bytes
keep_unless_blank c [] = if is_space c then [] else c ∷ []
keep_unless_blank c (d ∷ ds) = c ∷ d ∷ ds

-- the text without the spaces at its end
abbrev pub drop_end_spaces : Bytes → Bytes
drop_end_spaces [] = []
drop_end_spaces (c ∷ cs) = keep_unless_blank c (drop_end_spaces cs)

-- name.strip()
abbrev pub stripped : Bytes → Bytes
stripped name = drop_end_spaces (lstripped name)

-- replace(" ", "-")
abbrev pub hyphenated : Bytes → Bytes
hyphenated [] = []
hyphenated (c ∷ cs) = (if c == b' ' then b'-' else c) ∷ hyphenated cs

abbrev pub is_digit : ℕ → Bool
is_digit c = leb 48 c && leb c 57

abbrev pub starts_with_digit : Bytes → Bool
starts_with_digit [] = false
starts_with_digit (c ∷ cs) = is_digit c

-- Zeros in front, as long as a digit follows.
abbrev pub drop_zeros : Bytes → Bytes
drop_zeros [] = []
drop_zeros (c ∷ cs) =
    let rest = drop_zeros cs in if c == b'0' && starts_with_digit cs then rest else c ∷ cs

-- re.sub(r"-0+(\d)", r"-\1", name); no match begins within another
abbrev pub without_zeros : ℕ → Bytes → Bytes
without_zeros fuel [] = []
without_zeros zero (c ∷ cs) = c ∷ cs
without_zeros (suc fuel) (c ∷ cs) =
    let rest = without_zeros fuel (drop_zeros cs) in
    let plain = without_zeros fuel cs in c ∷ (if c == b'-' then rest else plain)

-- replace("-", "")
abbrev pub without_hyphens : Bytes → Bytes
without_hyphens [] = []
without_hyphens (c ∷ cs) = let rest = without_hyphens cs in if c == b'-' then rest else c ∷ rest

-- The name without its hyphens but the first, where it has more than one.
abbrev pub first_hyphen : Bytes → Bytes
first_hyphen [] = []
first_hyphen (c ∷ cs) =
    let rest = first_hyphen cs in if c == b'-' then c ∷ without_hyphens cs else c ∷ rest

-- The candidates of _normalize_charset_name.
abbrev pub name_candidates : Bytes → List Bytes
name_candidates name =
    let base = hyphenated (stripped name) in
    let no_leading_zeros = without_zeros (length base) base in
    base ∷ no_leading_zeros ∷ without_hyphens base ∷ first_hyphen no_leading_zeros ∷ []

abbrev pub default_locale : Bytes
default_locale = b'e' ∷ b'n' ∷ b'_' ∷ b'U' ∷ b'S' ∷ []

-- the names that stand for Latin-1
abbrev pub latin1_names : List Bytes
latin1_names =
    (b'l' ∷ b'a' ∷ b't' ∷ b'i' ∷ b'n' ∷ b'-' ∷ b'1' ∷ [])
    ∷ (b'l' ∷ b'a' ∷ b't' ∷ b'i' ∷ b'n' ∷ b'1' ∷ [])
    ∷ (b'i' ∷ b's' ∷ b'o' ∷ b'8' ∷ b'8' ∷ b'5' ∷ b'9' ∷ b'-' ∷ b'1' ∷ [])
    ∷ (b'i' ∷ b's' ∷ b'o' ∷ b'-' ∷ b'8' ∷ b'8' ∷ b'5' ∷ b'9' ∷ b'-' ∷ b'1' ∷ [])
    ∷ []

-- an offer, with the name that Python gives its codec
abbrev pub Offer : Type 0
Offer = Bytes × Bytes

abbrev pub or_first : Option Offer → Offer → Option Offer
or_first none known = some known
or_first (some first) known = some first

abbrev pub is_desired : Option Bytes → Bytes → Bool
is_desired none canon = false
is_desired (some desired) canon = canon == desired

-- One round of the loop of `send_charset`, by the name that Python gives the offer, if it knows it;
-- `later` is the rest of the loop.
abbrev pub consider :
    Option Bytes
    → Option Offer
    → Bytes
    → Result (Option Bytes)
    → (Option Offer → Result (Option Offer × Option Offer))
    → Result (Option Offer × Option Offer)
consider desired first offer (err x) later = err x
consider desired first offer (ok none) later = later first
consider desired first offer (ok (some canon)) later =
    if is_desired desired canon
    then ok (or_first first (offer, canon), some (offer, canon))
    else later (or_first first (offer, canon))

-- the decision of `send_charset`: the encoding that is agreed upon, or a rejection
unfoldable pub decide : Option Bytes → Option Offer × Option Offer → Option Offer
decide desired (first, some matched) = some matched
decide (some desired) (first, none) = if is_one_of desired latin1_names then first else none
decide none (first, none) = first

module _ (sys : System) where
  -- the first candidate that Python knows, or the first of all
  unfoldable pub first_known_name : Bytes → List Bytes → Result Bytes
  first_known_name base [] = ok base
  first_known_name base (x ∷ xs) =
      let rest = first_known_name base xs in
      elim (sys.lookup x) [
        | ok found ↦ elim found [ none ↦ rest | some canon ↦ ok x ]
        | err e ↦ err e
      ]

  -- _normalize_charset_name
  unfoldable pub normalize_charset_name : Bytes → Result Bytes
  normalize_charset_name name = first_known_name (hyphenated (stripped name)) (name_candidates name)

  -- codecs.lookup(self._normalize_charset_name(offer)).name, or LookupError
  unfoldable pub canonical : Bytes → Result (Option Bytes)
  canonical offer = elim (normalize_charset_name offer) [
    | ok name ↦ sys.lookup name
    | err e ↦ err e
  ]

  -- the loop of `send_charset`, with `first_viable`; it returns that and `matched_offer`
  unfoldable pub search_offers :
      Option Bytes → Option Offer → List Bytes → Result (Option Offer × Option Offer)
  search_offers desired first [] = ok (first, none)
  search_offers desired first (offer ∷ offers) =
      consider desired first offer (canonical offer) (λ found. search_offers desired found offers)

  -- the name that Python gives the client's own encoding
  unfoldable pub desired_name : Client → Result (Option Bytes)
  desired_name c = elim c.default_encoding [ [] ↦ ok none | ◌∷◌ x xs ↦ sys.lookup (x ∷ xs) ]

  -- the assignments to `_extra`, and the answer
  unfoldable pub agree : Client → Option Offer → Result Bytes × Client
  agree c none = (ok [], c)
  agree c (some (offer, canon)) =
      (ok offer, record c { charset = canon; lang = default_locale ++ (b'.' ∷ canon) })

  -- send_charset
  unfoldable pub send_charset : Client → List Bytes → Result Bytes × Client
  send_charset c offered = elim (desired_name c) [
    | ok desired ↦ elim (search_offers desired none offered) [
      | ok found ↦ agree c (decide desired found)
      | err e ↦ (err e, c)
    ]
    | err e ↦ (err e, c)
  ]

abbrev pub env_lang : Bytes
env_lang = b'L' ∷ b'A' ∷ b'N' ∷ b'G' ∷ []

abbrev pub env_term : Bytes
env_term = b'T' ∷ b'E' ∷ b'R' ∷ b'M' ∷ []

abbrev pub env_lines : Bytes
env_lines = b'L' ∷ b'I' ∷ b'N' ∷ b'E' ∷ b'S' ∷ []

abbrev pub env_columns : Bytes
env_columns = b'C' ∷ b'O' ∷ b'L' ∷ b'U' ∷ b'M' ∷ b'N' ∷ b'S' ∷ []

abbrev pub env_colorterm : Bytes
env_colorterm = b'C' ∷ b'O' ∷ b'L' ∷ b'O' ∷ b'R' ∷ b'T' ∷ b'E' ∷ b'R' ∷ b'M' ∷ []

abbrev pub env_user : Bytes
env_user = b'U' ∷ b'S' ∷ b'E' ∷ b'R' ∷ []

abbrev pub env_home : Bytes
env_home = b'H' ∷ b'O' ∷ b'M' ∷ b'E' ∷ []

abbrev pub env_shell : Bytes
env_shell = b'S' ∷ b'H' ∷ b'E' ∷ b'L' ∷ b'L' ∷ []

abbrev pub Env : Type 0
Env = Dict Bytes EnvValue

-- the variables of `send_env`
unfoldable pub all_env : System → Client → Env
all_env sys c =
    (env_lang, env_text c.lang)
    ∷ (env_term, env_text c.term)
    ∷ (env_lines, env_number c.rows)
    ∷ (env_columns, env_number c.cols)
    ∷ (env_colorterm, env_text (sys.environ env_colorterm))
    ∷ (env_user, env_text (sys.environ env_user))
    ∷ (env_home, env_text (sys.environ env_home))
    ∷ (env_shell, env_text (sys.environ env_shell))
    ∷ []

-- {k: v for k, v in all_env.items() if k in self._send_environ}
unfoldable pub allowed_env : List Bytes → Env → Env
allowed_env allowed [] = []
allowed_env allowed ((k, v) ∷ env) =
    let rest = allowed_env allowed env in if is_one_of k allowed then (k, v) ∷ rest else rest

-- env.get(key, "")
unfoldable pub get_or_empty : Env → Bytes → EnvValue
get_or_empty env key = elim (Dict.get env key) [ none ↦ env_text [] | some v ↦ v ]

-- {key: env.get(key, "") for key in keys}, on top of `found`
unfoldable pub requested_env : Env → Env → List Bytes → Env
requested_env env found [] = found
requested_env env found (key ∷ keys) =
    requested_env env (Dict.put found key (get_or_empty env key)) keys

-- TelnetClient.send_env
unfoldable pub send_env : System → Client → List Bytes → Env
send_env sys c [] = allowed_env c.send_environ (all_env sys c)
send_env sys c (key ∷ keys) =
    requested_env (allowed_env c.send_environ (all_env sys c)) [] (key ∷ keys)

-- TelnetTerminalClient.send_env, where the window has `lines` and `columns`
unfoldable pub terminal_send_env : System → Client → ℕ → ℕ → List Bytes → Env
terminal_send_env sys c lines columns keys =
    Dict.put (Dict.put (send_env sys c keys) env_lines (env_number lines)) env_columns
      (env_number columns)

-- on_request_charset
abbrev pub offered_charsets : List Bytes
offered_charsets =
    (b'U' ∷ b'T' ∷ b'F' ∷ b'-' ∷ b'8' ∷ [])
    ∷ (b'L' ∷ b'A' ∷ b'T' ∷ b'I' ∷ b'N' ∷ b'1' ∷ [])
    ∷ (b'U' ∷ b'S' ∷ b'-' ∷ b'A' ∷ b'S' ∷ b'C' ∷ b'I' ∷ b'I' ∷ [])
    ∷ []

-- TelnetClient.encoding; none is the TypeError for no direction.
unfoldable pub client_encoding : Client → Bool → Bool → Option Bytes
client_encoding c outgoing incoming =
    let outbinary = local_enabled c.session opt_binary in
    let inbinary = remote_enabled c.session opt_binary in
    if not (outgoing || incoming)
    then none
    else if c.session.force_binary
        || ((outgoing && not incoming && outbinary)
            || (not outgoing && incoming && inbinary)
            || (outgoing && incoming && (outbinary && inbinary)))
    then some c.charset
    else some (b'U' ∷ b'S' ∷ b'-' ∷ b'A' ∷ b'S' ∷ b'C' ∷ b'I' ∷ b'I' ∷ [])
