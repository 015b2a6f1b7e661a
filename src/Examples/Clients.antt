-- ===== src/Examples/Clients.antt =====
-- A client that is asked for its character set and its environment, and clients that nobody waits for.
use telnetlib.Prelude.{
  true, false, List, [], ◌∷◌, none, some, if◌then◌else◌, ◌==◌, bytes_eq, ◌≡◌, refl, Bytes,
}
use telnetlib.Dict
use telnetlib.Exec.{ok}
use telnetlib.Server.Names.{ansi, user, key_lang}
use telnetlib.Server.Clients.{new_queue, enqueue_all, enqueue_keeps_last}
use telnetlib.Client.{Client, System, send_env}
use telnetlib.Client.Disclosed.{is_silent, send_env_silent}
use telnetlib.Examples.{new_session}

abbrev xterm : Bytes
xterm = b'x' ∷ b't' ∷ []

-- a client with no encoding of its own
abbrev plain_client : Client
plain_client = record {
  session = new_session false;
  default_encoding = [];
  send_environ = key_lang ∷ [];
  charset = [];
  lang = b'C' ∷ [];
  term = xterm;
  rows = 25;
  cols = 80;
}

abbrev cp437 : Bytes
cp437 = b'c' ∷ b'p' ∷ b'4' ∷ []

-- Python knows one codec, and the environment holds one name everywhere.
abbrev small_system : System
small_system = record {
  lookup = λ t. if t == cp437 then ok (some cp437) else ok none;
  environ = λ t. b'm' ∷ b'e' ∷ [];
}

-- two names, of which Python knows the second when it is normalized
abbrev two_offers : List Bytes
two_offers = xterm ∷ (b'c' ∷ b'p' ∷ b'-' ∷ b'4' ∷ []) ∷ []

send_env_silent_example :
    is_silent (Dict.get (send_env small_system plain_client (user ∷ [])) user) ≡ true
send_env_silent_example = send_env_silent small_system plain_client (user ∷ []) user refl

enqueue_keeps_last_example :
    enqueue_all (new_queue Bytes) (xterm ∷ ansi ∷ [])
    ≡ some (record { maxsize = 1000; items = xterm ∷ ansi ∷ [] })
enqueue_keeps_last_example = enqueue_keeps_last (xterm ∷ ansi ∷ [])
