-- ===== src/Examples/Writers.antt =====
-- The theorems on whole writers, at new ones that talk to each other.
use telnetlib.Prelude.{
  ℕ, true, false, List, [], ◌∷◌, ◌++◌, ◌≡◌, refl, arith, Bytes, nat_eq, bytes_eq, elem, All,
}
use telnetlib.Telopt.{cmd_iac, cmd_do, cmd_will, opt_sga, opt_lflow}
use telnetlib.Dict
use telnetlib.Dict.{Dict}
use telnetlib.Exec.{pure}
use telnetlib.Environ.{encode_env_buf, escape_environ}
use telnetlib.Environ.RoundTrip.{Distinct, IsSendable}
use telnetlib.Host.{Host}
use telnetlib.Session.{
  Session, EnvKey, Act, all_of, name, naws_called, environ_called, enabled, local_enabled,
  remote_enabled, pending_enabled,
}
use telnetlib.Session.Requests.{clamp, send_naws, batch_environ_keys}
use telnetlib.Session.Requests.Batches.{concat, IsShort, batch_environ_keys-IsShort}
use telnetlib.Subneg.Texts.{environ_requested}
use telnetlib.Interp.{Interp, feed_all, keep_cmd}
use telnetlib.Interp.Stream.{IsIdle}
use telnetlib.Writer.{telnet_writer}
use telnetlib.Writer.Handshake.{offer_settles, request_settles}
use telnetlib.Writer.Reports.{naws_reported, environ_reported}
use telnetlib.Examples.{new_session, new_interp, test_host}

abbrev ignore : ℕ → Bytes → Act (Unit {0})
ignore opt buf = pure tt

-- a server that has offered to suppress go-ahead
abbrev offering : Interp
offering = record (new_interp true) {
  session = record (new_session true) { pending_option = (cmd_will ∷ opt_sga ∷ [], true) ∷ [] };
}

-- a server that has asked for it
abbrev asking : Interp
asking = record (new_interp true) {
  session = record (new_session true) { pending_option = (cmd_do ∷ opt_sga ∷ [], true) ∷ [] };
}

offering-IsIdle : IsIdle offering
unfolding keep_cmd
offering-IsIdle = record { no_iac = refl; no_cmd = refl }

asking-IsIdle : IsIdle asking
unfolding keep_cmd
asking-IsIdle = record { no_iac = refl; no_cmd = refl }

pub server_IsIdle : IsIdle (new_interp true)
unfolding keep_cmd
server_IsIdle = record { no_iac = refl; no_cmd = refl }

offer_settles_example :
    let after =
      (feed_all
        (telnet_writer test_host ignore)
        (cmd_iac ∷ cmd_do ∷ opt_sga ∷ [])
        offering).1.session in
    (after.sent ≡ offering.session.sent)
    × (local_enabled after opt_sga ≡ true)
    × (pending_enabled after cmd_will opt_sga ≡ false)
unfolding elem enabled Dict.get
offer_settles_example =
    offer_settles test_host ignore opt_sga offering refl refl refl offering-IsIdle

request_settles_example :
    let after =
      (feed_all
        (telnet_writer test_host ignore)
        (cmd_iac ∷ cmd_will ∷ opt_sga ∷ [])
        asking).1.session in
    (after.sent ≡ asking.session.sent)
    × (remote_enabled after opt_sga ≡ true)
    × (pending_enabled after cmd_do opt_sga ≡ false)
unfolding elem enabled Dict.get
request_settles_example =
    request_settles test_host ignore opt_sga asking refl refl refl asking-IsIdle

naws_reported_example :
    let after =
      feed_all
        (telnet_writer test_host ignore)
        (send_naws test_host (new_session false)).1.sent
        (new_interp true) in
    (after.0 ≡ [])
    × IsIdle after.1
    × (after.1.session.events
        ≡ (new_interp true).session.events
          ++ (naws_called (clamp test_host.rows) (clamp test_host.cols) ∷ []))
naws_reported_example =
    naws_reported test_host test_host ignore (new_session false) (new_interp true) refl refl
      server_IsIdle refl

-- A has the value 1
abbrev one_variable : Dict Bytes Bytes
one_variable = (65 ∷ [], 49 ∷ []) ∷ []

abbrev client_host : Host
client_host = record test_host { environ_reply = λ names. one_variable }

one_Distinct : Distinct one_variable
unfolding Dict.get
one_Distinct = (refl, tt)

one_IsSendable : All (IsSendable (λ text. text) (λ text. text)) one_variable
one_IsSendable = (
  record {
    name_known = refl;
    value_known = refl;
    name_plain = (omega arith, tt);
    value_ends = omega arith;
  },
  tt,
)

environ_reported_example :
    let after =
      feed_all
        (telnet_writer test_host ignore)
        (environ_requested client_host [] (new_session false)).1.sent
        (new_interp true) in
    (after.0 ≡ [])
    × IsIdle after.1
    × (after.1.session.events
        ≡ (new_interp true).session.events ++ (environ_called one_variable ∷ []))
unfolding encode_env_buf escape_environ
environ_reported_example =
    environ_reported client_host test_host ignore [] one_variable (new_session false)
      (new_interp true) refl refl server_IsIdle refl refl refl one_Distinct one_IsSendable
      (omega arith, (omega arith, (omega arith, (omega arith, tt))))

abbrev two_keys : List EnvKey
two_keys = all_of 0 ∷ name (65 ∷ []) ∷ []

batch_environ_keys-IsShort_example :
    (concat (batch_environ_keys (λ text. text) two_keys) ≡ two_keys)
    × All (IsShort (λ text. text)) (batch_environ_keys (λ text. text) two_keys)
batch_environ_keys-IsShort_example = batch_environ_keys-IsShort (λ text. text) two_keys

-- a server that has heard WILL LFLOW, and a client that has said it
abbrev flow_server : Session
flow_server = record (new_session true) { remote_option = (opt_lflow ∷ [], true) ∷ [] }

abbrev flow_client : Interp
flow_client = record (new_interp false) {
  session = record (new_session false) { local_option = (opt_lflow ∷ [], true) ∷ [] };
}

flow_client-IsIdle : IsIdle flow_client
unfolding keep_cmd
flow_client-IsIdle = record { no_iac = refl; no_cmd = refl }
