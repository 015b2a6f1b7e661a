-- ===== src/Session/Payloads.antt =====
-- stream_writer.py: `send_gmcp`, `send_msdp` and `send_mssp`. Python's codecs are a `Codec`.
use telnetlib.Prelude.{ℕ, ◌||◌, Bytes, Option, if◌then◌else◌}
use telnetlib.Telopt.{opt_gmcp, opt_msdp, opt_mssp}
use telnetlib.Dict.{Dict}
use telnetlib.Exec.{pure, gets, ◌>>=◌}
use telnetlib.Mud.Codecs.{Json, JsonLib, gmcp_encode}
use telnetlib.Mud.Msdp.{Fields, msdp_encode}
use telnetlib.Mud.Mssp.{MsspValue, mssp_encode}
use telnetlib.Session.{Act, local_enabled, remote_enabled, send_iac}
use telnetlib.Session.Requests.{escape_iac, frame}

pub record Codec : Type 0 where
  pub json : JsonLib
  -- str.encode("utf-8")
  pub encode : Bytes → Bytes
  -- bytes.decode(encoding), or UnicodeDecodeError or LookupError
  pub decode : Bytes → Bytes → Option Bytes

-- Where neither side has the option, nothing is sent.
unfoldable pub send_payload : ℕ → Bytes → Act (Unit {0})
send_payload opt payload = do
  known ← gets (λ s. local_enabled s opt || remote_enabled s opt)
  if known then send_iac (frame opt (escape_iac payload)) else pure tt

module _ (codec : Codec) where
  -- send_gmcp
  unfoldable pub send_gmcp : Bytes → Json → Act (Unit {0})
  send_gmcp name data_ = send_payload opt_gmcp (gmcp_encode codec.json codec.encode name data_)

  -- send_msdp
  unfoldable pub send_msdp : Fields → Act (Unit {0})
  send_msdp variables = send_payload opt_msdp (msdp_encode codec.encode variables)

  -- send_mssp
  unfoldable pub send_mssp : Dict Bytes MsspValue → Act (Unit {0})
  send_mssp variables = send_payload opt_mssp (mssp_encode codec.encode variables)
