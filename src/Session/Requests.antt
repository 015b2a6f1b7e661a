-- ===== src/Session/Requests.antt =====
-- stream_writer.py: the methods that send a subnegotiation of our own.
pub mod Batches
pub mod Change
use telnetlib.Prelude.{
  ℕ, ◌+◌, ◌/◌, ◌%◌, min, Bool, true, false, ◌&&◌, ◌||◌, not, List, [], ◌∷◌, ◌++◌, none, some,
  if◌then◌else◌, ◌==◌, nat_eq, bytes_eq, Bytes, length, ltb, bytes_beq,
}
use telnetlib.Telopt.{
  cmd_iac, cmd_do, cmd_dont, cmd_will, cmd_wont, cmd_sb, cmd_se, cmd_ga, cmd_eor, opt_sga, opt_eor,
  opt_status, opt_com_port_option, opt_charset, opt_new_environ, opt_linemode, opt_lflow, opt_naws,
  opt_binary, sub_is, sub_send, env_var, charset_request, lflow_restart_any, lflow_restart_xon,
  lmode_mode, lmode_forwardmask, lmode_slc,
}
use telnetlib.Dict
use telnetlib.Dict.{Dict}
use telnetlib.Exec.{pure, raise, gets, modify, ◌>>=◌, ◌>>◌, when, value_error, assertion_error}
use telnetlib.Environ.{escape_environ}
use telnetlib.Slc.Forwardmask.{generate_forwardmask}
use telnetlib.Host.{Host}
use telnetlib.Session.{
  Act, Options, EnvKey, all_of, name, ℤ, pos, negsuc, remote_enabled, local_enabled,
  pending_enabled, set_pending, send_iac,
}

-- buf.replace(IAC, IAC + IAC)
unfoldable pub escape_iac : Bytes → Bytes
escape_iac [] = []
escape_iac (c ∷ cs) = if c == cmd_iac then c ∷ c ∷ escape_iac cs else c ∷ escape_iac cs

-- IAC SB opt payload IAC SE
abbrev pub frame : ℕ → Bytes → Bytes
frame opt payload = cmd_iac ∷ cmd_sb ∷ opt ∷ (payload ++ (cmd_iac ∷ cmd_se ∷ []))

-- send_ga
unfoldable pub send_ga : Act Bool
send_ga = do
  sga ← gets (λ s. local_enabled s opt_sga)
  if sga then pure false else (do send_iac (cmd_iac ∷ cmd_ga ∷ []); pure true)

-- send_eor
unfoldable pub send_eor : Act Bool
send_eor = do
  eor ← gets (λ s. local_enabled s opt_eor)
  if eor then (do send_iac (cmd_iac ∷ cmd_eor ∷ []); pure true) else pure false

-- request_status
unfoldable pub request_status : Act Bool
request_status = do
  known ← gets (λ s. remote_enabled s opt_status)
  busy ← gets (λ s. pending_enabled s cmd_sb opt_status)
  if known && not busy
      then (do
        send_iac (frame opt_status (sub_send ∷ []))
        modify (set_pending cmd_sb opt_status true)
        pure true)
      else pure false

-- request_comport_signature
unfoldable pub request_comport_signature : Act Bool
request_comport_signature = do
  known ← gets (λ s. remote_enabled s opt_com_port_option)
  if known then (do send_iac (frame opt_com_port_option (0 ∷ [])); pure true) else pure false

-- request_tspeed, request_xdisploc and request_ttype: `SB opt SEND`, if the peer has sent WILL and
-- no answer is awaited. (`request_tspeed` sets the pending option a second time.)
unfoldable pub request_send : ℕ → Act Bool
request_send opt = do
  known ← gets (λ s. remote_enabled s opt)
  busy ← gets (λ s. pending_enabled s cmd_sb opt)
  if known && not busy
      then (do
        modify (set_pending cmd_sb opt true)
        send_iac (frame opt (sub_send ∷ []))
        pure true)
      else pure false

-- sep.join(codepages)
join : List Bytes → Bytes
join [] = []
join (x ∷ []) = x
join (x ∷ y ∷ xs) = x ++ (b' ' ∷ join (y ∷ xs))

-- request_charset
unfoldable pub request_charset : Host → Act Bool
unfolding join
request_charset host = do
  known ← gets (λ s. remote_enabled s opt_charset || local_enabled s opt_charset)
  busy ← gets (λ s. pending_enabled s cmd_sb opt_charset)
  if known && not busy
      then (do
        send_iac (frame opt_charset (charset_request ∷ b' ' ∷ join host.charset_offers))
        modify (set_pending cmd_sb opt_charset true)
        pure true)
      else pure false

-- what one key takes of the payload
abbrev pub key_bytes : (Bytes → Bytes) → EnvKey → Bytes
key_bytes encode (all_of kind) = kind ∷ []
key_bytes encode (name key) = env_var ∷ escape_environ (encode key)

-- _ENVIRON_SB_MAX
abbrev pub environ_sb_max : ℕ
environ_sb_max = 240

abbrev pub is_nonempty : List EnvKey → Bool
is_nonempty [] = false
is_nonempty (k ∷ ks) = true

-- The loop of `_batch_environ_keys`, with `current_batch` and `current_size`; an item takes as
-- many bytes as its encoding has.
batches_from : (Bytes → Bytes) → List EnvKey → List EnvKey → ℕ → List (List EnvKey)
batches_from encode [] current size = if is_nonempty current then current ∷ [] else []
batches_from encode (k ∷ ks) current size =
    let entry_size = length (key_bytes encode k) in
    let closed = current ∷ batches_from encode ks (k ∷ []) (2 + entry_size) in
    let extended = batches_from encode ks (current ++ (k ∷ [])) (size + entry_size) in
    if is_nonempty current && ltb environ_sb_max (size + entry_size) then closed else extended

-- _batch_environ_keys
unfoldable pub batch_environ_keys : (Bytes → Bytes) → List EnvKey → List (List EnvKey)
unfolding batches_from
batch_environ_keys encode request_list = batches_from encode request_list [] 2

abbrev pub batch_bytes : (Bytes → Bytes) → List EnvKey → Bytes
batch_bytes encode [] = []
batch_bytes encode (k ∷ ks) = key_bytes encode k ++ batch_bytes encode ks

-- _send_environ_batch
unfoldable pub send_environ_batch : Host → List EnvKey → Act (Unit {0})
send_environ_batch host batch = do
  encoding ← gets (λ s. s.environ_encoding)
  modify (set_pending cmd_sb opt_new_environ true)
  send_iac (frame opt_new_environ (sub_send ∷ batch_bytes (host.encode encoding) batch))

-- `self._environ_batches = batches[1:]` and then `_send_environ_batch(batches[0])`; the list of
-- batches of a request that is not empty is not empty.
send_batches : Host → List (List EnvKey) → Act Bool
send_batches host [] = pure false
send_batches host (first ∷ rest) = do
  modify (λ s. record s { environ_batches = rest })
  send_environ_batch host first
  pure true

-- request_environ
unfoldable pub request_environ : Host → Act Bool
unfolding send_batches
request_environ host = do
  known ← gets (λ s. remote_enabled s opt_new_environ)
  busy ← gets (λ s. pending_enabled s cmd_sb opt_new_environ)
  encoding ← gets (λ s. s.environ_encoding)
  if known && is_nonempty host.environ_offers && not busy
      then send_batches host (batch_environ_keys (host.encode encoding) host.environ_offers)
      else pure false

-- send_lineflow_mode
unfoldable pub send_lineflow_mode : Act Bool
send_lineflow_mode = do
  allowed ← gets (λ s. s.server && remote_enabled s opt_lflow)
  any ← gets (λ s. s.xon_any)
  if allowed
      then (do
        send_iac (frame opt_lflow ((if any then lflow_restart_any else lflow_restart_xon) ∷ []))
        pure true)
      else pure false

-- send_linemode with a mode; the mask is written without escaping
unfoldable pub send_linemode : ℕ → Act (Unit {0})
send_linemode mode = do
  allowed ← gets (λ s. local_enabled s opt_linemode || remote_enabled s opt_linemode)
  if allowed
      then (do
        modify (λ s. record s { linemode = mode })
        send_iac (cmd_iac ∷ cmd_sb ∷ opt_linemode ∷ lmode_mode ∷ [])
        send_iac (mode ∷ [])
        send_iac (cmd_iac ∷ cmd_se ∷ []))
      else raise assertion_error

-- request_forwardmask, with a mask generated
unfoldable pub request_forwardmask : Act Bool
request_forwardmask = do
  known ← gets (λ s. remote_enabled s opt_linemode)
  mask ← gets (λ s. generate_forwardmask (local_enabled s opt_binary) s.tabs.slctab s.tabs.objects)
  if known
      then (do
        send_iac (cmd_iac ∷ cmd_sb ∷ opt_linemode ∷ cmd_do ∷ lmode_forwardmask ∷ [])
        send_iac mask
        send_iac (cmd_iac ∷ cmd_se ∷ [])
        pure true)
      else pure false

-- _slc_start
unfoldable pub slc_start : Act (Unit {0})
slc_start = send_iac (cmd_iac ∷ cmd_sb ∷ opt_linemode ∷ lmode_slc ∷ [])

-- _slc_end
unfoldable pub slc_end : Act (Unit {0})
slc_end = do
  buf ← gets (λ s. s.tabs.slc_buffer)
  send_iac (escape_iac buf)
  modify (λ s. record s { tabs = record s.tabs { slc_buffer = [] } })
  send_iac (cmd_iac ∷ cmd_se ∷ [])

-- `max(min(65535, n), 0)`
unfoldable pub clamp : ℤ → ℕ
clamp (pos n) = min 65535 n
clamp (negsuc n) = 0

-- struct.pack("!HH", a, b)
abbrev pub pack_hh : ℕ → ℕ → Bytes
pack_hh a b = (a / 256) ∷ (a % 256) ∷ (b / 256) ∷ (b % 256) ∷ []

-- _send_naws
unfoldable pub send_naws : Host → Act (Unit {0})
send_naws host =
    send_iac (frame opt_naws (escape_iac (pack_hh (clamp host.cols) (clamp host.rows))))

-- The items that `_send_status` writes for the local options.
local_status : Options → Bytes
local_status [] = []
local_status ((key, status) ∷ rest) =
    let item = (if status then cmd_will else cmd_wont) ∷ (key ++ local_status rest) in
    let skipped = local_status rest in if bytes_beq key (opt_status ∷ []) then skipped else item

abbrev pub has_key : Options → Bytes → Bool
has_key d key = elim (Dict.get d key) [ none ↦ false | some value ↦ true ]

-- Those for the remote options; `not status` holds wherever the first test fails.
remote_status : Options → Options → Bytes
remote_status pending [] = []
remote_status pending ((key, status) ∷ rest) =
    let command = if status || has_key pending (cmd_do ∷ key) then cmd_do else cmd_dont in
    let item = command ∷ (key ++ remote_status pending rest) in
    let skipped = remote_status pending rest in
    if bytes_beq key (opt_status ∷ []) then skipped else item

-- _send_status
unfoldable pub send_status : Act (Unit {0})
unfolding local_status remote_status
send_status = do
  allowed ← gets (λ s. pending_enabled s cmd_will opt_status || local_enabled s opt_status)
  if allowed
      then (do
        items ←
            gets
              (λ s. local_status s.local_option ++ remote_status s.pending_option s.remote_option)
        send_iac (frame opt_status (sub_is ∷ items))
        pending ← gets (λ s. pending_enabled s cmd_will opt_status)
        when pending (modify (set_pending cmd_will opt_status false)))
      else raise value_error
