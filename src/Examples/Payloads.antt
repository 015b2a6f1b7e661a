-- ===== src/Examples/Payloads.antt =====
-- The theorems on the MUD payloads, with a codec for the bytes below 255.
use telnetlib.Prelude.{
  true, false, [], ◌∷◌, ◌++◌, some, ◌≡◌, refl, arith, Bytes, nat_eq, bytes_eq, elem, inr, inl,
}
use telnetlib.Telopt.{opt_msdp, opt_mssp, msdp_var, msdp_val, msdp_array_open, mssp_var, mssp_val}
use telnetlib.Dict
use telnetlib.Dict.{Dict}
use telnetlib.Mud.Codecs.{string}
use telnetlib.Mud.Msdp.{
  Fields, text, table, array, no_fields, field, no_items, item, out_of_fuel, msdp_decode,
  msdp_encode, encode_value, encode_fields, encode_items,
}
use telnetlib.Mud.Msdp.RoundTrip.{IsText}
use telnetlib.Mud.Msdp.Stall.{msdp_decode_stalls}
use telnetlib.Mud.Mssp.{MsspValue, one, many, mssp_encode, encode_values, mssp_decode}
use telnetlib.Mud.Mssp.Total.{mssp_decode_total}
use telnetlib.Mud.Mssp.RoundTrip.{IsMsspText}
use telnetlib.Session.{Session, enabled, msdp_called, mssp_called}
use telnetlib.Session.Payloads.{Codec, send_msdp, send_mssp}
use telnetlib.Writer.Payloads.{CanSend, Hears, msdp_reported, mssp_reported}
use telnetlib.Examples.{new_session, new_interp, test_host}
use telnetlib.Examples.Writers.{server_IsIdle}

abbrev test_codec : Codec
test_codec = record {
  json = record { dumps = λ d. b'0' ∷ []; loads = λ t. some (string t); strip = λ t. t };
  encode = λ t. t;
  decode = λ encoding buf. some buf;
}

abbrev sending_msdp : Session
sending_msdp = record (new_session false) { local_option = (opt_msdp ∷ [], true) ∷ [] }

abbrev sending_mssp : Session
sending_mssp = record (new_session false) { remote_option = (opt_mssp ∷ [], true) ∷ [] }

abbrev hp : Bytes
hp = b'H' ∷ b'P' ∷ []

abbrev ids : Bytes
ids = b'I' ∷ 255 ∷ []

-- a table with a list in it, behind a text with a byte of 255
abbrev more_fields : Fields
more_fields = field hp (table (field ids (array (item (text hp) no_items)) no_fields)) no_fields

CanSend-msdp : CanSend opt_msdp sending_msdp
unfolding enabled Dict.get
CanSend-msdp = record { conn = refl; fresh = refl; known = refl }

CanSend-mssp : CanSend opt_mssp sending_mssp
unfolding enabled Dict.get
CanSend-mssp = record { conn = refl; fresh = refl; known = refl }

hp-IsText : IsText (λ t. t) (λ t. some t) hp
unfolding elem
hp-IsText = record { known = refl; clean = (refl, (refl, tt)) }

ids-IsText : IsText (λ t. t) (λ t. some t) ids
unfolding elem
ids-IsText = record { known = refl; clean = (refl, (refl, tt)) }

hp-IsMsspText : IsMsspText (λ t. t) (λ t. some t) hp
unfolding elem
hp-IsMsspText = record { known = refl; clean = (refl, (refl, tt)) }

ids-IsMsspText : IsMsspText (λ t. t) (λ t. some t) ids
unfolding elem
ids-IsMsspText = record { known = refl; clean = (refl, (refl, tt)) }

msdp_reported_example :
    Hears test_host test_codec 100
      (new_interp true)
      (send_msdp test_codec (field ids (text ids) more_fields) sending_msdp).1.sent
      (msdp_called (field ids (text ids) more_fields))
unfolding msdp_encode encode_value encode_fields encode_items
msdp_reported_example =
    msdp_reported test_host test_codec 100 ids (text ids) more_fields sending_msdp (new_interp true)
      CanSend-msdp server_IsIdle refl refl
      (ids-IsText, ids-IsText, refl, (hp-IsText, (ids-IsText, (hp-IsText, tt), refl, tt), refl, tt))
      (omega arith)

abbrev more_variables : Dict Bytes MsspValue
more_variables = (ids, many (hp ∷ ids ∷ [])) ∷ []

mssp_reported_example :
    Hears test_host test_codec 100
      (new_interp true)
      (send_mssp test_codec ((hp, one ids) ∷ more_variables) sending_mssp).1.sent
      (mssp_called ((hp, one ids) ∷ more_variables))
unfolding mssp_encode encode_values Dict.get
mssp_reported_example =
    mssp_reported test_host test_codec 100 hp (one ids) more_variables sending_mssp
      (new_interp true) CanSend-mssp server_IsIdle refl
      (
        hp-IsMsspText,
        (ids-IsMsspText, tt),
        tt,
        refl,
        (ids-IsMsspText, (hp-IsMsspText, (ids-IsMsspText, tt)), tt, refl, tt),
      )
      (omega arith)

msdp_decode_stalls_example :
    msdp_decode (λ t. some t) 1000 (msdp_var ∷ (hp ++ (msdp_val ∷ msdp_array_open ∷ msdp_var ∷ hp)))
    ≡ out_of_fuel
unfolding elem
msdp_decode_stalls_example =
    msdp_decode_stalls (λ t. some t) 1000 msdp_array_open msdp_var hp hp (refl, (refl, tt))
      (inr (refl, inl refl))

-- a name with two values
abbrev payload : Bytes
payload = mssp_var ∷ (hp ++ (mssp_val ∷ (hp ++ (mssp_val ∷ ids))))

mssp_decode_total_example :
    (r : Dict Bytes MsspValue) × (mssp_decode (λ t. some t) 10 payload ≡ some r)
    × (mssp_decode (λ t. some t) 20 payload ≡ some r)
mssp_decode_total_example =
    mssp_decode_total (λ t. some t) payload 10 20 (omega arith) (omega arith)
