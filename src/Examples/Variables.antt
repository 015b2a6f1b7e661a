-- ===== src/Examples/Variables.antt =====
-- The theorems on environment variables, with an encoding that keeps the code points.
use telnetlib.Prelude.{[], ◌∷◌, ◌≡◌, refl, arith, Bytes, All, nat_eq, bytes_eq}
use telnetlib.Dict
use telnetlib.Dict.{Dict}
use telnetlib.Environ.{encode_env_buf, decode_env_buf}
use telnetlib.Environ.RoundTrip.{IsSendable, Distinct, decode-encode_env_buf}

abbrev same : Bytes → Bytes
same text = text

-- LANG has the value C, and a variable that is named by the two break bytes is empty
abbrev two_variables : Dict Bytes Bytes
two_variables = (b'L' ∷ b'A' ∷ b'N' ∷ b'G' ∷ [], b'C' ∷ []) ∷ (0 ∷ 3 ∷ [], []) ∷ []

two_Distinct : Distinct two_variables
unfolding Dict.get
two_Distinct = (refl, (refl, tt))

two_IsSendable : All (IsSendable same same) two_variables
two_IsSendable = (
  record {
    name_known = refl;
    value_known = refl;
    name_plain = (omega arith, (omega arith, (omega arith, (omega arith, tt))));
    value_ends = omega arith;
  },
  (
    record {
      name_known = refl;
      value_known = refl;
      name_plain = (omega arith, (omega arith, tt));
      value_ends = omega arith;
    },
    tt,
  ),
)

decode-encode_env_buf_example :
    decode_env_buf same (encode_env_buf same two_variables) ≡ two_variables
decode-encode_env_buf_example =
    decode-encode_env_buf same same two_variables two_Distinct two_IsSendable
