-- ===== src/Client/Disclosed.antt =====
-- What a client of client.py tells a server of its environment.
use telnetlib.Prelude.{
  Bool, true, false, List, [], ◌∷◌, Option, none, some, if◌then◌else◌, ◌==◌, bytes_eq,
  bytes_beq_iff, Bool-cases, ◌≡◌, inl, inr, refl, ap, ◌∙◌, Bytes, arith,
}
use telnetlib.Dict
use telnetlib.Client.{
  Client, System, EnvValue, env_text, Env, all_env, allowed_env, get_or_empty, requested_env,
  send_env,
}
use telnetlib.Server.Terminal.{is_one_of}

-- Nothing is told: the variable is left out, or sent empty.
abbrev pub is_silent : Option EnvValue → Bool
is_silent none = true
is_silent (some (env_text [])) = true
is_silent v = false

is_one_of-equal :
    (allowed : List Bytes) (j k : Bytes)
    → (j == k) ≡ true
    → is_one_of k allowed ≡ false
    → is_one_of j allowed ≡ false
is_one_of-equal allowed j k e h = ap (λ t. is_one_of t allowed) ((bytes_beq_iff j k).0 e) ∙ h

get-allowed_env :
    (allowed : List Bytes) (env : Env) (key : Bytes)
    → is_one_of key allowed ≡ false
    → Dict.get (allowed_env allowed env) key ≡ none
unfolding allowed_env Dict.get
get-allowed_env allowed [] key h = refl
get-allowed_env allowed ((k, v) ∷ env) key h =
    ground (arith, get-allowed_env allowed env key h, is_one_of-equal allowed k key)

get_or_empty-none :
    (env : Env) (k : Bytes) → Dict.get env k ≡ none → get_or_empty env k ≡ env_text []
unfolding get_or_empty
get_or_empty-none env k h = ap (λ o. elim o [ none ↦ env_text [] | some v ↦ v ]) h

put_silent :
    (env found : Env) (k key : Bytes)
    → Dict.get env key ≡ none
    → is_silent (Dict.get found key) ≡ true
    → is_silent (Dict.get (Dict.put found k (get_or_empty env k)) key) ≡ true
put_silent env found k key h s =
    let v = get_or_empty env k in
    let after = λ (b : Bool). is_silent (if b then some v else Dict.get found key) in
    ap is_silent (Dict.get-put found k key v) ∙ (elim (Bool-cases (k == key)) [
      | inl e ↦
          let same = (bytes_beq_iff k key).0 e in
          ap after e
          ∙ ap (λ w. is_silent (some w)) (get_or_empty-none env k (ap (Dict.get env) same ∙ h))
      | inr e ↦ ap after e ∙ s
    ])

requested_env_silent :
    (env : Env) (keys : List Bytes) (found : Env) (key : Bytes)
    → Dict.get env key ≡ none
    → is_silent (Dict.get found key) ≡ true
    → is_silent (Dict.get (requested_env env found keys) key) ≡ true
unfolding requested_env
requested_env_silent env [] found key h s = s
requested_env_silent env (k ∷ ks) found key h s =
    requested_env_silent env ks _ key h (put_silent env found k key h s)

-- `send_env` tells the server nothing of a variable that send_environ does not name: whatever is asked
-- for, the variable is left out or sent empty.
pub send_env_silent :
    (sys : System) (c : Client) (keys : List Bytes) (key : Bytes)
    → is_one_of key c.send_environ ≡ false
    → is_silent (Dict.get (send_env sys c keys) key) ≡ true
unfolding send_env Dict.get
send_env_silent sys c [] key h = ap is_silent (get-allowed_env c.send_environ (all_env sys c) key h)
send_env_silent sys c (k ∷ ks) key h =
    requested_env_silent (allowed_env c.send_environ (all_env sys c)) (k ∷ ks) [] key
      (get-allowed_env c.send_environ (all_env sys c) key h) refl
