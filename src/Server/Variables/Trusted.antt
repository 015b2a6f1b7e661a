-- ===== src/Server/Variables/Trusted.antt =====
-- What a client's environment cannot reach of `_extra`.
use telnetlib.Prelude.{
  Bool, true, false, [], ◌∷◌, if◌then◌else◌, ◌==◌, bytes_eq, ◌≡◌, refl, ◌∙◌, All, Bytes,
  bytes_beq_iff, arith,
}
use telnetlib.Dict
use telnetlib.Dict.{Dict}
use telnetlib.Exec.{◌>>=◌}
use telnetlib.Server.{Info, text, Library, Protocol}
use telnetlib.Server.Variables.{without_empty, uppercased, updated, on_environ}

module _ (lib : Library) (idempotent : (t : Bytes) → lib.upper (lib.upper t) ≡ lib.upper t) where
  abbrev AreUpper : Dict Bytes Bytes → Type 0
  AreUpper d = All (λ item. lib.upper item.0 ≡ item.0) d

  AreUpper-if :
      (b : Bool) (x y : Dict Bytes Bytes) → AreUpper x → AreUpper y → AreUpper (if b then x else y)
  AreUpper-if true x y ax ay = ax
  AreUpper-if false x y ax ay = ay

  -- a key in upper case is not one that is not
  differs : (k key : Bytes) → lib.upper k ≡ k → (lib.upper key == key) ≡ false → (k == key) ≡ false
  differs k key u h = grind (arith, bytes_beq_iff k key, bytes_beq_iff (lib.upper key) key)

  put-AreUpper :
      (d : Dict Bytes Bytes) (key val : Bytes)
      → AreUpper d
      → AreUpper (Dict.put d (lib.upper key) val)
  unfolding Dict.put
  put-AreUpper [] key val a = (idempotent key, tt)
  put-AreUpper ((k, v) ∷ d) key val (u, a) =
      AreUpper-if (k == lib.upper key) _ _ (u, a) (u, put-AreUpper d key val a)

  uppercased-AreUpper :
      (mapping done : Dict Bytes Bytes) → AreUpper done → AreUpper (uppercased lib done mapping)
  unfolding uppercased
  uppercased-AreUpper [] done a = a
  uppercased-AreUpper ((key, val) ∷ mapping) done a =
      uppercased-AreUpper mapping _ (put-AreUpper done key val a)

  get-updated :
      (u : Dict Bytes Bytes) (extra : Dict Bytes Info) (key : Bytes)
      → AreUpper u
      → (lib.upper key == key) ≡ false
      → Dict.get (updated extra u) key ≡ Dict.get extra key
  unfolding updated
  get-updated [] extra key a h = refl
  get-updated ((k, v) ∷ u) extra key (e, a) h =
      get-updated u (Dict.put extra k (text v)) key a h
      ∙ (Dict.get-put extra k key (text v) ∙ rw (differs k key e h) refl)

  -- Where `str.upper` is idempotent, a client's environment changes no value of `_extra` whose key
  -- is not in upper case, whatever names and values it sends.
  pub on_environ_trusted :
      (mapping : Dict Bytes Bytes) (p : Protocol) (key : Bytes)
      → (lib.upper key == key) ≡ false
      → Dict.get (on_environ lib mapping p).1.extra key ≡ Dict.get p.extra key
  unfolding on_environ ◌>>=◌
  on_environ_trusted mapping p key h =
      get-updated _ p.extra key (uppercased-AreUpper (without_empty mapping) [] tt) h
