-- ===== src/Environ/Escape.antt =====
-- The two escapes of `_escape_environ`, as one pass, and that `_unescape_environ` undoes them.
use telnetlib.Prelude.{
  ℕ, Bool, false, ◌&&◌, ◌||◌, [], ◌∷◌, if◌then◌else◌, ◌==◌, nat_eq, bytes_eq, Bytes, ◌≡◌, ◌≢◌, refl,
  ◌∙◌, arith,
}
use telnetlib.Telopt.{env_var, env_esc, env_uservar}
use telnetlib.Environ.{escape_byte, unescape_byte, escape_environ, unescape_environ}

abbrev starts : ℕ → Bytes → Bool
starts v [] = false
starts v (d ∷ ds) = d == v

unescape-cons :
    (v c : ℕ) (ys : Bytes)
    → (c == env_esc && starts v ys) ≡ false
    → unescape_byte v (c ∷ ys) ≡ c ∷ unescape_byte v ys
unfolding unescape_byte
unescape-cons v c [] h = refl
unescape-cons v c (d ∷ ys) h = ground arith

starts-escape : (v : ℕ) (buf : Bytes) → v ≢ env_esc → starts v (escape_byte v buf) ≡ false
unfolding escape_byte
starts-escape v [] h = refl
starts-escape v (c ∷ cs) h = ground arith

unescape-escape_byte :
    (v : ℕ) (buf : Bytes) → v ≢ env_esc → unescape_byte v (escape_byte v buf) ≡ buf
unfolding unescape_byte escape_byte
unescape-escape_byte v [] h = refl
unescape-escape_byte v (c ∷ cs) h =
    ground (
      arith,
      unescape-cons v c (escape_byte v cs),
      starts-escape v cs h,
      unescape-escape_byte v cs h,
    )

-- A VAR is unescaped through the escape of USERVAR.
unescape-escape_comm :
    (buf : Bytes)
    → unescape_byte env_var (escape_byte env_uservar buf)
      ≡ escape_byte env_uservar (unescape_byte env_var buf)
unfolding escape_byte unescape_byte
unescape-escape_comm [] = refl
unescape-escape_comm (c ∷ []) = ground arith
unescape-escape_comm (c ∷ d ∷ cs) = ground (
  arith,
  unescape-escape_comm cs,
  unescape-escape_comm (d ∷ cs),
  unescape-cons env_var c (escape_byte env_uservar (d ∷ cs)),
  unescape-cons env_var env_esc (env_uservar ∷ escape_byte env_uservar (d ∷ cs)),
  unescape-cons env_var env_uservar (escape_byte env_uservar (d ∷ cs)),
)

-- `_unescape_environ` undoes `_escape_environ`.
pub unescape-escape_environ : (buf : Bytes) → unescape_environ (escape_environ buf) ≡ buf
unfolding unescape_environ escape_environ
unescape-escape_environ buf = rw unescape-escape_comm (
    unescape-escape_byte env_uservar _ (omega arith)
    ∙ unescape-escape_byte env_var buf (omega arith))

-- what one byte becomes
abbrev pub hide : ℕ → Bytes → Bytes
hide c rest = if c == env_var || c == env_uservar then env_esc ∷ c ∷ rest else c ∷ rest

pub escape_environ-cons :
    (c : ℕ) (cs : Bytes) → escape_environ (c ∷ cs) ≡ hide c (escape_environ cs)
unfolding escape_environ escape_byte
escape_environ-cons c cs = ground arith
