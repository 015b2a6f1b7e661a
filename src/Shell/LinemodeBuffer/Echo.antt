-- ===== src/Shell/LinemodeBuffer/Echo.antt =====
-- What the echo tells of the line.
use telnetlib.Prelude.{ℕ, [], ◌∷◌, Option, none, some, nat_eq, Bytes, drop, ◌≡◌, ◌≤◌, ◌⊎◌}
use telnetlib.Exec.{Result, ok, err}
use telnetlib.Shell.LinemodeBuffer.{LinemodeBuffer, erases, count, in_order}

-- Of the line, its last character first, n characters are taken off, and the echo has BS, a space and
-- BS for each of them.
pub record IsErased (n : ℕ) (buf echo left : Bytes) : Type 0 where
  pub held : n ≤ count buf
  pub echoed : echo ≡ erases n
  pub rest : left ≡ drop n buf

-- What is echoed tells how the line changes: its last characters are erased, or b is put to it.
abbrev pub Echoes : ℕ → Bytes → Bytes → Bytes → Type 0
Echoes b buf echo left = ((n : ℕ) × IsErased n buf echo left) ⊎ ((echo ≡ b ∷ []) × (left ≡ b ∷ buf))

module _ (encode : Bytes → Bytes) where
  -- Where nothing is sent, the echo tells how the line changes. What is sent is a signal, and the line
  -- stays, or the line with b put to it, in order, and the line is empty then.
  abbrev pub Fits : ℕ → LinemodeBuffer → Result (Bytes × Option Bytes) × LinemodeBuffer → Type 0
  Fits b l (ok (echo, none), after) = Echoes b l.buf echo after.buf
  Fits b l (ok (echo, some data_), after) =
      ((echo ≡ []) × (after.buf ≡ l.buf))
      ⊎ ((echo ≡ b ∷ []) × (data_ ≡ encode (in_order (b ∷ l.buf) [])) × (after.buf ≡ []))
  Fits b l (err x, after) = after.buf ≡ l.buf
