-- ===== src/Shell/LinemodeBuffer.antt =====
-- client_shell.py: class `LinemodeBuffer`, which edits a line before it is sent.
pub mod Echo
use telnetlib.Prelude.{
  ℕ, zero, suc, ◌+◌, Bool, true, false, not, ◌&&◌, ◌||◌, List, [], ◌∷◌, ◌++◌, Option, none, some,
  if◌then◌else◌, ◌==◌, nat_eq, Bytes,
}
use telnetlib.Telopt.{cmd_iac, cmd_ip, cmd_abort, cmd_susp, cmd_eof, cmd_brk, cmd_ayt}
use telnetlib.Dict
use telnetlib.Dict.{Dict}
use telnetlib.Exec.{Exec, ok, err, index_error}
use telnetlib.Slc.Objects.{
  Slc, is_nosupport, slc_ip, slc_abort, slc_susp, slc_eof, slc_brk, slc_ayt, slc_ec, slc_el, slc_ew,
}
use telnetlib.Slc.Forwardmask.{contains}

-- The buffer has its last character first; a character is its code point.
pub record LinemodeBuffer : Type 0 where
  pub buf : Bytes
  pub slctab : Dict ℕ Slc
  pub forwardmask : Option Bytes
  pub trapsig : Bool

-- _trapsig_map
abbrev pub trapsig_map : Dict ℕ Bytes
trapsig_map =
    (slc_ip, cmd_iac ∷ cmd_ip ∷ [])
    ∷ (slc_abort, cmd_iac ∷ cmd_abort ∷ [])
    ∷ (slc_susp, cmd_iac ∷ cmd_susp ∷ [])
    ∷ (slc_eof, cmd_iac ∷ cmd_eof ∷ [])
    ∷ (slc_brk, cmd_iac ∷ cmd_brk ∷ [])
    ∷ (slc_ayt, cmd_iac ∷ cmd_ayt ∷ [])
    ∷ []

-- _slc_val
unfoldable pub slc_val : LinemodeBuffer → ℕ → Option ℕ
slc_val l func = elim (Dict.get l.slctab func) [
  | none ↦ none
  | some defn ↦ if is_nosupport defn || defn.val == 0 then none else some defn.val
]

-- b == self._slc_val(func)
unfoldable pub is_func : LinemodeBuffer → ℕ → ℕ → Bool
is_func l b func = elim (slc_val l func) [ none ↦ false | some v ↦ b == v ]

-- the loop over `_trapsig_map`
unfoldable pub signal_of : LinemodeBuffer → ℕ → Dict ℕ Bytes → Option Bytes
signal_of l b [] = none
signal_of l b ((func, cmd) ∷ signals) =
    let later = signal_of l b signals in if is_func l b func then some cmd else later

-- "\b \b" * n
unfoldable pub erases : ℕ → Bytes
erases zero = []
erases (suc n) = 8 ∷ 32 ∷ 8 ∷ erases n

unfoldable pub count : Bytes → ℕ
count [] = 0
count (c ∷ cs) = suc (count cs)

-- The two loops of the word erase: how many characters they pop, and what they leave.
unfoldable pub pop_spaces : Bytes → ℕ × Bytes
pop_spaces [] = (0, [])
pop_spaces (c ∷ cs) =
    let (popped, left) = pop_spaces cs in if c == 32 then (suc popped, left) else (0, c ∷ cs)

unfoldable pub pop_word : Bytes → ℕ × Bytes
pop_word [] = (0, [])
pop_word (c ∷ cs) =
    let (popped, left) = pop_word cs in if c == 32 then (0, c ∷ cs) else (suc popped, left)

abbrev pub Reply : Type 0
Reply = Exec LinemodeBuffer (Bytes × Option Bytes)

-- echo and data, with the buffer that is left
abbrev pub answer : Bytes → Option Bytes → Bytes → Reply
answer echo data_ buf l = (ok (echo, data_), record l { buf = buf })

-- "".join(self._buf) + char
unfoldable pub in_order : Bytes → Bytes → Bytes
in_order [] line = line
in_order (c ∷ cs) line = in_order cs (c ∷ line)

-- `self.forwardmask is not None and b in self.forwardmask`; `none` is IndexError
unfoldable pub is_forwarding : Option Bytes → ℕ → Option Bool
is_forwarding none b = some false
is_forwarding (some mask) b = contains mask b

unfoldable pub erase_char : Bytes → Reply
erase_char [] = answer [] none []
erase_char (c ∷ cs) = answer (erases 1) none cs

unfoldable pub erase_word : Bytes → Reply
erase_word buf =
    let (spaces, rest) = pop_spaces buf in
    let (letters, left) = pop_word rest in answer (erases (spaces + letters)) none left

module _ (encode : Bytes → Bytes) where
  -- the end of `feed`
  unfoldable pub feed_char : ℕ → Reply
  feed_char b l =
      if b == 13 || b == 10
      then answer (b ∷ []) (some (encode (in_order l.buf (b ∷ [])))) [] l
      else elim (is_forwarding l.forwardmask b) [
        | none ↦ (err index_error, l)
        | some forwards ↦
            if forwards
            then answer (b ∷ []) (some (encode (in_order l.buf (b ∷ [])))) [] l
            else answer (b ∷ []) none (b ∷ l.buf) l
      ]

  -- the part of `feed` behind the signals
  unfoldable pub feed_edit : ℕ → Reply
  feed_edit b l =
      if is_func l b slc_ec
      then erase_char l.buf l
      else if is_func l b slc_el
      then answer (erases (count l.buf)) none [] l
      else if is_func l b slc_ew
      then erase_word l.buf l
      else feed_char b l

  -- feed
  unfoldable pub feed : ℕ → Reply
  feed b l = elim (if l.trapsig then signal_of l b trapsig_map else none) [
    | none ↦ feed_edit b l
    | some cmd ↦ (ok ([], some cmd), l)
  ]
