-- ===== src/Interp/Chunk.antt =====
-- _base.py: `_process_data_chunk`, and the special bytes that server_base.py calls it with.
pub mod Shortcut
use telnetlib.Prelude.{
  ℕ, Bool, true, false, ◌&&◌, ◌||◌, not, [], ◌∷◌, Option, none, some, ◌==◌, nat_eq, Bytes, elem,
  if◌then◌else◌,
}
use telnetlib.Telopt.{cmd_iac}
use telnetlib.Dict.{Dict}
use telnetlib.Slc.Table.{Store}
use telnetlib.Exec.{Result, ok, err}
use telnetlib.Session.{Session}
use telnetlib.Interp.{Interp, Methods, is_oob, in_band, feed_byte}

-- What the caller gets: the bytes fed to the reader, the value returned, the compressed remainder
-- that is left for it, and the writer.
pub record Outcome : Type 0 where
  pub reader : Bytes
  pub cmd_received : Bool
  pub remainder : Option Bytes
  pub interp : Interp

-- `slc_special`; with none only IAC is special
unfoldable pub is_special : Option Bytes → ℕ → Bool
is_special none b = b == cmd_iac
is_special (some special) b = elem b special

abbrev is_command : Result Bool → Bool
is_command (ok false) = true
is_command _ = false

-- where MCCP2 begins
abbrev pub begin_mccp2 : Interp → Interp
begin_mccp2 i = record i {
  session = record i.session { mccp2_activated = false; mccp2_active = true };
}

-- {defn.val[0] for defn in slctab.values() if defn.val != theNULL}
pub slc_vals : Dict ℕ ℕ → Store → Bytes
slc_vals [] h = []
slc_vals ((func, r) ∷ tab) h = if (h r).val == 0 then slc_vals tab h else (h r).val ∷ slc_vals tab h

-- What the server gives for `slc_special` (server_base.py).
unfoldable pub server_special : Session → Option Bytes
unfolding slc_vals
server_special s =
    if s.slc_simulated then some (cmd_iac ∷ slc_vals s.tabs.slctab s.tabs.objects) else none

module _ (m : Methods) (special : Option Bytes) where
  -- _process_data_chunk: outside of a command a byte that is not special goes to the reader
  -- without `feed_byte`.
  unfoldable pub process_data_chunk : Bytes → Interp → Outcome
  process_data_chunk [] i = record {
    reader = [];
    cmd_received = false;
    remainder = none;
    interp = i;
  }
  process_data_chunk (b ∷ bs) i = elim (not (is_oob i) && not (is_special special b)) [
    | true ↦ (let o = process_data_chunk bs i in record o { reader = b ∷ o.reader })
    | false ↦
        (let (r, i') = feed_byte m b i in
          elim i'.session.mccp2_activated [
            | true ↦ record {
              reader = in_band r b [];
              cmd_received = true;
              remainder = some bs;
              interp = begin_mccp2 i';
            }
            | false ↦
                (let o = process_data_chunk bs i' in
                  record o {
                    reader = in_band r b o.reader;
                    cmd_received = is_command r || o.cmd_received;
                  })
          ])
  ]
