-- ===== src/Slc/Change.antt =====
-- stream_writer.py: `_slc_add`, `_slc_send`, `_slc_process`, `_slc_change` and the loop of
-- `_handle_sb_linemode_slc`. `server` is the writer's point of view.
pub mod Buffer
pub mod Replies
pub mod Defaults
use telnetlib.Prelude.{
  ℕ, zero, suc, ◌+◌, ◌*◌, Bool, true, false, ◌&&◌, not, [], ◌∷◌, ◌++◌, none, some, ◌==◌, nat_eq,
  if◌then◌else◌, leb, ltb, length, Bytes,
}
use telnetlib.Dict
use telnetlib.Dict.{Dict}
use telnetlib.Exec.{
  Exec, ok, pure, raise, gets, of_option, modify, ◌>>=◌, ◌>>◌, when, value_error, key_error,
  attribute_error,
}
use telnetlib.Slc.Objects.{
  Slc, level, is_nosupport, is_ack, set_value, set_mask, set_flag, new_nosupport, slc_nosupport,
  slc_cantchange, slc_variable, slc_default, slc_ack, nslc,
}
use telnetlib.Slc.Table.{Store, update, initial_store, bsd_slc_tab, generate_slctab}

-- The fields of the writer that the SLC methods use. `next` is the next free reference.
pub record Tabs : Type 0 where
  pub objects : Store
  pub next : ℕ
  pub slctab : Dict ℕ ℕ
  pub default_slc_tab : Dict ℕ ℕ
  pub slc_buffer : Bytes
  pub slc_sent : Bool

-- `self.slctab = slc.generate_slctab(self.default_slc_tab)`; twelve of the thirty functions are
-- not in the default table.
unfoldable pub new_tabs : Tabs
unfolding generate_slctab
new_tabs =
    let (tab, h) = generate_slctab bsd_slc_tab 18 initial_store in
    record {
      objects = h;
      next = 30;
      slctab = tab;
      default_slc_tab = bsd_slc_tab;
      slc_buffer = [];
      slc_sent = false;
    }

-- self.slctab[func], as a reference
entry : ℕ → Exec Tabs ℕ
entry func t = of_option key_error (Dict.get t.slctab func) t

load : ℕ → Exec Tabs Slc
load r = gets (λ t. t.objects r)

-- a method of the object that reference `r` stands for
assign : ℕ → (Slc → Slc) → Exec Tabs (Unit {0})
assign r f = modify (λ t. record t { objects = update t.objects r (f (t.objects r)) })

-- self.slctab[func] = d, for a new object
put_new : ℕ → Slc → Exec Tabs ℕ
put_new func d t = (
  ok t.next,
  record t {
    objects = update t.objects t.next d;
    next = t.next + 1;
    slctab = Dict.put t.slctab func t.next;
  },
)

-- _slc_add, with the definition given
unfoldable pub slc_add : ℕ → Slc → Exec Tabs (Unit {0})
slc_add func d = do
  full ← gets (λ t. leb (nslc * 6) (length t.slc_buffer))
  if full
      then raise value_error
      else modify (λ t. record t { slc_buffer = t.slc_buffer ++ (func ∷ d.mask ∷ d.val ∷ []) })

-- _slc_add, with the definition of the table
slc_add_own : ℕ → Exec Tabs (Unit {0})
unfolding entry load
slc_add_own func = do r ← entry func; d ← load r; slc_add func d

-- One round of the loop of `_slc_send`.
send_entry : Bool → Dict ℕ ℕ → ℕ → Exec Tabs (Unit {0})
send_entry server tab func = if func == 0 && not server then pure tt else elim (Dict.get tab func) [
  | none ↦ pure tt
  | some r ↦ (do d ← gets (λ t. t.objects r); if is_nosupport d then pure tt else slc_add func d)
]

-- Its loop, with the rounds left.
send_from : ℕ → Bool → Dict ℕ ℕ → ℕ → Exec Tabs (Unit {0})
send_from zero server tab func = pure tt
send_from (suc left) server tab func =
    send_entry server tab func >>= λ _. send_from left server tab (func + 1)

-- `slctab or self.slctab`: an empty dict counts as none
or_own : Dict ℕ ℕ → Dict ℕ ℕ → Dict ℕ ℕ
or_own [] own = own
or_own tab own = tab

-- _slc_send
unfoldable pub slc_send : Bool → Dict ℕ ℕ → Exec Tabs (Unit {0})
unfolding send_entry send_from or_own
slc_send server tab = do own ← gets (λ t. t.slctab); send_from (nslc + 1) server (or_own tab own) 0

-- `default_slc = self.default_slc_tab.get(func)` and then `default_slc.mask`
default_mask : ℕ → Exec Tabs ℕ
default_mask func = do
  tab ← gets (λ t. t.default_slc_tab)
  r ← of_option attribute_error (Dict.get tab func)
  gets (λ t. (t.objects r).mask)

-- `self.default_slc_tab.get(func, slc.SLC_nosupport()).val`
default_val : ℕ → Exec Tabs ℕ
default_val func t = elim (Dict.get t.default_slc_tab func) [
  | none ↦ pure new_nosupport.val t
  | some r ↦ pure (t.objects r).val t
]

-- The branch of `_slc_change` for SLC_NOSUPPORT.
change_nosupport : ℕ → Exec Tabs (Unit {0})
change_nosupport func = do put_new func (set_flag slc_ack new_nosupport); slc_add_own func

-- The branch of `_slc_change` for SLC_DEFAULT.
change_default : ℕ → ℕ → ℕ → Exec Tabs (Unit {0})
change_default func r mylevel = do
  (if mylevel == slc_default
      then assign r (set_mask slc_nosupport)
      else do m ← default_mask func; assign r (set_mask m))
  v ← default_val func
  assign r (set_value v)
  slc_add_own func

-- `self.slctab[func]` takes the value and mask of `d`, which is acknowledged.
accept : ℕ → ℕ → Slc → Exec Tabs (Unit {0})
accept func r d = do
  assign r (set_value d.val)
  assign r (set_mask d.mask)
  slc_add func (set_flag slc_ack d)

-- The last branch of `_slc_change`.
refuse : ℕ → ℕ → ℕ → Exec Tabs (Unit {0})
refuse func r mylevel = do
  assign r (λ d. set_mask (level d) d)
  (if mylevel == slc_cantchange then (do v ← default_val func; assign r (set_value v)) else pure tt)
  slc_add_own func

-- _slc_change
unfoldable pub slc_change : ℕ → Slc → Exec Tabs (Unit {0})
unfolding slc_add_own default_mask default_val change_nosupport change_default accept refuse put_new
    assign
slc_change func d = do
  r ← entry func
  own ← load r
  if level d == slc_nosupport
      then change_nosupport func
      else if level d == slc_default
      then change_default func r (level own)
      else if not (own.val == 0)
      then accept func r d
      else if level own == slc_default
      then accept func r d
      else if level d == slc_cantchange && level own == slc_cantchange
      then (do assign r (set_mask slc_nosupport); slc_add_own func)
      else refuse func r (level own)

-- `self.slctab = dict(self.default_slc_tab)`: a new dict of the same objects
reset_slctab : Exec Tabs (Unit {0})
reset_slctab = modify (λ t. record t { slctab = t.default_slc_tab })

-- `self._slc_sent = True`
mark_sent : Exec Tabs (Unit {0})
mark_sent = modify (λ t. record t { slc_sent = true })

-- The special request with function 0.
process_special : Bool → Slc → Exec Tabs (Unit {0})
unfolding slc_send reset_slctab mark_sent
process_special server d =
    if level d == slc_default
    then (do
      reset_slctab
      tab ← gets (λ t. t.default_slc_tab)
      slc_send server tab
      when server mark_sent)
    else if level d == slc_variable
    then slc_send server []
    else pure tt

-- `_slc_process` for a function in range. The dict is read in the arguments of a log call first.
process_known : ℕ → Slc → Exec Tabs (Unit {0})
unfolding entry load slc_change
process_known func d = do
  r ← entry func
  own ← load r
  if level d == level own && own.val == d.val
      then pure tt
      else if level d == level own && is_ack d
      then pure tt
      else if is_ack d
      then pure tt
      else slc_change func d

-- _slc_process
unfoldable pub slc_process : Bool → ℕ → Slc → Exec Tabs (Unit {0})
unfolding process_special process_known
slc_process server func d =
    if ltb nslc func
    then slc_add func new_nosupport
    else if func == 0
    then process_special server d
    else process_known func d

-- The loop of `_handle_sb_linemode_slc` over the triplets of the buffer; the caller has tested
-- that the length is a multiple of three.
unfoldable pub process_triplets : Bool → Bytes → Exec Tabs (Unit {0})
process_triplets server (func ∷ flag ∷ value ∷ rest) =
    slc_process server func (record { mask = flag; val = value }) >>= λ _.
    process_triplets server rest
process_triplets server _ = pure tt
