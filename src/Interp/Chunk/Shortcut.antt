-- ===== src/Interp/Chunk/Shortcut.antt =====
-- The shortcut of `_process_data_chunk` loses nothing.
use telnetlib.Prelude.{
  ℕ, true, false, ◌&&◌, not, [], ◌∷◌, Option, none, nat_eq, Bytes, elem, ◌≡◌, ◌≢◌, refl, arith,
  Bool-cases, inl, inr, ap, ◌∙◌, sym,
}
use telnetlib.Telopt.{cmd_iac}
use telnetlib.Exec.{ok, ◌>>=◌}
use telnetlib.Dict.{Dict}
use telnetlib.Slc.Table.{Store, snoop}
use telnetlib.Session.{Session, call}
use telnetlib.Interp.{
  Interp, Methods, keep_cmd, is_oob, on_session, snoop_byte, second_byte, sb_end, third_byte,
  command_byte, other_byte, iac_byte, feed_byte, feed_all,
}
use telnetlib.Interp.Chunk.{slc_vals, server_special, is_special, process_data_chunk}

-- No byte that is not special is a special line character, and MCCP2 has not begun.
pub record Plain (special : Option Bytes) (s : Session) : Type 0 where
  pub no_function :
      (b : ℕ)
      → is_special special b ≡ false
      → (snoop {C = ℕ} b s.tabs.slctab s.tabs.objects []).1 ≡ none
  pub not_begun : s.mccp2_activated ≡ false

-- The same but for the count of bytes and the function that was snooped last.
pub record Same (i j : Interp) : Type 0 where
  pub same_iac : i.iac_received ≡ j.iac_received
  pub same_cmd : i.cmd_received ≡ j.cmd_received
  pub same_buffer : i.sb_buffer ≡ j.sb_buffer
  pub same_session : i.session ≡ j.session

Same-back : (i j k : Interp) → Same k j → Same i j → Same i k
Same-back i j k kj ij = record {
  same_iac = ij.same_iac ∙ sym kj.same_iac;
  same_cmd = ij.same_cmd ∙ sym kj.same_cmd;
  same_buffer = ij.same_buffer ∙ sym kj.same_buffer;
  same_session = ij.same_session ∙ sym kj.same_session;
}

module _ (m : Methods) where
  feed_byte-Same :
      (b : ℕ) (i j : Interp)
      → Same i j
      → ((feed_byte m b i).0 ≡ (feed_byte m b j).0) × Same (feed_byte m b i).1 (feed_byte m b j).1
  unfolding feed_byte iac_byte other_byte second_byte snoop_byte command_byte sb_end third_byte
      on_session call is_oob ◌>>=◌
  feed_byte-Same b i j h = ground (arith, h.same_iac, h.same_cmd, h.same_buffer, h.same_session)

snoop-slc_vals :
    (b : ℕ) (tab : Dict ℕ ℕ) (h : Store)
    → elem b (slc_vals tab h) ≡ false
    → (snoop {C = ℕ} b tab h []).1 ≡ none
unfolding slc_vals snoop elem
snoop-slc_vals b [] h free = refl
snoop-slc_vals b ((func, r) ∷ tab) h free = ground (arith, snoop-slc_vals b tab h)

-- The server's special bytes are all that its table has.
pub server_special-Plain :
    (s : Session) → s.slc_simulated ≡ true → s.mccp2_activated ≡ false → Plain (server_special s) s
unfolding server_special is_special elem
server_special-Plain s simulated begun = record {
  no_function = λ b free. snoop-slc_vals b s.tabs.slctab s.tabs.objects (ground arith);
  not_begun = begun;
}

pub Plain-same :
    (special : Option Bytes) (s t : Session)
    → s.tabs ≡ t.tabs
    → s.mccp2_activated ≡ t.mccp2_activated
    → Plain special t
    → Plain special s
Plain-same special s t tabs begun h = record {
  no_function = rw tabs h.no_function;
  not_begun = rw begun h.not_begun;
}

module _ (special : Option Bytes) (m : Methods) where
  -- As the parser reads on, the special line characters stay special, and MCCP2 does not begin.
  abbrev pub StaysPlain : Bytes → Interp → Type 0
  StaysPlain [] j = Plain special j.session
  StaysPlain (b ∷ bs) j = Plain special j.session × StaysPlain bs (feed_byte m b j).1

  StaysPlain-Plain : (bytes : Bytes) (j : Interp) → StaysPlain bytes j → Plain special j.session
  StaysPlain-Plain [] j h = h
  StaysPlain-Plain (b ∷ bs) j h = h.0

  -- a byte of the shortcut
  feed_byte-skipped :
      (b : ℕ) (i : Interp)
      → Plain special i.session
      → is_oob i ≡ false
      → b ≢ cmd_iac
      → is_special special b ≡ false
      → ((feed_byte m b i).0 ≡ ok true) × Same (feed_byte m b i).1 i
  unfolding feed_byte other_byte snoop_byte on_session call is_oob keep_cmd ◌>>=◌
  feed_byte-skipped b i h idle ne free = ground (arith, h.no_function b free)

  skip_facts :
      (i j : Interp) (b : ℕ)
      → is_special special cmd_iac ≡ true
      → Same i j
      → not (is_oob i) && not (is_special special b) ≡ true
      → (is_oob j ≡ false) × (b ≢ cmd_iac)
  unfolding is_oob
  skip_facts i j b iac same skip =
      (ground (arith, same.same_iac, same.same_cmd), λ e. ground (arith, ap (is_special special) e))

  -- Where IAC is special, and in every state that the parser comes to, fed with the bytes one by one,
  -- no byte that is not special stands for a special line character of the table and MCCP2 has not
  -- begun: the reader gets the bytes that it would get if every byte were fed to the parser, nothing
  -- is left over, and the writer ends in the same state, but for its count of bytes and the function
  -- that was snooped last.
  pub process_data_chunk-feed_all :
      (bytes : Bytes) (i j : Interp)
      → is_special special cmd_iac ≡ true
      → Same i j
      → StaysPlain bytes j
      → ((process_data_chunk m special bytes i).reader ≡ (feed_all m bytes j).0)
        × ((process_data_chunk m special bytes i).remainder ≡ none)
        × Same (process_data_chunk m special bytes i).interp (feed_all m bytes j).1
  unfolding process_data_chunk feed_all
  process_data_chunk-feed_all [] i j iac same h = (refl, refl, same)
  process_data_chunk-feed_all (b ∷ bs) i j iac same (now, later) =
      elim (Bool-cases (not (is_oob i) && not (is_special special b))) [
        | inl skip ↦
            let (quiet_iac, quiet_cmd) = skip_facts i j b iac same skip in
            let (passed, kept) = feed_byte-skipped b j now quiet_iac quiet_cmd (ground arith) in
            let rest =
              process_data_chunk-feed_all bs i (feed_byte m b j).1 iac (Same-back i j _ kept same)
                later in
            rw (process_data_chunk, skip) (ground (arith, passed, rest.0), rest.1, rest.2)
        | inr feed ↦
            let (passed, kept) = feed_byte-Same m b i j same in
            let begun =
              ap (λ s. s.mccp2_activated) kept.same_session
              ∙ (StaysPlain-Plain bs (feed_byte m b j).1 later).not_begun in
            let rest =
              process_data_chunk-feed_all bs (feed_byte m b i).1 (feed_byte m b j).1 iac kept
                later in
            rw (process_data_chunk, feed, begun) (ground (arith, passed, rest.0), rest.1, rest.2)
      ]
