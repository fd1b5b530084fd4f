-- ===== src/Parser/Flags/Laws.antt =====
-- odp_packet_flags.c: what the calls give, one after another.
use odp.Prelude.{
  ℕ, ◌+◌, ◌%◌, ◌≤◌, ◌≡◌, ap, ◌∙◌, Bool, false, some, ◌==◌, if◌then◌else◌, u32_mod, inl, inr,
  Bool-cases,
}
use odp.Parser.{Header}
use odp.Parser.Frame.{parse}
use odp.Parser.Walk.{AreBytes, parse_total}
use odp.Parser.Flags.{parsed, read, write, ret_flag, set_flag}
use odp.Parser.Flags.Kinds.{
  Flag, same, has, has_set, flag_of, with_flag, has-flag_of, has_set-with_flag, flag_of-with_flag,
  unparsed-with_flag,
}

parsed_total :
    (mem : ℕ → ℕ) (base : ℕ) (h : Header)
    → AreBytes mem
    → h.frame_len + 2048 ≤ u32_mod
    → (h' : Header) × (parsed mem base h ≡ some h') × (h'.input.unparsed ≡ false)
unfolding parsed
parsed_total mem base h bytes small = elim (Bool-cases h.input.unparsed) [
  | inl u ↦
      let (h', e, k) = parse_total mem base h bytes small in
      (h', ap (λ b. if b then parse mem base h else some h) u ∙ e, k)
  | inr u ↦ (h, ap (λ b. if b then parse mem base h else some h) u, u)
]

parsed_already :
    (mem : ℕ → ℕ) (base : ℕ) (h : Header) → h.input.unparsed ≡ false → parsed mem base h ≡ some h
unfolding parsed
parsed_already mem base h u = ap (λ b. if b then parse mem base h else some h) u

has-parsed :
    (f : Flag) (mem : ℕ → ℕ) (base : ℕ) (h h' : Header)
    → parsed mem base h ≡ some h'
    → has f mem base h ≡ some (flag_of f h'.input, h')
unfolding ret_flag
has-parsed f mem base h h' e =
    ap (λ call. call mem base h) (has-flag_of f) ∙ ap (read (λ h. flag_of f h.input)) e

has_set-parsed :
    (g : Flag) (val : ℕ) (mem : ℕ → ℕ) (base : ℕ) (h h' : Header)
    → parsed mem base h ≡ some h'
    → has_set g val mem base h ≡ some (record h' { input = with_flag g (val % 2 == 1) h'.input })
unfolding set_flag
has_set-parsed g val mem base h h' e =
    ap (λ call. call val mem base h) (has_set-with_flag g) ∙ ap (write (with_flag g) val) e

-- If memory holds bytes and the frame is at least 2048 bytes below the 32-bit limit, a call that
-- reads a flag ends, and a second one reads the same from the same header, which is not parsed
-- again. After a call that sets a flag, the call that reads the same flag gives the lowest bit
-- of the value, and any other reads what it read before.
pub has-has_set :
    (f g : Flag) (val : ℕ) (mem : ℕ → ℕ) (base : ℕ) (h : Header)
    → AreBytes mem
    → h.frame_len + 2048 ≤ u32_mod
    → (b : Bool) × (h' h'' : Header) × (has f mem base h ≡ some (b, h'))
      × (has f mem base h' ≡ some (b, h'))
      × (has_set g val mem base h ≡ some h'')
      × (has f mem base h'' ≡ some (if same f g then val % 2 == 1 else b, h''))
has-has_set f g val mem base h bytes small =
    let (h', e, u) = parsed_total mem base h bytes small in
    let h'' = record h' { input = with_flag g (val % 2 == 1) h'.input } in
    let u'' = unparsed-with_flag g (val % 2 == 1) h'.input ∙ u in
    (
      flag_of f h'.input,
      h',
      h'',
      has-parsed f mem base h h' e,
      has-parsed f mem base h' h' (parsed_already mem base h' u),
      has_set-parsed g val mem base h h' e,
      has-parsed f mem base h'' h'' (parsed_already mem base h'' u'')
          ∙ ap (λ b. some (b, h'')) (flag_of-with_flag f g (val % 2 == 1) h'.input),
    )
