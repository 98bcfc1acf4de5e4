-- ===== src/Dhcp6/Options/Parse.antt =====
-- `unmarshal_options` of dhcp6/options.go on sequences of complete options: it sees nothing of the
-- bytes behind the packet.
use netboot.Prelude.{
  ℕ, zero, suc, ◌+◌, ◌-◌, ◌*◌, ◌/◌, ◌%◌, ◌≤◌, ◌<◌, ◌≡◌, refl, ◌∙◌, ap, false, List, [], ◌∷◌, ◌++◌,
  append_assoc, map, Bytes, length, length-append, drop-drop, length-take, take-length-append,
  drop-length-append, ◌==◌, Bool-cases, ==_iff, inl, inr, All, le→ltb_false, arith,
}
use netboot.Dhcp6.Slice.{returned, Slice, len, backing, cut, from, big_endian16, sub_within}
use netboot.Dhcp6.Options.{
  DhcpOption, Options, OptionsError, opt_oro, end_of, check_length, unmarshal_option, add,
  unmarshal_loop, unmarshal_options,
}

-- An option as it stands on the wire: its code and its payload.
abbrev pub View : Type 0
View = ℕ × Bytes

abbrev pub view : DhcpOption → View
view o = (o.id, o.value.visible)

abbrev pub encode : View → Bytes
encode (id, v) = (id / 256) ∷ (id % 256) ∷ (length v / 256) ∷ (length v % 256) ∷ v

abbrev pub encode_all : List View → Bytes
encode_all [] = []
encode_all (v ∷ vs) = encode v ++ encode_all vs

-- A payload that the length field can count; of even length in an Option Request.
abbrev pub ViewFits : View → Type 0
ViewFits (id, v) = (length v < 65532) × ((id ≡ opt_oro) → length v % 2 ≡ 0)

pub add_all : List DhcpOption → Options → Options
add_all [] m = m
add_all (o ∷ os) m = add_all os (add o m)

end_of_lem : (n : ℕ) → n < 65532 → end_of n ≡ 4 + n
end_of_lem n h = omega arith

halves : (n : ℕ) → n / 256 * 256 + n % 256 ≡ n
halves n = omega arith

module _ (id : ℕ) (v rest spare : Bytes) (fits : ViewFits (id, v)) where
  abbrev here : Slice
  here = record { visible = encode (id, v) ++ rest; spare = spare }

  abbrev read : DhcpOption
  read = record {
    id = id;
    length = length v;
    value = record { visible = v; spare = rest ++ spare };
  }

  long_enough : 4 + length v ≤ length (backing here)
  long_enough = omega (arith, length-append v rest, length-append (v ++ rest) spare)

  payload_cut : cut here 4 (4 + length v) ≡ read.value
  payload_cut =
      let width : 4 + length v - 4 ≡ length v = omega arith in
      rw (
        width,
        drop-drop 4 (length v) (backing here),
        append_assoc v rest spare,
        take-length-append v (rest ++ spare),
        drop-length-append v (rest ++ spare),
      )

  from_ok :
      (k : ℕ) → k ≤ len here → from {E = OptionsError} here k ≡ returned (cut here k (len here))
  unfolding from
  from_ok k h =
      sub_within here k (len here) h (omega (arith, length-append (encode (id, v) ++ rest) spare))

  payload_len : length v ≤ len (cut here 4 (len here))
  payload_len = omega (
    arith,
    length-append v rest,
    length-append (v ++ rest) spare,
    length-take (len here - 4) ((v ++ rest) ++ spare),
  )

  check_length_ok : check_length here id (length v) ≡ returned tt
  unfolding check_length
  check_length_ok = elim (Bool-cases (id == opt_oro)) [
    | inl e ↦ rw (e, fits.1 ((==_iff id opt_oro).0 e))
    | inr e ↦ rw (
      e,
      from_ok 4 (omega arith),
      le→ltb_false (len (cut here 4 (len here))) (length v) payload_len,
    )
  ]

  rest_cut : cut here (4 + length v) (len here) ≡ record { visible = rest; spare = spare }
  rest_cut =
      let width : len here - (4 + length v) ≡ length rest = omega (arith, length-append v rest) in
      rw (
        width,
        drop-length-append (v ++ rest) spare,
        drop-drop 4 (length v) (backing here),
        append_assoc v rest spare,
        drop-length-append v (rest ++ spare),
        take-length-append rest spare,
      )

  unmarshal_option_ok : unmarshal_option here ≡ returned read
  unfolding unmarshal_option big_endian16
  unmarshal_option_ok = rw (
    sub_within {E = OptionsError} here 2 4 (omega arith) (omega arith),
    sub_within {E = OptionsError} here 0 2 (omega arith) (omega arith),
    halves (length v),
    halves id,
    check_length_ok,
    end_of_lem (length v) fits.0,
    sub_within {E = OptionsError} here 4 (4 + length v) (omega arith) long_enough,
    payload_cut,
  )

  not_empty : (len here == 0) ≡ false
  not_empty = ground arith

  -- One round of the loop on a complete option.
  round :
      (fuel : ℕ) (m : Options)
      → unmarshal_loop (suc fuel) here m
        ≡ unmarshal_loop fuel (record { visible = rest; spare = spare }) (add read m)
  unfolding unmarshal_loop
  round fuel m = rw (
    not_empty,
    unmarshal_option_ok,
    end_of_lem (length v) fits.0,
    sub_within {E = OptionsError} here 4 (4 + length v) (omega arith) long_enough,
    payload_cut,
    from_ok (4 + length v) (omega (arith, length-append v rest)),
    rest_cut,
  )

loop_done :
    (fuel : ℕ) (spare : Bytes) (m : Options)
    → unmarshal_loop fuel (record { visible = []; spare = spare }) m ≡ returned m
unfolding unmarshal_loop
loop_done zero spare m = refl
loop_done (suc fuel) spare m = refl

-- A sequence of complete options is read, in order and whatever lies behind it, to options with
-- these codes and payloads.
unmarshal_loop-encode_all :
    (vs : List View) (fuel : ℕ) (spare : Bytes) (m : Options)
    → All ViewFits vs
    → length vs ≤ fuel
    → (os : List DhcpOption) × (map view os ≡ vs)
      × (unmarshal_loop fuel (record { visible = encode_all vs; spare = spare }) m
          ≡ returned (add_all os m))
unfolding add_all
unmarshal_loop-encode_all [] zero spare m h hf = ([], refl, loop_done zero spare m)
unmarshal_loop-encode_all [] (suc fuel) spare m h hf = ([], refl, loop_done (suc fuel) spare m)
unmarshal_loop-encode_all (v ∷ vs) zero spare m h hf = absurd (omega arith)
unmarshal_loop-encode_all ((id, v) ∷ vs) (suc fuel) spare m (h, hs) hf =
    let o = read id v (encode_all vs) spare h in
    let (os, e, run) = unmarshal_loop-encode_all vs fuel spare (add o m) hs (omega arith) in
    (o ∷ os, ap (λ t. (id, v) ∷ t) e, round id v (encode_all vs) spare h fuel m ∙ run)

length-encode_all : (vs : List View) → length vs ≤ length (encode_all vs)
length-encode_all [] = omega arith
length-encode_all ((id, v) ∷ vs) =
    omega (arith, length-append v (encode_all vs), length-encode_all vs)

-- On the wire form of options that fit, `unmarshal_options` returns those options, code for code and
-- payload for payload, added to the map in order; the bytes behind the packet do not matter.
pub unmarshal_options-encode_all :
    (vs : List View) (spare : Bytes)
    → All ViewFits vs
    → (os : List DhcpOption) × (map view os ≡ vs)
      × (unmarshal_options (record { visible = encode_all vs; spare = spare })
          ≡ returned (add_all os []))
unfolding unmarshal_options
unmarshal_options-encode_all vs spare h =
    unmarshal_loop-encode_all vs (length (encode_all vs)) spare [] h (length-encode_all vs)
