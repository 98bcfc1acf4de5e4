-- ===== src/Dhcp4/Packet/Fields.antt =====
-- The 'sname' and 'file' fields: what `write_field` puts there, `read_field` gets back, whether the
-- field holds text or options.
use netboot.Prelude.{
  ℕ, zero, suc, ◌-◌, ◌<◌, ◌≡◌, ◌≢◌, refl, Bool, true, false, some, List, [], ◌∷◌, ◌++◌, Bytes,
  length, length-append, length-replicate, replicate, All, if◌then◌else◌, arith,
}
use netboot.Prelude.Assoc.{lookup, has, has_key}
use netboot.Prelude.Result.{ok}
use netboot.Dhcp4.Opt
use netboot.Dhcp4.Options.{Options, OptionsError, value}
use netboot.Dhcp4.Options.WellFormed.{IsWire}
use netboot.Dhcp4.Options.Layout.{insert_all}
use netboot.Dhcp4.Options.RoundTrip.{
  written, kept_keys, left_over, marshal_limited_lem, unmarshal-written, length-written,
}
use netboot.Dhcp4.Options.RoundTrip.Remainder.{
  lookup-kept_left, has-left_over, left_over-IsWire, overload_left,
}
use netboot.Dhcp4.Packet.{PacketError, write_field, read_field, null_str, checked, text_or}

-- A text that a field of `size` bytes can hold and that its reader finds the end of.
pub record IsText (size : ℕ) (s : Bytes) : Type 0 where
  pub shorter : length s < size
  pub no_nul : All (λ b. b ≢ 0) s

pub null_str-pad :
    (s : Bytes) (n : ℕ) → All (λ b. b ≢ 0) s → 0 < n → null_str (s ++ replicate n 0) ≡ some s
unfolding null_str
null_str-pad [] zero h lt = absurd (omega arith)
null_str-pad [] (suc n) h lt = refl
null_str-pad (b ∷ s) n (h, hs) lt = rw (null_str-pad s n hs lt) (ground arith)

-- The bytes of a field, the options in it, and those that go elsewhere.
pub field_bytes : Bool → ℕ → Bytes → Options → Bytes
field_bytes true size text o = written o size true
field_bytes false size text o = text ++ replicate (size - length text) 0

pub field_keys : Bool → ℕ → Options → List ℕ
field_keys true size o = kept_keys o size true
field_keys false size o = []

pub field_left : Bool → ℕ → Options → Options
field_left true size o = left_over o size true
field_left false size o = o

-- An overloaded field has no text; another one has a text that fits.
abbrev pub FieldFits : Bool → ℕ → Bytes → Type 0
FieldFits true size text = text ≡ []
FieldFits false size text = IsText size text

pub write_field_lem :
    (ov : Bool) (size : ℕ) (text : Bytes) (o : Options)
    → IsWire o
    → write_field ov size text o ≡ ok (field_bytes ov size text o, field_left ov size o)
unfolding write_field field_bytes field_left
write_field_lem true size text o w = rw (marshal_limited_lem o size true w)
write_field_lem false size text o w = refl

pub length-field_bytes :
    (ov : Bool) (size : ℕ) (text : Bytes) (o : Options)
    → 0 < size
    → FieldFits ov size text
    → length (field_bytes ov size text o) ≡ size
unfolding field_bytes
length-field_bytes true size text o h f = length-written o size true h
length-field_bytes false size text o h f = omega (
  arith,
  f.shorter,
  length-append text (replicate (size - length text) 0),
  length-replicate {A = ℕ} (size - length text) 0,
)

pub read_field_lem :
    (ov : Bool) (size : ℕ) (text : Bytes) (o acc : Options) (bad : OptionsError → PacketError)
    (unterminated : PacketError)
    → IsWire o
    → FieldFits ov size text
    → All (λ k. has k acc ≡ false) (field_keys ov size o)
    → read_field ov bad unterminated (field_bytes ov size text o) acc
      ≡ ok (text, insert_all o (field_keys ov size o) acc)
unfolding read_field field_bytes field_keys checked text_or
read_field_lem true size text o acc bad un w f new = rw (unmarshal-written o size true acc w new, f)
read_field_lem false size text o acc bad un w f new =
    rw (null_str-pad text (size - length text) f.no_nul (omega (arith, f.shorter)))
      (unfold insert_all in refl)

pub field_split :
    (ov : Bool) (size : ℕ) (o : Options) (j : ℕ)
    → lookup j o ≡ (
        if has_key j (field_keys ov size o)
        then some (value o j)
        else lookup j (field_left ov size o))
unfolding field_keys field_left
field_split true size o j = lookup-kept_left o size true j
field_split false size o j = unfold has_key in refl

pub field_apart :
    (ov : Bool) (size : ℕ) (o : Options) (j : ℕ)
    → IsWire o
    → has_key j (field_keys ov size o) ≡ true
    → has j (field_left ov size o) ≡ false
unfolding field_keys field_left
field_apart true size o j w h = has-left_over o size true j w h
field_apart false size o j w h = unfold has_key in cc

pub field_left-IsWire :
    (ov : Bool) (size : ℕ) (o : Options) → IsWire o → IsWire (field_left ov size o)
unfolding field_left
field_left-IsWire true size o w = left_over-IsWire o size true w
field_left-IsWire false size o w = w

-- Option 52 never goes into a field.
pub field_overload :
    (ov : Bool) (size : ℕ) (o : Options)
    → 0 < size
    → has_key Opt.overload (field_keys ov size o) ≡ false
unfolding field_keys
field_overload true size o h = overload_left o size h
field_overload false size o h = unfold has_key in refl

-- A text field takes no options.
pub field_left-text : (size : ℕ) (o : Options) → field_left false size o ≡ o
unfolding field_left
field_left-text size o = refl
