-- ===== src/Dhcp4/Options/WellFormed.antt =====
-- Option maps that fit the wire format, and what `unmarshal` returns on any input.
use netboot.Prelude.{
  ℕ, zero, suc, ◌≤◌, ◌<◌, ◌≡◌, ◌≢◌, refl, true, false, Option, some, [], ◌∷◌, Bytes, length, take,
  drop, length-take, length-drop, All, ltb, ◌==◌, if_ind, arith,
}
use netboot.Prelude.Assoc.{lookup, insert, keys, has_key}
use netboot.Prelude.Sort.{Distinct, Distinct-insert}
use netboot.Prelude.Result.{ok}
use netboot.Dhcp4.Options.{
  Options, OptionsError, out_of_fuel, unmarshal_loop, unmarshal, check_numbers, value, is_duplicate,
}

-- An entry with a code from 1 to 254 and at most 255 bytes.
abbrev pub EntryFits : ℕ × Bytes → Type 0
EntryFits (n, v) = (1 ≤ n) × (n < 255) × (length v ≤ 255)

-- A map that can be put on the wire, with each key once.
pub record IsWire (o : Options) : Type 0 where
  pub entries : All EntryFits o
  pub distinct : Distinct (keys o)

pub IsWire-empty : IsWire []
unfolding keys
IsWire-empty = record { entries = tt; distinct = tt }

EntryFits-insert :
    (n : ℕ) (v : Bytes) (o : Options)
    → EntryFits (n, v)
    → All EntryFits o
    → All EntryFits (insert n v o)
unfolding insert
EntryFits-insert n v [] h hs = (h, tt)
EntryFits-insert n v ((j, w) ∷ o) h (k, ks) = ground (arith, EntryFits-insert n v o h ks)

pub IsWire-insert :
    (n : ℕ) (v : Bytes) (o : Options) → EntryFits (n, v) → IsWire o → IsWire (insert n v o)
IsWire-insert n v o h w = record {
  entries = EntryFits-insert n v o h w.entries;
  distinct = Distinct-insert n v o w.distinct;
}

abbrev pub IsByte : ℕ → Type 0
IsByte b = b < 256

IsByte-drop : (n : ℕ) (bs : Bytes) → All IsByte bs → All IsByte (drop n bs)
IsByte-drop zero bs h = h
IsByte-drop (suc n) [] h = tt
IsByte-drop (suc n) (b ∷ bs) (h, hs) = IsByte-drop n bs hs

payload_fits :
    (opt l : ℕ) (body : Bytes)
    → IsByte opt
    → IsByte l
    → (opt == 0) ≡ false
    → (opt == 255) ≡ false
    → EntryFits (opt, take l body)
payload_fits opt l body hopt hl z e =
    (ground arith, ground arith, omega (arith, length-take l body))

unmarshal_loop-IsWire :
    (fuel : ℕ) (bs : Bytes) (o : Options)
    → All IsByte bs
    → IsWire o
    → IsWire (unmarshal_loop fuel bs o).0
unfolding unmarshal_loop
unmarshal_loop-IsWire fuel [] o h w = w
unmarshal_loop-IsWire zero (opt ∷ bs) o h w = w
unmarshal_loop-IsWire (suc fuel) (opt ∷ []) o h w =
    if_ind Keeps (opt == 0) _ _ (λ _. unmarshal_loop-IsWire fuel [] o tt w)
      λ _.
        if_ind Keeps (opt == 255) _ _ (λ _. w)
          λ _. if_ind Keeps (is_duplicate o opt) _ _ (λ _. w) (λ _. w)
  where
    Keeps : Options × Option OptionsError → Type 0
    Keeps r = IsWire r.0
unmarshal_loop-IsWire (suc fuel) (opt ∷ l ∷ body) o (hopt, (hl, hbody)) w =
    if_ind Keeps (opt == 0) _ _ (λ _. unmarshal_loop-IsWire fuel (l ∷ body) o (hl, hbody) w)
      λ z.
        if_ind Keeps (opt == 255) _ _ (λ _. w)
          λ e.
            if_ind Keeps (is_duplicate o opt) _ _ (λ _. w)
              λ _.
                if_ind Keeps (ltb (length body) l) _ _ (λ _. w)
                  λ _.
                    unmarshal_loop-IsWire fuel (drop l body) (insert opt (take l body) o)
                      (IsByte-drop l body hbody)
                      (IsWire-insert opt (take l body) o (payload_fits opt l body hopt hl z e) w)
  where
    Keeps : Options × Option OptionsError → Type 0
    Keeps r = IsWire r.0

-- On bytes, `unmarshal` keeps the map fit for the wire, whatever the input and also on an error.
pub unmarshal-IsWire :
    (bs : Bytes) (o : Options) → All IsByte bs → IsWire o → IsWire (unmarshal bs o).0
unfolding unmarshal
unmarshal-IsWire bs o h w = unmarshal_loop-IsWire (length bs) bs o h w

unmarshal_loop-ne-out_of_fuel :
    (fuel : ℕ) (bs : Bytes) (o : Options)
    → length bs ≤ fuel
    → (unmarshal_loop fuel bs o).1 ≢ some out_of_fuel
unfolding unmarshal_loop
unmarshal_loop-ne-out_of_fuel fuel [] o h = λ e. cc
unmarshal_loop-ne-out_of_fuel zero (opt ∷ bs) o h = absurd (omega arith)
unmarshal_loop-ne-out_of_fuel (suc fuel) (opt ∷ []) o h = λ e. ground arith
unmarshal_loop-ne-out_of_fuel (suc fuel) (opt ∷ l ∷ body) o h = λ e. ground (
  arith,
  length-drop l body,
  unmarshal_loop-ne-out_of_fuel fuel (l ∷ body) o,
  unmarshal_loop-ne-out_of_fuel fuel (drop l body) (insert opt (take l body) o),
)

-- The loop of `unmarshal` ends on every input.
pub unmarshal-ne-out_of_fuel : (bs : Bytes) (o : Options) → (unmarshal bs o).1 ≢ some out_of_fuel
unfolding unmarshal
unmarshal-ne-out_of_fuel bs o = unmarshal_loop-ne-out_of_fuel (length bs) bs o (omega arith)

check_numbers_fits : (o : Options) → All EntryFits o → check_numbers (keys o) ≡ ok tt
unfolding check_numbers keys
check_numbers_fits [] h = refl
check_numbers_fits ((n, v) ∷ o) (h, hs) = ground (arith, check_numbers_fits o hs)

-- The code check of `marshal_limited` passes on a map fit for the wire.
pub check_numbers-keys : (o : Options) → IsWire o → check_numbers (keys o) ≡ ok tt
check_numbers-keys o w = check_numbers_fits o w.entries

value_fits : (o : Options) (n : ℕ) → All EntryFits o → length (value o n) ≤ 255
unfolding value lookup
value_fits [] n h = omega arith
value_fits ((j, v) ∷ o) n (h, hs) = ground (arith, value_fits o n hs)

pub length-value : (o : Options) (n : ℕ) → IsWire o → length (value o n) ≤ 255
length-value o n w = value_fits o n w.entries

has_key_fits :
    (o : Options) (n : ℕ) → All EntryFits o → has_key n (keys o) ≡ true → (1 ≤ n) × (n < 255)
unfolding has_key keys
has_key_fits [] n h e = absurd (cc)
has_key_fits ((j, v) ∷ o) n (h, hs) e = ground (arith, has_key_fits o n hs)

pub has_key_range :
    (o : Options) (n : ℕ) → IsWire o → has_key n (keys o) ≡ true → (1 ≤ n) × (n < 255)
has_key_range o n w e = has_key_fits o n w.entries e
