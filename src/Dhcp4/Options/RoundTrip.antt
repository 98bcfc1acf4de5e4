-- ===== src/Dhcp4/Options/RoundTrip.antt =====
-- `marshal`, `marshal_limited` and `unmarshal` on maps fit for the wire.
pub mod Order
pub mod Remainder
use netboot.Prelude.{
  ℕ, zero, suc, ◌+◌, ◌-◌, ◌≤◌, ◌<◌, ◌≡◌, refl, sym, ap, ◌∙◌, Bool, true, false, ◌&&◌, ◌||◌, Option,
  none, some, List, [], ◌∷◌, ◌++◌, Bytes, length, length-append, length-replicate, replicate, All,
  ltb, first_some, first_some-none, Bool-cases, ==_iff, ◌==◌, if◌then◌else◌, arith, ◌⊎◌, inl, inr,
}
use netboot.Prelude.Assoc.{lookup, insert, keys, has, has_key}
use netboot.Prelude.Sort.{sort, has_key-sort, Ascending-sort, Ascending-unique}
use netboot.Prelude.Result.{Result, ok, err, ◌>>=◌, ◌>>◌, reject}
use netboot.Dhcp4.Options.{
  Options, value, write_options, marshal_limited, marshal, unmarshal, unmarshal_loop,
}
use netboot.Dhcp4.Opt
use netboot.Dhcp4.Options.WellFormed.{IsWire, IsWire-insert, IsWire-empty, check_numbers-keys}
use netboot.Dhcp4.Options.Layout.{
  puts_off, kept, skipped, room, encode, end_marker, insert_all, Fits, write_options_lem,
  unmarshal_loop-encode,
}
use netboot.Dhcp4.Options.Split.{
  lookup-insert_all, has_key_split, kept-skipped_apart, Distinct-kept, All-kept, All-skipped,
  room_lem, no_limit, Fits-sort, Distinct-sort, has_key-sort-keys,
}

-- What `marshal_limited` writes, and what it leaves.
pub written : Options → ℕ → Bool → Bytes
written o n skip52 =
    encode o (kept o skip52 (sort (keys o)) n) ++ end_marker (room o skip52 (sort (keys o)) n)

pub kept_keys : Options → ℕ → Bool → List ℕ
kept_keys o n skip52 = kept o skip52 (sort (keys o)) n

pub left_over : Options → ℕ → Bool → Options
left_over o n skip52 = insert_all o (skipped o skip52 (sort (keys o)) n) []

pub marshal_limited_lem :
    (o : Options) (n : ℕ) (skip52 : Bool)
    → IsWire o
    → marshal_limited o n skip52 ≡ ok (written o n skip52, left_over o n skip52)
unfolding marshal_limited written left_over
marshal_limited_lem o n skip52 w =
    rw (check_numbers-keys o w) (write_options_lem o skip52 (sort (keys o)) n [] (Fits-sort o w))

-- Read into a map with none of its keys, what was written adds the kept options.
pub unmarshal-written :
    (o : Options) (n : ℕ) (skip52 : Bool) (acc : Options)
    → IsWire o
    → All (λ k. has k acc ≡ false) (kept_keys o n skip52)
    → unmarshal (written o n skip52) acc ≡ (insert_all o (kept_keys o n skip52) acc, none)
unfolding unmarshal written kept_keys end_marker
unmarshal-written o n skip52 acc w new =
    let ks = kept o skip52 (sort (keys o)) n in
    let pad = replicate (room o skip52 (sort (keys o)) n - 1) 0 in
    unmarshal_loop-encode o ks _ pad acc
      (All-kept o skip52 (Fits o) (sort (keys o)) n (Fits-sort o w))
      (Distinct-kept o skip52 (sort (keys o)) n (Distinct-sort o w)) new
      (omega (arith, length-append (encode o ks) (255 ∷ pad)))

pub length-written : (o : Options) (n : ℕ) (skip52 : Bool) → 0 < n → length (written o n skip52) ≡ n
unfolding written end_marker
length-written o n skip52 h =
    let r = room o skip52 (sort (keys o)) n in
    omega (
      arith,
      room_lem o skip52 (sort (keys o)) n h,
      length-append (encode o (kept o skip52 (sort (keys o)) n)) (255 ∷ replicate (r - 1) 0),
      length-replicate {A = ℕ} (r - 1) 0,
    )

has-lookup : (j : ℕ) (o : Options) → has j o ≡ false → lookup j o ≡ none
unfolding has
has-lookup j o h = ground arith

lookup-value : (j : ℕ) (o : Options) → has j o ≡ true → lookup j o ≡ some (value o j)
unfolding has value
lookup-value j o h = ground arith

-- Where the lookups of the kept and of the left options lie.
pub lookup_split :
    (o : Options) (n : ℕ) (skip52 : Bool) (j : ℕ)
    → lookup j o
      ≡ first_some
          (lookup j (insert_all o (kept_keys o n skip52) []))
          (lookup j (left_over o n skip52))
unfolding kept_keys left_over lookup
lookup_split o n skip52 j =
    let ks = sort (keys o) in
    rw
      (
        lookup-insert_all o (kept o skip52 ks n) [] j,
        lookup-insert_all o (skipped o skip52 ks n) [] j,
      )
      (ground (
        arith,
        has_key_split o skip52 ks n j,
        has_key-sort-keys o j,
        has-lookup j o,
        lookup-value j o,
      ))

pub lookup_apart :
    (o : Options) (n : ℕ) (skip52 : Bool) (j : ℕ)
    → IsWire o
    → (lookup j (insert_all o (kept_keys o n skip52) []) ≡ none)
      ⊎ (lookup j (left_over o n skip52) ≡ none)
unfolding kept_keys left_over lookup
lookup_apart o n skip52 j w =
    let ks = sort (keys o) in
    rw
      (
        lookup-insert_all o (kept o skip52 ks n) [] j,
        lookup-insert_all o (skipped o skip52 ks n) [] j,
      )
      (ground (arith, kept-skipped_apart o skip52 ks n j (Distinct-sort o w)))

pub none_present : (ks : List ℕ) → All (λ k. has {V = Bytes} k [] ≡ false) ks
none_present [] = tt
none_present (k ∷ ks) = (unfold has lookup in refl, none_present ks)

-- On a map that fits the wire, `marshal_limited` succeeds. What it writes parses back, with no
-- error, to a map that together with the options left over is the whole map: each option is in
-- exactly one of the two, with its value. Under a limit exactly that many bytes are written.
pub marshal_limited_partition :
    (o : Options) (n : ℕ) (skip52 : Bool)
    → IsWire o
    → (out : Bytes) × (left : Options) × (back : Options) × (marshal_limited o n skip52
        ≡ ok (out, left))
      × (unmarshal out [] ≡ (back, none))
      × ((j : ℕ) → lookup j o ≡ first_some (lookup j back) (lookup j left))
      × ((j : ℕ) → (lookup j back ≡ none) ⊎ (lookup j left ≡ none))
      × ((n ≡ 0) ⊎ (length out ≡ n))
marshal_limited_partition o n skip52 w = (
  written o n skip52,
  left_over o n skip52,
  insert_all o (kept_keys o n skip52) [],
  marshal_limited_lem o n skip52 w,
  unmarshal-written o n skip52 [] w (none_present (kept_keys o n skip52)),
  lookup_split o n skip52,
  λ j. lookup_apart o n skip52 j w,
  size n (length-written o n skip52),
)
  where
    size :
        (k : ℕ)
        → (0 < k → length (written o n skip52) ≡ k)
        → (k ≡ 0) ⊎ (length (written o n skip52) ≡ k)
    size zero h = inl refl
    size (suc k) h = inr (h (omega arith))

pub no_limit_left : (o : Options) (skip52 : Bool) → left_over o 0 skip52 ≡ []
unfolding left_over
no_limit_left o skip52 = rw ((no_limit o skip52 (sort (keys o))).1) (unfold insert_all in refl)

marshal_lem : (o : Options) → IsWire o → marshal o ≡ ok (written o 0 false)
unfolding marshal
marshal_lem o w = rw (marshal_limited_lem o 0 false w, no_limit_left o false)

-- Without a limit nothing is left over: `marshal` never answers that options were not written.
-- The wire form parses back to the same options.
pub unmarshal-marshal :
    (o : Options)
    → IsWire o
    → (out : Bytes) × (back : Options) × (marshal o ≡ ok out)
      × (unmarshal out [] ≡ (back, none))
      × ((j : ℕ) → lookup j back ≡ lookup j o)
unmarshal-marshal o w = (
  written o 0 false,
  insert_all o (kept_keys o 0 false) [],
  marshal_lem o w,
  unmarshal-written o 0 false [] w (none_present (kept_keys o 0 false)),
  λ j.
      sym (
        lookup_split o 0 false j ∙ rw (no_limit_left o false) (unfold lookup in first_some-none _)),
)
