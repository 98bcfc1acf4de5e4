-- ===== src/Dhcp4/Options/RoundTrip/Remainder.antt =====
-- What `marshal_limited` of dhcp4/options.go leaves over, and what it has room for.
use netboot.Prelude.{
  ℕ, ◌+◌, ◌-◌, ◌≤◌, ◌<◌, ◌≡◌, refl, sym, ap, ◌∙◌, Bool, true, false, some, List, [], ◌∷◌, Bytes,
  length, length-append, All, first_some-none, Bool-cases, ==_iff, ◌==◌, if◌then◌else◌, arith, inl,
  inr,
}
use netboot.Prelude.Assoc.{lookup, insert, keys, has, has_key}
use netboot.Prelude.Sort.{sort}
use netboot.Dhcp4.Options.{Options, value}
use netboot.Dhcp4.Opt
use netboot.Dhcp4.Options.WellFormed.{IsWire, IsWire-insert, IsWire-empty}
use netboot.Dhcp4.Options.Layout.{puts_off, kept, encode, end_marker, insert_all, Fits}
use netboot.Dhcp4.Options.Split.{
  lookup-insert_all, All-skipped, no_limit, Fits-sort, has_key-sort-keys,
}
use netboot.Dhcp4.Options.RoundTrip.{
  written, kept_keys, left_over, lookup_split, lookup_apart, no_limit_left,
}

insert_all-IsWire :
    (o : Options) (ns : List ℕ) (acc : Options)
    → All (Fits o) ns
    → IsWire acc
    → IsWire (insert_all o ns acc)
unfolding insert_all
insert_all-IsWire o [] acc h w = w
insert_all-IsWire o (n ∷ ns) acc (h, hs) w =
    insert_all-IsWire o ns (insert n (value o n) acc) hs (IsWire-insert n (value o n) acc h w)

-- What is left over fits the wire too.
pub left_over-IsWire :
    (o : Options) (n : ℕ) (skip52 : Bool) → IsWire o → IsWire (left_over o n skip52)
unfolding left_over
left_over-IsWire o n skip52 w =
    insert_all-IsWire o _ [] (All-skipped o skip52 (Fits o) (sort (keys o)) n (Fits-sort o w))
      IsWire-empty

kept-overload :
    (o : Options) (ns : List ℕ) (n : ℕ) → 0 < n → has_key Opt.overload (kept o true ns n) ≡ false
unfolding kept puts_off has_key
kept-overload o [] n h = refl
kept-overload o (k ∷ ks) n h =
    ground (arith, kept-overload o ks n h, kept-overload o ks (n - (length (value o k) + 2)))

-- Under a limit and with `skip52`, option 52 is put off.
pub overload_left :
    (o : Options) (n : ℕ) → 0 < n → has_key Opt.overload (kept_keys o n true) ≡ false
unfolding kept_keys
overload_left o n h = kept-overload o (sort (keys o)) n h

-- The lookups of the whole by those of the two parts.
pub lookup-kept_left :
    (o : Options) (n : ℕ) (skip52 : Bool) (j : ℕ)
    → lookup j o ≡ (
        if has_key j (kept_keys o n skip52)
        then some (value o j)
        else lookup j (left_over o n skip52))
unfolding lookup
lookup-kept_left o n skip52 j =
    ground (arith, lookup_split o n skip52 j, lookup-insert_all o (kept_keys o n skip52) [] j)

pub has-left_over :
    (o : Options) (n : ℕ) (skip52 : Bool) (j : ℕ)
    → IsWire o
    → has_key j (kept_keys o n skip52) ≡ true
    → has j (left_over o n skip52) ≡ false
unfolding has lookup
has-left_over o n skip52 j w h =
    ground (arith, lookup_apart o n skip52 j w, lookup-insert_all o (kept_keys o n skip52) [] j)

-- Without a limit every option is written, and reads back.
pub lookup-main :
    (o : Options) (j : ℕ) → lookup j (insert_all o (kept_keys o 0 false) []) ≡ lookup j o
lookup-main o j =
    sym (lookup_split o 0 false j ∙ rw (no_limit_left o false) (unfold lookup in first_some-none _))

pub no_left_over : (o : Options) → left_over o 0 false ≡ []
no_left_over o = no_limit_left o false

encode-has_key :
    (o : Options) (ns : List ℕ) (k : ℕ)
    → has_key k ns ≡ true
    → length (value o k) + 2 ≤ length (encode o ns)
unfolding encode has_key
encode-has_key o [] k h = absurd (cc)
encode-has_key o (n ∷ ns) k h = elim (Bool-cases (n == k)) [
  | inl e ↦
      let p : n ≡ k = (==_iff n k).0 e in
      rw (← p) (omega (arith, length-append (value o n) (encode o ns)))
  | inr e ↦
      omega (arith, length-append (value o n) (encode o ns), encode-has_key o ns k (ground arith))
]

value_of : (o : Options) (k : ℕ) (v : Bytes) → lookup k o ≡ some v → value o k ≡ v
unfolding value
value_of o k v h = rw (h, value)

has_of : (o : Options) (k : ℕ) (v : Bytes) → lookup k o ≡ some v → has k o ≡ true
unfolding has
has_of o k v h = rw (h, has)

-- The main section has room for any one of its options.
pub length-main :
    (o : Options) (k : ℕ) (v : Bytes)
    → lookup k o ≡ some v
    → length v + 3 ≤ length (written o 0 false)
unfolding written end_marker
length-main o k v h =
    let ks = sort (keys o) in
    let (all, _, none_left) = no_limit o false ks in
    rw (all, none_left)
      (omega (
        arith,
        length-append (encode o ks) (255 ∷ []),
        encode-has_key o ks k (has_key-sort-keys o k ∙ has_of o k v h),
        ap (length {A = ℕ}) (value_of o k v h),
      ))
