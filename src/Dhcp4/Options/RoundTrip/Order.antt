-- ===== src/Dhcp4/Options/RoundTrip/Order.antt =====
-- The bytes that `marshal_limited` of dhcp4/options.go writes do not depend on the order of the map's
-- entries.
use netboot.Prelude.{ℕ, ◌+◌, ◌-◌, ◌≡◌, refl, sym, ◌∙◌, Bool, List, [], ◌∷◌, length, arith}
use netboot.Prelude.Assoc.{lookup, insert, keys, has}
use netboot.Prelude.Sort.{sort, Ascending-sort, Ascending-unique}
use netboot.Dhcp4.Options.{Options, value, write_options, marshal_limited}
use netboot.Dhcp4.Options.WellFormed.{IsWire, check_numbers-keys}
use netboot.Dhcp4.Options.Split.{has_key-sort-keys}

write_options_cong :
    (o o' : Options) (skip52 : Bool) (ns : List ℕ) (n : ℕ) (ret : Options)
    → ((j : ℕ) → value o j ≡ value o' j)
    → write_options o skip52 ns n ret ≡ write_options o' skip52 ns n ret
unfolding write_options
write_options_cong o o' skip52 [] n ret h = refl
write_options_cong o o' skip52 (k ∷ ks) n ret h = ground (
  arith,
  h k,
  write_options_cong o o' skip52 ks n (insert k (value o k) ret) h,
  write_options_cong o o' skip52 ks (n - (length (value o k) + 2)) ret h,
)

value_cong : (o o' : Options) (j : ℕ) → lookup j o ≡ lookup j o' → value o j ≡ value o' j
unfolding value
value_cong o o' j h = rw (h, value)

has_cong : (o o' : Options) (j : ℕ) → lookup j o ≡ lookup j o' → has j o ≡ has j o'
unfolding has
has_cong o o' j h = rw (h, has)

sort-keys_cong :
    (o o' : Options)
    → IsWire o
    → IsWire o'
    → ((j : ℕ) → lookup j o ≡ lookup j o')
    → sort (keys o) ≡ sort (keys o')
sort-keys_cong o o' w w' h =
    Ascending-unique _ _ (Ascending-sort (keys o) w.distinct) (Ascending-sort (keys o') w'.distinct)
      λ j. has_key-sort-keys o j ∙ has_cong o o' j (h j) ∙ sym (has_key-sort-keys o' j)

-- Two maps that fit the wire and have the same lookups give the same bytes and the same left-over
-- options: the order in which Go iterates over a map does not show.
pub marshal_limited_order :
    (o o' : Options) (n : ℕ) (skip52 : Bool)
    → IsWire o
    → IsWire o'
    → ((j : ℕ) → lookup j o ≡ lookup j o')
    → marshal_limited o n skip52 ≡ marshal_limited o' n skip52
unfolding marshal_limited
marshal_limited_order o o' n skip52 w w' h =
    rw (check_numbers-keys o w, check_numbers-keys o' w', sort-keys_cong o o' w w' h)
      (write_options_cong o o' skip52 (sort (keys o')) n [] (λ j. value_cong o o' j (h j)))
