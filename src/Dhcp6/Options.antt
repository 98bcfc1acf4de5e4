-- ===== src/Dhcp6/Options.antt =====
-- dhcp6/options.go: the option map and its wire format.
pub mod Parse
pub mod Termination
use netboot.Prelude.{
  ℕ, zero, suc, ◌+◌, ◌-◌, ◌*◌, ◌/◌, ◌%◌, ◌^◌, Bool, true, false, not, Option, none, some, List, [],
  ◌∷◌, ◌++◌, Bytes, length, ltb, ◌==◌, if◌then◌else◌,
}
use netboot.Prelude.Assoc.{Assoc, lookup, insert, has_key}
use netboot.Dhcp6.Slice.{
  Outcome, returned, failed, panicked, ◌>>=◌, Slice, len, backing, sub, from, big_endian16,
}

-- type Option struct
pub record DhcpOption : Type 0 where
  pub id : ℕ
  pub length : ℕ
  pub value : Slice

-- map[uint16][]*Option
abbrev pub Options : Type 0
Options = Assoc (List DhcpOption)

abbrev pub opt_client_id : ℕ
opt_client_id = 1

abbrev pub opt_server_id : ℕ
opt_server_id = 2

abbrev pub opt_ia_na : ℕ
opt_ia_na = 3

abbrev pub opt_ia_ta : ℕ
opt_ia_ta = 4

abbrev pub opt_oro : ℕ
opt_oro = 6

abbrev pub opt_bootfile_url : ℕ
opt_bootfile_url = 59

abbrev pub opt_client_arch_type : ℕ
opt_client_arch_type = 61

-- `out_of_fuel` is no Go value.
pub data OptionsError : Type 0 where
  odd_request_length : ℕ → OptionsError
  short_payload : ℕ → ℕ → ℕ → OptionsError
  out_of_fuel : OptionsError

-- MakeOption: the length is truncated to a uint16. The value is a slice of its own array.
unfoldable pub make_option : ℕ → Bytes → DhcpOption
make_option id value = record {
  id = id;
  length = length value % 65536;
  value = record { visible = value; spare = [] };
}

-- `4+optionLength` is a uint16 sum.
abbrev pub end_of : ℕ → ℕ
end_of n = (4 + n) % 65536

-- The `switch` of UnmarshalOption: an Option Request is not checked against the bytes there are.
pub check_length : Slice → ℕ → ℕ → Outcome OptionsError (Unit {0})
check_length bs id n =
    if id == opt_oro
    then (if n % 2 == 0 then returned tt else failed (odd_request_length n))
    else (do
      payload ← from bs 4
      if ltb (len payload) n then failed (short_payload id n (len payload)) else returned tt)

unfoldable pub unmarshal_option : Slice → Outcome OptionsError DhcpOption
unfolding check_length sub big_endian16
unmarshal_option bs = do
  length_bytes ← sub bs 2 4
  n ← big_endian16 length_bytes
  id_bytes ← sub bs 0 2
  id ← big_endian16 id_bytes
  _ ← check_length bs id n
  value ← sub bs 4 (end_of n)
  returned (record { id = id; length = n; value = value })

-- ret[o.ID] = append(ret[o.ID], o), and Options.Add.
unfoldable pub add : DhcpOption → Options → Options
unfolding lookup insert
add o m = elim (lookup o.id m) [
  | none ↦ insert o.id (o ∷ []) m
  | some os ↦ insert o.id (os ++ (o ∷ [])) m
]

-- The loop of UnmarshalOptions. A round takes four bytes at least.
pub unmarshal_loop : ℕ → Slice → Options → Outcome OptionsError Options
unmarshal_loop zero bs m = if len bs == 0 then returned m else failed out_of_fuel
unmarshal_loop (suc fuel) bs m =
    let more = (do
      o ← unmarshal_option bs
      value ← sub bs 4 (end_of o.length)
      rest ← from bs (end_of o.length)
      unmarshal_loop fuel rest (add (record { id = o.id; length = o.length; value = value }) m)) in
    if len bs == 0 then returned m else more

unfoldable pub unmarshal_options : Slice → Outcome OptionsError Options
unfolding unmarshal_loop unmarshal_option sub from add
unmarshal_options bs = unmarshal_loop (len bs) bs []

-- (o *Option) Marshal.
unfoldable pub marshal_option : DhcpOption → Bytes
marshal_option o =
    (o.id / 256) ∷ (o.id % 256) ∷ (o.length / 256) ∷ (o.length % 256) ∷ o.value.visible

unfoldable pub marshal_each : List DhcpOption → Bytes
marshal_each [] = []
marshal_each (o ∷ os) = marshal_option o ++ marshal_each os

-- (o Options) Marshal, in the order of the map's iteration.
unfoldable pub marshal_options : Options → Bytes
unfolding marshal_each marshal_option
marshal_options [] = []
marshal_options ((id, os) ∷ m) = marshal_each os ++ marshal_options m

-- The values of the first option with a code; the `Has…` methods test for the key alone.
unfoldable pub first_value : List DhcpOption → Option Slice
first_value [] = none
first_value (o ∷ os) = some o.value

unfoldable pub value_of : ℕ → Options → Option Slice
unfolding first_value lookup
value_of id m = elim (lookup id m) [ none ↦ none | some os ↦ first_value os ]

-- The loop of UnmarshalOptionRequestOption over `n` pairs of bytes.
pub requests : ℕ → Bytes → Outcome OptionsError (List ℕ)
requests zero v = returned []
requests (suc n) (a ∷ b ∷ v) = do rest ← requests n v; returned ((a * 256 + b) ∷ rest)
requests (suc n) _ = panicked

first_requests : List DhcpOption → Outcome OptionsError (List ℕ)
unfolding requests
first_requests [] = panicked
first_requests (o ∷ os) = requests (o.length / 2) (backing o.value)

unfoldable pub requested_options : Options → Outcome OptionsError (List ℕ)
unfolding first_requests lookup
requested_options m = elim (lookup opt_oro m) [ none ↦ returned [] | some os ↦ first_requests os ]

unfoldable pub has_boot_file_url : Options → Outcome OptionsError Bool
unfolding requested_options has_key
has_boot_file_url m = do ids ← requested_options m; returned (has_key opt_bootfile_url ids)

-- IaNaIDs: the first four bytes of every IA_NA option.
ia_ids : List DhcpOption → Outcome OptionsError (List Bytes)
unfolding sub
ia_ids [] = returned []
ia_ids (o ∷ os) = do id ← sub o.value 0 4; rest ← ia_ids os; returned (id.visible ∷ rest)

unfoldable pub ia_na_ids : Options → Outcome OptionsError (List Bytes)
unfolding ia_ids lookup
ia_na_ids m = elim (lookup opt_ia_na m) [ none ↦ returned [] | some os ↦ ia_ids os ]

-- ClientArchType: 0 without the option; a panic on a value of fewer than two bytes.
unfoldable pub client_arch_type : Options → Outcome OptionsError ℕ
unfolding value_of big_endian16
client_arch_type m = elim (value_of opt_client_arch_type m) [
  | none ↦ returned 0
  | some v ↦ big_endian16 v
]
