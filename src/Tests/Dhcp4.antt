-- ===== src/Tests/Dhcp4.antt =====
-- Runs for the package dhcp4.
use netboot.Prelude.{
  ℕ, ◌≡◌, ◌≢◌, refl, true, false, none, some, [], ◌∷◌, Bytes, length, arith, ◌⊎◌, first_some,
}
use netboot.Prelude.Assoc.{lookup, keys, has_key}
use netboot.Prelude.Result.{ok}
use netboot.Dhcp4.Options.{Options, out_of_fuel, marshal_limited, unmarshal}
use netboot.Dhcp4.Options.Values.{byte}
use netboot.Dhcp4.Options.WellFormed.{
  IsWire, IsWire-empty, unmarshal-IsWire, unmarshal-ne-out_of_fuel,
}
use netboot.Dhcp4.Options.RoundTrip.{marshal_limited_partition}
use netboot.Dhcp4.Options.RoundTrip.Order.{marshal_limited_order}
use netboot.Dhcp4.Packet.{
  Packet, overload_flags, bootp_op, marshal as marshal_packet, unmarshal as unmarshal_packet,
}
use netboot.Dhcp4.Packet.Parts.{IsSendable}
use netboot.Dhcp4.Packet.RoundTrip.{unmarshal-marshal_packet}

abbrev server_ip : Bytes
server_ip = 192 ∷ 168 ∷ 0 ∷ 1 ∷ []

-- Option 52 with value 2: options may stand in the 'sname' field.
abbrev offer_options : Options
offer_options = (54, server_ip) ∷ (52, 2 ∷ []) ∷ (43, 6 ∷ 1 ∷ 8 ∷ 255 ∷ []) ∷ []

abbrev reordered_options : Options
reordered_options = (43, 6 ∷ 1 ∷ 8 ∷ 255 ∷ []) ∷ (54, server_ip) ∷ (52, 2 ∷ []) ∷ []

offer_options-IsWire : IsWire offer_options
unfolding keys has_key
offer_options-IsWire = record {
  entries = (
    (omega arith, omega arith, omega arith),
    ((omega arith, omega arith, omega arith), ((omega arith, omega arith, omega arith), tt)),
  );
  distinct = (refl, (refl, (refl, tt)));
}

reordered_options-IsWire : IsWire reordered_options
unfolding keys has_key
reordered_options-IsWire = record {
  entries = (
    (omega arith, omega arith, omega arith),
    ((omega arith, omega arith, omega arith), ((omega arith, omega arith, omega arith), tt)),
  );
  distinct = (refl, (refl, (refl, tt)));
}

same_lookups : (j : ℕ) → lookup j offer_options ≡ lookup j reordered_options
unfolding lookup
same_lookups j = ground arith

abbrev offer : Packet
offer = record {
  type = 2;
  transaction_id = 1 ∷ 2 ∷ 3 ∷ 4 ∷ [];
  broadcast = true;
  hardware_addr = 2 ∷ 0 ∷ 0 ∷ 0 ∷ 0 ∷ 7 ∷ [];
  client_addr = 0 ∷ 0 ∷ 0 ∷ 0 ∷ [];
  your_addr = 0 ∷ 0 ∷ 0 ∷ 0 ∷ [];
  server_addr = server_ip;
  relay_addr = 0 ∷ 0 ∷ 0 ∷ 0 ∷ [];
  boot_server_name = [];
  boot_filename = b'p' ∷ b'x' ∷ b'e' ∷ [];
  options = offer_options;
}

offer_flags : overload_flags offer_options ≡ (false, true)
unfolding overload_flags byte lookup
offer_flags = refl

offer-IsSendable : IsSendable offer 2
unfolding overload_flags byte lookup bootp_op
offer-IsSendable = record {
  id_size = refl;
  hardware_size = refl;
  client_size = refl;
  your_size = refl;
  server_size = refl;
  relay_size = refl;
  known = refl;
  wire = offer_options-IsWire;
  no_type = refl;
  sname_fits = refl;
  file_fits = record {
    shorter = omega arith;
    no_nul =
        (λ e. absurd (omega arith), (λ e. absurd (omega arith), (λ e. absurd (omega arith), tt)));
  };
}

unmarshal-marshal_packet_example :
    (bs : Bytes) × (o : Options) × (marshal_packet offer ≡ ok bs)
    × (unmarshal_packet bs ≡ ok (record offer { options = o }))
    × ((j : ℕ) → lookup j o ≡ lookup j offer.options)
unmarshal-marshal_packet_example = unmarshal-marshal_packet offer 2 offer-IsSendable

marshal_limited_partition_example :
    (out : Bytes) × (left : Options) × (back : Options) × (marshal_limited offer_options 10 true
      ≡ ok (out, left))
    × (unmarshal out [] ≡ (back, none))
    × ((j : ℕ) → lookup j offer_options ≡ first_some (lookup j back) (lookup j left))
    × ((j : ℕ) → (lookup j back ≡ none) ⊎ (lookup j left ≡ none))
    × (◌≡◌ {A = ℕ} 10 0 ⊎ (length out ≡ 10))
marshal_limited_partition_example =
    marshal_limited_partition offer_options 10 true offer_options-IsWire

marshal_limited_order_example :
    marshal_limited offer_options 10 true ≡ marshal_limited reordered_options 10 true
marshal_limited_order_example =
    marshal_limited_order offer_options reordered_options 10 true offer_options-IsWire
      reordered_options-IsWire same_lookups

unmarshal-IsWire_example : IsWire (unmarshal (54 ∷ 2 ∷ 9 ∷ 8 ∷ 0 ∷ 255 ∷ []) []).0
unmarshal-IsWire_example =
    unmarshal-IsWire (54 ∷ 2 ∷ 9 ∷ 8 ∷ 0 ∷ 255 ∷ []) []
      (omega arith, (omega arith, (omega arith, (omega arith, (omega arith, (omega arith, tt))))))
      IsWire-empty

unmarshal-ne-out_of_fuel_example : (unmarshal (54 ∷ 2 ∷ 9 ∷ 8 ∷ 53 ∷ []) []).1 ≢ some out_of_fuel
unmarshal-ne-out_of_fuel_example = unmarshal-ne-out_of_fuel (54 ∷ 2 ∷ 9 ∷ 8 ∷ 53 ∷ []) []
