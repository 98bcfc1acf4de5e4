-- ===== src/Tests/Dhcp6.antt =====
-- Runs for the packages dhcp6 and dhcp6/pool.
use netboot.Prelude.{
  none, not, ltb, ℕ, ◌+◌, ◌*◌, ◌<◌, ◌≤◌, ◌≡◌, ◌≢◌, ◌⊎◌, refl, true, some, List, [], ◌∷◌, Bytes,
  length, All, arith, map,
}
use netboot.Prelude.Assoc.{lookup, has}
use netboot.Dhcp6.Slice.{Slice, returned, failed}
use netboot.Dhcp6.Options.{DhcpOption, unmarshal_options, out_of_fuel}
use netboot.Dhcp6.Options.Termination.{unmarshal_options-ne-out_of_fuel}
use netboot.Dhcp6.Options.Parse.{View, view, ViewFits, add_all}
use netboot.Dhcp6.Packet.{Packet, marshal, unmarshal}
use netboot.Dhcp6.Packet.RoundTrip.{AllFit, all_options, unmarshal-marshal_packet6}
use netboot.Dhcp6.Builder.{PacketBuilder, calculate_t1, calculate_t2}
use netboot.Dhcp6.Builder.Answers.{calculate_t1_le_t2}
use netboot.Dhcp6.Pool.{
  Wanted, Association, Pool, new_pool, low64, assign, reserve_one, reserve_addresses,
}
use netboot.Dhcp6.Pool.Reached.{begun, reserving, Reached-single}
use netboot.Dhcp6.Pool.Reserve.{Handed, reserve_one-Handed}
use netboot.Dhcp6.Pool.Again.{NotDue, reserve_addresses-again}

abbrev client_id : DhcpOption
client_id = record { id = 1; length = 2; value = record { visible = 7 ∷ 9 ∷ []; spare = [] } }

abbrev boot_url : DhcpOption
boot_url = record { id = 6; length = 2; value = record { visible = 0 ∷ 59 ∷ []; spare = 5 ∷ [] } }

abbrev solicit : Packet
solicit = record {
  type = 1;
  transaction_id = 4 ∷ 5 ∷ 6 ∷ [];
  options = (1, client_id ∷ []) ∷ (6, boot_url ∷ []) ∷ [];
}

solicit-AllFit : AllFit solicit.options
solicit-AllFit =
    (((refl, (omega arith, λ e. refl)), tt), (((refl, (omega arith, λ e. refl)), tt), tt))

unmarshal-marshal_packet6_example :
    (os : List DhcpOption) × (map view os ≡ map view (all_options solicit.options))
    × (unmarshal
          (record { visible = marshal solicit; spare = 1 ∷ 2 ∷ [] })
          (length (marshal solicit))
        ≡ returned (record {
          type = solicit.type;
          transaction_id = solicit.transaction_id;
          options = add_all os [];
        }))
unmarshal-marshal_packet6_example =
    unmarshal-marshal_packet6 solicit (1 ∷ 2 ∷ []) refl solicit-AllFit

abbrev two_views : List View
two_views = (1, 7 ∷ 9 ∷ []) ∷ (6, 0 ∷ 59 ∷ []) ∷ []

two_views_fit : All ViewFits two_views
two_views_fit = ((omega arith, λ e. refl), ((omega arith, λ e. refl), tt))

-- A pool of four addresses, and a hash for the runs.
abbrev small_pool : Pool
small_pool = new_pool 100 4 60

small_pool_size : 0 < small_pool.size
unfolding new_pool
small_pool_size = omega arith

abbrev sum_hash : Bytes → Bytes → ℕ
sum_hash client interface = length client * 10 + length interface

abbrev handed : Association
handed = record { address = 102; client_id = 7 ∷ []; interface_id = 8 ∷ []; created_at = 5 }

reserve_one-Handed_example :
    Handed sum_hash
      (7 ∷ [])
      (8 ∷ [])
      (6 ∷ [])
      small_pool
      (reserve_one sum_hash 5 (7 ∷ []) (8 ∷ []) (6 ∷ []) small_pool)
reserve_one-Handed_example =
    reserve_one-Handed sum_hash 5 (7 ∷ []) (8 ∷ []) (6 ∷ []) small_pool small_pool_size

abbrev pool_after : Pool
pool_after = assign sum_hash 5 (7 ∷ []) (8 ∷ []) 102 small_pool

now_held : lookup (sum_hash (7 ∷ []) (8 ∷ [])) pool_after.associations ≡ some handed
unfolding assign lookup new_pool
now_held = refl

abbrev builder : PacketBuilder
builder = record { preferred_lifetime = 1800; valid_lifetime = 1850 }

calculate_t1_le_t2_example :
    (not (ltb (calculate_t2 builder) (calculate_t1 builder))
      ≡ ltb builder.preferred_lifetime 1073741824)
    × (calculate_t2 builder ≤ builder.preferred_lifetime)
calculate_t1_le_t2_example = calculate_t1_le_t2 builder (omega arith)

-- A packet that ends inside an option.
abbrev cut_off : Slice
cut_off = record { visible = 0 ∷ 1 ∷ 0 ∷ 9 ∷ 5 ∷ []; spare = [] }

unmarshal_options-ne-out_of_fuel_example : unmarshal_options cut_off ≢ failed out_of_fuel
unmarshal_options-ne-out_of_fuel_example = unmarshal_options-ne-out_of_fuel cut_off

abbrev first_time : Wanted
first_time = record { interface = 8 ∷ []; random = 6 ∷ []; time = 5 }

-- A call for one interface, on a new pool.
abbrev one_call : Pool
one_call = (reserve_addresses sum_hash (λ i. 5) (7 ∷ []) (first_time ∷ []) small_pool).2

one_call_held : lookup 11 one_call.associations ≡ some handed
unfolding reserve_addresses lookup new_pool
one_call_held = refl

Reached-single_example :
    ((100 ≤ handed.address) × (handed.address < 100 + 4))
    × (has (low64 handed.address) one_call.used_ips ≡ true)
    × ((◌≡◌ {A = ℕ} 11 11) ⊎ (handed.address ≢ handed.address))
Reached-single_example =
    Reached-single sum_hash 100 4 (omega arith) 60 one_call 11 11 handed handed
      (reserving (λ i. 5) (7 ∷ []) (first_time ∷ []) begun) one_call_held one_call_held

call_ends : (reserve_addresses sum_hash (λ i. 5) (7 ∷ []) (first_time ∷ []) small_pool).0 ≡ none
unfolding reserve_addresses lookup has new_pool
call_ends = refl

not_due : NotDue 6 one_call.expirations
unfolding reserve_addresses lookup has new_pool
not_due = omega arith

-- The same call a second later, for which the generator yields another value.
reserve_addresses-again_example :
    reserve_addresses sum_hash
      (λ i. 6)
      (7 ∷ [])
      (record { interface = 8 ∷ []; random = 1 ∷ []; time = 6 } ∷ [])
      one_call
    ≡ (
      none,
      (reserve_addresses sum_hash (λ i. 5) (7 ∷ []) (first_time ∷ []) small_pool).1,
      one_call,
    )
reserve_addresses-again_example =
    reserve_addresses-again sum_hash (λ i. 5) (λ i. 6) (7 ∷ []) (first_time ∷ [])
      (record { interface = 8 ∷ []; random = 1 ∷ []; time = 6 } ∷ []) small_pool call_ends
      (refl, tt) not_due
