-- ===== src/Dhcp6/Builder/Respond.antt =====
-- BuildResponse of dhcp6/packet_builder.go: the answer to a packet, and the pool after it.
pub mod Replies
use netboot.Prelude.{
  ℕ, Bool, true, false, Option, none, some, List, [], ◌∷◌, Bytes, map, ◌==◌, if◌then◌else◌,
}
use netboot.Prelude.Assoc.{has_key}
use netboot.Prelude.Text.{literal}
use netboot.Dhcp6.Slice.{Outcome, returned, panicked, ◌>>=◌, Slice}
use netboot.Dhcp6.Options.{
  Options, OptionsError, opt_client_id, value_of, ia_na_ids, client_arch_type,
}
use netboot.Dhcp6.Packet.{Packet, msg_solicit, msg_request, msg_release, msg_information_request}
use netboot.Dhcp6.Pool.{Wanted, Association, Pool, reserve_addresses, release_addresses}
use netboot.Dhcp6.Builder.{
  PacketBuilder, extract_ll_address_or_id, make_msg_advertise, make_msg_reply,
  make_msg_information_request_reply, make_msg_release_reply,
  make_msg_advertise_with_no_addrs_available,
}

-- type BootConfiguration interface: `none` is an error of GetBootURL, or a nil preference.
pub record BootConfiguration : Type 0 where
  pub get_boot_url : Bytes → ℕ → Option Bytes
  pub get_preference : Option Bytes
  pub get_recursive_dns : List Bytes

-- What BuildResponse returns: a packet or nil, whether its error is not nil, and the pool. A
-- generator whose values given run out stands as an error too.
pub record Response : Type 0 where
  pub packet : Option Packet
  pub failed : Bool
  pub pool : Pool

-- in.Options.ClientID(), nil without the option.
unfoldable pub client_id_of : Options → Slice
client_id_of o = elim (value_of opt_client_id o) [
  | none ↦ record { visible = []; spare = [] }
  | some id ↦ id
]

-- Each interface with the time that the clock shows for it and the values that the generator yields.
attach : List Bytes → List (ℕ × List ℕ) → List Wanted
attach [] draws = []
attach (id ∷ ids) [] = record { interface = id; random = []; time = 0 } ∷ attach ids []
attach (id ∷ ids) ((time, random) ∷ draws) =
    record { interface = id; random = random; time = time } ∷ attach ids draws

-- The error of ReserveAddresses as text, which an answer carries.
abbrev no_more_addresses : Bytes
no_more_addresses = literal "No more free ip addresses are currently available in the pool"

-- iasWithoutAddesses, on the hash of the interface alone.
pub ias_without_addresses : (Bytes → ℕ) → List Association → List Bytes → List Bytes
ias_without_addresses id_hash available [] = []
ias_without_addresses id_hash available (ia ∷ ias) =
    let others = ias_without_addresses id_hash available ias in
    if has_key (id_hash ia) (map (λ a. id_hash a.interface_id) available)
    then others
    else ia ∷ others

-- err.Error() for each interface without an address: on a nil error, which is there when the hashes of
-- two interfaces meet, it panics.
error_text : Option Bool → List Bytes → Outcome OptionsError Bytes
error_text (some e) without = returned no_more_addresses
error_text none [] = returned []
error_text none (ia ∷ without) = panicked

-- The two hashes of hash/fnv: of client and interface, and of an interface.
module _ (hash : Bytes → Bytes → ℕ) (id_hash : Bytes → ℕ) (b : PacketBuilder)
    (server_duid : Bytes) where
  -- The three answers that need a URL, once it is there.
  answer_solicit :
      BootConfiguration
      → Packet
      → Bytes
      → ℕ
      → Bytes
      → List Bytes
      → Option Bool × List Association × Pool
      → Outcome OptionsError Response
  answer_solicit conf p client arch url ids (none, associations, pool) = do
    reply ←
        make_msg_advertise b p.transaction_id server_duid client arch associations url
          conf.get_preference conf.get_recursive_dns
    returned (record { packet = some reply; failed = false; pool = pool })
  answer_solicit conf p client arch url ids (some e, associations, pool) = returned (record {
    packet = some (
        make_msg_advertise_with_no_addrs_available p.transaction_id server_duid client
          no_more_addresses);
    failed = true;
    pool = pool;
  })

  answer_request :
      BootConfiguration
      → Packet
      → Bytes
      → ℕ
      → Bytes
      → List Bytes
      → Option Bool × List Association × Pool
      → Outcome OptionsError Response
  unfolding ias_without_addresses error_text
  answer_request conf p client arch url ids (e, associations, pool) = do
    let without = ias_without_addresses id_hash associations ids
    text ← error_text e without
    reply ←
        make_msg_reply b p.transaction_id server_duid client arch associations without url
          conf.get_recursive_dns text
    returned (record {
      packet = some reply;
      failed = elim e [ none ↦ false | some x ↦ true ];
      pool = pool;
    })

  with_url :
      BootConfiguration
      → Packet
      → Pool
      → (Bytes → ℕ → Bytes → Outcome OptionsError Response)
      → Outcome OptionsError Response
  unfolding client_id_of
  with_url conf p pool answer = do
    let client = client_id_of p.options
    id ← extract_ll_address_or_id client
    arch ← client_arch_type p.options
    elim (conf.get_boot_url id.visible arch) [
      | none ↦ returned (record { packet = none; failed = true; pool = pool })
      | some url ↦ answer client.visible arch url
    ]

  -- BuildResponse, with what the clock and the generator answer.
  unfoldable pub build_response :
      BootConfiguration
      → (ℕ → ℕ)
      → List (ℕ × List ℕ)
      → Packet
      → Pool
      → Outcome OptionsError Response
  unfolding with_url answer_solicit answer_request client_id_of attach
  build_response conf clock draws p pool =
      if p.type == msg_solicit
      then with_url conf p pool (λ client arch url. (do
        ids ← ia_na_ids p.options
        answer_solicit conf p client arch url ids
            (reserve_addresses hash clock client (attach ids draws) pool)))
      else if p.type == msg_request
      then with_url conf p pool (λ client arch url. (do
        ids ← ia_na_ids p.options
        answer_request conf p client arch url ids
            (reserve_addresses hash clock client (attach ids draws) pool)))
      else if p.type == msg_information_request
      then with_url conf p pool (λ client arch url. returned (record {
        packet = some (
            make_msg_information_request_reply p.transaction_id server_duid client arch url
              conf.get_recursive_dns);
        failed = false;
        pool = pool;
      }))
      else if p.type == msg_release
      then (do
        let client = (client_id_of p.options).visible
        ids ← ia_na_ids p.options
        returned (record {
          packet = some (make_msg_release_reply p.transaction_id server_duid client);
          failed = false;
          pool = release_addresses hash client ids pool;
        }))
      else returned (record { packet = none; failed = false; pool = pool })
