-- ===== src/Dhcp6/Builder.antt =====
-- dhcp6/packet_builder.go, with the constructors of options of dhcp6/options.go that it uses: the
-- answers to a client's packets.
pub mod Answers
pub mod Respond
pub mod Identifiers
pub mod Messages
use netboot.Prelude.{
  ℕ, zero, suc, ◌+◌, ◌-◌, ◌*◌, ◌/◌, ◌%◌, Bool, true, false, Option, none, some, List, [], ◌∷◌, ◌++◌,
  Bytes, length, take, replicate, ltb, ◌==◌, if◌then◌else◌,
}
use netboot.Prelude.Assoc.{Assoc, insert, has}
use netboot.Prelude.Text.{literal}
use netboot.Dhcp6.Slice.{Outcome, returned, failed, panicked, ◌>>=◌, Slice, sub, from, big_endian16}
use netboot.Dhcp6.Options.{
  DhcpOption, Options, OptionsError, opt_client_id, opt_server_id, opt_ia_na, opt_bootfile_url,
  make_option, marshal_option, add, value_of, ia_na_ids, client_arch_type,
}
use netboot.Dhcp6.Packet.{
  Packet, msg_solicit, msg_advertise, msg_request, msg_reply, msg_release, msg_information_request,
}
use netboot.Dhcp6.Pool.{Association, Pool, reserve_addresses, release_addresses}

abbrev pub opt_ia_addr : ℕ
opt_ia_addr = 5

abbrev pub opt_preference : ℕ
opt_preference = 7

abbrev pub opt_status_code : ℕ
opt_status_code = 13

abbrev pub opt_vendor_class : ℕ
opt_vendor_class = 16

abbrev pub opt_recursive_dns : ℕ
opt_recursive_dns = 23

-- binary.BigEndian.PutUint32.
abbrev pub put32 : ℕ → Bytes
put32 n = (n / 16777216 % 256) ∷ (n / 65536 % 256) ∷ (n / 256 % 256) ∷ (n % 256) ∷ []

-- iaid[0:4], of a slice that ends at its capacity.
first_four : Bytes → Outcome OptionsError Bytes
first_four (a ∷ b ∷ c ∷ d ∷ rest) = returned (a ∷ b ∷ c ∷ d ∷ [])
first_four _ = panicked

-- MakeIaNaOption.
unfoldable pub make_ia_na_option : Bytes → ℕ → ℕ → DhcpOption → Outcome OptionsError DhcpOption
unfolding first_four make_option marshal_option
make_ia_na_option iaid t1 t2 ia_option = do
  id ← first_four iaid
  returned (make_option opt_ia_na (id ++ (put32 t1 ++ (put32 t2 ++ marshal_option ia_option))))

-- Sixteen bytes: the front of `ip`, or `ip` and zeros.
abbrev sixteen : Bytes → Bytes
sixteen ip = take 16 ip ++ replicate (16 - length ip) 0

-- MakeIaAddrOption.
unfoldable pub make_ia_addr_option : Bytes → ℕ → ℕ → DhcpOption
unfolding make_option
make_ia_addr_option addr preferred valid =
    make_option opt_ia_addr (sixteen addr ++ (put32 preferred ++ put32 valid))

-- MakeStatusOption.
unfoldable pub make_status_option : ℕ → Bytes → DhcpOption
unfolding make_option
make_status_option code message =
    make_option opt_status_code ((code / 256 % 256) ∷ (code % 256) ∷ message)

dns_value : List Bytes → Bytes
dns_value [] = []
dns_value (ip ∷ ips) = sixteen ip ++ dns_value ips

-- MakeDNSServersOption, for addresses of sixteen bytes at most.
unfoldable pub make_dns_servers_option : List Bytes → DhcpOption
unfolding dns_value make_option
make_dns_servers_option addresses = make_option opt_recursive_dns (dns_value addresses)

-- big.Int's Bytes: the big-endian bytes of `n` in front of `out`, with no leading zero. A round
-- divides by 256, so `n` rounds are enough.
pub big_bytes : ℕ → ℕ → Bytes → Bytes
big_bytes zero n out = out
big_bytes (suc fuel) n out =
    let more = big_bytes fuel (n / 256) ((n % 256) ∷ out) in if n == 0 then out else more

-- type PacketBuilder
pub record PacketBuilder : Type 0 where
  pub preferred_lifetime : ℕ
  pub valid_lifetime : ℕ

-- calculateT1 and calculateT2; the product is a uint32.
unfoldable pub calculate_t1 : PacketBuilder → ℕ
calculate_t1 b = b.preferred_lifetime / 2

unfoldable pub calculate_t2 : PacketBuilder → ℕ
calculate_t2 b = b.preferred_lifetime * 4 % 4294967296 / 5

-- retOptions.Add, option by option, on an empty map.
pub collect : Options → List DhcpOption → Options
unfolding add
collect m [] = m
collect m (o ∷ os) = collect (add o m) os

-- The loop over the associations.
pub address_options : PacketBuilder → List Association → Outcome OptionsError (List DhcpOption)
unfolding make_ia_na_option make_ia_addr_option calculate_t1 calculate_t2 big_bytes
address_options b [] = returned []
address_options b (a ∷ as') = do
  o ←
      make_ia_na_option a.interface_id (calculate_t1 b) (calculate_t2 b) (
        make_ia_addr_option (big_bytes a.address a.address []) b.preferred_lifetime
          b.valid_lifetime)
  os ← address_options b as'
  returned (o ∷ os)

-- The loop over the interfaces without an address, with status 2 (NoAddrsAvail).
pub refusal_options : PacketBuilder → Bytes → List Bytes → Outcome OptionsError (List DhcpOption)
unfolding make_ia_na_option make_status_option calculate_t1 calculate_t2
refusal_options b message [] = returned []
refusal_options b message (ia ∷ ias) = do
  o ← make_ia_na_option ia (calculate_t1 b) (calculate_t2 b) (make_status_option 2 message)
  os ← refusal_options b message ias
  returned (o ∷ os)

-- The options of every answer that sends a URL, from the server's identifier on.
pub boot_options : Bytes → ℕ → Bytes → Option Bytes → List Bytes → List DhcpOption
unfolding make_option make_dns_servers_option
boot_options server_duid arch url preference dns =
    make_option opt_server_id server_duid
    ∷ ((if arch == 0x10
          then make_option opt_vendor_class (0 ∷ 0 ∷ 0 ∷ 0 ∷ 0 ∷ 10 ∷ literal "HTTPClient") ∷ []
          else [])
        ++ (make_option opt_bootfile_url url
            ∷ (preference_option preference
                ++ (if ltb 0 (length dns) then make_dns_servers_option dns ∷ [] else []))))
  where
    preference_option : Option Bytes → List DhcpOption
    preference_option none = []
    preference_option (some p) = make_option opt_preference p ∷ []

unfoldable pub make_msg_advertise :
    PacketBuilder
    → Bytes
    → Bytes
    → Bytes
    → ℕ
    → List Association
    → Bytes
    → Option Bytes
    → List Bytes
    → Outcome OptionsError Packet
unfolding make_option collect address_options boot_options
make_msg_advertise b id server_duid client_id arch associations url preference dns = do
  as' ← address_options b associations
  returned (record {
    type = msg_advertise;
    transaction_id = id;
    options = collect [] (
        make_option opt_client_id client_id
        ∷ (as' ++ boot_options server_duid arch url preference dns));
  })

pub make_msg_reply :
    PacketBuilder
    → Bytes
    → Bytes
    → Bytes
    → ℕ
    → List Association
    → List Bytes
    → Bytes
    → List Bytes
    → Bytes
    → Outcome OptionsError Packet
unfolding make_option collect address_options refusal_options boot_options
make_msg_reply b id server_duid client_id arch associations without url dns message = do
  as' ← address_options b associations
  refused ← refusal_options b message without
  returned (record {
    type = msg_reply;
    transaction_id = id;
    options = collect [] (
        make_option opt_client_id client_id
        ∷ (as' ++ (refused ++ boot_options server_duid arch url none dns)));
  })

pub make_msg_information_request_reply : Bytes → Bytes → Bytes → ℕ → Bytes → List Bytes → Packet
unfolding make_option collect boot_options
make_msg_information_request_reply id server_duid client_id arch url dns = record {
  type = msg_reply;
  transaction_id = id;
  options =
      collect [] (make_option opt_client_id client_id ∷ boot_options server_duid arch url none dns);
}

-- The status value has nineteen bytes, and the text seventeen.
pub make_msg_release_reply : Bytes → Bytes → Bytes → Packet
unfolding make_option collect
make_msg_release_reply id server_duid client_id = record {
  type = msg_reply;
  transaction_id = id;
  options = collect [] (
      make_option opt_client_id client_id
      ∷ make_option opt_server_id server_duid
      ∷ make_option opt_status_code (0 ∷ 0 ∷ literal "Release received.")
      ∷ []);
}

pub make_msg_advertise_with_no_addrs_available : Bytes → Bytes → Bytes → Bytes → Packet
unfolding make_option make_status_option collect
make_msg_advertise_with_no_addrs_available id server_duid client_id message = record {
  type = msg_advertise;
  transaction_id = id;
  options = collect [] (
      make_option opt_client_id client_id
      ∷ make_option opt_server_id server_duid
      ∷ make_status_option 2 message
      ∷ []);
}

-- extractLLAddressOrID, which panics on an identifier that is too short.
unfoldable pub extract_ll_address_or_id : Slice → Outcome OptionsError Slice
unfolding sub from big_endian16
extract_ll_address_or_id id = do
  head ← sub id 0 2
  id_type ← big_endian16 head
  from id (if id_type == 1 then 8 else if id_type == 3 then 4 else 2)
