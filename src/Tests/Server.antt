-- ===== src/Tests/Server.antt =====
-- Runs for the package server.
use netboot.Prelude.{All, ◌<◌, arith, some, ◌≡◌, refl, true, List, [], ◌∷◌, Bytes}
use netboot.Prelude.Assoc.{Assoc, lookup}
use netboot.Prelude.Result.{ok}
use netboot.Net.{is_global_unicast, is_link_local_unicast, is_loopback}
use netboot.Dhcp4.Options.{value}
use netboot.Dhcp4.Options.Values.{get_uint16, string, bytes}
use netboot.Dhcp4.MessageType
use netboot.Dhcp4.Packet.{Packet}
use netboot.Server.Dhcp.{Machine, check_guid, is_rpi, validate_dhcp, offer_dhcp}
use netboot.Server.Dhcp.Offers.{Answers, validate_dhcp-offer_dhcp}
use netboot.Server.Pxe.{validate_pxe}
use netboot.Server.Interface.{IsBest, ipv4s, interface_ip, interface_ip-IsBest}
use netboot.Server.Events.{Event}

abbrev mac : Bytes
mac = 2 ∷ 0 ∷ 0 ∷ 0 ∷ 0 ∷ 7 ∷ []

abbrev server_ip : Bytes
server_ip = 192 ∷ 168 ∷ 0 ∷ 1 ∷ []

-- A UEFI client, 64 bits, with a GUID.
abbrev discover : Packet
discover = record {
  type = 1;
  transaction_id = 1 ∷ 2 ∷ 3 ∷ 4 ∷ [];
  broadcast = true;
  hardware_addr = mac;
  client_addr = 0 ∷ 0 ∷ 0 ∷ 0 ∷ [];
  your_addr = 0 ∷ 0 ∷ 0 ∷ 0 ∷ [];
  server_addr = 0 ∷ 0 ∷ 0 ∷ 0 ∷ [];
  relay_addr = 0 ∷ 0 ∷ 0 ∷ 0 ∷ [];
  boot_server_name = [];
  boot_filename = [];
  options =
      (93, 0 ∷ 7 ∷ [])
      ∷ (97, 0 ∷ 1 ∷ 2 ∷ 3 ∷ 4 ∷ 5 ∷ 6 ∷ 7 ∷ 8 ∷ 9 ∷ 10 ∷ 11 ∷ 12 ∷ 13 ∷ 14 ∷ 15 ∷ 16 ∷ [])
      ∷ [];
}

abbrev machine : Machine
machine = record { mac = mac; arch = 1 }

valid : validate_dhcp discover ≡ ok (machine, 2)
unfolding validate_dhcp get_uint16 bytes string lookup is_rpi value check_guid
valid = refl

validate_dhcp-offer_dhcp_example :
    (resp : Packet) × (offer_dhcp 80 discover machine server_ip 2 ≡ ok resp)
    × ((resp.type ≡ MessageType.offer) × (resp.broadcast ≡ true))
    × Answers discover server_ip resp
validate_dhcp-offer_dhcp_example = validate_dhcp-offer_dhcp 80 discover machine server_ip 2 valid

abbrev boot_programs : Assoc Bytes
boot_programs = (2, 77 ∷ 90 ∷ []) ∷ []

valid_pxe : validate_pxe boot_programs discover ≡ ok 2
unfolding validate_pxe get_uint16 bytes lookup value check_guid
valid_pxe = refl

abbrev addresses : List Bytes
addresses = (127 ∷ 0 ∷ 0 ∷ 1 ∷ []) ∷ (169 ∷ 254 ∷ 1 ∷ 1 ∷ []) ∷ server_ip ∷ []

interface_ip-IsBest_example :
    IsBest
      (is_global_unicast ∷ is_link_local_unicast ∷ is_loopback ∷ [])
      (ipv4s addresses)
      (interface_ip addresses)
interface_ip-IsBest_example = interface_ip-IsBest addresses

abbrev event : Event
event = record { timestamp = 3; state = 2; message = b'x' ∷ [] }

mac_bytes : All (λ b. b < 256) mac
mac_bytes =
    (omega arith, (omega arith, (omega arith, (omega arith, (omega arith, (omega arith, tt))))))

program_there : lookup 2 boot_programs ≡ some (77 ∷ 90 ∷ [])
unfolding lookup
program_there = refl
