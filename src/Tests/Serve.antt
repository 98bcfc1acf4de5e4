-- ===== src/Tests/Serve.antt =====
-- Runs for the loops of the package server.
use netboot.Prelude.{
  map, ℕ, ◌≡◌, refl, sym, ◌∙◌, true, Option, none, some, [], ◌∷◌, ◌++◌, Bytes, replicate, All,
  arith,
}
use mathlib.Core.Path.{subst}
use netboot.Prelude.Assoc.{lookup, has, insert, remove}
use netboot.Prelude.Result.{Result, ok, err, ok-injective}
use netboot.Dhcp4.Options.{value, unmarshal as unmarshal_options, unmarshal_loop, is_duplicate}
use netboot.Dhcp4.Options.Values.{get_uint16, string, bytes}
use netboot.Dhcp4.Options.WellFormed.{IsByte}
use netboot.Dhcp4.Packet.{Packet, unmarshal, too_short}
use netboot.Dhcp4.Conn.{Destination, Interface, frame}
use netboot.Server.Booter.{Spec, found}
use netboot.Net.{is_global_unicast}
use netboot.Server.Pxe.{validate_pxe}
use netboot.Server.Dhcp.{Machine, check_guid, is_rpi, is_boot_dhcp, validate_dhcp}
use netboot.Server.Interface.{interface_ip, find_ip, find_class}
use netboot.Server.Events.{events_of}
use netboot.Server.Serve.{ServeError, Setup, Turn, serve_dhcp, source_ip, answer_dhcp}
use netboot.Server.Serve.Answered.{IsOffer, answer_dhcp-IsOffer}
use netboot.Server.Serve.Sequence.{Sends, serve_dhcp-Sends}
use netboot.Server.Serve.Robust.{IsShort, serve_dhcp-IsShort, on_wire, serve_dhcp-on_wire}
use netboot.Server.ServePxe.{PxeSetup, pxe_request, send_pxe}
use netboot.Server.ServePxe.Answered.{IsAck, send_pxe-IsAck}

-- The discover of a UEFI client of 64 bits, as it comes in.
abbrev discover_bytes : Bytes
discover_bytes =
    1
    ∷ 1
    ∷ 6
    ∷ 0
    ∷ 1
    ∷ 2
    ∷ 3
    ∷ 4
    ∷ 0
    ∷ 0
    ∷ 0x80
    ∷ 0
    ∷ (replicate 16 0
        ++ (2
            ∷ 0
            ∷ 0
            ∷ 0
            ∷ 0
            ∷ 7
            ∷ (replicate 202 0 ++ (99 ∷ 130 ∷ 83 ∷ 99 ∷ 53 ∷ 1 ∷ 1 ∷ 93 ∷ 2 ∷ 0 ∷ 7 ∷ 255 ∷ []))))

abbrev discover : Packet
discover = record {
  type = 1;
  transaction_id = 1 ∷ 2 ∷ 3 ∷ 4 ∷ [];
  broadcast = true;
  hardware_addr = 2 ∷ 0 ∷ 0 ∷ 0 ∷ 0 ∷ 7 ∷ [];
  client_addr = 0 ∷ 0 ∷ 0 ∷ 0 ∷ [];
  your_addr = 0 ∷ 0 ∷ 0 ∷ 0 ∷ [];
  server_addr = 0 ∷ 0 ∷ 0 ∷ 0 ∷ [];
  relay_addr = 0 ∷ 0 ∷ 0 ∷ 0 ∷ [];
  boot_server_name = [];
  boot_filename = [];
  options = (93, 0 ∷ 7 ∷ []) ∷ [];
}

discover_read : unmarshal discover_bytes ≡ ok discover
unfolding unmarshal unmarshal_options unmarshal_loop is_duplicate lookup insert remove
discover_read = refl

abbrev server_ip : Bytes
server_ip = 192 ∷ 168 ∷ 0 ∷ 1 ∷ []

server_ip_bytes : All IsByte server_ip
server_ip_bytes = (omega arith, (omega arith, (omega arith, (omega arith, tt))))

abbrev ethernet : Interface
ethernet = record { index = 2; addresses = some (server_ip ∷ []) }

best_ip : interface_ip (server_ip ∷ []) ≡ some server_ip
unfolding interface_ip find_ip find_class is_global_unicast
best_ip = refl

abbrev machine : Machine
machine = record { mac = 2 ∷ 0 ∷ 0 ∷ 0 ∷ 0 ∷ 7 ∷ []; arch = 1 }

abbrev spec : Spec
spec = record {
  kernel = b'k' ∷ [];
  initrd = [];
  efi = [];
  cmdline = [];
  message = [];
  ipxe_script = [];
}

wants_boot : is_boot_dhcp discover ≡ ok tt
unfolding is_boot_dhcp has lookup
wants_boot = refl

valid : validate_dhcp discover ≡ ok (machine, 2)
unfolding validate_dhcp get_uint16 bytes string lookup is_rpi value check_guid
valid = refl

answer_dhcp-IsOffer_example :
    (d : Bytes × Destination) × (answer_dhcp 80 (λ m. found spec) discover ethernet ≡ ok d)
    × IsOffer discover server_ip 2 d
answer_dhcp-IsOffer_example =
    answer_dhcp-IsOffer 80 (λ m. found spec) discover_bytes discover ethernet (server_ip ∷ [])
      server_ip machine 2 spec (omega arith) discover_read wants_boot valid refl refl best_ip
      server_ip_bytes

abbrev setup : Setup
setup = record { http_port = 80; if_index = 0; interfaces = λ i. some ethernet; key = λ mac. 7 }

-- A frame that is too short, and then a discover.
abbrev noise : Turn
noise = record { incoming = frame (1 ∷ 2 ∷ []) 2; boot_spec = λ m. found spec; now = 5 }

abbrev boot : Turn
boot = record { incoming = frame discover_bytes 2; boot_spec = λ m. found spec; now = 6 }

source_is_ip : (intf : Interface) → some ethernet ≡ some intf → source_ip intf ≡ ok server_ip
unfolding source_ip
source_is_ip intf h = subst (λ o. source_of o ≡ ok server_ip) h (rw best_ip refl)
  where
    source_of : Option Interface → Result ServeError Bytes
    source_of none = ok server_ip
    source_of (some i) = source_ip i

bytes_of_setup :
    (i : ℕ) (intf : Interface) (ip : Bytes)
    → some ethernet ≡ some intf
    → source_ip intf ≡ ok ip
    → All IsByte ip
bytes_of_setup i intf ip known found_ip =
    subst (All IsByte) (ok-injective (sym (source_is_ip intf known) ∙ found_ip)) server_ip_bytes

serve_dhcp-Sends_example :
    Sends setup (noise ∷ boot ∷ []) (serve_dhcp setup (noise ∷ boot ∷ []) []).sent
serve_dhcp-Sends_example =
    serve_dhcp-Sends setup (omega arith) bytes_of_setup (noise ∷ boot ∷ []) []

empty-IsShort : IsShort []
unfolding events_of lookup
empty-IsShort k = omega arith

serve_dhcp-IsShort_example : IsShort (serve_dhcp setup (noise ∷ boot ∷ []) []).log
serve_dhcp-IsShort_example = serve_dhcp-IsShort setup (noise ∷ boot ∷ []) [] empty-IsShort

-- The discover in a UDP packet, and a packet that is too short for a header.
serve_dhcp-on_wire_example :
    (serve_dhcp setup
      (map (on_wire setup) (
        (2, 0 ∷ 68 ∷ 0 ∷ 67 ∷ 1 ∷ 0 ∷ 0 ∷ 0 ∷ discover_bytes, boot) ∷ (2, 0 ∷ 68 ∷ [], noise) ∷ []))
      []).returned
    ≡ true
serve_dhcp-on_wire_example =
    serve_dhcp-on_wire setup
      ((2, 0 ∷ 68 ∷ 0 ∷ 67 ∷ 1 ∷ 0 ∷ 0 ∷ 0 ∷ discover_bytes, boot) ∷ (2, 0 ∷ 68 ∷ [], noise) ∷ [])
      [] ((ethernet, refl), ((ethernet, refl), tt))

noise_refused : unmarshal (1 ∷ 2 ∷ []) ≡ err too_short
unfolding unmarshal
noise_refused = refl

abbrev pxe_setup : PxeSetup
pxe_setup = record {
  ipxe = (2, 77 ∷ 90 ∷ []) ∷ [];
  interfaces = λ i. some ethernet;
  key = λ mac. 7;
}

valid_pxe : validate_pxe pxe_setup.ipxe discover ≡ ok 2
unfolding validate_pxe get_uint16 bytes lookup value check_guid
valid_pxe = refl

abbrev client_ip : Bytes
client_ip = 192 ∷ 168 ∷ 0 ∷ 9 ∷ []

send_pxe-IsAck_example :
    (bs : Bytes) × (pxe_request pxe_setup discover_bytes 2
      ≡ ok (record { packet = discover; server_ip = server_ip; fwtype = 2 }))
    × (send_pxe client_ip 68 2 (record { packet = discover; server_ip = server_ip; fwtype = 2 })
        ≡ ok (bs, record { ip = client_ip; port = 68; interface = 2 }))
    × IsAck discover server_ip 2 bs
send_pxe-IsAck_example =
    send_pxe-IsAck pxe_setup discover_bytes discover ethernet (server_ip ∷ []) server_ip client_ip
      68 2 2 discover_read valid_pxe refl refl best_ip server_ip_bytes
