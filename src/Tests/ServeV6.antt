-- ===== src/Tests/ServeV6.antt =====
-- Runs for the loop of the DHCPv6 service.
use netboot.Prelude.{
  ℕ, ◌≡◌, refl, true, false, Option, none, some, List, [], ◌∷◌, ◌++◌, Bytes, length, replicate, All,
  arith,
}
use netboot.Prelude.Result.{ok}
use netboot.Net.Interfaces.{NetInterface, ip_net, other_addr, IsFirst}
use netboot.Dhcp4.Conn.{Interface, frame, skip, recv_round}
use netboot.Dhcp4.Conn.Open as Open4
use netboot.Dhcp4.Conn.Open.{is_zero_v4, is_net_of}
use netboot.Dhcp4.Conn.Open.Bound.{new_conn-IsFirst}
use netboot.Server.ServeV6.Replies.{IsAnswer, serve_dhcpv6-IsAnswer}
use netboot.Prelude.Assoc.{lookup, has_key}
use netboot.Net.{is_multicast, to4, equal}
use netboot.Dhcp6.Slice.{Slice, returned, failed, panicked, sub}
use netboot.Dhcp6.Options.{
  Options, short_payload, unmarshal_options, requested_options, has_boot_file_url,
}
use netboot.Dhcp6.Packet.{Packet, no_boot_file_url, unmarshal, should_discard}
use netboot.Dhcp6.Pool.{Pool, new_pool}
use netboot.Dhcp6.Readable.{human_readable}
use netboot.Dhcp6.Conn as V6
use netboot.Dhcp6.Conn.{datagram}
use netboot.Dhcp6.Options.{client_arch_type, ia_na_ids}
use netboot.Dhcp6.Pool.{reserve_addresses}
use netboot.Dhcp6.Builder.{extract_ll_address_or_id, make_msg_advertise}
use netboot.Dhcp6.Builder.Respond.{build_response}
use netboot.Server.ServeV6.{SetupV6, TurnV6, returns_error, answer_v6, serve_dhcpv6}
use netboot.Server.ServeV6.Stops.{serve_dhcpv6-malformed, serve_dhcpv6-discarded}

-- ff02::1:2
abbrev group : Bytes
group = 255 ∷ 2 ∷ (replicate 11 0 ++ (1 ∷ 0 ∷ 2 ∷ []))

group_multicast : is_multicast group ≡ true
unfolding is_multicast to4 equal
group_multicast = refl

abbrev setup : SetupV6
setup = record {
  duid = 0 ∷ 1 ∷ [];
  boot_config = record {
    get_boot_url = λ id arch. some [];
    get_preference = none;
    get_recursive_dns = [];
  };
  builder = record { preferred_lifetime = 1800; valid_lifetime = 1850 };
  if_index = 2;
  group = group;
  hash = λ client interface. 0;
  id_hash = λ id. 0;
}

-- A packet with an option that is longer than the packet, and one without an Option Request.
abbrev cut_off : Slice
cut_off = record { visible = 1 ∷ 4 ∷ 5 ∷ 6 ∷ 0 ∷ 1 ∷ 0 ∷ 9 ∷ 5 ∷ []; spare = [] }

abbrev bare : Slice
bare = record { visible = 1 ∷ 4 ∷ 5 ∷ 6 ∷ []; spare = [] }

abbrev turn : Slice → TurnV6
turn b = record {
  arrival = datagram b (length b.visible) 2 group (7 ∷ []);
  clock = λ i. 5;
  draws = [];
}

abbrev pool : Pool
pool = new_pool 100 4 60

cut_off_fails : unmarshal cut_off 9 ≡ failed (short_payload 1 9 1)
unfolding unmarshal unmarshal_options sub
cut_off_fails = refl

serve_dhcpv6-malformed_example :
    serve_dhcpv6 setup (turn cut_off ∷ turn bare ∷ []) pool
    ≡ record { sent = []; pool = pool; ending = returns_error }
serve_dhcpv6-malformed_example =
    serve_dhcpv6-malformed setup (turn cut_off) (turn bare ∷ []) pool cut_off 9 (7 ∷ [])
      group_multicast refl (short_payload 1 9 1) cut_off_fails

abbrev bare_packet : Packet
bare_packet = record { type = 1; transaction_id = 4 ∷ 5 ∷ 6 ∷ []; options = [] }

bare_read : unmarshal bare 4 ≡ returned bare_packet
unfolding unmarshal unmarshal_options sub
bare_read = refl

bare_refused : should_discard bare_packet setup.duid ≡ returned (some no_boot_file_url)
unfolding should_discard has_boot_file_url requested_options lookup has_key
bare_refused = refl

serve_dhcpv6-discarded_example :
    serve_dhcpv6 setup (turn bare ∷ turn cut_off ∷ []) pool
    ≡ serve_dhcpv6 setup (turn cut_off ∷ []) pool
serve_dhcpv6-discarded_example =
    serve_dhcpv6-discarded setup (turn bare) (turn cut_off ∷ []) pool bare 4 (7 ∷ [])
      group_multicast refl bare_packet no_boot_file_url bare_read bare_refused

-- An IA_NA option of 16 bytes whose inner option says that it has 100, with the rest of the buffer
-- behind it.
abbrev bad_ia : Options
bad_ia =
    (
      3,
      record {
        id = 3;
        length = 16;
        value = record {
          visible = replicate 12 0 ++ (0 ∷ 99 ∷ 0 ∷ 100 ∷ []);
          spare = replicate 200 0;
        };
      }
          ∷ [],
    )
    ∷ []

bad_ia_panics : human_readable bad_ia ≡ panicked
unfolding human_readable sub
bad_ia_panics = refl

-- A Solicit with a client identifier that asks for a boot URL.
abbrev solicit : Slice
solicit = record {
  visible =
      1 ∷ 4 ∷ 5 ∷ 6 ∷ 0 ∷ 1 ∷ 0 ∷ 10 ∷ 0 ∷ 3 ∷ 0 ∷ 1 ∷ 2 ∷ 0 ∷ 0 ∷ 0 ∷ 0 ∷ 7 ∷ 0 ∷ 6 ∷ 0 ∷ 2 ∷ 0
      ∷ 59 ∷ [];
  spare = [];
}

solicit_answered : length (serve_dhcpv6 setup (turn bare ∷ turn solicit ∷ []) pool).sent ≡ 1
unfolding serve_dhcpv6 V6.recv_round is_multicast to4 equal unmarshal sub unmarshal_options
    answer_v6 should_discard has_boot_file_url requested_options lookup has_key human_readable
    build_response extract_ll_address_or_id client_arch_type ia_na_ids reserve_addresses
    make_msg_advertise
solicit_answered = refl

serve_dhcpv6-IsAnswer_example :
    All
      (IsAnswer setup (turn bare ∷ turn solicit ∷ []))
      (serve_dhcpv6 setup (turn bare ∷ turn solicit ∷ []) pool).sent
serve_dhcpv6-IsAnswer_example = serve_dhcpv6-IsAnswer setup (turn bare ∷ turn solicit ∷ []) pool

abbrev interfaces : List NetInterface
interfaces =
    record { index = 1; hardware_addr = []; addrs = some (ip_net (127 ∷ 0 ∷ 0 ∷ 1 ∷ []) ∷ []) }
    ∷ record {
      index = 2;
      hardware_addr = 2 ∷ 0 ∷ 0 ∷ 0 ∷ 0 ∷ 7 ∷ [];
      addrs = some (other_addr ∷ ip_net (10 ∷ 0 ∷ 0 ∷ 1 ∷ []) ∷ []);
    }
    ∷ []

abbrev resolve : Bytes → Option (Bytes × ℕ)
resolve addr = some (10 ∷ 0 ∷ 0 ∷ 1 ∷ [], 67)

abbrev no_index : ℕ → Option Interface
no_index i = none

conn_opened :
    Open4.new_conn resolve (some interfaces) (λ port. true) (b'x' ∷ [])
    ≡ ok (record { port = 67; if_index = 2 })
unfolding Open4.new_conn equal
conn_opened = refl

not_zero : is_zero_v4 (to4 (10 ∷ 0 ∷ 0 ∷ 1 ∷ [])) ≡ false
unfolding is_zero_v4 to4 equal
not_zero = refl

new_conn-IsFirst_example :
    ((intf : NetInterface) × IsFirst (is_net_of (10 ∷ 0 ∷ 0 ∷ 1 ∷ [])) interfaces intf
      × (intf.index ≡ 2))
    × ◌≡◌ {A = ℕ} 67 67
    × (recv_round 2 no_index (frame [] 1) ≡ skip)
new_conn-IsFirst_example =
    new_conn-IsFirst resolve interfaces (λ port. true) b'x' [] (10 ∷ 0 ∷ 0 ∷ 1 ∷ []) 67
      (record { port = 67; if_index = 2 }) no_index [] 1 refl not_zero conn_opened
      (λ e. omega arith) (λ e. omega arith)
