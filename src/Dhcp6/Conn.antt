-- ===== src/Dhcp6/Conn.antt =====
-- dhcp6/conn.go: which datagrams become packets.
pub mod Open
use netboot.Prelude.{ℕ, ◌&&◌, ◌||◌, not, Bytes, ◌==◌, if◌then◌else◌}
use netboot.Net.{equal, is_multicast}
use netboot.Dhcp6.Slice.{Outcome, returned, failed, panicked, Slice}
use netboot.Dhcp6.Options.{OptionsError}
use netboot.Dhcp6.Packet.{Packet, unmarshal}

abbrev pub dhcpv6_client_port : ℕ
dhcpv6_client_port = 546

-- What c.conn.ReadFrom answers: the buffer of 1500 bytes after the call, how many bytes it has
-- read, the index of the interface, and the addresses that it came to and from; or an error.
pub data Arrival : Type 0 where
  datagram : Slice → ℕ → ℕ → Bytes → Bytes → Arrival
  broken : Arrival

-- What a round of the loop of RecvDHCP does: go on, return an error, panic, or return a packet with
-- its sender.
pub data Round : Type 0 where
  skip stop crash : Round
  got : Packet → Bytes → Round

unfoldable pub read_packet : Bytes → Outcome OptionsError Packet → Round
read_packet src (returned pkt) = got pkt src
read_packet src (failed e) = stop
read_packet src panicked = crash

-- A round; `if_index` is that of the interface listened on, `group` the multicast group joined.
unfoldable pub recv_round : ℕ → Bytes → Arrival → Round
unfolding read_packet is_multicast equal
recv_round if_index group broken = stop
recv_round if_index group (datagram b n index dst src) =
    if not (if_index == 0) && not (index == if_index)
    then skip
    else if not (is_multicast dst) || not (equal dst group)
    then skip
    else read_packet src (unmarshal b n)
