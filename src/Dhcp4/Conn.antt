-- ===== src/Dhcp4/Conn.antt =====
-- dhcp4/conn.go and the framing of dhcp4/conn_linux.go: which received frames become packets, and
-- where a packet is sent.
pub mod Destinations
pub mod Open
pub mod Raw
pub mod Reads
use netboot.Prelude.{
  ℕ, Bool, true, false, ◌&&◌, not, Option, none, some, List, [], ◌∷◌, Bytes, ◌==◌, if◌then◌else◌,
}
use netboot.Prelude.Result.{Result, ok, err, ◌>>=◌, wrap}
use netboot.Net.{ipv4_bcast}
use netboot.Dhcp4.Packet.{
  Packet, PacketError, TxType, client_broadcast, server_broadcast, relay_addr, client_addr,
  hardware_addr, tx_type, marshal, unmarshal,
}

abbrev pub dhcp_client_port : ℕ
dhcp_client_port = 68

abbrev pub dhcp_server_port : ℕ
dhcp_server_port = 67

-- A net.UDPAddr and the index of the interface to send on, 0 for any.
pub record Destination : Type 0 where
  pub ip : Bytes
  pub port : ℕ
  pub interface : ℕ

-- The `switch` of SendDHCP; `index` is intf.Index.
unfoldable pub destination : Packet → ℕ → TxType → Destination
destination pkt index client_broadcast = record {
  ip = ipv4_bcast;
  port = dhcp_server_port;
  interface = index;
}
destination pkt index server_broadcast = record {
  ip = ipv4_bcast;
  port = dhcp_client_port;
  interface = index;
}
destination pkt index hardware_addr = record {
  ip = ipv4_bcast;
  port = dhcp_client_port;
  interface = index;
}
destination pkt index relay_addr = record {
  ip = pkt.relay_addr;
  port = dhcp_server_port;
  interface = 0;
}
destination pkt index client_addr = record {
  ip = pkt.client_addr;
  port = dhcp_client_port;
  interface = 0;
}

-- SendDHCP up to the call of conn.Send: the bytes and where they go.
unfoldable pub send_dhcp : Packet → ℕ → Result PacketError (Bytes × Destination)
unfolding marshal destination tx_type
send_dhcp pkt index = do b ← marshal pkt; ok (b, destination pkt index (tx_type pkt))

-- net.Interface, with what its Addrs answers (`none` is an error).
pub record Interface : Type 0 where
  pub index : ℕ
  pub addresses : Option (List Bytes)

-- What conn.Recv answers: a frame with the index of its interface, or an error.
pub data Incoming : Type 0 where
  frame : Bytes → ℕ → Incoming
  broken : Incoming

-- What a round of the loop of RecvDHCP does: go on, return an error, or return a packet.
pub data Round : Type 0 where
  skip stop : Round
  got : Packet → Interface → Round

found_interface : Packet → Option Interface → Round
found_interface pkt none = stop
found_interface pkt (some intf) = got pkt intf

read_packet : Option Interface → Result PacketError Packet → Round
unfolding found_interface
read_packet intf (err e) = skip
read_packet intf (ok pkt) = found_interface pkt intf

-- A round; `if_index` is the connection's and 0 for any, `interfaces` is net.InterfaceByIndex.
unfoldable pub recv_round : ℕ → (ℕ → Option Interface) → Incoming → Round
unfolding unmarshal read_packet
recv_round if_index interfaces broken = stop
recv_round if_index interfaces (frame b i) =
    if not (if_index == 0) && not (i == if_index)
    then skip
    else read_packet (interfaces i) (unmarshal b)
