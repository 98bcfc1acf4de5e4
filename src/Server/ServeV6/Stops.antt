-- ===== src/Server/ServeV6/Stops.antt =====
-- What a single packet does to the loop of the DHCPv6 service.
use netboot.Prelude.{ℕ, ◌≡◌, refl, true, false, some, List, [], ◌∷◌, Bytes, not, ◌&&◌, ◌==◌, arith}
use netboot.Net.{equal_refl, is_multicast}
use netboot.Dhcp6.Slice.{returned, failed, Slice}
use netboot.Dhcp6.Options.{OptionsError}
use netboot.Dhcp6.Packet.{Packet, DiscardReason, unmarshal, should_discard}
use netboot.Dhcp6.Pool.{Pool}
use netboot.Dhcp6.Conn.{datagram, recv_round, read_packet}
use netboot.Server.ServeV6.{
  SetupV6, TurnV6, returns_error, answer_v6, respond, go_on, add_sent, serve_round, serve_dhcpv6,
}

-- A datagram to the group on the interface is read.
heard :
    (if_index : ℕ) (group : Bytes) (b : Slice) (n : ℕ) (src : Bytes)
    → is_multicast group ≡ true
    → recv_round if_index group (datagram b n if_index group src) ≡ read_packet src (unmarshal b n)
unfolding recv_round
heard if_index group b n src multi =
    let same : (if_index == if_index) ≡ true = ground arith in
    let own : (not (if_index == 0) && not (if_index == if_index)) ≡ false = ground arith in
    rw (own, multi, equal_refl group)

module _ (s : SetupV6) (t : TurnV6) (ts : List TurnV6) (pool : Pool) (b : Slice) (n : ℕ)
    (src : Bytes) (multi : is_multicast s.group ≡ true)
    (came : t.arrival ≡ datagram b n s.if_index s.group src) where
  -- A datagram to the multicast group whose options cannot be parsed ends the service with an
  -- error: nothing is sent for it, and none of the packets that come after it is answered.
  pub serve_dhcpv6-malformed :
      (e : OptionsError)
      → unmarshal b n ≡ failed e
      → serve_dhcpv6 s (t ∷ ts) pool ≡ record { sent = []; pool = pool; ending = returns_error }
  unfolding serve_dhcpv6 serve_round
  serve_dhcpv6-malformed e bad =
      rw (came, heard s.if_index s.group b n src multi, bad) (unfold read_packet in refl)

  -- A packet that ShouldDiscard refuses leaves no trace: the run goes on as if it had not come in.
  pub serve_dhcpv6-discarded :
      (pkt : Packet) (reason : DiscardReason)
      → unmarshal b n ≡ returned pkt
      → should_discard pkt s.duid ≡ returned (some reason)
      → serve_dhcpv6 s (t ∷ ts) pool ≡ serve_dhcpv6 s ts pool
  unfolding serve_dhcpv6 serve_round
  serve_dhcpv6-discarded pkt reason read refused =
      rw (came, heard s.if_index s.group b n src multi, read)
        (unfold read_packet in
          unfold answer_v6 in rw refused (unfold respond go_on add_sent in refl))
