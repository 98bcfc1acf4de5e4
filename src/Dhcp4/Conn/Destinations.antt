-- ===== src/Dhcp4/Conn/Destinations.antt =====
-- Where SendDHCP of dhcp4/conn.go sends replies.
use netboot.Prelude.{
  ℕ, ◌≡◌, ◌≢◌, refl, Bool, true, false, ◌&&◌, ◌||◌, not, ◌==◌, if_ind, ==_iff, ◌⊎◌, inl, inr,
}
use netboot.Net.{ipv4_bcast, is_empty, is_global_unicast, is_loopback}
use netboot.Dhcp4.MessageType
use netboot.Dhcp4.Packet.{Packet, TxType, tx_type}
use netboot.Dhcp4.Conn.{Destination, destination, dhcp_client_port, dhcp_server_port}

-- The relay, if `pkt` names one with a global address; the client, if it has a global or a loopback
-- address; or everybody, on the interface `index`.
unfoldable pub IsReplyPlace : Packet → ℕ → Destination → Type 0
IsReplyPlace pkt index d =
    ((is_global_unicast pkt.relay_addr ≡ true)
      × (d ≡ record { ip = pkt.relay_addr; port = dhcp_server_port; interface = 0 }))
    ⊎ (((is_global_unicast pkt.client_addr || is_loopback pkt.client_addr) ≡ true)
        × (d ≡ record { ip = pkt.client_addr; port = dhcp_client_port; interface = 0 }))
    ⊎ (d ≡ record { ip = ipv4_bcast; port = dhcp_client_port; interface = index })

-- A packet that is no discover goes to one of three places: to port 67 of its relay, if that has a
-- global address; to port 68 of the client's own address, if that is a global or a loopback one; or to
-- everybody on port 68 of the interface that is given. It never goes to the port of the servers on a
-- broadcast address.
pub destination-IsReplyPlace :
    (pkt : Packet) (index : ℕ)
    → pkt.type ≢ MessageType.discover
    → IsReplyPlace pkt index (destination pkt index (tx_type pkt))
unfolding destination tx_type IsReplyPlace
destination-IsReplyPlace pkt index h =
    let global = is_global_unicast pkt.relay_addr in
    let direct = is_global_unicast pkt.client_addr || is_loopback pkt.client_addr in
    let everybody = inr (inr refl) in
    if_ind P (not (is_empty pkt.relay_addr) && global) _ _
      (λ t. inl (and_right (not (is_empty pkt.relay_addr)) global t, refl))
      (λ _.
        if_ind P (pkt.type == MessageType.nack) _ _ (λ _. everybody)
          (λ _.
            if_ind P (not (is_empty pkt.client_addr) && direct) _ _
              (λ t. inr (inl (and_right (not (is_empty pkt.client_addr)) direct t, refl)))
              (λ _.
                if_ind P (pkt.broadcast && pkt.type == MessageType.discover) _ _
                  (λ t. absurd (
                    h (
                      (==_iff pkt.type MessageType.discover).0
                        (and_right pkt.broadcast (pkt.type == MessageType.discover) t))))
                  (λ _. if_ind P pkt.broadcast _ _ (λ _. everybody) (λ _. everybody)))))
  where
    P : TxType → Type 0
    P t = IsReplyPlace pkt index (destination pkt index t)

    and_right : (a b : Bool) → (a && b) ≡ true → b ≡ true
    and_right true b e = e
    and_right false b e = cc
