-- ===== src/Server/Serve/Answered.antt =====
-- What serveDHCP answers to a boot request, as the client reads it.
use netboot.Prelude.{
  ℕ, ◌<◌, ◌≡◌, sym, ap, ◌∙◌, true, ◌||◌, ◌≢◌, some, List, [], Bytes, All, ◌⊎◌, inl, inr, arith,
}
use mathlib.Core.Path.{subst}
use netboot.Prelude.Result.{ok, ok-injective}
use netboot.Net.{ipv4_bcast, is_global_unicast, is_loopback, to4, equal}
use netboot.Dhcp4.MessageType
use netboot.Dhcp4.Options.WellFormed.{IsByte}
use netboot.Dhcp4.Packet.{Packet, tx_type, marshal, unmarshal}
use netboot.Dhcp4.Packet.Sizes.{unmarshal-Sizes}
use netboot.Dhcp4.Packet.Unset.{zeroed}
use netboot.Dhcp4.Packet.Parts.{IsSendable}
use netboot.Dhcp4.Conn.{
  Destination, Interface, destination, send_dhcp, dhcp_client_port, dhcp_server_port,
}
use netboot.Server.Booter.{Spec, BootAnswer, found}
use netboot.Server.Dhcp.{Machine, is_boot_dhcp, validate_dhcp, offer_dhcp}
use netboot.Server.Dhcp.Valid.{validate-Valid}
use netboot.Server.Dhcp.Offers.{Answers, validate_dhcp-offer_dhcp}
use netboot.Server.Dhcp.Wire.{offer-IsSendable, marshal-Answers}
use netboot.Server.Interface.{interface_ip}
use netboot.Server.Interface.Width.{interface_ip-length}
use netboot.Dhcp4.Conn.Destinations.{IsReplyPlace, destination-IsReplyPlace}
use netboot.Server.Serve.{boot_request, known_spec, source_ip, send_offer, answer_dhcp}

-- The places that offers go to: the relay, if it has a global address, or everybody.
abbrev pub Place : Bytes → ℕ → Destination → Type 0
Place relay index d =
    ((is_global_unicast relay ≡ true)
      × (d ≡ record { ip = relay; port = dhcp_server_port; interface = 0 }))
    ⊎ (d ≡ record { ip = ipv4_bcast; port = dhcp_client_port; interface = index })

-- A datagram that the client reads as an offer in answer to `pkt`. It goes to the relay of `pkt`, or
-- to everybody on the interface `index`.
pub record IsOffer (pkt : Packet) (server_ip : Bytes) (index : ℕ) (d : Bytes × Destination)
    : Type 0 where
  pub offer : Packet
  pub read : unmarshal d.0 ≡ ok offer
  pub is_offer : offer.type ≡ MessageType.offer
  pub answers : Answers pkt server_ip offer
  pub place : Place pkt.relay_addr index d.1

nil_unreachable : (is_global_unicast [] || is_loopback []) ≢ true
unfolding is_global_unicast is_loopback to4 equal
nil_unreachable e = cc

-- Where an offer goes.
offer-Place :
    (resp : Packet) (index : ℕ)
    → resp.client_addr ≡ []
    → resp.type ≡ MessageType.offer
    → Place resp.relay_addr index (destination resp index (tx_type resp))
unfolding IsReplyPlace
offer-Place resp index no_client is_offer =
    elim (destination-IsReplyPlace resp index (λ e. omega (arith, is_offer))) [
      | inl relayed ↦ inl relayed
      | inr (inl (t, e)) ↦ absurd (nil_unreachable (rw (← no_client) t))
      | inr (inr e) ↦ inr e
    ]

-- The steps to an answer, one after the other.
answer_steps :
    (http_port : ℕ) (boot_spec : Machine → BootAnswer) (pkt resp : Packet) (intf : Interface)
    (addrs : List Bytes) (ip bs : Bytes) (mach : Machine) (fwtype : ℕ) (spec : Spec)
    → is_boot_dhcp pkt ≡ ok tt
    → validate_dhcp pkt ≡ ok (mach, fwtype)
    → boot_spec mach ≡ found spec
    → intf.addresses ≡ some addrs
    → interface_ip addrs ≡ some ip
    → offer_dhcp http_port pkt mach ip fwtype ≡ ok resp
    → marshal resp ≡ ok bs
    → answer_dhcp http_port boot_spec pkt intf ≡ ok (bs, destination resp intf.index (tx_type resp))
unfolding answer_dhcp boot_request known_spec send_offer source_ip send_dhcp
answer_steps http_port boot_spec pkt resp intf addrs ip bs mach fwtype spec boot valid there
      addresses best made written =
    rw (boot, valid, there, addresses, best, made, written)

-- A packet that isBootDHCP and validateDHCP accept gets an offer, if the booter has a spec for its
-- machine, interfaceIP finds an address made of bytes and the HTTP port has 16 bits. What is sent is
-- read as an offer that answers the packet, and goes to the packet's relay or to everybody.
pub answer_dhcp-IsOffer :
    (http_port : ℕ) (boot_spec : Machine → BootAnswer) (b : Bytes) (pkt : Packet) (intf : Interface)
    (addrs : List Bytes) (ip : Bytes) (mach : Machine) (fwtype : ℕ) (spec : Spec)
    → http_port < 65536
    → unmarshal b ≡ ok pkt
    → is_boot_dhcp pkt ≡ ok tt
    → validate_dhcp pkt ≡ ok (mach, fwtype)
    → boot_spec mach ≡ found spec
    → intf.addresses ≡ some addrs
    → interface_ip addrs ≡ some ip
    → All IsByte ip
    → (d : Bytes × Destination) × (answer_dhcp http_port boot_spec pkt intf ≡ ok d)
      × IsOffer pkt ip intf.index d
answer_dhcp-IsOffer http_port boot_spec b pkt intf addrs ip mach fwtype spec port read boot valid
      there addresses best bytes =
    let four = interface_ip-length addrs ip best in
    let (resp, made, (offers, broadcasts), answers) =
      validate_dhcp-offer_dhcp http_port pkt mach ip fwtype valid in
    let (resp', made', no_client, sendable) =
      offer-IsSendable pkt mach ip (unmarshal-Sizes b pkt read) (four, bytes) fwtype
        (validate-Valid pkt mach fwtype valid) http_port port in
    let same : resp' ≡ resp = ok-injective (sym made' ∙ made) in
    let (bs, r, written, back, (type, file), good) =
      marshal-Answers pkt resp ip 2 four answers
        (subst (λ p. IsSendable (zeroed p) 2) same sendable) in
    let place =
      offer-Place resp intf.index (ap (λ p. p.client_addr) (sym same) ∙ no_client) offers in
    (
      (bs, destination resp intf.index (tx_type resp)),
      answer_steps http_port boot_spec pkt resp intf addrs ip bs mach fwtype spec boot valid there
          addresses best made written,
      record {
        offer = r;
        read = back;
        is_offer = type ∙ offers;
        answers = good;
        place =
            subst (λ a. Place a intf.index (destination resp intf.index (tx_type resp)))
              answers.same_relay place;
      },
    )
