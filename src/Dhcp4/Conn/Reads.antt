-- ===== src/Dhcp4/Conn/Reads.antt =====
-- What RecvDHCP of dhcp4/conn.go returns is a packet that came in.
use netboot.Prelude.{
  ℕ, ◌≡◌, ◌≢◌, refl, Option, none, some, Bytes, not, ◌&&◌, ◌==◌, ◌⊎◌, inl, inr, if_ind,
}
use netboot.Prelude.Result.{Result, ok, err}
use netboot.Dhcp4.Packet.{Packet, PacketError, unmarshal}
use netboot.Dhcp4.Conn.{
  Interface, Incoming, frame, broken, Round, skip, stop, got, found_interface, read_packet,
  recv_round,
}

-- `pkt` is the content of `inc`, a frame that came in on the interface `intf`.
pub record IsRead (interfaces : ℕ → Option Interface) (inc : Incoming) (pkt : Packet)
    (intf : Interface) : Type 0 where
  pub bytes : Bytes
  pub index : ℕ
  pub is_frame : inc ≡ frame bytes index
  pub content : unmarshal bytes ≡ ok pkt
  pub at : interfaces index ≡ some intf

abbrev packet_of : Packet → Round → Packet
packet_of d skip = d
packet_of d stop = d
packet_of d (got pkt intf) = pkt

abbrev interface_of : Interface → Round → Interface
interface_of d skip = d
interface_of d stop = d
interface_of d (got pkt intf) = intf

read_packet-got :
    (o : Option Interface) (r : Result PacketError Packet) (pkt : Packet) (intf : Interface)
    → read_packet o r ≡ got pkt intf
    → (r ≡ ok pkt) × (o ≡ some intf)
unfolding read_packet found_interface
read_packet-got o (err e) pkt intf h = absurd (cc)
read_packet-got none (ok p) pkt intf h = absurd (cc)
read_packet-got (some i) (ok p) pkt intf h = (cc, cc)

pub recv_round-IsRead :
    (if_index : ℕ) (interfaces : ℕ → Option Interface) (inc : Incoming) (pkt : Packet)
    (intf : Interface)
    → recv_round if_index interfaces inc ≡ got pkt intf
    → IsRead interfaces inc pkt intf
unfolding recv_round
recv_round-IsRead if_index interfaces broken pkt intf h = absurd (cc)
recv_round-IsRead if_index interfaces (frame b i) pkt intf h =
    if_ind (λ r. r ≡ got pkt intf → IsRead interfaces (frame b i) pkt intf)
      (not (if_index == 0) && not (i == if_index)) skip (read_packet (interfaces i) (unmarshal b))
      (λ t e. absurd (cc))
      (λ f e.
        let (content, at) = read_packet-got (interfaces i) (unmarshal b) pkt intf e in
        record { bytes = b; index = i; is_frame = refl; content = content; at = at })
      h

-- A frame that is no DHCP packet is passed over.
pub recv_round-skip :
    (if_index : ℕ) (interfaces : ℕ → Option Interface) (b : Bytes) (i : ℕ) (e : PacketError)
    → unmarshal b ≡ err e
    → recv_round if_index interfaces (frame b i) ≡ skip
unfolding recv_round read_packet
recv_round-skip if_index interfaces b i e h =
    if_ind (λ r. r ≡ skip) (not (if_index == 0) && not (i == if_index)) skip
      (read_packet (interfaces i) (unmarshal b)) (λ t. refl) (λ f. rw h refl)

-- A frame on an interface that is known ends no call by an error.
pub recv_round-ne-stop :
    (if_index : ℕ) (interfaces : ℕ → Option Interface) (b : Bytes) (i : ℕ) (intf : Interface)
    → interfaces i ≡ some intf
    → recv_round if_index interfaces (frame b i) ≢ stop
unfolding recv_round
recv_round-ne-stop if_index interfaces b i intf h =
    if_ind (λ r. r ≢ stop) (not (if_index == 0) && not (i == if_index)) skip
      (read_packet (interfaces i) (unmarshal b)) (λ t e. cc) (λ f. rw h (go (unmarshal b)))
  where
    go : (r : Result PacketError Packet) → read_packet (some intf) r ≢ stop
    go (err e) x = unfold read_packet in cc
    go (ok pkt) x = unfold read_packet found_interface in cc

-- A packet is returned, or passed over for its interface.
pub recv_round-ok :
    (if_index : ℕ) (interfaces : ℕ → Option Interface) (b : Bytes) (i : ℕ) (intf : Interface)
    (pkt : Packet)
    → interfaces i ≡ some intf
    → unmarshal b ≡ ok pkt
    → (recv_round if_index interfaces (frame b i) ≡ skip)
      ⊎ (recv_round if_index interfaces (frame b i) ≡ got pkt intf)
unfolding recv_round read_packet found_interface
recv_round-ok if_index interfaces b i intf pkt known read =
    if_ind (λ r. (r ≡ skip) ⊎ (r ≡ got pkt intf)) (not (if_index == 0) && not (i == if_index)) skip
      (read_packet (interfaces i) (unmarshal b)) (λ t. inl refl) (λ f. inr (rw (known, read) refl))
