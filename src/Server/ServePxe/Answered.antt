-- ===== src/Server/ServePxe/Answered.antt =====
-- What servePXE answers.
use netboot.Prelude.{ℕ, ◌<◌, arith, ◌≡◌, refl, ◌∙◌, some, List, Bytes, All, take, true}
use netboot.Prelude.Assoc.{Assoc}
use netboot.Prelude.Result.{ok}
use netboot.Dhcp4.MessageType
use netboot.Dhcp4.Options.WellFormed.{IsByte}
use netboot.Dhcp4.Packet.{Packet, bootp_op, unmarshal}
use netboot.Dhcp4.Packet.Sizes.{Sizes, unmarshal-Sizes}
use netboot.Dhcp4.Packet.Unset.{zeroed}
use netboot.Dhcp4.Packet.Parts.{IsSendable}
use netboot.Dhcp4.Conn.{Interface}
use netboot.Server.Strings.Width.{FitsIn-weaken, IsIpv4, ip_string-FitsIn}
use netboot.Server.Dhcp.{boot_path, is_efi}
use netboot.Server.Dhcp.Offers.{Answers}
use netboot.Server.Dhcp.Sendable.{base_options-IsPlain, zeroed-IsSendable}
use netboot.Server.Dhcp.Wire.{boot_path-FitsIn, marshal-Answers}
use netboot.Server.Interface.{interface_ip}
use netboot.Server.Interface.Width.{interface_ip-length}
use netboot.Server.Pxe.{validate_pxe, offer_pxe}
use netboot.Server.Pxe.Answers.{validate_pxe-offer_pxe, validate_pxe-guid}
use netboot.Server.Serve.{source_ip, or_error}
use netboot.Server.ServePxe.{PxeSetup, buffer_size, pxe_request, send_pxe}

offer_pxe-IsSendable :
    (pkt : Packet) (server_ip : Bytes) (fwtype : ℕ) (ipxe : Assoc Bytes)
    → Sizes pkt
    → IsIpv4 server_ip
    → validate_pxe ipxe pkt ≡ ok fwtype
    → IsSendable (zeroed (offer_pxe pkt server_ip fwtype)) 2
unfolding offer_pxe bootp_op
offer_pxe-IsSendable pkt server_ip fwtype ipxe sizes v4 valid =
    let (efi, there, a) = validate_pxe-offer_pxe ipxe pkt server_ip fwtype valid in
    zeroed-IsSendable (offer_pxe pkt server_ip fwtype) 2 (sizes.id_size, sizes.hardware_size)
      (v4.0, sizes.relay_size) refl
      (base_options-IsPlain pkt server_ip v4.0 (validate_pxe-guid ipxe pkt fwtype valid))
      (FitsIn-weaken 15 63 _ (omega arith) (ip_string-FitsIn server_ip v4))
      (FitsIn-weaken 19 127 _ (omega arith)
        (boot_path-FitsIn pkt.hardware_addr fwtype sizes.hardware_size (small efi)))
  where
    small : is_efi fwtype ≡ true → fwtype < 10
    small h = ground arith

-- A datagram that its reader takes for an acknowledgement in answer to `pkt`, naming the boot
-- program of the firmware.
pub record IsAck (pkt : Packet) (server_ip : Bytes) (fwtype : ℕ) (bs : Bytes) : Type 0 where
  pub ack : Packet
  pub read : unmarshal bs ≡ ok ack
  pub is_ack : ack.type ≡ MessageType.ack
  pub answers : Answers pkt server_ip ack
  pub names_program : ack.boot_filename ≡ boot_path pkt.hardware_addr fwtype

-- On the PXE port every packet with a valid firmware number and GUID is answered, of whatever
-- message type it is, when the server has the boot program and the interface an IPv4 address. The
-- reply goes back to the sender, who reads it as an acknowledgement that names the boot program.
pub send_pxe-IsAck :
    (s : PxeSetup) (b : Bytes) (pkt : Packet) (intf : Interface) (addrs : List Bytes)
    (server_ip ip : Bytes) (port index fwtype : ℕ)
    → unmarshal (take buffer_size b) ≡ ok pkt
    → validate_pxe s.ipxe pkt ≡ ok fwtype
    → s.interfaces index ≡ some intf
    → intf.addresses ≡ some addrs
    → interface_ip addrs ≡ some server_ip
    → All IsByte server_ip
    → (bs : Bytes) × (pxe_request s b index
        ≡ ok (record { packet = pkt; server_ip = server_ip; fwtype = fwtype }))
      × (send_pxe ip port index (record { packet = pkt; server_ip = server_ip; fwtype = fwtype })
          ≡ ok (bs, record { ip = ip; port = port; interface = index }))
      × IsAck pkt server_ip fwtype bs
send_pxe-IsAck s b pkt intf addrs server_ip ip port index fwtype read valid known addresses best
      bytes =
    let four = interface_ip-length addrs server_ip best in
    let (efi, there, a) = validate_pxe-offer_pxe s.ipxe pkt server_ip fwtype valid in
    let sendable =
      offer_pxe-IsSendable pkt server_ip fwtype s.ipxe (unmarshal-Sizes _ pkt read) (four, bytes)
        valid in
    let (bs, r, written, back, (type, file), good) =
      marshal-Answers pkt (offer_pxe pkt server_ip fwtype) server_ip 2 four a sendable in
    (
      bs,
      unfold pxe_request source_ip or_error in rw (read, valid, known, addresses, best),
      unfold send_pxe in rw written,
      record {
        ack = r;
        read = back;
        is_ack = type ∙ unfold offer_pxe in refl;
        answers = good;
        names_program = file ∙ unfold offer_pxe in refl;
      },
    )
