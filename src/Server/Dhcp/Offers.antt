-- ===== src/Server/Dhcp/Offers.antt =====
-- What an offer says, and to whom: the machine that was found valid, and nobody else.
use netboot.Prelude.{
  ℕ, length, ◌≤◌, ◌≡◌, refl, ◌∙◌, true, false, some, [], ◌∷◌, Bytes, ◌==◌, Option-cases, inl, inr,
  arith,
}
use netboot.Prelude.Assoc.{lookup, insert, lookup-insert}
use netboot.Prelude.Result.{ok}
use netboot.Constants
use netboot.Dhcp4.Opt
use netboot.Dhcp4.MessageType
use netboot.Dhcp4.Packet.{Packet}
use netboot.Dhcp4.Options.{marshal_limited}
use netboot.Server.Dhcp.Valid.{validate-Valid}
use netboot.Server.Dhcp.{
  Machine, validate_dhcp, base_options, mirror_guid, base_offer, pxe_vendor_options, offer_dhcp,
  boot_path, is_efi, tftp_url, ipxe_url,
}
use netboot.Server.Strings.{ip_string}

-- An answer that goes back to the machine that asked: its transaction, address, relay and GUID.
pub record Answers (pkt : Packet) (server_ip : Bytes) (resp : Packet) : Type 0 where
  pub same_transaction : resp.transaction_id ≡ pkt.transaction_id
  pub same_hardware : resp.hardware_addr ≡ pkt.hardware_addr
  pub same_relay : resp.relay_addr ≡ pkt.relay_addr
  pub from_server : resp.server_addr ≡ server_ip
  pub identifies_server : lookup Opt.server_identifier resp.options ≡ some server_ip
  pub same_guid :
      lookup Opt.uid_guid_client_identifier resp.options
      ≡ lookup Opt.uid_guid_client_identifier pkt.options

-- The parts of an offer that do not depend on the firmware.
pub base-Answers :
    (pkt : Packet) (mach : Machine) (server_ip : Bytes)
    → mach.mac ≡ pkt.hardware_addr
    → Answers pkt server_ip (base_offer pkt mach server_ip)
unfolding base_offer base_options mirror_guid insert lookup
base-Answers pkt mach server_ip h =
    elim (Option-cases (lookup Opt.uid_guid_client_identifier pkt.options)) [
      | inl e ↦ record {
        same_transaction = refl;
        same_hardware = h;
        same_relay = refl;
        from_server = refl;
        identifies_server = rw (e, lookup);
        same_guid = rw (e, lookup);
      }
      | inr (g, e) ↦ record {
        same_transaction = refl;
        same_hardware = h;
        same_relay = refl;
        from_server = refl;
        identifies_server = rw (e, lookup);
        same_guid = rw (e, lookup);
      }
    ]

abbrev pub named : Packet → Bytes → Bytes → Packet
named resp name file = record resp { boot_server_name = name; boot_filename = file }

abbrev pub filled : Packet → Bytes → Bytes → Bytes → Packet
filled resp name file bs = record resp {
  boot_server_name = name;
  boot_filename = file;
  options = insert Opt.vendor_specific bs resp.options;
}

-- Names, paths and the vendor option may be added to an answer.
fill-Answers :
    (pkt resp : Packet) (server_ip name file bs : Bytes)
    → Answers pkt server_ip resp
    → Answers pkt server_ip (filled resp name file bs)
fill-Answers pkt resp server_ip name file bs a = record {
  same_transaction = a.same_transaction;
  same_hardware = a.same_hardware;
  same_relay = a.same_relay;
  from_server = a.from_server;
  identifies_server =
      lookup-insert Opt.vendor_specific Opt.server_identifier bs resp.options ∙ a.identifies_server;
  same_guid =
      lookup-insert Opt.vendor_specific Opt.uid_guid_client_identifier bs resp.options
      ∙ a.same_guid;
}

name-Answers :
    (pkt resp : Packet) (server_ip name file : Bytes)
    → Answers pkt server_ip resp
    → Answers pkt server_ip (named resp name file)
name-Answers pkt resp server_ip name file a = record {
  same_transaction = a.same_transaction;
  same_hardware = a.same_hardware;
  same_relay = a.same_relay;
  from_server = a.from_server;
  identifies_server = a.identifies_server;
  same_guid = a.same_guid;
}

pub vendor_ok : (bs : Bytes) × (pxe_vendor_options ≡ ok bs) × (length bs ≤ 255)
unfolding pxe_vendor_options marshal_limited lookup
vendor_ok = (6 ∷ 1 ∷ 8 ∷ 255 ∷ [], refl, omega arith)

efi_tests :
    (f : ℕ)
    → is_efi f ≡ true
    → ((f == Constants.firmware_x86_pc) ≡ false) × ((f == Constants.firmware_x86_ipxe) ≡ false)
efi_tests f h = (ground arith, ground arith)

pub efi_offer :
    (http_port : ℕ) (pkt : Packet) (mach : Machine) (server_ip : Bytes) (fwtype : ℕ)
    → is_efi fwtype ≡ true
    → offer_dhcp http_port pkt mach server_ip fwtype
      ≡ ok (named (base_offer pkt mach server_ip) (ip_string server_ip) (boot_path mach.mac fwtype))
unfolding offer_dhcp
efi_offer http_port pkt mach server_ip fwtype h =
    let (pc, ipxe) = efi_tests fwtype h in rw (pc, ipxe, h)

-- Every packet that `validate_dhcp` accepts gets an offer, which answers that packet: no firmware
-- kind it reports is unknown to `offer_dhcp`.
pub validate_dhcp-offer_dhcp :
    (http_port : ℕ) (pkt : Packet) (mach : Machine) (server_ip : Bytes) (fwtype : ℕ)
    → validate_dhcp pkt ≡ ok (mach, fwtype)
    → (resp : Packet) × (offer_dhcp http_port pkt mach server_ip fwtype ≡ ok resp)
      × ((resp.type ≡ MessageType.offer) × (resp.broadcast ≡ true))
      × Answers pkt server_ip resp
unfolding offer_dhcp base_offer
validate_dhcp-offer_dhcp http_port pkt mach server_ip fwtype h =
    let v = validate-Valid pkt mach fwtype h in
    let base = base_offer pkt mach server_ip in
    let a = base-Answers pkt mach server_ip v.same_mac in
    let (bs, vendor, fits) = vendor_ok in
    let ip = ip_string server_ip in
    let path = boot_path mach.mac fwtype in
    elim v.firmware [
      | inl e ↦ (
        filled base ip path bs,
        rw (e, vendor),
        (refl, refl),
        fill-Answers pkt base server_ip ip path bs a,
      )
      | inr (inl e) ↦
          let url = tftp_url server_ip mach.mac fwtype in
          (
            filled base [] url bs,
            rw (e, vendor),
            (refl, refl),
            fill-Answers pkt base server_ip [] url bs a,
          )
      | inr (inr (inl e)) ↦ (
        named base ip path,
        efi_offer http_port pkt mach server_ip fwtype e,
        (refl, refl),
        name-Answers pkt base server_ip ip path a,
      )
      | inr (inr (inr e)) ↦
          let url = ipxe_url server_ip http_port mach in
          (named base [] url, rw e, (refl, refl), name-Answers pkt base server_ip [] url a)
    ]
