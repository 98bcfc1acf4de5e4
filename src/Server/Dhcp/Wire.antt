-- ===== src/Server/Dhcp/Wire.antt =====
-- The offers of server/dhcp.go on the wire.
use netboot.Prelude.{ℕ, ◌≤◌, ◌<◌, ◌≡◌, refl, ◌∙◌, true, inl, inr, [], Bytes, length, arith}
use netboot.Prelude.Result.{ok}
use netboot.Prelude.Text.{literal}
use netboot.Dhcp4.Opt
use netboot.Dhcp4.Packet.{Packet, bootp_op, marshal, unmarshal}
use netboot.Dhcp4.Packet.Parts.{IsSendable}
use netboot.Dhcp4.Packet.Sizes.{Sizes}
use netboot.Dhcp4.Packet.Unset.{zeroed, marshal-zeroed}
use netboot.Dhcp4.Packet.RoundTrip.{unmarshal-marshal_packet}
use netboot.Strconv.{format_int}
use netboot.Server.Strings.{mac_string, ip_string}
use netboot.Server.Strings.Width.{
  FitsIn, FitsIn-weaken, literal-FitsIn, FitsIn-append, FitsIn-cons, format_int-FitsIn,
  mac_string-FitsIn, IsIpv4, ip_string-FitsIn,
}
use netboot.Server.Dhcp.{
  Machine, base_offer, base_options, offer_dhcp, boot_path, tftp_url, ipxe_url, is_efi,
}
use netboot.Server.Dhcp.Valid.{Valid}
use netboot.Server.Dhcp.Offers.{named, filled, vendor_ok, efi_offer, Answers}
use netboot.Server.Dhcp.Sendable.{IsPlain-insert, base_options-IsPlain, zeroed-IsSendable}

pub boot_path-FitsIn :
    (mac : Bytes) (fwtype : ℕ) → length mac ≡ 6 → fwtype < 10 → FitsIn 19 (boot_path mac fwtype)
unfolding boot_path
boot_path-FitsIn mac fwtype six small =
    FitsIn-append 17 2 (mac_string mac) _ (mac_string-FitsIn mac six)
      (FitsIn-cons b'/' 1 _ (λ e. omega arith) (format_int-FitsIn fwtype 0 (omega arith)))

tftp_url-FitsIn :
    (ip mac : Bytes) (fwtype : ℕ)
    → IsIpv4 ip
    → length mac ≡ 6
    → fwtype < 10
    → FitsIn 127 (tftp_url ip mac fwtype)
unfolding tftp_url
tftp_url-FitsIn ip mac fwtype v4 six small = FitsIn-weaken 42 127 _ (omega arith) (
    FitsIn-append 7 35 (literal "tftp://") _ (literal-FitsIn (literal "tftp://") refl) (
      FitsIn-append 15 20 (ip_string ip) _ (ip_string-FitsIn ip v4)
        (FitsIn-cons b'/' 19 _ (λ e. omega arith) (boot_path-FitsIn mac fwtype six small))))

ipxe_url-FitsIn :
    (ip : Bytes) (http_port : ℕ) (mach : Machine)
    → IsIpv4 ip
    → http_port < 65536
    → mach.arch < 10
    → length mach.mac ≡ 6
    → FitsIn 127 (ipxe_url ip http_port mach)
unfolding ipxe_url
ipxe_url-FitsIn ip http_port mach v4 port small six = FitsIn-weaken 64 127 _ (omega arith) (
    FitsIn-append 7 57 (literal "http://") _ (literal-FitsIn (literal "http://") refl) (
      FitsIn-append 15 42 (ip_string ip) _ (ip_string-FitsIn ip v4) (
        FitsIn-cons b':' 41 _ (λ e. omega arith)
          (FitsIn-append 5 36 (format_int http_port) _ (format_int-FitsIn http_port 4 (omega arith))
            (FitsIn-append 13 23 (literal "/_/ipxe?arch=") _
              (literal-FitsIn (literal "/_/ipxe?arch=") refl)
              (FitsIn-append 1 22 (format_int mach.arch) _
                (format_int-FitsIn mach.arch 0 (omega arith))
                (FitsIn-append 5 17 (literal "&mac=") _ (literal-FitsIn (literal "&mac=") refl)
                  (mac_string-FitsIn mach.mac six))))))))

module _ (pkt : Packet) (mach : Machine) (server_ip : Bytes) (sizes : Sizes pkt)
    (v4 : IsIpv4 server_ip) (fwtype : ℕ) (v : Valid pkt mach fwtype) where
  base : Packet
  base = base_offer pkt mach server_ip

  mac_six : length mach.mac ≡ 6
  mac_six = rw v.same_mac (sizes.hardware_size)

  -- An offer with any short texts.
  named-IsSendable :
      (name file : Bytes)
      → FitsIn 63 name
      → FitsIn 127 file
      → IsSendable (zeroed (named base name file)) 2
  unfolding base base_offer bootp_op
  named-IsSendable name file short_name short_file =
      zeroed-IsSendable (named base name file) 2 (sizes.id_size, mac_six) (v4.0, sizes.relay_size)
        refl (base_options-IsPlain pkt server_ip v4.0 v.guid_checked) short_name short_file

  filled-IsSendable :
      (name file bs : Bytes)
      → length bs ≤ 255
      → FitsIn 63 name
      → FitsIn 127 file
      → IsSendable (zeroed (filled base name file bs)) 2
  unfolding base base_offer bootp_op
  filled-IsSendable name file bs fits short_name short_file =
      zeroed-IsSendable (filled base name file bs) 2 (sizes.id_size, mac_six)
        (v4.0, sizes.relay_size) refl
        (IsPlain-insert Opt.vendor_specific bs (base_options pkt server_ip)
          (omega arith, omega arith, fits) refl refl
          (base_options-IsPlain pkt server_ip v4.0 v.guid_checked))
        short_name short_file

  ip_fits : FitsIn 63 (ip_string server_ip)
  ip_fits = FitsIn-weaken 15 63 _ (omega arith) (ip_string-FitsIn server_ip v4)

  none_fits : FitsIn 63 []
  none_fits = FitsIn-weaken 0 63 [] (omega arith) (literal-FitsIn [] refl)

  path_fits : fwtype < 10 → FitsIn 127 (boot_path mach.mac fwtype)
  path_fits h = FitsIn-weaken 19 127 _ (omega arith) (boot_path-FitsIn mach.mac fwtype mac_six h)

  pub offer-IsSendable :
      (http_port : ℕ)
      → http_port < 65536
      → (resp : Packet) × (offer_dhcp http_port pkt mach server_ip fwtype ≡ ok resp)
        × (resp.client_addr ≡ [])
        × IsSendable (zeroed resp) 2
  unfolding offer_dhcp base base_offer
  offer-IsSendable http_port port =
      let (bs, vendor, fits) = vendor_ok in
      elim v.firmware [
        | inl e ↦ (
          filled base (ip_string server_ip) (boot_path mach.mac fwtype) bs,
          rw (e, vendor),
          refl,
          filled-IsSendable _ _ bs fits ip_fits (path_fits (omega (arith, e))),
        )
        | inr (inl e) ↦ (
          filled base [] (tftp_url server_ip mach.mac fwtype) bs,
          rw (e, vendor),
          refl,
          filled-IsSendable _ _ bs fits none_fits
              (tftp_url-FitsIn server_ip mach.mac fwtype v4 mac_six (omega (arith, e))),
        )
        | inr (inr (inl e)) ↦ (
          named base (ip_string server_ip) (boot_path mach.mac fwtype),
          efi_offer http_port pkt mach server_ip fwtype e,
          refl,
          named-IsSendable _ _ ip_fits (path_fits (efi_small e)),
        )
        | inr (inr (inr e)) ↦ (
          named base [] (ipxe_url server_ip http_port mach),
          rw e,
          refl,
          named-IsSendable _ _ none_fits
              (ipxe_url-FitsIn server_ip http_port mach v4 port v.small_arch mac_six),
        )
      ]
    where
      efi_small : is_efi fwtype ≡ true → fwtype < 10
      efi_small h = ground arith

-- An answer that can be sent reaches a client as an answer: what it reads has the same texts and
-- the same options.
pub marshal-Answers :
    (pkt resp : Packet) (server_ip : Bytes) (op : ℕ)
    → length server_ip ≡ 4
    → Answers pkt server_ip resp
    → IsSendable (zeroed resp) op
    → (bs : Bytes) × (r : Packet) × (marshal resp ≡ ok bs)
      × (unmarshal bs ≡ ok r)
      × ((r.type ≡ resp.type) × (r.boot_filename ≡ resp.boot_filename))
      × Answers pkt server_ip r
marshal-Answers pkt resp server_ip op four a s =
    let (bs, o, written, read, same) = unmarshal-marshal_packet (zeroed resp) op s in
    (
      bs,
      record (zeroed resp) { options = o },
      marshal-zeroed resp ∙ written,
      read,
      (refl, refl),
      record {
        same_transaction = a.same_transaction;
        same_hardware = a.same_hardware;
        same_relay = a.same_relay;
        from_server = a.from_server;
        identifies_server = same Opt.server_identifier ∙ a.identifies_server;
        same_guid = same Opt.uid_guid_client_identifier ∙ a.same_guid;
      },
    )
