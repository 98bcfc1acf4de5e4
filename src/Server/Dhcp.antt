-- ===== src/Server/Dhcp.antt =====
-- server/dhcp.go: which packets ask for a boot, what is known of the machine that sent them, and
-- the offer it gets.
pub mod Valid
pub mod Offers
pub mod Sendable
pub mod Wire
use netboot.Prelude.{
  ℕ, ◌+◌, Bool, true, false, ◌&&◌, not, Option, none, some, List, [], ◌∷◌, ◌++◌, Bytes, length,
  get_or, ◌==◌, if◌then◌else◌,
}
use netboot.Prelude.Assoc.{lookup, insert, has}
use netboot.Prelude.Result.{Result, ok, err, ◌>>=◌, ◌>>◌, reject, wrap}
use netboot.Prelude.Text.{literal}
use netboot.Constants
use netboot.Net.{equal}
use netboot.Strconv.{format_int}
use netboot.Dhcp4.Opt
use netboot.Dhcp4.MessageType
use netboot.Dhcp4.Options.{Options, OptionsError, value, marshal as marshal_options}
use netboot.Dhcp4.Options.Values.{get_uint16, string}
use netboot.Dhcp4.Packet.{Packet}
use netboot.Server.Strings.{mac_string, ip_string, has_any_prefix}

-- types.Machine
pub record Machine : Type 0 where
  pub mac : Bytes
  pub arch : ℕ

pub data DhcpError : Type 0 where
  not_discover : ℕ → DhcpError
  not_pxe : DhcpError
  bad_client_system bad_vendor_options : OptionsError → DhcpError
  unsupported_firmware : ℕ → DhcpError
  guid_leading_byte guid_size : DhcpError
  unknown_firmware : ℕ → DhcpError

-- isBootDHCP. A present option has a value that is not nil.
unfoldable pub is_boot_dhcp : Packet → Result DhcpError (Unit {0})
unfolding has
is_boot_dhcp pkt = do
  reject (not (pkt.type == MessageType.discover)) (not_discover pkt.type)
  reject (not (has Opt.client_system pkt.options)) not_pxe
  ok tt

abbrev rpi_prefixes : List Bytes
rpi_prefixes =
    literal "28:cd:c1:"
    ∷ literal "b8:27:eb:"
    ∷ literal "d8:3a:dd:"
    ∷ literal "dc:a6:32:"
    ∷ literal "e4:5f:01:"
    ∷ []

unfoldable pub is_rpi : Bytes → Bool
unfolding mac_string has_any_prefix
is_rpi mac = has_any_prefix (mac_string mac) rpi_prefixes

-- The `switch fwt` of validateDHCP: architecture and firmware.
unfoldable pub identify : ℕ → Option (ℕ × ℕ)
identify fwt =
    if fwt == 0
    then some (Constants.arch_ia32, Constants.firmware_x86_pc)
    else if fwt == 6
    then some (Constants.arch_ia32, Constants.firmware_efi32)
    else if fwt == 7
    then some (Constants.arch_x64, Constants.firmware_efi64)
    else if fwt == 9
    then some (Constants.arch_x64, Constants.firmware_efi_bc)
    else if fwt == 11
    then some (Constants.arch_arm64, Constants.firmware_efi_arm64)
    else none

pub identified : ℕ → Result DhcpError (ℕ × ℕ)
unfolding identify
identified fwt = elim (identify fwt) [ none ↦ err (unsupported_firmware fwt) | some r ↦ ok r ]

-- The firmware after a look at the user class, option 77.
refine_firmware : Result OptionsError Bytes → ℕ → ℕ
unfolding equal
refine_firmware (err e) fwtype = fwtype
refine_firmware (ok user_class) fwtype =
    if equal user_class (literal "pixiecore")
    then Constants.firmware_pixiecore_ipxe
    else if equal user_class (literal "iPXE") && fwtype == Constants.firmware_x86_pc
    then Constants.firmware_x86_ipxe
    else fwtype

-- The check of the client GUID, the same in dhcp.go and pxe.go.
unfoldable pub check_guid : Bytes → Result DhcpError (Unit {0})
check_guid guid =
    if length guid == 0
    then ok tt
    else if length guid == 17
    then reject (not (get_or guid 0 0 == 0)) guid_leading_byte
    else err guid_size

unfoldable pub validate_dhcp : Packet → Result DhcpError (Machine × ℕ)
unfolding identified refine_firmware string
validate_dhcp pkt = do
  fwt ← wrap bad_client_system (get_uint16 pkt.options Opt.client_system)
  reject (is_rpi pkt.hardware_addr && fwt == 0) (unsupported_firmware fwt)
  (arch, fwtype) ← identified fwt
  check_guid (value pkt.options Opt.uid_guid_client_identifier)
  ok (
    record { mac = pkt.hardware_addr; arch = arch },
    refine_firmware (string pkt.options Opt.user_class) fwtype,
  )

-- `resp.Options[OptUidGuid…] = pkt.Options[OptUidGuid…]` if the client sent one.
unfoldable pub mirror_guid : Options → Options → Options
unfolding lookup insert
mirror_guid from to = elim (lookup Opt.uid_guid_client_identifier from) [
  | none ↦ to
  | some guid ↦ insert Opt.uid_guid_client_identifier guid to
]

-- The options of every offer.
unfoldable pub base_options : Packet → Bytes → Options
unfolding mirror_guid
base_options pkt server_ip =
    mirror_guid pkt.options
      ((Opt.server_identifier, server_ip) ∷ (Opt.vendor_identifier, literal "PXEClient") ∷ [])

-- The reply before the `switch fwtype`.
unfoldable pub base_offer : Packet → Machine → Bytes → Packet
unfolding base_options
base_offer pkt mach server_ip = record {
  type = MessageType.offer;
  transaction_id = pkt.transaction_id;
  broadcast = true;
  hardware_addr = mach.mac;
  client_addr = [];
  your_addr = [];
  server_addr = server_ip;
  relay_addr = pkt.relay_addr;
  boot_server_name = [];
  boot_filename = [];
  options = base_options pkt server_ip;
}

-- Option 43: PXE Boot Server Discovery Control, bypass.
unfoldable pub pxe_vendor_options : Result DhcpError Bytes
unfolding marshal_options
pxe_vendor_options =
    wrap bad_vendor_options (marshal_options ((Opt.boot_servers_control, 8 ∷ []) ∷ []))

-- "%s/%d": the path of the boot program under TFTP.
unfoldable pub boot_path : Bytes → ℕ → Bytes
unfolding mac_string format_int
boot_path mac fwtype = mac_string mac ++ (b'/' ∷ format_int fwtype)

unfoldable pub tftp_url : Bytes → Bytes → ℕ → Bytes
unfolding boot_path ip_string
tftp_url server_ip mac fwtype =
    literal "tftp://" ++ (ip_string server_ip ++ (b'/' ∷ boot_path mac fwtype))

unfoldable pub ipxe_url : Bytes → ℕ → Machine → Bytes
unfolding ip_string format_int mac_string
ipxe_url server_ip http_port mach =
    literal "http://"
    ++ (ip_string server_ip
        ++ (b':'
            ∷ (format_int http_port
                ++ (literal "/_/ipxe?arch="
                    ++ (format_int mach.arch ++ (literal "&mac=" ++ mac_string mach.mac))))))

abbrev pub is_efi : ℕ → Bool
is_efi f =
    if f == Constants.firmware_efi32
    then true
    else if f == Constants.firmware_efi64
    then true
    else if f == Constants.firmware_efi_bc
    then true
    else f == Constants.firmware_efi_arm64

-- offerDHCP; `http_port` is the server's.
unfoldable pub offer_dhcp : ℕ → Packet → Machine → Bytes → ℕ → Result DhcpError Packet
unfolding base_offer boot_path tftp_url ipxe_url insert
offer_dhcp http_port pkt mach server_ip fwtype =
    let resp = base_offer pkt mach server_ip in
    let with_vendor : Bytes → Packet =
      λ bs. record resp { options = insert Opt.vendor_specific bs resp.options } in
    if fwtype == Constants.firmware_x86_pc
    then (do
      bs ← pxe_vendor_options
      ok (record (with_vendor bs) {
        boot_server_name = ip_string server_ip;
        boot_filename = boot_path mach.mac fwtype;
      }))
    else if fwtype == Constants.firmware_x86_ipxe
    then (do
      bs ← pxe_vendor_options
      ok (record (with_vendor bs) { boot_filename = tftp_url server_ip mach.mac fwtype }))
    else if is_efi fwtype
    then ok (record resp {
      boot_server_name = ip_string server_ip;
      boot_filename = boot_path mach.mac fwtype;
    })
    else if fwtype == Constants.firmware_pixiecore_ipxe
    then ok (record resp { boot_filename = ipxe_url server_ip http_port mach })
    else err (unknown_firmware fwtype)
