-- ===== src/Server/Pxe.antt =====
-- server/pxe.go: the answers on the PXE port.
pub mod Answers
use netboot.Prelude.{
  ℕ, Bool, true, false, not, Option, none, some, [], ◌∷◌, Bytes, ◌==◌, if◌then◌else◌,
}
use netboot.Prelude.Assoc.{Assoc, has}
use netboot.Prelude.Result.{Result, ok, err, ◌>>=◌, ◌>>◌, reject, wrap}
use netboot.Constants
use netboot.Dhcp4.Opt
use netboot.Dhcp4.MessageType
use netboot.Dhcp4.Options.{value}
use netboot.Dhcp4.Options.Values.{get_uint16}
use netboot.Dhcp4.Packet.{Packet}
use netboot.Server.Strings.{ip_string}
use netboot.Server.Dhcp.{
  DhcpError, unsupported_firmware, bad_client_system, check_guid, boot_path, base_options,
}

-- The `switch fwt` of validatePXE.
unfoldable pub pxe_firmware : ℕ → Option ℕ
pxe_firmware fwt =
    if fwt == 6
    then some Constants.firmware_efi32
    else if fwt == 7
    then some Constants.firmware_efi64
    else if fwt == 9
    then some Constants.firmware_efi_bc
    else if fwt == 11
    then some Constants.firmware_efi_arm64
    else none

pub pxe_identified : ℕ → Result DhcpError ℕ
unfolding pxe_firmware
pxe_identified fwt = elim (pxe_firmware fwt) [
  | none ↦ err (unsupported_firmware fwt)
  | some fwtype ↦ ok fwtype
]

-- validatePXE; `ipxe` is the map of the boot programs that are there.
unfoldable pub validate_pxe : Assoc Bytes → Packet → Result DhcpError ℕ
unfolding pxe_identified has
validate_pxe ipxe pkt = do
  fwt ← wrap bad_client_system (get_uint16 pkt.options Opt.client_system)
  fwtype ← pxe_identified fwt
  reject (not (has fwtype ipxe)) (unsupported_firmware fwtype)
  check_guid (value pkt.options Opt.uid_guid_client_identifier)
  ok fwtype

-- offerPXE, which cannot fail.
unfoldable pub offer_pxe : Packet → Bytes → ℕ → Packet
unfolding base_options boot_path ip_string
offer_pxe pkt server_ip fwtype = record {
  type = MessageType.ack;
  transaction_id = pkt.transaction_id;
  broadcast = false;
  hardware_addr = pkt.hardware_addr;
  client_addr = pkt.client_addr;
  your_addr = [];
  server_addr = server_ip;
  relay_addr = pkt.relay_addr;
  boot_server_name = ip_string server_ip;
  boot_filename = boot_path pkt.hardware_addr fwtype;
  options = base_options pkt server_ip;
}
