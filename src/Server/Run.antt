-- ===== src/Server/Run.antt =====
-- server/server.go: the settings of the servers, the sockets that Serve opens and closes, and the
-- identifier of the DHCPv6 server.
pub mod Channel
pub mod Sockets
pub mod Programs
use netboot.Prelude.{
  ℕ, ◌+◌, ◌/◌, ◌%◌, ◌^◌, Bool, true, false, Option, none, some, List, [], ◌∷◌, ◌++◌, Bytes, ◌==◌,
  if◌then◌else◌, ◌⊎◌, inl, inr,
}
use netboot.Prelude.Text.{literal}
use netboot.Prelude.Assoc.{Assoc, insert}
use netboot.Net.{is_empty}
use netboot.Strconv.{format_int}
use netboot.Constants

-- The ports of constants.go.
abbrev pub port_dhcp : ℕ
port_dhcp = 67

abbrev pub port_dhcpv6 : ℕ
port_dhcpv6 = 547

abbrev pub port_tftp : ℕ
port_tftp = 69

abbrev pub port_http : ℕ
port_http = 80

abbrev pub port_pxe : ℕ
port_pxe = 4011

-- SetDefaultFirmwares; `asset` is MustAsset of the generated package assets.
unfoldable pub default_firmwares : (Bytes → Bytes) → Assoc Bytes
unfolding insert
default_firmwares asset = insert Constants.firmware_x86_ipxe (asset (literal "ipxe.pxe")) (
    insert Constants.firmware_efi_arm64 (asset (literal "arm64.ipxe.efi")) (
      insert Constants.firmware_efi_bc (asset (literal "amd64.ipxe.efi")) (
        insert Constants.firmware_efi64 (asset (literal "amd64.ipxe.efi")) (
          insert Constants.firmware_efi32 (asset (literal "i386.ipxe.efi"))
            (insert Constants.firmware_x86_pc (asset (literal "undionly.kpxe")) [])))))

-- The settings of a Server that Serve reads. The ports are Go ints; 0 stands for the default.
pub record Config : Type 0 where
  pub address : Bytes
  pub dhcp_port : ℕ
  pub tftp_port : ℕ
  pub pxe_port : ℕ
  pub http_port : ℕ
  pub dhcp_no_bind : Bool

port_or : ℕ → ℕ → ℕ
port_or default_port port = if port == 0 then default_port else port

unfoldable pub with_defaults : Config → Config
unfolding port_or
with_defaults c = record {
  address = if is_empty c.address then literal "0.0.0.0" else c.address;
  dhcp_port = port_or port_dhcp c.dhcp_port;
  tftp_port = port_or port_tftp c.tftp_port;
  pxe_port = port_or port_pxe c.pxe_port;
  http_port = port_or port_http c.http_port;
  dhcp_no_bind = c.dhcp_no_bind;
}

-- The sockets of Serve; the one for DHCP is bound to its port or snoops on it.
pub data Socket : Type 0 where
  dhcp_bound dhcp_snooper tftp pxe http : Socket

-- What Serve does with them: it opens one on an address, fails to, or closes one.
pub data Action : Type 0 where
  opened refused : Socket → Bytes → Action
  closed : Socket → Action

listen_text : Config → ℕ → Bytes
unfolding format_int
listen_text c port = c.address ++ (b':' ∷ format_int port)

unfoldable pub dhcp_socket : Bool → Socket
dhcp_socket true = dhcp_snooper
dhcp_socket false = dhcp_bound

-- A socket is opened and the work goes on, or the sockets in hand are closed and Serve returns the
-- error.
next_socket :
    Option Bytes
    → Socket
    → Bytes
    → List Action
    → List Action × Option (Option Bytes)
    → List Action × Option (Option Bytes)
next_socket none s text closing (actions, result) = (opened s text ∷ actions, result)
next_socket (some e) s text closing later = (refused s text ∷ closing, some (some e))

-- Waiting for the channel: with what comes out of it first, if anything, the sockets are closed.
waited : Socket → Option (Option Bytes) → List Action × Option (Option Bytes)
waited d none = ([], none)
waited d (some e) = (closed d ∷ closed tftp ∷ closed pxe ∷ closed http ∷ [], some e)

-- Serve of a Server: `fails` says which sockets cannot be opened, and `first` is the first value of the
-- channel errs. The result is `none` as long as Serve runs.
unfoldable pub serve :
    (Socket → Option Bytes) → Config → Option (Option Bytes) → List Action × Option (Option Bytes)
unfolding with_defaults next_socket waited listen_text dhcp_socket
serve fails config first =
    let c = with_defaults config in
    let d = dhcp_socket c.dhcp_no_bind in
    next_socket (fails d) d (listen_text c c.dhcp_port) [] (
      next_socket (fails tftp) tftp (listen_text c c.tftp_port) (closed d ∷ []) (
        next_socket (fails pxe) pxe (listen_text c c.pxe_port) (closed d ∷ closed tftp ∷ []) (
          next_socket (fails http) http (listen_text c c.http_port)
            (closed d ∷ closed tftp ∷ closed pxe ∷ []) (waited d first))))

-- setDUID, `seconds` after the start of the year 2000. The conversion to uint32 is exact until 2136.
unfoldable pub set_duid : ℕ → Bytes → Bytes
set_duid seconds addr =
    let n = seconds % 2 ^ 32 in
    0 ∷ 1 ∷ 0 ∷ 1 ∷ (n / 16777216) ∷ (n / 65536 % 256) ∷ (n / 256 % 256) ∷ (n % 256) ∷ addr

-- A ServerV6, with its port, and the text of its address.
pub record ServerV6 : Type 0 where
  pub address : Bytes
  pub port : ℕ
  pub duid : Bytes

-- NewServerV6
unfoldable pub new_server_v6 : ServerV6
new_server_v6 = record { address = []; port = port_dhcpv6; duid = [] }

-- What is to be done with the connection of Serve of a ServerV6.
pub data ActionV6 : Type 0 where
  opened_v6 refused_v6 : Bytes → ℕ → ActionV6
  closed_v6 : ActionV6

-- Serve of a ServerV6; `conn` is what dhcp6.NewConn gives: the hardware address of the interface, or an
-- error.
unfoldable pub serve_v6 :
    Bytes ⊎ Bytes
    → ℕ
    → Option (Option Bytes)
    → ServerV6
    → List ActionV6 × ServerV6 × Option (Option Bytes)
unfolding set_duid
serve_v6 (inl e) seconds first s = (refused_v6 s.address s.port ∷ [], s, some (some e))
serve_v6 (inr hw) seconds none s =
    (opened_v6 s.address s.port ∷ [], record s { duid = set_duid seconds hw }, none)
serve_v6 (inr hw) seconds (some e) s =
    (opened_v6 s.address s.port ∷ closed_v6 ∷ [], record s { duid = set_duid seconds hw }, some e)
