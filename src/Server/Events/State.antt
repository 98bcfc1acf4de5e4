-- ===== src/Server/Events/State.antt =====
-- The states of server/logging.go: machineStateProxyDHCP and so on.
use netboot.Prelude.{ℕ, Bytes, ◌==◌, if◌then◌else◌}
use netboot.Prelude.Text.{literal}

abbrev pub proxy_dhcp : ℕ
proxy_dhcp = 0

abbrev pub pxe : ℕ
pxe = 1

abbrev pub tftp : ℕ
tftp = 2

abbrev pub proxy_dhcp_ipxe : ℕ
proxy_dhcp_ipxe = 3

abbrev pub ipxe_script : ℕ
ipxe_script = 4

abbrev pub kernel : ℕ
kernel = 5

abbrev pub initrd : ℕ
initrd = 6

abbrev pub booted : ℕ
booted = 7

abbrev pub ignored : ℕ
ignored = 8

-- String of a machineState.
unfoldable pub state_string : ℕ → Bytes
state_string m =
    if m == proxy_dhcp
    then literal "Made boot offer (ProxyDHCP)"
    else if m == pxe
    then literal "Made boot offer (PXE)"
    else if m == tftp
    then literal "Sent iPXE binary (TFTP)"
    else if m == proxy_dhcp_ipxe
    then literal "Made iPXE boot offer (ProxyDHCP)"
    else if m == ipxe_script
    then literal "Sent iPXE script (HTTP)"
    else if m == kernel
    then literal "Sent kernel (HTTP)"
    else if m == initrd
    then literal "Sent initrd(s) (HTTP)"
    else if m == booted
    then literal "Booted machine"
    else literal "Unknown"
