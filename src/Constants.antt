-- ===== src/Constants.antt =====
-- constants/constants.go: kinds of firmware and of processors. Both are Go ints, so that a value
-- may be none of these.
use netboot.Prelude.{ℕ, Bytes, if◌then◌else◌, ◌==◌}
use netboot.Prelude.Text.{literal}

-- type Firmware
abbrev pub firmware_x86_pc : ℕ
firmware_x86_pc = 0

abbrev pub firmware_efi32 : ℕ
firmware_efi32 = 1

abbrev pub firmware_efi64 : ℕ
firmware_efi64 = 2

abbrev pub firmware_efi_bc : ℕ
firmware_efi_bc = 3

abbrev pub firmware_x86_ipxe : ℕ
firmware_x86_ipxe = 4

abbrev pub firmware_pixiecore_ipxe : ℕ
firmware_pixiecore_ipxe = 5

abbrev pub firmware_efi_arm64 : ℕ
firmware_efi_arm64 = 6

-- type Architecture
abbrev pub arch_ia32 : ℕ
arch_ia32 = 0

abbrev pub arch_x64 : ℕ
arch_x64 = 1

abbrev pub arch_arm64 : ℕ
arch_arm64 = 2

-- (a Architecture) String.
unfoldable pub arch_string : ℕ → Bytes
arch_string a =
    if a == arch_ia32
    then literal "IA32"
    else if a == arch_x64
    then literal "X64"
    else if a == arch_arm64
    then literal "Arm64"
    else literal "Unknown"
