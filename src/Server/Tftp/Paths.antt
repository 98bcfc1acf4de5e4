-- ===== src/Server/Tftp/Paths.antt =====
-- The paths that the DHCP offers name are paths that the TFTP service serves.
use netboot.Prelude.{ℕ, ◌^◌, ◌<◌, ◌≡◌, ◌≢◌, some, false, Bytes, length, All, arith, [], ◌∷◌}
use netboot.Prelude.Assoc.{Assoc, lookup}
use netboot.Prelude.Result.{ok}
use netboot.Strconv.{pos, format_int}
use netboot.Strconv.RoundTrip.{IsDigit, format_int-IsDigit, parse_int-format_int}
use netboot.Server.Strings.{mac_string}
use netboot.Server.Mac.RoundTrip.{parse_mac-mac_string, split_joined, mac_string-ne_slash}
use netboot.Server.Dhcp.{boot_path}
use netboot.Server.Tftp.{extract_info, two_elements, or_err, known_path, boot_program, handle_tftp}

digits-ne_slash : (s : Bytes) → All IsDigit s → All (λ c. c ≢ b'/') s
digits-ne_slash [] h = tt
digits-ne_slash (c ∷ s) (h, hs) = ((λ e. omega arith), digits-ne_slash s hs)

-- An Ethernet address and a firmware number are read back from the path that names them.
pub extract_info-boot_path :
    (mac : Bytes) (fwtype : ℕ)
    → length mac ≡ 6
    → All (λ b. b < 256) mac
    → fwtype < 2 ^ 63
    → extract_info (boot_path mac fwtype) ≡ ok (mac, pos fwtype)
unfolding extract_info boot_path two_elements or_err
extract_info-boot_path mac fwtype six bytes small = rw (
  split_joined b'/' (mac_string mac) (format_int fwtype) (mac_string-ne_slash mac bytes)
      (digits-ne_slash (format_int fwtype) (format_int-IsDigit fwtype)),
  parse_mac-mac_string mac six bytes,
  parse_int-format_int fwtype small,
)

-- The path that an offer names is served with the boot program of its firmware, whole.
pub handle_tftp-boot_path :
    (ipxe : Assoc Bytes) (mac program : Bytes) (fwtype : ℕ)
    → length mac ≡ 6
    → All (λ b. b < 256) mac
    → fwtype < 2 ^ 63
    → lookup fwtype ipxe ≡ some program
    → handle_tftp ipxe (boot_path mac fwtype)
      ≡ ok (record { contents = program; fails = false; size = length program })
unfolding handle_tftp known_path boot_program or_err
handle_tftp-boot_path ipxe mac program fwtype six bytes small there =
    rw (extract_info-boot_path mac fwtype six bytes small, there)
