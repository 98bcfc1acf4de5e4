-- ===== src/Server/Run/Programs.antt =====
-- The default boot programs, and the identifier of the DHCPv6 server.
use netboot.Prelude.{
  ℕ, ◌≡◌, refl, ap, ◌∙◌, ◌++◌, ◌||◌, leb, drop, take, ◌-◌, true, false, some, none, Option, Bytes,
  arith, ◌==◌, if◌then◌else◌, length, length-append, drop-length-append, take-length-append, ◌⊎◌,
  inl, inr,
}
use netboot.Prelude.Assoc.{Assoc, lookup, insert, has}
use netboot.Prelude.Result.{ok}
use netboot.Dhcp4.Packet.{Packet}
use netboot.Constants
use netboot.Dhcp6.Options.{OptionsError}
use netboot.Server.Dhcp.Valid.{validate-Valid}
use netboot.Dhcp6.Slice.{Slice, Outcome, returned, sub_within, len, from, ◌>>=◌, big_endian16}
use netboot.Dhcp6.Builder.{extract_ll_address_or_id}
use netboot.Server.Dhcp.{Machine, validate_dhcp}
use netboot.Server.Run.{default_firmwares, set_duid}

abbrev identifier : ℕ → Bytes → Bytes → Slice
identifier seconds addr spare = record { visible = set_duid seconds addr; spare = spare }

-- The bytes from number 8 on are the address.
from_eight :
    (seconds : ℕ) (addr spare : Bytes)
    → from {E = OptionsError} (identifier seconds addr spare) 8
      ≡ returned (record { visible = addr; spare = spare })
unfolding from set_duid
from_eight seconds addr spare =
    let id = identifier seconds addr spare in
    sub_within id 8 (len id) (omega arith) (omega (arith, length-append addr spare))
    ∙ (ap
          (λ n. returned (record {
            visible = take n (addr ++ spare);
            spare = drop (length addr) (addr ++ spare);
          }))
          rest
        ∙ (ap (λ v. returned (record { visible = v; spare = drop (length addr) (addr ++ spare) }))
              (take-length-append addr spare)
            ∙ ap (λ t. returned (record { visible = addr; spare = t }))
                (drop-length-append addr spare)))
  where
    rest : length (set_duid seconds addr) - 8 ≡ length addr
    rest = omega arith

-- The identifier of the server names the hardware address that it was made of: extractLLAddressOrID
-- finds it there, and only it.
pub extract_ll_address_or_id-set_duid :
    (seconds : ℕ) (addr spare : Bytes)
    → extract_ll_address_or_id (record { visible = set_duid seconds addr; spare = spare })
      ≡ returned (record { visible = addr; spare = spare })
unfolding extract_ll_address_or_id set_duid big_endian16
extract_ll_address_or_id-set_duid seconds addr spare =
    let id = identifier seconds addr spare in
    ap
      (λ (m : Outcome OptionsError Slice). do
        head ← m
        id_type ← big_endian16 head
        from id (if id_type == 1 then 8 else if id_type == 3 then 4 else 2))
      (sub_within id 0 2 (omega arith) (omega arith))
    ∙ from_eight seconds addr spare

has-default_firmwares :
    (asset : Bytes → Bytes) (f : ℕ) → has f (default_firmwares asset) ≡ (leb f 4 || f == 6)
unfolding has default_firmwares insert lookup
has-default_firmwares asset f = ground arith

found :
    (o : Option Bytes) → elim o [ none ↦ false | some v ↦ true ] ≡ true → (v : Bytes) × (o ≡ some v)
found none h = absurd (cc)
found (some v) h = (v, refl)

has-lookup : (k : ℕ) (m : Assoc Bytes) → has k m ≡ true → (v : Bytes) × (lookup k m ≡ some v)
unfolding has
has-lookup k m h = found (lookup k m) h

program_for :
    (asset : Bytes → Bytes) (f : ℕ)
    → (leb f 4 || f == 6) ≡ true
    → (program : Bytes) × (lookup f (default_firmwares asset) ≡ some program)
program_for asset f h = has-lookup f (default_firmwares asset) (has-default_firmwares asset f ∙ h)

-- With the default boot programs, there is a program for every firmware that a DHCP offer can be made
-- for, but for the iPXE of the server itself, which is sent to the HTTP service.
pub validate_dhcp-default_firmwares :
    (asset : Bytes → Bytes) (pkt : Packet) (mach : Machine) (fwtype : ℕ)
    → validate_dhcp pkt ≡ ok (mach, fwtype)
    → (fwtype ≡ Constants.firmware_pixiecore_ipxe)
      ⊎ ((program : Bytes) × (lookup fwtype (default_firmwares asset) ≡ some program))
validate_dhcp-default_firmwares asset pkt mach fwtype h =
    elim (validate-Valid pkt mach fwtype h).firmware [
      | inl pc ↦ inr (program_for asset fwtype (ground arith))
      | inr (inl ipxe) ↦ inr (program_for asset fwtype (ground arith))
      | inr (inr (inl efi)) ↦ inr (program_for asset fwtype (ground arith))
      | inr (inr (inr own)) ↦ inl own
    ]
