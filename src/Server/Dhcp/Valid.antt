-- ===== src/Server/Dhcp/Valid.antt =====
-- What validateDHCP of server/dhcp.go makes sure of.
use netboot.Prelude.{
  ℕ, ◌<◌, ◌≡◌, refl, sym, ◌∙◌, ap, true, ◌&&◌, Option, none, some, [], Bytes, ◌==◌, if_ind, ◌⊎◌,
  inl, inr, arith,
}
use netboot.Prelude.Result.{Result, ok, err, reject, wrap, bind-ok}
use netboot.Constants
use netboot.Dhcp4.Opt
use netboot.Dhcp4.Packet.{Packet}
use netboot.Dhcp4.Options.{OptionsError, value}
use netboot.Dhcp4.Options.Values.{string, get_uint16}
use netboot.Server.Dhcp.{
  DhcpError, Machine, identify, identified, refine_firmware, validate_dhcp, check_guid, is_rpi,
  bad_client_system, unsupported_firmware, is_efi,
}
use mathlib.Core.Path.{subst}
use netboot.Net.{equal}
use netboot.Prelude.Text.{literal}

-- The firmware kinds that the program knows.
abbrev pub IsFirmware : ℕ → Type 0
IsFirmware f =
    (f ≡ Constants.firmware_x86_pc)
    ⊎ ((f ≡ Constants.firmware_x86_ipxe)
        ⊎ ((is_efi f ≡ true) ⊎ (f ≡ Constants.firmware_pixiecore_ipxe)))

identified-IsFirmware :
    (fwt arch fwtype : ℕ) → identified fwt ≡ ok (arch, fwtype) → IsFirmware fwtype × (arch < 10)
unfolding identified identify
identified-IsFirmware fwt arch fwtype h =
    if_ind P (fwt == 0) _ _ (λ _ e. (inl (snd_of e), small e (omega arith)))
      (λ _.
        if_ind P (fwt == 6) _ _ (λ _ e. (efi (snd_of e) refl, small e (omega arith)))
          (λ _.
            if_ind P (fwt == 7) _ _ (λ _ e. (efi (snd_of e) refl, small e (omega arith)))
              (λ _.
                if_ind P (fwt == 9) _ _ (λ _ e. (efi (snd_of e) refl, small e (omega arith)))
                  (λ _.
                    if_ind P (fwt == 11) _ _ (λ _ e. (efi (snd_of e) refl, small e (omega arith)))
                      (λ _ e. absurd (cc))))))
      h
  where
    P : Option (ℕ × ℕ) → Type 0
    P o =
        ◌≡◌ {A = Result DhcpError (ℕ × ℕ)}
          (elim o [ none ↦ err (unsupported_firmware fwt) | some r ↦ ok r ]) (ok (arch, fwtype))
        → IsFirmware fwtype × (arch < 10)

    pair_of : Result DhcpError (ℕ × ℕ) → ℕ
    pair_of (ok p) = p.1
    pair_of (err e) = 0

    snd_of :
        {a f : ℕ} → ◌≡◌ {A = Result DhcpError (ℕ × ℕ)} (ok (a, f)) (ok (arch, fwtype)) → fwtype ≡ f
    snd_of e = sym (ap pair_of e)

    arch_of : Result DhcpError (ℕ × ℕ) → ℕ
    arch_of (ok p) = p.0
    arch_of (err e) = 0

    small :
        {a f : ℕ}
        → ◌≡◌ {A = Result DhcpError (ℕ × ℕ)} (ok (a, f)) (ok (arch, fwtype))
        → a < 10
        → arch < 10
    small e l = omega (arith, ap arch_of e)

    efi : {f : ℕ} → fwtype ≡ f → is_efi f ≡ true → IsFirmware fwtype
    efi e t = inr (inr (inl (ap (λ x. is_efi x) e ∙ t)))

refine-IsFirmware :
    (u : Result OptionsError Bytes) (f : ℕ) → IsFirmware f → IsFirmware (refine_firmware u f)
unfolding refine_firmware
refine-IsFirmware (err e) f h = h
refine-IsFirmware (ok user_class) f h =
    if_ind IsFirmware (equal user_class (literal "pixiecore")) _ _ (λ _. inr (inr (inr refl)))
      (λ _.
        if_ind IsFirmware (equal user_class (literal "iPXE") && f == Constants.firmware_x86_pc) _ _
          (λ _. inr (inl refl)) (λ _. h))

-- What `validate_dhcp` makes sure of.
pub record Valid (pkt : Packet) (mach : Machine) (fwtype : ℕ) : Type 0 where
  pub same_mac : mach.mac ≡ pkt.hardware_addr
  pub firmware : IsFirmware fwtype
  pub small_arch : mach.arch < 10
  pub guid_checked : check_guid (value pkt.options Opt.uid_guid_client_identifier) ≡ ok tt

pub validate-Valid :
    (pkt : Packet) (mach : Machine) (fwtype : ℕ)
    → validate_dhcp pkt ≡ ok (mach, fwtype)
    → Valid pkt mach fwtype
unfolding validate_dhcp
validate-Valid pkt mach fwtype h =
    let (fwt, e0, h1) =
      bind-ok (wrap bad_client_system (get_uint16 pkt.options Opt.client_system)) _ h in
    let (u1, e1, h2) =
      bind-ok (reject (is_rpi pkt.hardware_addr && fwt == 0) (unsupported_firmware fwt)) _ h1 in
    let ((arch, f), e2, h3) = bind-ok (identified fwt) _ h2 in
    let (u3, e3, h4) =
      bind-ok (check_guid (value pkt.options Opt.uid_guid_client_identifier)) _ h3 in
    let (k, little) = identified-IsFirmware fwt arch f e2 in
    let r = refine-IsFirmware (string pkt.options Opt.user_class) f k in
    record {
      same_mac = sym (ap mac_of h4);
      firmware = subst IsFirmware (ap firmware_of h4) r;
      small_arch = subst (λ n. n < 10) (ap arch_of h4) little;
      guid_checked = e3;
    }
  where
    mac_of : Result DhcpError (Machine × ℕ) → Bytes
    mac_of (ok p) = p.0.mac
    mac_of (err e) = []

    arch_of : Result DhcpError (Machine × ℕ) → ℕ
    arch_of (ok p) = p.0.arch
    arch_of (err e) = 0

    firmware_of : Result DhcpError (Machine × ℕ) → ℕ
    firmware_of (ok p) = p.1
    firmware_of (err e) = 0
