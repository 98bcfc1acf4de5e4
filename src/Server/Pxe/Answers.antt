-- ===== src/Server/Pxe/Answers.antt =====
-- What the PXE service tells the clients it accepts.
use netboot.Prelude.{
  ℕ, ◌≡◌, refl, ap, true, false, not, Option, none, some, Bytes, ◌==◌, if_ind, arith,
}
use mathlib.Core.Path.{subst}
use netboot.Prelude.Assoc.{Assoc, has}
use netboot.Prelude.Result.{Result, ok, err, reject, wrap, bind-ok, reject-ok}
use netboot.Dhcp4.Opt
use netboot.Dhcp4.Options.{value}
use netboot.Dhcp4.Options.Values.{get_uint16}
use netboot.Dhcp4.Packet.{Packet}
use netboot.Server.Dhcp.{
  DhcpError, Machine, bad_client_system, unsupported_firmware, check_guid, is_efi, base_offer,
}
use netboot.Server.Dhcp.Offers.{Answers, base-Answers}
use netboot.Server.Pxe.{validate_pxe, pxe_identified, pxe_firmware, offer_pxe}

firmware_of : Result DhcpError ℕ → ℕ
firmware_of (ok f) = f
firmware_of (err e) = 0

pxe_identified-is_efi : (fwt f : ℕ) → pxe_identified fwt ≡ ok f → is_efi f ≡ true
unfolding pxe_identified pxe_firmware firmware_of
pxe_identified-is_efi fwt f h =
    if_ind P (fwt == 6) _ _ (λ _ e. efi e refl)
      (λ _.
        if_ind P (fwt == 7) _ _ (λ _ e. efi e refl)
          (λ _.
            if_ind P (fwt == 9) _ _ (λ _ e. efi e refl)
              (λ _. if_ind P (fwt == 11) _ _ (λ _ e. efi e refl) (λ _ e. absurd (cc)))))
      h
  where
    P : Option ℕ → Type 0
    P o =
        ◌≡◌ {A = Result DhcpError ℕ}
          (elim o [ none ↦ err (unsupported_firmware fwt) | some fwtype ↦ ok fwtype ]) (ok f)
        → is_efi f ≡ true

    efi : {g : ℕ} → ◌≡◌ {A = Result DhcpError ℕ} (ok g) (ok f) → is_efi g ≡ true → is_efi f ≡ true
    efi e t = subst (λ x. is_efi x ≡ true) (ap firmware_of e) t

-- A client that `validate_pxe` accepts runs a UEFI firmware that there is a boot program for, and the
-- reply answers its packet: transaction, hardware address, relay and GUID are the client's.
pub validate_pxe-offer_pxe :
    (ipxe : Assoc Bytes) (pkt : Packet) (server_ip : Bytes) (fwtype : ℕ)
    → validate_pxe ipxe pkt ≡ ok fwtype
    → (is_efi fwtype ≡ true)
      × (has fwtype ipxe ≡ true)
      × Answers pkt server_ip (offer_pxe pkt server_ip fwtype)
unfolding validate_pxe offer_pxe firmware_of
validate_pxe-offer_pxe ipxe pkt server_ip fwtype h =
    let (fwt, e0, h1) =
      bind-ok (wrap bad_client_system (get_uint16 pkt.options Opt.client_system)) _ h in
    let (f, e1, h2) = bind-ok (pxe_identified fwt) _ h1 in
    let (u2, e2, h3) = bind-ok (reject (not (has f ipxe)) (unsupported_firmware f)) _ h2 in
    let (u3, e3, h4) =
      bind-ok (check_guid (value pkt.options Opt.uid_guid_client_identifier)) _ h3 in
    let same : f ≡ fwtype = ap firmware_of h4 in
    let machine : Machine = record { mac = pkt.hardware_addr; arch = 0 } in
    let a = base-Answers pkt machine server_ip refl in
    (
      subst (λ x. is_efi x ≡ true) same (pxe_identified-is_efi fwt f e1),
      subst (λ x. has x ipxe ≡ true) same
          (there f (reject-ok (not (has f ipxe)) (unsupported_firmware f) e2)),
      record {
        same_transaction = refl;
        same_hardware = refl;
        same_relay = refl;
        from_server = refl;
        identifies_server = unfold base_offer in a.identifies_server;
        same_guid = unfold base_offer in a.same_guid;
      },
    )
  where
    there : (x : ℕ) → not (has x ipxe) ≡ false → has x ipxe ≡ true
    there x t = ground arith

-- The identifier of a client that `validate_pxe` accepts has been checked.
pub validate_pxe-guid :
    (ipxe : Assoc Bytes) (pkt : Packet) (fwtype : ℕ)
    → validate_pxe ipxe pkt ≡ ok fwtype
    → check_guid (value pkt.options Opt.uid_guid_client_identifier) ≡ ok tt
unfolding validate_pxe
validate_pxe-guid ipxe pkt fwtype h =
    let (fwt, e0, h1) =
      bind-ok (wrap bad_client_system (get_uint16 pkt.options Opt.client_system)) _ h in
    let (f, e1, h2) = bind-ok (pxe_identified fwt) _ h1 in
    let (u2, e2, h3) = bind-ok (reject (not (has f ipxe)) (unsupported_firmware f)) _ h2 in
    let (u3, e3, h4) =
      bind-ok (check_guid (value pkt.options Opt.uid_guid_client_identifier)) _ h3 in
    e3
