-- ===== src/Server/Serve/Inverse.antt =====
-- An answer of serveDHCP comes from a boot request.
use netboot.Prelude.{
  ℕ, ◌<◌, ◌≡◌, refl, sym, ap, ◌∙◌, Option, none, some, List, Bytes, All, not, ◌==◌, arith,
}
use mathlib.Core.Path.{subst}
use netboot.Prelude.Result.{ok, ok-injective, bind-ok, wrap, wrap-ok, reject, reject-ok}
use netboot.Dhcp4.MessageType
use netboot.Dhcp4.Options.WellFormed.{IsByte}
use netboot.Dhcp4.Packet.{Packet, unmarshal}
use netboot.Dhcp4.Conn.{Destination, Interface}
use netboot.Server.Booter.{Spec, BootAnswer, no_answer, no_spec, found}
use netboot.Server.Dhcp.{Machine, not_discover, is_boot_dhcp, validate_dhcp}
use netboot.Server.Dhcp.Valid.{validate-Valid}
use netboot.Server.Interface.{interface_ip}
use netboot.Server.Serve.{
  ServeError, not_boot, unusable, boot_request, known_spec, source_ip, or_error, send_offer,
  answer_dhcp, no_addresses, no_usable_address,
}
use netboot.Server.Serve.Answered.{IsOffer, answer_dhcp-IsOffer}

known_spec-found : (a : BootAnswer) → known_spec a ≡ ok tt → (spec : Spec) × (a ≡ found spec)
unfolding known_spec
known_spec-found no_answer h = absurd (cc)
known_spec-found no_spec h = absurd (cc)
known_spec-found (found spec) h = (spec, refl)

or_error-some :
    {A : Type 0} (e : ServeError) (o : Option A) (a : A) → or_error e o ≡ ok a → o ≡ some a
unfolding or_error
or_error-some e none a h = absurd (cc)
or_error-some e (some b) a h = cc

-- A packet that is answered was a discover of a machine that the booter has a spec for, and the
-- answer is an offer to it.
pub record IsAnswer (boot_spec : Machine → BootAnswer) (pkt : Packet) (index : ℕ)
    (d : Bytes × Destination) : Type 0 where
  pub machine : Machine
  pub spec : Spec
  pub server_ip : Bytes
  pub is_discover : pkt.type ≡ MessageType.discover
  pub same_mac : machine.mac ≡ pkt.hardware_addr
  pub to_boot : boot_spec machine ≡ found spec
  pub is_offer : IsOffer pkt server_ip index d

discovers : (pkt : Packet) → is_boot_dhcp pkt ≡ ok tt → pkt.type ≡ MessageType.discover
unfolding is_boot_dhcp
discovers pkt h =
    let (u, e, h1) =
      bind-ok (reject (not (pkt.type == MessageType.discover)) (not_discover pkt.type)) _ h in
    let f = reject-ok (not (pkt.type == MessageType.discover)) (not_discover pkt.type) e in
    ground arith

boot_request-inverse :
    (boot_spec : Machine → BootAnswer) (pkt : Packet) (mach : Machine) (fwtype : ℕ)
    → boot_request boot_spec pkt ≡ ok (mach, fwtype)
    → (is_boot_dhcp pkt ≡ ok tt)
      × (validate_dhcp pkt ≡ ok (mach, fwtype))
      × ((spec : Spec) × (boot_spec mach ≡ found spec))
unfolding boot_request
boot_request-inverse boot_spec pkt mach fwtype h =
    let (u, e0, h0) = bind-ok (wrap not_boot (is_boot_dhcp pkt)) _ h in
    let ((m, f), e1, h1) = bind-ok (wrap unusable (validate_dhcp pkt)) _ h0 in
    let (v, e2, h2) = bind-ok (known_spec (boot_spec m)) _ h1 in
    let same : (m, f) ≡ (mach, fwtype) = ok-injective h2 in
    (
      wrap-ok not_boot (is_boot_dhcp pkt) e0,
      wrap-ok unusable (validate_dhcp pkt) e1 ∙ ap (λ p. ok p) same,
      subst (λ x. (spec : Spec) × (boot_spec x ≡ found spec)) (ap (λ p. p.0) same)
          (known_spec-found (boot_spec m) e2),
    )

source_ip-inverse :
    (intf : Interface) (ip : Bytes)
    → source_ip intf ≡ ok ip
    → (addrs : List Bytes) × (intf.addresses ≡ some addrs) × (interface_ip addrs ≡ some ip)
unfolding source_ip
source_ip-inverse intf ip h =
    let (addrs, e, h0) = bind-ok (or_error no_addresses intf.addresses) _ h in
    (
      addrs,
      or_error-some no_addresses intf.addresses addrs e,
      or_error-some no_usable_address (interface_ip addrs) ip h0,
    )

pub answer_dhcp-IsAnswer :
    (http_port : ℕ) (boot_spec : Machine → BootAnswer) (b : Bytes) (pkt : Packet) (intf : Interface)
    (d : Bytes × Destination)
    → http_port < 65536
    → unmarshal b ≡ ok pkt
    → ((ip : Bytes) → source_ip intf ≡ ok ip → All IsByte ip)
    → answer_dhcp http_port boot_spec pkt intf ≡ ok d
    → IsAnswer boot_spec pkt intf.index d
unfolding answer_dhcp send_offer
answer_dhcp-IsAnswer http_port boot_spec b pkt intf d port read bytes h =
    let ((mach, fwtype), e0, h0) = bind-ok (boot_request boot_spec pkt) _ h in
    let (boot, valid, (spec, there)) = boot_request-inverse boot_spec pkt mach fwtype e0 in
    let (ip, e1, h1) = bind-ok (source_ip intf) _ h0 in
    let (addrs, addresses, best) = source_ip-inverse intf ip e1 in
    let (d', sent, offer) =
      answer_dhcp-IsOffer http_port boot_spec b pkt intf addrs ip mach fwtype spec port read boot
        valid there addresses best (bytes ip e1) in
    record {
      machine = mach;
      spec = spec;
      server_ip = ip;
      is_discover = discovers pkt boot;
      same_mac = (validate-Valid pkt mach fwtype valid).same_mac;
      to_boot = there;
      is_offer = subst (IsOffer pkt ip intf.index) (ok-injective (sym sent ∙ h)) offer;
    }
