-- ===== src/Server/Dhcp/Sendable.antt =====
-- The answers of the DHCP and the PXE service fit into packets.
use netboot.Prelude.{
  ℕ, ◌≤◌, ◌<◌, ◌≡◌, refl, ◌∙◌, false, none, some, Option, [], ◌∷◌, Bytes, length, ◌==◌, arith,
}
use netboot.Prelude.Assoc.{lookup, insert, lookup-insert, keys, has_key}
use netboot.Prelude.Result.{ok}
use netboot.Prelude.Text.{literal}
use netboot.Dhcp4.Opt
use netboot.Dhcp4.Options.{Options, value}
use netboot.Dhcp4.Options.WellFormed.{IsWire, IsWire-empty, IsWire-insert, EntryFits}
use netboot.Dhcp4.Packet.{Packet, bootp_op, overload_flags}
use netboot.Dhcp4.Packet.Fields.{IsText}
use netboot.Dhcp4.Packet.Parts.{IsSendable, overload_flags_cong}
use netboot.Dhcp4.Packet.Unset.{zeroed, length-write_ip}
use netboot.Server.Dhcp.{check_guid, mirror_guid, base_options}
use netboot.Server.Strings.Width.{FitsIn}

-- Options that fit the wire, without a message type and without an overload.
pub record IsPlain (o : Options) : Type 0 where
  pub wire : IsWire o
  pub no_type : lookup Opt.dhcp_message_type o ≡ none
  pub no_overload : lookup Opt.overload o ≡ none

IsPlain-empty : IsPlain []
unfolding lookup
IsPlain-empty = record { wire = IsWire-empty; no_type = refl; no_overload = refl }

pub IsPlain-insert :
    (n : ℕ) (v : Bytes) (o : Options)
    → EntryFits (n, v)
    → (n == Opt.dhcp_message_type) ≡ false
    → (n == Opt.overload) ≡ false
    → IsPlain o
    → IsPlain (insert n v o)
IsPlain-insert n v o fits not_type not_overload p = record {
  wire = IsWire-insert n v o fits p.wire;
  no_type = lookup-insert n Opt.dhcp_message_type v o ∙ rw not_type (p.no_type);
  no_overload = lookup-insert n Opt.overload v o ∙ rw not_overload (p.no_overload);
}

check_guid-length : (guid : Bytes) → check_guid guid ≡ ok tt → length guid ≤ 255
unfolding check_guid
check_guid-length guid h = ground arith

-- The two options that an answer starts with.
abbrev start : Bytes → Options
start server_ip =
    (Opt.server_identifier, server_ip) ∷ (Opt.vendor_identifier, literal "PXEClient") ∷ []

start-IsPlain : (server_ip : Bytes) → length server_ip ≡ 4 → IsPlain (start server_ip)
unfolding lookup keys has_key
start-IsPlain server_ip four = record {
  wire = record {
    entries = (
      (omega arith, omega arith, omega (arith, four)),
      ((omega arith, omega arith, omega arith), tt),
    );
    distinct = (refl, (refl, tt));
  };
  no_type = refl;
  no_overload = refl;
}

-- The options of every answer, where the identifier of the client has been checked.
pub base_options-IsPlain :
    (pkt : Packet) (server_ip : Bytes)
    → length server_ip ≡ 4
    → check_guid (value pkt.options Opt.uid_guid_client_identifier) ≡ ok tt
    → IsPlain (base_options pkt server_ip)
unfolding base_options mirror_guid value
base_options-IsPlain pkt server_ip four checked =
    go (lookup Opt.uid_guid_client_identifier pkt.options) checked
  where
    go :
        (g : Option Bytes)
        → check_guid (elim g as (λ _. Bytes) [ none ↦ [] | some v ↦ v ]) ≡ ok tt
        → IsPlain (elim g as (λ _. Options) [
          | none ↦ start server_ip
          | some v ↦ insert Opt.uid_guid_client_identifier v (start server_ip)
        ])
    go none c = start-IsPlain server_ip four
    go (some v) c =
        IsPlain-insert Opt.uid_guid_client_identifier v (start server_ip)
          (omega arith, omega arith, check_guid-length v c) refl refl (start-IsPlain server_ip four)

no_flags : (o : Options) → lookup Opt.overload o ≡ none → overload_flags o ≡ (false, false)
unfolding overload_flags lookup
no_flags o h = overload_flags_cong o [] h

FitsIn-IsText : (k size : ℕ) (s : Bytes) → k < size → FitsIn k s → IsText size s
FitsIn-IsText k size s h f = let l = f.short in record { shorter = omega arith; no_nul = f.no_nul }

-- A packet with plain options and short texts can be sent, with zeros for nil addresses.
pub zeroed-IsSendable :
    (p : Packet) (op : ℕ)
    → (length p.transaction_id ≡ 4) × (length p.hardware_addr ≡ 6)
    → (length p.server_addr ≡ 4) × (length p.relay_addr ≡ 4)
    → bootp_op p.type ≡ some op
    → IsPlain p.options
    → FitsIn 63 p.boot_server_name
    → FitsIn 127 p.boot_filename
    → IsSendable (zeroed p) op
zeroed-IsSendable p op (id, hw) (server, relay) known plain name file = record {
  id_size = id;
  hardware_size = hw;
  client_size = length-write_ip p.client_addr;
  your_size = length-write_ip p.your_addr;
  server_size = server;
  relay_size = relay;
  known = known;
  wire = plain.wire;
  no_type = plain.no_type;
  sname_fits = rw flags (FitsIn-IsText 63 64 p.boot_server_name (omega arith) name);
  file_fits = rw flags (FitsIn-IsText 127 128 p.boot_filename (omega arith) file);
}
  where
    flags : overload_flags p.options ≡ (false, false)
    flags = no_flags p.options plain.no_overload
