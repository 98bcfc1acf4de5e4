-- ===== src/Dhcp4/Packet/Parts.antt =====
-- The parts of a packet on the wire: which options go where, and where each part lies.
use netboot.Prelude.{
  ℕ, ◌+◌, ◌%◌, ◌≤◌, ◌<◌, ◌≡◌, refl, sym, ap, ◌∙◌, Bool, true, false, ◌&&◌, not, none, some, List,
  [], ◌∷◌, ◌++◌, Bytes, length, length-append, drop, slice, drop-drop, take-append_of,
  drop-append_of, length-drop, All, ltb, arith, ◌⊎◌, inl, inr,
}
use netboot.Prelude.Assoc.{lookup, has, has_key, lookup-insert}
use netboot.Prelude.Result.{ok}
use netboot.Net.{is_empty}
use netboot.Dhcp4.Opt
use netboot.Dhcp4.Options.{Options}
use netboot.Dhcp4.Options.Values.{byte_cong, byte_cases}
use netboot.Dhcp4.Options.WellFormed.{IsWire, IsWire-insert}
use netboot.Dhcp4.Options.Layout.{insert_all}
use netboot.Dhcp4.Options.Split.{lookup-insert_all}
use netboot.Dhcp4.Options.RoundTrip.{written, kept_keys, marshal_limited_lem}
use netboot.Dhcp4.Options.RoundTrip.Remainder.{lookup-main, no_left_over}
use netboot.Dhcp4.Packet.{
  Packet, header, marshal, magic, bootp_op, bootp_op_of, overload_flags, wire_options, check_op,
}
use netboot.Dhcp4.Packet.Fields.{
  FieldFits, field_bytes, field_keys, field_left, write_field_lem, field_split, field_apart,
  field_left-IsWire, field_overload, field_left-text,
}

-- A packet that has a wire form from which it can be read back.
pub record IsSendable (p : Packet) (op : ℕ) : Type 0 where
  pub id_size : length p.transaction_id ≡ 4
  pub hardware_size : length p.hardware_addr ≡ 6
  pub client_size : length p.client_addr ≡ 4
  pub your_size : length p.your_addr ≡ 4
  pub server_size : length p.server_addr ≡ 4
  pub relay_size : length p.relay_addr ≡ 4
  pub known : bootp_op p.type ≡ some op
  pub wire : IsWire p.options
  pub no_type : lookup Opt.dhcp_message_type p.options ≡ none
  pub sname_fits : FieldFits (overload_flags p.options).1 64 p.boot_server_name
  pub file_fits : FieldFits (overload_flags p.options).0 128 p.boot_filename

-- The options that go into the first field, the second and the main section.
module _ (p : Packet) where
  abbrev pub flags : Bool × Bool
  flags = overload_flags p.options

  abbrev pub after_sname : Options
  after_sname = field_left flags.1 64 (wire_options p)

  abbrev pub after_file : Options
  after_file = field_left flags.0 128 after_sname

  abbrev pub body : Bytes
  body =
      field_bytes flags.1 64 p.boot_server_name (wire_options p)
      ++ (field_bytes flags.0 128 p.boot_filename after_sname
          ++ (magic ++ written after_file 0 false))

  abbrev pub packet_bytes : ℕ → Bytes
  packet_bytes op =
      header op p.transaction_id p.broadcast p.client_addr p.your_addr p.server_addr p.relay_addr
        p.hardware_addr
      ++ body

pub bootp_op-lt : (t op : ℕ) → bootp_op t ≡ some op → t < 256
unfolding bootp_op
bootp_op-lt t op h = ground arith

pub wire_options-IsWire : (p : Packet) (op : ℕ) → IsSendable p op → IsWire (wire_options p)
unfolding wire_options
wire_options-IsWire p op s =
    IsWire-insert Opt.dhcp_message_type (p.type % 256 ∷ []) p.options (omega arith) s.wire

sname_length : (ov : Bool) (s : Bytes) → FieldFits ov 64 s → ltb 64 (length s) ≡ false
sname_length true s f = rw f
sname_length false s f = let h = f.shorter in ground arith

no_text :
    (ov : Bool) (size : ℕ) (s : Bytes) → FieldFits ov size s → (ov && not (is_empty s)) ≡ false
no_text true size s f = rw f
no_text false size s f = refl

bootp_op_of_known : (t op : ℕ) → bootp_op t ≡ some op → bootp_op_of t ≡ ok op
unfolding bootp_op_of
bootp_op_of_known t op h = rw (h, bootp_op_of)

pub marshal_lem : (p : Packet) (op : ℕ) → IsSendable p op → marshal p ≡ ok (packet_bytes p op)
unfolding marshal
marshal_lem p op s =
    let w = wire_options-IsWire p op s in
    let w1 = field_left-IsWire (flags p).1 64 (wire_options p) w in
    let w2 = field_left-IsWire (flags p).0 128 (after_sname p) w1 in
    rw (
      s.id_size,
      s.hardware_size,
      sname_length (flags p).1 p.boot_server_name s.sname_fits,
      no_text (flags p).0 128 p.boot_filename s.file_fits,
      no_text (flags p).1 64 p.boot_server_name s.sname_fits,
      bootp_op_of_known p.type op s.known,
      write_field_lem (flags p).1 64 p.boot_server_name (wire_options p) w,
      write_field_lem (flags p).0 128 p.boot_filename (after_sname p) w1,
      marshal_limited_lem (after_file p) 0 false w2,
      no_left_over (after_file p),
    )

-- The options as `unmarshal` collects them: the main section, then 'sname', then 'file'.
module _ (p : Packet) where
  abbrev pub main_options : Options
  main_options = insert_all (after_file p) (kept_keys (after_file p) 0 false) []

  abbrev pub sname_keys : List ℕ
  sname_keys = field_keys (flags p).1 64 (wire_options p)

  abbrev pub file_keys : List ℕ
  file_keys = field_keys (flags p).0 128 (after_sname p)

  abbrev pub with_sname : Options
  with_sname = insert_all (wire_options p) sname_keys main_options

  abbrev pub collected : Options
  collected = insert_all (after_sname p) file_keys with_sname

pub All-of {κ} : (P : ℕ → Type κ) (ks : List ℕ) → ((j : ℕ) → has_key j ks ≡ true → P j) → All P ks
All-of P [] h = tt
All-of P (k ∷ ks) h = (
  h k (unfold has_key in ground arith),
  All-of P ks (λ j e. h j (unfold has_key in ground arith)),
)

-- Each key that was put into a field is in no later part.
module _ (p : Packet) (op : ℕ) (s : IsSendable p op) (j : ℕ) where
  pub sname_new : has_key j (sname_keys p) ≡ true → has j (main_options p) ≡ false
  unfolding has
  sname_new h = ground (
    arith,
    lookup-main (after_file p) j,
    field_split (flags p).0 128 (after_sname p) j,
    field_apart (flags p).1 64 (wire_options p) j (wire_options-IsWire p op s) h,
  )

  pub file_new : has_key j (file_keys p) ≡ true → has j (with_sname p) ≡ false
  unfolding has
  file_new h = ground (
    arith,
    lookup-main (after_file p) j,
    lookup-insert_all (wire_options p) (sname_keys p) (main_options p) j,
    field_split (flags p).0 128 (after_sname p) j,
    field_apart (flags p).1 64 (wire_options p) j (wire_options-IsWire p op s),
    field_apart (flags p).0 128 (after_sname p) j
        (field_left-IsWire (flags p).1 64 (wire_options p) (wire_options-IsWire p op s)) h,
  )

  -- Together the three parts are the options of the packet with option 53.
  pub lookup-collected : lookup j (collected p) ≡ lookup j (wire_options p)
  unfolding has
  lookup-collected = ground (
    arith,
    lookup-main (after_file p) j,
    lookup-insert_all (wire_options p) (sname_keys p) (main_options p) j,
    lookup-insert_all (after_sname p) (file_keys p) (with_sname p) j,
    field_split (flags p).0 128 (after_sname p) j,
    field_split (flags p).1 64 (wire_options p) j,
    field_apart (flags p).1 64 (wire_options p) j (wire_options-IsWire p op s),
  )

-- Where the parts of `body` lie in a packet.
module _ (bs sn fl main : Bytes) (at : drop 44 bs ≡ sn ++ (fl ++ (magic ++ main)))
    (hs : length sn ≡ 64) (hf : length fl ≡ 128) where
  at_108 : drop 108 bs ≡ fl ++ (magic ++ main)
  at_108 = drop-drop 44 64 bs ∙ rw at (drop-append_of 64 sn _ hs)

  at_236 : drop 236 bs ≡ magic ++ main
  at_236 = drop-drop 108 128 bs ∙ rw at_108 (drop-append_of 128 fl _ hf)

  pub sname_at : slice 44 108 bs ≡ sn
  sname_at = rw at (take-append_of 64 sn _ hs)

  pub file_at : slice 108 236 bs ≡ fl
  file_at = rw at_108 (take-append_of 128 fl _ hf)

  pub magic_at : slice 236 240 bs ≡ magic
  magic_at = rw at_236

  pub main_at : drop 240 bs ≡ main
  main_at = drop-drop 236 4 bs ∙ rw at_236

  pub long_enough : 4 ≤ length main → ltb (length bs) 244 ≡ false
  long_enough h =
      let total : 240 + length main ≤ length bs = omega (
        arith,
        length-drop 44 bs,
        ap (length {A = ℕ}) at,
        length-append sn (fl ++ (magic ++ main)),
        length-append fl (magic ++ main),
      ) in
      ground arith

pub overload_flags_cong :
    (o o' : Options)
    → lookup Opt.overload o ≡ lookup Opt.overload o'
    → overload_flags o ≡ overload_flags o'
unfolding overload_flags
overload_flags_cong o o' h = rw (byte_cong o o' Opt.overload h)

overload_cases :
    (o : Options)
    → (overload_flags o ≡ (false, false)) ⊎ ((v : ℕ) × (lookup Opt.overload o ≡ some (v ∷ [])))
unfolding overload_flags
overload_cases o = elim (byte_cases o Opt.overload) [ inl (e, h) ↦ inl (rw h) | inr r ↦ inr r ]

pub check_op_known : (op t : ℕ) → bootp_op t ≡ some op → check_op op t ≡ ok tt
unfolding check_op
check_op_known op t h = rw (h, check_op) (ground arith)

pub overload_stays :
    (p : Packet) → lookup Opt.overload p.options ≡ lookup Opt.overload (after_file p)
unfolding wire_options
overload_stays p = ground (
  arith,
  lookup-insert Opt.dhcp_message_type Opt.overload (p.type % 256 ∷ []) p.options,
  field_overload (flags p).1 64 (wire_options p) (omega arith),
  field_overload (flags p).0 128 (after_sname p) (omega arith),
  field_split (flags p).1 64 (wire_options p) Opt.overload,
  field_split (flags p).0 128 (after_sname p) Opt.overload,
)

type_stays :
    (p : Packet)
    → overload_flags p.options ≡ (false, false)
    → lookup Opt.dhcp_message_type (after_file p) ≡ some (p.type % 256 ∷ [])
unfolding wire_options
type_stays p e = rw e (
    ground (
      arith,
      lookup-insert Opt.dhcp_message_type Opt.dhcp_message_type (p.type % 256 ∷ []) p.options,
      field_left-text 64 (wire_options p),
      field_left-text 128 (wire_options p),
    ))

-- One option with a one-byte value stays for the main section: 52 if a field is overloaded, else 53.
pub main_option :
    (p : Packet) (op : ℕ) → IsSendable p op → (k b : ℕ) × (lookup k (after_file p) ≡ some (b ∷ []))
main_option p op s = elim (overload_cases p.options) [
  | inl none_set ↦ (Opt.dhcp_message_type, p.type % 256, type_stays p none_set)
  | inr (v, e) ↦ (Opt.overload, v, sym (overload_stays p) ∙ e)
]
