-- ===== src/Dhcp4/Packet/RoundTrip.antt =====
-- `unmarshal` reads back what `marshal` wrote, options in the 'sname' and 'file' fields included.
use netboot.Prelude.{ℕ, ◌%◌, ◌≤◌, ◌≡◌, sym, ◌∙◌, false, [], ◌∷◌, Bytes, length, drop, arith}
use netboot.Prelude.Assoc.{lookup, remove, lookup-insert, lookup-remove}
use netboot.Prelude.Result.{ok}
use netboot.Dhcp4.Opt
use netboot.Dhcp4.Options.{Options}
use netboot.Dhcp4.Options.Values.{byte, byte-lookup}
use netboot.Dhcp4.Options.RoundTrip.{written, kept_keys, unmarshal-written, none_present}
use netboot.Dhcp4.Options.RoundTrip.Remainder.{lookup-main, length-main}
use netboot.Dhcp4.Options.WellFormed.{IsWire}
use netboot.Dhcp4.Packet.{
  Packet, marshal, unmarshal, overload_flags, wire_options, bad_sname, unterminated_sname, bad_file,
  unterminated_file, checked,
}
use netboot.Dhcp4.Packet.Header.{Reads, header-Reads}
use netboot.Dhcp4.Packet.Fields.{field_bytes, length-field_bytes, read_field_lem, field_left-IsWire}
use netboot.Dhcp4.Packet.Parts.{
  IsSendable, flags, after_sname, after_file, body, packet_bytes, marshal_lem, wire_options-IsWire,
  sname_new, file_new, lookup-collected, All-of, sname_at, file_at, magic_at, main_at, long_enough,
  overload_flags_cong, overload_stays, main_option, check_op_known, bootp_op-lt, main_options,
  sname_keys, file_keys, with_sname, collected,
}
use native.Mathlib.Nat.{mod-eq_of_lt}

module _ (p : Packet) (op : ℕ) (s : IsSendable p op) where
  w1 : IsWire (after_sname p)
  w1 = field_left-IsWire (flags p).1 64 (wire_options p) (wire_options-IsWire p op s)

  w2 : IsWire (after_file p)
  w2 = field_left-IsWire (flags p).0 128 (after_sname p) w1

  reads :
      Reads
        (packet_bytes p op)
        op
        p.transaction_id
        p.broadcast
        p.client_addr
        p.your_addr
        p.server_addr
        p.relay_addr
        p.hardware_addr
      × (drop 44 (packet_bytes p op) ≡ body p)
  reads =
      header-Reads op p.transaction_id p.broadcast p.client_addr p.your_addr p.server_addr
        p.relay_addr p.hardware_addr s.id_size s.client_size s.your_size s.server_size s.relay_size
        s.hardware_size (body p)

  sname_size : length (field_bytes (flags p).1 64 p.boot_server_name (wire_options p)) ≡ 64
  sname_size =
      length-field_bytes (flags p).1 64 p.boot_server_name (wire_options p) (omega arith)
        s.sname_fits

  file_size : length (field_bytes (flags p).0 128 p.boot_filename (after_sname p)) ≡ 128
  file_size =
      length-field_bytes (flags p).0 128 p.boot_filename (after_sname p) (omega arith) s.file_fits

  main_size : 4 ≤ length (written (after_file p) 0 false)
  main_size =
      let (k, b, h) = main_option p op s in omega (arith, length-main (after_file p) k (b ∷ []) h)

  flags_main : overload_flags (main_options p) ≡ flags p
  flags_main =
      overload_flags_cong (main_options p) p.options
        (lookup-main (after_file p) Opt.overload ∙ sym (overload_stays p))

  type_read : byte (collected p) Opt.dhcp_message_type ≡ ok p.type
  type_read = byte-lookup (collected p) Opt.dhcp_message_type p.type (
      lookup-collected p op s Opt.dhcp_message_type
      ∙ unfold wire_options in rw lookup-insert (rw (mod-eq_of_lt (bootp_op-lt p.type op s.known))))

  options_read :
      (j : ℕ) → lookup j (remove Opt.dhcp_message_type (collected p)) ≡ lookup j p.options
  unfolding wire_options
  options_read j = ground (
    arith,
    lookup-remove Opt.dhcp_message_type j (collected p),
    lookup-collected p op s j,
    lookup-insert Opt.dhcp_message_type j (p.type % 256 ∷ []) p.options,
    s.no_type,
  )

  unmarshal-packet_bytes :
      unmarshal (packet_bytes p op)
      ≡ ok (record p { options = remove Opt.dhcp_message_type (collected p) })
  unfolding unmarshal checked
  unmarshal-packet_bytes =
      let bs = packet_bytes p op in
      let sn = field_bytes (flags p).1 64 p.boot_server_name (wire_options p) in
      let fl = field_bytes (flags p).0 128 p.boot_filename (after_sname p) in
      let main = written (after_file p) 0 false in
      let (r, at) = reads in
      rw (
        long_enough bs sn fl main at sname_size file_size main_size,
        magic_at bs sn fl main at sname_size file_size,
        r.kind_at,
        r.size_at,
        main_at bs sn fl main at sname_size file_size,
        unmarshal-written (after_file p) 0 false [] w2
            (none_present (kept_keys (after_file p) 0 false)),
        flags_main,
        sname_at bs sn fl main at sname_size file_size,
        read_field_lem (flags p).1 64 p.boot_server_name (wire_options p) (main_options p) bad_sname
            unterminated_sname (wire_options-IsWire p op s) s.sname_fits
            (All-of _ (sname_keys p) (λ j. sname_new p op s j)),
        file_at bs sn fl main at sname_size file_size,
        read_field_lem (flags p).0 128 p.boot_filename (after_sname p) (with_sname p) bad_file
            unterminated_file w1 s.file_fits (All-of _ (file_keys p) (λ j. file_new p op s j)),
        type_read,
        r.op_at,
        check_op_known op p.type s.known,
        r.id_at,
        r.broadcast_at,
        r.hardware_at,
        r.client_at,
        r.your_at,
        r.server_at,
        r.relay_at,
      )

  -- A packet that is fit to be sent is marshalled without an error, and `unmarshal` gives it back:
  -- every field is the same, and the options have the same lookups, also where option 52 puts
  -- options into the 'sname' and 'file' fields.
  pub unmarshal-marshal_packet :
      (bs : Bytes) × (o : Options) × (marshal p ≡ ok bs)
      × (unmarshal bs ≡ ok (record p { options = o }))
      × ((j : ℕ) → lookup j o ≡ lookup j p.options)
  unmarshal-marshal_packet = (
    packet_bytes p op,
    remove Opt.dhcp_message_type (collected p),
    marshal_lem p op s,
    unmarshal-packet_bytes,
    options_read,
  )
