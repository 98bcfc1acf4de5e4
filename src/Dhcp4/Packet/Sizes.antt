-- ===== src/Dhcp4/Packet/Sizes.antt =====
-- How long the addresses are in a packet that was read from the wire.
use netboot.Prelude.{
  ℕ, ◌-◌, ◌≤◌, ◌≡◌, [], not, ◌||◌, Bytes, length, slice, drop, get_or, length-take, length-drop,
  ltb, ltb_false→le, ◌==◌, arith,
}
use mathlib.Core.Path.{subst}
use netboot.Prelude.Result.{Result, ok, err, reject, reject-ok, wrap, bind-ok}
use netboot.Net.{equal}
use netboot.Dhcp4.Opt
use netboot.Dhcp4.Options.{unmarshal as unmarshal_options}
use netboot.Dhcp4.Options.Values.{byte}
use netboot.Dhcp4.Packet.{
  Packet, PacketError, too_short, no_magic, unsupported_hardware, bad_options, bad_sname, bad_file,
  unterminated_sname, unterminated_file, no_message_type, magic, checked, read_field,
  overload_flags, check_op, unmarshal,
}

pub record Sizes (p : Packet) : Type 0 where
  pub id_size : length p.transaction_id ≡ 4
  pub hardware_size : length p.hardware_addr ≡ 6
  pub client_size : length p.client_addr ≡ 4
  pub relay_size : length p.relay_addr ≡ 4

length-slice :
    (lo hi : ℕ) (bs : Bytes) → lo ≤ hi → hi ≤ length bs → length (slice lo hi bs) ≡ hi - lo
length-slice lo hi bs h k = omega (arith, length-take (hi - lo) (drop lo bs), length-drop lo bs)

pub unmarshal-Sizes : (bs : Bytes) (p : Packet) → unmarshal bs ≡ ok p → Sizes p
unfolding unmarshal
unmarshal-Sizes bs p h =
    let (u0, e0, h0) = bind-ok (reject (ltb (length bs) 244) too_short) _ h in
    let (u1, e1, h1) = bind-ok (reject (not (equal (slice 236 240 bs) magic)) no_magic) _ h0 in
    let (u2, e2, h2) =
      bind-ok
        (reject (not (get_or bs 1 0 == 1) || not (get_or bs 2 0 == 6))
          (unsupported_hardware (get_or bs 1 0) (get_or bs 2 0)))
        _ h1 in
    let (o, e3, h3) =
      bind-ok (wrap bad_options (checked (unmarshal_options (drop 240 bs) []))) _ h2 in
    let ((sname, o1), e4, h4) =
      bind-ok (read_field (overload_flags o).1 bad_sname unterminated_sname (slice 44 108 bs) o) _
        h3 in
    let ((file, o2), e5, h5) =
      bind-ok (read_field (overload_flags o).0 bad_file unterminated_file (slice 108 236 bs) o1) _
        h4 in
    let (t, e6, h6) = bind-ok (wrap no_message_type (byte o2 Opt.dhcp_message_type)) _ h5 in
    let (u7, e7, h7) = bind-ok (check_op (get_or bs 0 0) t) _ h6 in
    let long : 244 ≤ length bs =
      ltb_false→le (length bs) 244 (reject-ok (ltb (length bs) 244) too_short e0) in
    subst Of_packet h7 (record {
      id_size = length-slice 4 8 bs (omega arith) (omega arith);
      hardware_size = length-slice 28 34 bs (omega arith) (omega arith);
      client_size = length-slice 12 16 bs (omega arith) (omega arith);
      relay_size = length-slice 24 28 bs (omega arith) (omega arith);
    })
  where
    Of_packet : Result PacketError Packet → Type 0
    Of_packet (ok q) = Sizes q
    Of_packet (err e) = Unit {0}
