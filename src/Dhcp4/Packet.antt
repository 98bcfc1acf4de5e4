-- ===== src/Dhcp4/Packet.antt =====
-- dhcp4/packet.go: DHCP packets, their wire form and how they are sent.
pub mod Header
pub mod Fields
pub mod Parts
pub mod RoundTrip
pub mod Unset
pub mod Sizes
use netboot.Prelude.{
  ℕ, zero, suc, ◌+◌, ◌-◌, ◌%◌, Bool, true, false, ◌&&◌, ◌||◌, not, Option, none, some, List, [],
  ◌∷◌, ◌++◌, Bytes, length, slice, drop, get_or, replicate, ltb, ◌==◌, if◌then◌else◌, bit_and,
}
use netboot.Prelude.Assoc.{insert, remove}
use netboot.Prelude.Result.{Result, ok, err, ◌>>=◌, ◌>>◌, reject, wrap}
use netboot.Net.{equal, is_empty, to4, is_global_unicast, is_loopback}
use netboot.Dhcp4.Opt
use netboot.Dhcp4.MessageType
use netboot.Dhcp4.Options.{Options, OptionsError, unmarshal as unmarshal_options, marshal_limited}
use netboot.Dhcp4.Options.Values.{byte, uint16}

abbrev pub magic : Bytes
magic = 99 ∷ 130 ∷ 83 ∷ 99 ∷ []

pub record Packet : Type 0 where
  pub type : ℕ
  pub transaction_id : Bytes
  pub broadcast : Bool
  pub hardware_addr : Bytes
  pub client_addr : Bytes
  pub your_addr : Bytes
  pub server_addr : Bytes
  pub relay_addr : Bytes
  pub boot_server_name : Bytes
  pub boot_filename : Bytes
  pub options : Options

-- How a packet is sent (`txType` in dhcp4/conn.go).
pub data TxType : Type 0 where
  client_broadcast server_broadcast relay_addr client_addr hardware_addr : TxType

-- The `switch` of `txType`, case by case.
unfoldable pub tx_type : Packet → TxType
tx_type p =
    if not (is_empty p.relay_addr) && is_global_unicast p.relay_addr
    then relay_addr
    else if p.type == MessageType.nack
    then server_broadcast
    else if not (is_empty p.client_addr)
        && (is_global_unicast p.client_addr || is_loopback p.client_addr)
    then client_addr
    else if p.broadcast && p.type == MessageType.discover
    then client_broadcast
    else if p.broadcast
    then server_broadcast
    else hardware_addr

pub data PacketError : Type 0 where
  transaction_id_size hardware_addr_size sname_too_long : PacketError
  file_holds_options sname_holds_options not_written : PacketError
  unknown_type : ℕ → PacketError
  bad_options bad_sname bad_file no_message_type : OptionsError → PacketError
  too_short no_magic unterminated_sname unterminated_file : PacketError
  unsupported_hardware op_mismatch : ℕ → ℕ → PacketError

-- The BOOTP operation that belongs to a message type: the `switch` of `Marshal` and `Unmarshal`.
unfoldable pub bootp_op : ℕ → Option ℕ
bootp_op t =
    if t == MessageType.discover
      || (t == MessageType.request
          || (t == MessageType.decline || (t == MessageType.release || t == MessageType.inform)))
    then some 1
    else if t == MessageType.offer || (t == MessageType.ack || t == MessageType.nack)
    then some 2
    else none

-- `v&1 != 0, v&2 != 0` of option 52, both false without a one-byte option 52.
flags_of : Result OptionsError ℕ → Bool × Bool
flags_of (ok v) = (not (bit_and v 1 == 0), not (bit_and v 2 == 0))
flags_of (err e) = (false, false)

unfoldable pub overload_flags : Options → Bool × Bool
unfolding flags_of byte
overload_flags o = flags_of (byte o Opt.overload)

unfoldable pub write_ip : Bytes → Bytes
unfolding to4
write_ip ip = elim (to4 ip) [ none ↦ replicate 4 0 | some ip4 ↦ ip4 ]

-- The 44 bytes before the 'sname' field.
pub header : ℕ → Bytes → Bool → Bytes → Bytes → Bytes → Bytes → Bytes → Bytes
unfolding write_ip
header op transaction_id broadcast client your server relay hardware =
    op
    ∷ 1
    ∷ 6
    ∷ 0
    ∷ (transaction_id
        ++ (0
            ∷ 0
            ∷ (if broadcast then 0x80 else 0)
            ∷ 0
            ∷ (write_ip client
                ++ (write_ip your
                    ++ (write_ip server ++ (write_ip relay ++ (hardware ++ replicate 10 0)))))))

-- The 'sname' or 'file' field: options if it is overloaded, and else text filled up with zeros.
-- `size` is not enforced for text.
pub write_field : Bool → ℕ → Bytes → Options → Result PacketError (Bytes × Options)
write_field overloaded size text o =
    if overloaded
    then wrap bad_options (marshal_limited o size true)
    else ok (text ++ replicate (size - length text) 0, o)

pub bootp_op_of : ℕ → Result PacketError ℕ
unfolding bootp_op
bootp_op_of t = elim (bootp_op t) [ none ↦ err (unknown_type t) | some op ↦ ok op ]

-- The options of the packet and its type as option 53. The map is a copy: `p` keeps its own.
pub wire_options : Packet → Options
wire_options p = insert Opt.dhcp_message_type (p.type % 256 ∷ []) p.options

unfoldable pub marshal : Packet → Result PacketError Bytes
unfolding overload_flags bootp_op_of header write_field wire_options
marshal p = do
  reject (not (length p.transaction_id == 4)) transaction_id_size
  reject (not (length p.hardware_addr == 6)) hardware_addr_size
  reject (ltb 64 (length p.boot_server_name)) sname_too_long
  let flags = overload_flags p.options
  reject (flags.0 && not (is_empty p.boot_filename)) file_holds_options
  reject (flags.1 && not (is_empty p.boot_server_name)) sname_holds_options
  op ← bootp_op_of p.type
  (sname, opts) ← write_field flags.1 64 p.boot_server_name (wire_options p)
  (file, opts') ← write_field flags.0 128 p.boot_filename opts
  (main, leftover) ← wrap bad_options (marshal_limited opts' 0 false)
  reject (ltb 0 (length leftover)) not_written
  ok (
      header op p.transaction_id p.broadcast p.client_addr p.your_addr p.server_addr p.relay_addr
        p.hardware_addr
      ++ (sname ++ (file ++ (magic ++ main))))

-- nullStr: the bytes before the first zero.
unfoldable pub null_str : Bytes → Option Bytes
null_str [] = none
null_str (b ∷ bs) =
    if b == 0 then some [] else elim (null_str bs) [ none ↦ none | some s ↦ some (b ∷ s) ]

-- `if err := o.Unmarshal(bs); err != nil { return nil, … }`
pub checked : Options × Option OptionsError → Result OptionsError Options
checked (o, none) = ok o
checked (o, some e) = err e

pub text_or : PacketError → Option Bytes → Result PacketError Bytes
text_or e none = err e
text_or e (some s) = ok s

-- Reading the 'sname' or 'file' field: its text, and the options after it.
pub read_field :
    Bool
    → (OptionsError → PacketError)
    → PacketError
    → Bytes
    → Options
    → Result PacketError (Bytes × Options)
unfolding null_str checked text_or
read_field overloaded bad unterminated field o =
    if overloaded
    then (do o' ← wrap bad (checked (unmarshal_options field o)); ok ([], o'))
    else (do s ← text_or unterminated (null_str field); ok (s, o))

pub check_op : ℕ → ℕ → Result PacketError (Unit {0})
unfolding bootp_op
check_op op t = elim (bootp_op t) [
  | none ↦ err (unknown_type t)
  | some expected ↦ reject (not (op == expected)) (op_mismatch op t)
]

unfoldable pub unmarshal : Bytes → Result PacketError Packet
unfolding overload_flags checked read_field check_op equal byte
unmarshal bs = do
  reject (ltb (length bs) 244) too_short
  reject (not (equal (slice 236 240 bs) magic)) no_magic
  reject (not (get_or bs 1 0 == 1) || not (get_or bs 2 0 == 6))
      (unsupported_hardware (get_or bs 1 0) (get_or bs 2 0))
  o ← wrap bad_options (checked (unmarshal_options (drop 240 bs) []))
  let flags = overload_flags o
  (sname, o') ← read_field flags.1 bad_sname unterminated_sname (slice 44 108 bs) o
  (file, o'') ← read_field flags.0 bad_file unterminated_file (slice 108 236 bs) o'
  t ← wrap no_message_type (byte o'' Opt.dhcp_message_type)
  check_op (get_or bs 0 0) t
  ok (record {
    type = t;
    transaction_id = slice 4 8 bs;
    broadcast = not (bit_and (uint16 (get_or bs 10 0) (get_or bs 11 0)) 0x8000 == 0);
    hardware_addr = slice 28 34 bs;
    client_addr = slice 12 16 bs;
    your_addr = slice 16 20 bs;
    server_addr = slice 20 24 bs;
    relay_addr = slice 24 28 bs;
    boot_server_name = sname;
    boot_filename = file;
    options = remove Opt.dhcp_message_type o'';
  })
