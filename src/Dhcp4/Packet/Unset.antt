-- ===== src/Dhcp4/Packet/Unset.antt =====
-- Addresses that a packet leaves nil: on the wire they are 0.0.0.0.
use netboot.Prelude.{◌≡◌, refl, Option, none, some, Bytes, length, length-drop, replicate, arith}
use netboot.Net.{to4}
use netboot.Dhcp4.Packet.{Packet, write_ip, header, marshal}
use netboot.Dhcp4.Packet.Header.{write_ip-of_four}

-- The result of To4 is a part of the address, and has four bytes.
pub to4-length : (ip r : Bytes) → to4 ip ≡ some r → length r ≡ 4
unfolding to4
to4-length ip r h = ground (arith, length-drop 12 ip)

pub length-write_ip : (ip : Bytes) → length (write_ip ip) ≡ 4
unfolding write_ip
length-write_ip ip = go (to4 ip) refl
  where
    go :
        (o : Option Bytes)
        → to4 ip ≡ o
        → length (elim o as (λ _. Bytes) [ none ↦ replicate 4 0 | some ip4 ↦ ip4 ]) ≡ 4
    go none e = refl
    go (some r) e = to4-length ip r e

write_ip_twice : (ip : Bytes) → write_ip (write_ip ip) ≡ write_ip ip
write_ip_twice ip = write_ip-of_four (write_ip ip) (length-write_ip ip)

abbrev pub zeroed : Packet → Packet
zeroed p = record p { client_addr = write_ip p.client_addr; your_addr = write_ip p.your_addr }

-- A nil address is sent as four zeros.
pub marshal-zeroed : (p : Packet) → marshal p ≡ marshal (zeroed p)
unfolding marshal header
marshal-zeroed p = rw (write_ip_twice p.client_addr, write_ip_twice p.your_addr)
