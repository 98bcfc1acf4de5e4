-- ===== src/Dhcp4/MessageType.antt =====
-- The message types of dhcp4/packet.go: RFC 2131's codes. A packet may carry any other number.
use netboot.Prelude.{ℕ}

abbrev pub discover : ℕ
discover = 1

abbrev pub offer : ℕ
offer = 2

abbrev pub request : ℕ
request = 3

abbrev pub decline : ℕ
decline = 4

abbrev pub ack : ℕ
ack = 5

abbrev pub nack : ℕ
nack = 6

abbrev pub release : ℕ
release = 7

abbrev pub inform : ℕ
inform = 8
