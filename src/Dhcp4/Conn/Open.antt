-- ===== src/Dhcp4/Conn/Open.antt =====
-- Opening connections: newConn of dhcp4/conn.go, newPortableConn, and newLinuxConn of
-- dhcp4/conn_linux.go.
pub mod Bound
use netboot.Prelude.{
  ℕ, ◌≡◌, ◌≢◌, refl, ap, ◌∙◌, Bool, true, false, not, ◌&&◌, ◌||◌, ◌+◌, Option, none, some, List, [],
  ◌∷◌, Bytes, ◌==◌, ltb, if◌then◌else◌, Bool-cases, inl, inr, arith,
}
use netboot.Prelude.Text.{literal}
use netboot.Prelude.Result.{Result, ok, err, ◌>>=◌, wrap, bind-ok, wrap-ok}
use netboot.Net.{to4, equal, is_empty}
use netboot.Net.Interfaces.{
  Addr, ip_net, ip_addr, other_addr, NetInterface, LookupError, ip_equal, find_in, find_interface,
  IsFirst, find_interface-IsFirst,
}
use netboot.Dhcp4.Conn.{Interface, Incoming, frame, Round, skip, recv_round}

-- What newPortableConn and newLinuxConn do with sockets.
pub data Action : Type 0 where
  listened refused configured closed : Action

-- A constructor of conns: what it does, and whether it returns one.
abbrev pub Opening : Type 0
Opening = List Action × Bool

-- newPortableConn, where listening and SetControlMessage succeed or not.
unfoldable pub new_portable_conn : Bool → Bool → Opening
new_portable_conn false control = (refused ∷ [], false)
new_portable_conn true false = (listened ∷ refused ∷ closed ∷ [], false)
new_portable_conn true true = (listened ∷ configured ∷ [], true)

-- One more call on a socket that is open, which is closed if the call fails.
configure : Bool → Opening → Opening
configure true (actions, opened) = (configured ∷ actions, opened)
configure false later = (refused ∷ closed ∷ [], false)

raw_socket : Bool → Opening → Opening
raw_socket true (actions, opened) = (listened ∷ actions, opened)
raw_socket false later = (refused ∷ [], false)

-- newLinuxConn, where assembling the filter, listening, making the raw connection, SetControlMessage
-- and SetBPF succeed or not.
unfoldable pub new_linux_conn : ℕ → Bool → Bool → Bool → Bool → Bool → Opening
unfolding configure raw_socket
new_linux_conn port assembles listens raw control bpf =
    if port == 0 || not assembles
    then ([], false)
    else raw_socket listens (configure raw (configure control (configure bpf ([], true))))

pub data OpenError : Type 0 where
  bad_address : Bytes → OpenError
  no_interface : LookupError → OpenError
  not_opened : OpenError

-- The type test and the comparison of ipToIfindex.
unfoldable pub is_net_of : Bytes → Addr → Bool
unfolding ip_equal
is_net_of ip (ip_net a) = ip_equal a ip
is_net_of ip (ip_addr a) = false
is_net_of ip other_addr = false

-- ipToIfindex; `interfaces` is what net.Interfaces answers.
unfoldable pub ip_to_ifindex : Bytes → Option (List NetInterface) → Result LookupError ℕ
unfolding find_in is_net_of
ip_to_ifindex ip interfaces = do intf ← find_in (is_net_of ip) interfaces; ok intf.index

-- `udpAddr.IP.To4().Equal(net.IPv4zero)`; nil, which a missing host gives, is not equal to it.
unfoldable pub is_zero_v4 : Option Bytes → Bool
unfolding equal
is_zero_v4 none = false
is_zero_v4 (some ip4) = equal ip4 (0 ∷ 0 ∷ 0 ∷ 0 ∷ [])

-- A Conn: the port of its socket and the index of its interface, 0 for any.
pub record Conn : Type 0 where
  pub port : ℕ
  pub if_index : ℕ

resolved : Option (Bytes × ℕ) → Bytes → Result OpenError (Bytes × ℕ)
resolved none addr = err (bad_address addr)
resolved (some r) addr = ok r

index_for : Bytes → Option (List NetInterface) → Result OpenError ℕ
unfolding is_zero_v4 to4 ip_to_ifindex
index_for ip interfaces =
    if is_zero_v4 (to4 ip) then ok 0 else wrap no_interface (ip_to_ifindex ip interfaces)

made : (ℕ → Bool) → ℕ → ℕ → Result OpenError Conn
made opens port index =
    if opens port then ok (record { port = port; if_index = index }) else err not_opened

-- newConn; `resolve` is net.ResolveUDPAddr, and `opens` says whether a socket for a port can be made.
unfoldable pub new_conn :
    (Bytes → Option (Bytes × ℕ))
    → Option (List NetInterface)
    → (ℕ → Bool)
    → Bytes
    → Result OpenError Conn
unfolding resolved index_for made
new_conn resolve interfaces opens addr = do
  let text = if is_empty addr then literal "0.0.0.0:67" else addr
  (ip, port) ← resolved (resolve text) text
  index ← index_for ip interfaces
  made opens port index

-- The control message of Send, of both kinds of conn: the index of the interface, if there is one.
unfoldable pub send_control : ℕ → Option ℕ
send_control index = if index == 0 then none else some index

-- The header that the raw connection of Linux gives a packet of `n` bytes.
pub record Header : Type 0 where
  pub version : ℕ
  pub header_len : ℕ
  pub tos : ℕ
  pub total_len : ℕ
  pub ttl : ℕ
  pub protocol : ℕ
  pub dst : Bytes

unfoldable pub raw_header : Bytes → ℕ → Header
raw_header dst n = record {
  version = 4;
  header_len = 20;
  tos = 0xc0;
  total_len = 20 + 8 + n;
  ttl = 64;
  protocol = 17;
  dst = dst;
}
