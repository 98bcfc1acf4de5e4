-- ===== src/Dhcp6/Conn/Open.antt =====
-- dhcp6/conn.go: NewConn, InterfaceByAddress and SendDHCP.
use netboot.Prelude.{
  ℕ, ◌+◌, ◌-◌, ◌≡◌, refl, Bool, true, false, Option, none, some, List, [], ◌∷◌, ◌++◌, replicate,
  Bytes, if◌then◌else◌,
}
use netboot.Prelude.Result.{Result, ok, err}
use netboot.Net.{equal}
use netboot.Net.Interfaces.{
  Addr, ip_net, ip_addr, other_addr, NetInterface, LookupError, find_in, find_interface, IsFirst,
  find_interface-IsFirst,
}
use netboot.Dhcp6.Conn.{dhcpv6_client_port}

-- addrToIP, nil for other types of address.
unfoldable pub addr_to_ip : Addr → Bytes
addr_to_ip (ip_net ip) = ip
addr_to_ip (ip_addr ip) = ip
addr_to_ip other_addr = []

-- The test of InterfaceByAddress; `ip_text` is net.IP's String.
unfoldable pub has_text : (Bytes → Bytes) → Bytes → Addr → Bool
unfolding addr_to_ip equal
has_text ip_text if_addr a = equal (ip_text (addr_to_ip a)) if_addr

-- InterfaceByAddress
unfoldable pub interface_by_address :
    (Bytes → Bytes) → Option (List NetInterface) → Bytes → Result LookupError NetInterface
unfolding find_in has_text
interface_by_address ip_text interfaces if_addr = find_in (has_text ip_text if_addr) interfaces

pub data OpenError : Type 0 where
  no_interface : LookupError → OpenError
  not_listening not_joined no_control : OpenError

-- type Conn, with what NewConn puts into it.
pub record Conn : Type 0 where
  pub group : Bytes
  pub ifi : NetInterface
  pub listen_address : Bytes
  pub listen_port : ℕ

-- ff02::1:2
abbrev pub all_servers : Bytes
all_servers = 255 ∷ 2 ∷ (replicate 11 0 ++ (1 ∷ 0 ∷ 2 ∷ []))

-- What becomes of the socket.
pub data Action : Type 0 where
  listened joined configured closed : Action

-- The calls after the interface is found, where listening, JoinGroup and SetControlMessage succeed or
-- not.
unfoldable pub opened :
    Bool → Bool → Bool → NetInterface → Bytes → ℕ → List Action × Result OpenError Conn
opened false join control ifi addr port = ([], err not_listening)
opened true false control ifi addr port = (listened ∷ closed ∷ [], err not_joined)
opened true true false ifi addr port = (listened ∷ joined ∷ closed ∷ [], err no_control)
opened true true true ifi addr port = (
  listened ∷ joined ∷ configured ∷ [],
  ok (record { group = all_servers; ifi = ifi; listen_address = addr; listen_port = port }),
)

on_interface :
    Result LookupError NetInterface
    → (NetInterface → List Action × Result OpenError Conn)
    → List Action × Result OpenError Conn
on_interface (err e) open_on = ([], err (no_interface e))
on_interface (ok ifi) open_on = open_on ifi

-- NewConn
unfoldable pub new_conn :
    (Bytes → Bytes)
    → Option (List NetInterface)
    → Bool
    → Bool
    → Bool
    → Bytes
    → ℕ
    → List Action × Result OpenError Conn
unfolding on_interface interface_by_address opened
new_conn ip_text interfaces listens joins controls addr port =
    on_interface (interface_by_address ip_text interfaces addr)
      (λ ifi. opened listens joins controls ifi addr port)

-- SourceHardwareAddress
unfoldable pub source_hardware_address : Conn → Bytes
source_hardware_address c = c.ifi.hardware_addr

pub record Sent : Type 0 where
  pub payload : Bytes
  pub ip : Bytes
  pub port : ℕ

-- SendDHCP, where WriteTo succeeds or not.
unfoldable pub send_dhcp : Bool → Bytes → Bytes → Option Sent
send_dhcp writes dst p =
    if writes then some (record { payload = p; ip = dst; port = dhcpv6_client_port }) else none

-- How many sockets are open after the actions, `n` before them.
abbrev pub open_after : ℕ → List Action → ℕ
open_after n [] = n
open_after n (listened ∷ actions) = open_after (n + 1) actions
open_after n (closed ∷ actions) = open_after (n - 1) actions
open_after n (joined ∷ actions) = open_after n actions
open_after n (configured ∷ actions) = open_after n actions

-- An error leaves no socket open; a connection has one, and belongs to the first interface with the
-- address.
abbrev pub IsOpened :
    (Bytes → Bytes) → List NetInterface → Bytes → List Action × Result OpenError Conn → Type 0
IsOpened ip_text intfs addr (actions, err e) = open_after 0 actions ≡ 0
IsOpened ip_text intfs addr (actions, ok c) =
    (open_after 0 actions ≡ 1) × IsFirst (has_text ip_text addr) intfs c.ifi

module _ (ip_text : Bytes → Bytes) (intfs : List NetInterface) (addr : Bytes) (port : ℕ) where
  opened-IsOpened :
      (listens joins controls : Bool) (ifi : NetInterface)
      → IsFirst (has_text ip_text addr) intfs ifi
      → IsOpened ip_text intfs addr (opened listens joins controls ifi addr port)
  unfolding opened
  opened-IsOpened false joins controls ifi h = refl
  opened-IsOpened true false controls ifi h = refl
  opened-IsOpened true true false ifi h = refl
  opened-IsOpened true true true ifi h = (refl, h)

  on_interface-IsOpened :
      (listens joins controls : Bool) (found : Result LookupError NetInterface)
      → find_interface (has_text ip_text addr) intfs ≡ found
      → IsOpened ip_text intfs addr
          (on_interface found (λ ifi. opened listens joins controls ifi addr port))
  unfolding on_interface
  on_interface-IsOpened listens joins controls (err e) h = refl
  on_interface-IsOpened listens joins controls (ok ifi) h =
      opened-IsOpened listens joins controls ifi
        (find_interface-IsFirst (has_text ip_text addr) intfs ifi h)

  -- NewConn of dhcp6 either returns an error and leaves no socket open, or returns a connection with
  -- one socket, on the first interface of the machine that has the address.
  pub new_conn-IsOpened :
      (listens joins controls : Bool)
      → IsOpened ip_text intfs addr (new_conn ip_text (some intfs) listens joins controls addr port)
  unfolding new_conn interface_by_address find_in
  new_conn-IsOpened listens joins controls =
      on_interface-IsOpened listens joins controls (find_interface (has_text ip_text addr) intfs)
        refl
