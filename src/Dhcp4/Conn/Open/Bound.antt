-- ===== src/Dhcp4/Conn/Open/Bound.antt =====
-- A connection on an address belongs to the interface of the address, and no socket is lost.
use netboot.Prelude.{
  ℕ, ◌+◌, ◌-◌, ◌≡◌, ◌≢◌, refl, sym, ap, ◌∙◌, Bool, true, false, not, ◌&&◌, ◌||◌, Option, some, List,
  [], ◌∷◌, Bytes, ◌==◌, if◌then◌else◌, if_ind, arith,
}
use netboot.Prelude.Result.{ok, ◌>>=◌, bind-ok, wrap-ok, ok-injective}
use netboot.Net.{to4}
use netboot.Net.Interfaces.{NetInterface, find_in, find_interface, IsFirst, find_interface-IsFirst}
use netboot.Dhcp4.Conn.{Interface, frame, skip, recv_round}
use netboot.Dhcp4.Conn.Open.{
  Action, listened, refused, configured, closed, Opening, new_portable_conn, new_linux_conn,
  configure, raw_socket, no_interface, is_net_of, ip_to_ifindex, is_zero_v4, Conn, resolved,
  index_for, made, new_conn,
}

-- How many sockets are open after the actions, `n` before them.
abbrev pub open_after : ℕ → List Action → ℕ
open_after n [] = n
open_after n (listened ∷ actions) = open_after (n + 1) actions
open_after n (closed ∷ actions) = open_after (n - 1) actions
open_after n (refused ∷ actions) = open_after n actions
open_after n (configured ∷ actions) = open_after n actions

-- A conn stands on one open socket, and an error leaves none.
abbrev pub IsBalanced : Opening → Type 0
IsBalanced (actions, opened) = open_after 0 actions ≡ (if opened then 1 else 0)

pub new_portable_conn-IsBalanced :
    (listens control : Bool) → IsBalanced (new_portable_conn listens control)
unfolding new_portable_conn
new_portable_conn-IsBalanced false control = refl
new_portable_conn-IsBalanced true false = refl
new_portable_conn-IsBalanced true true = refl

raw_socket-IsBalanced :
    (listens raw control bpf : Bool)
    → IsBalanced (raw_socket listens (configure raw (configure control (configure bpf ([], true)))))
unfolding raw_socket configure
raw_socket-IsBalanced false raw control bpf = refl
raw_socket-IsBalanced true false control bpf = refl
raw_socket-IsBalanced true true false bpf = refl
raw_socket-IsBalanced true true true false = refl
raw_socket-IsBalanced true true true true = refl

pub new_linux_conn-IsBalanced :
    (port : ℕ) (assembles listens raw control bpf : Bool)
    → IsBalanced (new_linux_conn port assembles listens raw control bpf)
unfolding new_linux_conn
new_linux_conn-IsBalanced port assembles listens raw control bpf =
    if_ind IsBalanced (port == 0 || not assembles) _ _ (λ t. refl)
      (λ f. raw_socket-IsBalanced listens raw control bpf)

made-ok :
    (opens : ℕ → Bool) (port index : ℕ) (c : Conn)
    → made opens port index ≡ ok c
    → record { port = port; if_index = index } ≡ c
unfolding made
made-ok opens port index c h =
    if_ind (λ r. r ≡ ok c → record { port = port; if_index = index } ≡ c) (opens port) _ _
      (λ t k. ok-injective k) (λ f k. absurd (cc)) h

index_for-ok :
    (ip : Bytes) (intfs : List NetInterface) (index : ℕ)
    → is_zero_v4 (to4 ip) ≡ false
    → index_for ip (some intfs) ≡ ok index
    → (intf : NetInterface) × IsFirst (is_net_of ip) intfs intf × (intf.index ≡ index)
unfolding index_for ip_to_ifindex find_in
index_for-ok ip intfs index given h =
    let found = wrap-ok no_interface _ (rw given at h) in
    let (intf, first, same) = bind-ok (find_interface (is_net_of ip) intfs) _ found in
    (intf, find_interface-IsFirst (is_net_of ip) intfs intf first, ok-injective same)

opened-IsFirst :
    (intfs : List NetInterface) (opens : ℕ → Bool) (ip : Bytes) (port : ℕ) (c : Conn)
    → is_zero_v4 (to4 ip) ≡ false
    → (index_for ip (some intfs) >>= λ index. made opens port index) ≡ ok c
    → ((intf : NetInterface) × IsFirst (is_net_of ip) intfs intf × (intf.index ≡ c.if_index))
      × (c.port ≡ port)
opened-IsFirst intfs opens ip port c specific h =
    let (index, found, last) = bind-ok (index_for ip (some intfs)) _ h in
    let (intf, first, same) = index_for-ok ip intfs index specific found in
    let e = made-ok opens port index c last in
    ((intf, first, same ∙ ap (λ x. x.if_index) e), sym (ap (λ x. x.port) e))

foreign-skip :
    (if_index : ℕ) (interfaces : ℕ → Option Interface) (b : Bytes) (from : ℕ)
    → if_index ≢ 0
    → from ≢ if_index
    → recv_round if_index interfaces (frame b from) ≡ skip
unfolding recv_round
foreign-skip if_index interfaces b from nonzero other =
    let foreign : (not (if_index == 0) && not (from == if_index)) ≡ true = ground arith in
    rw foreign refl

-- A connection that NewConn opens on an address, other than 0.0.0.0, is bound to the port of the
-- address and to the first interface of the machine that has it; RecvDHCP on it passes over a frame
-- that comes in on another interface.
pub new_conn-IsFirst :
    (resolve : Bytes → Option (Bytes × ℕ)) (intfs : List NetInterface) (opens : ℕ → Bool) (host : ℕ)
    (addr ip : Bytes) (port : ℕ) (c : Conn) (interfaces : ℕ → Option Interface) (b : Bytes)
    (from : ℕ)
    → resolve (host ∷ addr) ≡ some (ip, port)
    → is_zero_v4 (to4 ip) ≡ false
    → new_conn resolve (some intfs) opens (host ∷ addr) ≡ ok c
    → c.if_index ≢ 0
    → from ≢ c.if_index
    → ((intf : NetInterface) × IsFirst (is_net_of ip) intfs intf × (intf.index ≡ c.if_index))
      × (c.port ≡ port)
      × (recv_round c.if_index interfaces (frame b from) ≡ skip)
unfolding new_conn resolved
new_conn-IsFirst resolve intfs opens host addr ip port c interfaces b from given specific h nonzero
      other =
    let text = host ∷ addr in
    let opened = opened-IsFirst intfs opens ip port c specific (
      sym (
        ap
          (λ r. resolved r text >>= λ (ip', port').
            index_for ip' (some intfs) >>= λ index. made opens port' index)
          given)
      ∙ h) in
    (opened.0, opened.1, foreign-skip c.if_index interfaces b from nonzero other)
