-- ===== src/Server/Interface/Width.antt =====
-- The addresses that interfaceIP of server/dhcp.go finds are IPv4 addresses.
use netboot.Prelude.{◌≡◌, refl, Bool, Option, none, some, List, [], ◌∷◌, Bytes, length, if_ind}
use mathlib.Core.Path.{subst}
use netboot.Net.{to4, is_global_unicast, is_link_local_unicast, is_loopback}
use netboot.Dhcp4.Packet.Unset.{to4-length}
use netboot.Server.Interface.{interface_ip, find_ip, find_class, pick}

-- An address that interfaceIP finds has four bytes.
HasFour : Option Bytes → Type 0
HasFour none = Unit {0}
HasFour (some ip) = length ip ≡ 4

find_ip-HasFour : (f : Bytes → Bool) (addrs : List Bytes) → HasFour (find_ip f addrs)
unfolding find_ip HasFour pick
find_ip-HasFour f [] = tt
find_ip-HasFour f (a ∷ addrs) = go (to4 a) refl (find_ip f addrs) (find_ip-HasFour f addrs)
  where
    go :
        (o : Option Bytes)
        → to4 a ≡ o
        → (later : Option Bytes) → HasFour later
        → HasFour (pick f o later)
    go none e later h = h
    go (some ip) e later h = if_ind HasFour (f ip) _ _ (λ t. to4-length a ip e) (λ t. h)

find_class-HasFour : (fs : List (Bytes → Bool)) (addrs : List Bytes) → HasFour (find_class fs addrs)
unfolding find_class HasFour
find_class-HasFour [] addrs = tt
find_class-HasFour (f ∷ fs) addrs =
    go (find_ip f addrs) (find_ip-HasFour f addrs) (find_class-HasFour fs addrs)
  where
    go :
        (o : Option Bytes)
        → HasFour o
        → HasFour (find_class fs addrs)
        → HasFour (elim o as (λ _. Option Bytes) [ some ip ↦ some ip | none ↦ find_class fs addrs ])
    go none h rest = rest
    go (some ip) h rest = h

pub interface_ip-length :
    (addrs : List Bytes) (ip : Bytes) → interface_ip addrs ≡ some ip → length ip ≡ 4
unfolding interface_ip HasFour
interface_ip-length addrs ip h =
    subst HasFour h
      (find_class-HasFour (is_global_unicast ∷ is_link_local_unicast ∷ is_loopback ∷ []) addrs)
