-- ===== src/Server/Interface.antt =====
-- interfaceIP of server/dhcp.go: the address that the server answers from.
pub mod Width
use netboot.Prelude.{
  ◌≡◌, refl, ap, All, ◌++◌, Bool, true, false, Option, none, some, List, [], ◌∷◌, Bytes,
  if◌then◌else◌, if_ind, ◌⊎◌, inl, inr,
}
use netboot.Net.{to4, is_global_unicast, is_link_local_unicast, is_loopback}

-- One round of the inner loop, `ip` being a.To4() and `later` the rest of the loop.
unfoldable pub pick : (Bytes → Bool) → Option Bytes → Option Bytes → Option Bytes
pick f none later = later
pick f (some ip) later = if f ip then some ip else later

-- The inner loop: the first IPv4 address of the class `f`. Addresses that are no *net.IPNet are
-- left out of the list, as the loop passes over them.
unfoldable pub find_ip : (Bytes → Bool) → List Bytes → Option Bytes
unfolding to4 pick
find_ip f [] = none
find_ip f (a ∷ addrs) = let later = find_ip f addrs in pick f (to4 a) later

-- The outer loop, over the classes.
unfoldable pub find_class : List (Bytes → Bool) → List Bytes → Option Bytes
find_class [] addrs = none
find_class (f ∷ fs) addrs = elim (find_ip f addrs) [
  | some ip ↦ some ip
  | none ↦ find_class fs addrs
]

-- `none` is the error "no usable unicast address configured on interface".
unfoldable pub interface_ip : List Bytes → Option Bytes
unfolding find_class
interface_ip addrs = find_class (is_global_unicast ∷ is_link_local_unicast ∷ is_loopback ∷ []) addrs

-- The IPv4 addresses among `addrs`.
abbrev pub with_ip : Option Bytes → List Bytes → List Bytes
with_ip none ips = ips
with_ip (some ip) ips = ip ∷ ips

abbrev pub ipv4s : List Bytes → List Bytes
ipv4s [] = []
ipv4s (a ∷ addrs) = with_ip (to4 a) (ipv4s addrs)

-- `r` is the first of `ips` in the class `f`, if there is one.
abbrev pub IsFirst : (Bytes → Bool) → List Bytes → Bytes → Type 0
IsFirst f ips ip =
    (before : List Bytes) × (after : List Bytes) × (ips ≡ before ++ (ip ∷ after))
    × (f ip ≡ true)
    × All (λ x. f x ≡ false) before

-- The first address of the first class that has one; `none` if no class has any.
pub IsBest : List (Bytes → Bool) → List Bytes → Option Bytes → Type 0
IsBest [] ips r = r ≡ none
IsBest (f ∷ fs) ips r =
    ((ip : Bytes) × (r ≡ some ip) × IsFirst f ips ip)
    ⊎ (All (λ x. f x ≡ false) ips × IsBest fs ips r)

Found : (Bytes → Bool) → List Bytes → Option Bytes → Type 0
Found f ips none = All (λ x. f x ≡ false) ips
Found f ips (some ip) = IsFirst f ips ip

pick-Found :
    (f : Bytes → Bool) (a : Option Bytes) (ips : List Bytes) (later : Option Bytes)
    → Found f ips later
    → Found f (with_ip a ips) (pick f a later)
unfolding pick Found
pick-Found f none ips later h = h
pick-Found f (some ip) ips later h =
    if_ind (λ r. Found f (ip ∷ ips) r) (f ip) (some ip) later (λ t. ([], ips, refl, t, tt))
      (λ t. skip later t h)
  where
    skip : (r : Option Bytes) → f ip ≡ false → Found f ips r → Found f (ip ∷ ips) r
    skip none t all = (t, all)
    skip (some x) t (before, after, e, good, bad) =
        (ip ∷ before, after, ap (λ l. ip ∷ l) e, good, (t, bad))

find_ip-Found : (f : Bytes → Bool) (addrs : List Bytes) → Found f (ipv4s addrs) (find_ip f addrs)
unfolding find_ip Found
find_ip-Found f [] = tt
find_ip-Found f (a ∷ addrs) =
    pick-Found f (to4 a) (ipv4s addrs) (find_ip f addrs) (find_ip-Found f addrs)

find_class-IsBest :
    (fs : List (Bytes → Bool)) (addrs : List Bytes) → IsBest fs (ipv4s addrs) (find_class fs addrs)
unfolding find_class IsBest Found
find_class-IsBest [] addrs = refl
find_class-IsBest (f ∷ fs) addrs =
    go (find_ip f addrs) (find_ip-Found f addrs) (find_class-IsBest fs addrs)
  where
    go :
        (r : Option Bytes)
        → Found f (ipv4s addrs) r
        → IsBest fs (ipv4s addrs) (find_class fs addrs)
        → IsBest (f ∷ fs) (ipv4s addrs) (elim r [ some ip ↦ some ip | none ↦ find_class fs addrs ])
    go none h rest = inr (h, rest)
    go (some ip) h rest = inl (ip, refl, h)

-- The address of an interface is its first global unicast IPv4 address; without one, its first
-- link-local address; without one, its first loopback address; and else there is none.
pub interface_ip-IsBest :
    (addrs : List Bytes)
    → IsBest
        (is_global_unicast ∷ is_link_local_unicast ∷ is_loopback ∷ [])
        (ipv4s addrs)
        (interface_ip addrs)
unfolding interface_ip
interface_ip-IsBest addrs =
    find_class-IsBest (is_global_unicast ∷ is_link_local_unicast ∷ is_loopback ∷ []) addrs
