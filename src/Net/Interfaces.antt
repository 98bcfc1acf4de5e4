-- ===== src/Net/Interfaces.antt =====
-- What the code uses of net.Interfaces: the interfaces of the machine with their addresses, and the
-- first of them that passes a test.
use netboot.Prelude.{
  ℕ, ◌≡◌, refl, ap, Bool, true, false, ◌||◌, Option, none, some, List, [], ◌∷◌, ◌++◌, Bytes,
  if◌then◌else◌, if_ind, All,
}
use mathlib.Core.Path.{subst}
use netboot.Prelude.Result.{Result, ok, err, ok-injective}
use netboot.Net.{equal, to4}

-- A net.Addr: an *net.IPNet, an *net.IPAddr, or of another type.
pub data Addr : Type 0 where
  ip_net ip_addr : Bytes → Addr
  other_addr : Addr

-- A net.Interface, with what its Addrs answers (`none` is an error).
pub record NetInterface : Type 0 where
  pub index : ℕ
  pub hardware_addr : Bytes
  pub addrs : Option (List Addr)

-- (ip IP) Equal: an IPv4 address and its form in sixteen bytes are the same.
same_form : Bytes → Bytes → Option Bytes → Option Bytes → Bool
unfolding equal
same_form x y none none = equal x y
same_form x y (some a) (some b) = equal a b
same_form x y _ _ = false

unfoldable pub ip_equal : Bytes → Bytes → Bool
unfolding same_form to4
ip_equal x y = same_form x y (to4 x) (to4 y)

pub data LookupError : Type 0 where
  no_interfaces no_addresses not_found : LookupError

unfoldable pub any_addr : (Addr → Bool) → List Addr → Bool
any_addr test [] = false
any_addr test (a ∷ as') = test a || any_addr test as'

unfoldable pub step_find :
    (Addr → Bool)
    → NetInterface
    → Option (List Addr)
    → Result LookupError NetInterface
    → Result LookupError NetInterface
unfolding any_addr
step_find test intf none later = err no_addresses
step_find test intf (some addrs) later = if any_addr test addrs then ok intf else later

-- The loop over the interfaces and their addresses.
unfoldable pub find_interface : (Addr → Bool) → List NetInterface → Result LookupError NetInterface
unfolding step_find
find_interface test [] = err not_found
find_interface test (intf ∷ intfs) = step_find test intf intf.addrs (find_interface test intfs)

unfoldable pub find_in :
    (Addr → Bool) → Option (List NetInterface) → Result LookupError NetInterface
unfolding find_interface
find_in test none = err no_interfaces
find_in test (some intfs) = find_interface test intfs

-- The interface has an address that passes, or has addresses of which none passes.
pub record Passes (test : Addr → Bool) (wanted : Bool) (intf : NetInterface) : Type 0 where
  pub listed : List Addr
  pub answered : intf.addrs ≡ some listed
  pub tested : any_addr test listed ≡ wanted

-- The first interface that passes.
pub record IsFirst (test : Addr → Bool) (intfs : List NetInterface) (intf : NetInterface)
    : Type 0 where
  pub before : List NetInterface
  pub after : List NetInterface
  pub among : intfs ≡ before ++ (intf ∷ after)
  pub passes : Passes test true intf
  pub earlier : All (Passes test false) before

module _ (test : Addr → Bool) where
  step_find-IsFirst :
      (i : NetInterface) (addrs : Option (List Addr)) (intfs : List NetInterface)
      (later : Result LookupError NetInterface) (intf : NetInterface)
      → i.addrs ≡ addrs
      → (later ≡ ok intf → IsFirst test intfs intf)
      → step_find test i addrs later ≡ ok intf
      → IsFirst test (i ∷ intfs) intf
  unfolding step_find
  step_find-IsFirst i none intfs later intf e ih h = absurd (cc)
  step_find-IsFirst i (some addrs) intfs later intf e ih h =
      if_ind (λ r. r ≡ ok intf → IsFirst test (i ∷ intfs) intf) (any_addr test addrs) _ _
        (λ t k.
          subst (λ x. IsFirst test (i ∷ intfs) x) (ok-injective k)
            (record {
              before = [];
              after = intfs;
              among = refl;
              passes = record { listed = addrs; answered = e; tested = t };
              earlier = tt;
            }))
        (λ f k.
          let rest = ih k in
          record {
            before = i ∷ rest.before;
            after = rest.after;
            among = ap (λ l. i ∷ l) rest.among;
            passes = rest.passes;
            earlier = (record { listed = addrs; answered = e; tested = f }, rest.earlier);
          })
        h

  pub find_interface-IsFirst :
      (intfs : List NetInterface) (intf : NetInterface)
      → find_interface test intfs ≡ ok intf
      → IsFirst test intfs intf
  unfolding find_interface
  find_interface-IsFirst [] intf h = absurd (cc)
  find_interface-IsFirst (i ∷ intfs) intf h =
      step_find-IsFirst i i.addrs intfs (find_interface test intfs) intf refl
        (find_interface-IsFirst intfs intf) h
