-- ===== src/Dhcp6/Pool.antt =====
-- dhcp6/pool/random_address_pool.go: the pool of addresses. Each method runs under the pool's lock,
-- so a method is one step on the state.
pub mod Reserve
pub mod Exclusive
pub mod Reached
pub mod Again
use netboot.Prelude.{
  ℕ, zero, suc, ◌+◌, ◌-◌, ◌*◌, ◌/◌, ◌%◌, ◌^◌, Bool, true, false, not, Option, none, some, List, [],
  ◌∷◌, ◌++◌, Bytes, length, ltb, ◌==◌, if◌then◌else◌,
}
use netboot.Prelude.Assoc.{Assoc, lookup, insert, remove, has, keys}
use netboot.Prelude.Result.{Result, ok, err}

-- types.IdentityAssociation. The address is the number whose bytes `IPAddress` holds; times are
-- seconds.
pub record Association : Type 0 where
  pub address : ℕ
  pub client_id : Bytes
  pub interface_id : Bytes
  pub created_at : ℕ

pub record Expiration : Type 0 where
  pub expires_at : ℕ
  pub ia : Association

-- type RandomAddressPool. `used_ips` holds the low 64 bits of addresses; its values carry nothing.
pub record Pool : Type 0 where
  pub start : ℕ
  pub size : ℕ
  pub associations : Assoc Association
  pub used_ips : Assoc (Unit {0})
  pub expirations : List Expiration
  pub valid_lifetime : ℕ

-- `fifo`: Push appends, Shift takes the first, Size is the length.
unfoldable pub push : Expiration → List Expiration → List Expiration
push e q = q ++ (e ∷ [])

-- NewRandomAddressPool.
unfoldable pub new_pool : ℕ → ℕ → ℕ → Pool
new_pool start size valid_lifetime = record {
  start = start;
  size = size;
  associations = [];
  used_ips = [];
  expirations = [];
  valid_lifetime = valid_lifetime;
}

-- big.Int's Uint64: the low 64 bits.
abbrev pub low64 : ℕ → ℕ
low64 a = a % 2 ^ 64

-- What one interface gets: its association, or the error that no address is free. `stuck` is no Go
-- value: the code goes on drawing when the addresses of all values given are in use.
pub data Reserved : Type 0 where
  reserved : Association → Pool → Reserved
  exhausted : Reserved
  stuck : Reserved

-- The inner loop of ReserveAddresses: the first drawn offset whose address is free. The list is
-- the sequence of values that the generator yields; `none` if it is used up.
unfoldable pub draw : Pool → List ℕ → Option ℕ
unfolding has
draw p [] = none
draw p (r ∷ rs) =
    let address = p.start + r % p.size in
    let more = draw p rs in if has (low64 address) p.used_ips then more else some address

-- An interface of a call of ReserveAddresses, with the values that the generator yields for it and the
-- time at which a new association would be made.
pub record Wanted : Type 0 where
  pub interface : Bytes
  pub random : List ℕ
  pub time : ℕ

-- The FNV-1a hash of client and interface is a parameter: the package hash/fnv is not in the
-- repository. Its values are the keys of the map of associations.
module _ (hash : Bytes → Bytes → ℕ) where
  -- The body of the loop of expireIdentityAssociations for an expiration that is due.
  pub drop_expired : Expiration → Pool → Pool
  unfolding remove
  drop_expired e p = record p {
    associations = remove (hash e.ia.client_id e.ia.interface_id) p.associations;
    used_ips = remove (low64 e.ia.address) p.used_ips;
  }

  -- The loop over the queue, given as its own argument; `clock` gives what p.timeNow() answers each
  -- time that it is called.
  pub expire_queue : (ℕ → ℕ) → List Expiration → Pool → Pool
  expire_queue clock [] p = record p { expirations = [] }
  expire_queue clock (e ∷ q) p =
      let go_on = expire_queue (λ i. clock (suc i)) q (drop_expired e p) in
      if ltb (clock 0) e.expires_at then record p { expirations = e ∷ q } else go_on

  pub expire : (ℕ → ℕ) → Pool → Pool
  unfolding expire_queue drop_expired
  expire clock p = expire_queue clock p.expirations p

  -- The association of a new address, and the pool with it.
  unfoldable pub assign : ℕ → Bytes → Bytes → ℕ → Pool → Pool
  unfolding insert push
  assign now client interface address p =
      let a : Association = record {
        address = address;
        client_id = client;
        interface_id = interface;
        created_at = now;
      } in
      record p {
        associations = insert (hash client interface) a p.associations;
        used_ips = insert (low64 address) tt p.used_ips;
        expirations = push (record { expires_at = now + p.valid_lifetime; ia = a }) p.expirations;
      }

  reserve_drawn : ℕ → Bytes → Bytes → Pool → Option ℕ → Reserved
  reserve_drawn now client interface p none = stuck
  reserve_drawn now client interface p (some address) =
      reserved
        (record {
          address = address;
          client_id = client;
          interface_id = interface;
          created_at = now;
        })
        (assign now client interface address p)

  -- The body of the loop over the interfaces, by what the map of associations holds.
  reserve_known : ℕ → Bytes → Bytes → List ℕ → Pool → Option Association → Reserved
  unfolding reserve_drawn
  reserve_known now client interface random p (some a) = reserved a p
  reserve_known now client interface random p none =
      if length p.used_ips == p.size
      then exhausted
      else reserve_drawn now client interface p (draw p random)

  unfoldable pub reserve_one : ℕ → Bytes → Bytes → List ℕ → Pool → Reserved
  unfolding reserve_known
  reserve_one now client interface random p =
      reserve_known now client interface random p (lookup (hash client interface) p.associations)

  -- What a round of the loop over the interfaces leads to; `rest` is the loop over the others. The
  -- error is "no more free addresses" (true) or the model's `stuck` (false).
  after_one :
      Pool
      → Reserved
      → (Pool → Option Bool × List Association × Pool)
      → Option Bool × List Association × Pool
  after_one p exhausted rest = (some true, [], p)
  after_one p stuck rest = (some false, [], p)
  after_one p (reserved a p') rest = let (e, more, p'') = rest p' in (e, a ∷ more, p'')

  -- The loop over the interfaces; each takes the generator's next values from its own list, and its
  -- own reading of the clock.
  pub reserve_each : Bytes → List Wanted → Pool → Option Bool × List Association × Pool
  unfolding after_one
  reserve_each client [] p = (none, [], p)
  reserve_each client (w ∷ rest) p =
      after_one p (reserve_one w.time client w.interface w.random p)
        (λ p'. reserve_each client rest p')

  unfoldable pub reserve_addresses :
      (ℕ → ℕ) → Bytes → List Wanted → Pool → Option Bool × List Association × Pool
  unfolding expire reserve_one reserve_each assign draw
  reserve_addresses clock client wanted p = reserve_each client wanted (expire clock p)

  release_known : Bytes → Bytes → Pool → Option Association → Pool
  unfolding remove
  release_known client interface p none = p
  release_known client interface p (some a) = record p {
    used_ips = remove (low64 a.address) p.used_ips;
    associations = remove (hash client interface) p.associations;
  }

  pub release_one : Bytes → Bytes → Pool → Pool
  unfolding lookup release_known
  release_one client interface p =
      release_known client interface p (lookup (hash client interface) p.associations)

  pub release_addresses : Bytes → List Bytes → Pool → Pool
  unfolding release_one
  release_addresses client [] p = p
  release_addresses client (interface ∷ rest) p =
      release_addresses client rest (release_one client interface p)
