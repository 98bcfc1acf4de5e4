-- ===== src/Dhcp6/Pool/Reserve.antt =====
-- What reserving and releasing one interface's address does to the pool of
-- dhcp6/pool/random_address_pool.go.
use netboot.Prelude.{
  ℕ, ◌+◌, ◌%◌, ◌<◌, ◌≡◌, refl, sym, ap, ◌∙◌, arith, true, false, Option, none, some, List, [], ◌∷◌,
  Bytes, length, All, ◌≢◌, ◌==◌, if◌then◌else◌, if_ind, ◌⊎◌, inl, inr,
}
use mathlib.Core.Path.{subst}
use netboot.Prelude.Assoc.{lookup, has, lookup-insert, lookup-remove, has-insert, has-remove}
use netboot.Dhcp6.Pool.{
  Association, Pool, Reserved, reserved, exhausted, stuck, low64, draw, assign, reserve_drawn,
  reserve_known, reserve_one, release_one, release_known,
}

pub self : (k : ℕ) → (k == k) ≡ true
self k = ground arith

pub draw_lem :
    (p : Pool) (rs : List ℕ) (address : ℕ)
    → 0 < p.size
    → draw p rs ≡ some address
    → (has (low64 address) p.used_ips ≡ false) × ((k : ℕ) × (k < p.size) × (address ≡ p.start + k))
unfolding draw
draw_lem p [] address pos h = absurd (cc)
draw_lem p (r ∷ rs) address pos h =
    if_ind P (has (low64 (p.start + r % p.size)) p.used_ips) (draw p rs) _
      (λ _ e. draw_lem p rs address pos e)
      (λ free e.
        let same : p.start + r % p.size ≡ address = cc in
        (ap (λ x. has (low64 x) p.used_ips) (sym same) ∙ free, (r % p.size, omega arith, sym same)))
      h
  where
    P : Option ℕ → Type 0
    P o =
        o ≡ some address
        → (has (low64 address) p.used_ips ≡ false)
          × ((k : ℕ) × (k < p.size) × (address ≡ p.start + k))

-- The address that a value of the generator stands for is in use.
abbrev pub IsTaken : Pool → ℕ → Type 0
IsTaken p r = has (low64 (p.start + r % p.size)) p.used_ips ≡ true

draw-IsTaken : (p : Pool) (rs : List ℕ) → draw p rs ≡ none → All (IsTaken p) rs
unfolding draw
draw-IsTaken p [] h = tt
draw-IsTaken p (r ∷ rs) h =
    if_ind P (has (low64 (p.start + r % p.size)) p.used_ips) (draw p rs) _
      (λ used e. (used, draw-IsTaken p rs e)) (λ free e. absurd (cc)) h
  where
    P : Option ℕ → Type 0
    P o = o ≡ none → All (IsTaken p) (r ∷ rs)

module _ (hash : Bytes → Bytes → ℕ) where
  -- An association that `p` did not have: its address was not in use, and is one of the pool's.
  pub record IsNew (client interface : Bytes) (p : Pool) (a : Association) (p' : Pool)
      : Type 0 where
    pub unknown : lookup (hash client interface) p.associations ≡ none
    pub was_free : has (low64 a.address) p.used_ips ≡ false
    pub in_pool : (k : ℕ) × (k < p.size) × (a.address ≡ p.start + k)
    pub for_client : (a.client_id ≡ client) × (a.interface_id ≡ interface)
    pub now_known : lookup (hash client interface) p'.associations ≡ some a
    pub now_used : has (low64 a.address) p'.used_ips ≡ true

  -- What one interface may get from a pool.
  pub Handed : Bytes → Bytes → List ℕ → Pool → Reserved → Type 0
  Handed client interface random p (reserved a p') =
      ((lookup (hash client interface) p.associations ≡ some a) × (p' ≡ p))
      ⊎ IsNew client interface p a p'
  Handed client interface random p exhausted =
      (lookup (hash client interface) p.associations ≡ none) × (length p.used_ips ≡ p.size)
  Handed client interface random p stuck =
      (lookup (hash client interface) p.associations ≡ none)
      × (length p.used_ips ≢ p.size)
      × All (IsTaken p) random

  drawn-Handed :
      (now : ℕ) (client interface : Bytes) (p : Pool) (rs : List ℕ)
      → 0 < p.size
      → lookup (hash client interface) p.associations ≡ none
      → length p.used_ips ≢ p.size
      → Handed client interface rs p (reserve_drawn hash now client interface p (draw p rs))
  unfolding Handed reserve_drawn assign
  drawn-Handed now client interface p rs pos unknown room = go (draw p rs) refl
    where
      go :
          (o : Option ℕ)
          → draw p rs ≡ o
          → Handed client interface rs p (reserve_drawn hash now client interface p o)
      go none e = (unknown, room, draw-IsTaken p rs e)
      go (some address) e =
          let (free, within) = draw_lem p rs address pos e in
          inr (record {
            unknown = unknown;
            was_free = free;
            in_pool = within;
            for_client = (refl, refl);
            now_known =
                lookup-insert (hash client interface) (hash client interface) _ p.associations
                ∙ rw (self (hash client interface));
            now_used =
                has-insert (low64 address) (low64 address) tt p.used_ips
                ∙ rw (self (low64 address));
          })

  -- Reserving one interface's address, in a pool of one address at least: the client's own
  -- association and an unchanged pool; or a new one, whose address was free, is in the pool's range,
  -- and is in use from then on; or an error, and then the client
  -- has no association and as many addresses are in use as the pool has.
  -- Or there is no result yet, and then the client has no association, the pool does not count as
  -- full, and each of the values that the generator has yielded stands for an address in use.
  pub reserve_one-Handed :
      (now : ℕ) (client interface : Bytes) (random : List ℕ) (p : Pool)
      → 0 < p.size
      → Handed client interface random p (reserve_one hash now client interface random p)
  unfolding reserve_one reserve_known Handed
  reserve_one-Handed now client interface random p pos =
      go (lookup (hash client interface) p.associations) refl
    where
      go :
          (o : Option Association)
          → lookup (hash client interface) p.associations ≡ o
          → Handed client interface random p (reserve_known hash now client interface random p o)
      go (some a) known = inl (known, refl)
      go none unknown =
          if_ind (λ r. Handed client interface random p r) (length p.used_ips == p.size) exhausted _
            (λ full. (unknown, ground arith))
            (λ some_room.
              drawn-Handed now client interface p random pos unknown (λ e. ground arith))

  -- Releasing the address of an interface that has one: the association is gone, its address is
  -- free, and every other address is in use as it was.
  pub release_one_lem :
      (client interface : Bytes) (p : Pool) (a : Association)
      → lookup (hash client interface) p.associations ≡ some a
      → (lookup (hash client interface) (release_one hash client interface p).associations ≡ none)
        × ((j : ℕ)
            → has j (release_one hash client interface p).used_ips
              ≡ (if low64 a.address == j then false else has j p.used_ips))
  unfolding release_one release_known
  release_one_lem client interface p a h =
      subst P (sym (ap (λ o. release_known hash client interface p o) h)) (
        lookup-remove (hash client interface) (hash client interface) p.associations
            ∙ rw (self (hash client interface)),
        λ j. has-remove (low64 a.address) j p.used_ips,
      )
    where
      P : Pool → Type 0
      P q =
          (lookup (hash client interface) q.associations ≡ none)
          × ((j : ℕ)
              → has j q.used_ips ≡ (if low64 a.address == j then false else has j p.used_ips))
