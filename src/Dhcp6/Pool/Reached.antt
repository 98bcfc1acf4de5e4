-- ===== src/Dhcp6/Pool/Reached.antt =====
-- The states that a pool of dhcp6/pool/random_address_pool.go comes to by calls of ReserveAddresses.
use netboot.Prelude.{
  ℕ, ◌+◌, ◌<◌, ◌≤◌, ◌≡◌, refl, ap, arith, Bool, true, Option, none, some, List, [], ◌∷◌, Bytes,
  length, ◌==◌, ==_iff, if_ind, Bool-cases, ◌⊎◌, inl, inr, ◌≢◌,
}
use netboot.Prelude.Assoc.{lookup, has}
use netboot.Dhcp6.Pool.{
  Wanted, Association, Pool, Reserved, reserved, exhausted, stuck, new_pool, low64, draw, expire,
  reserve_drawn, reserve_known, reserve_one, after_one, reserve_each, reserve_addresses,
}
use netboot.Dhcp6.Pool.Reserve.{draw_lem}
use netboot.Dhcp6.Pool.Exclusive.{Exclusive, expire_queue-Exclusive, assign-Exclusive}

module _ (hash : Bytes → Bytes → ℕ) (start size : ℕ) where
  -- A new pool, and after it any number of calls at any times, with any values of the generator.
  pub data Reached (lifetime : ℕ) : Pool → Type 0 where
    begun : Reached lifetime (new_pool start size lifetime)
    reserving :
        {p : Pool} (clock : ℕ → ℕ) (client : Bytes) (wanted : List Wanted)
        → Reached lifetime p
        → Reached lifetime (reserve_addresses hash clock client wanted p).2

  abbrev IsExclusive : Pool → Type 0
  IsExclusive p = Exclusive hash start size p.expirations p

  -- What holds of the pool that a round leaves.
  Kept : Reserved → Type 0
  Kept (reserved a p) = IsExclusive p
  Kept exhausted = Unit {0}
  Kept stuck = Unit {0}

  new_pool-Exclusive : (lifetime : ℕ) → IsExclusive (new_pool start size lifetime)
  unfolding new_pool lookup
  new_pool-Exclusive lifetime = record {
    same_start = refl;
    same_size = refl;
    ranged = λ k a h. absurd (cc);
    used = λ k a h. absurd (cc);
    single = λ k j a b h h' e. absurd (cc);
    backed = tt;
    apart = tt;
  }

  module _ (pos : 0 < size) where
    drawn-Kept :
        (now : ℕ) (client interface : Bytes) (p : Pool) (rs : List ℕ)
        → IsExclusive p
        → lookup (hash client interface) p.associations ≡ none
        → Kept (reserve_drawn hash now client interface p (draw p rs))
    unfolding Kept reserve_drawn
    drawn-Kept now client interface p rs x unknown = go (draw p rs) refl
      where
        go : (o : Option ℕ) → draw p rs ≡ o → Kept (reserve_drawn hash now client interface p o)
        go none e = tt
        go (some address) e =
            let some_room : 0 < p.size = omega (arith, pos, x.same_size) in
            let (free, (k, less, at)) = draw_lem p rs address some_room e in
            let within : (start ≤ address) × (address < start + size) = (
              omega (arith, x.same_start, at),
              omega (arith, x.same_start, x.same_size, less, at),
            ) in
            assign-Exclusive hash start size p x now client interface address unknown free within

    reserve_one-Kept :
        (now : ℕ) (client interface : Bytes) (p : Pool) (rs : List ℕ)
        → IsExclusive p
        → Kept (reserve_one hash now client interface rs p)
    unfolding reserve_one reserve_known Kept
    reserve_one-Kept now client interface p rs x =
        go (lookup (hash client interface) p.associations) refl
      where
        go :
            (o : Option Association)
            → lookup (hash client interface) p.associations ≡ o
            → Kept (reserve_known hash now client interface rs p o)
        go (some a) known = x
        go none unknown =
            if_ind Kept (length p.used_ips == p.size) exhausted _ (λ _. tt)
              (λ _. drawn-Kept now client interface p rs x unknown)

    after_one-Exclusive :
        (p : Pool) (r : Reserved) (rest : Pool → Option Bool × List Association × Pool)
        → IsExclusive p
        → Kept r
        → ((q : Pool) → IsExclusive q → IsExclusive (rest q).2)
        → IsExclusive (after_one hash p r rest).2
    unfolding after_one Kept
    after_one-Exclusive p exhausted rest x k ih = x
    after_one-Exclusive p stuck rest x k ih = x
    after_one-Exclusive p (reserved a q) rest x k ih = ih q k

    reserve_each-Exclusive :
        (client : Bytes) (wanted : List Wanted) (p : Pool)
        → IsExclusive p
        → IsExclusive (reserve_each hash client wanted p).2
    unfolding reserve_each
    reserve_each-Exclusive client [] p x = x
    reserve_each-Exclusive client (w ∷ rest) p x =
        after_one-Exclusive p (reserve_one hash w.time client w.interface w.random p) _ x
          (reserve_one-Kept w.time client w.interface p w.random x)
          (λ q y. reserve_each-Exclusive client rest q y)

    Reached-Exclusive : (lifetime : ℕ) {p : Pool} → Reached lifetime p → IsExclusive p
    unfolding reserve_addresses expire
    Reached-Exclusive lifetime begun = new_pool-Exclusive lifetime
    Reached-Exclusive lifetime (reserving {p} clock client wanted r) =
        reserve_each-Exclusive client wanted (expire hash clock p) (
          expire_queue-Exclusive hash start size clock p.expirations p
            (Reached-Exclusive lifetime r))

    -- In a pool with room for one address at least, after any calls of ReserveAddresses and none of
    -- ReleaseAddresses: every association has an address of the pool's range, which is marked as in
    -- use, and two associations with the same address are the same one.
    pub Reached-single :
        (lifetime : ℕ) (p : Pool) (k j : ℕ) (a b : Association)
        → Reached lifetime p
        → lookup k p.associations ≡ some a
        → lookup j p.associations ≡ some b
        → ((start ≤ a.address) × (a.address < start + size))
          × (has (low64 a.address) p.used_ips ≡ true)
          × ((k ≡ j) ⊎ (a.address ≢ b.address))
    Reached-single lifetime p k j a b r ha hb =
        let x = Reached-Exclusive lifetime r in
        (
          x.ranged k a ha,
          x.used k a ha,
          elim (Bool-cases (a.address == b.address)) [
            | inl e ↦
                inl (x.single k j a b ha hb (ap (λ n. low64 n) ((==_iff a.address b.address).0 e)))
            | inr ne ↦ inr (λ e. ground arith)
          ],
        )
