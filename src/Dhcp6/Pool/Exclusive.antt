-- ===== src/Dhcp6/Pool/Exclusive.antt =====
-- As long as no address is released, the associations of the pool of
-- dhcp6/pool/random_address_pool.go have different addresses, whatever is reserved and expires.
use netboot.Prelude.{
  ℕ, suc, ◌+◌, ◌<◌, ◌≤◌, ◌≡◌, ◌≢◌, sym, ap, ◌∙◌, arith, true, false, Option, none, some, List, [],
  ◌∷◌, ◌++◌, Bytes, ltb, ◌==◌, ==_iff, if_ind, ◌⊎◌, inl, inr, All,
}
use mathlib.Core.Path.{subst}
use netboot.Prelude.Assoc.{
  lookup, insert, remove, has, lookup-insert, lookup-remove, has-insert, has-remove,
}
use netboot.Dhcp6.Pool.{
  Association, Expiration, Pool, low64, push, assign, drop_expired, expire_queue,
}
use netboot.Dhcp6.Pool.Reserve.{self}

module _ (hash : Bytes → Bytes → ℕ) (start size : ℕ) where
  abbrev pub key : Association → ℕ
  key a = hash a.client_id a.interface_id

  -- Every entry of the queue is for an association that is there.
  abbrev pub Backed : Pool → Expiration → Type 0
  Backed p e = lookup (key e.ia) p.associations ≡ some e.ia

  abbrev pub Apart : List Expiration → Type 0
  Apart [] = Unit {0}
  Apart (e ∷ q) = All (λ (f : Expiration). key f.ia ≢ key e.ia) q × Apart q

  pub record Exclusive (q : List Expiration) (p : Pool) : Type 0 where
    pub same_start : p.start ≡ start
    pub same_size : p.size ≡ size
    pub ranged :
        (k : ℕ) (a : Association)
        → lookup k p.associations ≡ some a
        → (start ≤ a.address) × (a.address < start + size)
    pub used :
        (k : ℕ) (a : Association)
        → lookup k p.associations ≡ some a
        → has (low64 a.address) p.used_ips ≡ true
    pub single :
        (k j : ℕ) (a b : Association)
        → lookup k p.associations ≡ some a
        → lookup j p.associations ≡ some b
        → low64 a.address ≡ low64 b.address
        → k ≡ j
    pub backed : All (Backed p) q
    pub apart : Apart q

  -- A lookup in a map without `k`.
  lookup_left :
      (k j : ℕ) (a : Association) (p : Pool)
      → lookup j (remove k p.associations) ≡ some a
      → (lookup j p.associations ≡ some a) × (k ≢ j)
  lookup_left k j a p h =
      if_ind P (k == j) none (lookup j p.associations) (λ t e. absurd (cc))
        (λ f e. (e, λ same. ground arith)) (sym (lookup-remove k j p.associations) ∙ h)
    where
      P : Option Association → Type 0
      P o = o ≡ some a → (lookup j p.associations ≡ some a) × (k ≢ j)

  still-Backed :
      (e : Expiration) (q : List Expiration) (p : Pool)
      → All (Backed p) q
      → All (λ (f : Expiration). key f.ia ≢ key e.ia) q
      → All (Backed (drop_expired hash e p)) q
  unfolding drop_expired
  still-Backed e [] p b a = tt
  still-Backed e (f ∷ q) p (b, bs) (a, as') =
      let other : (key e.ia == key f.ia) ≡ false = ground arith in
      (lookup-remove (key e.ia) (key f.ia) p.associations ∙ rw other b, still-Backed e q p bs as')

  drop_expired-Exclusive :
      (e : Expiration) (q : List Expiration) (p : Pool)
      → Exclusive (e ∷ q) p
      → Exclusive q (drop_expired hash e p)
  unfolding drop_expired
  drop_expired-Exclusive e q p x = record {
    same_start = x.same_start;
    same_size = x.same_size;
    ranged = λ k a h. x.ranged k a (lookup_left (key e.ia) k a p h).0;
    used = λ k a h.
        let (there, other) = lookup_left (key e.ia) k a p h in
        let differ : low64 e.ia.address ≢ low64 a.address =
          λ same. other (x.single (key e.ia) k e.ia a x.backed.0 there same) in
        let test : (low64 e.ia.address == low64 a.address) ≡ false = ground arith in
        has-remove (low64 e.ia.address) (low64 a.address) p.used_ips ∙ rw test (x.used k a there);
    single = λ k j a b hk hj same.
        x.single k j a b (lookup_left (key e.ia) k a p hk).0 (lookup_left (key e.ia) j b p hj).0
          same;
    backed = still-Backed e q p x.backed.1 x.apart.0;
    apart = x.apart.1;
  }

  pub expire_queue-Exclusive :
      (clock : ℕ → ℕ) (q : List Expiration) (p : Pool)
      → Exclusive q p
      → Exclusive (expire_queue hash clock q p).expirations (expire_queue hash clock q p)
  unfolding expire_queue
  expire_queue-Exclusive clock [] p x = record {
    same_start = x.same_start;
    same_size = x.same_size;
    ranged = x.ranged;
    used = x.used;
    single = x.single;
    backed = tt;
    apart = tt;
  }
  expire_queue-Exclusive clock (e ∷ q) p x =
      if_ind (λ (r : Pool). Exclusive r.expirations r) (ltb (clock 0) e.expires_at) _ _
        (λ _. record {
          same_start = x.same_start;
          same_size = x.same_size;
          ranged = x.ranged;
          used = x.used;
          single = x.single;
          backed = x.backed;
          apart = x.apart;
        })
        (λ _.
          expire_queue-Exclusive (λ i. clock (suc i)) q (drop_expired hash e p)
            (drop_expired-Exclusive e q p x))

  -- Under a new key, old lookups stay; and a lookup is an old one or that of the new key.
  lookup_new :
      (k j : ℕ) (v a : Association) (p : Pool)
      → lookup j (insert k v p.associations) ≡ some a
      → ((k ≡ j) × (v ≡ a)) ⊎ (lookup j p.associations ≡ some a)
  lookup_new k j v a p h =
      if_ind P (k == j) (some v) (lookup j p.associations) (λ t e. inl ((==_iff k j).0 t, cc))
        (λ _ e. inr e) (sym (lookup-insert k j v p.associations) ∙ h)
    where
      P : Option Association → Type 0
      P o = o ≡ some a → ((k ≡ j) × (v ≡ a)) ⊎ (lookup j p.associations ≡ some a)

  -- A new association at a free address, under a key that is not there.
  module _ (p : Pool) (x : Exclusive p.expirations p) (now : ℕ) (client interface : Bytes)
      (address : ℕ) (unknown : lookup (hash client interface) p.associations ≡ none)
      (free : has (low64 address) p.used_ips ≡ false)
      (within : (start ≤ address) × (address < start + size)) where
    abbrev pub new : Association
    new = record {
      address = address;
      client_id = client;
      interface_id = interface;
      created_at = now;
    }

    abbrev pub entry : Expiration
    entry = record { expires_at = now + p.valid_lifetime; ia = new }

    other_key : (e : Expiration) → Backed p e → key e.ia ≢ key new
    other_key e b same =
        let known : lookup (key new) p.associations ≡ some e.ia =
          subst (λ k. lookup k p.associations ≡ some e.ia) same b in
        cc

    Backed-after :
        (q : List Expiration)
        → All (Backed p) q
        → All
            (λ (e : Expiration).
              lookup (key e.ia) (insert (key new) new p.associations) ≡ some e.ia)
            (q ++ (entry ∷ []))
    Backed-after [] b =
        (lookup-insert (key new) (key new) new p.associations ∙ rw (self (key new)), tt)
    Backed-after (e ∷ q) (b, bs) =
        let differ : key e.ia ≢ key new = other_key e b in
        let test : (key new == key e.ia) ≡ false = ground arith in
        (lookup-insert (key new) (key e.ia) new p.associations ∙ rw test b, Backed-after q bs)

    All-apart :
        (e : Expiration) (q : List Expiration)
        → Backed p e
        → All (λ (f : Expiration). key f.ia ≢ key e.ia) q
        → All (λ (f : Expiration). key f.ia ≢ key e.ia) (q ++ (entry ∷ []))
    All-apart e [] b a = ((λ same. other_key e b (sym same)), tt)
    All-apart e (f ∷ q) b (a, as') = (a, All-apart e q b as')

    Apart-after : (q : List Expiration) → All (Backed p) q → Apart q → Apart (q ++ (entry ∷ []))
    Apart-after [] b a = (tt, tt)
    Apart-after (e ∷ q) (b, bs) (a, as') = (All-apart e q b a, Apart-after q bs as')

    taken :
        (k : ℕ) (a : Association)
        → lookup k p.associations ≡ some a
        → low64 address ≢ low64 a.address
    taken k a h same =
        let used : has (low64 address) p.used_ips ≡ true =
          subst (λ n. has n p.used_ips ≡ true) (sym same) (x.used k a h) in
        cc

    pub assign-Exclusive :
        Exclusive
          (assign hash now client interface address p).expirations
          (assign hash now client interface address p)
    unfolding assign push
    assign-Exclusive = record {
      same_start = x.same_start;
      same_size = x.same_size;
      ranged = λ k a h. elim (lookup_new (key new) k new a p h) [
        | inl (_, e) ↦
            subst (λ (c : Association). (start ≤ c.address) × (c.address < start + size)) e within
        | inr old ↦ x.ranged k a old
      ];
      used = λ k a h.
          has-insert (low64 address) (low64 a.address) tt p.used_ips
          ∙ elim (lookup_new (key new) k new a p h) [
            | inl (_, e) ↦
                let test : (low64 address == low64 a.address) ≡ true =
                  subst (λ (c : Association). (low64 address == low64 c.address) ≡ true) e
                    (self (low64 address)) in
                rw test
            | inr old ↦ let was = x.used k a old in ground arith
          ];
      single = λ k j a b hk hj same. elim (lookup_new (key new) k new a p hk) [
        | inl (e, ea) ↦ elim (lookup_new (key new) j new b p hj) [
          | inl (f, fb) ↦ sym e ∙ f
          | inr old ↦ absurd (taken j b old (ap (λ (c : Association). low64 c.address) ea ∙ same))
        ]
        | inr old ↦ elim (lookup_new (key new) j new b p hj) [
          | inl (f, fb) ↦
              absurd (taken k a old (ap (λ (c : Association). low64 c.address) fb ∙ sym same))
          | inr old' ↦ x.single k j a b old old' same
        ]
      ];
      backed = Backed-after p.expirations x.backed;
      apart = Apart-after p.expirations x.backed x.apart;
    }
