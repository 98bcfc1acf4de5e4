-- ===== src/Dhcp6/Pool/Again.antt =====
-- A second call of ReserveAddresses of dhcp6/pool/random_address_pool.go for the same interfaces.
use netboot.Prelude.{
  ℕ, ◌<◌, ◌≡◌, refl, sym, ap, ◌∙◌, Bool, Option, none, some, List, [], ◌∷◌, Bytes, length, lt→ltb,
  ◌==◌, ==_iff, if_ind,
}
use netboot.Prelude.Assoc.{lookup, lookup-insert}
use netboot.Dhcp6.Pool.{
  Wanted, Association, Expiration, Pool, Reserved, reserved, exhausted, stuck, draw, assign,
  expire_queue, expire, reserve_drawn, reserve_known, reserve_one, after_one, reserve_each,
  reserve_addresses,
}
use netboot.Dhcp6.Pool.Reserve.{self}

-- Two lists of wanted addresses name the same interfaces.
abbrev pub Same : List Wanted → List Wanted → Type 0
Same [] [] = Unit {0}
Same [] (v ∷ vs) = ⊥
Same (w ∷ ws) [] = ⊥
Same (w ∷ ws) (v ∷ vs) = (w.interface ≡ v.interface) × Same ws vs

-- The oldest expiration has not come, so that none is dropped.
abbrev pub NotDue : ℕ → List Expiration → Type 0
NotDue now [] = Unit {0}
NotDue now (e ∷ q) = now < e.expires_at

-- Every association of `p` is one of `q`.
abbrev Keeps : Pool → Pool → Type 0
Keeps p q =
    (k : ℕ) (a : Association) → lookup k p.associations ≡ some a → lookup k q.associations ≡ some a

with_queue : (p : Pool) (q : List Expiration) → p.expirations ≡ q → record p { expirations = q } ≡ p
with_queue p q h = ap (λ x. record p { expirations = x }) (sym h)

module _ (hash : Bytes → Bytes → ℕ) where
  expire_queue_still :
      (clock : ℕ → ℕ) (q : List Expiration) (p : Pool)
      → p.expirations ≡ q
      → NotDue (clock 0) q
      → expire_queue hash clock q p ≡ p
  unfolding expire_queue
  expire_queue_still clock [] p h n = with_queue p [] h
  expire_queue_still clock (e ∷ q) p h n = rw (lt→ltb _ _ n) (with_queue p (e ∷ q) h)

  -- A round that succeeds leaves the association in the pool, with all the others.
  Holds : Bytes → Bytes → Pool → Reserved → Type 0
  Holds client interface p (reserved a q) =
      (lookup (hash client interface) q.associations ≡ some a) × Keeps p q
  Holds client interface p exhausted = Unit {0}
  Holds client interface p stuck = Unit {0}

  assign-Keeps :
      (now : ℕ) (client interface : Bytes) (address : ℕ) (p : Pool)
      → lookup (hash client interface) p.associations ≡ none
      → Keeps p (assign hash now client interface address p)
  unfolding assign
  assign-Keeps now client interface address p unknown k a h =
      lookup-insert (hash client interface) k _ p.associations
      ∙ if_ind (λ o. o ≡ some a) (hash client interface == k) _ (lookup k p.associations)
          (λ t.
            let same = ap (λ n. lookup n p.associations) ((==_iff (hash client interface) k).0 t) in
            absurd (differ (sym unknown ∙ same ∙ h)))
          (λ _. h)
    where
      differ : ◌≡◌ {A = Option Association} none (some a) → ⊥
      differ e = absurd (cc)

  drawn-Holds :
      (now : ℕ) (client interface : Bytes) (p : Pool) (o : Option ℕ)
      → lookup (hash client interface) p.associations ≡ none
      → Holds client interface p (reserve_drawn hash now client interface p o)
  unfolding Holds reserve_drawn
  drawn-Holds now client interface p none unknown = tt
  drawn-Holds now client interface p (some address) unknown = (
    unfold assign in
        lookup-insert (hash client interface) (hash client interface) _ p.associations
        ∙ rw (self (hash client interface)) refl,
    assign-Keeps now client interface address p unknown,
  )

  reserve_one-Holds :
      (now : ℕ) (client interface : Bytes) (random : List ℕ) (p : Pool)
      → Holds client interface p (reserve_one hash now client interface random p)
  unfolding reserve_one reserve_known Holds
  reserve_one-Holds now client interface random p =
      go (lookup (hash client interface) p.associations) refl
    where
      go :
          (o : Option Association)
          → lookup (hash client interface) p.associations ≡ o
          → Holds client interface p (reserve_known hash now client interface random p o)
      go (some a) known = (known, λ k b h. h)
      go none unknown =
          if_ind (Holds client interface p) (length p.used_ips == p.size) exhausted _ (λ _. tt)
            (λ _. drawn-Holds now client interface p (draw p random) unknown)

  -- What a round of the loop adds to the others.
  after_one-Keeps :
      (client interface : Bytes) (p : Pool) (r : Reserved)
      (rest : Pool → Option Bool × List Association × Pool)
      → Holds client interface p r
      → ((q : Pool) → Keeps q (rest q).2)
      → Keeps p (after_one hash p r rest).2
  unfolding after_one Holds
  after_one-Keeps client interface p exhausted rest h more = λ k a e. e
  after_one-Keeps client interface p stuck rest h more = λ k a e. e
  after_one-Keeps client interface p (reserved a q) rest h more = λ k b e. more q k b (h.1 k b e)

  reserve_each-Keeps :
      (client : Bytes) (ws : List Wanted) (p : Pool) → Keeps p (reserve_each hash client ws p).2
  unfolding reserve_each
  reserve_each-Keeps client [] p = λ k a e. e
  reserve_each-Keeps client (w ∷ ws) p =
      after_one-Keeps client w.interface p (reserve_one hash w.time client w.interface w.random p) _
        (reserve_one-Holds w.time client w.interface w.random p)
        (λ q. reserve_each-Keeps client ws q)

  -- An interface that has an association gets it.
  reserve_one-known :
      (now : ℕ) (client interface : Bytes) (random : List ℕ) (q : Pool) (a : Association)
      → lookup (hash client interface) q.associations ≡ some a
      → reserve_one hash now client interface random q ≡ reserved a q
  unfolding reserve_one
  reserve_one-known now client interface random q a h =
      ap (λ o. reserve_known hash now client interface random q o) h
      ∙ (unfold reserve_known in refl)

  reserve_each-again :
      (client : Bytes) (ws vs : List Wanted) (p q : Pool)
      → Same ws vs
      → (reserve_each hash client ws p).0 ≡ none
      → Keeps (reserve_each hash client ws p).2 q
      → reserve_each hash client vs q ≡ (none, (reserve_each hash client ws p).1, q)
  unfolding reserve_each after_one Holds
  reserve_each-again client [] [] p q same h keeps = refl
  reserve_each-again client [] (v ∷ vs) p q same h keeps = absurd same
  reserve_each-again client (w ∷ ws) [] p q same h keeps = absurd same
  reserve_each-again client (w ∷ ws) (v ∷ vs) p q (named, same) h keeps =
      go (reserve_one hash w.time client w.interface w.random p)
        (reserve_one-Holds w.time client w.interface w.random p) h keeps
        (λ x e k. reserve_each-again client ws vs x q same e k)
    where
      go :
          (r : Reserved)
          → Holds client w.interface p r
          → (after_one hash p r (λ x. reserve_each hash client ws x)).0 ≡ none
          → Keeps (after_one hash p r (λ x. reserve_each hash client ws x)).2 q
          → ((x : Pool)
              → (reserve_each hash client ws x).0 ≡ none
              → Keeps (reserve_each hash client ws x).2 q
              → reserve_each hash client vs q ≡ (none, (reserve_each hash client ws x).1, q))
          → after_one hash q
              (reserve_one hash v.time client v.interface v.random q)
              (λ x. reserve_each hash client vs x)
            ≡ (none, (after_one hash p r (λ x. reserve_each hash client ws x)).1, q)
      go exhausted held e k others = absurd (cc)
      go stuck held e k others = absurd (cc)
      go (reserved a x) held e k others =
          let there : lookup (hash client w.interface) q.associations ≡ some a =
            k _ a (reserve_each-Keeps client ws x _ a held.0) in
          let known : lookup (hash client v.interface) q.associations ≡ some a =
            ap (λ n. lookup (hash client n) q.associations) (sym named) ∙ there in
          ap (λ r. after_one hash q r (λ y. reserve_each hash client vs y))
            (reserve_one-known v.time client v.interface v.random q a known)
          ∙ ap (λ (o : Option Bool × List Association × Pool). (o.0, a ∷ o.1, o.2)) (others x e k)

  -- After a call of ReserveAddresses that returns no error, a second one for the same client and the
  -- same interfaces, when the oldest entry of the queue of expirations has not come yet, returns the
  -- same associations without an error and leaves the pool as it is, whatever the generator yields.
  pub reserve_addresses-again :
      (clock later : ℕ → ℕ) (client : Bytes) (ws vs : List Wanted) (p : Pool)
      → (reserve_addresses hash clock client ws p).0 ≡ none
      → Same ws vs
      → NotDue (later 0) (reserve_addresses hash clock client ws p).2.expirations
      → reserve_addresses hash later client vs (reserve_addresses hash clock client ws p).2 ≡ (
        none,
        (reserve_addresses hash clock client ws p).1,
        (reserve_addresses hash clock client ws p).2,
      )
  unfolding reserve_addresses expire
  reserve_addresses-again clock later client ws vs p h same due =
      let q = (reserve_each hash client ws (expire hash clock p)).2 in
      ap (λ x. reserve_each hash client vs x) (expire_queue_still later q.expirations q refl due)
      ∙ reserve_each-again client ws vs (expire hash clock p) q same h (λ k a e. e)
