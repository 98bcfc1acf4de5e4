-- ===== src/Dhcp4/Options/Split.antt =====
-- How `marshal_limited` splits the options: what is kept and what is skipped make up the whole, and
-- the room left counts the bytes.
use netboot.Prelude.{
  ℕ, ◌+◌, ◌-◌, ◌<◌, ◌≡◌, refl, ◌∙◌, Bool, true, false, ◌&&◌, ◌||◌, some, List, [], ◌∷◌, length,
  length-append, All, if◌then◌else◌, if_ind, arith,
}
use netboot.Prelude.Assoc.{lookup, insert, keys, has, has_key, has_key-keys, lookup-insert}
use netboot.Prelude.Sort.{Distinct, sort, has_key-sort, Ascending-sort, Distinct-Ascending}
use netboot.Dhcp4.Options.{Options, value}
use netboot.Dhcp4.Options.WellFormed.{IsWire, length-value, has_key_range}
use netboot.Dhcp4.Options.Layout.{puts_off, kept, skipped, room, encode, insert_all, Fits}

pub lookup-insert_all :
    (o : Options) (ns : List ℕ) (acc : Options) (j : ℕ)
    → lookup j (insert_all o ns acc) ≡ (if has_key j ns then some (value o j) else lookup j acc)
unfolding insert_all has_key
lookup-insert_all o [] acc j = refl
lookup-insert_all o (n ∷ ns) acc j =
    ground (
      arith,
      lookup-insert_all o ns (insert n (value o n) acc) j,
      lookup-insert n j (value o n) acc,
    )

module _ (o : Options) (skip52 : Bool) where
  pub has_key_split :
      (ns : List ℕ) (n_bytes j : ℕ)
      → has_key j ns
        ≡ (has_key j (kept o skip52 ns n_bytes) || has_key j (skipped o skip52 ns n_bytes))
  unfolding kept skipped has_key
  has_key_split [] n_bytes j = refl
  has_key_split (n ∷ ns) n_bytes j =
      ground
        (arith, has_key_split ns n_bytes j, has_key_split ns (n_bytes - (length (value o n) + 2)) j)

  -- A key that is not in the list is neither kept nor skipped.
  pub has_key-kept-false :
      (ns : List ℕ) (n_bytes j : ℕ)
      → has_key j ns ≡ false
      → (has_key j (kept o skip52 ns n_bytes) ≡ false)
        × (has_key j (skipped o skip52 ns n_bytes) ≡ false)
  has_key-kept-false ns n_bytes j h = ground (arith, has_key_split ns n_bytes j)

  pub kept-skipped_apart :
      (ns : List ℕ) (n_bytes j : ℕ)
      → Distinct ns
      → (has_key j (kept o skip52 ns n_bytes) && has_key j (skipped o skip52 ns n_bytes)) ≡ false
  unfolding kept skipped has_key
  kept-skipped_apart [] n_bytes j d = refl
  kept-skipped_apart (n ∷ ns) n_bytes j (d, ds) = ground (
    arith,
    kept-skipped_apart ns n_bytes j ds,
    kept-skipped_apart ns (n_bytes - (length (value o n) + 2)) j ds,
    has_key-kept-false ns n_bytes n d,
    has_key-kept-false ns (n_bytes - (length (value o n) + 2)) n d,
  )

  pub Distinct-kept :
      (ns : List ℕ) (n_bytes : ℕ) → Distinct ns → Distinct (kept o skip52 ns n_bytes)
  unfolding kept
  Distinct-kept [] n_bytes d = tt
  Distinct-kept (n ∷ ns) n_bytes (d, ds) =
      if_ind Distinct (puts_off o skip52 n n_bytes) _ _ (λ _. Distinct-kept ns n_bytes ds)
        λ _. (
          (has_key-kept-false ns (n_bytes - (length (value o n) + 2)) n d).0,
          Distinct-kept ns (n_bytes - (length (value o n) + 2)) ds,
        )

  pub All-kept {κ} :
      (P : ℕ → Type κ) (ns : List ℕ) (n_bytes : ℕ) → All P ns → All P (kept o skip52 ns n_bytes)
  unfolding kept
  All-kept P [] n_bytes h = tt
  All-kept P (n ∷ ns) n_bytes (h, hs) =
      if_ind (All P) (puts_off o skip52 n n_bytes) _ _ (λ _. All-kept P ns n_bytes hs)
        λ _. (h, All-kept P ns (n_bytes - (length (value o n) + 2)) hs)

  pub All-skipped {κ} :
      (P : ℕ → Type κ) (ns : List ℕ) (n_bytes : ℕ) → All P ns → All P (skipped o skip52 ns n_bytes)
  unfolding skipped
  All-skipped P [] n_bytes h = tt
  All-skipped P (n ∷ ns) n_bytes (h, hs) =
      if_ind (All P) (puts_off o skip52 n n_bytes) _ _ (λ _. (h, All-skipped P ns n_bytes hs))
        λ _. All-skipped P ns (n_bytes - (length (value o n) + 2)) hs

  -- Under a limit the encoding and the room left are the limit, and the end marker has its byte.
  pub room_lem :
      (ns : List ℕ) (n_bytes : ℕ)
      → 0 < n_bytes
      → (length (encode o (kept o skip52 ns n_bytes)) + room o skip52 ns n_bytes ≡ n_bytes)
        × (0 < room o skip52 ns n_bytes)
  unfolding kept room encode puts_off
  room_lem [] n_bytes h = omega arith
  room_lem (n ∷ ns) n_bytes h = ground (
    arith,
    room_lem ns n_bytes h,
    room_lem ns (n_bytes - (length (value o n) + 2)),
    length-append (value o n) (encode o (kept o skip52 ns (n_bytes - (length (value o n) + 2)))),
  )

  -- Without a limit everything is kept.
  pub no_limit :
      (ns : List ℕ)
      → (kept o skip52 ns 0 ≡ ns) × (skipped o skip52 ns 0 ≡ []) × (room o skip52 ns 0 ≡ 0)
  unfolding kept skipped room puts_off
  no_limit [] = (refl, refl, refl)
  no_limit (n ∷ ns) = ground (arith, no_limit ns)

Fits-All :
    (o : Options) (w : IsWire o) (ns : List ℕ)
    → ((j : ℕ) → has_key j ns ≡ true → has_key j (keys o) ≡ true)
    → All (Fits o) ns
Fits-All o w [] h = tt
Fits-All o w (n ∷ ns) h =
    let r = has_key_range o n w (h n (unfold has_key in ground arith)) in
    ((r.0, r.1, length-value o n w), Fits-All o w ns (λ j e. h j (unfold has_key in ground arith)))

-- The sorted keys of a map fit for the wire.
pub Fits-sort : (o : Options) → IsWire o → All (Fits o) (sort (keys o))
Fits-sort o w = Fits-All o w (sort (keys o)) (λ j e. rw (← has_key-sort j (keys o)) e)

pub Distinct-sort : (o : Options) → IsWire o → Distinct (sort (keys o))
Distinct-sort o w = Distinct-Ascending _ (Ascending-sort (keys o) w.distinct)

pub has_key-sort-keys : (o : Options) (j : ℕ) → has_key j (sort (keys o)) ≡ has j o
has_key-sort-keys o j = has_key-sort j (keys o) ∙ has_key-keys j o
