-- ===== src/Booters/Cmdline/Order.antt =====
-- The command line does not depend on the order of iteration over a Go map.
use netboot.Prelude.{◌≡◌, refl, sym, ap, ◌∙◌, true, false, List, [], ◌∷◌, Bytes, arith}
use netboot.Net.{equal, equal-eq, equal_refl}
use netboot.Booters.Cmdline.{
  Json, Members, member, leb_text, insert_text, sorted_keys, lookup, arguments, construct_cmdline,
}

leb_text_total : (s t : Bytes) → leb_text s t ≡ false → leb_text t s ≡ true
unfolding leb_text
leb_text_total [] t h = absurd (cc)
leb_text_total (a ∷ s) [] h = refl
leb_text_total (a ∷ s) (b ∷ t) h = ground (arith, leb_text_total s t)

leb_text_trans : (s t u : Bytes) → leb_text s t ≡ true → leb_text t u ≡ true → leb_text s u ≡ true
unfolding leb_text
leb_text_trans [] t u h k = refl
leb_text_trans (a ∷ s) [] u h k = absurd (cc)
leb_text_trans (a ∷ s) (b ∷ t) [] h k = absurd (cc)
leb_text_trans (a ∷ s) (b ∷ t) (c ∷ u) h k = ground (arith, leb_text_trans s t u)

leb_text_antisym : (s t : Bytes) → leb_text s t ≡ true → leb_text t s ≡ true → s ≡ t
unfolding leb_text
leb_text_antisym [] [] h k = refl
leb_text_antisym [] (b ∷ t) h k = absurd (cc)
leb_text_antisym (a ∷ s) [] h k = absurd (cc)
leb_text_antisym (a ∷ s) (b ∷ t) h k = ground (arith, leb_text_antisym s t)

insert_text_comm :
    (s t : Bytes) (l : List Bytes)
    → insert_text s (insert_text t l) ≡ insert_text t (insert_text s l)
unfolding insert_text
insert_text_comm s t [] = ground (arith, leb_text_total s t, leb_text_antisym s t)
insert_text_comm s t (u ∷ l) = ground (
  arith,
  leb_text_total s t,
  leb_text_total t s,
  leb_text_antisym s t,
  leb_text_trans s t u,
  leb_text_trans t s u,
  leb_text_total s u,
  leb_text_total t u,
  insert_text_comm s t l,
)

-- Two orders of iteration over the same map, which has each key once.
pub data Reordered : Members → Members → Type 0 where
  same : {m : Members} → Reordered m m
  later :
      {k : Bytes} {v : Json} {m n : Members}
      → Reordered m n
      → Reordered (member k v m) (member k v n)
  swapped :
      {j k : Bytes} {v x : Json} {m : Members}
      → equal j k ≡ false
      → Reordered (member j v (member k x m)) (member k x (member j v m))
  then_again : {m n o : Members} → Reordered m n → Reordered n o → Reordered m o

sorted_keys-Reordered : {m n : Members} → Reordered m n → sorted_keys m ≡ sorted_keys n
unfolding sorted_keys
sorted_keys-Reordered same = refl
sorted_keys-Reordered (later {k} h) = ap (insert_text k) (sorted_keys-Reordered h)
sorted_keys-Reordered (swapped {j} {k} {m = m} d) = insert_text_comm j k (sorted_keys m)
sorted_keys-Reordered (then_again h k) = sorted_keys-Reordered h ∙ sorted_keys-Reordered k

equal_distinct :
    (j k i : Bytes) → equal j k ≡ false → equal j i ≡ true → equal k i ≡ true → false ≡ true
equal_distinct j k i d h e = sym d ∙ rw (equal-eq j i h, equal-eq k i e) (equal_refl i)

lookup-Reordered : (i : Bytes) {m n : Members} → Reordered m n → lookup i m ≡ lookup i n
unfolding lookup
lookup-Reordered i same = refl
lookup-Reordered i (later h) = ground (arith, lookup-Reordered i h)
lookup-Reordered i (swapped {j} {k} d) = ground (arith, equal_distinct j k i d)
lookup-Reordered i (then_again h k) = lookup-Reordered i h ∙ lookup-Reordered i k

arguments-Reordered :
    (quote : Bytes → Bytes) {m n : Members} (ks : List Bytes)
    → Reordered m n
    → arguments quote m ks ≡ arguments quote n ks
unfolding arguments
arguments-Reordered quote [] h = refl
arguments-Reordered quote (k ∷ ks) h =
    rw (lookup-Reordered k h, arguments-Reordered quote ks h) refl

-- The kernel command line that is made of a Go map, the text or the error, is the same for every order in which
-- the iteration over the map yields its keys.
pub construct_cmdline-Reordered :
    (quote : Bytes → Bytes) {m n : Members}
    → Reordered m n
    → construct_cmdline quote m ≡ construct_cmdline quote n
unfolding construct_cmdline
construct_cmdline-Reordered quote h =
    rw (sorted_keys-Reordered h, arguments-Reordered quote (sorted_keys _) h) refl
