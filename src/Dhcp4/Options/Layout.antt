-- ===== src/Dhcp4/Options/Layout.antt =====
-- What `marshal_limited` writes, in plain terms: the options that fit, in ascending order, each as
-- code, length and payload; the end marker; padding up to the limit.
use netboot.Prelude.{
  ℕ, zero, suc, ◌+◌, ◌-◌, ◌≤◌, ◌<◌, ◌≡◌, refl, Bool, false, ◌&&◌, ◌||◌, none, List, [], ◌∷◌, ◌++◌,
  append_assoc, Bytes, length, replicate, length-append, take-length-append, drop-length-append,
  All, ltb, ◌==◌, if◌then◌else◌, arith,
}
use netboot.Prelude.Assoc.{insert, has, has_key, lookup-insert}
use netboot.Prelude.Sort.{Distinct}
use netboot.Prelude.Result.{ok}
use netboot.Dhcp4.Opt
use netboot.Dhcp4.Options.{Options, write_options, value, unmarshal_loop, is_duplicate}

-- The test of the second loop of `marshalLimited` that puts an option off.
unfoldable pub puts_off : Options → Bool → ℕ → ℕ → Bool
puts_off o skip52 n n_bytes =
    ltb 0 n_bytes && (skip52 && n == Opt.overload || ltb n_bytes (length (value o n) + 3))

-- The keys that are written, those that are left, and the bytes left for the end marker.
unfoldable pub kept : Options → Bool → List ℕ → ℕ → List ℕ
kept o skip52 [] n_bytes = []
kept o skip52 (n ∷ ns) n_bytes =
    let later = kept o skip52 ns n_bytes in
    let here = n ∷ kept o skip52 ns (n_bytes - (length (value o n) + 2)) in
    if puts_off o skip52 n n_bytes then later else here

unfoldable pub skipped : Options → Bool → List ℕ → ℕ → List ℕ
skipped o skip52 [] n_bytes = []
skipped o skip52 (n ∷ ns) n_bytes =
    let here = n ∷ skipped o skip52 ns n_bytes in
    let later = skipped o skip52 ns (n_bytes - (length (value o n) + 2)) in
    if puts_off o skip52 n n_bytes then here else later

unfoldable pub room : Options → Bool → List ℕ → ℕ → ℕ
room o skip52 [] n_bytes = n_bytes
room o skip52 (n ∷ ns) n_bytes =
    let same = room o skip52 ns n_bytes in
    let less = room o skip52 ns (n_bytes - (length (value o n) + 2)) in
    if puts_off o skip52 n n_bytes then same else less

unfoldable pub encode : Options → List ℕ → Bytes
encode o [] = []
encode o (n ∷ ns) = n ∷ length (value o n) ∷ (value o n ++ encode o ns)

unfoldable pub end_marker : ℕ → Bytes
end_marker n_bytes = 255 ∷ replicate (n_bytes - 1) 0

unfoldable pub insert_all : Options → List ℕ → Options → Options
insert_all o [] acc = acc
insert_all o (n ∷ ns) acc = insert_all o ns (insert n (value o n) acc)

-- Values that fit a length byte.
abbrev pub Fits : Options → ℕ → Type 0
Fits o n = (1 ≤ n) × (n < 255) × (length (value o n) ≤ 255)

pub write_options_lem :
    (o : Options) (skip52 : Bool) (ns : List ℕ) (n_bytes : ℕ) (ret : Options)
    → All (Fits o) ns
    → write_options o skip52 ns n_bytes ret
      ≡ ok (
        encode o (kept o skip52 ns n_bytes) ++ end_marker (room o skip52 ns n_bytes),
        insert_all o (skipped o skip52 ns n_bytes) ret,
      )
unfolding write_options kept skipped room encode end_marker insert_all puts_off
write_options_lem o skip52 [] n_bytes ret h = refl
write_options_lem o skip52 (n ∷ ns) n_bytes ret (h, hs) = ground (
  arith,
  write_options_lem o skip52 ns n_bytes (insert n (value o n) ret) hs,
  write_options_lem o skip52 ns (n_bytes - (length (value o n) + 2)) ret hs,
  append_assoc (value o n) (encode o (kept o skip52 ns (n_bytes - (length (value o n) + 2))))
      (end_marker (room o skip52 ns (n_bytes - (length (value o n) + 2)))),
)

has-insert : (k j : ℕ) (v : Bytes) (m : Options) → has j (insert k v m) ≡ (k == j || has j m)
unfolding has
has-insert k j v m = rw (lookup-insert k j v m, has) (ground arith)

still_new :
    (n : ℕ) (v : Bytes) (acc : Options) (ns : List ℕ)
    → has_key n ns ≡ false
    → All (λ k. has k acc ≡ false) ns
    → All (λ k. has k (insert n v acc) ≡ false) ns
unfolding has_key
still_new n v acc [] d f = tt
still_new n v acc (k ∷ ns) d (f, fs) =
    (ground (arith, has-insert n k v acc), still_new n v acc ns (ground arith) fs)

-- `unmarshal` reads an encoding back into any map that has none of its keys.
pub unmarshal_loop-encode :
    (o : Options) (ns : List ℕ) (fuel : ℕ) (pad : Bytes) (acc : Options)
    → All (Fits o) ns
    → Distinct ns
    → All (λ n. has n acc ≡ false) ns
    → length (encode o ns) < fuel
    → unmarshal_loop fuel (encode o ns ++ (255 ∷ pad)) acc ≡ (insert_all o ns acc, none)
unfolding unmarshal_loop encode insert_all is_duplicate
unmarshal_loop-encode o [] zero pad acc h d f lt = absurd (omega arith)
unmarshal_loop-encode o [] (suc fuel) [] acc h d f lt = refl
unmarshal_loop-encode o [] (suc fuel) (p ∷ pad) acc h d f lt = refl
unmarshal_loop-encode o (n ∷ ns) zero pad acc h d f lt = absurd (omega arith)
unmarshal_loop-encode o (n ∷ ns) (suc fuel) pad acc (h, hs) (d, ds) (f, fs) lt =
    let v = value o n in
    let rest = encode o ns ++ (255 ∷ pad) in
    rw (append_assoc v (encode o ns) (255 ∷ pad)) (
      ground (
        arith,
        take-length-append v rest,
        drop-length-append v rest,
        length-append v rest,
        length-append v (encode o ns),
        unmarshal_loop-encode o ns fuel pad (insert n v acc) hs ds (still_new n v acc ns d fs)
            (omega (arith, length-append v (encode o ns))),
      ))
