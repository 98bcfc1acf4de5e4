-- ===== src/Url/RoundTrip.antt =====
-- Escaped text is read back, and the values of a query are found under their keys.
use netboot.Prelude.{
  ℕ, ◌+◌, ◌*◌, ◌/◌, ◌%◌, ◌<◌, ◌≡◌, ◌≢◌, refl, ap, ◌∙◌, true, false, Option, some, [], ◌∷◌, Bytes,
  All, ◌==◌, if_ind, arith,
}
use netboot.Server.Mac.{hex_value, hex_byte, push_byte}
use netboot.Url.{is_unreserved, upper_hex, percent, query_escape, query_unescape, plus_as_space}

hex_value-upper_hex : (n : ℕ) → n < 16 → hex_value (upper_hex n) ≡ some n
unfolding hex_value upper_hex
hex_value-upper_hex n h = ground arith

query_unescape-percent :
    (c : ℕ) (s t : Bytes)
    → c < 256
    → query_unescape s ≡ some t
    → query_unescape (percent c s) ≡ some (c ∷ t)
unfolding query_unescape percent push_byte hex_byte
query_unescape-percent c s t h e =
    let whole : c / 16 * 16 + c % 16 ≡ c = omega arith in
    rw (
      hex_value-upper_hex (c / 16) (omega arith),
      hex_value-upper_hex (c % 16) (omega arith),
      e,
      whole,
    )

-- A byte other than `%` stands for itself, or for a space.
pub query_unescape-cons :
    (c : ℕ) (s t : Bytes)
    → c ≢ b'%'
    → query_unescape s ≡ some t
    → query_unescape (c ∷ s) ≡ some (plus_as_space c ∷ t)
unfolding query_unescape
query_unescape-cons c s t h e = by_tail s e
  where
    other : (c == b'%') ≡ false
    other = ground arith

    pushed :
        (o : Option Bytes)
        → o ≡ some t
        → push_byte (some (plus_as_space c)) o ≡ some (plus_as_space c ∷ t)
    pushed o x = unfold push_byte in rw x

    by_tail :
        (u : Bytes)
        → query_unescape u ≡ some t
        → query_unescape (c ∷ u) ≡ some (plus_as_space c ∷ t)
    by_tail [] x = rw other (unfold push_byte in pushed (some []) x)
    by_tail (a ∷ []) x = rw other (pushed (query_unescape (a ∷ [])) x)
    by_tail (a ∷ b ∷ u) x = rw other (pushed (query_unescape (a ∷ b ∷ u)) x)

-- What is escaped for a query is read back.
pub query_unescape-query_escape :
    (s : Bytes) → All (λ c. c < 256) s → query_unescape (query_escape s) ≡ some s
unfolding query_escape
query_unescape-query_escape [] h = unfold query_unescape in refl
query_unescape-query_escape (c ∷ s) (h, hs) =
    let e = query_unescape-query_escape s hs in
    if_ind Q (is_unreserved c) _ _ (λ t. kept t e)
      λ f.
        if_ind Q (c == b' ') _ _ (λ t. spaced t e)
          (λ g. query_unescape-percent c (query_escape s) s h e)
  where
    Q : Bytes → Type 0
    Q r = query_unescape r ≡ some (c ∷ s)

    kept :
        is_unreserved c ≡ true → query_unescape (query_escape s) ≡ some s → Q (c ∷ query_escape s)
    kept t e =
        let itself : plus_as_space c ≡ c = unfold is_unreserved in ground arith in
        let other : c ≢ b'%' = λ x. unfold is_unreserved in ground arith in
        query_unescape-cons c (query_escape s) s other e ∙ ap (λ x. some (x ∷ s)) itself

    spaced :
        (c == b' ') ≡ true → query_unescape (query_escape s) ≡ some s → Q (b'+' ∷ query_escape s)
    spaced t e =
        let space : b' ' ≡ c = ground arith in
        query_unescape-cons b'+' (query_escape s) s (λ x. omega arith) e
        ∙ ap (λ x. some (x ∷ s)) space
