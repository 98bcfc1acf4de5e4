-- ===== src/Url/Values.antt =====
-- What can stand as a value in a query.
use netboot.Prelude.{
  ℕ, ◌/◌, ◌%◌, ◌<◌, ◌≡◌, ◌≢◌, refl, ap, ◌∙◌, Bool, true, some, [], ◌∷◌, Bytes, All, ◌==◌, ◌&&◌, not,
  if_ind, arith,
}
use netboot.Server.Strings.{mac_string, hex_digit}
use netboot.Strconv.RoundTrip.{IsDigit}
use netboot.Url.{is_unreserved, upper_hex, percent, query_escape, query_unescape, plus_as_space}
use netboot.Url.RoundTrip.{query_unescape-cons, query_unescape-query_escape}

-- A byte that separates the parts of a query.
abbrev pub IsInner : ℕ → Type 0
IsInner c = (c ≢ b'&') × (c ≢ b';')

-- The text `v` can stand in a query, where it means `u`.
pub record IsValueOf (u v : Bytes) : Type 0 where
  pub means : query_unescape v ≡ some u
  pub inner : All IsInner v

upper_hex-IsInner : (n : ℕ) → n < 16 → IsInner (upper_hex n)
unfolding upper_hex
upper_hex-IsInner n h = ((λ e. ground arith), (λ e. ground arith))

escape-IsInner : (s : Bytes) → All (λ c. c < 256) s → All IsInner (query_escape s)
unfolding query_escape percent
escape-IsInner [] h = tt
escape-IsInner (c ∷ s) (h, hs) =
    let more = escape-IsInner s hs in
    if_ind (All IsInner) (is_unreserved c) _ _ (λ t. (unreserved t, more))
      (λ f.
        if_ind (All IsInner) (c == b' ') _ _ (λ t. (((λ e. omega arith), (λ e. omega arith)), more))
          (λ g. (
            ((λ e. omega arith), (λ e. omega arith)),
            (
              upper_hex-IsInner (c / 16) (omega arith),
              (upper_hex-IsInner (c % 16) (omega arith), more),
            ),
          )))
  where
    unreserved : is_unreserved c ≡ true → IsInner c
    unreserved t =
        ((λ e. unfold is_unreserved in ground arith), (λ e. unfold is_unreserved in ground arith))

pub query_escape-IsValueOf : (s : Bytes) → All (λ c. c < 256) s → IsValueOf s (query_escape s)
query_escape-IsValueOf s h = record {
  means = query_unescape-query_escape s h;
  inner = escape-IsInner s h;
}

-- A byte that stands for itself in a query.
abbrev pub IsItself : ℕ → Type 0
IsItself c = (c ≢ b'%') × ((c ≢ b'+') × IsInner c)

pub itself-means : (s : Bytes) → All IsItself s → query_unescape s ≡ some s
itself-means [] h = unfold query_unescape in refl
itself-means (c ∷ s) ((percent, (plus, h)), hs) =
    let same : plus_as_space c ≡ c = ground arith in
    query_unescape-cons c s s percent (itself-means s hs) ∙ ap (λ x. some (x ∷ s)) same

pub itself-IsInner : (s : Bytes) → All IsItself s → All IsInner s
itself-IsInner [] h = tt
itself-IsInner (c ∷ s) ((percent, (plus, h)), hs) = (h, itself-IsInner s hs)

pub itself-IsValueOf : (s : Bytes) → All IsItself s → IsValueOf s s
itself-IsValueOf s h = record { means = itself-means s h; inner = itself-IsInner s h }

hex_digit-IsItself : (n : ℕ) → n < 16 → IsItself (hex_digit n)
unfolding hex_digit
hex_digit-IsItself n h =
    ((λ e. ground arith), ((λ e. ground arith), ((λ e. ground arith), (λ e. ground arith))))

-- A hardware address needs no escape.
pub mac_string-IsItself : (mac : Bytes) → All (λ b. b < 256) mac → All IsItself (mac_string mac)
unfolding mac_string
mac_string-IsItself [] h = tt
mac_string-IsItself (b ∷ []) (h, hs) =
    (hex_digit-IsItself (b / 16) (omega arith), (hex_digit-IsItself (b % 16) (omega arith), tt))
mac_string-IsItself (b ∷ c ∷ bs) (h, hs) = (
  hex_digit-IsItself (b / 16) (omega arith),
  (
    hex_digit-IsItself (b % 16) (omega arith),
    (
      ((λ e. omega arith), ((λ e. omega arith), ((λ e. omega arith), (λ e. omega arith)))),
      mac_string-IsItself (c ∷ bs) hs,
    ),
  ),
)

pub digits-IsItself : (s : Bytes) → All IsDigit s → All IsItself s
digits-IsItself [] h = tt
digits-IsItself (c ∷ s) (h, hs) = (
  ((λ e. omega arith), ((λ e. omega arith), ((λ e. omega arith), (λ e. omega arith)))),
  digits-IsItself s hs,
)

-- A key of a query, tested byte by byte.
abbrev pub is_key : Bytes → Bool
is_key [] = true
is_key (c ∷ s) =
    not (c == b'%')
    && (not (c == b'+') && (not (c == b'&') && (not (c == b';') && (not (c == b'=') && is_key s))))

pub key-IsItself : (k : Bytes) → is_key k ≡ true → All IsItself k
key-IsItself [] h = tt
key-IsItself (c ∷ k) h = (
  ((λ e. ground arith), ((λ e. ground arith), ((λ e. ground arith), (λ e. ground arith)))),
  key-IsItself k (ground arith),
)

hex_digit_lt : (n : ℕ) → n < 16 → hex_digit n < 256
unfolding hex_digit
hex_digit_lt n h = ground arith

-- A hardware address is printed in bytes.
pub mac_string-bytes : (mac : Bytes) → All (λ b. b < 256) mac → All (λ c. c < 256) (mac_string mac)
unfolding mac_string
mac_string-bytes [] h = tt
mac_string-bytes (b ∷ []) (h, hs) =
    (hex_digit_lt (b / 16) (omega arith), (hex_digit_lt (b % 16) (omega arith), tt))
mac_string-bytes (b ∷ c ∷ bs) (h, hs) = (
  hex_digit_lt (b / 16) (omega arith),
  (hex_digit_lt (b % 16) (omega arith), (omega arith, mac_string-bytes (c ∷ bs) hs)),
)
