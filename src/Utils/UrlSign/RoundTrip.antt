-- ===== src/Utils/UrlSign/RoundTrip.antt =====
-- GetURL gives back the URL that SignURL was given.
use netboot.Prelude.{
  ℕ, ◌+◌, ◌*◌, ◌/◌, ◌%◌, ◌<◌, ◌≡◌, refl, ◌∙◌, false, Option, some, [], ◌∷◌, ◌++◌, Bytes, length,
  length-append, take-append_of, drop-append_of, All, ltb, le→ltb_false, ◌==◌, ◌||◌, arith,
}
use netboot.Prelude.Result.{ok}
use netboot.Utils.UrlSign.{
  digit, digit_value, encode, group, two_bytes, one_byte, last_group, decode_groups,
  without_line_ends, decode, or_sign, nonce_size, sign_url, get_url,
}

digit_value-digit : (n : ℕ) → n < 64 → digit_value (digit n) ≡ some n
unfolding digit_value digit
digit_value-digit n h = ground arith

digit-ne_padding : (n : ℕ) → n < 64 → (digit n == b'=') ≡ false
unfolding digit
digit-ne_padding n h = ground arith

digit-ne_line_end : (n : ℕ) → n < 64 → (digit n == 10 || digit n == 13) ≡ false
unfolding digit
digit-ne_line_end n h = ground arith

-- A group without padding is read in front of what follows.
decode_groups-group :
    (p q r t : ℕ) (s : Bytes)
    → (t == b'=') ≡ false
    → decode_groups (p ∷ q ∷ r ∷ t ∷ s)
      ≡ group (digit_value p) (digit_value q) (digit_value r) (digit_value t) (decode_groups s)
unfolding decode_groups
decode_groups-group p q r t [] h = unfold last_group in rw h
decode_groups-group p q r t (u ∷ s) h = refl

decode_groups-encode : (s : Bytes) → All (λ c. c < 256) s → decode_groups (encode s) ≡ some s
unfolding encode group
decode_groups-encode [] h = unfold decode_groups in refl
decode_groups-encode (a ∷ []) (ha, t) =
    let one : a / 4 * 4 + a % 4 * 16 / 16 ≡ a = omega arith in
    unfold decode_groups last_group one_byte in
    rw (digit_value-digit (a / 4) (omega arith), digit_value-digit (a % 4 * 16) (omega arith), one)
decode_groups-encode (a ∷ b ∷ []) (ha, (hb, t)) =
    let one : a / 4 * 4 + (a % 4 * 16 + b / 16) / 16 ≡ a = omega arith in
    let two : (a % 4 * 16 + b / 16) % 16 * 16 + b % 16 * 4 / 4 ≡ b = omega arith in
    unfold decode_groups last_group two_bytes in
    rw (
      digit-ne_padding (b % 16 * 4) (omega arith),
      digit_value-digit (a / 4) (omega arith),
      digit_value-digit (a % 4 * 16 + b / 16) (omega arith),
      digit_value-digit (b % 16 * 4) (omega arith),
      one,
      two,
    )
decode_groups-encode (a ∷ b ∷ c ∷ s) (ha, (hb, (hc, hs))) =
    let one : a / 4 * 4 + (a % 4 * 16 + b / 16) / 16 ≡ a = omega arith in
    let two : (a % 4 * 16 + b / 16) % 16 * 16 + (b % 16 * 4 + c / 64) / 4 ≡ b = omega arith in
    let three : (b % 16 * 4 + c / 64) % 4 * 64 + c % 64 ≡ c = omega arith in
    decode_groups-group (digit (a / 4)) (digit (a % 4 * 16 + b / 16)) (digit (b % 16 * 4 + c / 64))
      (digit (c % 64)) (encode s) (digit-ne_padding (c % 64) (omega arith))
    ∙ rw (
      digit_value-digit (a / 4) (omega arith),
      digit_value-digit (a % 4 * 16 + b / 16) (omega arith),
      digit_value-digit (b % 16 * 4 + c / 64) (omega arith),
      digit_value-digit (c % 64) (omega arith),
      decode_groups-encode s hs,
      one,
      two,
      three,
    )

-- An encoded text has no line ends.
without_line_ends-encode :
    (s : Bytes) → All (λ c. c < 256) s → without_line_ends (encode s) ≡ encode s
unfolding encode without_line_ends
without_line_ends-encode [] h = refl
without_line_ends-encode (a ∷ []) (ha, t) =
    rw (digit-ne_line_end (a / 4) (omega arith), digit-ne_line_end (a % 4 * 16) (omega arith))
without_line_ends-encode (a ∷ b ∷ []) (ha, (hb, t)) = rw (
  digit-ne_line_end (a / 4) (omega arith),
  digit-ne_line_end (a % 4 * 16 + b / 16) (omega arith),
  digit-ne_line_end (b % 16 * 4) (omega arith),
)
without_line_ends-encode (a ∷ b ∷ c ∷ s) (ha, (hb, (hc, hs))) = rw (
  digit-ne_line_end (a / 4) (omega arith),
  digit-ne_line_end (a % 4 * 16 + b / 16) (omega arith),
  digit-ne_line_end (b % 16 * 4 + c / 64) (omega arith),
  digit-ne_line_end (c % 64) (omega arith),
  without_line_ends-encode s hs,
)

decode-encode : (s : Bytes) → All (λ c. c < 256) s → decode (encode s) ≡ some s
unfolding decode
decode-encode s h = rw (without_line_ends-encode s h) (decode_groups-encode s h)

All-append :
    (s t : Bytes) → All (λ c. c < 256) s → All (λ c. c < 256) t → All (λ c. c < 256) (s ++ t)
All-append [] t h k = k
All-append (c ∷ s) t (h, hs) k = (h, All-append s t hs k)

module _ (seal : Bytes → Bytes → Bytes → Bytes) (unseal : Bytes → Bytes → Bytes → Option Bytes)
    (opens : (m n key : Bytes) → All (λ c. c < 256) m → unseal (seal m n key) n key ≡ some m)
    (seals_bytes : (m n key : Bytes)
      → All (λ c. c < 256) m
      → All (λ c. c < 256) (seal m n key)) where
  -- The ID that is made of a URL with a key gives the URL back with the same key, if the secretbox
  -- opens what it has sealed.
  pub get_url-sign_url :
      (nonce u key : Bytes)
      → length nonce ≡ nonce_size
      → All (λ c. c < 256) nonce
      → All (λ c. c < 256) u
      → get_url unseal (sign_url seal nonce u key) key ≡ ok u
  unfolding get_url sign_url or_sign
  get_url-sign_url nonce u key size bytes url_bytes =
      let sealed = seal u nonce key in
      let whole =
        decode-encode (nonce ++ sealed)
          (All-append nonce sealed bytes (seals_bytes u nonce key url_bytes)) in
      let long : ltb (length (nonce ++ sealed)) nonce_size ≡ false =
        le→ltb_false _ nonce_size (omega (arith, size, length-append nonce sealed)) in
      rw (
        whole,
        long,
        drop-append_of nonce_size nonce sealed size,
        take-append_of nonce_size nonce sealed size,
        opens u nonce key url_bytes,
      )
