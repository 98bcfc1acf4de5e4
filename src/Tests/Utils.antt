-- ===== src/Tests/Utils.antt =====
-- Runs for the package utils.
use netboot.Prelude.{
  ℕ, zero, suc, ◌≡◌, refl, ◌<◌, Option, some, [], ◌∷◌, Bytes, replicate, All, arith,
}
use netboot.Prelude.Result.{ok}
use netboot.Utils.UrlSign.{sign_url, get_url}
use netboot.Utils.UrlSign.RoundTrip.{get_url-sign_url}

-- A box that keeps nothing secret: the message as it is.
abbrev seal : Bytes → Bytes → Bytes → Bytes
seal m n key = m

abbrev unseal : Bytes → Bytes → Bytes → Option Bytes
unseal box n key = some box

abbrev nonce : Bytes
nonce = replicate 24 9

nines_small : (n : ℕ) → All (λ c. c < 256) (replicate n 9)
nines_small zero = tt
nines_small (suc n) = (omega arith, nines_small n)

get_url-sign_url_example :
    get_url unseal (sign_url seal nonce (b'u' ∷ b'/' ∷ []) (1 ∷ [])) (1 ∷ [])
    ≡ ok (b'u' ∷ b'/' ∷ [])
get_url-sign_url_example =
    get_url-sign_url seal unseal (λ m n key h. refl) (λ m n key h. h) nonce (b'u' ∷ b'/' ∷ [])
      (1 ∷ []) refl (nines_small 24) (omega arith, (omega arith, tt))
