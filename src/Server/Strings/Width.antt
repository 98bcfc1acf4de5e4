-- ===== src/Server/Strings/Width.antt =====
-- The texts of addresses, numbers and paths are short and hold no zero byte, so that they fit the
-- fields of a DHCP packet.
use netboot.Prelude.{
  ℕ, suc, ◌+◌, ◌≤◌, ◌<◌, ◌≡◌, ◌≢◌, refl, Bool, true, ◌&&◌, not, [], ◌∷◌, ◌++◌, Bytes, length,
  length-append, All, if_ind, ltb, ◌==◌, arith,
}
use netboot.Net.{to4}
use netboot.Strconv.{format_int}
use netboot.Strconv.RoundTrip.{IsDigit, format_int-IsDigit}
use netboot.Strconv.Width.{wider_than, length-format_int}
use netboot.Dhcp4.Options.WellFormed.{IsByte}
use netboot.Server.Strings.{hex_digit, mac_string, ip_string, dotted}

abbrev pub NoNul : Bytes → Type 0
NoNul s = All (λ c. c ≢ 0) s

-- A text of at most `k` bytes without a zero among them.
pub record FitsIn (k : ℕ) (s : Bytes) : Type 0 where
  pub short : length s ≤ k
  pub no_nul : NoNul s

NoNul-append : (s t : Bytes) → NoNul s → NoNul t → NoNul (s ++ t)
NoNul-append [] t h k = k
NoNul-append (c ∷ s) t (h, hs) k = (h, NoNul-append s t hs k)

pub FitsIn-append : (a b : ℕ) (s t : Bytes) → FitsIn a s → FitsIn b t → FitsIn (a + b) (s ++ t)
FitsIn-append a b s t h k =
    let hs = h.short in
    let ks = k.short in
    record { short = omega (arith, length-append s t); no_nul = NoNul-append s t h.no_nul k.no_nul }

pub FitsIn-weaken : (a b : ℕ) (s : Bytes) → a ≤ b → FitsIn a s → FitsIn b s
FitsIn-weaken a b s h k = let ks = k.short in record { short = omega arith; no_nul = k.no_nul }

-- A test for a text that is given.
abbrev pub all_set : Bytes → Bool
all_set [] = true
all_set (c ∷ s) = not (c == 0) && all_set s

all_set-NoNul : (s : Bytes) → all_set s ≡ true → NoNul s
all_set-NoNul [] h = tt
all_set-NoNul (c ∷ s) h = (λ e. ground arith, all_set-NoNul s (ground arith))

pub literal-FitsIn : (s : Bytes) → all_set s ≡ true → FitsIn (length s) s
literal-FitsIn s h = record { short = omega arith; no_nul = all_set-NoNul s h }

pub FitsIn-cons : (c k : ℕ) (s : Bytes) → c ≢ 0 → FitsIn k s → FitsIn (1 + k) (c ∷ s)
FitsIn-cons c k s h l = let ls = l.short in record { short = omega arith; no_nul = (h, l.no_nul) }

digits-NoNul : (s : Bytes) → All IsDigit s → NoNul s
digits-NoNul [] h = tt
digits-NoNul (c ∷ s) (h, hs) = ((λ e. omega arith), digits-NoNul s hs)

pub format_int-FitsIn : (n k : ℕ) → n < wider_than (suc k) → FitsIn (suc k) (format_int n)
format_int-FitsIn n k h = record {
  short = length-format_int n k h;
  no_nul = digits-NoNul (format_int n) (format_int-IsDigit n);
}

hex_digit-ne_nul : (n : ℕ) → hex_digit n ≢ 0
unfolding hex_digit
hex_digit-ne_nul n = if_ind (λ c. c ≢ 0) (ltb n 10) _ _ (λ t e. omega arith) (λ f e. omega arith)

mac_string-NoNul : (mac : Bytes) → NoNul (mac_string mac)
unfolding mac_string
mac_string-NoNul [] = tt
mac_string-NoNul (b ∷ []) = (hex_digit-ne_nul _, (hex_digit-ne_nul _, tt))
mac_string-NoNul (b ∷ c ∷ bs) =
    (hex_digit-ne_nul _, (hex_digit-ne_nul _, ((λ e. omega arith), mac_string-NoNul (c ∷ bs))))

length-mac_string : (mac : Bytes) → length mac ≡ 6 → length (mac_string mac) ≡ 17
unfolding mac_string
length-mac_string (a ∷ b ∷ c ∷ d ∷ e ∷ f ∷ []) h = refl
length-mac_string [] h = absurd (omega arith)
length-mac_string (a ∷ []) h = absurd (omega arith)
length-mac_string (a ∷ b ∷ []) h = absurd (omega arith)
length-mac_string (a ∷ b ∷ c ∷ []) h = absurd (omega arith)
length-mac_string (a ∷ b ∷ c ∷ d ∷ []) h = absurd (omega arith)
length-mac_string (a ∷ b ∷ c ∷ d ∷ e ∷ []) h = absurd (omega arith)
length-mac_string (a ∷ b ∷ c ∷ d ∷ e ∷ f ∷ g ∷ rest) h = absurd (omega arith)

pub mac_string-FitsIn : (mac : Bytes) → length mac ≡ 6 → FitsIn 17 (mac_string mac)
mac_string-FitsIn mac h = record {
  short = omega (arith, length-mac_string mac h);
  no_nul = mac_string-NoNul mac;
}

-- An IPv4 address.
abbrev pub IsIpv4 : Bytes → Type 0
IsIpv4 ip = (length ip ≡ 4) × All IsByte ip

pub ip_string-FitsIn : (ip : Bytes) → IsIpv4 ip → FitsIn 15 (ip_string ip)
unfolding ip_string dotted to4
ip_string-FitsIn (a ∷ b ∷ c ∷ d ∷ []) (four, (ha, (hb, (hc, (hd, t))))) =
    FitsIn-append 3 12 _ _ (part a ha) (
      FitsIn-cons b'.' 11 _ dot (
        FitsIn-append 3 8 _ _ (part b hb) (
          FitsIn-cons b'.' 7 _ dot
            (FitsIn-append 3 4 _ _ (part c hc) (FitsIn-cons b'.' 3 _ dot (part d hd))))))
  where
    dot : ◌≢◌ {A = ℕ} b'.' 0
    dot e = omega arith

    part : (n : ℕ) → IsByte n → FitsIn 3 (format_int n)
    part n h = format_int-FitsIn n 2 (omega arith)
ip_string-FitsIn [] (four, h) = absurd (omega arith)
ip_string-FitsIn (a ∷ []) (four, h) = absurd (omega arith)
ip_string-FitsIn (a ∷ b ∷ []) (four, h) = absurd (omega arith)
ip_string-FitsIn (a ∷ b ∷ c ∷ []) (four, h) = absurd (omega arith)
ip_string-FitsIn (a ∷ b ∷ c ∷ d ∷ e ∷ rest) (four, h) = absurd (omega arith)
