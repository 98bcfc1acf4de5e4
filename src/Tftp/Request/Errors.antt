-- ===== src/Tftp/Request/Errors.antt =====
-- The range of accepted block sizes, and the error packets.
use netboot.Prelude.{
  ℕ, ◌+◌, ◌||◌, zero, suc, ap, ◌*◌, ◌≤◌, ◌≡◌, refl, Bool, true, false, not, Option, none, some,
  List, [], ◌∷◌, ◌++◌, Bytes, length, length-append, length-take, take, All, ltb, ◌==◌,
  if◌then◌else◌, if_ind, le→ltb_false, ◌⊎◌, inl, inr, arith,
}
use netboot.Prelude.Result.{Result, ok, err, bind-ok}
use netboot.Net.{equal}
use netboot.Prelude.Text.{literal}
use netboot.Strconv.{ℤ, pos, negsuc, parse_int}
use netboot.Tftp.Request.{
  StrError, no_terminator, tftp_str_from, Rrq, RrqError, apply_option, block_size_of, accept_size,
  size_or_error, is_printable, parse_rrq, netascii, tftp_error, tftp_str, max_error_size,
}
use netboot.Tftp.Request.Grammar.{IsPrintable, apply_all, fresh, parse_rrq_sound}

-- No block size was asked for, or one from 8 to 65464.
abbrev pub IsBlockSize : ℕ → Type 0
IsBlockSize n = (n ≡ 0) ⊎ ((8 ≤ n) × (n ≤ 65464))

accept_size_range : (z : ℤ) (n : ℕ) → accept_size z ≡ ok n → IsBlockSize n
unfolding accept_size
accept_size_range (pos m) n h = ground arith
accept_size_range (negsuc m) n h = cc

block_size_of_range : (val : Bytes) (n : ℕ) → block_size_of val ≡ ok n → IsBlockSize n
unfolding block_size_of
block_size_of_range val n h = go (parse_int val) h
  where
    go : (z : Option ℤ) → size_or_error val z ≡ ok n → IsBlockSize n
    go none h = cc
    go (some z) h = accept_size_range z n h

same_size :
    (req r : Rrq) (w : IsBlockSize req.block_size) (b : Bool)
    → ◌≡◌ {A = Result RrqError Rrq} (ok (if b then record req { want_size = true } else req)) (ok r)
    → IsBlockSize r.block_size
same_size req r w true e = let at : req.block_size ≡ r.block_size = cc in rw (← at) w
same_size req r w false e = let at : req.block_size ≡ r.block_size = cc in rw (← at) w

printable : (b : ℕ) → is_printable b ≡ true → IsPrintable b
unfolding is_printable
printable b h = (ground arith, ground arith)

apply_option_range :
    (req r : Rrq) (opt val : Bytes)
    → IsBlockSize req.block_size
    → apply_option req opt val ≡ ok r
    → IsBlockSize r.block_size
unfolding apply_option
apply_option_range req r opt val w h =
    if_ind P (not (equal opt (literal "blksize"))) _ _
      (λ _ e. same_size req r w (equal opt (literal "tsize")) e)
      (λ _ e.
        let (n, sized, done) = bind-ok (block_size_of val) _ e in
        let at : r.block_size ≡ n = ap_size n done in rw at (block_size_of_range val n sized))
      h
  where
    P : Result RrqError Rrq → Type 0
    P x = x ≡ ok r → IsBlockSize r.block_size

    ap_size :
        (n : ℕ)
        → ◌≡◌ {A = Result RrqError Rrq} (ok (record req { block_size = n })) (ok r)
        → r.block_size ≡ n
    ap_size n e = cc

apply_all_range :
    (req r : Rrq) (os : List (Bytes × Bytes))
    → IsBlockSize req.block_size
    → apply_all req os ≡ ok r
    → IsBlockSize r.block_size
unfolding apply_all
apply_all_range req r [] w h = let e : req.block_size ≡ r.block_size = cc in rw (← e) w
apply_all_range req r ((opt, val) ∷ os) w h =
    let (req', step, rest) = bind-ok (apply_option req opt val) _ h in
    apply_all_range req' r os (apply_option_range req req' opt val w step) rest

-- A request that is accepted asks for no block size, or for one from 8 to 65464.
pub parse_rrq_block_size : (bs : Bytes) (r : Rrq) → parse_rrq bs ≡ ok r → IsBlockSize r.block_size
parse_rrq_block_size bs r h =
    let (fname, os, e, hf, hs, a) = parse_rrq_sound bs r h in
    apply_all_range (fresh fname) r os (inl refl) a

-- What may stand in an error message: printable ASCII, and CR and LF.
abbrev pub IsNetascii : ℕ → Type 0
IsNetascii b = IsPrintable b ⊎ ((b ≡ 13) ⊎ (b ≡ 10))

netascii-IsNetascii : (msg : Bytes) → All IsNetascii (netascii msg)
unfolding netascii
netascii-IsNetascii [] = tt
netascii-IsNetascii (b ∷ msg) =
    let ih = netascii-IsNetascii msg in
    if_ind P (is_printable b) _ _ (λ p. (inl (printable b p), ih))
      λ _.
        if_ind P (b == 13) _ _ (λ _. ih)
          λ _.
            if_ind P (b == 10) _ _ (λ _. (inr (inl refl), (inr (inr refl), ih)))
              λ _. (inl (omega arith), ih)
  where
    P : Bytes → Type 0
    P bs = All IsNetascii bs

length-netascii : (msg : Bytes) → length (netascii msg) ≤ 2 * length msg
unfolding netascii
length-netascii [] = omega arith
length-netascii (b ∷ msg) = ground (arith, length-netascii msg)

netascii_printable : (msg : Bytes) → All IsPrintable msg → netascii msg ≡ msg
unfolding netascii is_printable
netascii_printable [] h = refl
netascii_printable (b ∷ msg) (h, hs) = ground (arith, netascii_printable msg hs)

cut : ℕ → Bytes → Bytes
cut n msg = if ltb n (length msg) then take n msg else msg

length-cut : (n : ℕ) (msg : Bytes) → length (cut n msg) ≤ n
unfolding cut
length-cut n msg = ground (arith, length-take n msg)

cut_short : (n : ℕ) (msg : Bytes) → length msg ≤ n → cut n msg ≡ msg
unfolding cut
cut_short n msg h = rw (le→ltb_false n (length msg) h)

tftp_error-cut :
    (msg : Bytes) → tftp_error msg ≡ 0 ∷ 5 ∷ 0 ∷ 0 ∷ (netascii (cut max_error_size msg) ++ (0 ∷ []))
unfolding tftp_error cut
tftp_error-cut msg = refl

-- Every error packet is an ERROR header with code 0, a netascii message and one zero byte, and is at
-- most 1005 bytes long.
pub tftp_error_lem :
    (msg : Bytes)
    → (text : Bytes) × (tftp_error msg ≡ 0 ∷ 5 ∷ 0 ∷ 0 ∷ (text ++ (0 ∷ [])))
      × All IsNetascii text
      × (length (tftp_error msg) ≤ 1005)
tftp_error_lem msg =
    let text = netascii (cut max_error_size msg) in
    let whole = tftp_error-cut msg in
    (
      text,
      whole,
      netascii-IsNetascii (cut max_error_size msg),
      rw whole (
          omega (
            arith,
            length-netascii (cut max_error_size msg),
            length-cut max_error_size msg,
            length-append text (0 ∷ []),
          )),
    )

pub take-IsPrintable : (n : ℕ) (xs : Bytes) → All IsPrintable xs → All IsPrintable (take n xs)
take-IsPrintable zero xs h = tt
take-IsPrintable (suc n) [] h = tt
take-IsPrintable (suc n) (x ∷ xs) (h, hs) = (h, take-IsPrintable n xs hs)

-- The packet of a printable message, of which 500 bytes are sent at most.
pub tftp_error-printable :
    (msg : Bytes)
    → All IsPrintable msg
    → tftp_error msg
      ≡ 0
        ∷ 5
        ∷ 0
        ∷ 0
        ∷ ((if ltb max_error_size (length msg) then take max_error_size msg else msg) ++ (0 ∷ []))
unfolding tftp_error
tftp_error-printable msg h =
    if_ind P (ltb max_error_size (length msg)) (take max_error_size msg) msg
      (λ _. ap packet (netascii_printable _ (take-IsPrintable max_error_size msg h)))
      (λ _. ap packet (netascii_printable msg h))
  where
    packet : Bytes → Bytes
    packet text = 0 ∷ 5 ∷ 0 ∷ 0 ∷ (text ++ (0 ∷ []))

    P : Bytes → Type 0
    P text = 0 ∷ 5 ∷ 0 ∷ 0 ∷ (netascii text ++ (0 ∷ [])) ≡ packet text

tftp_str_from_open :
    (i : ℕ) (s : Bytes) → All IsPrintable s → (e : StrError) × (tftp_str_from i s ≡ err e)
unfolding tftp_str_from
tftp_str_from_open i [] h = (no_terminator, refl)
tftp_str_from_open i (b ∷ s) (h, hs) =
    let (e, failed) = tftp_str_from_open (i + 1) s hs in
    let nonzero : (b == 0) ≡ false = ground arith in
    let fine : (ltb b 0x20 || ltb 0x7E b) ≡ false = ground arith in
    (e, rw (nonzero, fine, failed) refl)

-- Text without its zero byte is no string.
pub tftp_str_open : (s : Bytes) → All IsPrintable s → (e : StrError) × (tftp_str s ≡ err e)
unfolding tftp_str
tftp_str_open s h = tftp_str_from_open 0 s h
