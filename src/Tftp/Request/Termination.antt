-- ===== src/Tftp/Request/Termination.antt =====
-- The option loop of parseRRQ in tftp/tftp.go ends.
use netboot.Prelude.{
  ℕ, zero, suc, ◌≤◌, ◌<◌, ◌≡◌, ◌≢◌, refl, arith, [], ◌∷◌, Bytes, length, length-append, if_ind,
  Option, none, some, not, ltb, ◌||◌, Bool, true, false, ap, drop,
}
use netboot.Prelude.Text.{literal}
use netboot.Prelude.Result.{Result, ok, err, ◌>>=◌, ◌>>◌, reject, wrap}
use netboot.Net.{equal}
use netboot.Strconv.{ℤ, pos, negsuc, parse_int}
use netboot.Tftp.Request.{
  StrError, tftp_str, Rrq, RrqError, out_of_fuel, not_rrq, unsupported_mode, bad_filename, bad_mode,
  bad_option_name, bad_option_value, accept_size, size_or_error, block_size_of, apply_option,
  parse_options, parse_rrq,
}
use netboot.Tftp.Request.Grammar.{tftp_str_lem}

-- What every step of the parser keeps to.
Ends : Result RrqError Rrq → Type 0
Ends r = r ≢ err out_of_fuel

shorter : (bs s rest : Bytes) → tftp_str bs ≡ ok (s, rest) → length rest < length bs
shorter bs s rest h =
    let p = tftp_str_lem bs s rest h in rw p.split (omega (arith, length-append s (0 ∷ rest)))

accept_size-Ends :
    (z : ℤ) (k : ℕ → Result RrqError Rrq) → ((n : ℕ) → Ends (k n)) → Ends (accept_size z >>= k)
unfolding accept_size Ends
accept_size-Ends (pos n) k h =
    if_ind (λ (r : Result RrqError ℕ). Ends (r >>= k)) (ltb n 8 || ltb 65464 n) _ _ (λ _ e. cc)
      (λ _. h n)
accept_size-Ends (negsuc n) k h = λ e. cc

size_or_error-Ends :
    (val : Bytes) (z : Option ℤ) (k : ℕ → Result RrqError Rrq)
    → ((n : ℕ) → Ends (k n))
    → Ends (size_or_error val z >>= k)
unfolding size_or_error Ends
size_or_error-Ends val none k h = λ e. cc
size_or_error-Ends val (some z) k h = accept_size-Ends z k h

apply_option-Ends :
    (req : Rrq) (opt val : Bytes) (k : Rrq → Result RrqError Rrq)
    → ((r : Rrq) → Ends (k r))
    → Ends (apply_option req opt val >>= k)
unfolding apply_option block_size_of
apply_option-Ends req opt val k h =
    if_ind (λ (r : Result RrqError Rrq). Ends (r >>= k)) (not (equal opt (literal "blksize"))) _ _
      (λ _. h _)
      (λ _.
        go (size_or_error val (parse_int val))
          (size_or_error-Ends val (parse_int val) _ (λ n. h _)))
  where
    go :
        (size : Result RrqError ℕ)
        → Ends (size >>= λ n. k (record req { block_size = n }))
        → Ends ((do n ← size; ok (record req { block_size = n })) >>= k)
    go (ok n) e = e
    go (err x) e = e

-- The rounds of the loop, by what the two strings of an option parsed to.
parse_options-Ends :
    (fuel : ℕ) (bs : Bytes) (req : Rrq) → length bs ≤ fuel → Ends (parse_options fuel bs req)
unfolding parse_options Ends
parse_options-Ends fuel [] req h = λ e. cc
parse_options-Ends zero (b ∷ bs) req h = absurd (omega arith)
parse_options-Ends (suc fuel) (b ∷ bs) req h =
    name (tftp_str (b ∷ bs)) (λ s rest e. shorter (b ∷ bs) s rest e)
      (λ rest req' small. parse_options-Ends fuel rest req' small)
  where
    Smaller : Result StrError (Bytes × Bytes) → Bytes → Type 0
    Smaller r from = (s rest : Bytes) → r ≡ ok (s, rest) → length rest < length from

    value :
        (opt rest : Bytes) (r : Result StrError (Bytes × Bytes))
        → length rest ≤ fuel
        → Smaller r rest
        → ((rest' : Bytes) (req' : Rrq)
            → length rest' ≤ fuel
            → Ends (parse_options fuel rest' req'))
        → Ends (
            wrap (bad_option_value opt) r >>= λ p.
            apply_option req opt p.0 >>= λ req'. parse_options fuel p.1 req')
    value opt rest (err x) len small ih = λ e. cc
    value opt rest (ok (val, rest')) len small ih =
        let less : length rest' < length rest = small val rest' refl in
        apply_option-Ends req opt val _ (λ req'. ih rest' req' (omega arith))

    name :
        (r : Result StrError (Bytes × Bytes))
        → Smaller r (b ∷ bs)
        → ((rest' : Bytes) (req' : Rrq)
            → length rest' ≤ fuel
            → Ends (parse_options fuel rest' req'))
        → Ends (
            wrap bad_option_name r >>= λ p. wrap (bad_option_value p.0) (tftp_str p.1) >>= λ q.
            apply_option req p.0 q.0 >>= λ req'. parse_options fuel q.1 req')
    name (err x) small ih = λ e. cc
    name (ok (opt, rest)) small ih =
        let less : length rest < length (b ∷ bs) = small opt rest refl in
        value opt rest (tftp_str rest) (omega arith) (λ s rest' e. shorter rest s rest' e) ih

guarded :
    (b : Bool) (x : RrqError) (r : Result RrqError Rrq)
    → x ≢ out_of_fuel
    → Ends r
    → Ends (reject b x >> r)
unfolding Ends
guarded true x r other h = λ e. other (ap error_of e)
  where
    error_of : Result RrqError Rrq → RrqError
    error_of (ok q) = x
    error_of (err y) = y
guarded false x r other h = h

-- The parser of requests ends on every datagram.
pub parse_rrq-ne-out_of_fuel : (bs : Bytes) → parse_rrq bs ≢ err out_of_fuel
unfolding parse_rrq Ends
parse_rrq-ne-out_of_fuel bs = guarded _ not_rrq _ (λ e. cc) (name (tftp_str (drop 2 bs)))
  where
    mode :
        (fname : Bytes) (r : Result StrError (Bytes × Bytes))
        → Ends (
            wrap bad_mode r >>= λ q.
            reject (not (equal q.0 (literal "octet"))) (unsupported_mode q.0)
            >> parse_options
                (length q.1)
                q.1
                (record { filename = fname; block_size = 0; want_size = false }))
    mode fname (err x) = λ e. cc
    mode fname (ok (m, rest)) =
        guarded _ (unsupported_mode m) _ (λ e. cc)
          (parse_options-Ends (length rest) rest _ (omega arith))

    name :
        (r : Result StrError (Bytes × Bytes))
        → Ends (
            wrap bad_filename r >>= λ p. wrap bad_mode (tftp_str p.1) >>= λ q.
            reject (not (equal q.0 (literal "octet"))) (unsupported_mode q.0)
            >> parse_options
                (length q.1)
                q.1
                (record { filename = p.0; block_size = 0; want_size = false }))
    name (err x) = λ e. cc
    name (ok (fname, rest)) = mode fname (tftp_str rest)
