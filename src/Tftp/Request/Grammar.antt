-- ===== src/Tftp/Request/Grammar.antt =====
-- `parse_rrq` against the grammar of requests: an opcode, a file name, a mode and pairs of options,
-- each string of printable ASCII and ended by a zero byte.
use netboot.Prelude.{
  ℕ, zero, suc, ◌+◌, ◌≤◌, ◌≡◌, refl, ◌∙◌, ap, Bool, true, false, ◌&&◌, ◌||◌, not, List, [], ◌∷◌,
  ◌++◌, Bytes, length, length-append, drop, get_or, All, ltb, ◌==◌, if_ind, arith, ==_iff,
  le→ltb_false,
}
use mathlib.Core.Path.{ap₂}
use netboot.Prelude.Text.{literal}
use netboot.Prelude.Result.{Result, ok, err, ◌>>=◌, reject, wrap, bind-ok, wrap-ok, reject-ok}
use netboot.Net.{equal-eq}
use netboot.Tftp.Request.{
  StrError, tftp_str_from, tftp_str, Rrq, RrqError, apply_option, parse_options, parse_rrq,
  bad_option_name, bad_option_value, bad_filename, bad_mode,
}

abbrev pub IsPrintable : ℕ → Type 0
IsPrintable b = (0x20 ≤ b) × (b ≤ 0x7E)

tftp_str_from_complete :
    (i : ℕ) (s rest : Bytes) → All IsPrintable s → tftp_str_from i (s ++ (0 ∷ rest)) ≡ ok (s, rest)
unfolding tftp_str_from
tftp_str_from_complete i [] rest h = refl
tftp_str_from_complete i (b ∷ s) rest (h, hs) =
    rw (tftp_str_from_complete (i + 1) s rest hs) (ground arith)

-- A string that parses.
pub record Parsed (bs s rest : Bytes) : Type 0 where
  pub split : bs ≡ s ++ (0 ∷ rest)
  pub printable : All IsPrintable s

ended :
    (b : ℕ) (bs s rest : Bytes)
    → b ≡ 0
    → ◌≡◌ {A = Result StrError (Bytes × Bytes)} (ok ([], bs)) (ok (s, rest))
    → Parsed (b ∷ bs) s rest
ended b bs s rest z e =
    let es : s ≡ [] = cc in
    let er : rest ≡ bs = cc in record { split = rw (es, er, z); printable = rw es tt }

IsPrintable-test : (b : ℕ) → (ltb b 0x20 || ltb 0x7E b) ≡ false → IsPrintable b
IsPrintable-test b h = (ground arith, ground arith)

grown :
    (b : ℕ) (bs s rest s' rest' : Bytes)
    → IsPrintable b
    → Parsed bs s' rest'
    → ◌≡◌ {A = Result StrError (Bytes × Bytes)} (ok (b ∷ s', rest')) (ok (s, rest))
    → Parsed (b ∷ bs) s rest
grown b bs s rest s' rest' h p e =
    let es : s ≡ b ∷ s' = cc in
    let er : rest ≡ rest' = cc in
    record { split = rw (es, er) (ap (λ t. b ∷ t) p.split); printable = rw es (h, p.printable) }

tftp_str_from_sound :
    (i : ℕ) (bs s rest : Bytes) → tftp_str_from i bs ≡ ok (s, rest) → Parsed bs s rest
unfolding tftp_str_from
tftp_str_from_sound i [] s rest h = cc
tftp_str_from_sound i (b ∷ bs) s rest h =
    if_ind P (b == 0) _ _ (λ z e. ended b bs s rest ((==_iff b 0).0 z) e)
      (λ _.
        if_ind P (ltb b 0x20 || ltb 0x7E b) _ _ (λ _ e. cc)
          λ fine e.
            let ((s', rest'), here, done) = bind-ok (tftp_str_from (i + 1) bs) _ e in
            grown b bs s rest s' rest' (IsPrintable-test b fine)
              (tftp_str_from_sound (i + 1) bs s' rest' here) done)
      h
  where
    P : Result StrError (Bytes × Bytes) → Type 0
    P r = r ≡ ok (s, rest) → Parsed (b ∷ bs) s rest

pub tftp_str_lem : (bs s rest : Bytes) → tftp_str bs ≡ ok (s, rest) → Parsed bs s rest
unfolding tftp_str
tftp_str_lem bs s rest h = tftp_str_from_sound 0 bs s rest h

pub tftp_str_complete :
    (s rest : Bytes) → All IsPrintable s → tftp_str (s ++ (0 ∷ rest)) ≡ ok (s, rest)
unfolding tftp_str
tftp_str_complete s rest h = tftp_str_from_complete 0 s rest h

-- One option as it stands in a request.
abbrev pub encode_options : List (Bytes × Bytes) → Bytes
encode_options [] = []
encode_options ((opt, val) ∷ os) = opt ++ (0 ∷ (val ++ (0 ∷ encode_options os)))

abbrev pub IsPair : Bytes × Bytes → Type 0
IsPair (opt, val) = All IsPrintable opt × All IsPrintable val

-- What the options do to a request, one after the other.
unfoldable pub apply_all : Rrq → List (Bytes × Bytes) → Result RrqError Rrq
apply_all req [] = ok req
apply_all req ((opt, val) ∷ os) = do req' ← apply_option req opt val; apply_all req' os

abbrev pub encode_request : Bytes → List (Bytes × Bytes) → Bytes
encode_request fname os = 0 ∷ 1 ∷ (fname ++ (0 ∷ (literal "octet" ++ (0 ∷ encode_options os))))

abbrev pub fresh : Bytes → Rrq
fresh fname = record { filename = fname; block_size = 0; want_size = false }

parse_step :
    (fuel : ℕ) (bs opt rest val rest' : Bytes) (req : Rrq)
    → tftp_str bs ≡ ok (opt, rest)
    → tftp_str rest ≡ ok (val, rest')
    → parse_options (suc fuel) bs req
      ≡ (apply_option req opt val >>= λ r. parse_options fuel rest' r)
unfolding parse_options
parse_step fuel [] opt rest val rest' req h g = unfold tftp_str tftp_str_from in cc
parse_step fuel (b ∷ bs) opt rest val rest' req h g = rw (h, g)

bind_cong {ℓ κ μ} :
    {E : Type κ} {A : Type ℓ} {B : Type μ} (m : Result E A) (f g : A → Result E B)
    → ((a : A) → f a ≡ g a)
    → (m >>= f) ≡ (m >>= g)
bind_cong (ok a) f g h = h a
bind_cong (err e) f g h = refl

-- On the encoding of options the loop applies them one by one.
parse_options-encode :
    (fuel : ℕ) (os : List (Bytes × Bytes)) (req : Rrq)
    → All IsPair os
    → length (encode_options os) ≤ fuel
    → parse_options fuel (encode_options os) req ≡ apply_all req os
unfolding apply_all
parse_options-encode zero [] req h hf = unfold parse_options in refl
parse_options-encode (suc fuel) [] req h hf = unfold parse_options in refl
parse_options-encode zero ((opt, val) ∷ os) req h hf =
    absurd (omega (arith, length-append opt (0 ∷ (val ++ (0 ∷ encode_options os)))))
parse_options-encode (suc fuel) ((opt, val) ∷ os) req ((ho, hv), hs) hf =
    parse_step fuel _ opt (val ++ (0 ∷ encode_options os)) val (encode_options os) req
      (tftp_str_complete opt _ ho) (tftp_str_complete val _ hv)
    ∙ bind_cong (apply_option req opt val) _ _ (λ r. parse_options-encode fuel os r hs (
        omega (
          arith,
          length-append opt (0 ∷ (val ++ (0 ∷ encode_options os))),
          length-append val (0 ∷ encode_options os),
        )))

-- What the option loop accepts is an encoding of options.
parse_options_sound :
    (fuel : ℕ) (bs : Bytes) (req r : Rrq)
    → parse_options fuel bs req ≡ ok r
    → (os : List (Bytes × Bytes)) × (bs ≡ encode_options os)
      × All IsPair os
      × (apply_all req os ≡ ok r)
unfolding parse_options apply_all
parse_options_sound fuel [] req r h = ([], refl, tt, h)
parse_options_sound zero (b ∷ bs) req r h = cc
parse_options_sound (suc fuel) (b ∷ bs) req r h =
    let ((opt, rest), h1, k1) = bind-ok (wrap bad_option_name (tftp_str (b ∷ bs))) _ h in
    let p1 = tftp_str_lem (b ∷ bs) opt rest (wrap-ok bad_option_name _ h1) in
    let ((val, rest'), h2, k2) = bind-ok (wrap (bad_option_value opt) (tftp_str rest)) _ k1 in
    let p2 = tftp_str_lem rest val rest' (wrap-ok (bad_option_value opt) _ h2) in
    let (req', h3, k3) = bind-ok (apply_option req opt val) _ k2 in
    let (os, e, hs, a) = parse_options_sound fuel rest' req' r k3 in
    (
      (opt, val) ∷ os,
      p1.split ∙ ap (λ t. opt ++ (0 ∷ t)) (p2.split ∙ ap (λ t. val ++ (0 ∷ t)) e),
      ((p1.printable, p2.printable), hs),
      rw h3 a,
    )

-- The parser agrees with the grammar: a request made of a printable file name and printable options
-- is read as that file name with the options applied in order, errors of the options included.
pub parse_rrq-encode :
    (fname : Bytes) (os : List (Bytes × Bytes))
    → All IsPrintable fname
    → All IsPair os
    → parse_rrq (encode_request fname os) ≡ apply_all (fresh fname) os
unfolding parse_rrq
parse_rrq-encode fname os hf hs =
    let mode = literal "octet" ++ (0 ∷ encode_options os) in
    let long : ltb (length (encode_request fname os)) 6 ≡ false =
      le→ltb_false _ 6 (omega (arith, length-append fname (0 ∷ mode))) in
    rw (long, tftp_str_complete fname mode hf)
      (parse_options-encode (length (encode_options os)) os (fresh fname) hs (omega arith))

two_bytes :
    (bs : Bytes)
    → (ltb (length bs) 6 || not (get_or bs 0 0 == 0 && get_or bs 1 0 == 1)) ≡ false
    → bs ≡ 0 ∷ 1 ∷ drop 2 bs
two_bytes [] h = ground arith
two_bytes (a ∷ []) h = ground arith
two_bytes (a ∷ b ∷ bs) h =
    let ea : a ≡ 0 = ground arith in let eb : b ≡ 1 = ground arith in rw (ea, eb)

not-false : (b : Bool) → not b ≡ false → b ≡ true
not-false b h = ground arith

-- A datagram that is accepted is a request of the grammar, and the answer is its file name with its
-- options applied.
pub parse_rrq_sound :
    (bs : Bytes) (r : Rrq)
    → parse_rrq bs ≡ ok r
    → (fname : Bytes) × (os : List (Bytes × Bytes)) × (bs ≡ encode_request fname os)
      × All IsPrintable fname
      × All IsPair os
      × (apply_all (fresh fname) os ≡ ok r)
unfolding parse_rrq
parse_rrq_sound bs r h =
    let (u, h0, k0) = bind-ok (reject _ _) _ h in
    let start = two_bytes bs (reject-ok _ _ h0) in
    let ((fname, rest), h1, k1) = bind-ok (wrap bad_filename (tftp_str (drop 2 bs))) _ k0 in
    let p1 = tftp_str_lem (drop 2 bs) fname rest (wrap-ok bad_filename _ h1) in
    let ((mode, rest'), h2, k2) = bind-ok (wrap bad_mode (tftp_str rest)) _ k1 in
    let p2 = tftp_str_lem rest mode rest' (wrap-ok bad_mode _ h2) in
    let (u', h3, k3) = bind-ok (reject _ _) _ k2 in
    let octet : mode ≡ literal "octet" =
      equal-eq mode (literal "octet") (not-false _ (reject-ok _ _ h3)) in
    let (os, e, hs, a) = parse_options_sound (length rest') rest' (fresh fname) r k3 in
    (
      fname,
      os,
      start
          ∙ ap (λ t. 0 ∷ 1 ∷ t)
              (p1.split
                ∙ ap (λ t. fname ++ (0 ∷ t)) (p2.split ∙ ap₂ (λ m t. m ++ (0 ∷ t)) octet e)),
      p1.printable,
      hs,
      a,
    )
