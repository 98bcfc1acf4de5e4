-- ===== src/Dhcp4/Options.antt =====
-- dhcp4/options.go: the option map, its wire format and its typed accessors.
pub mod WellFormed
pub mod Layout
pub mod Split
pub mod RoundTrip
pub mod Values
use netboot.Prelude.{
  ℕ, zero, suc, ◌+◌, ◌-◌, Bool, true, false, ◌&&◌, ◌||◌, not, Option, none, some, List, [], ◌∷◌,
  ◌++◌, Bytes, length, take, drop, replicate, ltb, ◌==◌, if◌then◌else◌,
}
use netboot.Prelude.Assoc.{Assoc, lookup, insert, keys, has}
use netboot.Dhcp4.Opt
use netboot.Prelude.Sort.{sort}
use netboot.Prelude.Result.{Result, ok, err, ◌>>=◌, ◌>>◌, reject}

-- map[Option][]byte. A nil value in the map is not represented: it reads like a missing key.
abbrev pub Options : Type 0
Options = Assoc Bytes

-- One constructor for each error text. `out_of_fuel` is no Go value.
pub data OptionsError : Type 0 where
  duplicate_option no_length_byte : ℕ → OptionsError
  short_payload : ℕ → ℕ → ℕ → OptionsError
  not_terminated : OptionsError
  invalid_number value_too_long : ℕ → OptionsError
  not_written : OptionsError
  not_present wrong_size : OptionsError
  out_of_fuel : OptionsError

-- A repeated option is an error, but for option 56.
unfoldable pub is_duplicate : Options → ℕ → Bool
unfolding has
is_duplicate o opt = has opt o && not (opt == Opt.message)

-- `(o Options) Unmarshal(bs)`: the map after the call, and the error. Every round takes a byte.
unfoldable pub unmarshal_loop : ℕ → Bytes → Options → Options × Option OptionsError
unmarshal_loop fuel [] o = (o, some not_terminated)
unmarshal_loop zero (opt ∷ bs) o = (o, some out_of_fuel)
unmarshal_loop (suc fuel) (opt ∷ []) o =
    let padded = unmarshal_loop fuel [] o in
    if opt == 0
    then padded
    else if opt == 255
    then (o, none)
    else if is_duplicate o opt
    then (o, some (duplicate_option opt))
    else (o, some (no_length_byte opt))
unmarshal_loop (suc fuel) (opt ∷ l ∷ body) o =
    let padded = unmarshal_loop fuel (l ∷ body) o in
    let next = unmarshal_loop fuel (drop l body) (insert opt (take l body) o) in
    if opt == 0
    then padded
    else if opt == 255
    then (o, none)
    else if is_duplicate o opt
    then (o, some (duplicate_option opt))
    else if ltb (length body) l
    then (o, some (short_payload opt l (length body)))
    else next

unfoldable pub unmarshal : Bytes → Options → Options × Option OptionsError
unmarshal bs o = unmarshal_loop (length bs) bs o

-- The first loop of `marshalLimited`: `n <= 0 || n >= 255` is an error.
pub check_numbers : List ℕ → Result OptionsError (Unit {0})
check_numbers [] = ok tt
check_numbers (n ∷ ns) = if n == 0 || ltb 254 n then err (invalid_number n) else check_numbers ns

-- o[n], nil where the key is missing.
unfoldable pub value : Options → ℕ → Bytes
value o n = elim (lookup n o) [ none ↦ [] | some v ↦ v ]

-- The second loop and the end marker. `n_bytes` is 0 for "no limit"; in Go it is negative after a
-- write without a limit, and stays positive under one, so `n_bytes > 0` reads the same here.
pub write_options : Options → Bool → List ℕ → ℕ → Options → Result OptionsError (Bytes × Options)
write_options o skip52 [] n_bytes ret = ok (255 ∷ replicate (n_bytes - 1) 0, ret)
write_options o skip52 (n ∷ ns) n_bytes ret =
    let opt = value o n in
    let put_off = write_options o skip52 ns n_bytes (insert n opt ret) in
    let rest = write_options o skip52 ns (n_bytes - (length opt + 2)) ret in
    if ltb 255 (length opt)
    then err (value_too_long n)
    else if ltb 0 n_bytes && (skip52 && n == Opt.overload || ltb n_bytes (length opt + 3))
    then put_off
    else (do (out, left) ← rest; ok (n ∷ length opt ∷ (opt ++ out), left))

-- What is written to `w`, and the options that are left.
unfoldable pub marshal_limited : Options → ℕ → Bool → Result OptionsError (Bytes × Options)
unfolding check_numbers write_options value keys sort
marshal_limited o n_bytes skip52 = do
  check_numbers (keys o)
  write_options o skip52 (sort (keys o)) n_bytes []

unfoldable pub marshal : Options → Result OptionsError Bytes
marshal o = do
  (out, opts) ← marshal_limited o 0 false
  reject (ltb 0 (length opts)) not_written
  ok out
