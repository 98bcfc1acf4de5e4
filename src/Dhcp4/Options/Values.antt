-- ===== src/Dhcp4/Options/Values.antt =====
-- The typed accessors of dhcp4/options.go.
use netboot.Prelude.{
  ℕ, ◌+◌, ◌*◌, ◌%◌, ◌≡◌, refl, ◌||◌, not, Option, none, some, List, [], ◌∷◌, Bytes, length, ltb,
  ◌==◌, ◌⊎◌, inl, inr, if◌then◌else◌, ◌-◌, ◌^◌,
}
use netboot.Prelude.Assoc.{lookup}
use netboot.Strconv.{ℤ, pos, negsuc}
use netboot.Prelude.Result.{Result, ok, err, ◌>>=◌, ◌>>◌, reject}
use netboot.Dhcp4.Options.{Options, OptionsError, not_present, wrong_size}

present : Option Bytes → Result OptionsError Bytes
present none = err not_present
present (some bs) = ok bs

-- (o Options) Bytes(n)
unfoldable pub bytes : Options → ℕ → Result OptionsError Bytes
unfolding present
bytes o n = present (lookup n o)

-- (o Options) String(n): a Go string is its bytes.
unfoldable pub string : Options → ℕ → Result OptionsError Bytes
unfolding bytes
string o n = bytes o n

as_byte : Bytes → Result OptionsError ℕ
as_byte (b ∷ []) = ok b
as_byte _ = err wrong_size

-- binary.BigEndian.Uint16 and Uint32, on the bytes that are there.
abbrev pub uint16 : ℕ → ℕ → ℕ
uint16 a b = a * 256 + b

abbrev pub uint32 : ℕ → ℕ → ℕ → ℕ → ℕ
uint32 a b c d = ((a * 256 + b) * 256 + c) * 256 + d

as_uint16 : Bytes → Result OptionsError ℕ
as_uint16 (a ∷ b ∷ []) = ok (uint16 a b)
as_uint16 _ = err wrong_size

as_uint32 : Bytes → Result OptionsError ℕ
as_uint32 (a ∷ b ∷ c ∷ d ∷ []) = ok (uint32 a b c d)
as_uint32 _ = err wrong_size

unfoldable pub byte : Options → ℕ → Result OptionsError ℕ
unfolding bytes as_byte
byte o n = do bs ← bytes o n; as_byte bs

unfoldable pub get_uint16 : Options → ℕ → Result OptionsError ℕ
unfolding bytes as_uint16
get_uint16 o n = do bs ← bytes o n; as_uint16 bs

unfoldable pub get_uint32 : Options → ℕ → Result OptionsError ℕ
unfolding bytes as_uint32
get_uint32 o n = do bs ← bytes o n; as_uint32 bs

-- The conversion of a uint32 to an int32.
unfoldable pub as_int32 : ℕ → ℤ
as_int32 n = if ltb n (2 ^ 31) then pos n else negsuc (2 ^ 32 - 1 - n)

unfoldable pub get_int32 : Options → ℕ → Result OptionsError ℤ
unfolding get_uint32 as_int32
get_int32 o n = do v ← get_uint32 o n; ok (as_int32 v)

-- The loop of `IPs`, which its guard runs only on whole groups of four.
groups_of_four : Bytes → List Bytes
groups_of_four (a ∷ b ∷ c ∷ d ∷ rest) = (a ∷ b ∷ c ∷ d ∷ []) ∷ groups_of_four rest
groups_of_four _ = []

unfoldable pub ips : Options → ℕ → Result OptionsError (List Bytes)
unfolding bytes groups_of_four
ips o n = do
  bs ← bytes o n
  reject (ltb (length bs) 4 || not (length bs % 4 == 0)) wrong_size
  ok (groups_of_four bs)

as_ip : List Bytes → Result OptionsError Bytes
as_ip (ip ∷ []) = ok ip
as_ip _ = err wrong_size

unfoldable pub ip : Options → ℕ → Result OptionsError Bytes
unfolding ips as_ip
ip o n = do addresses ← ips o n; as_ip addresses

unfoldable pub ip_mask : Options → ℕ → Result OptionsError Bytes
unfolding bytes
ip_mask o n = do bs ← bytes o n; reject (not (length bs == 4)) wrong_size; ok bs

-- `byte` sees only the value of its option.
pub byte_cong : (o o' : Options) (n : ℕ) → lookup n o ≡ lookup n o' → byte o n ≡ byte o' n
unfolding byte
byte_cong o o' n h = rw h

pub byte-lookup : (o : Options) (n b : ℕ) → lookup n o ≡ some (b ∷ []) → byte o n ≡ ok b
unfolding byte
byte-lookup o n b h = rw h

-- Either `byte` fails, or the option has exactly one byte.
pub byte_cases :
    (o : Options) (n : ℕ)
    → ((e : OptionsError) × (byte o n ≡ err e)) ⊎ ((b : ℕ) × (lookup n o ≡ some (b ∷ [])))
byte_cases o n = go (lookup n o) refl
  where
    go :
        (x : Option Bytes)
        → lookup n o ≡ x
        → ((e : OptionsError) × (byte o n ≡ err e)) ⊎ ((b : ℕ) × (lookup n o ≡ some (b ∷ [])))
    go none e = inl (not_present, unfold byte in rw e)
    go (some []) e = inl (wrong_size, unfold byte in rw e)
    go (some (b ∷ [])) e = inr (b, e)
    go (some (a ∷ b ∷ r)) e = inl (wrong_size, unfold byte in rw e)
