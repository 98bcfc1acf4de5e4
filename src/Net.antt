-- ===== src/Net.antt =====
-- The parts of Go's package net that the program uses: addresses as byte slices (nil is the empty
-- slice), their classes, and equality of slices.
pub mod Interfaces
use netboot.Prelude.{
  ◌≡◌, refl, Bool, true, false, ◌&&◌, ◌||◌, not, Option, none, some, [], ◌∷◌, Bytes, length, drop,
  get_or, replicate, ◌++◌, ◌==◌, if◌then◌else◌, bit_and, arith,
}

-- bytes.Equal, and == of strings.
unfoldable pub equal : Bytes → Bytes → Bool
equal [] [] = true
equal [] (b ∷ bs) = false
equal (a ∷ as') [] = false
equal (a ∷ as') (b ∷ bs) = a == b && equal as' bs

abbrev pub is_empty : Bytes → Bool
is_empty [] = true
is_empty (b ∷ bs) = false

abbrev pub ipv4_bcast : Bytes
ipv4_bcast = 255 ∷ 255 ∷ 255 ∷ 255 ∷ []

abbrev v4_in_v6_prefix : Bytes
v4_in_v6_prefix = replicate 10 0 ++ (255 ∷ 255 ∷ [])

-- ip.To4(); none is nil.
unfoldable pub to4 : Bytes → Option Bytes
unfolding equal
to4 ip =
    if length ip == 4
    then some ip
    else if length ip == 16 && starts_mapped ip
    then some (drop 12 ip)
    else none
  where
    starts_mapped : Bytes → Bool
    starts_mapped (a ∷ b ∷ c ∷ d ∷ e ∷ f ∷ g ∷ h ∷ i ∷ j ∷ k ∷ l ∷ rest) =
        equal (a ∷ b ∷ c ∷ d ∷ e ∷ f ∷ g ∷ h ∷ i ∷ j ∷ k ∷ l ∷ []) v4_in_v6_prefix
    starts_mapped _ = false

unfoldable pub is_loopback : Bytes → Bool
unfolding to4 equal
is_loopback ip = elim (to4 ip) [
  | some ip4 ↦ get_or ip4 0 0 == 127
  | none ↦ equal ip (replicate 15 0 ++ (1 ∷ []))
]

unfoldable pub is_unspecified : Bytes → Bool
unfolding to4 equal
is_unspecified ip = elim (to4 ip) [
  | some ip4 ↦ equal ip4 (replicate 4 0)
  | none ↦ equal ip (replicate 16 0)
]

unfoldable pub is_multicast : Bytes → Bool
unfolding to4
is_multicast ip = elim (to4 ip) [
  | some ip4 ↦ bit_and (get_or ip4 0 0) 0xf0 == 0xe0
  | none ↦ length ip == 16 && get_or ip 0 0 == 0xff
]

unfoldable pub is_link_local_unicast : Bytes → Bool
unfolding to4
is_link_local_unicast ip = elim (to4 ip) [
  | some ip4 ↦ get_or ip4 0 0 == 169 && get_or ip4 1 0 == 254
  | none ↦ length ip == 16 && (get_or ip 0 0 == 0xfe && bit_and (get_or ip 1 0) 0xc0 == 0x80)
]

is_broadcast : Bytes → Bool
unfolding to4 equal
is_broadcast ip = elim (to4 ip) [ some ip4 ↦ equal ip4 ipv4_bcast | none ↦ false ]

unfoldable pub is_global_unicast : Bytes → Bool
unfolding is_broadcast is_unspecified is_loopback is_multicast is_link_local_unicast
is_global_unicast ip =
    (length ip == 4 || length ip == 16)
    && (not (is_broadcast ip)
        && (not (is_unspecified ip)
            && (not (is_loopback ip) && (not (is_multicast ip) && not (is_link_local_unicast ip)))))

pub equal-eq : (xs ys : Bytes) → equal xs ys ≡ true → xs ≡ ys
unfolding equal
equal-eq [] [] h = refl
equal-eq [] (y ∷ ys) h = cc
equal-eq (x ∷ xs) [] h = cc
equal-eq (x ∷ xs) (y ∷ ys) h = ground (arith, equal-eq xs ys)

pub equal_refl : (xs : Bytes) → equal xs xs ≡ true
unfolding equal
equal_refl [] = refl
equal_refl (x ∷ xs) = ground (arith, equal_refl xs)
