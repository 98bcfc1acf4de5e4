-- ===== src/Dhcp6/BootConfig/Printed.antt =====
-- makeURLAbsolute of dhcp6/boot_configuration.go gives texts that net/url has printed.
use netboot.Prelude.{◌≡◌, Bool-cases, inl, inr, Option, none, some, Bytes}
use netboot.Dhcp6.BootConfig.{UrlPackage, make_url_absolute, made_absolute, resolved}

-- `v` is the text of a URL.
abbrev pub Printed : UrlPackage → Bytes → Type 0
Printed u v = (x : UrlPackage.Url u) × (v ≡ u.string x)

some_injective : {a b : Bytes} → ◌≡◌ {A = Option Bytes} (some a) (some b) → b ≡ a
some_injective h = cc

resolved-Printed :
    (u : UrlPackage) (x : UrlPackage.Url u) (base : Option (UrlPackage.Url u)) {v : Bytes}
    → resolved u x base ≡ some v
    → Printed u v
unfolding resolved
resolved-Printed u x none h = absurd (cc)
resolved-Printed u x (some base) h = (u.resolve_reference base x, some_injective h)

made_absolute-Printed :
    (u : UrlPackage) (prefix : Bytes) (x : Option (UrlPackage.Url u)) {v : Bytes}
    → made_absolute u prefix x ≡ some v
    → Printed u v
unfolding made_absolute
made_absolute-Printed u prefix none h = absurd (cc)
made_absolute-Printed u prefix (some x) h = elim (Bool-cases (u.is_abs x)) [
  | inl e ↦ (x, some_injective (rw e at h))
  | inr e ↦ resolved-Printed u x (u.parse prefix) (rw e at h)
]

pub make_url_absolute-Printed :
    (u : UrlPackage) (prefix text : Bytes) {v : Bytes}
    → make_url_absolute u prefix text ≡ some v
    → Printed u v
unfolding make_url_absolute
make_url_absolute-Printed u prefix text h = made_absolute-Printed u prefix (u.parse text) h
