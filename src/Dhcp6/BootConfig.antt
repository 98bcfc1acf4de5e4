-- ===== src/Dhcp6/BootConfig.antt =====
-- dhcp6/boot_configuration.go: the two sources of boot URLs.
pub mod Printed
use netboot.Prelude.{
  ℕ, ◌/◌, ◌%◌, Bool, true, false, Option, none, some, List, [], ◌∷◌, ◌++◌, Bytes, ◌==◌,
  if◌then◌else◌,
}
use netboot.Prelude.Text.{literal}
use netboot.Strconv.{format_int}
use netboot.Server.Strings.{hex_digit}
use netboot.Dhcp6.Builder.Respond.{BootConfiguration}

-- constants.X86HTTPClient
abbrev pub x86_http_client : ℕ
x86_http_client = 0x10

preference_of : ℕ → Bool → Option Bytes
preference_of preference true = some (preference ∷ [])
preference_of preference false = none

url_for : Bytes → Bytes → ℕ → Bytes
url_for http_boot_url ipxe_boot_url arch =
    if arch == x86_http_client then http_boot_url else ipxe_boot_url

-- MakeStaticBootConfiguration and the methods of its result.
unfoldable pub make_static_boot_configuration :
    Bytes → Bytes → ℕ → Bool → List Bytes → BootConfiguration
unfolding url_for preference_of
make_static_boot_configuration http_boot_url ipxe_boot_url preference use_preference dns = record {
  get_boot_url = λ id arch. some (url_for http_boot_url ipxe_boot_url arch);
  get_preference = preference_of preference use_preference;
  get_recursive_dns = dns;
}

-- strings.HasSuffix(url, "/")
ends_in_slash : Bytes → Bool
ends_in_slash [] = false
ends_in_slash (c ∷ []) = c == b'/'
ends_in_slash (c ∷ d ∷ s) = ends_in_slash (d ∷ s)

-- URLPrefix
unfoldable pub url_prefix : Bytes → Bytes
unfolding ends_in_slash
url_prefix url = (if ends_in_slash url then url else url ++ literal "/") ++ literal "v1"

-- The verb %x of bytes.
hex_text : Bytes → Bytes
unfolding hex_digit
hex_text [] = []
hex_text (b ∷ bs) = hex_digit (b / 16) ∷ hex_digit (b % 16) ∷ hex_text bs

-- reqURL of GetBootURL
unfoldable pub request_url : Bytes → Bytes → ℕ → Bytes
unfolding hex_text format_int
request_url prefix id arch =
    prefix ++ (literal "/boot/" ++ (hex_text id ++ (literal "/" ++ format_int arch)))

-- What is known of the package net/url here: a parsed URL is absolute or not, and has a text.
pub record UrlPackage : Type 1 where
  pub Url : Type 0
  pub parse : Bytes → Option Url
  pub is_abs : Url → Bool
  pub resolve_reference : Url → Url → Url
  pub string : Url → Bytes

resolved : (u : UrlPackage) → UrlPackage.Url u → Option (UrlPackage.Url u) → Option Bytes
resolved u x none = none
resolved u x (some base) = some (u.string (u.resolve_reference base x))

made_absolute : (u : UrlPackage) → Bytes → Option (UrlPackage.Url u) → Option Bytes
unfolding resolved
made_absolute u prefix none = none
made_absolute u prefix (some x) =
    if u.is_abs x then some (u.string x) else resolved u x (u.parse prefix)

-- makeURLAbsolute
unfoldable pub make_url_absolute : UrlPackage → Bytes → Bytes → Option Bytes
unfolding made_absolute
make_url_absolute u prefix text = made_absolute u prefix (u.parse text)

-- `url, _ :=`: an error of makeURLAbsolute leaves the empty URL.
or_empty : Option Bytes → Bytes
or_empty none = []
or_empty (some url) = url

api_url : UrlPackage → Bytes → Option Bytes → Option Bytes
unfolding or_empty make_url_absolute
api_url u prefix none = none
api_url u prefix (some body) = some (or_empty (make_url_absolute u prefix body))

-- MakeAPIBootConfiguration and the methods of its result; `get` is an HTTP request: the body of an
-- answer with status 200, and `none` for anything else.
unfoldable pub make_api_boot_configuration :
    UrlPackage → (Bytes → Option Bytes) → Bytes → ℕ → Bool → List Bytes → BootConfiguration
unfolding api_url url_prefix request_url preference_of
make_api_boot_configuration u get url preference use_preference dns = record {
  get_boot_url = λ id arch. api_url u (url_prefix url) (get (request_url (url_prefix url) id arch));
  get_preference = preference_of preference use_preference;
  get_recursive_dns = dns;
}
