-- ===== src/Tests/Api.antt =====
-- Runs for the booter of the API.
use netboot.Prelude.{
  ℕ, ◌<◌, ◌≡◌, refl, true, false, Option, none, some, [], ◌∷◌, Bytes, arith, All, length, replicate,
  ◌==◌, if◌then◌else◌,
}
use mathlib.Core.Path.{subst}
use netboot.Prelude.Result.{ok}
use netboot.Strconv.{pos}
use netboot.Net.{equal}
use netboot.Utils.UrlSign.{sign_url, encode, digit}
use netboot.Server.Dhcp.{Machine}
use netboot.Server.Booter.{Spec, BootFile}
use netboot.Booters.Api
use netboot.Booters.Cmdline.{construct_cmdline, boolean, text, object, member, no_member}
use netboot.Booters.Api.{ApiAnswer, Surroundings}
use netboot.Booters.Api.Served.{IsServed, IsSound, boot_spec-IsServed}
use netboot.Booters.Cmdline.Order.{swapped, construct_cmdline-Reordered}

-- A server whose API names the kernel "k" and the init ramdisk "i", and a secretbox that seals nothing.
abbrev answer : ApiAnswer
answer = record {
  kernel = b'k' ∷ [];
  initrd = (b'i' ∷ []) ∷ [];
  cmdline = object (member (b'q' ∷ []) (boolean true) no_member);
  message = [];
  ipxe_script = [];
}

abbrev served_file : BootFile
served_file = record { contents = b'x' ∷ []; fails = false; size = pos 1 }

-- The URLs of the tests stand for themselves, where they are short texts of bytes.
data Word : Type 0 where
  letter_k letter_i : Word

abbrev word_text : Word → Bytes
word_text letter_k = b'k' ∷ []
word_text letter_i = b'i' ∷ []

abbrev read_word : Bytes → Option Word
read_word (c ∷ []) = if c == b'k' then some letter_k else some letter_i
read_word _ = none

abbrev nonce : Bytes
nonce = replicate 24 7

abbrev sealed : Bytes → Bytes → Bytes → Bytes
sealed m n key = m

abbrev unsealed : Bytes → Bytes → Bytes → Option Bytes
unsealed c n key = some c

abbrev world : Surroundings
world = record {
  url = record {
    Url = Word;
    parse = read_word;
    is_abs = λ u. true;
    resolve_reference = λ base u. u;
    string = word_text;
  };
  scheme = λ u. [];
  path = λ u. [];
  client_get = λ u. some (record { status = 200; body = served_file });
  get = λ u. some (record { status = 200; body = served_file });
  post = λ u body. some 200;
  open_file = λ path. none;
  decode = λ file. some answer;
  quote = λ t. t;
  execute = λ tpl f n. some tpl;
  seal = sealed;
  unseal = unsealed;
  random = λ n. some nonce;
}

nonce_of : (i : ℕ) (n : Bytes) → world.random i ≡ some n → nonce ≡ n
nonce_of i n h = cc

word_text-bytes : (u : Word) → All (λ c. c < 256) (word_text u)
word_text-bytes letter_k = (omega arith, tt)
word_text-bytes letter_i = (omega arith, tt)

world-IsSound : IsSound world
world-IsSound = record {
  opens = λ m n key h. refl;
  seals_bytes = λ m n key h. h;
  nonces = λ i n h. subst (λ t. length t ≡ 24) (nonce_of i n h) refl;
  nonce_bytes = λ i n h. subst (λ t. All (λ c. c < 256) t) (nonce_of i n h) (omega arith);
  url_bytes = word_text-bytes;
}

abbrev machine : Machine
machine = record { mac = []; arch = 0 }

abbrev api_spec : Spec
unfolding sign_url encode digit
api_spec = record {
  kernel = sign_url sealed nonce (b'k' ∷ []) [];
  initrd = sign_url sealed nonce (b'i' ∷ []) [] ∷ [];
  efi = [];
  cmdline = b'q' ∷ [];
  message = [];
  ipxe_script = [];
}

api_spec_made : Api.boot_spec world [] [] machine ≡ ok api_spec
unfolding Api.boot_spec
api_spec_made = refl

boot_spec-IsServed_example : IsServed world [] [] answer api_spec
unfolding Api.get_api_response
boot_spec-IsServed_example =
    boot_spec-IsServed world [] [] world-IsSound machine served_file answer api_spec refl refl refl
      api_spec_made

distinct_keys : equal (b'q' ∷ []) (b'c' ∷ []) ≡ false
unfolding equal
distinct_keys = refl

construct_cmdline-Reordered_example :
    construct_cmdline
      (λ t. t)
      (member (b'q' ∷ []) (boolean true) (member (b'c' ∷ []) (text (b't' ∷ [])) no_member))
    ≡ construct_cmdline
        (λ t. t)
        (member (b'c' ∷ []) (text (b't' ∷ [])) (member (b'q' ∷ []) (boolean true) no_member))
construct_cmdline-Reordered_example = construct_cmdline-Reordered (λ t. t) (swapped distinct_keys)
