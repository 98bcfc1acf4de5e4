-- ===== src/Booters/Api.antt =====
-- booters/booters.go: the booter that asks an HTTP server what to boot.
pub mod Served
use netboot.Prelude.{
  ℕ, suc, Bool, true, false, Option, none, some, List, [], ◌∷◌, ◌++◌, Bytes, length, ◌==◌, ltb,
  if◌then◌else◌, ◌||◌, ◌&&◌,
}
use netboot.Prelude.Text.{literal}
use netboot.Prelude.Result.{Result, ok, err, ◌>>=◌, ◌>>◌, reject, wrap}
use netboot.Net.{equal, is_empty}
use netboot.Utils.{CmdlineError, expanded}
use netboot.Utils.UrlSign.{SignError, sign_url, get_url}
use netboot.Server.Strings.{mac_string}
use netboot.Server.Dhcp.{Machine}
use netboot.Server.Booter.{Spec, BootAnswer, no_answer, found, BootFile, Booter}
use netboot.Dhcp6.BootConfig.{UrlPackage, make_url_absolute, url_prefix}
use netboot.Booters.Cmdline.{
  Json, null, boolean, number, text, array, object, Members, no_member, member, Items, ApiError,
  request_failed, bad_status, bad_json, not_an_url, no_randomness, no_url_attribute,
  unsupported_value, unknown_cmdline_type, bad_cmdline, bad_id, open_failed, lookup,
  construct_cmdline, cmdline_text,
}

-- The answer of the API.
pub record ApiAnswer : Type 0 where
  pub kernel : Bytes
  pub initrd : List Bytes
  pub cmdline : Json
  pub message : Bytes
  pub ipxe_script : Bytes

-- The status of an HTTP answer and its body.
pub record Response : Type 0 where
  pub status : ℕ
  pub body : BootFile

-- The packages and the network that the booter stands on: net/url, with the scheme and the path of a
-- URL; net/http, where `client_get` is Get of the client with the time limit, and a failed request is
-- `none`; os.Open and Stat; encoding/json; the verb %q; text/template, with a function that draws
-- random numbers, the count of those before it given to it; the secretbox; and the readings of
-- crypto/rand.
pub record Surroundings : Type 1 where
  pub url : UrlPackage
  pub scheme : UrlPackage.Url url → Bytes
  pub path : UrlPackage.Url url → Bytes
  pub client_get : Bytes → Option Response
  pub get : Bytes → Option Response
  pub post : Bytes → Bytes → Option ℕ
  pub open_file : Bytes → Option BootFile
  pub decode : BootFile → Option ApiAnswer
  pub quote : Bytes → Bytes
  pub execute : Bytes → (Bytes → ℕ → Result ApiError Bytes × ℕ) → ℕ → Option Bytes
  pub seal : Bytes → Bytes → Bytes → Bytes
  pub unseal : Bytes → Bytes → Bytes → Option Bytes
  pub random : ℕ → Option Bytes

or_error : {A : Type 0} → ApiError → Option A → Result ApiError A
or_error e none = err e
or_error e (some a) = ok a

module _ (w : Surroundings) (prefix key : Bytes) where
  open w use {url, seal, unseal, quote}

  -- The body of an answer with status 200.
  answered : Option Response → Result ApiError BootFile
  answered none = err request_failed
  answered (some r) = if r.status == 200 then ok r.body else err (bad_status r.status)

  -- getAPIResponse
  unfoldable pub get_api_response : Bytes → Result ApiError BootFile
  unfolding answered mac_string
  get_api_response hw = answered (w.client_get (prefix ++ (literal "/boot/" ++ mac_string hw)))

  -- makeURLAbsolute
  unfoldable pub absolute : Bytes → Result ApiError Bytes
  unfolding or_error make_url_absolute
  absolute u = or_error (not_an_url u) (make_url_absolute url prefix u)

  unfoldable pub absolute_all : List Bytes → Result ApiError (List Bytes)
  unfolding absolute
  absolute_all [] = ok []
  absolute_all (u ∷ us) = do v ← absolute u; vs ← absolute_all us; ok (v ∷ vs)

  -- SignURL with the reading number `n` of the random generator.
  unfoldable pub sign : ℕ → Bytes → Result ApiError Bytes
  unfolding or_error sign_url
  sign n u = do nonce ← or_error no_randomness (w.random n); ok (sign_url seal nonce u key)

  unfoldable pub sign_all : ℕ → List Bytes → Result ApiError (List Bytes)
  unfolding sign
  sign_all n [] = ok []
  sign_all n (u ∷ us) = do id ← sign n u; ids ← sign_all (suc n) us; ok (id ∷ ids)

  -- The function URL of the template, with the count of the readings before and after it.
  unfoldable pub url_function : Bytes → ℕ → Result ApiError Bytes × ℕ
  unfolding absolute sign
  url_function u n = elim (absolute u) [
    | err e ↦ (err e, n)
    | ok v ↦ ((do id ← sign n v; ok (literal "{{ ID " ++ (quote id ++ literal " }}"))), suc n)
  ]

  -- The spec of an answer without a script.
  unfoldable pub spec_of : ApiAnswer → Result ApiError Spec
  unfolding absolute absolute_all sign sign_all cmdline_text url_function expanded
  spec_of r = do
    kernel ← absolute r.kernel
    initrd ← absolute_all r.initrd
    kernel_id ← sign 0 kernel
    ids ← sign_all 1 initrd
    line ← cmdline_text quote r.cmdline
    cmdline ← wrap bad_cmdline (expanded (w.execute line url_function (suc (length ids))))
    ok (record {
      kernel = kernel_id;
      initrd = ids;
      efi = [];
      cmdline = cmdline;
      message = r.message;
      ipxe_script = [];
    })

  script_spec : Bytes → Spec
  script_spec script = record {
    kernel = [];
    initrd = [];
    efi = [];
    cmdline = [];
    message = [];
    ipxe_script = script;
  }

  -- BootSpec
  unfoldable pub boot_spec : Machine → Result ApiError Spec
  unfolding get_api_response or_error spec_of script_spec
  boot_spec m = do
    body ← get_api_response m.mac
    r ← or_error bad_json (w.decode body)
    if is_empty r.ipxe_script then spec_of r else ok (script_spec r.ipxe_script)

  -- ReadBootFile, from the parsed URL on.
  unfoldable pub read_url : Bytes → Result ApiError BootFile
  unfolding or_error equal answered
  read_url u = do
    parsed ← or_error (not_an_url u) (url.parse u)
    if equal (w.scheme parsed) (literal "file")
        then or_error (open_failed (w.path parsed)) (w.open_file (w.path parsed))
        else answered (w.get u)

  -- ReadBootFile
  unfoldable pub read_boot_file : Bytes → Result ApiError BootFile
  unfolding read_url get_url
  read_boot_file id = do u ← wrap bad_id (get_url unseal id key); read_url u

  posted : Option ℕ → Result ApiError (Unit {0})
  posted none = err request_failed
  posted (some status) = if status == 200 then ok tt else err (bad_status status)

  -- WriteBootFile
  unfoldable pub write_boot_file : Bytes → Bytes → Result ApiError (Unit {0})
  unfolding posted get_url
  write_boot_file id body = do u ← wrap bad_id (get_url unseal id key); posted (w.post u body)

  boot_answer : Result ApiError Spec → BootAnswer
  boot_answer (ok spec) = found spec
  boot_answer (err e) = no_answer

  file_answer : Result ApiError BootFile → Option BootFile
  file_answer (ok file) = some file
  file_answer (err e) = none

  -- The apibooter as a types.Booter.
  unfoldable pub booter : Booter
  unfolding boot_answer file_answer boot_spec read_boot_file
  booter = record {
    boot_spec = λ m. boot_answer (boot_spec m);
    read_boot_file = λ id. file_answer (read_boot_file id);
    boot_file_name = none;
  }

-- APIBooter: the booter for a URL, with the key that the random generator yields, if it does.
unfoldable pub api_booter : Surroundings → Bytes → Option Bytes → Option Booter
unfolding url_prefix booter
api_booter w url none = none
api_booter w url (some key) = some (booter w (url_prefix url) key)
