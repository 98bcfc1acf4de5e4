-- ===== src/Booters/Cmdline.antt =====
-- (b *apibooter) constructCmdline of booters/booters.go: the kernel's command line from the JSON object
-- of the API.
pub mod Order
use netboot.Prelude.{
  ℕ, suc, Bool, true, false, Option, none, some, List, [], ◌∷◌, ◌++◌, Bytes, length, ◌==◌, ltb,
  if◌then◌else◌, ◌||◌, ◌&&◌,
}
use netboot.Prelude.Text.{literal}
use netboot.Prelude.Result.{Result, ok, err, ◌>>=◌, ◌>>◌, reject, wrap}
use netboot.Net.{equal, is_empty}
use netboot.Utils.{CmdlineError, expanded}
use netboot.Utils.UrlSign.{SignError, sign_url, get_url}
use netboot.Server.Strings.{mac_string}
use netboot.Server.Dhcp.{Machine}
use netboot.Server.Booter.{Spec, BootAnswer, no_answer, found, BootFile, Booter}
use netboot.Dhcp6.BootConfig.{UrlPackage, make_url_absolute, url_prefix}

-- What encoding/json makes of a value of any type; a missing field is null.
mutual
  pub data Json : Type 0 where
    null : Json
    boolean : Bool → Json
    number text : Bytes → Json
    array : Items → Json
    object : Members → Json

  pub data Items : Type 0 where
    no_item : Items
    item : Json → Items → Items

  -- A Go map from strings; the order of the members stands for the order of iteration.
  pub data Members : Type 0 where
    no_member : Members
    member : Bytes → Json → Members → Members

pub data ApiError : Type 0 where
  request_failed : ApiError
  bad_status : ℕ → ApiError
  bad_json : ApiError
  not_an_url : Bytes → ApiError
  no_randomness : ApiError
  no_url_attribute unsupported_value : Bytes → ApiError
  unknown_cmdline_type : ApiError
  bad_cmdline : CmdlineError → ApiError
  bad_id : SignError → ApiError
  open_failed : Bytes → ApiError

-- The sorted keys of constructCmdline: sort.Strings compares byte by byte.
unfoldable pub leb_text : Bytes → Bytes → Bool
leb_text [] t = true
leb_text (a ∷ s) [] = false
leb_text (a ∷ s) (b ∷ t) = ltb a b || (a == b && leb_text s t)

unfoldable pub insert_text : Bytes → List Bytes → List Bytes
unfolding leb_text
insert_text s [] = s ∷ []
insert_text s (t ∷ ts) =
    let rest = insert_text s ts in if leb_text s t then s ∷ t ∷ ts else t ∷ rest

unfoldable pub sorted_keys : Members → List Bytes
unfolding insert_text
sorted_keys no_member = []
sorted_keys (member k v m) = insert_text k (sorted_keys m)

-- m[k]
unfoldable pub lookup : Bytes → Members → Option Json
unfolding equal
lookup k no_member = none
lookup k (member j v m) = let later = lookup k m in if equal j k then some v else later

url_argument : (Bytes → Bytes) → Bytes → Option Json → Result ApiError Bytes
url_argument quote k (some (text u)) = ok (k ++ (literal "={{ URL " ++ (quote u ++ literal " }}")))
url_argument quote k _ = err (no_url_attribute k)

-- One round of the loop of constructCmdline: the text for a key with its value.
unfoldable pub argument : (Bytes → Bytes) → Bytes → Option Json → Result ApiError Bytes
unfolding url_argument lookup
argument quote k (some (boolean b)) = ok k
argument quote k (some (text v)) = ok (k ++ (literal "=" ++ quote v))
argument quote k (some (object m)) = url_argument quote k (lookup (literal "url") m)
argument quote k _ = err (unsupported_value k)

unfoldable pub arguments : (Bytes → Bytes) → Members → List Bytes → Result ApiError (List Bytes)
unfolding argument lookup
arguments quote m [] = ok []
arguments quote m (k ∷ ks) = do
  a ← argument quote k (lookup k m)
  more ← arguments quote m ks
  ok (a ∷ more)

-- strings.Join(ret, " ")
unfoldable pub join_words : List Bytes → Bytes
join_words [] = []
join_words (w ∷ []) = w
join_words (w ∷ v ∷ ws) = w ++ (b' ' ∷ join_words (v ∷ ws))

-- constructCmdline
unfoldable pub construct_cmdline : (Bytes → Bytes) → Members → Result ApiError Bytes
unfolding arguments sorted_keys join_words
construct_cmdline quote m = do words ← arguments quote m (sorted_keys m); ok (join_words words)

-- The command line before its expansion.
unfoldable pub cmdline_text : (Bytes → Bytes) → Json → Result ApiError Bytes
unfolding construct_cmdline
cmdline_text quote null = ok []
cmdline_text quote (text c) = ok c
cmdline_text quote (object m) = construct_cmdline quote m
cmdline_text quote _ = err unknown_cmdline_type
