-- ===== src/Booters.antt =====
-- booters/booters.go: the booter that boots every machine with the same spec.
pub mod Files
pub mod Cmdline
pub mod Api
use netboot.Prelude.{
  ℕ, zero, suc, ◌+◌, Bool, true, false, ◌&&◌, Option, none, some, List, [], ◌∷◌, ◌++◌, Bytes,
  length, drop, ◌==◌, if◌then◌else◌,
}
use netboot.Prelude.Text.{literal}
use netboot.Prelude.Result.{Result, ok, err}
use netboot.Net.{equal, is_empty}
use netboot.Strconv.{ℤ, pos, negsuc, format_int, parse_int}
use netboot.Utils.{CmdlineError, expanded}
use netboot.Server.Strings.{has_prefix}
use netboot.Server.Dhcp.{Machine}
use netboot.Server.Booter.{Spec, BootAnswer, found, BootFile, Booter}

pub record StaticBooter : Type 0 where
  pub kernel : Bytes
  pub initrd : List Bytes
  pub other_ids : List Bytes
  pub efi : Bytes
  pub spec : Spec

-- The IDs that stand for the init ramdisks, from number `i` on.
unfoldable pub initrd_ids : ℕ → List Bytes → List Bytes
unfolding format_int
initrd_ids i [] = []
initrd_ids i (image ∷ more) = (literal "initrd-" ++ format_int i) ∷ initrd_ids (suc i) more

-- The function ID of the template: the ID goes to the end of the list, and its number into the text.
unfoldable pub other_id : Bytes → List Bytes → Bytes × List Bytes
unfolding format_int
other_id id ids =
    (literal "{{ ID \"other-" ++ (format_int (length ids) ++ literal "\" }}"), ids ++ (id ∷ []))

-- text/template, as in Utils, with a function that has a state: the list of the IDs.
abbrev pub Execute : Type 0
Execute = Bytes → (Bytes → List Bytes → Bytes × List Bytes) → Option Bytes × List Bytes

with_cmdline : Spec → List Bytes → Result CmdlineError Bytes → Result CmdlineError StaticBooter
with_cmdline spec ids (err e) = err e
with_cmdline spec ids (ok cmdline) = ok (record {
  kernel = spec.kernel;
  initrd = spec.initrd;
  other_ids = ids;
  efi = [];
  spec = record {
    kernel = literal "kernel";
    initrd = initrd_ids 0 spec.initrd;
    efi = [];
    cmdline = cmdline;
    message = spec.message;
    ipxe_script = [];
  };
})

-- StaticBooter
unfoldable pub static_booter : Execute → Spec → Result CmdlineError StaticBooter
unfolding with_cmdline expanded other_id initrd_ids
static_booter execute spec =
    if is_empty spec.efi
    then (let (out, ids) = execute spec.cmdline other_id in with_cmdline spec ids (expanded out))
    else ok (record {
      kernel = [];
      initrd = [];
      other_ids = [];
      efi = spec.efi;
      spec = record {
        kernel = [];
        initrd = [];
        efi = literal "efi";
        cmdline = [];
        message = spec.message;
        ipxe_script = [];
      };
    })

-- s[i], with `none` out of range.
unfoldable pub get_elem? : List Bytes → ℕ → Option Bytes
get_elem? [] i = none
get_elem? (x ∷ xs) zero = some x
get_elem? (x ∷ xs) (suc i) = get_elem? xs i

-- The location with a number that was read, if `err == nil && i >= 0 && i < len(locations)`.
numbered : List Bytes → Option ℤ → Option Bytes
unfolding get_elem?
numbered locations none = none
numbered locations (some (negsuc n)) = none
numbered locations (some (pos i)) = get_elem? locations i

-- The `switch` of ReadBootFile: the location behind an ID, `none` if there is no file with it.
unfoldable pub location : StaticBooter → Bytes → Option Bytes
unfolding numbered equal parse_int
location s path =
    if equal path (literal "kernel")
    then some s.kernel
    else if equal path (literal "efi")
    then some s.efi
    else if has_prefix path (literal "initrd-")
    then numbered s.initrd (parse_int (drop 7 path))
    else if has_prefix path (literal "other-")
    then numbered s.other_ids (parse_int (drop 6 path))
    else none

opened : (Bytes → Option BootFile) → Option Bytes → Option BootFile
opened serve_file none = none
opened serve_file (some path) = serve_file path

-- ReadBootFile; `serve_file` reads a local file or an HTTP URL.
unfoldable pub read_boot_file : (Bytes → Option BootFile) → StaticBooter → Bytes → Option BootFile
unfolding opened location
read_boot_file serve_file s id = opened serve_file (location s id)

-- The part of a path after the last slash that is not at its end, as filepath.Base cuts it; "" for
-- a path without one, which the caller treats as it treats "." and "/".
trim_slashes : Bytes → Bytes
trim_slashes [] = []
trim_slashes (c ∷ s) =
    let rest = trim_slashes s in if c == b'/' && is_empty rest then [] else c ∷ rest

after_slash : Bytes → Bytes → Bytes
after_slash part [] = part
after_slash part (c ∷ s) =
    let fresh = after_slash [] s in
    let longer = after_slash (part ++ (c ∷ [])) s in if c == b'/' then fresh else longer

base_name : Bytes → Bytes
unfolding trim_slashes after_slash equal
base_name path =
    let base = after_slash [] (trim_slashes path) in if equal base (literal ".") then [] else base

-- The path as it is, where unescaping it fails.
unescaped_or : Bytes → Option Bytes → Bytes
unescaped_or path none = path
unescaped_or path (some p) = p

url_name : (Bytes → Option Bytes) → Bytes → Option (Bytes × Bytes) → Bytes
unfolding base_name unescaped_or
url_name path_unescape location none = base_name location
url_name path_unescape location (some (scheme, path)) =
    if is_empty scheme
    then base_name location
    else if is_empty path
    then []
    else base_name (unescaped_or path (path_unescape path))

-- fileNameFromLocation; `parse_url` is url.Parse, with the scheme and the path of what it accepts,
-- and `path_unescape` is url.PathUnescape.
unfoldable pub file_name_from_location :
    (Bytes → Option (Bytes × Bytes)) → (Bytes → Option Bytes) → Bytes → Bytes
unfolding url_name
file_name_from_location parse_url path_unescape location =
    url_name path_unescape location (parse_url location)

named : (Bytes → Bytes) → Option Bytes → Bytes
named name none = []
named name (some location) = name location

-- BootFileName; `name` is fileNameFromLocation.
unfoldable pub boot_file_name : (Bytes → Bytes) → StaticBooter → Bytes → Bytes
unfolding named numbered parse_int
boot_file_name name s path =
    if has_prefix path (literal "other-")
    then named name (numbered s.other_ids (parse_int (drop 6 path)))
    else []

-- The staticBooter as a types.Booter.
unfoldable pub booter : (Bytes → Option BootFile) → (Bytes → Bytes) → StaticBooter → Booter
unfolding read_boot_file boot_file_name
booter serve_file name s = record {
  boot_spec = λ m. found s.spec;
  read_boot_file = read_boot_file serve_file s;
  boot_file_name = some (boot_file_name name s);
}
