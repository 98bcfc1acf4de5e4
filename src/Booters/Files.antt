-- ===== src/Booters/Files.antt =====
-- The files that a static booter was configured with are the files behind the IDs of its spec.
use netboot.Prelude.{
  suc, ◌^◌, ◌<◌, ◌≡◌, refl, sym, ap, ◌∙◌, true, Option, some, List, [], ◌∷◌, ◌++◌, append_assoc,
  map, Bytes, length, length-append, arith,
}
use mathlib.Core.Path.{subst}
use netboot.Prelude.Text.{literal}
use netboot.Prelude.Result.{Result, ok, err, ok-injective}
use netboot.Net.{equal, is_empty}
use netboot.Strconv.{format_int}
use netboot.Strconv.RoundTrip.{parse_int-format_int}
use netboot.Server.Strings.{has_prefix}
use netboot.Server.Booter.{Spec, BootFile}
use netboot.Utils.{CmdlineError}
use netboot.Booters.{
  StaticBooter, Execute, initrd_ids, with_cmdline, static_booter, get_elem?, numbered, location,
  opened, read_boot_file,
}

get_elem?-append :
    (before : List Bytes) (x : Bytes) (after : List Bytes)
    → get_elem? (before ++ (x ∷ after)) (length before) ≡ some x
unfolding get_elem?
get_elem?-append [] x after = refl
get_elem?-append (b ∷ before) x after = get_elem?-append before x after

-- The ID with a number leads to the init ramdisk with that number.
location-initrd :
    (s : StaticBooter) (before : List Bytes) (x : Bytes) (after : List Bytes)
    → s.initrd ≡ before ++ (x ∷ after)
    → length before < 2 ^ 63
    → location s (literal "initrd-" ++ format_int (length before)) ≡ some x
unfolding location numbered has_prefix equal
location-initrd s before x after e small =
    rw (parse_int-format_int (length before) small, e) (get_elem?-append before x after)

all_initrds :
    (serve_file : Bytes → Option BootFile) (s : StaticBooter) (before after : List Bytes)
    → s.initrd ≡ before ++ after
    → length s.initrd < 2 ^ 63
    → map (read_boot_file serve_file s) (initrd_ids (length before) after) ≡ map serve_file after
unfolding read_boot_file initrd_ids opened
all_initrds serve_file s before [] e small = refl
all_initrds serve_file s before (x ∷ after) e small =
    let few : length before < 2 ^ 63 =
      omega (arith, small, ap (λ l. length l) e, length-append before (x ∷ after)) in
    let here = location-initrd s before x after e few in
    let shifted : s.initrd ≡ (before ++ (x ∷ [])) ++ after =
      e ∙ sym (append_assoc before (x ∷ []) after) in
    let next : length (before ++ (x ∷ [])) ≡ suc (length before) =
      omega (arith, length-append before (x ∷ [])) in
    let more =
      subst (λ n. map (read_boot_file serve_file s) (initrd_ids n after) ≡ map serve_file after)
        next (all_initrds serve_file s (before ++ (x ∷ [])) after shifted small) in
    rw (here, more)

-- What a booter has of the spec it was made from.
record IsMadeFrom (spec : Spec) (s : StaticBooter) : Type 0 where
  kernel : s.kernel ≡ spec.kernel
  initrd : s.initrd ≡ spec.initrd
  kernel_id : s.spec.kernel ≡ literal "kernel"
  ids : s.spec.initrd ≡ initrd_ids 0 spec.initrd

with_cmdline-IsMadeFrom :
    (spec : Spec) (other : List Bytes) (r : Result CmdlineError Bytes) (s : StaticBooter)
    → with_cmdline spec other r ≡ ok s
    → IsMadeFrom spec s
unfolding with_cmdline
with_cmdline-IsMadeFrom spec other (err e) s h = absurd (cc)
with_cmdline-IsMadeFrom spec other (ok cmdline) s h =
    subst (IsMadeFrom spec) (ok-injective h)
      (record { kernel = refl; initrd = refl; kernel_id = refl; ids = refl })

static_booter-IsMadeFrom :
    (execute : Execute) (spec : Spec) (s : StaticBooter)
    → is_empty spec.efi ≡ true
    → static_booter execute spec ≡ ok s
    → IsMadeFrom spec s
unfolding static_booter
static_booter-IsMadeFrom execute spec s no_efi h =
    with_cmdline-IsMadeFrom spec _ _ s (rw no_efi at h)

-- A static booter without an EFI program serves what it was configured with: behind the kernel's ID
-- in the spec it gives out is the configured kernel, and behind the IDs of the init ramdisks are the
-- configured ramdisks, all of them and in their order.
pub read_boot_file-static_booter :
    (execute : Execute) (serve_file : Bytes → Option BootFile) (spec : Spec) (s : StaticBooter)
    → is_empty spec.efi ≡ true
    → static_booter execute spec ≡ ok s
    → length spec.initrd < 2 ^ 63
    → (read_boot_file serve_file s s.spec.kernel ≡ serve_file spec.kernel)
      × (map (read_boot_file serve_file s) s.spec.initrd ≡ map serve_file spec.initrd)
read_boot_file-static_booter execute serve_file spec s no_efi made small =
    let m = static_booter-IsMadeFrom execute spec s no_efi made in
    let few : length s.initrd < 2 ^ 63 = omega (arith, small, ap (λ l. length l) m.initrd) in
    (
      ap (λ id. read_boot_file serve_file s id) m.kernel_id
          ∙ (unfold read_boot_file location opened equal in ap serve_file m.kernel),
      ap (λ ids. map (read_boot_file serve_file s) ids) m.ids
          ∙ all_initrds serve_file s [] spec.initrd m.initrd few,
    )
