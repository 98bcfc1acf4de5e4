-- ===== src/Tests/Booters.antt =====
-- Runs for the booters.
use netboot.Prelude.{◌≡◌, refl, false, Option, some, [], ◌∷◌, Bytes, map, arith}
use netboot.Prelude.Result.{ok}
use netboot.Strconv.{pos}
use netboot.Server.Booter.{Spec, BootFile}
use netboot.Utils.{expanded}
use netboot.Booters.{StaticBooter, Execute, static_booter, initrd_ids, read_boot_file}
use netboot.Booters.Files.{read_boot_file-static_booter}

abbrev spec : Spec
spec = record {
  kernel = b'v' ∷ [];
  initrd = (b'a' ∷ []) ∷ (b'b' ∷ []) ∷ [];
  efi = [];
  cmdline = b'q' ∷ [];
  message = [];
  ipxe_script = [];
}

-- A template without calls.
abbrev execute : Execute
execute text f = (some text, [])

abbrev serve_file : Bytes → Option BootFile
serve_file path = some (record { contents = path; fails = false; size = pos 1 })

abbrev booter : StaticBooter
booter = record {
  kernel = b'v' ∷ [];
  initrd = (b'a' ∷ []) ∷ (b'b' ∷ []) ∷ [];
  other_ids = [];
  efi = [];
  spec = record {
    kernel = b'k' ∷ b'e' ∷ b'r' ∷ b'n' ∷ b'e' ∷ b'l' ∷ [];
    initrd = initrd_ids 0 spec.initrd;
    efi = [];
    cmdline = b'q' ∷ [];
    message = [];
    ipxe_script = [];
  };
}

booter_made : static_booter execute spec ≡ ok booter
unfolding static_booter expanded
booter_made = refl

read_boot_file-static_booter_example :
    (read_boot_file serve_file booter booter.spec.kernel ≡ serve_file spec.kernel)
    × (map (read_boot_file serve_file booter) booter.spec.initrd ≡ map serve_file spec.initrd)
read_boot_file-static_booter_example =
    read_boot_file-static_booter execute serve_file spec booter refl booter_made (omega arith)
