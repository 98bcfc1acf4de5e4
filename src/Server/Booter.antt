-- ===== src/Server/Booter.antt =====
-- types/types.go: what a booter is asked and what it answers.
use netboot.Prelude.{Bool, Option, List, Bytes}
use netboot.Strconv.{ℤ}
use netboot.Server.Dhcp.{Machine}

-- types.Spec; an ID is its text.
pub record Spec : Type 0 where
  pub kernel : Bytes
  pub initrd : List Bytes
  pub efi : Bytes
  pub cmdline : Bytes
  pub message : Bytes
  pub ipxe_script : Bytes

-- What BootSpec answers: an error, a nil Spec, or a Spec.
pub data BootAnswer : Type 0 where
  no_answer no_spec : BootAnswer
  found : Spec → BootAnswer

-- A file as ReadBootFile returns it: what a read of it yields, whether reading breaks off after
-- that, and the size that is announced, negative if it is not known.
pub record BootFile : Type 0 where
  pub contents : Bytes
  pub fails : Bool
  pub size : ℤ

-- The methods of types.Booter that the server calls, and the optional BootFileName of
-- types.FileNamer. An error of ReadBootFile is `none`.
pub record Booter : Type 0 where
  pub boot_spec : Machine → BootAnswer
  pub read_boot_file : Bytes → Option BootFile
  pub boot_file_name : Option (Bytes → Bytes)
