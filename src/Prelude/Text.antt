-- ===== src/Prelude/Text.antt =====
-- Go's string literals, in ASCII, as the bytes they hold.
use Prim.Native.String.{String}
use Prim.Native.Char.{code}
use netboot.Prelude.Lists.{Bytes}
use mathlib.Core.List.{[], ◌∷◌}

abbrev pub literal : String → Bytes
literal (String.◌∷◌ letter more) = code letter ∷ literal more
literal String.[] = []
