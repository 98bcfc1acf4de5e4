-- ===== src/Tftp/Handlers.antt =====
-- tftp/handlers.go: FilesystemHandler, on a system whose paths have slashes.
pub mod Below
use netboot.Prelude.{
  ℕ, Bool, true, false, ◌||◌, Option, none, some, List, [], ◌∷◌, ◌++◌, Bytes, if◌then◌else◌,
}
use netboot.Prelude.Text.{literal}
use netboot.Net.{equal, is_empty}
use netboot.Server.Mac.{split}
use netboot.Tftp.Transfer.{File}
use netboot.Tftp.Serve.{Handler}

-- filepath.Clean of a path from the root: the parts in order, without empty ones and dots, and two
-- dots take the part before them away.
unfoldable pub without_last : List Bytes → List Bytes
without_last [] = []
without_last (p ∷ []) = []
without_last (p ∷ q ∷ ps) = p ∷ without_last (q ∷ ps)

unfoldable pub step : List Bytes → Bytes → List Bytes
unfolding equal without_last
step out p =
    if is_empty p || equal p (literal ".")
    then out
    else if equal p (literal "..")
    then without_last out
    else out ++ (p ∷ [])

unfoldable pub walk : List Bytes → List Bytes → List Bytes
unfolding step
walk out [] = out
walk out (p ∷ ps) = walk (step out p) ps

slashed : List Bytes → Bytes
slashed [] = []
slashed (p ∷ ps) = b'/' ∷ (p ++ slashed ps)

unfoldable pub render : List Bytes → Bytes
unfolding slashed
render [] = literal "/"
render (p ∷ ps) = slashed (p ∷ ps)

unfoldable pub clean : Bytes → Bytes
unfolding walk render split
clean path = render (walk [] (split b'/' path))

-- filepath.Join of two elements, of which the first is not empty and starts at the root.
unfoldable pub join : Bytes → Bytes → Bytes
unfolding clean
join base [] = clean base
join base (c ∷ path) = clean (base ++ (b'/' ∷ c ∷ path))

-- The name that the handler looks up for a path.
unfoldable pub file_path : Bytes → Bytes → Bytes
unfolding join
file_path root path = join root (join (literal "/") path)

-- What os.Stat says of a name: whether it is a regular file, and its size.
pub record Stat : Type 0 where
  pub regular : Bool
  pub size : ℕ

-- What os.Open gives: the bytes that reads deliver, and whether the end is an error.
pub record Opened : Type 0 where
  pub contents : Bytes
  pub fails : Bool

sized : ℕ → Option Opened → Option File
sized size none = none
sized size (some o) = some (record { contents = o.contents; fails = o.fails; size = size })

checked : Option Opened → Option Stat → Option File
unfolding sized
checked opened none = none
checked opened (some st) = if st.regular then sized st.size opened else none

-- FilesystemHandler; `abs` is filepath.Abs.
served : (Bytes → Option Stat) → (Bytes → Option Opened) → Bytes → Option File
unfolding checked
served stat open_file name = checked (open_file name) (stat name)

handler_at : (Bytes → Option Stat) → (Bytes → Option Opened) → Option Bytes → Option Handler
unfolding served file_path
handler_at stat open_file none = none
handler_at stat open_file (some root) =
    some (λ path client. served stat open_file (file_path root path))

unfoldable pub filesystem_handler :
    (Bytes → Option Bytes)
    → (Bytes → Option Stat)
    → (Bytes → Option Opened)
    → Bytes
    → Option Handler
unfolding handler_at
filesystem_handler abs stat open_file root = handler_at stat open_file (abs root)
