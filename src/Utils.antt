-- ===== src/Utils.antt =====
-- utils/common.go: the expansion of a kernel command line.
pub mod UrlSign
use netboot.Prelude.{
  ℕ, Bool, ◌&&◌, ◌||◌, Option, none, some, [], ◌∷◌, Bytes, ◌==◌, leb, if◌then◌else◌,
}
use netboot.Prelude.Result.{Result, ok, err, ◌>>◌, reject}
use netboot.Net.{is_empty}
use netboot.Url.{contains}

pub data CmdlineError : Type 0 where
  not_a_template : CmdlineError
  has_newline : Bytes → CmdlineError

abbrev newline : ℕ
newline = 10

-- strings.TrimSpace, on ASCII.
is_space : ℕ → Bool
is_space c = c == b' ' || (leb 9 c && leb c 13)

trim_left : Bytes → Bytes
unfolding is_space
trim_left [] = []
trim_left (c ∷ s) = let rest = trim_left s in if is_space c then rest else c ∷ s

trim_right : Bytes → Bytes
unfolding is_space
trim_right [] = []
trim_right (c ∷ s) = let rest = trim_right s in if is_space c && is_empty rest then [] else c ∷ rest

unfoldable pub trim_space : Bytes → Bytes
unfolding trim_left trim_right
trim_space s = trim_right (trim_left s)

unfoldable pub expanded : Option Bytes → Result CmdlineError Bytes
unfolding trim_space
expanded none = err not_a_template
expanded (some out) = do
  reject (contains newline (trim_space out)) (has_newline (trim_space out))
  ok (trim_space out)

-- ExpandCmdline. `execute tpl f` stands for the package text/template: what the template `tpl`
-- comes to with its one function `f`, and `none` if it cannot be parsed or executed.
unfoldable pub expand_cmdline :
    (Bytes → (Bytes → Option Bytes) → Option Bytes)
    → Bytes
    → (Bytes → Option Bytes)
    → Result CmdlineError Bytes
unfolding expanded
expand_cmdline execute tpl f = expanded (execute tpl f)
