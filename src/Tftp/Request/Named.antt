-- ===== src/Tftp/Request/Named.antt =====
-- The options of a request leave its file name alone.
use netboot.Prelude.{
  ◌≡◌, refl, ◌∙◌, Bool, true, false, not, List, [], ◌∷◌, Bytes, if_ind, if◌then◌else◌,
}
use netboot.Prelude.Text.{literal}
use netboot.Prelude.Result.{Result, ok, bind-ok}
use netboot.Net.{equal}
use netboot.Tftp.Request.{Rrq, RrqError, apply_option, block_size_of}
use netboot.Tftp.Request.Grammar.{apply_all}

filename_eq : {a b : Rrq} → ◌≡◌ {A = Result RrqError Rrq} (ok a) (ok b) → b.filename ≡ a.filename
filename_eq {a} {b} h = let e : b ≡ a = cc in λ i. (e i).filename

with_size :
    (req : Rrq) (b : Bool)
    → (if b then record req { want_size = true } else req).filename ≡ req.filename
with_size req true = refl
with_size req false = refl

filename-apply_option :
    (req : Rrq) (opt val : Bytes) (r : Rrq)
    → apply_option req opt val ≡ ok r
    → r.filename ≡ req.filename
unfolding apply_option
filename-apply_option req opt val r h =
    if_ind P (not (equal opt (literal "blksize"))) _ _
      (λ other e. filename_eq e ∙ with_size req (equal opt (literal "tsize")))
      (λ size e. let (n, _, made) = bind-ok (block_size_of val) _ e in filename_eq made) h
  where
    P : Result RrqError Rrq → Type 0
    P m = m ≡ ok r → r.filename ≡ req.filename

pub filename-apply_all :
    (req : Rrq) (os : List (Bytes × Bytes)) (r : Rrq)
    → apply_all req os ≡ ok r
    → r.filename ≡ req.filename
unfolding apply_all
filename-apply_all req [] r h = filename_eq h
filename-apply_all req ((opt, val) ∷ os) r h =
    let (mid, first, rest) = bind-ok (apply_option req opt val) _ h in
    filename-apply_all mid os r rest ∙ filename-apply_option req opt val mid first
