-- ===== src/Tftp/Handlers/Below.antt =====
-- No path leads out of the root.
use netboot.Prelude.{
  ◌≡◌, ◌≢◌, refl, sym, ap, ◌∙◌, false, ◌||◌, List, [], ◌∷◌, ◌++◌, append-nil, append_assoc, Bytes,
  All, if_ind, arith,
}
use netboot.Prelude.Text.{literal}
use netboot.Net.{equal, is_empty}
use netboot.Server.Mac.{split}
use netboot.Server.Mac.RoundTrip.{split-append, split-one}
use netboot.Server.Mac.Parts.{split-both, split-free}
use netboot.Tftp.Handlers.{without_last, step, walk, slashed, render, clean, join, file_path}

-- The name of a file or a directory, and no step to another one.
pub record IsName (p : Bytes) : Type 0 where
  pub no_slash : All (λ c. c ≢ b'/') p
  pub not_empty : is_empty p ≡ false
  pub not_dot : equal p (literal ".") ≡ false
  pub not_dots : equal p (literal "..") ≡ false

without_last-All : (ps : List Bytes) → All IsName ps → All IsName (without_last ps)
unfolding without_last
without_last-All [] h = tt
without_last-All (p ∷ []) h = tt
without_last-All (p ∷ q ∷ ps) (hp, hs) = (hp, without_last-All (q ∷ ps) hs)

All-end : (ps : List Bytes) (p : Bytes) → All IsName ps → IsName p → All IsName (ps ++ (p ∷ []))
All-end [] p h k = (k, tt)
All-end (q ∷ ps) p (hq, h) k = (hq, All-end ps p h k)

step-IsName :
    (out : List Bytes) (p : Bytes)
    → All IsName out
    → All (λ c. c ≢ b'/') p
    → All IsName (step out p)
unfolding step
step-IsName out p h k =
    if_ind (All IsName) (is_empty p || equal p (literal ".")) _ _ (λ t. h)
      (λ f.
        if_ind (All IsName) (equal p (literal "..")) _ _ (λ t. without_last-All out h)
          (λ g. All-end out p h (record {
            no_slash = k;
            not_empty = ground arith;
            not_dot = ground arith;
            not_dots = g;
          })))

-- Cleaning leaves names.
walk-IsName :
    (out ps : List Bytes)
    → All IsName out
    → All (λ p. All (λ c. c ≢ b'/') p) ps
    → All IsName (walk out ps)
unfolding walk
walk-IsName out [] h k = h
walk-IsName out (p ∷ ps) h (kp, ks) = walk-IsName (step out p) ps (step-IsName out p h kp) ks

walk-append : (out ps qs : List Bytes) → walk out (ps ++ qs) ≡ walk (walk out ps) qs
unfolding walk
walk-append out [] qs = refl
walk-append out (p ∷ ps) qs = walk-append (step out p) ps qs

step-name : (out : List Bytes) (p : Bytes) → IsName p → step out p ≡ out ++ (p ∷ [])
unfolding step
step-name out p h = rw (h.not_empty, h.not_dot, h.not_dots) refl

-- Names are walked as they are.
walk-names : (out ps : List Bytes) → All IsName ps → walk out ps ≡ out ++ ps
unfolding walk
walk-names out [] h = sym (append-nil out)
walk-names out (p ∷ ps) (hp, h) =
    rw (step-name out p hp) (walk-names (out ++ (p ∷ [])) ps h ∙ append_assoc out (p ∷ []) ps)

split-slashed :
    (p : Bytes) (ps : List Bytes) → IsName p → All IsName ps → split b'/' (p ++ slashed ps) ≡ p ∷ ps
unfolding slashed
split-slashed p [] h k = ap (split b'/') (append-nil p) ∙ split-one b'/' p h.no_slash
split-slashed p (q ∷ ps) h (hq, k) =
    split-append b'/' p (q ++ slashed ps) h.no_slash ∙ ap (λ t. p ∷ t) (split-slashed q ps hq k)

-- A clean path is walked back into its names.
walk-render : (out ps : List Bytes) → All IsName ps → walk out (split b'/' (render ps)) ≡ out ++ ps
unfolding render split walk step
walk-render out [] h = sym (append-nil out)
walk-render out (p ∷ ps) (hp, h) = rw (split-slashed p ps hp h) (walk-names out (p ∷ ps) (hp, h))

cleaned-IsName : (path : Bytes) → All IsName (walk [] (split b'/' path))
cleaned-IsName path = walk-IsName [] (split b'/' path) tt (split-free b'/' path)

-- The names below the root, as the first Join finds them.
names_of : Bytes → List Bytes
names_of path = walk [] (split b'/' path)

join_root : (path : Bytes) → join (literal "/") path ≡ render (names_of path)
unfolding join clean names_of
join_root [] = unfold split walk step in refl
join_root (c ∷ path) = unfold split walk step in refl

clean-both :
    (rs ps : List Bytes)
    → All IsName rs
    → All IsName ps
    → clean (render rs ++ (b'/' ∷ render ps)) ≡ render (rs ++ ps)
unfolding clean
clean-both rs ps h k = ap render (
    ap (walk []) (split-both b'/' (render rs) (render ps))
    ∙ (walk-append [] (split b'/' (render rs)) (split b'/' (render ps))
        ∙ (ap (λ out. walk out (split b'/' (render ps))) (walk-render [] rs h)
            ∙ walk-render rs ps k)))

join-render :
    (rs ps : List Bytes)
    → All IsName rs
    → All IsName ps
    → join (render rs) (render ps) ≡ render (rs ++ ps)
unfolding join render
join-render rs [] h k = clean-both rs [] h k
join-render rs (p ∷ ps) h k = clean-both rs (p ∷ ps) h k

-- Whatever path a client asks for, the file that is looked up lies below the root of the handler: its
-- name is made of the names of the root and then of further names, none of which is empty, a dot or
-- two dots or has a slash.
pub file_path-IsName :
    (rs : List Bytes) (path : Bytes)
    → All IsName rs
    → (ps : List Bytes) × All IsName ps × (file_path (render rs) path ≡ render (rs ++ ps))
unfolding file_path names_of
file_path-IsName rs path h = (
  names_of path,
  cleaned-IsName path,
  ap (join (render rs)) (join_root path) ∙ join-render rs (names_of path) h (cleaned-IsName path),
)

-- A path that is made of names is looked up under exactly these names.
pub file_path-render :
    (rs ps : List Bytes)
    → All IsName rs
    → All IsName ps
    → file_path (render rs) (render ps) ≡ render (rs ++ ps)
unfolding file_path names_of
file_path-render rs ps h k =
    ap (join (render rs)) (join_root (render ps) ∙ ap render (walk-render [] ps k))
    ∙ join-render rs ps h k
