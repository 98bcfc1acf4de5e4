-- ===== src/Url/Query.antt =====
-- The values of a query are found under their keys.
use netboot.Prelude.{
  ◌≡◌, ◌≢◌, refl, ap, ◌∙◌, true, false, none, some, List, [], ◌∷◌, ◌++◌, map, Bytes, All, ◌==◌,
  if◌then◌else◌, arith,
}
use netboot.Net.{equal}
use netboot.Server.Mac.{split}
use netboot.Server.Mac.RoundTrip.{split-append, split-one}
use netboot.Url.{
  percent, query_unescape, cut, contains, both, key_value, value_or, first_value, query_get,
}
use netboot.Url.Values.{IsInner, IsValueOf, IsItself, itself-means, is_key, key-IsItself}

-- A key, its value, and the text that stands for the value.
pub record Field : Type 0 where
  pub key : Bytes
  pub value : Bytes
  pub text : Bytes
  pub keyed : is_key key ≡ true
  pub valued : IsValueOf value text

abbrev pub param : Field → Bytes
param f = f.key ++ (b'=' ∷ f.text)

cut-param : (k v : Bytes) → is_key k ≡ true → cut b'=' (k ++ (b'=' ∷ v)) ≡ (k, v)
unfolding cut
cut-param [] v h = refl
cut-param (c ∷ k) v h =
    let other : (c == b'=') ≡ false = ground arith in
    let tail : is_key k ≡ true = ground arith in rw (other, cut-param k v tail)

IsInner-append : (k v : Bytes) → All IsItself k → All IsInner v → All IsInner (k ++ (b'=' ∷ v))
IsInner-append [] v h i = (((λ e. omega arith), (λ e. omega arith)), i)
IsInner-append (c ∷ k) v ((percent, (plus, h)), hs) i = (h, IsInner-append k v hs i)

contains-inner : (s : Bytes) → All IsInner s → contains b';' s ≡ false
contains-inner [] h = refl
contains-inner (c ∷ s) ((amp, semi), hs) =
    let other : (c == b';') ≡ false = ground arith in rw (other, contains-inner s hs)

param-IsInner : (f : Field) → All IsInner (param f)
param-IsInner f = IsInner-append f.key f.text (key-IsItself f.key f.keyed) f.valued.inner

key_value-param : (f : Field) → key_value (param f) ≡ some (f.key, f.value)
unfolding key_value both
key_value-param f = nonempty (param f) (no_nil f.key) (
    rw (contains-inner (param f) (param-IsInner f)) (
      rw (
        cut-param f.key f.text f.keyed,
        itself-means f.key (key-IsItself f.key f.keyed),
        f.valued.means,
      )))
  where
    no_nil : (k : Bytes) → k ++ (b'=' ∷ f.text) ≢ []
    no_nil [] e = cc
    no_nil (c ∷ k) e = cc

    nonempty :
        (p : Bytes)
        → p ≢ []
        → (if contains b';' p
            then none
            else both (query_unescape (cut b'=' p).0) (query_unescape (cut b'=' p).1))
          ≡ some (f.key, f.value)
        → key_value p ≡ some (f.key, f.value)
    nonempty [] a h = absurd (a refl)
    nonempty (c ∷ s) a h = h

-- The parts of a query with `&` between them.
abbrev pub joined : List Bytes → Bytes
joined [] = []
joined (p ∷ []) = p
joined (p ∷ q ∷ ps) = p ++ (b'&' ∷ joined (q ∷ ps))

inner-ne_amp : (s : Bytes) → All IsInner s → All (λ c. c ≢ b'&') s
inner-ne_amp [] h = tt
inner-ne_amp (c ∷ s) ((amp, semi), hs) = (amp, inner-ne_amp s hs)

split-joined :
    (f : Field) (fs : List Field) → split b'&' (joined (map param (f ∷ fs))) ≡ map param (f ∷ fs)
split-joined f [] = split-one b'&' (param f) (inner-ne_amp (param f) (param-IsInner f))
split-joined f (g ∷ fs) =
    split-append b'&' (param f) (joined (map param (g ∷ fs)))
      (inner-ne_amp (param f) (param-IsInner f))
    ∙ ap (λ ps. param f ∷ ps) (split-joined g fs)

-- The value of the first field with a key; empty if there is none.
abbrev pub value_of : Bytes → List Field → Bytes
value_of key [] = []
value_of key (f ∷ fs) = if equal f.key key then f.value else value_of key fs

first_value-param :
    (key : Bytes) (fs : List Field) → first_value key (map param fs) ≡ value_of key fs
unfolding first_value value_or
first_value-param key [] = refl
first_value-param key (f ∷ fs) = rw (key_value-param f, first_value-param key fs)

-- A query that is put together from fields gives their values back.
pub query_get-joined :
    (key : Bytes) (f : Field) (fs : List Field)
    → query_get key (joined (map param (f ∷ fs))) ≡ value_of key (f ∷ fs)
unfolding query_get
query_get-joined key f fs = rw (split-joined f fs) (first_value-param key (f ∷ fs))
