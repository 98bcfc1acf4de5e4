-- ===== src/Booters/Api/Served.antt =====
-- The IDs in a spec of the API booter lead to the files that the API named.
use netboot.Prelude.{
  ℕ, suc, ◌<◌, ◌≡◌, refl, sym, ap, if◌then◌else◌, true, Option, none, some, List, [], ◌∷◌, map,
  Bytes, length, All,
}
use mathlib.Core.Path.{subst}
use netboot.Prelude.Result.{ok, bind-ok, ok-injective, wrap}
use netboot.Net.{is_empty}
use netboot.Utils.{expanded}
use netboot.Utils.UrlSign.{nonce_size}
use netboot.Utils.UrlSign.RoundTrip.{get_url-sign_url}
use netboot.Server.Dhcp.{Machine}
use netboot.Server.Booter.{Spec, BootFile}
use netboot.Dhcp6.BootConfig.{UrlPackage}
use netboot.Dhcp6.BootConfig.Printed.{make_url_absolute-Printed}
use netboot.Booters.Cmdline.{ApiError, no_randomness, bad_cmdline, cmdline_text}
use netboot.Booters.Api.{
  Surroundings, ApiAnswer, or_error, absolute, absolute_all, sign, sign_all, spec_of, boot_spec,
  get_api_response, read_url, read_boot_file, url_function, script_spec,
}

-- The URLs of an answer, and that the spec of the booter gives the files behind them.
pub record IsServed (w : Surroundings) (prefix key : Bytes) (r : ApiAnswer) (spec : Spec)
    : Type 0 where
  pub kernel_url : Bytes
  pub initrd_urls : List Bytes
  pub kernel_absolute : absolute w prefix key r.kernel ≡ ok kernel_url
  pub initrd_absolute : absolute_all w prefix key r.initrd ≡ ok initrd_urls
  pub kernel : read_boot_file w prefix key spec.kernel ≡ read_url w prefix key kernel_url
  pub initrd :
      map (read_boot_file w prefix key) spec.initrd ≡ map (read_url w prefix key) initrd_urls

-- What the booter relies on: the secretbox opens what it has sealed, the random generator yields
-- readings of the size of a nonce, and everything is made of bytes.
pub record IsSound (w : Surroundings) : Type 0 where
  pub opens : (m n key : Bytes) → All (λ c. c < 256) m → w.unseal (w.seal m n key) n key ≡ some m
  pub seals_bytes : (m n key : Bytes) → All (λ c. c < 256) m → All (λ c. c < 256) (w.seal m n key)
  pub nonces : (i : ℕ) (n : Bytes) → w.random i ≡ some n → length n ≡ nonce_size
  pub nonce_bytes : (i : ℕ) (n : Bytes) → w.random i ≡ some n → All (λ c. c < 256) n
  pub url_bytes : (u : UrlPackage.Url w.url) → All (λ c. c < 256) (UrlPackage.string w.url u)

module _ (w : Surroundings) (prefix key : Bytes) (sound : IsSound w) where
  or_error-ok : (e : ApiError) (o : Option Bytes) {v : Bytes} → or_error e o ≡ ok v → o ≡ some v
  unfolding or_error
  or_error-ok e none h = absurd (cc)
  or_error-ok e (some a) h = ap some (ok-injective h)

  absolute-bytes : (u : Bytes) {v : Bytes} → absolute w prefix key u ≡ ok v → All (λ c. c < 256) v
  unfolding absolute
  absolute-bytes u h =
      let (x, e) = make_url_absolute-Printed w.url prefix u (or_error-ok _ _ h) in
      subst (λ t. All (λ c. c < 256) t) (sym e) (sound.url_bytes x)

  -- An ID that was made of a URL is read as the URL.
  read_boot_file-sign :
      (n : ℕ) (u : Bytes) {id : Bytes}
      → All (λ c. c < 256) u
      → sign w prefix key n u ≡ ok id
      → read_boot_file w prefix key id ≡ read_url w prefix key u
  unfolding sign read_boot_file
  read_boot_file-sign n u bytes h =
      let (nonce, drawn, made) = bind-ok (or_error no_randomness (w.random n)) _ h in
      let e = or_error-ok no_randomness (w.random n) drawn in
      rw (← ok-injective made) (
        rw
          (get_url-sign_url w.seal w.unseal sound.opens sound.seals_bytes nonce u key
            (sound.nonces n nonce e) (sound.nonce_bytes n nonce e) bytes)
          refl)

  absolute_all-bytes :
      (texts : List Bytes) {us : List Bytes}
      → absolute_all w prefix key texts ≡ ok us
      → All (λ u. All (λ c. c < 256) u) us
  unfolding absolute_all
  absolute_all-bytes [] h = subst (All (λ u. All (λ c. c < 256) u)) (ok-injective h) tt
  absolute_all-bytes (t ∷ texts) h =
      let (v, one, rest) = bind-ok (absolute w prefix key t) _ h in
      let (vs, more, whole) = bind-ok (absolute_all w prefix key texts) _ rest in
      subst (All (λ u. All (λ c. c < 256) u)) (ok-injective whole)
        (absolute-bytes t one, absolute_all-bytes texts more)

  read_boot_file-sign_all :
      (n : ℕ) (us : List Bytes) {ids : List Bytes}
      → All (λ u. All (λ c. c < 256) u) us
      → sign_all w prefix key n us ≡ ok ids
      → map (read_boot_file w prefix key) ids ≡ map (read_url w prefix key) us
  unfolding sign_all
  read_boot_file-sign_all n [] bytes h = rw (← ok-injective h) refl
  read_boot_file-sign_all n (u ∷ us) (b, bs) h =
      let (id, one, rest) = bind-ok (sign w prefix key n u) _ h in
      let (others, more, whole) = bind-ok (sign_all w prefix key (suc n) us) _ rest in
      let here = read_boot_file-sign n u b one in
      let there = read_boot_file-sign_all (suc n) us bs more in
      rw (← ok-injective whole) (rw (here, there) refl)

  spec_of-IsServed :
      (r : ApiAnswer) {spec : Spec}
      → spec_of w prefix key r ≡ ok spec
      → IsServed w prefix key r spec
  unfolding spec_of
  spec_of-IsServed r h =
      let (kernel, k, h1) = bind-ok (absolute w prefix key r.kernel) _ h in
      let (initrd, i, h2) = bind-ok (absolute_all w prefix key r.initrd) _ h1 in
      let (kernel_id, ki, h3) = bind-ok (sign w prefix key 0 kernel) _ h2 in
      let (ids, ii, h4) = bind-ok (sign_all w prefix key 1 initrd) _ h3 in
      let (line, l, h5) = bind-ok (cmdline_text w.quote r.cmdline) _ h4 in
      let (cmdline, c, h6) =
        bind-ok
          (wrap bad_cmdline
            (expanded (w.execute line (url_function w prefix key) (suc (length ids)))))
          _ h5 in
      subst (IsServed w prefix key r) (ok-injective h6) (record {
        kernel_url = kernel;
        initrd_urls = initrd;
        kernel_absolute = k;
        initrd_absolute = i;
        kernel = read_boot_file-sign 0 kernel (absolute-bytes r.kernel k) ki;
        initrd = read_boot_file-sign_all 1 initrd (absolute_all-bytes r.initrd i) ii;
      })

  boot_spec_branch :
      (r : ApiAnswer) {spec : Spec}
      → is_empty r.ipxe_script ≡ true
      → (if is_empty r.ipxe_script
          then spec_of w prefix key r
          else ok (script_spec w prefix key r.ipxe_script))
        ≡ ok spec
      → spec_of w prefix key r ≡ ok spec
  boot_spec_branch r e h = rw e at h

  -- In a spec that BootSpec of the API booter makes of an answer without a script, the ID of the
  -- kernel is read by ReadBootFile as the file behind the kernel's URL, made absolute with the prefix
  -- of the API, and the IDs of the init ramdisks are read as the files behind their URLs, all of them
  -- and in their order, if the secretbox opens what it has sealed and the random readings have the
  -- size of a nonce.
  pub boot_spec-IsServed :
      (m : Machine) (body : BootFile) (r : ApiAnswer) (spec : Spec)
      → get_api_response w prefix key m.mac ≡ ok body
      → w.decode body ≡ some r
      → is_empty r.ipxe_script ≡ true
      → boot_spec w prefix key m ≡ ok spec
      → IsServed w prefix key r spec
  unfolding boot_spec
  boot_spec-IsServed m body r spec got decoded no_script h =
      spec_of-IsServed r (boot_spec_branch r no_script (rw (got, decoded) at h))
