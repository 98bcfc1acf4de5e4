-- ===== src/Server/Http/Handlers/Served.antt =====
-- The URLs of a script lead to the files that they stand for.
use netboot.Prelude.{
  ℕ, ◌≤◌, Option, none, ◌<◌, ◌≡◌, refl, true, false, some, [], ◌∷◌, ◌++◌, Bytes, length, All,
}
use netboot.Prelude.Text.{literal}
use netboot.Net.{equal, is_empty}
use netboot.Url.{query_escape, query_get}
use netboot.Url.Values.{
  query_escape-IsValueOf, itself-IsValueOf, is_key, key-IsItself, mac_string-bytes,
}
use netboot.Url.Query.{Field, query_get-joined}
use netboot.Server.Strings.{mac_string}
use netboot.Server.Mac.RoundTrip.{parse_mac-mac_string}
use netboot.Server.Booter.{BootFile}
use netboot.Server.Events.{machine_event}
use netboot.Server.Events.State
use netboot.Server.Serve.{Log}
use netboot.Server.Http.{HttpSetup, file_query}
use netboot.Server.Http.Handlers.{
  Response, announced, copied, file_event, sent_event, send_file, handle_file,
}

module _ (id kind mac : Bytes) (id_bytes : All (λ c. c < 256) id) (kind_key : is_key kind ≡ true)
    (six : length mac ≡ 6) (mac_bytes : All (λ c. c < 256) mac) where
  abbrev name_field : Field
  name_field = record {
    key = literal "name";
    value = id;
    text = query_escape id;
    keyed = refl;
    valued = query_escape-IsValueOf id id_bytes;
  }

  abbrev type_field : Field
  type_field = record {
    key = literal "type";
    value = kind;
    text = kind;
    keyed = refl;
    valued = itself-IsValueOf kind (key-IsItself kind kind_key);
  }

  abbrev mac_field : Field
  mac_field = record {
    key = literal "mac";
    value = mac_string mac;
    text = query_escape (mac_string mac);
    keyed = refl;
    valued = query_escape-IsValueOf (mac_string mac) (mac_string-bytes mac mac_bytes);
  }

  -- What the handler reads in the query of a URL of a script.
  file_query_read :
      (query_get (literal "name") (file_query id kind mac) ≡ id)
      × (query_get (literal "type") (file_query id kind mac) ≡ kind)
      × (query_get (literal "mac") (file_query id kind mac) ≡ mac_string mac)
  unfolding file_query equal
  file_query_read = (
    query_get-joined (literal "name") name_field (type_field ∷ mac_field ∷ []),
    query_get-joined (literal "type") name_field (type_field ∷ mac_field ∷ []),
    query_get-joined (literal "mac") name_field (type_field ∷ mac_field ∷ []),
  )

-- The event of a file that has been sent.
abbrev pub file_log : HttpSetup → ℕ → ℕ → Bytes → Bytes → Bytes → Log → Log
file_log s now state text id mac log =
    machine_event (s.key mac)
      (record { timestamp = now; state = state; message = text ++ s.quote id }) log

abbrev pub whole : BootFile → Response
whole f = record { status = 200; content_length = announced f.size; body = f.contents }

-- A body that is no longer than the Content-Length that is set, if one is.
abbrev pub Fits : Option ℕ → Bytes → Type 0
Fits none body = Unit {0}
Fits (some n) body = length body ≤ n

-- The connection holds, and Write of net/http refuses a body, as documented, only for being longer than
-- the Content-Length.
abbrev pub CopiesWhole : HttpSetup → Type 0
CopiesWhole s = (n : Option ℕ) (body : Bytes) → Fits n body → s.copy n body ≡ (body, true)

-- Where the connection holds, so that every body no longer than its Content-Length is sent: the URL of
-- the kernel in a script, when it is fetched, gives the file that the booter has under the ID, whatever
-- bytes that is made of, and an event "kernel" of the machine the script was made for, if reading the
-- file does not fail and it is no longer than the size that the booter reports; the URL of an init
-- ramdisk gives its file, and an event "initrd".
pub handle_file-file_query :
    (s : HttpSetup) (now : ℕ) (host path id mac : Bytes) (f : BootFile) (log : Log)
    → CopiesWhole s
    → All (λ c. c < 256) id
    → is_empty id ≡ false
    → length mac ≡ 6
    → All (λ c. c < 256) mac
    → s.booter.read_boot_file id ≡ some f
    → f.fails ≡ false
    → Fits (announced f.size) f.contents
    → (handle_file s now
          (record { host = host; path = path; query = file_query id (literal "kernel") mac })
          log
        ≡ (whole f, file_log s now State.kernel (literal "Sent kernel ") id mac log))
      × (handle_file s now
            (record { host = host; path = path; query = file_query id (literal "initrd") mac })
            log
          ≡ (whole f, file_log s now State.initrd (literal "Sent initrd ") id mac log))
unfolding handle_file send_file copied sent_event file_event equal
handle_file-file_query s now host path id mac f log copies id_bytes named six mac_bytes there
      complete fits =
    let (k_name, k_type, k_mac) =
      file_query_read id (literal "kernel") mac id_bytes refl six mac_bytes in
    let (i_name, i_type, i_mac) =
      file_query_read id (literal "initrd") mac id_bytes refl six mac_bytes in
    let parsed = parse_mac-mac_string mac six mac_bytes in
    let sent = copies (announced f.size) f.contents fits in
    (
      rw (k_name, named, there, sent, complete, k_type, k_mac, parsed),
      rw (i_name, named, there, sent, complete, i_type, i_mac, parsed),
    )
