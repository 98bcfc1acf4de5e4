-- ===== src/Server/Http/Handlers.antt =====
-- The HTTP handlers of server/http.go.
pub mod Served
pub mod Scripts
use netboot.Prelude.{
  ℕ, Bool, true, false, ◌||◌, ◌&&◌, not, Option, none, some, List, [], ◌∷◌, ◌++◌, Bytes, ◌==◌,
  if◌then◌else◌,
}
use netboot.Prelude.Result.{Result, ok, err, ◌>>=◌, ◌>>◌, reject, wrap}
use netboot.Prelude.Text.{literal}
use netboot.Constants
use netboot.Net.{equal, is_empty}
use netboot.Strconv.{ℤ, pos, negsuc, parse_int}
use netboot.Url.{query_get}
use netboot.Server.Strings.{has_prefix}
use netboot.Server.Mac.{parse_mac}
use netboot.Server.Dhcp.{Machine}
use netboot.Server.Booter.{Spec, BootAnswer, no_answer, no_spec, found, BootFile, Booter}
use netboot.Server.Events.{Event, machine_event}
use netboot.Server.Events.State
use netboot.Server.Serve.{Log}
use netboot.Server.Http.{HttpSetup, ScriptError, boot_file_namer, ipxe_script, ipxe_script_efi}

-- What the handlers read of a request: its Host, the path of its URL and the query of its URL.
pub record Request : Type 0 where
  pub host : Bytes
  pub path : Bytes
  pub query : Bytes

-- A response: its status, a Content-Length that is set, and what is written as its body.
pub record Response : Type 0 where
  pub status : ℕ
  pub content_length : Option ℕ
  pub body : Bytes

-- http.Error
http_error : ℕ → Bytes → Response
http_error status message = record {
  status = status;
  content_length = none;
  body = message ++ (10 ∷ []);
}

abbrev pub plain : Bytes → Response
plain body = record { status = 200; content_length = none; body = body }

pub data HttpError : Type 0 where
  missing_mac missing_arch invalid_mac invalid_arch unknown_arch : HttpError
  no_bootspec not_netbooted : HttpError
  no_script : ScriptError → HttpError

-- The calls of http.Error in handleIpxe.
error_response : HttpError → Response
unfolding http_error
error_response missing_mac = http_error 400 (literal "missing MAC address parameter")
error_response missing_arch = http_error 400 (literal "missing architecture parameter")
error_response invalid_mac = http_error 400 (literal "invalid MAC address")
error_response invalid_arch = http_error 400 (literal "invalid architecture")
error_response unknown_arch = http_error 400 (literal "unknown architecture")
error_response no_bootspec = http_error 500 (literal "couldn't get a bootspec")
error_response not_netbooted = http_error 404 (literal "you don't netboot")
error_response (no_script e) = http_error 500 (literal "couldn't get a boot script")

pub or_http : {A : Type 0} → HttpError → Option A → Result HttpError A
or_http e none = err e
or_http e (some a) = ok a

-- The `switch arch`.
known_arch : ℤ → Result HttpError ℕ
known_arch (negsuc n) = err unknown_arch
known_arch (pos n) =
    if n == Constants.arch_ia32 || (n == Constants.arch_x64 || n == Constants.arch_arm64)
    then ok n
    else err unknown_arch

-- handleIpxe up to the Machine.
unfoldable pub ipxe_machine : Bytes → Result HttpError Machine
unfolding or_http known_arch parse_mac parse_int
ipxe_machine query = do
  let mac_text = query_get (literal "mac") query
  reject (is_empty mac_text) missing_mac
  let arch_text = query_get (literal "arch") query
  reject (is_empty arch_text) missing_arch
  mac ← or_http invalid_mac (parse_mac mac_text)
  i ← or_http invalid_arch (parse_int arch_text)
  arch ← known_arch i
  ok (record { mac = mac; arch = arch })

spec_of : BootAnswer → Result HttpError Spec
spec_of no_answer = err no_bootspec
spec_of no_spec = err not_netbooted
spec_of (found spec) = ok spec

-- The script for a machine, from either of the two functions.
unfoldable pub script_for : HttpSetup → Machine → Spec → Bytes → Result HttpError Bytes
unfolding ipxe_script ipxe_script_efi boot_file_namer
script_for s mach spec host =
    if is_empty spec.efi
    then wrap no_script (ipxe_script s.execute mach spec host (boot_file_namer s.booter))
    else ok (ipxe_script_efi mach spec host)

unfoldable pub ipxe_answer : HttpSetup → Request → Result HttpError (Machine × Bytes)
unfolding ipxe_machine spec_of script_for
ipxe_answer s r = do
  mach ← ipxe_machine r.query
  spec ← spec_of (s.booter.boot_spec mach)
  script ← script_for s mach spec r.host
  ok (mach, script)

ipxe_served : HttpSetup → ℕ → Result HttpError (Machine × Bytes) → Log → Response × Log
unfolding error_response
ipxe_served s now (err e) log = (error_response e, log)
ipxe_served s now (ok (mach, script)) log = (
  plain script,
  machine_event (s.key mach.mac)
      (record {
        timestamp = now;
        state = State.ipxe_script;
        message = literal "Sent iPXE boot script";
      })
      log,
)

-- handleIpxe
unfoldable pub handle_ipxe : HttpSetup → ℕ → Request → Log → Response × Log
unfolding ipxe_answer ipxe_served
handle_ipxe s now r log = ipxe_served s now (ipxe_answer s r) log

abbrev pub announced : ℤ → Option ℕ
announced (pos n) = some n
announced (negsuc n) = none

file_event : HttpSetup → ℕ → ℕ → Bytes → Option Bytes → Log → Log
file_event s now state message none log = log
file_event s now state message (some mac) log =
    machine_event (s.key mac) (record { timestamp = now; state = state; message = message }) log

-- The `switch` on the type of the file, after it has been sent whole.
sent_event : HttpSetup → ℕ → Bytes → Bytes → Log → Log
unfolding file_event
sent_event s now name query log =
    let kind = query_get (literal "type") query in
    let mac = parse_mac (query_get (literal "mac") query) in
    if equal kind (literal "kernel")
    then file_event s now State.kernel (literal "Sent kernel " ++ s.quote name) mac log
    else if equal kind (literal "initrd")
    then file_event s now State.initrd (literal "Sent initrd " ++ s.quote name) mac log
    else log

-- The copy of a file. It fails when a read fails, and when net/http refuses the body.
copied : HttpSetup → BootFile → Bytes × Bool
copied s f =
    let (sent, complete) = s.copy (announced f.size) f.contents in (sent, complete && not f.fails)

send_file : HttpSetup → ℕ → Bytes → Bytes → Option BootFile → Log → Response × Log
unfolding http_error sent_event copied
send_file s now name query none log = (http_error 500 (literal "couldn't get file"), log)
send_file s now name query (some f) log =
    let (sent, complete) = copied s f in
    (
      record { status = 200; content_length = announced f.size; body = sent },
      (if complete then sent_event s now name query log else log),
    )

-- handleFile
unfoldable pub handle_file : HttpSetup → ℕ → Request → Log → Response × Log
unfolding send_file
handle_file s now r log =
    let name = query_get (literal "name") r.query in
    if is_empty name
    then (http_error 400 (literal "missing filename"), log)
    else send_file s now name r.query (s.booter.read_boot_file name) log

-- handleBooting: ParseMAC refuses an empty text too.
unfoldable pub handle_booting : HttpSetup → ℕ → Request → Log → Response × Log
unfolding file_event
handle_booting s now r log = (
  plain (literal "# Booting"),
  file_event s now State.booted (literal "Booting into OS")
      (parse_mac (query_get (literal "mac") r.query)) log,
)

-- The mux of serveHTTP on clean paths, which http.ServeMux does not redirect.
unfoldable pub serve_http : HttpSetup → ℕ → Request → Log → Response × Log
unfolding handle_ipxe handle_file handle_booting
serve_http s now r log =
    if equal r.path (literal "/_/ipxe")
    then handle_ipxe s now r log
    else if equal r.path (literal "/_/file") || has_prefix r.path (literal "/_/file/")
    then handle_file s now r log
    else if equal r.path (literal "/_/booting")
    then handle_booting s now r log
    else (http_error 404 (literal "404 page not found"), log)
