-- ===== src/Server/Http.antt =====
-- server/http.go: the iPXE scripts, and the handlers that serve them and the files they name.
pub mod Handlers
use netboot.Prelude.{
  ℕ, suc, Bool, true, false, not, Option, none, some, List, [], ◌∷◌, ◌++◌, Bytes, ◌==◌,
  if◌then◌else◌,
}
use netboot.Prelude.Result.{Result, ok, err, ◌>>=◌, ◌>>◌, reject, wrap}
use netboot.Prelude.Text.{literal}
use netboot.Constants
use netboot.Net.{equal, is_empty}
use netboot.Strconv.{ℤ, pos, negsuc, format_int, parse_int}
use netboot.Url.{query_escape, path_escape, query_get}
use netboot.Utils.{CmdlineError, expand_cmdline}
use netboot.Server.Strings.{mac_string, has_prefix}
use netboot.Server.Mac.{parse_mac}
use netboot.Server.Dhcp.{Machine}
use netboot.Server.Booter.{Spec, BootAnswer, no_answer, no_spec, found, BootFile, Booter}
use netboot.Server.Events.{Event, machine_event}
use netboot.Server.Events.State
use netboot.Server.Serve.{Log}

-- What is served where: the Booter; text/template, as in Utils; the verb %q; the number that stands
-- for the text of a MAC address; and what io.Copy to the http.ResponseWriter makes of a body, with the
-- Content-Length that is set: the bytes that are sent, and whether it returns no error.
pub record HttpSetup : Type 0 where
  pub booter : Booter
  pub execute : Bytes → (Bytes → Option Bytes) → Option Bytes
  pub quote : Bytes → Bytes
  pub key : Bytes → ℕ
  pub copy : Option ℕ → Bytes → Bytes × Bool

-- bootFileNamer
unfoldable pub boot_file_namer : Booter → Bytes → Bytes
boot_file_namer booter id = elim booter.boot_file_name [ none ↦ [] | some name ↦ name id ]

-- fileURL
unfoldable pub file_url : Bytes → Bytes → Bytes → Bytes
unfolding query_escape path_escape
file_url host id name =
    if is_empty name
    then literal "http://" ++ (host ++ (literal "/_/file?name=" ++ query_escape id))
    else literal "http://"
      ++ (host
          ++ (literal "/_/file/" ++ (path_escape name ++ (literal "?name=" ++ query_escape id))))

pub data ScriptError : Type 0 where
  no_kernel : ScriptError
  bad_cmdline : CmdlineError → ScriptError

-- The query of the URLs in a script.
unfoldable pub file_query : Bytes → Bytes → Bytes → Bytes
unfolding query_escape mac_string
file_query id kind mac =
    literal "name="
    ++ (query_escape id
        ++ (literal "&type=" ++ (kind ++ (literal "&mac=" ++ query_escape (mac_string mac)))))

-- `urlTemplate`, filled in. The code makes the host a part of a format string; the host holds no %.
unfoldable pub typed_url : Bytes → Bytes → Bytes → Bytes → Bytes
unfolding file_query
typed_url host id kind mac =
    literal "http://" ++ (host ++ (literal "/_/file?" ++ file_query id kind mac))

abbrev newline : Bytes
newline = 10 ∷ []

-- The lines of the init ramdisks, from number `i` on.
initrd_lines : Bytes → Bytes → ℕ → List Bytes → Bytes
unfolding typed_url format_int
initrd_lines host mac i [] = []
initrd_lines host mac i (initrd ∷ more) =
    literal "initrd --name initrd"
    ++ (format_int i
        ++ (literal " "
            ++ (typed_url host initrd (literal "initrd") mac
                ++ (newline ++ initrd_lines host mac (suc i) more))))

-- Their names on the line that boots.
initrd_names : ℕ → List Bytes → Bytes
unfolding format_int
initrd_names i [] = []
initrd_names i (initrd ∷ more) =
    literal "initrd=initrd" ++ (format_int i ++ (literal " " ++ initrd_names (suc i) more))

-- The script in front of the command line.
script_head : Bytes → Spec → Bytes → Bytes
unfolding typed_url initrd_lines initrd_names
script_head mac spec host =
    literal "#!ipxe"
    ++ (newline
        ++ (literal "kernel --name kernel "
            ++ (typed_url host spec.kernel (literal "kernel") mac
                ++ (newline
                    ++ (initrd_lines host mac 0 spec.initrd
                        ++ (literal "imgfetch --name ready http://"
                            ++ (host
                                ++ (literal "/_/booting?mac="
                                    ++ (query_escape (mac_string mac)
                                        ++ (literal " ||"
                                            ++ (newline
                                                ++ (literal "imgfree ready ||"
                                                    ++ (newline
                                                        ++ (literal "boot kernel "
                                                            ++ initrd_names 0
                                                            spec.initrd))))))))))))))

-- ipxeScript; the function ID of the template makes URLs of files.
unfoldable pub ipxe_script :
    (Bytes → (Bytes → Option Bytes) → Option Bytes)
    → Machine
    → Spec
    → Bytes
    → (Bytes → Bytes)
    → Result ScriptError Bytes
unfolding script_head file_url
ipxe_script execute mach spec host file_name =
    if not (is_empty spec.ipxe_script) then ok spec.ipxe_script else (do
      reject (is_empty spec.kernel) no_kernel
      cmdline ←
          wrap bad_cmdline
            (expand_cmdline execute spec.cmdline (λ id. some (file_url host id (file_name id))))
      ok (script_head mach.mac spec host ++ (cmdline ++ newline)))

-- ipxeScriptEfi, which has no error. The ID of the file is not escaped.
unfoldable pub ipxe_script_efi : Machine → Spec → Bytes → Bytes
ipxe_script_efi mach spec host =
    if not (is_empty spec.ipxe_script)
    then spec.ipxe_script
    else literal "#!ipxe"
      ++ (newline
          ++ (literal "chain --autofree http://"
              ++ (host
                  ++ (literal "/_/file?name="
                      ++ (spec.efi
                          ++ (literal "&type=efi&mac="
                              ++ (query_escape (mac_string mach.mac) ++ (newline ++ newline))))))))
