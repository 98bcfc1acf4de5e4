-- ===== src/Server/Http/Handlers/Scripts.antt =====
-- The URL of an offer leads to the script of the machine that it was made for.
use netboot.Prelude.{
  ℕ, ◌<◌, ◌≡◌, refl, sym, ap, false, some, [], ◌∷◌, ◌++◌, append_assoc, Bytes, length, All, arith,
}
use netboot.Prelude.Result.{ok}
use netboot.Prelude.Text.{literal}
use netboot.Net.{equal, is_empty}
use netboot.Strconv.{ℤ, pos, format_int, parse_int}
use netboot.Strconv.RoundTrip.{format_int-IsDigit, parse_int-format_int}
use netboot.Url.{query_get}
use netboot.Url.Values.{itself-IsValueOf, mac_string-IsItself, digits-IsItself}
use netboot.Url.Query.{Field, query_get-joined}
use netboot.Server.Strings.{mac_string, ip_string}
use netboot.Server.Mac.{parse_mac}
use netboot.Server.Mac.RoundTrip.{parse_mac-mac_string}
use netboot.Server.Dhcp.{Machine, ipxe_url}
use netboot.Server.Booter.{Spec, found}
use netboot.Server.Events.{machine_event}
use netboot.Server.Events.State
use netboot.Server.Serve.{Log}
use netboot.Server.Http.{HttpSetup}
use netboot.Server.Http.Handlers.{
  or_http, known_arch, ipxe_machine, spec_of, script_for, ipxe_answer, ipxe_served, handle_ipxe,
  plain,
}

parse_mac-nonempty : (s mac : Bytes) → parse_mac s ≡ some mac → is_empty s ≡ false
parse_mac-nonempty [] mac h = absurd (unfold parse_mac in cc)
parse_mac-nonempty (c ∷ s) mac h = refl

parse_int-nonempty : (s : Bytes) (i : ℤ) → parse_int s ≡ some i → is_empty s ≡ false
parse_int-nonempty [] i h = absurd (unfold parse_int in cc)
parse_int-nonempty (c ∷ s) i h = refl

known_arch_lem : (n : ℕ) → n < 3 → known_arch (pos n) ≡ ok n
unfolding known_arch
known_arch_lem n h = ground arith

-- The query of the URL that a client gets that already runs the server's iPXE.
abbrev ipxe_query : Machine → Bytes
ipxe_query mach =
    literal "arch=" ++ (format_int mach.arch ++ (literal "&mac=" ++ mac_string mach.mac))

module _ (mach : Machine) (six : length mach.mac ≡ 6)
    (mac_bytes : All (λ c. c < 256) mach.mac) where
  abbrev arch_field : Field
  arch_field = record {
    key = literal "arch";
    value = format_int mach.arch;
    text = format_int mach.arch;
    keyed = refl;
    valued =
        itself-IsValueOf (format_int mach.arch)
          (digits-IsItself (format_int mach.arch) (format_int-IsDigit mach.arch));
  }

  abbrev plain_mac_field : Field
  plain_mac_field = record {
    key = literal "mac";
    value = mac_string mach.mac;
    text = mac_string mach.mac;
    keyed = refl;
    valued = itself-IsValueOf (mac_string mach.mac) (mac_string-IsItself mach.mac mac_bytes);
  }

  ipxe_query_read :
      (query_get (literal "arch") (ipxe_query mach) ≡ format_int mach.arch)
      × (query_get (literal "mac") (ipxe_query mach) ≡ mac_string mach.mac)
  unfolding equal
  ipxe_query_read = (
    query_get-joined (literal "arch") arch_field (plain_mac_field ∷ []),
    query_get-joined (literal "mac") arch_field (plain_mac_field ∷ []),
  )

  -- The machine that is read in the query is the machine that the URL was made for.
  ipxe_machine-ipxe_query : mach.arch < 3 → ipxe_machine (ipxe_query mach) ≡ ok mach
  unfolding ipxe_machine or_http
  ipxe_machine-ipxe_query small =
      let (arch, mac) = ipxe_query_read in
      let parsed_mac = parse_mac-mac_string mach.mac six mac_bytes in
      let parsed_arch = parse_int-format_int mach.arch (omega arith) in
      rw (
        mac,
        parse_mac-nonempty (mac_string mach.mac) mach.mac parsed_mac,
        arch,
        parse_int-nonempty (format_int mach.arch) (pos mach.arch) parsed_arch,
        parsed_mac,
        parsed_arch,
        known_arch_lem mach.arch small,
      )

-- The URL that an offer names for the server's own iPXE leads to the script of the machine that the
-- offer was made to: the handler finds the same machine in it, asks the booter about that machine,
-- sends the script for the spec it gets, and notes it in the log of that machine.
pub handle_ipxe-ipxe_url :
    (s : HttpSetup) (now http_port : ℕ) (server_ip path : Bytes) (mach : Machine) (spec : Spec)
    (script : Bytes) (log : Log)
    → length mach.mac ≡ 6
    → All (λ c. c < 256) mach.mac
    → mach.arch < 3
    → s.booter.boot_spec mach ≡ found spec
    → script_for s mach spec (ip_string server_ip ++ (b':' ∷ format_int http_port)) ≡ ok script
    → (query : Bytes) × (ipxe_url server_ip http_port mach
        ≡ literal "http://"
          ++ ((ip_string server_ip ++ (b':' ∷ format_int http_port))
              ++ (literal "/_/ipxe?" ++ query)))
      × (handle_ipxe s now
            (record {
              host = ip_string server_ip ++ (b':' ∷ format_int http_port);
              path = path;
              query = query;
            })
            log
          ≡ (
            plain script,
            machine_event
                (s.key mach.mac)
                (record {
                  timestamp = now;
                  state = State.ipxe_script;
                  message = literal "Sent iPXE boot script";
                })
                log,
          ))
unfolding ipxe_url handle_ipxe ipxe_answer spec_of ipxe_served
handle_ipxe-ipxe_url s now http_port server_ip path mach spec script log six mac_bytes small there
      made =
    let host = ip_string server_ip ++ (b':' ∷ format_int http_port) in
    (
      ipxe_query mach,
      ap (λ t. literal "http://" ++ t)
          (sym (
            append_assoc (ip_string server_ip) (b':' ∷ format_int http_port)
              (literal "/_/ipxe?" ++ ipxe_query mach))),
      rw (ipxe_machine-ipxe_query mach six mac_bytes small, there, made),
    )
