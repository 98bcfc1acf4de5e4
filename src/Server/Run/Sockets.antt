-- ===== src/Server/Run/Sockets.antt =====
-- Serve closes what it opened.
use netboot.Prelude.{
  ◌≡◌, refl, Bool, true, false, Option, none, some, List, [], ◌∷◌, Bytes, first_some,
}
use netboot.Server.Run.{
  Config, Socket, dhcp_bound, dhcp_snooper, tftp, pxe, http, Action, opened, refused, closed,
  with_defaults, next_socket, waited, dhcp_socket, serve,
}

abbrev pub same_socket : Socket → Socket → Bool
same_socket dhcp_bound dhcp_bound = true
same_socket dhcp_snooper dhcp_snooper = true
same_socket tftp tftp = true
same_socket pxe pxe = true
same_socket http http = true
same_socket _ _ = false

abbrev pub remove_socket : Socket → List Socket → List Socket
remove_socket s [] = []
remove_socket s (t ∷ ts) = elim (same_socket s t) [ true ↦ ts | false ↦ t ∷ remove_socket s ts ]

-- The sockets that are open after the actions, those of `held` before them.
abbrev pub still_open : List Socket → List Action → List Socket
still_open held [] = held
still_open held (opened s text ∷ actions) = still_open (s ∷ held) actions
still_open held (refused s text ∷ actions) = still_open held actions
still_open held (closed s ∷ actions) = still_open (remove_socket s held) actions

-- The error of the first socket that cannot be opened.
abbrev pub first_failure : (Socket → Option Bytes) → Socket → Option Bytes
first_failure fails d =
    first_some (fails d) (first_some (fails tftp) (first_some (fails pxe) (fails http)))

-- What Serve returns: the error of a socket, or else what comes out of the channel, if anything.
abbrev pub outcome : Option Bytes → Option (Option Bytes) → Option (Option Bytes)
outcome (some e) first = some (some e)
outcome none first = first

-- The sockets that are to be open: all of them as long as Serve runs, none after it.
abbrev pub to_be_open : Socket → Option (Option Bytes) → List Socket
to_be_open d none = http ∷ pxe ∷ tftp ∷ d ∷ []
to_be_open d (some r) = []

-- Serve returns what it is to return, and has the sockets open that are to be open then.
abbrev pub Balanced :
    Socket → Option Bytes → Option (Option Bytes) → List Action × Option (Option Bytes) → Type 0
Balanced d failure first r = (r.1 ≡ outcome failure first) × (still_open [] r.0 ≡ to_be_open d r.1)

balanced :
    (a b c e : Bytes) (no_bind : Bool) (fd ft fp fh : Option Bytes) (first : Option (Option Bytes))
    → let d = dhcp_socket no_bind in
      Balanced d (first_some fd (first_some ft (first_some fp fh))) first (
        next_socket fd d a [] (
          next_socket ft tftp b (closed d ∷ []) (
            next_socket fp pxe c
              (closed d ∷ closed tftp ∷ [])
              (next_socket fh http e (closed d ∷ closed tftp ∷ closed pxe ∷ []) (waited d first)))))
unfolding next_socket waited dhcp_socket
balanced a b c e true (some x) ft fp fh first = (refl, refl)
balanced a b c e true none (some x) fp fh first = (refl, refl)
balanced a b c e true none none (some x) fh first = (refl, refl)
balanced a b c e true none none none (some x) first = (refl, refl)
balanced a b c e true none none none none none = (refl, refl)
balanced a b c e true none none none none (some r) = (refl, refl)
balanced a b c e false (some x) ft fp fh first = (refl, refl)
balanced a b c e false none (some x) fp fh first = (refl, refl)
balanced a b c e false none none (some x) fh first = (refl, refl)
balanced a b c e false none none none (some x) first = (refl, refl)
balanced a b c e false none none none none none = (refl, refl)
balanced a b c e false none none none none (some r) = (refl, refl)

-- Serve returns the error of the first of its sockets that cannot be opened, the DHCP socket, TFTP, PXE
-- and HTTP in this order, or else the first value of its channel, if there is one. When it returns, each
-- socket that it has opened is closed; as long as it runs, all four are open.
pub serve-Balanced :
    (fails : Socket → Option Bytes) (config : Config) (first : Option (Option Bytes))
    → let d = dhcp_socket config.dhcp_no_bind in
      Balanced d (first_failure fails d) first (serve fails config first)
unfolding serve with_defaults
serve-Balanced fails config first =
    balanced _ _ _ _ config.dhcp_no_bind (fails (dhcp_socket config.dhcp_no_bind)) (fails tftp)
      (fails pxe) (fails http) first
