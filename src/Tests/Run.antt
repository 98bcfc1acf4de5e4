-- ===== src/Tests/Run.antt =====
-- Runs for the start and the end of the servers.
use netboot.Prelude.{◌≡◌, refl, false, Option, some, none, List, [], ◌∷◌, Bytes, ◌⊎◌, arith}
use netboot.Prelude.Text.{literal}
use netboot.Server.Run.{Config, Socket, tftp, dhcp_socket, serve}
use netboot.Server.Run.Sockets.{Balanced, first_failure, serve-Balanced}
use netboot.Server.Run.Channel.{
  State, dhcp_service, pxe_service, tftp_service, http_service, start, Event, ends, shutdown, takes,
  run, step, without,
}
use netboot.Server.Run.Channel.Sends.{run-ends, run-takes}

abbrev config : Config
config = record {
  address = [];
  dhcp_port = 0;
  tftp_port = 0;
  pxe_port = 0;
  http_port = 8080;
  dhcp_no_bind = false;
}

-- The port of TFTP is in use.
abbrev busy : Socket → Option Bytes
busy tftp = some (literal "address already in use")
busy _ = none

serve-Balanced_example :
    Balanced
      (dhcp_socket false)
      (first_failure busy (dhcp_socket false))
      none
      (serve busy config none)
serve-Balanced_example = serve-Balanced busy config none

-- The PXE service fails, and Shutdown comes too late.
abbrev events : List Event
events = ends pxe_service (some (literal "broken")) ∷ shutdown ∷ []

abbrev state : State
state = record {
  queue = some (literal "broken") ∷ none ∷ [];
  running = dhcp_service ∷ tftp_service ∷ http_service ∷ [];
  taken = none;
}

events-run : run events start ≡ some state
unfolding run
events-run = refl

http_left : without http_service state.running ≡ some (dhcp_service ∷ tftp_service ∷ [])
unfolding without
http_left = refl

run-ends_example :
    step (ends http_service none) state
    ≡ some (record state {
      queue = some (literal "broken") ∷ none ∷ none ∷ [];
      running = dhcp_service ∷ tftp_service ∷ [];
    })
run-ends_example =
    run-ends events state http_service none (dhcp_service ∷ tftp_service ∷ []) events-run
      (omega arith) http_left

run-takes_example :
    (state.taken ≡ some (some (literal "broken")))
    ⊎ ((st' : State) × (step takes state ≡ some st') × (st'.taken ≡ some (some (literal "broken"))))
run-takes_example = run-takes events state (some (literal "broken")) events-run refl

-- Three calls of Shutdown can leave the last service waiting for room.
crowded :
    run
      (ends dhcp_service none
        ∷ ends pxe_service none
        ∷ ends tftp_service none
        ∷ shutdown
        ∷ shutdown
        ∷ shutdown
        ∷ ends http_service none
        ∷ [])
      start
    ≡ none
unfolding run
crowded = refl
