-- ===== src/Server/Run/Channel.antt =====
-- The channel errs of server/server.go: the services and Shutdown send, and Serve takes one value.
pub mod Sends
use netboot.Prelude.{
  ℕ, zero, suc, ◌+◌, ◌≤◌, ◌<◌, ◌≡◌, refl, ◌∙◌, Bool, true, false, ◌&&◌, not, Option, none, some,
  List, [], ◌∷◌, ◌++◌, Bytes, length, length-append, ltb, if◌then◌else◌, first_some, arith,
}

-- The goroutines that Serve starts.
pub data Service : Type 0 where
  dhcp_service pxe_service tftp_service http_service : Service

abbrev pub capacity : ℕ
capacity = 6

-- What is in the channel, which services have not sent yet, and what Serve has taken.
pub record State : Type 0 where
  pub queue : List (Option Bytes)
  pub running : List Service
  pub taken : Option (Option Bytes)

-- The state when Serve has started the services.
abbrev pub start : State
start = record {
  queue = [];
  running = dhcp_service ∷ pxe_service ∷ tftp_service ∷ http_service ∷ [];
  taken = none;
}

pub data Event : Type 0 where
  ends : Service → Option Bytes → Event
  shutdown takes : Event

same_service : Service → Service → Bool
same_service dhcp_service dhcp_service = true
same_service pxe_service pxe_service = true
same_service tftp_service tftp_service = true
same_service http_service http_service = true
same_service _ _ = false

-- The services without one of them; `none` if it has sent already.
unfoldable pub without : Service → List Service → Option (List Service)
unfolding same_service
without s [] = none
without s (t ∷ ts) =
    let more = without s ts in
    if same_service s t then some ts else elim more [ none ↦ none | some us ↦ some (t ∷ us) ]

-- A send into the channel is possible.
abbrev pub has_room : State → Bool
has_room st = ltb (length st.queue) capacity

sent_by : State → Option Bytes → Option (List Service) → Option State
sent_by st e none = none
sent_by st e (some others) = some (record st { queue = st.queue ++ (e ∷ []); running = others })

taken_from : State → Option (Option Bytes) → List (Option Bytes) → Option State
taken_from st (some e) queue = none
taken_from st none [] = none
taken_from st none (e ∷ queue) = some (record st { queue = queue; taken = some e })

-- One event; `none` where the goroutine cannot go on: a send waits for room, the receive for a value.
-- Shutdown never waits: it sends nil, or passes over a full channel.
unfoldable pub step : Event → State → Option State
unfolding without sent_by taken_from
step (ends s e) st = if has_room st then sent_by st e (without s st.running) else none
step shutdown st = some (if has_room st then record st { queue = st.queue ++ (none ∷ []) } else st)
step takes st = taken_from st st.taken st.queue

after : (State → Option State) → Option State → Option State
after next none = none
after next (some st) = next st

unfoldable pub run : List Event → State → Option State
unfolding step after
run [] st = some st
run (e ∷ es) st = after (run es) (step e st)
