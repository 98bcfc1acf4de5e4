-- ===== src/Server/ServeV6.antt =====
-- serveDHCP of server/dhcpv6.go: the loop of the DHCPv6 service, packet by packet.
pub mod Stops
pub mod Replies
use netboot.Prelude.{ℕ, Bool, true, false, Option, none, some, List, [], ◌∷◌, Bytes}
use netboot.Dhcp6.Slice.{Outcome, returned, failed, panicked, ◌>>=◌}
use netboot.Dhcp6.Options.{OptionsError}
use netboot.Dhcp6.Packet.{Packet, DiscardReason, should_discard, marshal}
use netboot.Dhcp6.Pool.{Pool}
use netboot.Dhcp6.Builder.{PacketBuilder}
use netboot.Dhcp6.Builder.Respond.{BootConfiguration, Response, build_response}
use netboot.Dhcp6.Conn.{Arrival, Round, skip, stop, crash, got, recv_round, dhcpv6_client_port}
use netboot.Dhcp6.Readable.{human_readable}
use netboot.Dhcp4.Conn.{Destination}

-- The fields of ServerV6 and Conn that the loop reads, and the two hashes of hash/fnv.
pub record SetupV6 : Type 0 where
  pub duid : Bytes
  pub boot_config : BootConfiguration
  pub builder : PacketBuilder
  pub if_index : ℕ
  pub group : Bytes
  pub hash : Bytes → Bytes → ℕ
  pub id_hash : Bytes → ℕ

-- What the surroundings do in one round: what comes in, the time, the values of the generator.
pub record TurnV6 : Type 0 where
  pub arrival : Arrival
  pub clock : ℕ → ℕ
  pub draws : List (ℕ × List ℕ)

-- What SendDHCP gets, if there is a response.
reply_to : Bytes → Option Packet → Option (Bytes × Destination)
unfolding marshal
reply_to src none = none
reply_to src (some p) =
    some (marshal p, record { ip = src; port = dhcpv6_client_port; interface = 0 })

-- BuildResponse and what follows. With an error and a response the response is sent all the same.
-- The arguments of the call of `debug` before it are computed whether or not anything is logged;
-- those of the call behind SendDHCP, on options that the builder made, are left out.
respond :
    SetupV6
    → TurnV6
    → Packet
    → Bytes
    → Pool
    → Option DiscardReason
    → Outcome OptionsError (Option (Bytes × Destination) × Pool)
unfolding reply_to
respond s t pkt src pool (some reason) = returned (none, pool)
respond s t pkt src pool none = do
  _ ← human_readable pkt.options
  r ← build_response s.hash s.id_hash s.builder s.duid s.boot_config t.clock t.draws pkt pool
  returned (reply_to src r.packet, r.pool)

-- The body of the loop for a packet.
unfoldable pub answer_v6 :
    SetupV6
    → TurnV6
    → Packet
    → Bytes
    → Pool
    → Outcome OptionsError (Option (Bytes × Destination) × Pool)
unfolding respond
answer_v6 s t pkt src pool = do
  discard ← should_discard pkt s.duid
  respond s t pkt src pool discard

-- How the run of the loop stands at the end of the turns: it waits, it has returned an error, or a
-- panic has ended the program.
pub data Ending : Type 0 where
  waits returns_error panics : Ending

pub record ServedV6 : Type 0 where
  pub sent : List (Bytes × Destination)
  pub pool : Pool
  pub ending : Ending

add_sent : Option (Bytes × Destination) → ServedV6 → ServedV6
add_sent none later = later
add_sent (some d) later = record later { sent = d ∷ later.sent }

-- An error without a response leaves the pool as it was.
go_on :
    Outcome OptionsError (Option (Bytes × Destination) × Pool) → Pool → (Pool → ServedV6) → ServedV6
unfolding add_sent
go_on (returned (d, pool')) pool later = add_sent d (later pool')
go_on (failed e) pool later = later pool
go_on panicked pool later = record { sent = []; pool = pool; ending = panics }

serve_round : SetupV6 → TurnV6 → Round → Pool → (Pool → ServedV6) → ServedV6
unfolding go_on
serve_round s t skip pool later = later pool
serve_round s t stop pool later = record { sent = []; pool = pool; ending = returns_error }
serve_round s t crash pool later = record { sent = []; pool = pool; ending = panics }
serve_round s t (got pkt src) pool later = go_on (answer_v6 s t pkt src pool) pool later

-- serveDHCP. Its loop and the loop of RecvDHCP inside are one here.
unfoldable pub serve_dhcpv6 : SetupV6 → List TurnV6 → Pool → ServedV6
unfolding serve_round
serve_dhcpv6 s [] pool = record { sent = []; pool = pool; ending = waits }
serve_dhcpv6 s (t ∷ ts) pool =
    serve_round s t (recv_round s.if_index s.group t.arrival) pool (λ p. serve_dhcpv6 s ts p)
