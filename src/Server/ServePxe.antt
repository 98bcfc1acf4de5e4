-- ===== src/Server/ServePxe.antt =====
-- servePXE of server/pxe.go: the loop around the functions of Server.Pxe, packet by packet.
pub mod Answered
use netboot.Prelude.{ℕ, Bool, true, false, Option, none, some, List, [], ◌∷◌, Bytes, take}
use netboot.Prelude.Assoc.{Assoc}
use netboot.Prelude.Result.{Result, ok, err, ◌>>=◌, wrap}
use netboot.Prelude.Text.{literal}
use netboot.Dhcp4.Packet.{Packet, marshal, unmarshal}
use netboot.Dhcp4.Conn.{Destination, Interface}
use netboot.Server.Pxe.{validate_pxe, offer_pxe}
use netboot.Server.Events.{machine_event}
use netboot.Server.Events.State
use netboot.Server.Serve.{
  ServeError, not_dhcp, not_answered, unusable, no_interface, or_error, source_ip, Log, Served,
}

abbrev pub buffer_size : ℕ
buffer_size = 1024

-- What l.ReadFrom answers: a datagram with its sender and the index of its interface, or an error.
pub data Arrival : Type 0 where
  datagram : Bytes → Bytes → ℕ → ℕ → Arrival
  broken : Arrival

-- The fields of Server that the loop reads, and net.InterfaceByIndex; `key` gives the number that
-- stands for the text of a MAC address.
pub record PxeSetup : Type 0 where
  pub ipxe : Assoc Bytes
  pub interfaces : ℕ → Option Interface
  pub key : Bytes → ℕ

-- A packet that is to be answered: from which address of the server, and for which firmware.
pub record PxeRequest : Type 0 where
  pub packet : Packet
  pub server_ip : Bytes
  pub fwtype : ℕ

-- The body of the loop up to the event. What isBootDHCP says is logged and has no effect.
unfoldable pub pxe_request : PxeSetup → Bytes → ℕ → Result ServeError PxeRequest
pxe_request s b index = do
  pkt ← wrap not_dhcp (unmarshal (take buffer_size b))
  fwtype ← wrap unusable (validate_pxe s.ipxe pkt)
  intf ← or_error no_interface (s.interfaces index)
  server_ip ← source_ip intf
  ok (record { packet = pkt; server_ip = server_ip; fwtype = fwtype })

-- The rest of the body: the reply goes to the sender, on the interface that the request came from.
unfoldable pub send_pxe : Bytes → ℕ → ℕ → PxeRequest → Result ServeError (Bytes × Destination)
unfolding marshal
send_pxe ip port index r = do
  bs ← wrap not_answered (marshal (offer_pxe r.packet r.server_ip r.fwtype))
  ok (bs, record { ip = ip; port = port; interface = index })

record_pxe : PxeSetup → ℕ → Result ServeError PxeRequest → Log → Log
record_pxe s now (err e) log = log
record_pxe s now (ok r) log =
    machine_event (s.key r.packet.hardware_addr)
      (record { timestamp = now; state = State.pxe; message = literal "Sent PXE configuration" })
      log

pxe_sending : Result ServeError (Bytes × Destination) → Served → Served
pxe_sending (ok d) later = record later { sent = d ∷ later.sent }
pxe_sending (err e) later = later

-- A round at the time `now`, `later` being the rounds after it.
pxe_round : PxeSetup → ℕ → Arrival → Log → (Log → Served) → Served
unfolding pxe_request send_pxe record_pxe pxe_sending
pxe_round s now broken log later = record { sent = []; log = log; returned = true }
pxe_round s now (datagram b ip port index) log later =
    let request = pxe_request s b index in
    pxe_sending (request >>= λ r. send_pxe ip port index r) (later (record_pxe s now request log))

-- servePXE, over what arrives and when.
unfoldable pub serve_pxe : PxeSetup → List (ℕ × Arrival) → Log → Served
unfolding pxe_round
serve_pxe s [] log = record { sent = []; log = log; returned = false }
serve_pxe s ((now, a) ∷ more) log = pxe_round s now a log (λ l. serve_pxe s more l)
