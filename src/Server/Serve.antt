-- ===== src/Server/Serve.antt =====
-- serveDHCP of server/dhcp.go the loop around the functions of Server.Dhcp, packet
-- by packet.
pub mod Answered
pub mod Inverse
pub mod Sequence
pub mod Robust
use netboot.Prelude.{
  ℕ, Bool, true, false, Option, none, some, List, [], ◌∷◌, Bytes, ◌==◌, if◌then◌else◌,
}
use netboot.Prelude.Assoc.{Assoc}
use netboot.Prelude.Result.{Result, ok, err, ◌>>=◌, ◌>>◌, wrap}
use netboot.Prelude.Text.{literal}
use netboot.Constants
use netboot.Dhcp4.Packet.{Packet, PacketError, marshal, unmarshal}
use netboot.Dhcp4.Conn.{
  Destination, Interface, Incoming, Round, skip, stop, got, recv_round, send_dhcp,
}
use netboot.Server.Booter.{BootAnswer, no_answer, no_spec, found}
use netboot.Server.Dhcp.{Machine, DhcpError, is_boot_dhcp, validate_dhcp, offer_dhcp}
use netboot.Server.Interface.{interface_ip}
use netboot.Server.Events.{Event, machine_event}
use netboot.Server.Events.State

-- Why a packet gets no answer.
pub data ServeError : Type 0 where
  not_dhcp not_answered : PacketError → ServeError
  not_boot unusable no_offer : DhcpError → ServeError
  no_boot_spec not_netbooted no_interface no_addresses no_usable_address : ServeError

-- `if err != nil … if spec == nil …` after BootSpec.
unfoldable pub known_spec : BootAnswer → Result ServeError (Unit {0})
known_spec no_answer = err no_boot_spec
known_spec no_spec = err not_netbooted
known_spec (found s) = ok tt

-- The body of the loop up to the offer: the machine that is to be booted, and its firmware.
unfoldable pub boot_request : (Machine → BootAnswer) → Packet → Result ServeError (Machine × ℕ)
unfolding known_spec
boot_request boot_spec pkt = do
  wrap not_boot (is_boot_dhcp pkt)
  (mach, fwtype) ← wrap unusable (validate_dhcp pkt)
  known_spec (boot_spec mach)
  ok (mach, fwtype)

unfoldable pub or_error : {A : Type 0} → ServeError → Option A → Result ServeError A
or_error e none = err e
or_error e (some a) = ok a

-- interfaceIP, from the Addrs of the interface on.
unfoldable pub source_ip : Interface → Result ServeError Bytes
unfolding or_error
source_ip intf = do
  addrs ← or_error no_addresses intf.addresses
  or_error no_usable_address (interface_ip addrs)

-- The body of the loop from the offer on: the datagram for conn.Send.
unfoldable pub send_offer :
    ℕ → Packet → Interface → Machine × ℕ → Result ServeError (Bytes × Destination)
unfolding source_ip
send_offer http_port pkt intf (mach, fwtype) = do
  server_ip ← source_ip intf
  resp ← wrap no_offer (offer_dhcp http_port pkt mach server_ip fwtype)
  wrap not_answered (send_dhcp resp intf.index)

-- The answer to a packet. Whether the network takes it changes only the log.
unfoldable pub answer_dhcp :
    ℕ → (Machine → BootAnswer) → Packet → Interface → Result ServeError (Bytes × Destination)
unfolding boot_request send_offer
answer_dhcp http_port boot_spec pkt intf = do
  request ← boot_request boot_spec pkt
  send_offer http_port pkt intf request

abbrev pub Log : Type 0
Log = Assoc (List Event)

-- The event of an offer, by the firmware.
offered_event : ℕ → ℕ → Event
offered_event now fwtype =
    if fwtype == Constants.firmware_pixiecore_ipxe
    then record {
      timestamp = now;
      state = State.proxy_dhcp_ipxe;
      message = literal "Offering to boot iPXE";
    }
    else record { timestamp = now; state = State.proxy_dhcp; message = literal "Offering to boot" }

-- The events of the body of the loop.
pub record_request : ℕ → ℕ → Result ServeError (Machine × ℕ) → Log → Log
unfolding offered_event
record_request key now (ok (mach, fwtype)) log = machine_event key (offered_event now fwtype) log
record_request key now (err not_netbooted) log =
    machine_event key
      (record {
        timestamp = now;
        state = State.ignored;
        message = literal "Machine should not netboot";
      })
      log
record_request key now (err _) log = log

-- What the surroundings do in one round: the frame that comes in, the booter's answers, the time.
pub record Turn : Type 0 where
  pub incoming : Incoming
  pub boot_spec : Machine → BootAnswer
  pub now : ℕ

-- The fields of Server and Conn that the loop reads. `interfaces` is net.InterfaceByIndex, `none`
-- for an error, and `key` gives the number that stands for the text of a MAC address.
pub record Setup : Type 0 where
  pub http_port : ℕ
  pub if_index : ℕ
  pub interfaces : ℕ → Option Interface
  pub key : Bytes → ℕ

-- What the loop has done: the datagrams in their order, the log of the events, and whether it has
-- returned with an error.
pub record Served : Type 0 where
  pub sent : List (Bytes × Destination)
  pub log : Log
  pub returned : Bool

sending : Result ServeError (Bytes × Destination) → Served → Served
sending (ok d) later = record later { sent = d ∷ later.sent }
sending (err e) later = later

-- A round, `later` being the rounds after it.
serve_round : Setup → Turn → Round → Log → (Log → Served) → Served
unfolding sending record_request
serve_round s t skip log later = later log
serve_round s t stop log later = record { sent = []; log = log; returned = true }
serve_round s t (got pkt intf) log later =
    sending (answer_dhcp s.http_port t.boot_spec pkt intf)
      (later (record_request (s.key pkt.hardware_addr) t.now (boot_request t.boot_spec pkt) log))

-- serveDHCP. Its loop and the loop of RecvDHCP inside are one here: a frame that RecvDHCP passes
-- over is a round without effect. At the end of the turns the loop is waiting.
unfoldable pub serve_dhcp : Setup → List Turn → Log → Served
unfolding serve_round
serve_dhcp s [] log = record { sent = []; log = log; returned = false }
serve_dhcp s (t ∷ ts) log =
    serve_round s t (recv_round s.if_index s.interfaces t.incoming) log (λ l. serve_dhcp s ts l)
