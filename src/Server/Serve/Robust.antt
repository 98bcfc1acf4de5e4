-- ===== src/Server/Serve/Robust.antt =====
-- What packets can do to serveDHCP: which of them stop it, and that none fills its log.
use netboot.Prelude.{
  ℕ, ◌≤◌, ◌≡◌, ◌≢◌, refl, sym, ap, ◌∙◌, false, some, List, [], ◌∷◌, Bytes, length, All, ◌⊎◌, inl,
  inr, arith, Bool, true, map, drop, ltb, if_ind, ◌||◌,
}
use mathlib.Core.Path.{subst}
use netboot.Prelude.Result.{Result, ok, err}
use netboot.Dhcp4.Packet.{Packet, PacketError, unmarshal}
use netboot.Dhcp4.Conn.Raw.{received, received_lem}
use netboot.Dhcp4.Conn.{
  Incoming, broken, Destination, Interface, Round, frame, skip, stop, got, recv_round,
}
use netboot.Dhcp4.Conn.Reads.{recv_round-skip, recv_round-ok, recv_round-ne-stop}
use netboot.Server.Dhcp.{Machine, DhcpError, is_boot_dhcp}
use netboot.Server.Events.{
  Event, events_of, machine_event, machine_event_lem, saved_events_per_machine,
}
use netboot.Server.Serve.{
  ServeError, not_boot, unusable, no_boot_spec, not_netbooted, boot_request, answer_dhcp, Setup,
  Turn, Served, Log, sending, serve_round, record_request, serve_dhcp,
}

-- Every machine has at most ten events.
abbrev pub IsShort : Log → Type 0
IsShort log = (k : ℕ) → length (events_of k log) ≤ saved_events_per_machine

event-IsShort : (k : ℕ) (e : Event) (log : Log) → IsShort log → IsShort (machine_event k e log)
event-IsShort k e log h j =
    let (at, elsewhere) = machine_event_lem k e log in
    elim (elsewhere j) [
      | inl same ↦
          subst (λ n. length (events_of n (machine_event k e log)) ≤ saved_events_per_machine)
            (sym same) at.0
      | inr other ↦ omega (arith, h j, ap (λ es. length es) other)
    ]

record_request-IsShort :
    (key now : ℕ) (r : Result ServeError (Machine × ℕ)) (log : Log)
    → IsShort log
    → IsShort (record_request key now r log)
unfolding record_request
record_request-IsShort key now (ok (mach, fwtype)) log h = event-IsShort key _ log h
record_request-IsShort key now (err not_netbooted) log h = event-IsShort key _ log h
record_request-IsShort key now (err (ServeError.not_dhcp e)) log h = h
record_request-IsShort key now (err (ServeError.not_answered e)) log h = h
record_request-IsShort key now (err (not_boot e)) log h = h
record_request-IsShort key now (err (unusable e)) log h = h
record_request-IsShort key now (err (ServeError.no_offer e)) log h = h
record_request-IsShort key now (err no_boot_spec) log h = h
record_request-IsShort key now (err ServeError.no_interface) log h = h
record_request-IsShort key now (err ServeError.no_addresses) log h = h
record_request-IsShort key now (err ServeError.no_usable_address) log h = h

sending-log :
    (r : Result ServeError (Bytes × Destination)) (later : Served)
    → ((sending r later).log ≡ later.log) × ((sending r later).returned ≡ later.returned)
unfolding sending
sending-log (ok d) later = (refl, refl)
sending-log (err e) later = (refl, refl)

module _ (s : Setup) where
  -- However many packets come in, the log keeps at most ten events of every machine.
  pub serve_dhcp-IsShort :
      (ts : List Turn) (log : Log) → IsShort log → IsShort (serve_dhcp s ts log).log
  unfolding serve_dhcp serve_round
  serve_dhcp-IsShort [] log h = h
  serve_dhcp-IsShort (t ∷ ts) log h =
      go (recv_round s.if_index s.interfaces t.incoming) (λ l. serve_dhcp s ts l)
        (λ l k. serve_dhcp-IsShort ts l k)
    where
      go :
          (r : Round) (later : Log → Served)
          → ((l : Log) → IsShort l → IsShort (later l).log)
          → IsShort (serve_round s t r log later).log
      go skip later more = more log h
      go stop later more = h
      go (got pkt intf) later more =
          let key = s.key pkt.hardware_addr in
          let request = boot_request t.boot_spec pkt in
          let new = record_request key t.now request log in
          subst IsShort
            (sym (sending-log (answer_dhcp s.http_port t.boot_spec pkt intf) (later new)).0)
            (more new (record_request-IsShort key t.now request log h))

  -- A round that ends no call returns what the rest of the loop returns.
  serve_round-returned :
      (t : Turn) (r : Round) (log : Log) (later : Log → Served) (b : Bool)
      → r ≢ stop
      → ((l : Log) → (later l).returned ≡ b)
      → (serve_round s t r log later).returned ≡ b
  unfolding serve_round
  serve_round-returned t skip log later b ne more = more log
  serve_round-returned t stop log later b ne more = absurd (ne refl)
  serve_round-returned t (got pkt intf) log later b ne more =
      let new = record_request (s.key pkt.hardware_addr) t.now (boot_request t.boot_spec pkt) log in
      (sending-log (answer_dhcp s.http_port t.boot_spec pkt intf) (later new)).1 ∙ more new

  -- A packet on the wire: the interface it comes in on, the payload of its IP packet, and the turn.
  abbrev pub on_wire : ℕ × Bytes × Turn → Turn
  on_wire (i, p, t) = record t { incoming = received i p }

  -- Some payload is shorter than a UDP header.
  abbrev pub any_short : List (ℕ × Bytes × Turn) → Bool
  any_short [] = false
  any_short ((i, p, t) ∷ ps) = ltb (length p) 8 || any_short ps

  -- For packets on interfaces that are known, read through the Linux socket: the loop returns if and
  -- only if the payload of one of them is shorter than a UDP header, whatever the others hold.
  pub serve_dhcp-on_wire :
      (ps : List (ℕ × Bytes × Turn)) (log : Log)
      → All (λ q. (intf : Interface) × (s.interfaces q.0 ≡ some intf)) ps
      → (serve_dhcp s (map on_wire ps) log).returned ≡ any_short ps
  unfolding serve_dhcp
  serve_dhcp-on_wire [] log h = refl
  serve_dhcp-on_wire ((i, p, t) ∷ ps) log ((intf, known), hs) = subst P (sym (received_lem i p)) (
      if_ind P (ltb (length p) 8) broken (frame (drop 8 p) i) stopped λ long.
        serve_round-returned (on_wire (i, p, t)) _ log (λ l. serve_dhcp s (map on_wire ps) l) _
          (recv_round-ne-stop s.if_index s.interfaces (drop 8 p) i intf known)
          (λ l. serve_dhcp-on_wire ps l hs ∙ rw long refl))
    where
      P : Incoming → Type 0
      P inc =
          (serve_round s (on_wire (i, p, t)) (recv_round s.if_index s.interfaces inc) log
            (λ l. serve_dhcp s (map on_wire ps) l)).returned
          ≡ (ltb (length p) 8 || any_short ps)

      stopped : ltb (length p) 8 ≡ true → P broken
      stopped short = unfold recv_round serve_round in rw short refl

  -- What comes in and is no boot request: not a DHCP packet, no discover, or no PXE client.
  abbrev pub IsForeign : Turn → Type 0
  IsForeign t =
      (b : Bytes) × (i : ℕ) × (intf : Interface) × (t.incoming ≡ frame b i)
      × (s.interfaces i ≡ some intf)
      × (((e : PacketError) × (unmarshal b ≡ err e))
          ⊎ ((pkt : Packet) × (e : DhcpError) × (unmarshal b ≡ ok pkt)
              × (is_boot_dhcp pkt ≡ err e)))

  -- A frame that is no boot request leaves no trace: the loop goes on as if it had not come in.
  pub serve_dhcp-IsForeign :
      (t : Turn) (ts : List Turn) (log : Log)
      → IsForeign t
      → serve_dhcp s (t ∷ ts) log ≡ serve_dhcp s ts log
  unfolding serve_dhcp serve_round
  serve_dhcp-IsForeign t ts log (b, i, intf, is_frame, known, inl (e, bad)) =
      rw (is_frame, recv_round-skip s.if_index s.interfaces b i e bad)
  serve_dhcp-IsForeign t ts log (b, i, intf, is_frame, known, inr (pkt, e, read, refusal)) =
      go (recv_round s.if_index s.interfaces t.incoming)
        (rw is_frame (recv_round-ok s.if_index s.interfaces b i intf pkt known read))
    where
      refused : answer_dhcp s.http_port t.boot_spec pkt intf ≡ err (not_boot e)
      refused = unfold answer_dhcp boot_request in rw refusal

      silent : boot_request t.boot_spec pkt ≡ err (not_boot e)
      silent = unfold boot_request in rw refusal

      go :
          (r : Round)
          → (r ≡ skip) ⊎ (r ≡ got pkt intf)
          → serve_round s t r log (λ l. serve_dhcp s ts l) ≡ serve_dhcp s ts log
      go r (inl x) = rw x
      go r (inr x) = rw (x, refused, silent) (unfold sending record_request in refl)
