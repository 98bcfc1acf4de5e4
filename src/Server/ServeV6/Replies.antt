-- ===== src/Server/ServeV6/Replies.antt =====
-- Everything that the DHCPv6 service sends answers a packet that came in.
use netboot.Prelude.{◌≡◌, refl, ap, Option, none, some, List, [], ◌∷◌, ◌++◌, Bytes, All}
use mathlib.Core.Path.{subst}
use netboot.Dhcp6.Slice.{Outcome, returned, failed, panicked, bind-returned}
use netboot.Dhcp6.Options.{OptionsError}
use netboot.Dhcp6.Packet.{Packet, DiscardReason, should_discard, marshal}
use netboot.Dhcp6.Pool.{Pool}
use netboot.Dhcp6.Builder.Identifiers.{returned-injective}
use netboot.Dhcp6.Builder.Messages.{Carries}
use netboot.Dhcp6.Builder.Respond.{Response, client_id_of, build_response}
use netboot.Dhcp6.Builder.Respond.Replies.{reply_type, build_response-Carries}
use netboot.Dhcp6.Conn.{Round, skip, stop, crash, got, recv_round, dhcpv6_client_port}
use netboot.Dhcp6.Readable.{human_readable}
use netboot.Dhcp4.Conn.{Destination}
use netboot.Server.ServeV6.{
  SetupV6, TurnV6, ServedV6, reply_to, respond, answer_v6, add_sent, go_on, serve_round,
  serve_dhcpv6,
}

-- The datagram answers the packet of one of the turns, which was not discarded: it goes to the sender
-- of the packet, to the port of clients, and is a marshalled answer to the packet.
pub record IsAnswer (s : SetupV6) (ts : List TurnV6) (d : Bytes × Destination) : Type 0 where
  pub before : List TurnV6
  pub turn : TurnV6
  pub after : List TurnV6
  pub among : ts ≡ before ++ (turn ∷ after)
  pub packet : Packet
  pub sender : Bytes
  pub received : recv_round s.if_index s.group turn.arrival ≡ got packet sender
  pub accepted : should_discard packet s.duid ≡ returned none
  pub reply : Packet
  pub answers :
      Carries packet.transaction_id s.duid
        (client_id_of packet.options).visible
        (reply_type packet.type)
        reply
  pub to_sender :
      d ≡ (marshal reply, record { ip = sender; port = dhcpv6_client_port; interface = 0 })

module _ (s : SetupV6) where
  -- An answer to a turn stays one when other turns come before it.
  later-IsAnswer :
      (t : TurnV6) (ts : List TurnV6) (d : Bytes × Destination)
      → IsAnswer s ts d
      → IsAnswer s (t ∷ ts) d
  later-IsAnswer t ts d a = record {
    before = t ∷ a.before;
    turn = a.turn;
    after = a.after;
    among = ap (λ l. t ∷ l) a.among;
    packet = a.packet;
    sender = a.sender;
    received = a.received;
    accepted = a.accepted;
    reply = a.reply;
    answers = a.answers;
    to_sender = a.to_sender;
  }

  later-All :
      (t : TurnV6) (ts : List TurnV6) (ds : List (Bytes × Destination))
      → All (IsAnswer s ts) ds
      → All (IsAnswer s (t ∷ ts)) ds
  later-All t ts [] h = tt
  later-All t ts (d ∷ ds) (h, hs) = (later-IsAnswer t ts d h, later-All t ts ds hs)

  module _ (t : TurnV6) (ts : List TurnV6) (pkt : Packet) (src : Bytes) (pool : Pool)
      (came : recv_round s.if_index s.group t.arrival ≡ got pkt src) where
    -- What a round sends is such an answer.
    IsSent : Option (Bytes × Destination) → Type 0
    IsSent none = Unit
    IsSent (some d) = IsAnswer s (t ∷ ts) d

    reply_to-IsSent :
        (r : Response) (reply : Option Packet)
        → should_discard pkt s.duid ≡ returned none
        → build_response s.hash s.id_hash s.builder s.duid s.boot_config t.clock t.draws pkt pool
          ≡ returned r
        → r.packet ≡ reply
        → IsSent (reply_to src reply)
    unfolding IsSent reply_to
    reply_to-IsSent r none fine built e = tt
    reply_to-IsSent r (some reply) fine built e = record {
      before = [];
      turn = t;
      after = ts;
      among = refl;
      packet = pkt;
      sender = src;
      received = came;
      accepted = fine;
      reply = reply;
      answers =
          build_response-Carries s.hash s.id_hash s.builder s.duid s.boot_config pkt t.clock t.draws
            pool r reply built e;
      to_sender = refl;
    }

    respond-IsSent :
        (discard : Option DiscardReason) (out : Option (Bytes × Destination)) (pool' : Pool)
        → should_discard pkt s.duid ≡ returned discard
        → respond s t pkt src pool discard ≡ returned (out, pool')
        → IsSent out
    unfolding respond
    respond-IsSent (some reason) out pool' known h =
        subst IsSent (ap (λ x. x.0) (returned-injective h)) (unfold IsSent in tt)
    respond-IsSent none out pool' known h =
        let (text, read, h1) = bind-returned (human_readable pkt.options) _ h in
        let (r, built, last) =
          bind-returned
            (build_response s.hash s.id_hash s.builder s.duid s.boot_config t.clock t.draws pkt
              pool)
            _ h1 in
        subst IsSent (ap (λ x. x.0) (returned-injective last))
          (reply_to-IsSent r r.packet known built refl)

    answer_v6-IsSent :
        (out : Option (Bytes × Destination)) (pool' : Pool)
        → answer_v6 s t pkt src pool ≡ returned (out, pool')
        → IsSent out
    unfolding answer_v6
    answer_v6-IsSent out pool' h =
        let (discard, known, last) = bind-returned (should_discard pkt s.duid) _ h in
        respond-IsSent discard out pool' known last

    go_on-IsAnswer :
        (o : Outcome OptionsError (Option (Bytes × Destination) × Pool)) (later : Pool → ServedV6)
        → answer_v6 s t pkt src pool ≡ o
        → ((q : Pool) → All (IsAnswer s ts) (later q).sent)
        → All (IsAnswer s (t ∷ ts)) (go_on o pool later).sent
    unfolding go_on add_sent
    go_on-IsAnswer (failed e) later h ih = later-All t ts (later pool).sent (ih pool)
    go_on-IsAnswer panicked later h ih = tt
    go_on-IsAnswer (returned (none, pool')) later h ih =
        later-All t ts (later pool').sent (ih pool')
    go_on-IsAnswer (returned (some d, pool')) later h ih = (
      (unfold IsSent in answer_v6-IsSent (some d) pool' h),
      later-All t ts (later pool').sent (ih pool'),
    )

  serve_round-IsAnswer :
      (t : TurnV6) (ts : List TurnV6) (round : Round) (pool : Pool) (later : Pool → ServedV6)
      → recv_round s.if_index s.group t.arrival ≡ round
      → ((q : Pool) → All (IsAnswer s ts) (later q).sent)
      → All (IsAnswer s (t ∷ ts)) (serve_round s t round pool later).sent
  unfolding serve_round
  serve_round-IsAnswer t ts skip pool later h ih = later-All t ts (later pool).sent (ih pool)
  serve_round-IsAnswer t ts stop pool later h ih = tt
  serve_round-IsAnswer t ts crash pool later h ih = tt
  serve_round-IsAnswer t ts (got pkt src) pool later h ih =
      go_on-IsAnswer t ts pkt src pool h (answer_v6 s t pkt src pool) later refl ih

  -- Every datagram that the DHCPv6 service sends answers a packet that RecvDHCP returned in one of the
  -- turns and that was not discarded: it goes to the sender, to the port of clients, has the
  -- transaction of the packet, is an Advertise to a Solicit and a Reply to anything else, and names
  -- the client as the packet does, and this server.
  pub serve_dhcpv6-IsAnswer :
      (ts : List TurnV6) (pool : Pool) → All (IsAnswer s ts) (serve_dhcpv6 s ts pool).sent
  unfolding serve_dhcpv6
  serve_dhcpv6-IsAnswer [] pool = tt
  serve_dhcpv6-IsAnswer (t ∷ ts) pool =
      serve_round-IsAnswer t ts (recv_round s.if_index s.group t.arrival) pool
        (λ q. serve_dhcpv6 s ts q) refl (λ q. serve_dhcpv6-IsAnswer ts q)
