-- ===== src/Server/Serve/Sequence.antt =====
-- The run of serveDHCP as a whole: what it sends, in what order, and what it keeps in the log.
use netboot.Prelude.{ℕ, ◌<◌, ◌≡◌, refl, some, List, [], ◌∷◌, Bytes, All, ◌⊎◌, inl, inr}
use netboot.Prelude.Result.{Result, ok, err}
use netboot.Dhcp4.Options.WellFormed.{IsByte}
use netboot.Dhcp4.Packet.{Packet}
use netboot.Dhcp4.Conn.{Destination, Interface, Round, skip, stop, got, recv_round}
use netboot.Dhcp4.Conn.Reads.{IsRead, recv_round-IsRead}
use netboot.Server.Serve.{
  ServeError, boot_request, source_ip, answer_dhcp, Setup, Turn, Served, Log, sending, serve_round,
  record_request, serve_dhcp,
}
use netboot.Server.Serve.Inverse.{IsAnswer, answer_dhcp-IsAnswer}

module _ (s : Setup) where
  abbrev round : Turn → Round
  round t = recv_round s.if_index s.interfaces t.incoming

  -- A frame that is passed over, or a packet that gets no answer.
  abbrev pub IsQuiet : Turn → Type 0
  IsQuiet t =
      (round t ≡ skip)
      ⊎ ((pkt : Packet) × (intf : Interface) × (e : ServeError) × (round t ≡ got pkt intf)
          × (answer_dhcp s.http_port t.boot_spec pkt intf ≡ err e))

  -- The runs of a server that answers one packet after the other: the turns, and what is sent.
  pub data Sends : List Turn → List (Bytes × Destination) → Type 0 where
    waiting : Sends [] []
    returned : {t : Turn} {ts : List Turn} → round t ≡ stop → Sends (t ∷ ts) []
    quiet :
        {t : Turn} {ts : List Turn} {ds : List (Bytes × Destination)}
        → IsQuiet t
        → Sends ts ds
        → Sends (t ∷ ts) ds
    answered :
        {t : Turn} {ts : List Turn} {ds : List (Bytes × Destination)} {d : Bytes × Destination}
        (pkt : Packet) (intf : Interface)
        → IsRead s.interfaces t.incoming pkt intf
        → IsAnswer t.boot_spec pkt intf.index d
        → Sends ts ds
        → Sends (t ∷ ts) (d ∷ ds)

  module _ (port : s.http_port < 65536)
      (bytes : (i : ℕ) (intf : Interface) (ip : Bytes)
        → s.interfaces i ≡ some intf
        → source_ip intf ≡ ok ip
        → All IsByte ip) where
    -- With an HTTP port of 16 bits and addresses made of bytes, serveDHCP sends at most one
    -- datagram for a frame, in the order of the frames, up to the round that returns an error; each
    -- is an offer to a discover that came in, of a machine that the booter has a spec for; and a
    -- frame before that without an answer is one that RecvDHCP passes over or that the body of the
    -- loop refuses.
    pub serve_dhcp-Sends : (ts : List Turn) (log : Log) → Sends ts (serve_dhcp s ts log).sent
    unfolding serve_dhcp serve_round
    serve_dhcp-Sends [] log = waiting
    serve_dhcp-Sends (t ∷ ts) log =
        by_round (round t) refl (λ l. serve_dhcp s ts l) (λ l. serve_dhcp-Sends ts l)
      where
        by_answer :
            (pkt : Packet) (intf : Interface)
            → round t ≡ got pkt intf
            → (r : Result ServeError (Bytes × Destination))
            → answer_dhcp s.http_port t.boot_spec pkt intf ≡ r
            → (later : Served) → Sends ts later.sent
            → Sends (t ∷ ts) (sending r later).sent
        by_answer pkt intf e (err x) a later more = quiet (inr (pkt, intf, x, e, a)) more
        by_answer pkt intf e (ok d) a later more =
            let read = recv_round-IsRead s.if_index s.interfaces t.incoming pkt intf e in
            answered pkt intf read
              (answer_dhcp-IsAnswer s.http_port t.boot_spec read.bytes pkt intf d port read.content
                (λ ip. bytes read.index intf ip read.at) a)
              more

        by_round :
            (r : Round)
            → round t ≡ r
            → (later : Log → Served) → ((l : Log) → Sends ts (later l).sent)
            → Sends (t ∷ ts) (serve_round s t r log later).sent
        by_round skip e later more = quiet (inl e) (more log)
        by_round stop e later more = returned e
        by_round (got pkt intf) e later more =
            by_answer pkt intf e (answer_dhcp s.http_port t.boot_spec pkt intf) refl
              (later
                (record_request (s.key pkt.hardware_addr) t.now (boot_request t.boot_spec pkt) log))
              (more
                (record_request (s.key pkt.hardware_addr) t.now (boot_request t.boot_spec pkt) log))
