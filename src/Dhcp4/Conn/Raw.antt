-- ===== src/Dhcp4/Conn/Raw.antt =====
-- Recv and Send of dhcp4/conn_linux.go: UDP headers written and read by hand.
use netboot.Prelude.{
  ℕ, ◌+◌, ◌*◌, ◌/◌, ◌%◌, ◌<◌, ◌≡◌, arith, false, ◌∷◌, Bytes, length, drop, get_or, ltb,
  if◌then◌else◌, if_ind, refl, le→ltb_false,
}
use netboot.Prelude.Result.{Result, ok, err}
use netboot.Dhcp4.Options.Values.{uint16}
use netboot.Dhcp4.Conn.{Incoming, frame, broken}

pub data RawError : Type 0 where
  too_short : RawError

-- Recv: the payload behind the eight bytes of the header, and the source port.
unfoldable pub recv : Bytes → Result RawError (Bytes × ℕ)
recv p =
    if ltb (length p) 8 then err too_short else ok (drop 8 p, uint16 (get_or p 0 0) (get_or p 1 0))

incoming_of : ℕ → Result RawError (Bytes × ℕ) → Incoming
incoming_of i (ok (b, port)) = frame b i
incoming_of i (err e) = broken

-- What RecvDHCP has of Recv for an IP packet with the payload `p` that came in on interface `i`.
unfoldable pub received : ℕ → Bytes → Incoming
unfolding recv incoming_of
received i p = incoming_of i (recv p)

-- Send: the packet from `port` to `to`; the checksum is left 0.
unfoldable pub send : ℕ → ℕ → Bytes → Bytes
send port to b =
    let n = 8 + length b in
    (port / 256 % 256)
    ∷ (port % 256)
    ∷ (to / 256 % 256)
    ∷ (to % 256)
    ∷ (n / 256 % 256)
    ∷ (n % 256)
    ∷ 0
    ∷ 0
    ∷ b

-- What `send` writes on one machine is read by `recv` on another, with the sender's port.
pub recv-send : (port to : ℕ) (b : Bytes) → port < 65536 → recv (send port to b) ≡ ok (b, port)
unfolding recv send
recv-send port to b h =
    let whole : port / 256 % 256 * 256 + port % 256 ≡ port = omega arith in
    let n = 8 + length b in
    let long : ltb (length (send port to b)) 8 ≡ false = le→ltb_false _ 8 (omega arith) in
    rw (long, whole)

-- A payload is an error of Recv if it is shorter than a UDP header.
pub received_lem :
    (i : ℕ) (p : Bytes) → received i p ≡ (if ltb (length p) 8 then broken else frame (drop 8 p) i)
unfolding received recv
received_lem i p =
    if_ind P (ltb (length p) 8) (err too_short)
      (ok (drop 8 p, uint16 (get_or p 0 0) (get_or p 1 0))) (λ short. rw short refl)
      (λ long. rw long refl)
  where
    P : Result RawError (Bytes × ℕ) → Type 0
    P r = incoming_of i r ≡ (if ltb (length p) 8 then broken else frame (drop 8 p) i)
