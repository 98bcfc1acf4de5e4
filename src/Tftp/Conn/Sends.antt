-- ===== src/Tftp/Conn/Sends.antt =====
-- What `send` does to the connection, whatever the client and the network do.
use netboot.Prelude.{
  ℕ, ◌≤◌, ◌≡◌, refl, ap, Bool, true, false, List, [], ◌∷◌, ◌++◌, Bytes, length, get_or, ltb, ◌==◌,
  if_ind, ==_iff, min, arith,
}
use netboot.Dhcp4.Options.Values.{uint16}
use netboot.Tftp.Conn.{
  Conn, Reading, datagram, timeout, broken, Waited, acked, put, overlay, recv_size, await,
}

-- A datagram that acknowledges block `seq`: ACK packets start with 0, 4 and the block number.
abbrev pub IsAck : ℕ → Bytes → Type 0
IsAck seq d =
    (4 ≤ length d)
    × (uint16 (get_or d 0 0) (get_or d 1 0) ≡ 4)
    × (uint16 (get_or d 2 0) (get_or d 3 0) ≡ seq)

-- The first four bytes of a datagram that has them are what the buffer starts with.
overlay_prefix :
    (d recv : Bytes)
    → 4 ≤ length d
    → (get_or (overlay d recv) 0 0 ≡ get_or d 0 0)
      × (get_or (overlay d recv) 1 0 ≡ get_or d 1 0)
      × (get_or (overlay d recv) 2 0 ≡ get_or d 2 0)
      × (get_or (overlay d recv) 3 0 ≡ get_or d 3 0)
unfolding overlay
overlay_prefix [] recv h = absurd (omega arith)
overlay_prefix (a ∷ []) recv h = absurd (omega arith)
overlay_prefix (a ∷ b ∷ []) recv h = absurd (omega arith)
overlay_prefix (a ∷ b ∷ c ∷ []) recv h = absurd (omega arith)
overlay_prefix (a ∷ b ∷ c ∷ e ∷ d) recv h = (refl, refl, refl, refl)

-- An acknowledgement of `seq` among the readings, just in front of `rest`.
abbrev pub AckBefore : ℕ → List Reading → List Reading → Type 0
AckBefore seq reads rest =
    (before : List Reading) × (d : Bytes) × (reads ≡ before ++ (datagram d ∷ rest)) × IsAck seq d

pub later :
    (seq : ℕ) (r : Reading) (reads rest : List Reading)
    → AckBefore seq reads rest
    → AckBefore seq (r ∷ reads) rest
later seq r reads rest (before, d, e, a) = (r ∷ before, d, ap (λ t. r ∷ t) e, a)

long_datagram : (d : Bytes) → ltb (min recv_size (length d)) 4 ≡ false → 4 ≤ length d
long_datagram d h = ground arith

-- `await` answers `acked` only after a datagram that acknowledges `seq`, and goes on behind it.
pub await_acked :
    (seq : ℕ) (recv : Bytes) (reads rest : List Reading)
    → await seq recv reads ≡ (acked, rest)
    → AckBefore seq reads rest
unfolding await
await_acked seq recv [] rest h = cc
await_acked seq recv (timeout ∷ reads) rest h = cc
await_acked seq recv (broken ∷ reads) rest h = cc
await_acked seq recv (datagram d ∷ reads) rest h =
    let recv' = overlay d recv in
    let onward = λ (e : await seq recv' reads ≡ (acked, rest)).
      later seq (datagram d) reads rest (await_acked seq recv' reads rest e) in
    if_ind P (ltb (min recv_size (length d)) 4) _ _ (λ _. onward)
      (λ long.
        if_ind P (uint16 (get_or recv' 0 0) (get_or recv' 1 0) == 4) _ _
          (λ op.
            if_ind P (uint16 (get_or recv' 2 0) (get_or recv' 3 0) == seq) _ _
              (λ nr e. ([], d, cc, is_ack long op nr)) (λ _. onward))
          (λ _.
            if_ind P (uint16 (get_or recv' 0 0) (get_or recv' 1 0) == 5) _ _ (λ _ e. cc)
              (λ _. onward)))
      h
  where
    P : Waited × List Reading → Type 0
    P r = r ≡ (acked, rest) → AckBefore seq (datagram d ∷ reads) rest

    is_ack :
        ltb (min recv_size (length d)) 4 ≡ false
        → (uint16 (get_or (overlay d recv) 0 0) (get_or (overlay d recv) 1 0) == 4) ≡ true
        → (uint16 (get_or (overlay d recv) 2 0) (get_or (overlay d recv) 3 0) == seq) ≡ true
        → IsAck seq d
    is_ack long op nr =
        let h4 = long_datagram d long in
        let (e0, e1, e2, e3) = overlay_prefix d recv h4 in
        (h4, rw (← e0, ← e1) ((==_iff _ 4).0 op), rw (← e2, ← e3) ((==_iff _ seq).0 nr))

-- A write adds its datagram to the log exactly if it succeeds, and reads nothing.
pub put_lem :
    (c : Conn) (b : Bytes) (w : List Bool)
    → (((put c b w).1 ≡ true) → (put c b w).0.sent ≡ c.sent ++ (b ∷ []))
      × (((put c b w).1 ≡ false) → (put c b w).0.sent ≡ c.sent)
      × ((put c b w).0.reads ≡ c.reads)
unfolding put
put_lem c b [] = ((λ _. refl), (λ e. cc), refl)
put_lem c b (false ∷ w) = ((λ _. refl), (λ e. cc), refl)
put_lem c b (true ∷ w) = ((λ e. cc), (λ _. refl), refl)

-- `await` leaves a suffix of the readings.
pub await_suffix :
    (seq : ℕ) (recv : Bytes) (reads : List Reading)
    → (before : List Reading) × (reads ≡ before ++ (await seq recv reads).1)
unfolding await
await_suffix seq recv [] = ([], refl)
await_suffix seq recv (timeout ∷ reads) = (timeout ∷ [], refl)
await_suffix seq recv (broken ∷ reads) = (broken ∷ [], refl)
await_suffix seq recv (datagram d ∷ reads) =
    let recv' = overlay d recv in
    let (before, e) = await_suffix seq recv' reads in
    let onward : P (await seq recv' reads) = (datagram d ∷ before, ap (λ t. datagram d ∷ t) e) in
    let stop : (datagram d ∷ reads ≡ (datagram d ∷ []) ++ reads) = refl in
    if_ind P (ltb (min recv_size (length d)) 4) _ _ (λ _. onward)
      λ _.
        if_ind P (uint16 (get_or recv' 0 0) (get_or recv' 1 0) == 4) _ _
          (λ _.
            if_ind P (uint16 (get_or recv' 2 0) (get_or recv' 3 0) == seq) _ _
              (λ _. (datagram d ∷ [], stop)) (λ _. onward))
          (λ _.
            if_ind P (uint16 (get_or recv' 0 0) (get_or recv' 1 0) == 5) _ _
              (λ _. (datagram d ∷ [], stop)) (λ _. onward))
  where
    P : Waited × List Reading → Type 0
    P r = (before : List Reading) × (datagram d ∷ reads ≡ before ++ r.1)
