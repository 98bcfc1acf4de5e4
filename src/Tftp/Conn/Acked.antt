-- ===== src/Tftp/Conn/Acked.antt =====
-- Sending to a client whose acknowledgement is the next datagram to come.
use netboot.Prelude.{
  ℕ, suc, ◌+◌, ◌-◌, ◌*◌, ◌/◌, ◌%◌, ◌≡◌, refl, true, none, List, [], ◌∷◌, ◌++◌, Bytes, replicate,
  ◌==◌, arith, ==_iff,
}
use netboot.Tftp.Conn.{
  Reading, acked, datagram, send, attempts_of, attempt, await, write, put, settle, recv_size,
  overlay,
}

-- The acknowledgement of the block `seq`.
abbrev pub ack : ℕ → Bytes
ack seq = 0 ∷ 4 ∷ (seq / 256) ∷ (seq % 256) ∷ []

await-ack :
    (seq : ℕ) (reads : List Reading)
    → await seq (replicate recv_size 0) (datagram (ack seq) ∷ reads) ≡ (acked, reads)
unfolding await overlay
await-ack seq reads =
    let same : (seq / 256 * 256 + seq % 256 == seq) ≡ true = (==_iff _ seq).1 (omega arith) in
    rw same refl

attempt-ack :
    (k : ℕ) (b : Bytes) (seq : ℕ) (sent : List Bytes) (reads : List Reading)
    → attempt
        (suc k)
        b
        seq
        (record { sent = sent; reads = datagram (ack seq) ∷ reads; write_fails = [] })
      ≡ (none, record { sent = sent ++ (b ∷ []); reads = reads; write_fails = [] })
unfolding attempt write put settle
attempt-ack k b seq sent reads = rw (await-ack seq reads) refl

attempts_of-suc : (w : ℕ) → (k : ℕ) × (attempts_of w ≡ suc k)
unfolding attempts_of
attempts_of-suc w = (attempts_of w - 1, ground arith)

-- A packet whose acknowledgement comes next is written once.
pub send-ack :
    (w : ℕ) (b : Bytes) (seq : ℕ) (sent : List Bytes) (reads : List Reading)
    → send w b seq (record { sent = sent; reads = datagram (ack seq) ∷ reads; write_fails = [] })
      ≡ (none, record { sent = sent ++ (b ∷ []); reads = reads; write_fails = [] })
unfolding send
send-ack w b seq sent reads =
    let (k, e) = attempts_of-suc w in rw e (attempt-ack k b seq sent reads)
