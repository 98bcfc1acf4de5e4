-- ===== src/Tftp/Transfer/Acked.antt =====
-- A transfer to a client that acknowledges what it gets.
use netboot.Prelude.{
  ℕ, zero, suc, ◌+◌, ◌%◌, ◌≤◌, ◌<◌, ◌≡◌, refl, sym, ap, ◌∙◌, Bool, true, false, ◌&&◌, none, Option,
  List, [], ◌∷◌, ◌++◌, append_assoc, Bytes, length, take, drop, ltb, if◌then◌else◌, All, arith,
}
use mathlib.Core.Path.{subst}
use netboot.Tftp.Conn.Acked.{ack, send-ack}
use netboot.Tftp.Conn.{Conn, Reading, datagram}
use netboot.Tftp.Transfer.{
  Server, File, TransferError, data_packet, data_loop, after_block, send_file,
}
use netboot.Tftp.Transfer.Blocks.{
  packets, packets_payload, packets_cut, repeat_each, drop_shorter, used_size, used_size_pos,
}
use netboot.Tftp.Transfer.Delivery.{Delivered}

-- A client that acknowledges each of the blocks of a file.
pub acks : ℕ → ℕ → ℕ → Bytes → List Reading
acks zero block_size seq contents = []
acks (suc fuel) block_size seq contents =
    let rest = acks fuel block_size ((seq + 1) % 65536) (drop block_size contents) in
    datagram (ack seq) ∷ (if ltb (length (take block_size contents)) block_size then [] else rest)

-- The connection to it, with the datagrams written before.
abbrev pub acking : List Bytes → List Reading → Conn
acking sent reads = record { sent = sent; reads = reads; write_fails = [] }

-- The end of a transfer without an error: these packets were written once each.
abbrev pub Completed : List Bytes → List Bytes → Option TransferError × Conn → Type 0
Completed sent ps r = (r.0 ≡ none) × (r.1.sent ≡ sent ++ ps)

Completed-more :
    (sent ps : List Bytes) (p : Bytes) (r : Option TransferError × Conn)
    → Completed (sent ++ (p ∷ [])) ps r
    → Completed sent (p ∷ ps) r
Completed-more sent ps p r (e, s) = (e, s ∙ append_assoc sent (p ∷ []) ps)

-- What follows a block that was acknowledged; `next` goes on with the acknowledgements to come.
block-Completed :
    (short : Bool) (seq : ℕ) (p : Bytes) (sent more : List Bytes) (reads : List Reading)
    (stop : Option TransferError × Conn) (next : List Reading → Option TransferError × Conn)
    → (short ≡ false → Completed (sent ++ (p ∷ [])) more (next reads))
    → let left : List Reading = if short then [] else reads in
      Completed sent (p ∷ (if short then [] else more)) (
        if short && false
        then stop
        else after_block seq none short (acking (sent ++ (p ∷ [])) left) (next left))
unfolding after_block
block-Completed true seq p sent more reads stop next h = (refl, refl)
block-Completed false seq p sent more reads stop next h =
    Completed-more sent more p (next reads) (h refl)

data_loop-acks :
    (fuel : ℕ) (srv : Server) (block_size seq : ℕ) (contents : Bytes) (sent : List Bytes)
    → 1 ≤ block_size
    → length contents < fuel
    → Completed sent (packets fuel block_size seq contents) (
        data_loop fuel srv block_size seq contents false
          (acking sent (acks fuel block_size seq contents)))
unfolding data_loop packets acks
data_loop-acks zero srv block_size seq contents sent hb hf = absurd (omega arith)
data_loop-acks (suc fuel) srv block_size seq contents sent hb hf =
    let p = data_packet seq (take block_size contents) in
    let seq' = (seq + 1) % 65536 in
    let left = drop block_size contents in
    rw (send-ack srv.write_attempts p seq sent _) (
      block-Completed (ltb (length (take block_size contents)) block_size) seq p sent
        (packets fuel block_size seq' left) (acks fuel block_size seq' left) _
        (λ reads. data_loop fuel srv block_size seq' left false (acking (sent ++ (p ∷ [])) reads))
        (λ full.
          data_loop-acks fuel srv block_size seq' left (sent ++ (p ∷ [])) hb
            (drop_shorter block_size contents fuel hb hf full)))

ones : List Bytes → List ℕ
ones [] = []
ones (p ∷ ps) = 1 ∷ ones ps

repeat_each-ones : (ps : List Bytes) → ps ≡ repeat_each (ones ps) ps
unfolding ones
repeat_each-ones [] = refl
repeat_each-ones (p ∷ ps) = ap (λ t. p ∷ t) (repeat_each-ones ps)

ones_once :
    (ps : List Bytes) → All (λ k. (1 ≤ k) × (k ≤ 1)) (ones ps) × (length (ones ps) ≡ length ps)
unfolding ones
ones_once [] = (tt, refl)
ones_once (p ∷ ps) =
    let (each, same) = ones_once ps in (((omega arith, omega arith), each), ap suc same)

Completed-Delivered :
    (size : ℕ) (contents : Bytes) (sent : List Bytes) (r : Option TransferError × Conn)
    → 1 ≤ size
    → Completed sent (packets (suc (length contents)) size 1 contents) r
    → (r.0 ≡ none) × Delivered 1 size contents sent r.1.sent
Completed-Delivered size contents sent r h (fine, logged) =
    let fuel = suc (length contents) in
    let ps = packets fuel size 1 contents in
    let (each, same) = ones_once ps in
    (
      fine,
      record {
        blocks = ps;
        counts = ones ps;
        logged = logged ∙ ap (λ t. sent ++ t) (repeat_each-ones ps);
        each = each;
        one_each = same;
        well_cut = packets_cut fuel size 1 contents h (omega arith);
        payload = packets_payload fuel size 1 contents h (omega arith);
      },
    )

-- A transfer of the blocks of a file that can be read ends without an error, if the client
-- acknowledges every block and no write fails: the file's blocks are written in order, numbered from
-- 1 (wrapping at 65536), all full but the last, each exactly once, and they carry the file.
pub send_file-acks :
    (srv : Server) (block_size : ℕ) (f : File) (sent : List Bytes)
    → f.fails ≡ false
    → let size = used_size block_size in
      let c = acking sent (acks (suc (length f.contents)) size 1 f.contents) in
      ((send_file srv block_size f c).0 ≡ none)
      × Delivered 1 size f.contents sent (send_file srv block_size f c).1.sent
unfolding send_file
send_file-acks srv block_size f sent whole =
    let size = used_size block_size in
    let fuel = suc (length f.contents) in
    Completed-Delivered size f.contents sent
      (send_file srv block_size f (acking sent (acks fuel size 1 f.contents)))
      (used_size_pos block_size)
      (subst
        (λ fails.
          Completed sent (packets fuel size 1 f.contents) (
            data_loop fuel srv size 1 f.contents fails (acking sent (acks fuel size 1 f.contents))))
        (sym whole)
        (data_loop-acks fuel srv size 1 f.contents sent (used_size_pos block_size) (omega arith)))
