-- ===== src/Tftp/Transfer/Delivery.antt =====
-- What a transfer that reports success has put on the wire, under any loss, delay or retransmission.
use netboot.Prelude.{
  ℕ, zero, suc, ◌+◌, ◌%◌, ◌≤◌, ◌<◌, ◌≡◌, ◌≢◌, refl, sym, ◌∙◌, ap, Bool, true, false, ◌&&◌, Option,
  none, some, List, [], ◌∷◌, ◌++◌, append-nil, append_assoc, Bytes, length, take, drop, replicate,
  All, ltb, if◌then◌else◌, if_ind, arith,
}
use netboot.Tftp.Conn.{Conn, SendError, send, attempts_of}
use netboot.Tftp.Conn.Attempts.{Tried, send-Tried}
use netboot.Tftp.Transfer.Blocks.{
  packets, repeat_each, WellCut, payloads, drop_shorter, packets_payload, packets_cut, used_size,
  used_size_pos,
}
use netboot.Tftp.Transfer.{
  Server, File, TransferError, out_of_fuel, data_packet, data_loop, after_block, send_file,
}

-- The log of a transfer: each block in order, once at least and `n` times at most.
pub record Delivered (n : ℕ) (block_size : ℕ) (contents : Bytes) (before after : List Bytes)
    : Type 0 where
  pub blocks : List Bytes
  pub counts : List ℕ
  pub logged : after ≡ before ++ repeat_each counts blocks
  pub each : All (λ k. (1 ≤ k) × (k ≤ n)) counts
  pub one_each : length counts ≡ length blocks
  pub well_cut : WellCut block_size 1 blocks
  pub payload : payloads blocks ≡ contents

-- A run of the loop with no error sends the blocks, each within its attempts.
record Ran (n : ℕ) (fails : Bool) (blocks before after : List Bytes) : Type 0 where
  complete : fails ≡ false
  counts : List ℕ
  logged : after ≡ before ++ repeat_each counts blocks
  each : All (λ k. (1 ≤ k) × (k ≤ n)) counts
  one_each : length counts ≡ length blocks

one_more :
    (before after last : List Bytes) (k : ℕ) (p : Bytes) (rest : List Bytes)
    → after ≡ before ++ replicate k p
    → last ≡ after ++ rest
    → last ≡ before ++ (replicate k p ++ rest)
one_more before after last k p rest h g =
    g ∙ ap (λ x. x ++ rest) h ∙ append_assoc before (replicate k p) rest

after_block-Ran :
    (n seq : ℕ) (p : Bytes) (more : List Bytes) (c c' : Conn) (e : Option SendError)
    (short fails : Bool) (next : Option TransferError × Conn)
    → Tried n p seq c (e, c')
    → (short && fails) ≡ false
    → (next.0 ≡ none → Ran n fails more c'.sent next.1.sent)
    → (after_block seq e short c' next).0 ≡ none
    → Ran n fails (p ∷ (if short then [] else more)) c.sent (after_block seq e short c' next).1.sent
unfolding after_block
after_block-Ran n seq p more c c' (some x) short fails next t sf later h = cc
after_block-Ran n seq p more c c' none true fails next t sf later h = record {
  complete = sf;
  counts = t.copies ∷ [];
  logged = one_more c.sent c'.sent c'.sent t.copies p [] t.written (sym (append-nil c'.sent));
  each = ((t.once refl, t.at_most), tt);
  one_each = refl;
}
after_block-Ran n seq p more c c' none false fails next t sf later h =
    let r = later h in
    record {
      complete = r.complete;
      counts = t.copies ∷ r.counts;
      logged = one_more c.sent c'.sent _ t.copies p (repeat_each r.counts more) t.written r.logged;
      each = ((t.once refl, t.at_most), r.each);
      one_each = ap suc r.one_each;
    }

data_loop-Ran :
    (fuel : ℕ) (srv : Server) (block_size seq : ℕ) (contents : Bytes) (fails : Bool) (c : Conn)
    → (data_loop fuel srv block_size seq contents fails c).0 ≡ none
    → Ran
        (attempts_of srv.write_attempts)
        fails
        (packets fuel block_size seq contents)
        c.sent
        (data_loop fuel srv block_size seq contents fails c).1.sent
unfolding data_loop packets
data_loop-Ran zero srv block_size seq contents fails c h = cc
data_loop-Ran (suc fuel) srv block_size seq contents fails c h =
    let p = data_packet seq (take block_size contents) in
    let (e, c') = send srv.write_attempts p seq c in
    let ih =
      data_loop-Ran fuel srv block_size ((seq + 1) % 65536) (drop block_size contents) fails c' in
    if_ind P (ltb (length (take block_size contents)) block_size && fails) _ _ (λ _ x. cc)
      (λ sf x.
        after_block-Ran n seq p _ c c' e _ fails _ (send-Tried srv.write_attempts p seq c) sf ih x)
      h
  where
    n : ℕ
    n = attempts_of srv.write_attempts

    P : Option TransferError × Conn → Type 0
    P r = r.0 ≡ none → Ran n fails (packets (suc fuel) block_size seq contents) c.sent r.1.sent

-- If a transfer of a file's blocks returns no error, then whatever the client and the network did:
-- the file was read to its end, and the datagrams written are the file's blocks in order, numbered
-- from 1 (wrapping at 65536), all full but the last, each written at least once and at most as often
-- as the server has attempts; their payloads are the contents of the file.
pub send_file-Delivered :
    (srv : Server) (block_size : ℕ) (f : File) (c : Conn)
    → (send_file srv block_size f c).0 ≡ none
    → (f.fails ≡ false)
      × Delivered
          (attempts_of srv.write_attempts)
          (used_size block_size)
          f.contents
          c.sent
          (send_file srv block_size f c).1.sent
unfolding send_file
send_file-Delivered srv block_size f c h =
    let fuel = suc (length f.contents) in
    let size = used_size block_size in
    let r = data_loop-Ran fuel srv size 1 f.contents f.fails c h in
    (
      r.complete,
      record {
        blocks = packets fuel size 1 f.contents;
        counts = r.counts;
        logged = r.logged;
        each = r.each;
        one_each = r.one_each;
        well_cut = packets_cut fuel size 1 f.contents (used_size_pos block_size) (omega arith);
        payload = packets_payload fuel size 1 f.contents (used_size_pos block_size) (omega arith);
      },
    )

after_block-ne-out_of_fuel :
    (seq : ℕ) (e : Option SendError) (short : Bool) (c : Conn) (next : Option TransferError × Conn)
    → (short ≡ false → next.0 ≢ some out_of_fuel)
    → (after_block seq e short c next).0 ≢ some out_of_fuel
unfolding after_block
after_block-ne-out_of_fuel seq (some x) short c next h = λ q. cc
after_block-ne-out_of_fuel seq none true c next h = λ q. cc
after_block-ne-out_of_fuel seq none false c next h = h refl

data_loop-ne-out_of_fuel :
    (fuel : ℕ) (srv : Server) (block_size seq : ℕ) (contents : Bytes) (fails : Bool) (c : Conn)
    → 1 ≤ block_size
    → length contents < fuel
    → (data_loop fuel srv block_size seq contents fails c).0 ≢ some out_of_fuel
unfolding data_loop
data_loop-ne-out_of_fuel zero srv block_size seq contents fails c hb hf = absurd (omega arith)
data_loop-ne-out_of_fuel (suc fuel) srv block_size seq contents fails c hb hf =
    let (e, c') = send srv.write_attempts (data_packet seq (take block_size contents)) seq c in
    if_ind P (ltb (length (take block_size contents)) block_size && fails) _ _ (λ _ x. cc)
      (λ _. after_block-ne-out_of_fuel seq e _ c' _ λ full.
        data_loop-ne-out_of_fuel fuel srv block_size ((seq + 1) % 65536) (drop block_size contents)
          fails c' hb (drop_shorter block_size contents fuel hb hf full))
  where
    P : Option TransferError × Conn → Type 0
    P r = r.0 ≢ some out_of_fuel

-- The loop over the blocks ends, whatever the client and the network do.
pub send_file-ne-out_of_fuel :
    (srv : Server) (block_size : ℕ) (f : File) (c : Conn)
    → (send_file srv block_size f c).0 ≢ some out_of_fuel
unfolding send_file
send_file-ne-out_of_fuel srv block_size f c =
    data_loop-ne-out_of_fuel (suc (length f.contents)) srv (used_size block_size) 1 f.contents
      f.fails c (used_size_pos block_size) (omega arith)
