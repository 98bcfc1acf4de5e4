-- ===== src/Tftp/Conn/Attempts.antt =====
-- How often `send` writes its datagram, and what its success means.
use netboot.Prelude.{
  ℕ, zero, suc, ◌≤◌, ◌≡◌, refl, sym, ◌∙◌, ap, true, false, Option, none, some, List, [], ◌∷◌, ◌++◌,
  append-nil, append_assoc, Bytes, replicate, if_ind, arith, Option-cases, ◌⊎◌, inl, inr,
}
use netboot.Tftp.Conn.{
  Conn, Reading, SendError, Waited, acked, again, failed, abort, write, recv_size, await, settle,
  attempt, send, attempts_of,
}
use netboot.Tftp.Conn.Sends.{AckBefore, await_acked, put_lem, await_suffix}

-- What a call of `attempt` with `k` attempts left did.
pub record Tried (k : ℕ) (b : Bytes) (seq : ℕ) (c : Conn) (r : Option SendError × Conn)
    : Type 0 where
  pub copies : ℕ
  pub at_most : copies ≤ k
  pub written : r.1.sent ≡ c.sent ++ replicate copies b
  pub once : r.0 ≡ none → 1 ≤ copies
  pub acknowledged : r.0 ≡ none → AckBefore seq c.reads r.1.reads

one_copy :
    {A : Type 0} (xs : List A) (b : A) (n : ℕ)
    → (xs ++ (b ∷ [])) ++ replicate n b ≡ xs ++ replicate (suc n) b
one_copy xs b n = append_assoc xs (b ∷ []) (replicate n b)

write_ok : (c : Conn) (b : Bytes) → (write c b).1 ≡ true → (write c b).0.sent ≡ c.sent ++ (b ∷ [])
unfolding write
write_ok c b h = (put_lem c b c.write_fails).0 h

write_bad : (c : Conn) (b : Bytes) → (write c b).1 ≡ false → (write c b).0.sent ≡ c.sent
unfolding write
write_bad c b h = (put_lem c b c.write_fails).1 h

pub write_reads : (c : Conn) (b : Bytes) → (write c b).0.reads ≡ c.reads
unfolding write
write_reads c b = (put_lem c b c.write_fails).2

further :
    (seq : ℕ) (before mid reads rest : List Reading)
    → reads ≡ before ++ mid
    → AckBefore seq mid rest
    → AckBefore seq reads rest
further seq before mid reads rest e (between, d, m, a) =
    (before ++ between, d, e ∙ ap (λ t. before ++ t) m ∙ sym (append_assoc before between _), a)

-- The way in which the wait ended decides, given what a retry would do.
settle-Tried :
    (k : ℕ) (b : Bytes) (seq : ℕ) (c c' : Conn) (w : Waited) (reads : List Reading)
    (retry : Option SendError × Conn)
    → c'.sent ≡ c.sent ++ (b ∷ [])
    → c'.reads ≡ c.reads
    → await seq (replicate recv_size 0) c'.reads ≡ (w, reads)
    → Tried k b seq (record c' { reads = reads }) retry
    → Tried (suc k) b seq c (settle w (record c' { reads = reads }) retry)
unfolding settle
settle-Tried k b seq c c' acked reads retry hs hr ha t = record {
  copies = 1;
  at_most = omega arith;
  written = hs;
  once = λ e. omega arith;
  acknowledged = λ e. rw (← hr) (await_acked seq (replicate recv_size 0) c'.reads reads ha);
}
settle-Tried k b seq c c' failed reads retry hs hr ha t = record {
  copies = 1;
  at_most = omega arith;
  written = hs;
  once = λ e. cc;
  acknowledged = λ e. cc;
}
settle-Tried k b seq c c' (abort msg) reads retry hs hr ha t = record {
  copies = 1;
  at_most = omega arith;
  written = hs;
  once = λ e. cc;
  acknowledged = λ e. cc;
}
settle-Tried k b seq c c' again reads retry hs hr ha t =
    let (before, split) = await_suffix seq (replicate recv_size 0) c'.reads in
    let whole : c.reads ≡ before ++ reads = sym hr ∙ split ∙ ap (λ x. before ++ x.1) ha in
    record {
      copies = suc t.copies;
      at_most = omega (arith, t.at_most);
      written = t.written ∙ ap (λ x. x ++ replicate t.copies b) hs ∙ one_copy c.sent b t.copies;
      once = λ e. omega arith;
      acknowledged = λ e. further seq before reads c.reads retry.1.reads whole (t.acknowledged e);
    }

pub attempt-Tried : (k : ℕ) (b : Bytes) (seq : ℕ) (c : Conn) → Tried k b seq c (attempt k b seq c)
unfolding attempt
attempt-Tried zero b seq c = record {
  copies = 0;
  at_most = omega arith;
  written = sym (append-nil c.sent);
  once = λ e. cc;
  acknowledged = λ e. cc;
}
attempt-Tried (suc k) b seq c =
    let c' = (write c b).0 in
    let w = await seq (replicate recv_size 0) c'.reads in
    let ih = attempt-Tried k b seq (record c' { reads = w.1 }) in
    if_ind (Tried (suc k) b seq c) (write c b).1 _ _
      (λ good. settle-Tried k b seq c c' w.0 w.1 _ (write_ok c b good) (write_reads c b) refl ih)
      λ bad. record {
        copies = 0;
        at_most = omega arith;
        written = write_bad c b bad ∙ sym (append-nil c.sent);
        once = λ e. cc;
        acknowledged = λ e. cc;
      }

attempts_of_pos : (n : ℕ) → 1 ≤ attempts_of n
unfolding attempts_of
attempts_of_pos n = ground arith

pub send-Tried :
    (n : ℕ) (b : Bytes) (seq : ℕ) (c : Conn) → Tried (attempts_of n) b seq c (send n b seq c)
unfolding send
send-Tried n b seq c = attempt-Tried (attempts_of n) b seq c

-- Whatever the client and the network do, `send` writes its datagram at most as often as it has
-- attempts, and writes nothing else. It returns an error, or it wrote the datagram at least once and
-- then read an acknowledgement of its block number.
pub send_lem :
    (n : ℕ) (b : Bytes) (seq : ℕ) (c : Conn)
    → (copies : ℕ) × (copies ≤ attempts_of n)
      × ((send n b seq c).1.sent ≡ c.sent ++ replicate copies b)
      × (((e : SendError) × ((send n b seq c).0 ≡ some e))
          ⊎ ((1 ≤ copies) × AckBefore seq c.reads (send n b seq c).1.reads))
send_lem n b seq c =
    let t = send-Tried n b seq c in
    (
      t.copies,
      t.at_most,
      t.written,
      elim (Option-cases (send n b seq c).0) [
        | inl e ↦ inr (t.once e, t.acknowledged e)
        | inr (x, e) ↦ inl (x, e)
      ],
    )
