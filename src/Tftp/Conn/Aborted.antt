-- ===== src/Tftp/Conn/Aborted.antt =====
-- A client that answers with an ERROR packet ends the `send` of tftp/tftp.go.
use netboot.Prelude.{
  ℕ, zero, suc, ◌+◌, ◌≤◌, ◌<◌, ◌≡◌, refl, sym, ap, ◌∙◌, Bool, true, false, some, List, [], ◌∷◌,
  ◌++◌, append_assoc, append-nil, Bytes, length, length-append, length-take, take, drop, replicate,
  All, ltb, ltb→lt, if◌then◌else◌, if_ind, min, arith,
}
use netboot.Tftp.Request.{tftp_error, tftp_str, max_error_size}
use netboot.Tftp.Request.Grammar.{IsPrintable, tftp_str_complete}
use netboot.Tftp.Request.Errors.{tftp_error-printable, take-IsPrintable, tftp_str_open}
use netboot.Tftp.Conn.{
  Reading, datagram, aborted, abort, put, write, recv_size, overlay, error_message, await, settle,
  attempt, attempts_of, send,
}

take_within : (n : ℕ) (xs : Bytes) → length xs ≤ n → take n xs ≡ xs
take_within zero [] h = refl
take_within zero (x ∷ xs) h = absurd (omega arith)
take_within (suc n) [] h = refl
take_within (suc n) (x ∷ xs) h = ap (λ t. x ∷ t) (take_within n xs (omega arith))

take_first : (n : ℕ) (xs ys : Bytes) → n ≤ length xs → take n (xs ++ ys) ≡ take n xs
take_first zero xs ys h = refl
take_first (suc n) [] ys h = absurd (omega arith)
take_first (suc n) (x ∷ xs) ys h = ap (λ t. x ∷ t) (take_first n xs ys (omega arith))

-- The buffer for a datagram that begins with 0, 5, and what is read then.
await_error :
    (seq a b : ℕ) (recv d rest : Bytes) (reads : List Reading)
    → 4 ≤ length d
    → overlay d recv ≡ 0 ∷ 5 ∷ a ∷ b ∷ rest
    → await seq recv (datagram d ∷ reads) ≡ (abort (error_message (tftp_str rest)), reads)
unfolding await
await_error seq a b recv d rest reads long e =
    let fits : ltb (min recv_size (length d)) 4 ≡ false = ground arith in rw (fits, e) refl

-- An ERROR packet with code 0.
packet_of : Bytes → Bytes
packet_of text = 0 ∷ 5 ∷ 0 ∷ 0 ∷ (text ++ (0 ∷ []))

packet_length : (text : Bytes) → length (packet_of text) ≡ 5 + length text
unfolding packet_of
packet_length text = omega (arith, length-append text (0 ∷ []))

abbrev buffer : Bytes
buffer = replicate recv_size 0

overlay_long :
    (text : Bytes)
    → 252 ≤ length text
    → overlay (packet_of text) buffer ≡ 0 ∷ 5 ∷ 0 ∷ 0 ∷ take 252 text
unfolding overlay packet_of
overlay_long text h =
    let full : min recv_size (length (packet_of text)) ≡ recv_size =
      omega (arith, packet_length text) in
    rw full (rw (take_first 252 text (0 ∷ []) h, append-nil (take 252 text)) refl)

overlay_short :
    (text : Bytes)
    → length text ≤ 251
    → (rest : Bytes) × (overlay (packet_of text) buffer ≡ 0 ∷ 5 ∷ 0 ∷ 0 ∷ (text ++ (0 ∷ rest)))
unfolding overlay
overlay_short text h =
    let kept = drop (min recv_size (length (packet_of text))) buffer in
    let fits : length (packet_of text) ≤ recv_size = omega (arith, packet_length text) in
    (
      kept,
      ap (λ d. d ++ kept) (take_within recv_size (packet_of text) fits)
          ∙ (unfold packet_of in ap (λ t. 0 ∷ 5 ∷ 0 ∷ 0 ∷ t) (append_assoc text (0 ∷ []) kept)),
    )

-- A text of up to 251 bytes is read from the buffer, and a longer one is read as empty.
await-packet :
    (seq : ℕ) (text : Bytes) (reads : List Reading)
    → All IsPrintable text
    → await seq buffer (datagram (packet_of text) ∷ reads)
      ≡ (abort (if ltb 251 (length text) then [] else text), reads)
await-packet seq text reads h = if_ind P (ltb 251 (length text)) [] text long short
  where
    P : Bytes → Type 0
    P msg = await seq buffer (datagram (packet_of text) ∷ reads) ≡ (abort msg, reads)

    size : 4 ≤ length (packet_of text)
    size = omega (arith, packet_length text)

    long : ltb 251 (length text) ≡ true → P []
    long l =
        let (e, refused) = tftp_str_open (take 252 text) (take-IsPrintable 252 text h) in
        await_error seq 0 0 buffer (packet_of text) (take 252 text) reads size
          (overlay_long text (ground arith))
        ∙ ap (λ r. (abort (error_message r), reads)) refused
        ∙ unfold error_message in refl

    short : ltb 251 (length text) ≡ false → P text
    short l =
        let (rest, here) = overlay_short text (ground arith) in
        await_error seq 0 0 buffer (packet_of text) (text ++ (0 ∷ rest)) reads size here
        ∙ ap (λ r. (abort (error_message r), reads)) (tftp_str_complete text rest h)
        ∙ unfold error_message in refl

-- What `send` makes of a message.
abbrev pub heard : Bytes → Bytes
heard msg = if ltb 251 (length msg) then [] else msg

heard_long : (msg : Bytes) → 251 < length msg → heard msg ≡ []
heard_long msg h = ground arith

heard_cut :
    (msg : Bytes)
    → heard (if ltb max_error_size (length msg) then take max_error_size msg else msg) ≡ heard msg
heard_cut msg =
    if_ind (λ text. heard text ≡ heard msg) (ltb max_error_size (length msg))
      (take max_error_size msg) msg
      (λ l.
        let more : max_error_size < length msg = ltb→lt _ _ l in
        heard_long (take max_error_size msg) (omega (arith, more, length-take max_error_size msg))
        ∙ sym (heard_long msg (omega (arith, more))))
      (λ _. refl)

cut-IsPrintable :
    (msg : Bytes)
    → All IsPrintable msg
    → All IsPrintable (if ltb max_error_size (length msg) then take max_error_size msg else msg)
cut-IsPrintable msg h =
    if_ind (All IsPrintable) (ltb max_error_size (length msg)) (take max_error_size msg) msg
      (λ _. take-IsPrintable max_error_size msg h) (λ _. h)

await-tftp_error :
    (seq : ℕ) (msg : Bytes) (reads : List Reading)
    → All IsPrintable msg
    → await seq buffer (datagram (tftp_error msg) ∷ reads) ≡ (abort (heard msg), reads)
await-tftp_error seq msg reads h =
    let text = if ltb max_error_size (length msg) then take max_error_size msg else msg in
    let same : tftp_error msg ≡ packet_of text = unfold packet_of in tftp_error-printable msg h in
    ap (λ d. await seq buffer (datagram d ∷ reads)) same
    ∙ await-packet seq text reads (cut-IsPrintable msg h)
    ∙ ap (λ t. (abort t, reads)) (heard_cut msg)

attempt-tftp_error :
    (k seq : ℕ) (b msg : Bytes) (sent : List Bytes) (reads : List Reading) (w : List Bool)
    → All IsPrintable msg
    → attempt
        (suc k)
        b
        seq
        (record { sent = sent; reads = datagram (tftp_error msg) ∷ reads; write_fails = false ∷ w })
      ≡ (
        some (aborted (heard msg)),
        record { sent = sent ++ (b ∷ []); reads = reads; write_fails = w },
      )
unfolding attempt write put settle
attempt-tftp_error k seq b msg sent reads w h = rw (await-tftp_error seq msg reads h) refl

attempts_positive : (n : ℕ) → (k : ℕ) × (attempts_of n ≡ suc k)
unfolding attempts_of
attempts_positive zero = (4, refl)
attempts_positive (suc n) = (n, ground arith)

-- When the write of a packet succeeds and the client answers with the ERROR packet that the server
-- itself would write for a printable message: `send` writes the packet once, reads nothing more, and
-- returns an error with the message, or with an empty text if the message has more than 251 bytes,
-- since the buffer has 256.
pub send-tftp_error :
    (write_attempts seq : ℕ) (b msg : Bytes) (sent : List Bytes) (reads : List Reading)
    (w : List Bool)
    → All IsPrintable msg
    → send write_attempts b seq
        (record { sent = sent; reads = datagram (tftp_error msg) ∷ reads; write_fails = false ∷ w })
      ≡ (
        some (aborted (heard msg)),
        record { sent = sent ++ (b ∷ []); reads = reads; write_fails = w },
      )
unfolding send
send-tftp_error write_attempts seq b msg sent reads w h =
    let (k, tries) = attempts_positive write_attempts in
    rw tries (attempt-tftp_error k seq b msg sent reads w h)
