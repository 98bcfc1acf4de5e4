-- ===== src/Tftp/Transfer/Negotiated.antt =====
-- A whole transfer to a client that acknowledges what it gets, options included.
use netboot.Prelude.{
  ℕ, suc, ◌≡◌, sym, Bool, true, false, ◌&&◌, ◌||◌, not, none, some, Option, List, [], ◌∷◌, ◌++◌,
  append-nil, Bytes, length, ◌==◌, if◌then◌else◌,
}
use mathlib.Core.Path.{subst}
use netboot.Tftp.Conn.{Conn, Reading, SendError, datagram, send}
use netboot.Tftp.Conn.Acked.{ack, send-ack}
use netboot.Tftp.Request.{Rrq}
use netboot.Tftp.Transfer.{
  Server, File, TransferError, sending_oack, clamp, oack, send_file, transfer_file,
}
use netboot.Tftp.Transfer.Blocks.{used_size}
use netboot.Tftp.Transfer.Delivery.{Delivered}
use netboot.Tftp.Transfer.Acked.{acks, acking, send_file-acks}

module _ (srv : Server) (req : Rrq) (f : File) where
  -- Whether the server acknowledges options of the request, and the block size that it takes.
  abbrev pub negotiates : Bool
  negotiates = not (req.block_size == 0) || (req.want_size && not (f.size == 0))

  abbrev pub block_size_for : ℕ
  block_size_for = if req.block_size == 0 then 0 else clamp srv req.block_size

  abbrev pub option_packet : List Bytes
  option_packet = if negotiates then oack block_size_for req.want_size f.size ∷ [] else []

  -- What a client sends that acknowledges the options, if there are any, and every block.
  abbrev pub cooperative : List Reading
  cooperative =
      let blocks = acks (suc (length f.contents)) (used_size block_size_for) 1 f.contents in
      if negotiates then datagram (ack 0) ∷ blocks else blocks

  Sent : List Bytes → List Bytes → Option TransferError × Conn → Type 0
  Sent sent before r =
      (r.0 ≡ none) × Delivered 1 (used_size block_size_for) f.contents (sent ++ before) r.1.sent

  after_options :
      (options : Bool) (sent : List Bytes)
      → f.fails ≡ false
      → let blocks = acks (suc (length f.contents)) (used_size block_size_for) 1 f.contents in
        let packet = oack block_size_for req.want_size f.size in
        let c = acking sent (if options then datagram (ack 0) ∷ blocks else blocks) in
        let (e, c') = send srv.write_attempts packet 0 c in
        Sent sent (if options then packet ∷ [] else []) (
          if options
          then elim e [
            | some x ↦ (some (sending_oack x), c')
            | none ↦ send_file srv block_size_for f c'
          ]
          else send_file srv block_size_for f c)
  unfolding Sent
  after_options true sent whole =
      subst Continues (sym (send-ack srv.write_attempts packet 0 sent _))
        (send_file-acks srv block_size_for f (sent ++ (packet ∷ [])) whole)
    where
      packet : Bytes
      packet = oack block_size_for req.want_size f.size

      Continues : Option SendError × Conn → Type 0
      Continues (e, c) =
          Sent sent (packet ∷ []) (elim e [
            | some x ↦ (some (sending_oack x), c)
            | none ↦ send_file srv block_size_for f c
          ])
  after_options false sent whole =
      rw (append-nil sent) (send_file-acks srv block_size_for f sent whole)

  -- The transfer of a file that can be read ends without an error, if the client acknowledges the
  -- option packet, where there is one, and every block, and no write fails: the server has written
  -- the option packet and then the blocks of the negotiated size, each exactly once and in order.
  pub transfer_file-cooperative :
      (sent : List Bytes)
      → f.fails ≡ false
      → let r = transfer_file srv req f (acking sent cooperative) in
        (r.0 ≡ none)
        × Delivered 1 (used_size block_size_for) f.contents (sent ++ option_packet) r.1.sent
  unfolding transfer_file Sent
  transfer_file-cooperative sent whole = after_options negotiates sent whole
