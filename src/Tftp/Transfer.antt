-- ===== src/Tftp/Transfer.antt =====
-- (s *Server) transfer of tftp/tftp.go: the option acknowledgement and the data blocks.
pub mod Blocks
pub mod Delivery
pub mod Acked
pub mod Negotiated
use netboot.Prelude.{
  ℕ, zero, suc, ◌+◌, ◌-◌, ◌*◌, ◌/◌, ◌%◌, Bool, true, false, ◌&&◌, ◌||◌, not, Option, none, some,
  List, [], ◌∷◌, ◌++◌, Bytes, length, take, drop, ltb, ◌==◌, if◌then◌else◌,
}
use netboot.Prelude.Text.{literal}
use netboot.Strconv.{format_int}
use netboot.Tftp.Request.{Rrq, tftp_error}
use netboot.Tftp.Conn.{Conn, SendError, write, send}

-- The settings of a server that a transfer reads; 0 stands for the default.
pub record Server : Type 0 where
  pub write_attempts : ℕ
  pub max_block_size : ℕ

-- What a handler opens: the bytes that reads deliver, whether the end is an error in place of EOF,
-- and the size that it reports.
pub record File : Type 0 where
  pub contents : Bytes
  pub fails : Bool
  pub size : ℕ

-- `out_of_fuel` is no Go value.
pub data TransferError : Type 0 where
  creating_socket getting_file out_of_fuel : TransferError
  sending_oack : SendError → TransferError
  reading_block : ℕ → TransferError
  sending_block : ℕ → SendError → TransferError

abbrev pub default_block_size : ℕ
default_block_size = 1450

-- The limit on block sizes, and a requested size under it. A request of 0 is none.
unfoldable pub clamp : Server → ℕ → ℕ
clamp srv block_size =
    let max_block_size =
      if srv.max_block_size == 0 then default_block_size else srv.max_block_size in
    if ltb max_block_size block_size then max_block_size else block_size

-- The option acknowledgement; `block_size` is the clamped one.
unfoldable pub oack : ℕ → Bool → ℕ → Bytes
unfolding format_int
oack block_size want_size size =
    0
    ∷ 6
    ∷ ((if block_size == 0
          then []
          else literal "blksize" ++ (0 ∷ (format_int block_size ++ (0 ∷ []))))
        ++ (if want_size && not (size == 0)
            then literal "tsize" ++ (0 ∷ (format_int size ++ (0 ∷ [])))
            else []))

abbrev pub data_packet : ℕ → Bytes → Bytes
data_packet seq block = 0 ∷ 3 ∷ (seq / 256) ∷ (seq % 256) ∷ block

-- What follows from the result of sending a block; `next` is the next round.
pub after_block :
    ℕ → Option SendError → Bool → Conn → Option TransferError × Conn → Option TransferError × Conn
after_block seq (some x) short c next =
    (some (sending_block seq x), (write c (tftp_error (literal "timeout"))).0)
after_block seq none short c next = if short then (none, c) else next

-- The loop over the blocks; `seq` is a uint16.
pub data_loop : ℕ → Server → ℕ → ℕ → Bytes → Bool → Conn → Option TransferError × Conn
data_loop zero srv block_size seq contents fails c = (some out_of_fuel, c)
data_loop (suc fuel) srv block_size seq contents fails c =
    let block = take block_size contents in
    let short = ltb (length block) block_size in
    let (e, c') = send srv.write_attempts (data_packet seq block) seq c in
    let next =
      data_loop fuel srv block_size ((seq + 1) % 65536) (drop block_size contents) fails c' in
    let stop = (write c (tftp_error (literal "internal server error"))).0 in
    if short && fails then (some (reading_block seq), stop) else after_block seq e short c' next

-- The blocks of a file, after the acknowledgement of the options. A round takes a byte at least,
-- but for the last.
unfoldable pub send_file : Server → ℕ → File → Conn → Option TransferError × Conn
unfolding data_loop after_block send write tftp_error
send_file srv block_size f c =
    let size = if block_size == 0 then 512 else block_size in
    data_loop (suc (length f.contents)) srv size 1 f.contents f.fails c

unfoldable pub transfer_file : Server → Rrq → File → Conn → Option TransferError × Conn
unfolding clamp oack send send_file
transfer_file srv req f c =
    let block_size = if req.block_size == 0 then 0 else clamp srv req.block_size in
    let (e, c') = send srv.write_attempts (oack block_size req.want_size f.size) 0 c in
    if not (req.block_size == 0) || (req.want_size && not (f.size == 0))
    then elim e [ some x ↦ (some (sending_oack x), c') | none ↦ send_file srv block_size f c' ]
    else send_file srv block_size f c

-- `transfer`, for a handler and the connection that dialling the client gave, if it did.
unfoldable pub transfer :
    Server → (Bytes → Option File) → Rrq → Option Conn → Option TransferError × Option Conn
unfolding transfer_file write tftp_error
transfer srv handler req none = (some creating_socket, none)
transfer srv handler req (some c) = elim (handler req.filename) [
  | none ↦ (some getting_file, some (write c (tftp_error (literal "failed to get file"))).0)
  | some f ↦ let (e, c') = transfer_file srv req f c in (e, some c')
]
