-- ===== src/Tftp/Conn.antt =====
-- (s *Server) send of tftp/tftp.go over a scripted connection: what each `Read` and `Write` of the
-- socket answers is given by two lists. Behind its end no read delivers anything (each one times
-- out) and every write succeeds.
pub mod Sends
pub mod Acked
pub mod Attempts
pub mod Aborted
use netboot.Prelude.{
  ℕ, zero, suc, ◌+◌, ◌-◌, ◌*◌, Bool, true, false, Option, none, some, List, [], ◌∷◌, ◌++◌, Bytes,
  length, take, drop, get_or, replicate, ltb, ◌==◌, if◌then◌else◌, min,
}
use netboot.Prelude.Result.{Result, ok, err}
use netboot.Dhcp4.Options.Values.{uint16}
use netboot.Tftp.Request.{StrError, tftp_str}

-- What conn.Read answers: a datagram, a timeout, or another error.
pub data Reading : Type 0 where
  datagram : Bytes → Reading
  timeout broken : Reading

-- The socket: the datagrams written so far in order, and the scripts. `true` is a failing write.
pub record Conn : Type 0 where
  pub sent : List Bytes
  pub reads : List Reading
  pub write_fails : List Bool

pub data SendError : Type 0 where
  write_failed read_failed timed_out : SendError
  aborted : Bytes → SendError

pub put : Conn → Bytes → List Bool → Conn × Bool
put c b [] = (record c { sent = c.sent ++ (b ∷ []) }, true)
put c b (false ∷ w) = (record c { sent = c.sent ++ (b ∷ []); write_fails = w }, true)
put c b (true ∷ w) = (record c { write_fails = w }, false)

-- conn.Write: the datagram is out, and the flag is set, unless the write fails.
unfoldable pub write : Conn → Bytes → Conn × Bool
unfolding put
write c b = put c b c.write_fails

abbrev pub recv_size : ℕ
recv_size = 256

-- The receive buffer after a datagram of which `n` bytes fit: the rest keeps what it held.
pub overlay : Bytes → Bytes → Bytes
overlay d recv = take recv_size d ++ drop (min recv_size (length d)) recv

pub error_message : Result StrError (Bytes × Bytes) → Bytes
error_message (ok (msg, rest)) = msg
error_message (err e) = []

-- How waiting for an acknowledgement ends.
pub data Waited : Type 0 where
  acked again failed : Waited
  abort : Bytes → Waited

-- The inner loop of `send`: reads until an ACK of `seq`, an ERROR packet, a timeout or an error.
pub await : ℕ → Bytes → List Reading → Waited × List Reading
await seq recv [] = (again, [])
await seq recv (timeout ∷ reads) = (again, reads)
await seq recv (broken ∷ reads) = (failed, reads)
await seq recv (datagram d ∷ reads) =
    let recv' = overlay d recv in
    let more = await seq recv' reads in
    if ltb (min recv_size (length d)) 4
    then more
    else if uint16 (get_or recv' 0 0) (get_or recv' 1 0) == 4
    then (if uint16 (get_or recv' 2 0) (get_or recv' 3 0) == seq then (acked, reads) else more)
    else if uint16 (get_or recv' 0 0) (get_or recv' 1 0) == 5
    then (abort (error_message (tftp_str (drop 4 recv'))), reads)
    else more

-- What follows from the way that the wait ended; `retry` is the `continue Attempt`.
pub settle : Waited → Conn → Option SendError × Conn → Option SendError × Conn
settle acked c retry = (none, c)
settle failed c retry = (some read_failed, c)
settle (abort msg) c retry = (some (aborted msg), c)
settle again c retry = retry

-- The loop over the attempts that are left; `none` is the nil error.
pub attempt : ℕ → Bytes → ℕ → Conn → Option SendError × Conn
attempt zero b seq c = (some timed_out, c)
attempt (suc k) b seq c =
    let (c', written) = write c b in
    let (waited, reads) = await seq (replicate recv_size 0) c'.reads in
    let c'' = record c' { reads = reads } in
    let retry = attempt k b seq c'' in
    if written then settle waited c'' retry else (some write_failed, c')

abbrev pub default_write_attempts : ℕ
default_write_attempts = 5

-- `write_attempts` is the setting of the server; 0 (or less) stands for the default.
unfoldable pub attempts_of : ℕ → ℕ
attempts_of write_attempts = if write_attempts == 0 then default_write_attempts else write_attempts

unfoldable pub send : ℕ → Bytes → ℕ → Conn → Option SendError × Conn
unfolding overlay error_message tftp_str await write settle attempt attempts_of
send write_attempts b seq c = attempt (attempts_of write_attempts) b seq c
