-- ===== src/Tftp/Serve.antt =====
-- (s *Server) Serve of tftp/tftp.go, over the datagrams that the listening socket yields, and the
-- handlers of tftp/handlers.go. Every transfer has a socket of its own, so that the transfers that run
-- at the same time do not meet.
pub mod Requests
use netboot.Prelude.{
  Bool, true, false, Option, none, some, List, [], ◌∷◌, ◌++◌, Bytes, length, take, ℕ,
}
use netboot.Prelude.Result.{Result, ok, err}
use netboot.Tftp.Conn.{Conn}
use netboot.Tftp.Request.{Rrq, RrqError, parse_rrq}
use netboot.Tftp.Transfer.{Server, File, TransferError, transfer}

-- A Handler: the file for a path and the address of the client, if there is one.
abbrev pub Handler : Type 0
Handler = Bytes → Bytes → Option File

-- What ReadFrom answers: the address of a client and its datagram, with the connection that dialling
-- this client gives, or an error.
pub data Turn : Type 0 where
  arrives : Bytes → Bytes → Option Conn → Turn
  read_fails : Turn

-- A transfer that has ended: what TransferLog is told of it, and what was written to its socket.
pub record Transferred : Type 0 where
  pub client : Bytes
  pub path : Bytes
  pub failure : Option TransferError
  pub conn : Option Conn

-- How Serve stands at the end of the turns: it returned an error, or waits for a datagram.
pub data End : Type 0 where
  no_handler no_deadline reading_failed waits : End

abbrev pub buffer_size : ℕ
buffer_size = 512

-- transferAndLog
unfoldable pub transfer_and_log : Server → Handler → Bytes → Rrq → Option Conn → Transferred
unfolding transfer
transfer_and_log srv handler client req conn =
    let (failure, conn') = transfer srv (λ path. handler path client) req conn in
    record { client = client; path = req.filename; failure = failure; conn = conn' }

-- The transfer that a datagram starts; a bad request starts none.
unfoldable pub started :
    Server → Handler → Bytes → Option Conn → Result RrqError Rrq → List Transferred
unfolding transfer_and_log
started srv handler client conn (err e) = []
started srv handler client conn (ok req) = transfer_and_log srv handler client req conn ∷ []

-- The loop of Serve: the transfers in the order in which they were started.
unfoldable pub serve_loop : Server → Handler → List Turn → List Transferred × End
unfolding started parse_rrq
serve_loop srv handler [] = ([], waits)
serve_loop srv handler (read_fails ∷ turns) = ([], reading_failed)
serve_loop srv handler (arrives client datagram conn ∷ turns) =
    let (later, end) = serve_loop srv handler turns in
    (started srv handler client conn (parse_rrq (take buffer_size datagram)) ++ later, end)

-- Serve; `deadline_set` says whether SetDeadline succeeds.
unfoldable pub serve : Server → Option Handler → Bool → List Turn → List Transferred × End
unfolding serve_loop
serve srv none deadline_set turns = ([], no_handler)
serve srv (some handler) false turns = ([], no_deadline)
serve srv (some handler) true turns = serve_loop srv handler turns

-- The address of ListenAndServe.
unfoldable pub listen_address : Bytes → Bytes
listen_address [] = b':' ∷ b'6' ∷ b'9' ∷ []
listen_address (c ∷ addr) = c ∷ addr

-- ConstantHandler
unfoldable pub constant_handler : Bytes → Handler
constant_handler bs path client = some (record { contents = bs; fails = false; size = length bs })
