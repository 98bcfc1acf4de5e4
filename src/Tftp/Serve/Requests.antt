-- ===== src/Tftp/Serve/Requests.antt =====
-- Every request is served, whatever else arrives.
use netboot.Prelude.{◌≡◌, refl, true, some, List, [], ◌∷◌, ◌++◌, append_assoc, Bytes, take, Option}
use netboot.Tftp.Conn.{Conn}
use netboot.Tftp.Request.{Rrq, parse_rrq}
use netboot.Tftp.Transfer.{Server}
use netboot.Prelude.Result.{ok}
use netboot.Tftp.Serve.{
  Handler, Turn, arrives, read_fails, buffer_size, transfer_and_log, started, serve_loop, serve,
}

-- No reading of the listening socket fails.
abbrev pub Readable : List Turn → Type 0
Readable [] = Unit
Readable (arrives client datagram conn ∷ turns) = Readable turns
Readable (read_fails ∷ turns) = ⊥

module _ (srv : Server) (handler : Handler) where
  -- The loop over two stretches of time is the loop over the one and then over the other.
  pub serve_loop-append :
      (before after : List Turn)
      → Readable before
      → serve_loop srv handler (before ++ after) ≡ (
        (serve_loop srv handler before).0 ++ (serve_loop srv handler after).0,
        (serve_loop srv handler after).1,
      )
  unfolding serve_loop
  serve_loop-append [] after h = refl
  serve_loop-append (arrives client datagram conn ∷ before) after h =
      rw (serve_loop-append before after h) (rw append_assoc refl)
  serve_loop-append (read_fails ∷ before) after h = absurd h

  -- A datagram that is a read request is served with a transfer of its own, whatever arrives before
  -- and after it, bad requests included, if no reading before it fails.
  pub serve-started :
      (before after : List Turn) (client datagram : Bytes) (conn : Option Conn) (req : Rrq)
      → Readable before
      → parse_rrq (take buffer_size datagram) ≡ ok req
      → (serve srv (some handler) true (before ++ (arrives client datagram conn ∷ after))).0
        ≡ (serve_loop srv handler before).0
          ++ (transfer_and_log srv handler client req conn ∷ (serve_loop srv handler after).0)
  unfolding serve started
  serve-started before after client datagram conn req h parses =
      rw (serve_loop-append before (arrives client datagram conn ∷ after) h)
        (unfold serve_loop in rw parses refl)
