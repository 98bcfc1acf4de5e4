-- ===== src/Server/ServeTftp.antt =====
-- server/tftp.go: serveTFTP, the TFTP server over the boot programs of the server.
pub mod Booted
use netboot.Prelude.{ℕ, Bool, true, false, Option, none, some, List, [], ◌∷◌, Bytes}
use netboot.Prelude.Assoc.{Assoc}
use netboot.Prelude.Result.{Result, ok, err}
use netboot.Tftp.Transfer
use netboot.Tftp.Transfer.{File, TransferError}
use netboot.Tftp.Serve.{Handler, Turn, Transferred, End, serve}
use netboot.Server.Events.{Event}
use netboot.Server.Tftp.{PathError, handle_tftp, log_tftp_transfer}

file_or_none : Result PathError File → Option File
file_or_none (ok file) = some file
file_or_none (err e) = none

-- The method value s.handleTFTP, which does not look at the address of the client.
unfoldable pub tftp_handler : Assoc Bytes → Handler
unfolding file_or_none handle_tftp
tftp_handler ipxe path client = file_or_none (handle_tftp ipxe path)

-- The tftp.Server of serveTFTP, with the default settings.
abbrev pub settings : Transfer.Server
settings = record { write_attempts = 0; max_block_size = 0 }

-- serveTFTP
unfoldable pub serve_tftp : Assoc Bytes → Bool → List Turn → List Transferred × End
unfolding serve tftp_handler
serve_tftp ipxe deadline_set turns = serve settings (some (tftp_handler ipxe)) deadline_set turns

failed : Option TransferError → Bool
failed none = false
failed (some e) = true

-- The machines' events after transfers that ended in this order, each with the event for it.
unfoldable pub log_transfers :
    (Bytes → ℕ) → List (Transferred × Event) → Assoc (List Event) → Assoc (List Event)
unfolding failed log_tftp_transfer
log_transfers key [] events = events
log_transfers key ((t, e) ∷ more) events =
    log_transfers key more (log_tftp_transfer key e t.path (failed t.failure) events)
