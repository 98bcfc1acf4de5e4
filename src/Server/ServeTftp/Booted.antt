-- ===== src/Server/ServeTftp/Booted.antt =====
-- A client that asks for the path of its offer and acknowledges what it gets has the boot program.
use netboot.Prelude.{
  ℕ, zero, suc, ◌≤◌, ◌<◌, ◌≡◌, refl, ap, ◌∙◌, true, false, Option, none, some, List, [], ◌∷◌, ◌++◌,
  Bytes, length, take, All, arith, ltb, if_ind,
}
use netboot.Prelude.Assoc.{Assoc, lookup}
use netboot.Prelude.Result.{ok}
use netboot.Strconv.RoundTrip.{IsDigit, format_int-IsDigit}
use netboot.Tftp.Conn.{Conn}
use netboot.Tftp.Request.{Rrq, parse_rrq}
use netboot.Tftp.Request.Grammar.{
  IsPrintable, IsPair, encode_request, apply_all, fresh, parse_rrq-encode,
}
use netboot.Tftp.Request.Named.{filename-apply_all}
use netboot.Tftp.Transfer.{File, transfer, transfer_file}
use netboot.Tftp.Transfer.Blocks.{used_size}
use netboot.Tftp.Transfer.Delivery.{Delivered}
use netboot.Tftp.Transfer.Acked.{acking}
use netboot.Tftp.Transfer.Negotiated.{
  cooperative, block_size_for, option_packet, transfer_file-cooperative,
}
use netboot.Tftp.Serve.{Turn, arrives, Transferred, transfer_and_log, serve_loop, buffer_size}
use netboot.Tftp.Serve.Requests.{Readable, serve-started}
use netboot.Server.Strings.{hex_digit, mac_string}
use netboot.Server.Dhcp.{boot_path}
use netboot.Server.Tftp.Paths.{handle_tftp-boot_path}
use netboot.Server.ServeTftp.{tftp_handler, file_or_none, settings, serve_tftp}

hex_digit-IsPrintable : (n : ℕ) → n < 16 → IsPrintable (hex_digit n)
unfolding hex_digit
hex_digit-IsPrintable n h =
    if_ind IsPrintable (ltb n 10) _ _ (λ t. (omega arith, omega arith))
      (λ f. (omega arith, omega arith))

mac_string-IsPrintable : (mac : Bytes) → All (λ b. b < 256) mac → All IsPrintable (mac_string mac)
unfolding mac_string
mac_string-IsPrintable [] h = tt
mac_string-IsPrintable (b ∷ []) (h, hs) =
    (hex_digit-IsPrintable _ (omega arith), (hex_digit-IsPrintable _ (omega arith), tt))
mac_string-IsPrintable (b ∷ c ∷ bs) (h, hs) = (
  hex_digit-IsPrintable _ (omega arith),
  (
    hex_digit-IsPrintable _ (omega arith),
    ((omega arith, omega arith), mac_string-IsPrintable (c ∷ bs) hs),
  ),
)

All-IsPrintable_append :
    (s t : Bytes) → All IsPrintable s → All IsPrintable t → All IsPrintable (s ++ t)
All-IsPrintable_append [] t h k = k
All-IsPrintable_append (c ∷ s) t (h, hs) k = (h, All-IsPrintable_append s t hs k)

digits-IsPrintable : (s : Bytes) → All IsDigit s → All IsPrintable s
digits-IsPrintable [] h = tt
digits-IsPrintable (c ∷ s) ((lo, hi), hs) = ((omega arith, omega arith), digits-IsPrintable s hs)

boot_path-IsPrintable :
    (mac : Bytes) (fwtype : ℕ) → All (λ b. b < 256) mac → All IsPrintable (boot_path mac fwtype)
unfolding boot_path
boot_path-IsPrintable mac fwtype h =
    All-IsPrintable_append (mac_string mac) _ (mac_string-IsPrintable mac h)
      ((omega arith, omega arith), digits-IsPrintable _ (format_int-IsDigit fwtype))

take_all : (n : ℕ) (xs : Bytes) → length xs ≤ n → take n xs ≡ xs
take_all zero [] h = refl
take_all zero (x ∷ xs) h = absurd (omega arith)
take_all (suc n) [] h = refl
take_all (suc n) (x ∷ xs) h = ap (λ t. x ∷ t) (take_all n xs (omega arith))

-- The file of a boot program.
abbrev pub program_file : Bytes → File
program_file program = record { contents = program; fails = false; size = length program }

-- A transfer, among others, that has delivered the program to the client.
pub record IsBooted (client path program : Bytes) (req : Rrq) (ts : List Transferred) : Type 0 where
  pub before : List Transferred
  pub served : Transferred
  pub after : List Transferred
  pub among : ts ≡ before ++ (served ∷ after)
  pub to_client : served.client ≡ client
  pub of_path : served.path ≡ path
  pub fine : served.failure ≡ none
  pub socket : Conn
  pub has_socket : served.conn ≡ some socket
  pub delivered :
      let f = program_file program in
      Delivered 1
        (used_size (block_size_for settings req f))
        program
        (option_packet settings req f)
        socket.sent

transfer-found :
    (handler : Bytes → Option File) (req : Rrq) (c : Conn) (f : File)
    → handler req.filename ≡ some f
    → transfer settings handler req (some c)
      ≡ ((transfer_file settings req f c).0, some (transfer_file settings req f c).1)
unfolding transfer
transfer-found handler req c f h = rw (h, transfer) refl

module _ (ipxe : Assoc Bytes) (mac program : Bytes) (fwtype : ℕ) (six : length mac ≡ 6)
    (bytes : All (λ b. b < 256) mac) (known : fwtype < 10)
    (there : lookup fwtype ipxe ≡ some program) where
  tftp_handler-boot_path :
      (path client : Bytes)
      → path ≡ boot_path mac fwtype
      → tftp_handler ipxe path client ≡ some (program_file program)
  unfolding tftp_handler file_or_none
  tftp_handler-boot_path path client e =
      rw (e, handle_tftp-boot_path ipxe mac program fwtype six bytes (omega arith) there) refl

  -- A client asks for the path that its DHCP offer names, with any options that the server accepts,
  -- in a datagram of 512 bytes at most, and acknowledges the option packet and every block that it
  -- gets; no write to it fails, and no reading of the listening socket failed before. Then, whatever
  -- else the socket yields, one of the transfers is to this client and of this path, it ends without
  -- an error, and what was written is the option packet, where there is one, and then the boot
  -- program of the client's firmware in blocks of the negotiated size, each exactly once.
  pub serve_tftp-IsBooted :
      (before after : List Turn) (client : Bytes) (os : List (Bytes × Bytes)) (req : Rrq)
      → Readable before
      → All IsPair os
      → apply_all (fresh (boot_path mac fwtype)) os ≡ ok req
      → length (encode_request (boot_path mac fwtype) os) ≤ buffer_size
      → let c = acking [] (cooperative settings req (program_file program)) in
        let datagram = encode_request (boot_path mac fwtype) os in
        IsBooted client
          (boot_path mac fwtype)
          program
          req
          (serve_tftp ipxe true (before ++ (arrives client datagram (some c) ∷ after))).0
  unfolding serve_tftp transfer_and_log
  serve_tftp-IsBooted before after client os req readable pairs applied fits =
      let path = boot_path mac fwtype in
      let datagram = encode_request path os in
      let f = program_file program in
      let c = acking [] (cooperative settings req f) in
      let handler = tftp_handler ipxe in
      let named = filename-apply_all (fresh path) os req applied in
      let whole = take_all buffer_size datagram fits in
      let parses =
        ap parse_rrq whole
        ∙ parse_rrq-encode path os (boot_path-IsPrintable mac fwtype bytes) pairs
        ∙ applied in
      let found =
        transfer-found (λ p. handler p client) req c f
          (tftp_handler-boot_path req.filename client named) in
      let (fine, sent) = transfer_file-cooperative settings req f [] refl in
      record {
        before = (serve_loop settings handler before).0;
        served = transfer_and_log settings handler client req (some c);
        after = (serve_loop settings handler after).0;
        among =
            serve-started settings handler before after client datagram (some c) req readable
              parses;
        to_client = refl;
        of_path = named;
        fine = ap (λ r. r.0) found ∙ fine;
        socket = (transfer_file settings req f c).1;
        has_socket = ap (λ r. r.1) found;
        delivered = sent;
      }
