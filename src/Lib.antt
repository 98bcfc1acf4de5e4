-- ===== src/Lib.antt =====
-- netboot: a server that boots machines over the network. A client broadcasts a DHCP discover with
-- the PXE options; the ProxyDHCP service (server/dhcp.go) finds out what firmware it runs and offers
-- it a boot file, the PXE service (server/pxe.go) answers UEFI clients on port 4011, and the TFTP
-- server (tftp/) sends the boot program. The package dhcp4/ has the packets of these services. The
-- package dhcp6/ answers DHCPv6 clients, with addresses from the pool of dhcp6/pool/.
--
-- Files and the code that they model:
--   Prelude/      lists and maps over native numbers, Go's (value, error) results, sorting of keys
--   Net, Strconv  what the code uses of Go's packages net, bytes and strconv
--   Dhcp4.Opt, Dhcp4.MessageType   constants of dhcp4/options.go and dhcp4/packet.go
--   Dhcp4.Options    dhcp4/options.go: Options.Unmarshal is `unmarshal`, marshalLimited is
--                    `marshal_limited`, Marshal is `marshal`; Dhcp4.Options.Values has the accessors
--   Dhcp4.Packet     dhcp4/packet.go: Packet, Marshal, Unmarshal, txType
--   Tftp.Request     tftp/tftp.go: parseRRQ, tftpStr, tftpError
--   Tftp.Conn        tftp/tftp.go: send, over a connection given by a script
--   Tftp.Transfer    tftp/tftp.go: transfer
--   Tftp.Serve       tftp/tftp.go: Serve; Tftp.Handlers has FilesystemHandler of tftp/handlers.go
--   Dhcp6.Slice      Go slices with the bytes behind them, and panics
--   Dhcp6.Options    dhcp6/options.go
--   Dhcp6.Packet     dhcp6/packet.go
--   Dhcp6.Pool       dhcp6/pool/random_address_pool.go
--   Dhcp6.Builder    dhcp6/packet_builder.go
--   Dhcp6.Readable   dhcp6/options.go: what HumanReadable reads
--   Dhcp6.BootConfig dhcp6/boot_configuration.go
--   Dhcp6.Conn       dhcp6/conn.go: RecvDHCP; Dhcp6.Conn.Open has NewConn and SendDHCP
--   Dhcp4.Conn       dhcp4/conn.go: RecvDHCP is `recv_round`, SendDHCP is `send_dhcp`
--   Dhcp4.Conn.Open  dhcp4/conn.go and dhcp4/conn_linux.go: NewConn and NewSnooperConn
--   Dhcp4.Conn.Raw   dhcp4/conn_linux.go: the UDP headers of Recv and Send
--   Constants        constants/constants.go
--   Url              what the code uses of Go's package net/url
--   Utils            utils/common.go: ExpandCmdline
--   Utils.UrlSign    utils/urlsign.go: SignURL and GetURL, with base64
--   Booters          booters/booters.go: the static booter; Booters.Api has the API booter,
--                    Booters.Cmdline its constructCmdline
--   Server.Booter    types/types.go: Spec, Booter, FileNamer
--   Server.Mac       what the code uses of net.ParseMAC and strings.Split
--   Server.Dhcp      server/dhcp.go: isBootDHCP, validateDHCP, offerDHCP
--   Server.Serve     server/dhcp.go: the loop of serveDHCP
--   Server.Interface server/dhcp.go: interfaceIP
--   Server.Pxe       server/pxe.go: validatePXE, offerPXE
--   Server.ServePxe  server/pxe.go: the loop of servePXE
--   Server.ServeV6   server/dhcpv6.go: the loop of serveDHCP
--   Server.Tftp      server/tftp.go: extractInfo, handleTFTP, logTFTPTransfer
--   Server.ServeTftp server/tftp.go: serveTFTP
--   Server.Run       server/server.go: SetDefaultFirmwares, Serve of both servers, setDUID
--   Server.Run.Channel   server/server.go: the channel errs, the goroutines and Shutdown
--   Server.Http      server/http.go: the scripts; Server.Http.Handlers has the handlers and the mux
--   Server.Events    server/logging.go: machineEvent
--   Tests            runs of the theorems on concrete inputs
-- The modules below these hold the proofs.
--
-- Conventions. A byte slice is a list of numbers, below 256 where that matters; nil is the empty
-- list. A Go map is an association list, and the order of its entries stands for Go's unspecified
-- order of iteration. An error is a constructor for each error text. A loop over a shrinking input
-- runs on fuel; the entry function gives as much fuel as the input has bytes, of which every round
-- takes at least one. A socket is the list of datagrams
-- written and the list of what its reads and writes answer, so that every loss, delay or failure of
-- the network is one of these lists. A service is a loop over the turns of its surroundings: what
-- comes in, what the booter answers, what time it is. The clock and the random generator are arguments:
-- the values of the generator for one address are a list, and `stuck` says that it has come to an end
-- before an address was found, where the loop of the code goes on drawing.
--
-- Not modelled: the packet filter of dhcp4/conn_linux.go, which the kernel runs, and the deadlines of
-- sockets, which are passed on to it; logging and what only prints; the reader and writer of captures
-- of the tests (test/pcap/), and generated code (assets/). The goroutines of Serve appear as the
-- values that they send when they end, in any order (Server.Run.Channel), and the transfers of the
-- TFTP server, which share nothing, one by one. The hash of hash/fnv, the secretbox of
-- golang.org/x/crypto, text/template, encoding/json, url.Parse and the verb %q, which are not part of
-- the repository, are parameters, and so is what io.Copy to an http.ResponseWriter sends, and what a call of the operating system or an HTTP request
-- answers.
pub mod Prelude
pub mod Dhcp4
pub mod Net
pub mod Strconv
pub mod Url
pub mod Utils
pub mod Booters
pub mod Tftp
pub mod Dhcp6
pub mod Constants
pub mod Server
pub mod Tests
