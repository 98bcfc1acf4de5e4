-- ===== src/Dhcp4/Opt.antt =====
-- The option codes of dhcp4/options.go that the program uses, and option 77 of server/dhcp.go.
use netboot.Prelude.{ℕ}

abbrev pub boot_servers_control : ℕ
boot_servers_control = 6

abbrev pub vendor_specific : ℕ
vendor_specific = 43

abbrev pub overload : ℕ
overload = 52

abbrev pub dhcp_message_type : ℕ
dhcp_message_type = 53

abbrev pub server_identifier : ℕ
server_identifier = 54

abbrev pub message : ℕ
message = 56

abbrev pub vendor_identifier : ℕ
vendor_identifier = 60

abbrev pub user_class : ℕ
user_class = 77

abbrev pub client_system : ℕ
client_system = 93

abbrev pub uid_guid_client_identifier : ℕ
uid_guid_client_identifier = 97
