-- ===== src/Dhcp6/Packet.antt =====
-- dhcp6/packet.go: packets, their wire form, and which ones the server answers.
pub mod RoundTrip
use netboot.Prelude.{
  ℕ, Bool, true, false, ◌&&◌, ◌||◌, not, Option, none, some, List, [], ◌∷◌, ◌++◌, Bytes, length,
  take, replicate, slice, ◌==◌, if◌then◌else◌, ◌-◌,
}
use netboot.Prelude.Assoc.{has}
use netboot.Net.{equal}
use netboot.Dhcp6.Slice.{Outcome, returned, failed, panicked, ◌>>=◌, Slice, sub}
use netboot.Dhcp6.Options.{
  Options, OptionsError, opt_client_id, opt_server_id, opt_ia_na, opt_ia_ta, unmarshal_options,
  marshal_options, value_of, has_boot_file_url,
}

-- type MessageType
abbrev pub msg_solicit : ℕ
msg_solicit = 1

abbrev pub msg_advertise : ℕ
msg_advertise = 2

abbrev pub msg_request : ℕ
msg_request = 3

abbrev pub msg_reply : ℕ
msg_reply = 7

abbrev pub msg_release : ℕ
msg_release = 8

abbrev pub msg_information_request : ℕ
msg_information_request = 11

-- type Packet struct; the transaction's three bytes.
pub record Packet : Type 0 where
  pub type : ℕ
  pub transaction_id : Bytes
  pub options : Options

-- s[0]
first_byte : Slice → Outcome OptionsError ℕ
first_byte s = go s.visible
  where
    go : Bytes → Outcome OptionsError ℕ
    go [] = panicked
    go (b ∷ bs) = returned b

-- Unmarshal.
unfoldable pub unmarshal : Slice → ℕ → Outcome OptionsError Packet
unfolding first_byte
unmarshal bs packet_length = do
  body ← sub bs 4 packet_length
  options ← unmarshal_options body
  type ← first_byte bs
  id ← sub bs 1 4
  returned (record { type = type; transaction_id = id.visible; options = options })

-- Marshal, which cannot fail.
unfoldable pub marshal : Packet → Bytes
unfolding marshal_options
marshal p =
    p.type
    ∷ (take 3 p.transaction_id
        ++ (replicate (3 - length p.transaction_id) 0 ++ marshal_options p.options))

-- Why a packet is not answered.
pub data DiscardReason : Type 0 where
  unknown_packet : DiscardReason
  no_boot_file_url no_client_id has_server_id no_server_id : DiscardReason
  other_server has_ia : DiscardReason

-- bytes.Compare(options.ServerID(), serverDuid) != 0
unfoldable pub is_other_server : Options → Bytes → Bool
unfolding value_of equal
is_other_server o duid = elim (value_of opt_server_id o) [
  | none ↦ not (equal [] duid)
  | some id ↦ not (equal id.visible duid)
]

-- The three checks. `none` means that the packet is to be answered.
pub discard_solicit : Bool → Options → Option DiscardReason
unfolding has
discard_solicit url o =
    if not url
    then some no_boot_file_url
    else if not (has opt_client_id o)
    then some no_client_id
    else if has opt_server_id o
    then some has_server_id
    else none

pub discard_request : Bool → Options → Bytes → Option DiscardReason
unfolding has is_other_server
discard_request url o duid =
    if not url
    then some no_boot_file_url
    else if not (has opt_client_id o)
    then some no_client_id
    else if not (has opt_server_id o)
    then some no_server_id
    else if is_other_server o duid
    then some other_server
    else none

pub discard_information_request : Bool → Options → Bytes → Option DiscardReason
unfolding has is_other_server
discard_information_request url o duid =
    if not url
    then some no_boot_file_url
    else if has opt_ia_na o || has opt_ia_ta o
    then some has_ia
    else if has opt_server_id o && is_other_server o duid
    then some other_server
    else none

-- ShouldDiscard. The test for a boot file's URL reads the Option Request, and can panic there.
unfoldable pub should_discard : Packet → Bytes → Outcome OptionsError (Option DiscardReason)
unfolding discard_solicit discard_request discard_information_request
should_discard p duid =
    if p.type == msg_solicit
    then (do url ← has_boot_file_url p.options; returned (discard_solicit url p.options))
    else if p.type == msg_request
    then (do url ← has_boot_file_url p.options; returned (discard_request url p.options duid))
    else if p.type == msg_information_request
    then (do
      url ← has_boot_file_url p.options
      returned (discard_information_request url p.options duid))
    else if p.type == msg_release
    then returned none
    else returned (some unknown_packet)
