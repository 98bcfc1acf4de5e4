-- ===== src/Dhcp6/Builder/Messages.antt =====
-- The five kinds of answer begin with the same two identifiers.
use netboot.Prelude.{ℕ, ◌≡◌, refl, ◌∙◌, Option, none, some, List, [], ◌∷◌, ◌++◌, Bytes}
use mathlib.Core.Path.{subst}
use netboot.Prelude.Assoc.{lookup}
use netboot.Prelude.Text.{literal}
use netboot.Dhcp6.Slice.{Slice, returned, bind-returned}
use netboot.Dhcp6.Options.{DhcpOption, opt_client_id, opt_server_id, make_option, value_of}
use netboot.Dhcp6.Packet.{Packet, msg_advertise, msg_reply}
use netboot.Dhcp6.Pool.{Association}
use netboot.Dhcp6.Builder.{
  PacketBuilder, collect, address_options, refusal_options, boot_options, make_status_option,
  opt_status_code, make_msg_advertise, make_msg_reply, make_msg_information_request_reply,
  make_msg_release_reply, make_msg_advertise_with_no_addrs_available,
}
use netboot.Dhcp6.Builder.Identifiers.{
  first_with, value_of-collect, first_with-append, address_options-none, refusal_options-none,
  returned-injective,
}

abbrev pub exactly : Bytes → Option Slice
exactly bs = some (record { visible = bs; spare = [] })

-- A packet with this transaction, type, client and server.
pub record Carries (id duid client : Bytes) (type : ℕ) (reply : Packet) : Type 0 where
  pub same_transaction : reply.transaction_id ≡ id
  pub right_type : reply.type ≡ type
  pub names_client : value_of opt_client_id reply.options ≡ exactly client
  pub names_server : value_of opt_server_id reply.options ≡ exactly duid

-- Options that begin with the client's identifier, where the first of the server is the server's own.
packet-Carries :
    (id duid client : Bytes) (type : ℕ) (os : List DhcpOption)
    → first_with opt_server_id os ≡ exactly duid
    → Carries id duid client type (record {
      type = type;
      transaction_id = id;
      options = collect [] (make_option opt_client_id client ∷ os);
    })
unfolding value_of lookup make_option
packet-Carries id duid client type os h =
    let all = make_option opt_client_id client ∷ os in
    record {
      same_transaction = refl;
      right_type = refl;
      names_client = value_of-collect opt_client_id [] all;
      names_server = value_of-collect opt_server_id [] all ∙ h;
    }

boot_options-server :
    (duid : Bytes) (arch : ℕ) (url : Bytes) (preference : Option Bytes) (dns : List Bytes)
    → first_with opt_server_id (boot_options duid arch url preference dns) ≡ exactly duid
unfolding boot_options make_option
boot_options-server duid arch url preference dns = refl

module _ (id duid client : Bytes) where
  pub make_msg_advertise-Carries :
      (b : PacketBuilder) (arch : ℕ) (as' : List Association) (url : Bytes)
      (preference : Option Bytes) (dns : List Bytes) (reply : Packet)
      → make_msg_advertise b id duid client arch as' url preference dns ≡ returned reply
      → Carries id duid client msg_advertise reply
  unfolding make_msg_advertise
  make_msg_advertise-Carries b arch as' url preference dns reply h =
      let (os, addresses, last) = bind-returned (address_options b as') _ h in
      subst (Carries id duid client msg_advertise) (returned-injective last) (
        packet-Carries id duid client msg_advertise
          (os ++ boot_options duid arch url preference dns)
          (first_with-append opt_server_id os _ (address_options-none b as' addresses)
            ∙ boot_options-server duid arch url preference dns))

  pub make_msg_reply-Carries :
      (b : PacketBuilder) (arch : ℕ) (as' : List Association) (without : List Bytes) (url : Bytes)
      (dns : List Bytes) (message : Bytes) (reply : Packet)
      → make_msg_reply b id duid client arch as' without url dns message ≡ returned reply
      → Carries id duid client msg_reply reply
  unfolding make_msg_reply
  make_msg_reply-Carries b arch as' without url dns message reply h =
      let boot = boot_options duid arch url none dns in
      let (os, addresses, h1) = bind-returned (address_options b as') _ h in
      let (ps, refused, last) = bind-returned (refusal_options b message without) _ h1 in
      subst (Carries id duid client msg_reply) (returned-injective last) (
        packet-Carries id duid client msg_reply (os ++ (ps ++ boot)) (
          first_with-append opt_server_id os _ (address_options-none b as' addresses)
          ∙ (first_with-append opt_server_id ps boot
                (refusal_options-none b message without refused)
              ∙ boot_options-server duid arch url none dns)))

  pub make_msg_information_request_reply-Carries :
      (arch : ℕ) (url : Bytes) (dns : List Bytes)
      → Carries id duid client msg_reply
          (make_msg_information_request_reply id duid client arch url dns)
  unfolding make_msg_information_request_reply
  make_msg_information_request_reply-Carries arch url dns =
      packet-Carries id duid client msg_reply (boot_options duid arch url none dns)
        (boot_options-server duid arch url none dns)

  pub make_msg_release_reply-Carries :
      Carries id duid client msg_reply (make_msg_release_reply id duid client)
  unfolding make_msg_release_reply make_option
  make_msg_release_reply-Carries =
      packet-Carries id duid client msg_reply
        (make_option opt_server_id duid
          ∷ make_option opt_status_code (0 ∷ 0 ∷ literal "Release received.")
          ∷ [])
        refl

  pub make_msg_advertise_with_no_addrs_available-Carries :
      (message : Bytes)
      → Carries id duid client msg_advertise
          (make_msg_advertise_with_no_addrs_available id duid client message)
  unfolding make_msg_advertise_with_no_addrs_available make_option
  make_msg_advertise_with_no_addrs_available-Carries message =
      packet-Carries id duid client msg_advertise
        (make_option opt_server_id duid ∷ make_status_option 2 message ∷ []) refl
