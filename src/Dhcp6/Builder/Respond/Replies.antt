-- ===== src/Dhcp6/Builder/Respond/Replies.antt =====
-- Every answer of BuildResponse is one to the packet that it was built for.
use netboot.Prelude.{
  ℕ, ◌≡◌, sym, ap, Bool, true, false, Option, none, some, List, Bytes, ◌==◌, if◌then◌else◌, if_ind,
}
use mathlib.Core.Path.{subst}
use netboot.Dhcp6.Slice.{Outcome, returned, ◌>>=◌, bind-returned}
use netboot.Dhcp6.Options.{OptionsError, ia_na_ids, client_arch_type}
use netboot.Dhcp6.Packet.{
  Packet, msg_solicit, msg_advertise, msg_request, msg_reply, msg_release, msg_information_request,
}
use netboot.Dhcp6.Pool.{Association, Pool, reserve_addresses, release_addresses}
use netboot.Dhcp6.Builder.{
  PacketBuilder, extract_ll_address_or_id, make_msg_advertise, make_msg_reply,
  make_msg_information_request_reply, make_msg_release_reply,
}
use netboot.Dhcp6.Builder.Identifiers.{returned-injective}
use netboot.Dhcp6.Builder.Messages.{
  Carries, make_msg_advertise-Carries, make_msg_reply-Carries,
  make_msg_information_request_reply-Carries, make_msg_release_reply-Carries,
  make_msg_advertise_with_no_addrs_available-Carries,
}
use netboot.Dhcp6.Builder.Respond.{
  BootConfiguration, Response, client_id_of, attach, ias_without_addresses, error_text,
  no_more_addresses, answer_solicit, answer_request, with_url, build_response,
}

-- The type of the answer to a packet.
abbrev pub reply_type : ℕ → ℕ
reply_type type = if type == msg_solicit then msg_advertise else msg_reply

some_packet : {p q : Packet} → ◌≡◌ {A = Option Packet} (some p) (some q) → p ≡ q
some_packet h = cc

module _ (hash : Bytes → Bytes → ℕ) (id_hash : Bytes → ℕ) (b : PacketBuilder) (duid : Bytes)
    (conf : BootConfiguration) (p : Packet) where
  client_text : Bytes
  client_text = (client_id_of p.options).visible

  -- If there is a packet in the response, it answers `p` with this type.
  Right : ℕ → Response → Type 0
  Right type r =
      (reply : Packet)
      → r.packet ≡ some reply
      → Carries p.transaction_id duid client_text type reply

  some-Right :
      (type : ℕ) (answer : Packet) (is_error : Bool) (pool : Pool)
      → Carries p.transaction_id duid client_text type answer
      → Right type (record { packet = some answer; failed = is_error; pool = pool })
  unfolding Right
  some-Right type answer is_error pool c =
      λ reply e. subst (Carries p.transaction_id duid client_text type) (some_packet e) c

  none-Right :
      (type : ℕ) (is_error : Bool) (pool : Pool)
      → Right type (record { packet = none; failed = is_error; pool = pool })
  unfolding Right
  none-Right type is_error pool = λ reply e. absurd (cc)

  answer_solicit-Right :
      (arch : ℕ) (url : Bytes) (ids : List Bytes) (given : Option Bool × List Association × Pool)
      (r : Response)
      → answer_solicit hash id_hash b duid conf p client_text arch url ids given ≡ returned r
      → Right msg_advertise r
  unfolding answer_solicit
  answer_solicit-Right arch url ids (none, as', pool) r h =
      let (reply, made, last) =
        bind-returned
          (make_msg_advertise b p.transaction_id duid client_text arch as' url conf.get_preference
            conf.get_recursive_dns)
          _ h in
      subst (Right msg_advertise) (returned-injective last) (
        some-Right msg_advertise reply false pool (
          make_msg_advertise-Carries p.transaction_id duid client_text b arch as' url
            conf.get_preference conf.get_recursive_dns reply made))
  answer_solicit-Right arch url ids (some e, as', pool) r h =
      subst (Right msg_advertise) (returned-injective h) (
        some-Right msg_advertise _ true pool (
          make_msg_advertise_with_no_addrs_available-Carries p.transaction_id duid client_text
            no_more_addresses))

  answer_request-Right :
      (arch : ℕ) (url : Bytes) (ids : List Bytes) (given : Option Bool × List Association × Pool)
      (r : Response)
      → answer_request hash id_hash b duid conf p client_text arch url ids given ≡ returned r
      → Right msg_reply r
  unfolding answer_request
  answer_request-Right arch url ids (e, as', pool) r h =
      let without = ias_without_addresses id_hash as' ids in
      let dns = conf.get_recursive_dns in
      let (text, shown, replied) = bind-returned (error_text e without) _ h in
      let (reply, made, last) =
        bind-returned
          (make_msg_reply b p.transaction_id duid client_text arch as' without url dns text) _
          replied in
      subst (Right msg_reply) (returned-injective last) (
        some-Right msg_reply reply _ pool (
          make_msg_reply-Carries p.transaction_id duid client_text b arch as' without url dns text
            reply made))

  with_url-Right :
      (type : ℕ) (pool : Pool) (answer : Bytes → ℕ → Bytes → Outcome OptionsError Response)
      (r : Response)
      → ((arch : ℕ) (url : Bytes) → answer client_text arch url ≡ returned r → Right type r)
      → with_url hash id_hash b duid conf p pool answer ≡ returned r
      → Right type r
  unfolding with_url client_text
  with_url-Right type pool answer r right h =
      let client = client_id_of p.options in
      let (id, found, h1) = bind-returned (extract_ll_address_or_id client) _ h in
      let (arch, known, h2) = bind-returned (client_arch_type p.options) _ h1 in
      by_url arch (conf.get_boot_url id.visible arch) h2
    where
      by_url :
          (arch : ℕ) (url : Option Bytes)
          → elim url [
            | none ↦ returned (record { packet = none; failed = true; pool = pool })
            | some u ↦ answer client_text arch u
          ]
            ≡ returned r
          → Right type r
      by_url arch none e = subst (Right type) (returned-injective e) (none-Right type true pool)
      by_url arch (some u) e = right arch u e

  solicit_type : (p.type == msg_solicit) ≡ true → msg_advertise ≡ reply_type p.type
  solicit_type t = sym (ap (λ x. if x then msg_advertise else msg_reply) t)

  other_type : (p.type == msg_solicit) ≡ false → msg_reply ≡ reply_type p.type
  other_type f = sym (ap (λ x. if x then msg_advertise else msg_reply) f)

  solicit-Right :
      (clock : ℕ → ℕ) (draws : List (ℕ × List ℕ)) (pool : Pool) (r : Response)
      → with_url hash id_hash b duid conf p pool (λ client arch url. (do
        ids ← ia_na_ids p.options
        answer_solicit hash id_hash b duid conf p client arch url ids
            (reserve_addresses hash clock client (attach ids draws) pool)))
        ≡ returned r
      → Right msg_advertise r
  solicit-Right clock draws pool r = with_url-Right msg_advertise pool _ r (λ arch url e.
      let (ids, listed, answered) = bind-returned (ia_na_ids p.options) _ e in
      answer_solicit-Right arch url ids _ r answered)

  request-Right :
      (clock : ℕ → ℕ) (draws : List (ℕ × List ℕ)) (pool : Pool) (r : Response)
      → with_url hash id_hash b duid conf p pool (λ client arch url. (do
        ids ← ia_na_ids p.options
        answer_request hash id_hash b duid conf p client arch url ids
            (reserve_addresses hash clock client (attach ids draws) pool)))
        ≡ returned r
      → Right msg_reply r
  request-Right clock draws pool r = with_url-Right msg_reply pool _ r (λ arch url e.
      let (ids, listed, answered) = bind-returned (ia_na_ids p.options) _ e in
      answer_request-Right arch url ids _ r answered)

  information-Right :
      (pool : Pool) (r : Response)
      → with_url hash id_hash b duid conf p pool (λ client arch url. returned (record {
        packet = some (
            make_msg_information_request_reply p.transaction_id duid client arch url
              conf.get_recursive_dns);
        failed = false;
        pool = pool;
      }))
        ≡ returned r
      → Right msg_reply r
  information-Right pool r = with_url-Right msg_reply pool _ r (λ arch url e.
      subst (Right msg_reply) (returned-injective e) (
        some-Right msg_reply _ false pool (
          make_msg_information_request_reply-Carries p.transaction_id duid client_text arch url
            conf.get_recursive_dns)))

  release-Right :
      (pool : Pool) (r : Response)
      → (do
        ids ← ia_na_ids p.options
        returned (record {
          packet = some (make_msg_release_reply p.transaction_id duid client_text);
          failed = false;
          pool = release_addresses hash client_text ids pool;
        }))
        ≡ returned r
      → Right msg_reply r
  release-Right pool r h =
      let (ids, listed, last) = bind-returned (ia_na_ids p.options) _ h in
      subst (Right msg_reply) (returned-injective last) (
        some-Right msg_reply _ false _
          (make_msg_release_reply-Carries p.transaction_id duid client_text))

  build_response-Right :
      (clock : ℕ → ℕ) (draws : List (ℕ × List ℕ)) (pool : Pool) (r : Response)
      → build_response hash id_hash b duid conf clock draws p pool ≡ returned r
      → Right (reply_type p.type) r
  unfolding build_response client_text
  build_response-Right clock draws pool r h =
      if_ind P (p.type == msg_solicit) _ _
        (λ t e. subst (λ k. Right k r) (solicit_type t) (solicit-Right clock draws pool r e))
        (λ f e.
          subst (λ k. Right k r) (other_type f)
            (if_ind Q (p.type == msg_request) _ _ (λ _. request-Right clock draws pool r)
              (λ _.
                if_ind Q (p.type == msg_information_request) _ _ (λ _. information-Right pool r)
                  (λ _.
                    if_ind Q (p.type == msg_release) _ _ (λ _. release-Right pool r)
                      (λ _ x.
                        subst (Right msg_reply) (returned-injective x)
                          (none-Right msg_reply false pool))))
              e))
        h
    where
      P : Outcome OptionsError Response → Type 0
      P m = m ≡ returned r → Right (reply_type p.type) r

      Q : Outcome OptionsError Response → Type 0
      Q m = m ≡ returned r → Right msg_reply r

  -- An answer of BuildResponse is one to the packet that it was built for: it has the transaction of
  -- the packet, it is an Advertise to a Solicit and a Reply to anything else, and its options name the
  -- client as the packet does, and this server.
  pub build_response-Carries :
      (clock : ℕ → ℕ) (draws : List (ℕ × List ℕ)) (pool : Pool) (r : Response) (reply : Packet)
      → build_response hash id_hash b duid conf clock draws p pool ≡ returned r
      → r.packet ≡ some reply
      → Carries p.transaction_id duid (client_id_of p.options).visible (reply_type p.type) reply
  unfolding Right client_text
  build_response-Carries clock draws pool r reply h e =
      build_response-Right clock draws pool r h reply e
