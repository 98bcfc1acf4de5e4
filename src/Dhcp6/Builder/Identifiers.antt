-- ===== src/Dhcp6/Builder/Identifiers.antt =====
-- The options that an answer begins with: the identifiers of the client and the server.
use netboot.Prelude.{
  ℕ, ◌≡◌, refl, sym, ap, ◌∙◌, Bool, true, false, Option, none, some, List, [], ◌∷◌, ◌++◌, Bytes,
  ◌==◌, if◌then◌else◌, first_some, first_some-none, ==_iff, arith,
}
use mathlib.Core.Path.{subst}
use netboot.Prelude.Assoc.{lookup, insert, lookup-insert}
use netboot.Dhcp6.Slice.{Slice, Outcome, returned, bind-returned}
use netboot.Dhcp6.Options.{
  DhcpOption, Options, OptionsError, opt_server_id, opt_ia_na, make_option, add, value_of,
  first_value,
}
use netboot.Dhcp6.Pool.{Association}
use netboot.Dhcp6.Builder.{
  PacketBuilder, make_ia_na_option, make_ia_addr_option, make_status_option, first_four, big_bytes,
  calculate_t1, calculate_t2, collect, address_options, refusal_options,
}

-- The value of the first option with a number.
abbrev pub first_with : ℕ → List DhcpOption → Option Slice
first_with k [] = none
first_with k (o ∷ os) = if o.id == k then some o.value else first_with k os

abbrev valued : Option (List DhcpOption) → Option Slice
valued none = none
valued (some os) = first_value os

valued-if :
    (b : Bool) (os : List DhcpOption) (l : Option (List DhcpOption))
    → valued (if b then some os else l) ≡ (if b then first_value os else valued l)
valued-if true os l = refl
valued-if false os l = refl

value_of-valued : (k : ℕ) (m : Options) → value_of k m ≡ valued (lookup k m)
unfolding value_of
value_of-valued k m = by_cases (lookup k m)
  where
    by_cases :
        (l : Option (List DhcpOption))
        → elim l [ none ↦ none | some os ↦ first_value os ] ≡ valued l
    by_cases none = refl
    by_cases (some os) = refl

value_of-insert :
    (k i : ℕ) (os : List DhcpOption) (m : Options)
    → value_of k (insert i os m) ≡ (if i == k then first_value os else value_of k m)
value_of-insert k i os m =
    value_of-valued k (insert i os m)
    ∙ (ap valued (lookup-insert i k os m)
        ∙ (valued-if (i == k) os (lookup k m)
            ∙ ap (λ v. if i == k then first_value os else v) (sym (value_of-valued k m))))

first_value-end :
    (os : List DhcpOption) (o : DhcpOption)
    → first_value (os ++ (o ∷ [])) ≡ first_some (first_value os) (some o.value)
unfolding first_value
first_value-end [] o = refl
first_value-end (p ∷ os) o = refl

chosen :
    (b : Bool) (new old : Option Slice) (v : Slice)
    → (b ≡ true → new ≡ first_some old (some v))
    → (if b then new else old) ≡ first_some old (if b then some v else none)
chosen true new old v h = h refl
chosen false new old v h = sym (first_some-none old)

value_of-add :
    (k : ℕ) (o : DhcpOption) (m : Options)
    → value_of k (add o m) ≡ first_some (value_of k m) (if o.id == k then some o.value else none)
unfolding add first_value
value_of-add k o m = by_lookup (lookup o.id m) refl
  where
    at_key :
        (l : Option (List DhcpOption))
        → lookup o.id m ≡ l
        → (o.id == k) ≡ true
        → valued l ≡ value_of k m
    at_key l h t =
        sym (value_of-valued k m ∙ ap valued (subst (λ i. lookup i m ≡ l) ((==_iff o.id k).0 t) h))

    by_lookup :
        (l : Option (List DhcpOption))
        → lookup o.id m ≡ l
        → value_of k
            (elim l [ none ↦ insert o.id (o ∷ []) m | some os ↦ insert o.id (os ++ (o ∷ [])) m ])
          ≡ first_some (value_of k m) (if o.id == k then some o.value else none)
    by_lookup none h =
        value_of-insert k o.id (o ∷ []) m
        ∙ chosen (o.id == k) (first_value (o ∷ [])) (value_of k m) o.value
            (λ t. first_value-end [] o ∙ ap (λ v. first_some v (some o.value)) (at_key none h t))
    by_lookup (some os) h =
        value_of-insert k o.id (os ++ (o ∷ [])) m
        ∙ chosen (o.id == k) (first_value (os ++ (o ∷ []))) (value_of k m) o.value (λ t.
          first_value-end os o ∙ ap (λ v. first_some v (some o.value)) (at_key (some os) h t))

first_some_assoc :
    (a b c : Option Slice) → first_some (first_some a b) c ≡ first_some a (first_some b c)
first_some_assoc none b c = refl
first_some_assoc (some x) b c = refl

first_with-cons :
    (k : ℕ) (o : DhcpOption) (os : List DhcpOption)
    → first_some (if o.id == k then some o.value else none) (first_with k os)
      ≡ first_with k (o ∷ os)
first_with-cons k o os = by_test (o.id == k)
  where
    by_test :
        (b : Bool)
        → first_some (if b then some o.value else none) (first_with k os)
          ≡ (if b then some o.value else first_with k os)
    by_test true = refl
    by_test false = refl

-- The collected options have the first of each number in front.
pub value_of-collect :
    (k : ℕ) (m : Options) (os : List DhcpOption)
    → value_of k (collect m os) ≡ first_some (value_of k m) (first_with k os)
unfolding collect
value_of-collect k m [] = sym (first_some-none (value_of k m))
value_of-collect k m (o ∷ os) =
    value_of-collect k (add o m) os
    ∙ (ap (λ v. first_some v (first_with k os)) (value_of-add k o m)
        ∙ (first_some_assoc (value_of k m) _ (first_with k os)
            ∙ ap (first_some (value_of k m)) (first_with-cons k o os)))

pub first_with-append :
    (k : ℕ) (os ps : List DhcpOption)
    → first_with k os ≡ none
    → first_with k (os ++ ps) ≡ first_with k ps
first_with-append k [] ps h = refl
first_with-append k (o ∷ os) ps h = ground (arith, first_with-append k os ps)

pub returned-injective :
    {A : Type 0} {a b : A} → ◌≡◌ {A = Outcome OptionsError A} (returned a) (returned b) → a ≡ b
returned-injective h = cc

Lacks : List DhcpOption → Type 0
Lacks os = first_with opt_server_id os ≡ none

-- Options for addresses have no identifier among them.
make_ia_na_option-id :
    (iaid : Bytes) (t1 t2 : ℕ) (inner o : DhcpOption)
    → make_ia_na_option iaid t1 t2 inner ≡ returned o
    → o.id ≡ opt_ia_na
unfolding make_ia_na_option make_option
make_ia_na_option-id iaid t1 t2 inner o h =
    let (four, first, last) = bind-returned (first_four iaid) _ h in
    sym (ap (λ x. x.id) (returned-injective last))

other_number :
    (o : DhcpOption) (os : List DhcpOption)
    → o.id ≡ opt_ia_na
    → first_with opt_server_id os ≡ none
    → first_with opt_server_id (o ∷ os) ≡ none
other_number o os e h = ground arith

-- The options of the loops over the associations, and over the interfaces without an address.
pub address_options-none :
    (b : PacketBuilder) (as' : List Association) {os : List DhcpOption}
    → address_options b as' ≡ returned os
    → first_with opt_server_id os ≡ none
unfolding address_options Lacks
address_options-none b [] h = subst Lacks (returned-injective h) refl
address_options-none b (a ∷ as') h =
    let inner =
      make_ia_addr_option (big_bytes a.address a.address []) b.preferred_lifetime
        b.valid_lifetime in
    let (o, one, h1) =
      bind-returned (make_ia_na_option a.interface_id (calculate_t1 b) (calculate_t2 b) inner) _
        h in
    let (os, more, whole) = bind-returned (address_options b as') _ h1 in
    subst Lacks (returned-injective whole)
      (other_number o os (make_ia_na_option-id _ _ _ inner o one) (address_options-none b as' more))

pub refusal_options-none :
    (b : PacketBuilder) (message : Bytes) (ias : List Bytes) {os : List DhcpOption}
    → refusal_options b message ias ≡ returned os
    → first_with opt_server_id os ≡ none
unfolding refusal_options Lacks
refusal_options-none b message [] h = subst Lacks (returned-injective h) refl
refusal_options-none b message (ia ∷ ias) h =
    let inner = make_status_option 2 message in
    let (o, one, h1) =
      bind-returned (make_ia_na_option ia (calculate_t1 b) (calculate_t2 b) inner) _ h in
    let (os, more, whole) = bind-returned (refusal_options b message ias) _ h1 in
    subst Lacks (returned-injective whole) (
      other_number o os (make_ia_na_option-id _ _ _ inner o one)
        (refusal_options-none b message ias more))
