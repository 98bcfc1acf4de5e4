-- ===== src/Dhcp6/Packet/RoundTrip.antt =====
-- A packet that is marshalled and read again keeps its type, its transaction and its options.
use netboot.Prelude.{
  ℕ, ◌+◌, ◌≡◌, refl, ap, sym, ◌∙◌, arith, All, List, [], ◌∷◌, ◌++◌, append_assoc, map, Bytes,
  length, length-append, take-length-append, drop-length-append, ◌-◌, drop-drop,
}
use mathlib.Core.Path.{subst}
use netboot.Dhcp6.Slice.{returned, Slice, backing, len, cut, sub_within}
use netboot.Dhcp6.Options.{
  DhcpOption, Options, OptionsError, marshal_option, marshal_each, marshal_options,
  unmarshal_options,
}
use netboot.Dhcp6.Options.Parse.{
  View, view, ViewFits, encode_all, add_all, unmarshal_options-encode_all,
}
use netboot.Dhcp6.Packet.{Packet, unmarshal, marshal}

-- An option whose length field is its value's length, and is small enough to be read back.
abbrev pub OptionFits : DhcpOption → Type 0
OptionFits o = (o.length ≡ length o.value.visible) × ViewFits (view o)

-- All options of a map, in the order of its entries.
abbrev pub all_options : Options → List DhcpOption
all_options [] = []
all_options ((id, os) ∷ m) = os ++ all_options m

abbrev pub AllFit : Options → Type 0
AllFit [] = Unit {0}
AllFit ((id, os) ∷ m) = All OptionFits os × AllFit m

abbrev views : List DhcpOption → List View
views [] = []
views (o ∷ os) = view o ∷ views os

views-append : (os ps : List DhcpOption) → views (os ++ ps) ≡ views os ++ views ps
views-append [] ps = refl
views-append (o ∷ os) ps = ap (λ t. view o ∷ t) (views-append os ps)

encode_all-append : (vs ws : List View) → encode_all (vs ++ ws) ≡ encode_all vs ++ encode_all ws
encode_all-append [] ws = refl
encode_all-append (v ∷ vs) ws = rw (encode_all-append vs ws, append_assoc)

each_lem : (os : List DhcpOption) → All OptionFits os → marshal_each os ≡ encode_all (views os)
unfolding marshal_each marshal_option
each_lem [] h = refl
each_lem (o ∷ os) ((e, f), hs) = rw (e, each_lem os hs)

marshal_options_lem :
    (m : Options) → AllFit m → marshal_options m ≡ encode_all (views (all_options m))
unfolding marshal_options
marshal_options_lem [] h = refl
marshal_options_lem ((id, os) ∷ m) (h, hs) = rw (
  each_lem os h,
  marshal_options_lem m hs,
  views-append os (all_options m),
  encode_all-append (views os) (views (all_options m)),
)

map-view : (os : List DhcpOption) → map view os ≡ views os
map-view [] = refl
map-view (o ∷ os) = ap (λ t. view o ∷ t) (map-view os)

AllFit-views : (m : Options) → AllFit m → All ViewFits (views (all_options m))
AllFit-views [] h = tt
AllFit-views ((id, os) ∷ m) (h, hs) = go os h (AllFit-views m hs)
  where
    go :
        (ps : List DhcpOption)
        → All OptionFits ps
        → All ViewFits (views (all_options m))
        → All ViewFits (views (ps ++ all_options m))
    go [] k rest = rest
    go (o ∷ ps) ((e, f), k) rest = (f, go ps k rest)

-- A buffer that starts with a packet's four bytes and options that can be read.
module _ (t a b c : ℕ) (body spare : Bytes) where
  abbrev buffer : Slice
  buffer = record { visible = t ∷ a ∷ b ∷ c ∷ body; spare = spare }

  body-cut : cut buffer 4 (4 + length body) ≡ record { visible = body; spare = spare }
  body-cut =
      let width : 4 + length body - 4 ≡ length body = omega arith in
      rw (
        width,
        drop-drop 4 (length body) (backing buffer),
        take-length-append body spare,
        drop-length-append body spare,
      )

  unmarshal_lem :
      (o : Options)
      → unmarshal_options (record { visible = body; spare = spare }) ≡ returned o
      → unmarshal buffer (len buffer)
        ≡ returned (record { type = t; transaction_id = a ∷ b ∷ c ∷ []; options = o })
  unfolding unmarshal
  unmarshal_lem o h =
      let end : len buffer ≡ 4 + length body = omega arith in
      subst
        (λ k.
          unmarshal buffer k
          ≡ returned (record { type = t; transaction_id = a ∷ b ∷ c ∷ []; options = o }))
        (sym end)
        (rw (
          sub_within {E = OptionsError} buffer 4 (4 + length body) (omega arith)
              (omega (arith, length-append body spare)),
          body-cut,
          h,
          sub_within {E = OptionsError} buffer 1 4 (omega arith)
              (omega (arith, length-append body spare)),
        ))

-- Options that fit, in a packet with a transaction of three bytes: `unmarshal` of what `marshal`
-- wrote, in any buffer, has the type and the transaction, and options with the same codes and
-- payloads, added to the map in the order of the wire.
pub unmarshal-marshal_packet6 :
    (p : Packet) (spare : Bytes)
    → length p.transaction_id ≡ 3
    → AllFit p.options
    → (os : List DhcpOption) × (map view os ≡ map view (all_options p.options))
      × (unmarshal (record { visible = marshal p; spare = spare }) (length (marshal p))
          ≡ returned (record {
            type = p.type;
            transaction_id = p.transaction_id;
            options = add_all os [];
          }))
unfolding marshal
unmarshal-marshal_packet6 p spare n fits = go p.transaction_id n
  where
    vs : List View
    vs = views (all_options p.options)

    go :
        (id : Bytes)
        → length id ≡ 3
        → (os : List DhcpOption) × (map view os ≡ map view (all_options p.options))
          × (unmarshal
                (record { visible = marshal (record p { transaction_id = id }); spare = spare })
                (length (marshal (record p { transaction_id = id })))
              ≡ returned (record { type = p.type; transaction_id = id; options = add_all os [] }))
    go (a ∷ b ∷ c ∷ []) h =
        let (os, e, run) = unmarshal_options-encode_all vs spare (AllFit-views p.options fits) in
        (
          os,
          e ∙ sym (map-view (all_options p.options)),
          rw (marshal_options_lem p.options fits)
              (unmarshal_lem p.type a b c (encode_all vs) spare (add_all os []) run),
        )
    go [] h = cc
    go (a ∷ []) h = absurd (omega arith)
    go (a ∷ b ∷ []) h = absurd (omega arith)
    go (a ∷ b ∷ c ∷ d ∷ r) h = absurd (omega arith)
