-- ===== src/Dhcp6/Readable.antt =====
-- HumanReadable of dhcp6/options.go: its slice expressions. The text that it prints is left out.
use netboot.Prelude.{ℕ, zero, suc, List, [], ◌∷◌, leb, ◌==◌, if◌then◌else◌}
use netboot.Dhcp6.Slice.{Outcome, returned, failed, ◌>>=◌, Slice, len, sub, from, big_endian16}
use netboot.Dhcp6.Options.{DhcpOption, Options, OptionsError, out_of_fuel, opt_ia_na, end_of}

abbrev opt_ia_addr : ℕ
opt_ia_addr = 5

-- The `switch` on the code of an option inside an IA_NA option; `l` is its length.
read_inner : ℕ → ℕ → Slice → Outcome OptionsError (Unit {0})
unfolding sub
read_inner id l bs =
    if id == opt_ia_addr
    then (do
      ip ← sub bs 4 20
      preferred ← sub bs 20 24
      valid ← sub bs 24 28
      options ← sub bs 28 (end_of l)
      returned tt)
    else (do value ← sub bs 4 (end_of l); returned tt)

-- The loop over the options inside. A round takes four bytes at least.
read_inners : ℕ → Slice → Outcome OptionsError (Unit {0})
unfolding read_inner from big_endian16
read_inners zero bs = if len bs == 0 then returned tt else failed out_of_fuel
read_inners (suc fuel) bs =
    let more = (do
      length_bytes ← sub bs 2 4
      l ← big_endian16 length_bytes
      id_bytes ← sub bs 0 2
      id ← big_endian16 id_bytes
      _ ← read_inner id l bs
      rest ← from bs (end_of l)
      read_inners fuel rest) in
    if len bs == 0 then returned tt else more

-- humanReadableIaNa
human_readable_ia_na : DhcpOption → Outcome OptionsError (Unit {0})
unfolding read_inners sub from
human_readable_ia_na o = do
  iaid ← sub o.value 0 4
  t1 ← sub o.value 4 8
  t2 ← sub o.value 8 12
  (if leb o.length 12
      then returned tt
      else (do rest ← from o.value 12; read_inners (len rest) rest))

readable_each : List DhcpOption → Outcome OptionsError (Unit {0})
unfolding human_readable_ia_na
readable_each [] = returned tt
readable_each (o ∷ os) = do
  _ ← (if o.id == opt_ia_na then human_readable_ia_na o else returned tt)
  readable_each os

-- HumanReadable, in the order of the map's iteration.
unfoldable pub human_readable : Options → Outcome OptionsError (Unit {0})
unfolding readable_each
human_readable [] = returned tt
human_readable ((id, os) ∷ m) = do _ ← readable_each os; human_readable m
