-- ===== src/Dhcp4/Packet/Header.antt =====
-- The fixed part of a DHCP packet: every field of `header` is read back at its offset.
use netboot.Prelude.{
  ℕ, ◌≡◌, refl, ap, Bool, true, false, [], ◌∷◌, ◌++◌, Bytes, length, slice, drop, get_or,
  if◌then◌else◌, not, ◌==◌, bit_and, arith,
}
use netboot.Net.{to4}
use netboot.Dhcp4.Options.Values.{uint16}
use netboot.Dhcp4.Packet.{header, write_ip}

-- A slice of a known small length is its elements.
four : (xs : Bytes) → length xs ≡ 4 → (a b c d : ℕ) × (xs ≡ a ∷ b ∷ c ∷ d ∷ [])
four [] h = absurd (omega arith)
four (a ∷ []) h = absurd (omega arith)
four (a ∷ b ∷ []) h = absurd (omega arith)
four (a ∷ b ∷ c ∷ []) h = absurd (omega arith)
four (a ∷ b ∷ c ∷ d ∷ []) h = (a, b, c, d, refl)
four (a ∷ b ∷ c ∷ d ∷ e ∷ xs) h = absurd (omega arith)

six : (xs : Bytes) → length xs ≡ 6 → (a b c d e f : ℕ) × (xs ≡ a ∷ b ∷ c ∷ d ∷ e ∷ f ∷ [])
six [] h = absurd (omega arith)
six (a ∷ []) h = absurd (omega arith)
six (a ∷ b ∷ xs) h =
    let (c, d, e, f, p) = four xs (omega arith) in (a, b, c, d, e, f, ap (λ t. a ∷ b ∷ t) p)

-- An IPv4 address is written as it is.
pub write_ip-of_four : (ip : Bytes) → length ip ≡ 4 → write_ip ip ≡ ip
unfolding write_ip to4
write_ip-of_four ip h = let (a, b, c, d, p) = four ip h in rw p

-- What `unmarshal` reads of the fixed part.
pub record Reads (bs : Bytes) (op : ℕ) (id : Bytes) (bc : Bool) (ci yi si ri hw : Bytes)
    : Type 0 where
  pub op_at : get_or bs 0 0 ≡ op
  pub kind_at : get_or bs 1 0 ≡ 1
  pub size_at : get_or bs 2 0 ≡ 6
  pub id_at : slice 4 8 bs ≡ id
  pub broadcast_at : not (bit_and (uint16 (get_or bs 10 0) (get_or bs 11 0)) 0x8000 == 0) ≡ bc
  pub client_at : slice 12 16 bs ≡ ci
  pub your_at : slice 16 20 bs ≡ yi
  pub server_at : slice 20 24 bs ≡ si
  pub relay_at : slice 24 28 bs ≡ ri
  pub hardware_at : slice 28 34 bs ≡ hw

broadcast_bit : (bc : Bool) → not (bit_and (uint16 (if bc then 0x80 else 0) 0) 0x8000 == 0) ≡ bc
broadcast_bit true = refl
broadcast_bit false = refl

module _ (op : ℕ) (id : Bytes) (bc : Bool) (ci yi si ri hw : Bytes) (hid : length id ≡ 4)
    (hci : length ci ≡ 4) (hyi : length yi ≡ 4) (hsi : length si ≡ 4) (hri : length ri ≡ 4)
    (hhw : length hw ≡ 6) where
  pub header-Reads :
      (rest : Bytes)
      → Reads (header op id bc ci yi si ri hw ++ rest) op id bc ci yi si ri hw
        × (drop 44 (header op id bc ci yi si ri hw ++ rest) ≡ rest)
  unfolding header
  header-Reads rest =
      rw
        (
          write_ip-of_four ci hci,
          write_ip-of_four yi hyi,
          write_ip-of_four si hsi,
          write_ip-of_four ri hri,
        )
        (let (a0, a1, a2, a3, ea) = four id hid in
          let (b0, b1, b2, b3, eb) = four ci hci in
          let (c0, c1, c2, c3, ec) = four yi hyi in
          let (d0, d1, d2, d3, ed) = four si hsi in
          let (e0, e1, e2, e3, ee) = four ri hri in
          let (f0, f1, f2, f3, f4, f5, ef) = six hw hhw in
          rw (ea, eb, ec, ed, ee, ef)
            (
              record {
                op_at = refl;
                kind_at = refl;
                size_at = refl;
                id_at = refl;
                broadcast_at = broadcast_bit bc;
                client_at = refl;
                your_at = refl;
                server_at = refl;
                relay_at = refl;
                hardware_at = refl;
              },
              refl,
            ))
