-- ===== src/Tftp/Transfer/Blocks.antt =====
-- The packets of data that (s *Server) transfer of tftp/tftp.go cuts a file into.
use netboot.Prelude.{
  ℕ, zero, suc, ◌+◌, ◌%◌, ◌≤◌, ◌<◌, ◌≡◌, refl, ◌∙◌, ap, false, List, [], ◌∷◌, ◌++◌, append-nil,
  Bytes, length, take, drop, length-take, length-drop, take-append-drop, take_short, ltb→lt,
  replicate, ltb, if◌then◌else◌, if_ind, ◌==◌, arith,
}
use netboot.Tftp.Transfer.{data_packet}

-- The blocks of a file: packets of `block_size` bytes numbered from `seq` on, then a shorter one.
unfoldable pub packets : ℕ → ℕ → ℕ → Bytes → List Bytes
packets zero block_size seq contents = []
packets (suc fuel) block_size seq contents =
    let block = take block_size contents in
    let rest = packets fuel block_size ((seq + 1) % 65536) (drop block_size contents) in
    data_packet seq block ∷ (if ltb (length block) block_size then [] else rest)

-- Every packet as often as the list of counts says.
abbrev pub repeat_each : List ℕ → List Bytes → List Bytes
repeat_each [] ps = []
repeat_each (k ∷ ks) [] = []
repeat_each (k ∷ ks) (p ∷ ps) = replicate k p ++ repeat_each ks ps

-- DATA packets numbered from `seq` on, all full but the last.
abbrev pub WellCut : ℕ → ℕ → List Bytes → Type 0
WellCut block_size seq [] = ⊥
WellCut block_size seq (p ∷ []) =
    (p ≡ data_packet seq (drop 4 p)) × (length (drop 4 p) < block_size)
WellCut block_size seq (p ∷ q ∷ ps) =
    (p ≡ data_packet seq (drop 4 p))
    × (length (drop 4 p) ≡ block_size)
    × WellCut block_size ((seq + 1) % 65536) (q ∷ ps)

-- The bytes that the blocks carry.
abbrev pub payloads : List Bytes → Bytes
payloads [] = []
payloads (p ∷ ps) = drop 4 p ++ payloads ps

not_short : (a b : ℕ) → ltb a b ≡ false → b ≤ a
not_short a b h = ground arith

pub drop_shorter :
    (n : ℕ) (xs : Bytes) (fuel : ℕ)
    → 1 ≤ n
    → length xs < suc fuel
    → ltb (length (take n xs)) n ≡ false
    → length (drop n xs) < fuel
drop_shorter n xs fuel hn hf full =
    let h : n ≤ length (take n xs) = not_short _ _ full in
    omega (arith, h, length-take n xs, length-drop n xs)

full_cut :
    (block_size seq : ℕ) (block : Bytes) (ps : List Bytes)
    → length block ≡ block_size
    → WellCut block_size ((seq + 1) % 65536) ps
    → WellCut block_size seq (data_packet seq block ∷ ps)
full_cut block_size seq block [] h w = absurd w
full_cut block_size seq block (q ∷ ps) h w = (refl, h, w)

pub packets_payload :
    (fuel block_size seq : ℕ) (contents : Bytes)
    → 1 ≤ block_size
    → length contents < fuel
    → payloads (packets fuel block_size seq contents) ≡ contents
unfolding packets
packets_payload zero block_size seq contents hb hf = absurd (omega arith)
packets_payload (suc fuel) block_size seq contents hb hf =
    if_ind P (ltb (length (take block_size contents)) block_size) _ _
      (λ short. append-nil _ ∙ take_short block_size contents (ltb→lt _ _ short))
      (λ full.
        let shorter : length (drop block_size contents) < fuel =
          drop_shorter block_size contents fuel hb hf full in
        ap (λ t. take block_size contents ++ t)
          (packets_payload fuel block_size ((seq + 1) % 65536) (drop block_size contents) hb
            shorter)
        ∙ take-append-drop block_size contents)
  where
    P : List Bytes → Type 0
    P ps = take block_size contents ++ payloads ps ≡ contents

pub packets_cut :
    (fuel block_size seq : ℕ) (contents : Bytes)
    → 1 ≤ block_size
    → length contents < fuel
    → WellCut block_size seq (packets fuel block_size seq contents)
unfolding packets
packets_cut zero block_size seq contents hb hf = absurd (omega arith)
packets_cut (suc fuel) block_size seq contents hb hf =
    if_ind P (ltb (length (take block_size contents)) block_size) _ _
      (λ short. (refl, ltb→lt _ _ short))
      (λ full.
        let shorter = drop_shorter block_size contents fuel hb hf full in
        full_cut block_size seq (take block_size contents) _
          (omega (arith, length-take block_size contents, not_short _ _ full))
          (packets_cut fuel block_size ((seq + 1) % 65536) (drop block_size contents) hb shorter))
  where
    P : List Bytes → Type 0
    P ps = WellCut block_size seq (data_packet seq (take block_size contents) ∷ ps)

-- The block size in use: 512 if none was negotiated.
abbrev pub used_size : ℕ → ℕ
used_size block_size = if block_size == 0 then 512 else block_size

pub used_size_pos : (b : ℕ) → 1 ≤ used_size b
used_size_pos b = ground arith
