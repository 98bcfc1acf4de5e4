-- ===== src/Dhcp6/Builder/Answers.antt =====
-- The times that the answers of dhcp6/packet_builder.go carry.
use netboot.Prelude.{◌≤◌, ◌<◌, ◌≡◌, not, ltb, arith}
use netboot.Dhcp6.Builder.{PacketBuilder, calculate_t1, calculate_t2}

-- For a preferred lifetime below 2 ^ 32 seconds, as its type has it: T1 is at most T2, so that the
-- client renews before it rebinds, if and only if the lifetime is below 2 ^ 30; from there on the
-- product in `calculateT2` wraps around, and T2 is below T1. T2 is at most the lifetime either way.
pub calculate_t1_le_t2 :
    (b : PacketBuilder)
    → b.preferred_lifetime < 4294967296
    → (not (ltb (calculate_t2 b) (calculate_t1 b)) ≡ ltb b.preferred_lifetime 1073741824)
      × (calculate_t2 b ≤ b.preferred_lifetime)
unfolding calculate_t1 calculate_t2
calculate_t1_le_t2 b h = (ground arith, omega arith)
