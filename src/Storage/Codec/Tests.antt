-- ===== src/Storage/Codec/Tests.antt =====
-- The checksum at its published check value.
use io_t_delivery_fleet_moni.Prelude.{◌≡◌, refl, [], ◌∷◌}
use io_t_delivery_fleet_moni.Storage.Codec.{crc32_update}

-- The check value of CRC-32, of the digits 1 to 9.
crc32_check : crc32_update 0xffffffff (49 ∷ 50 ∷ 51 ∷ 52 ∷ 53 ∷ 54 ∷ 55 ∷ 56 ∷ 57 ∷ []) ≡ 0x340bc6d9
unfolding crc32_update
crc32_check = refl
