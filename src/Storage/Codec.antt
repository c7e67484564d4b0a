-- ===== src/Storage/Codec.antt =====
-- storage/mmap_log.cpp, lines 17 to 72: the on-disk encoding. Bytes are a list of numbers.
pub mod RoundTrip
mod Tests
use Prim.Native.Nat.{bit_and, bit_or, bit_xor}
use io_t_delivery_fleet_moni.Prelude.{
  ℕ, zero, suc, ◌+◌, ◌-◌, ◌*◌, ◌/◌, ◌%◌, ◌^◌, List, [], ◌∷◌, ◌++◌, take, drop, replicate, length,
  u8, u32, u64,
}

-- "IOTLOG01"
abbrev pub segment_magic : List ℕ
segment_magic = 73 ∷ 79 ∷ 84 ∷ 76 ∷ 79 ∷ 71 ∷ 48 ∷ 49 ∷ []

abbrev pub segment_version : ℕ
segment_version = 1

abbrev pub record_magic : ℕ
record_magic = 0x31434552

abbrev pub segment_header_size : ℕ
segment_header_size = 40

abbrev pub record_header_size : ℕ
record_header_size = 32

abbrev pub maximum_segment_id : ℕ
maximum_segment_id = 99999999

-- The `index`-th byte of a little-endian number, `(value >> (index * 8)) & 0xff`.
byte_at : ℕ → ℕ → ℕ
byte_at value index = bit_and (value / 2 ^ (index * 8)) 0xff

-- The bytes from `index` on, with the rounds that are left.
put_from : ℕ → ℕ → ℕ → List ℕ
put_from value index zero = []
put_from value index (suc rounds) = byte_at value index ∷ put_from value (index + 1) rounds

pub put_u32 : ℕ → List ℕ
unfolding put_from byte_at
put_u32 value = put_from value 0 4

pub put_u64 : ℕ → List ℕ
unfolding put_from byte_at
put_u64 value = put_from value 0 8

-- `value |= static_cast<T>(source[index]) << (index * 8)`, at the width `bits`.
get_from : ℕ → ℕ → ℕ → List ℕ → ℕ
get_from bits value index [] = value
get_from bits value index (b ∷ source) =
    get_from bits (bit_or value (b * 2 ^ (index * 8) % 2 ^ bits)) (index + 1) source

-- The number at offset `at` of `source`.
pub get_u32 : List ℕ → ℕ → ℕ
unfolding get_from
get_u32 source at = get_from 32 0 0 (take 4 (drop at source))

pub get_u64 : List ℕ → ℕ → ℕ
unfolding get_from
get_u64 source at = get_from 64 0 0 (take 8 (drop at source))

-- One bit of the CRC loop; `mask` is `0U - (crc & 1U)`.
crc32_bits : ℕ → ℕ → ℕ
crc32_bits zero crc = crc
crc32_bits (suc bits) crc =
    let mask = u32 (2 ^ 32 - bit_and crc 1) in
    crc32_bits bits (bit_xor (crc / 2) (bit_and 0xedb88320 mask))

pub crc32_update : ℕ → List ℕ → ℕ
unfolding crc32_bits
crc32_update crc [] = crc
crc32_update crc (b ∷ bytes) = crc32_update (crc32_bits 8 (bit_xor crc b)) bytes

pub record_crc : List ℕ → List ℕ → ℕ
unfolding crc32_update
record_crc header payload =
    u32 (bit_xor (crc32_update (crc32_update 0xffffffff (take 28 header)) payload) 0xffffffff)

pub segment_crc : List ℕ → ℕ
unfolding crc32_update
segment_crc header = u32 (bit_xor (crc32_update 0xffffffff (take 32 header)) 0xffffffff)
