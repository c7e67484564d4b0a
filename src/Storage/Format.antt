-- ===== src/Storage/Format.antt =====
-- storage/mmap_log.cpp and mmap_log.h: the values of the log, its errors, the bytes of a segment
-- header and of a record as `create_segment` and `append` build them, and segment file names.
pub mod Fields
pub mod Names
use io_t_delivery_fleet_moni.Prelude.{
  ℕ, zero, suc, ◌+◌, ◌-◌, ◌*◌, ◌/◌, ◌%◌, ◌^◌, List, [], ◌∷◌, ◌++◌, Option, none, some, Bool, true,
  false, ◌&&◌, ltb, leb, ◌==◌, if◌then◌else◌, take, drop, length, u32,
}
use io_t_delivery_fleet_moni.Storage.Codec.{
  segment_magic, segment_version, record_magic, record_header_size, put_u32, put_u64, record_crc,
  segment_crc,
}

pub record Message : Type 0 where
  pub offset : ℕ
  pub timestamp_ns : ℕ
  pub payload_length : ℕ
  pub payload : List ℕ

-- A path is the name of the file inside the log directory, as bytes.
pub record LogSegmentInfo : Type 0 where
  pub segment_id : ℕ
  pub first_offset : ℕ
  pub end_offset : ℕ
  pub valid_bytes : ℕ
  pub path : List ℕ

-- The exceptions; `io_error` is every `std::system_error`. `out_of_fuel` is no C++ value: a loop of
-- the model ran out of rounds.
pub data Error : Type 0 where
  not_open already_open invalid_argument payload_too_long record_too_large : Error
  offset_exhausted id_exhausted io_error truncated_header unreadable_header : Error
  invalid_header discontinuous_base oversized_file corrupt_tail corrupt_record : Error
  offsets_overflow truncated_record unreadable_tail sequence_gap out_of_fuel : Error

pub data Result {ℓ} (A : Type ℓ) : Type ℓ where
  ok : A → Result A
  err : Error → Result A

-- The first 28 bytes of a record header.
pub record_prefix : ℕ → ℕ → ℕ → List ℕ
record_prefix offset timestamp size =
    put_u32 record_magic
    ++ (put_u32 record_header_size
        ++ (put_u64 offset ++ (put_u64 timestamp ++ (put_u32 size ++ []))))

pub record_header : ℕ → ℕ → List ℕ → List ℕ
record_header offset timestamp payload =
    record_prefix offset timestamp (u32 (length payload))
    ++ put_u32 (record_crc (record_prefix offset timestamp (u32 (length payload))) payload)

-- The first 32 bytes of a segment header.
pub segment_prefix : ℕ → ℕ → ℕ → List ℕ
segment_prefix segment_id base_offset segment_size =
    segment_magic
    ++ (put_u32 segment_version
        ++ (put_u32 segment_id ++ (put_u64 base_offset ++ (put_u64 segment_size ++ []))))

-- The last four of the 40 bytes stay zero.
pub segment_header : ℕ → ℕ → ℕ → List ℕ
segment_header segment_id base_offset segment_size =
    segment_prefix segment_id base_offset segment_size
    ++ (put_u32 (segment_crc (segment_prefix segment_id base_offset segment_size))
        ++ (0 ∷ 0 ∷ 0 ∷ 0 ∷ []))

-- Decimal digits, the highest first: `width` of them.
decimal : ℕ → ℕ → List ℕ
decimal zero n = []
decimal (suc width) n = (48 + n / 10 ^ width % 10) ∷ decimal width n

-- `%08u`: eight digits, or as many as a larger 32-bit number has.
format_08u : ℕ → List ℕ
format_08u n = decimal (if ltb n (10 ^ 8) then 8 else if ltb n (10 ^ 9) then 9 else 10) n

-- "log-%08u.seg"
pub segment_path : ℕ → List ℕ
unfolding format_08u decimal
segment_path segment_id =
    108 ∷ 111 ∷ 103 ∷ 45 ∷ (format_08u segment_id ++ (46 ∷ 115 ∷ 101 ∷ 103 ∷ []))

-- Equality of two byte sequences.
pub bytes_eq : List ℕ → List ℕ → Bool
bytes_eq [] [] = true
bytes_eq [] (y ∷ ys) = false
bytes_eq (x ∷ xs) [] = false
bytes_eq (x ∷ xs) (y ∷ ys) = x == y && bytes_eq xs ys

-- The loop over the eight digits.
parse_digits : ℕ → List ℕ → Option ℕ
parse_digits parsed [] = some parsed
parse_digits parsed (c ∷ rest) =
    let more = parse_digits (u32 (parsed * 10 + (c - 48))) rest in
    if ltb c 48 then none else if ltb 57 c then none else more

pub parse_segment_id : List ℕ → Option ℕ
unfolding parse_digits bytes_eq
parse_segment_id name =
    if length name == 16
      && bytes_eq (take 4 name) (108 ∷ 111 ∷ 103 ∷ 45 ∷ [])
      && bytes_eq (drop 12 name) (46 ∷ 115 ∷ 101 ∷ 103 ∷ [])
    then parse_digits 0 (take 8 (drop 4 name))
    else none
