-- ===== src/Storage/Scan.antt =====
-- storage/mmap_log.cpp: `zero_tail` and `MemoryMappedLog::scan_segment`, which reads one segment
-- file back. The file is its bytes; which system calls fail is a parameter.
pub mod Tail
pub mod Records
pub mod Ending
use io_t_delivery_fleet_moni.Prelude.{
  ℕ, zero, suc, ◌+◌, ◌-◌, ◌^◌, List, [], ◌∷◌, ◌++◌, Bool, true, false, not, ◌&&◌, ◌||◌, ltb, leb,
  ◌==◌, if◌then◌else◌, take, drop, replicate, length, min, u64,
}
use io_t_delivery_fleet_moni.Storage.Circular.{CircularBuffer, push}
use io_t_delivery_fleet_moni.Storage.Codec.{
  segment_magic, segment_version, record_magic, record_header_size, segment_header_size, get_u32,
  get_u64, record_crc, segment_crc,
}
use io_t_delivery_fleet_moni.Storage.Format.{
  Message, LogSegmentInfo, Error, io_error, truncated_header, unreadable_header, invalid_header,
  discontinuous_base, oversized_file, corrupt_tail, corrupt_record, offsets_overflow,
  truncated_record, unreadable_tail, out_of_fuel, Result, ok, err, bytes_eq,
}

-- Which system calls of one scan succeed; `pread_ok` by the offset of the read.
pub record ScanCalls : Type 0 where
  pub open_ok : Bool
  pub fstat_ok : Bool
  pub header_ok : Bool
  pub pread_ok : ℕ → Bool
  pub ftruncate_ok : Bool
  pub close_ok : Bool

-- What one scan works on.
pub record Source : Type 0 where
  pub bytes : List ℕ
  pub segment_size : ℕ
  pub is_latest : Bool
  pub calls : ScanCalls
  pub open calls use *

-- `pread_all` at `offset`: fewer bytes at the end of the file.
abbrev pub pread : List ℕ → ℕ → ℕ → List ℕ
pread bytes offset size = take size (drop offset bytes)

-- A read into an array that starts as zeros.
abbrev pub zero_filled : ℕ → List ℕ → List ℕ
zero_filled size got = got ++ replicate (size - length got) 0

abbrev pub all_zero : List ℕ → Bool
all_zero [] = true
all_zero (b ∷ bytes) = b == 0 && all_zero bytes

-- `while (length != 0)`, in chunks of 4096 bytes.
pub zero_tail : ℕ → Source → ℕ → ℕ → Result Bool
zero_tail zero s offset left = if left == 0 then ok true else err out_of_fuel
zero_tail (suc fuel) s offset left =
    let chunk = min left 4096 in
    let got = pread s.bytes offset chunk in
    let more = zero_tail fuel s (u64 (offset + chunk)) (left - chunk) in
    if left == 0
    then ok true
    else if not (s.pread_ok offset)
    then err io_error
    else if not (length got == chunk)
    then err unreadable_tail
    else if not (all_zero got)
    then ok false
    else more

-- The locals of the scan, and `recent_cache`.
pub record ScanState : Type 0 where
  pub position : ℕ
  pub expected_offset : ℕ
  pub truncate_tail : Bool
  pub cache : CircularBuffer Message

-- How a round of the loop ends: by `break`, by reaching the end of the body, or by an exception.
pub data Round : Type 0 where
  stop : ScanState → Round
  next : ScanState → Round
  throw : Error → ScanState → Round

-- A round that met zeros, by the result of `zero_tail`.
abbrev pub at_zero : Source → ScanState → Result Bool → Round
at_zero s st (err e) = throw e st
at_zero s st (ok true) = stop st
at_zero s st (ok false) =
    if s.is_latest then stop (record st { truncate_tail = true }) else throw corrupt_tail st

-- A round that met an invalid record.
abbrev pub at_invalid : Source → ScanState → Round
at_invalid s st =
    if s.is_latest then stop (record st { truncate_tail = true }) else throw corrupt_record st

abbrev pub total_size : ℕ → ℕ
total_size payload_length = record_header_size + payload_length

-- The tests on the header alone.
pub header_valid : ScanState → List ℕ → List ℕ → Bool
header_valid st got header =
    length got == record_header_size
    && get_u32 header 0 == record_magic
    && get_u32 header 4 == record_header_size
    && get_u64 header 8 == st.expected_offset

-- Does the record lie inside the segment and the file?
pub record_fits : Source → ScanState → ℕ → Bool
record_fits s st payload_length =
    leb (total_size payload_length) (u64 (s.segment_size + 2 ^ 64 - st.position))
    && leb (u64 (st.position + total_size payload_length)) (length s.bytes)

-- The end of a round, on a record that passed the tests.
pub accept : Source → ScanState → List ℕ → List ℕ → Round
accept s st header payload =
    if ltb (2 ^ 64 - 1 - total_size (length payload)) st.expected_offset
    then throw offsets_overflow st
    else next (record st {
      position = u64 (st.position + total_size (length payload));
      expected_offset = u64 (st.expected_offset + total_size (length payload));
      cache = push st.cache (record {
        offset = st.expected_offset;
        timestamp_ns = get_u64 header 16;
        payload_length = length payload;
        payload = payload;
      });
    })

-- The payload is read only if the record fits.
pub read_payload : Source → ScanState → List ℕ → ℕ → Round
read_payload s st header payload_length =
    let payload = pread s.bytes (st.position + record_header_size) payload_length in
    if not (payload_length == 0) && not (s.pread_ok (st.position + record_header_size))
    then throw io_error st
    else if length payload == payload_length && get_u32 header 28 == record_crc header payload
    then accept s st header payload
    else at_invalid s st

-- One round of `while (position + record_header_size <= actual_size)`.
pub scan_record : Source → ScanState → Round
scan_record s st =
    let got = pread s.bytes st.position record_header_size in
    let header = zero_filled record_header_size got in
    let payload_length = get_u32 header 24 in
    if not (s.pread_ok st.position)
    then throw io_error st
    else if length got == 0
    then stop st
    else if get_u32 header 0 == 0
    then at_zero s st (zero_tail (length s.bytes) s st.position (length s.bytes - st.position))
    else if header_valid st got header && record_fits s st payload_length
    then read_payload s st header payload_length
    else at_invalid s st

-- How the loop ends.
pub data Loop : Type 0 where
  finished : ScanState → Loop
  failed : Error → ScanState → Loop

pub scan_loop : ℕ → Source → ScanState → Loop
scan_loop zero s st =
    if leb (u64 (st.position + record_header_size)) (length s.bytes)
    then failed out_of_fuel st
    else finished st
scan_loop (suc fuel) s st =
    let round : Loop = elim (scan_record s st) [
      | stop st' ↦ finished st'
      | next st' ↦ scan_loop fuel s st'
      | throw e st' ↦ failed e st'
    ] in
    if leb (u64 (st.position + record_header_size)) (length s.bytes) then round else finished st

-- The bytes behind the last whole record header, when fewer than 32 are left.
pub check_tail : Source → ScanState → Loop
check_tail s st =
    let tail = pread s.bytes st.position (length s.bytes - st.position) in
    if ltb st.position (length s.bytes)
      && ltb (length s.bytes) (u64 (st.position + record_header_size))
    then if not (s.pread_ok st.position)
      then failed io_error st
      else if all_zero tail
      then finished st
      else if s.is_latest
      then finished (record st { truncate_tail = true })
      else failed truncated_record st
    else finished st

-- What `scan_segment` leaves: the file, `expected_offset`, `info` and `recent_cache`.
pub record Scanned : Type 0 where
  pub file : List ℕ
  pub next_offset : ℕ
  pub info : LogSegmentInfo
  pub recent : CircularBuffer Message

-- `ftruncate`: shorter, or longer by zeros.
abbrev pub resize : List ℕ → ℕ → List ℕ
resize bytes size = take size bytes ++ replicate (size - length bytes) 0
