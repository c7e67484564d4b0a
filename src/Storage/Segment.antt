-- ===== src/Storage/Segment.antt =====
-- storage/mmap_log.cpp: `scan_segment` as a whole. The scan of one segment file, from the checks of
-- its header to the truncation of its tail.
pub mod Recovery
use io_t_delivery_fleet_moni.Prelude.{
  ℕ, ◌+◌, ◌-◌, List, [], ◌++◌, Bool, true, false, not, ◌&&◌, ltb, ◌==◌, if◌then◌else◌, take, drop,
  length,
}
use io_t_delivery_fleet_moni.Storage.Circular.{CircularBuffer}
use io_t_delivery_fleet_moni.Storage.Codec.{
  segment_magic, segment_version, segment_header_size, get_u32, get_u64, segment_crc,
}
use io_t_delivery_fleet_moni.Storage.Format.{
  Message, LogSegmentInfo, Error, io_error, truncated_header, unreadable_header, invalid_header,
  discontinuous_base, oversized_file, bytes_eq,
}
use io_t_delivery_fleet_moni.Storage.Scan.{
  Source, ScanState, Loop, finished, failed, scan_loop, check_tail, Scanned, resize, pread,
}

-- A scan that throws has still changed `recent_cache`, and perhaps the file.
pub data Outcome : Type 0 where
  scanned : Scanned → Outcome
  scan_failed : Error → List ℕ → CircularBuffer Message → Outcome

pub header_matches : List ℕ → ℕ → ℕ → Bool
header_matches header expected_id segment_size =
    bytes_eq (take 8 header) segment_magic
    && get_u32 header 8 == segment_version
    && get_u32 header 12 == expected_id
    && get_u64 header 24 == segment_size
    && get_u32 header 32 == segment_crc header

-- Truncation, closing, and the results, from the state behind the loop.
pub finish : Source → LogSegmentInfo → Loop → Outcome
finish s info (failed e st) = scan_failed e s.bytes st.cache
finish s info (finished st) =
    let file = if st.truncate_tail then resize s.bytes st.position else s.bytes in
    if st.truncate_tail && not s.ftruncate_ok
    then scan_failed io_error s.bytes st.cache
    else if not s.close_ok
    then scan_failed io_error file st.cache
    else scanned (record {
      file = file;
      next_offset = st.expected_offset;
      info = record info { end_offset = st.expected_offset; valid_bytes = st.position };
      recent = st.cache;
    })

abbrev pub then_check_tail : Source → Loop → Loop
then_check_tail s (failed e st) = failed e st
then_check_tail s (finished st) = check_tail s st

-- The loop and what follows it.
pub scan_body : Source → ℕ → ℕ → LogSegmentInfo → CircularBuffer Message → Outcome
scan_body s base_offset expected_offset info cache =
    finish s (record info { first_offset = base_offset })
      (then_check_tail s (
        scan_loop (length s.bytes) s (record {
          position = segment_header_size;
          expected_offset = expected_offset;
          truncate_tail = ltb (length s.bytes) segment_header_size;
          cache = cache;
        })))

pub scan_segment : Source → ℕ → ℕ → LogSegmentInfo → CircularBuffer Message → Outcome
scan_segment s expected_id expected_offset info cache =
    let header = pread s.bytes 0 segment_header_size in
    let fail = λ (e : Error). scan_failed e s.bytes cache in
    if not s.open_ok
    then fail io_error
    else if not s.fstat_ok
    then fail io_error
    else if ltb (length s.bytes) segment_header_size
    then fail truncated_header
    else if not (s.header_ok && length header == segment_header_size)
    then fail unreadable_header
    else if not (header_matches header expected_id s.segment_size)
    then fail invalid_header
    else if not (get_u64 header 16 == expected_offset)
    then fail discontinuous_base
    else if ltb s.segment_size (length s.bytes)
    then fail oversized_file
    else scan_body s (get_u64 header 16) expected_offset info cache
