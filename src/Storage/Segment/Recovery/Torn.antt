-- ===== src/Storage/Segment/Recovery/Torn.antt =====
-- The latest segment file after a crash in the middle of an append.
use io_t_delivery_fleet_moni.Prelude.{
  ℕ, suc, ◌+◌, ◌-◌, ◌≡◌, ap, sym, ◌∙◌, List, [], ◌++◌, true, not, if◌then◌else◌, take, replicate,
  length, arith, length-append, append-nil, append_assoc, ap₂, take_prefix, le→leb, inl, inr,
  Bool-cases,
}
use io_t_delivery_fleet_moni.Storage.Circular.{CircularBuffer}
use io_t_delivery_fleet_moni.Storage.Format.{Message, LogSegmentInfo, segment_header, ok}
use io_t_delivery_fleet_moni.Storage.Format.Fields.{length-segment_header}
use io_t_delivery_fleet_moni.Storage.Scan.{
  Source, ScanState, stop, finished, all_zero, at_zero, scan_record, scan_loop, resize,
}
use io_t_delivery_fleet_moni.Storage.Scan.Records.{Entry, encode, total, length-encode}
use io_t_delivery_fleet_moni.Storage.Scan.Ending.{
  scan_record-zeros, scan_loop-stop, check_tail-long,
}
use io_t_delivery_fleet_moni.Storage.Segment.{scanned, finish, then_check_tail, scan_segment}
use io_t_delivery_fleet_moni.Storage.Segment.Recovery.{
  IsSegment, IsHealthy, recovered, segment_file, length-bytes, readable, scan_segment-body,
  scan_body_lem, ends_at, end_state,
}

-- The latest segment file with whole records, then a record header of zeros, then any bytes, as a
-- crash between the two copies of `append` leaves it, with all system calls succeeding: the scan
-- recovers all the whole records; it leaves the file as it is if the other bytes are zeros too, and
-- otherwise cuts the file off behind the last whole record.
pub scan_segment-torn :
    (s : Source) (segment_id base_offset : ℕ) (es : List Entry) (junk : List ℕ)
    (info : LogSegmentInfo) (cache : CircularBuffer Message)
    → IsSegment s segment_id base_offset es (replicate 32 0 ++ junk)
    → IsHealthy s
    → s.is_latest ≡ true
    → scan_segment s segment_id base_offset info cache
      ≡ scanned (
          recovered base_offset es info cache (
            if all_zero junk
            then s.bytes
            else segment_file segment_id base_offset s.segment_size es []))
unfolding finish
scan_segment-torn s segment_id base_offset es junk info cache v c latest =
    scan_segment-body s segment_id base_offset es torn v c info cache
    ∙ scan_body_lem s segment_id base_offset es torn v c info cache (finished last) ends
    ∙ elim (Bool-cases (all_zero junk)) [
      | inl e ↦ rw (e, c.closes)
      | inr e ↦ rw (e, c.truncates, c.closes, cut)
    ]
  where
    torn : List ℕ
    torn = replicate 32 0 ++ junk

    state : ScanState
    state = end_state s segment_id base_offset es torn v c cache

    last : ScanState
    last = record state { truncate_tail = not (all_zero junk) }

    room : 40 + total es + 32 + length junk ≡ length s.bytes
    room = omega (arith, length-bytes s segment_id base_offset es torn v c)

    round : scan_record s state ≡ stop last
    round =
        scan_record-zeros s state (readable s segment_id base_offset es torn v c)
          (omega (arith, room)) (ap (take 32) (ends_at s segment_id base_offset es torn v c))
        ∙ ap (λ xs. at_zero s state (ok (all_zero xs)))
            (ends_at s segment_id base_offset es torn v c)
        ∙ elim (Bool-cases (all_zero junk)) [ inl e ↦ rw e | inr e ↦ rw (e, latest) ]

    ends : (fuel : ℕ) → then_check_tail s (scan_loop (suc fuel) s state) ≡ finished last
    ends fuel =
        ap (then_check_tail s) (
          scan_loop-stop fuel s state last (le→leb _ _ (omega (arith, room, v.fits, v.small)))
            round)
        ∙ check_tail-long s last (readable s segment_id base_offset es torn v c)
            (omega (arith, room))

    header : List ℕ
    header = segment_header segment_id base_offset s.segment_size

    front : length (header ++ encode base_offset es) ≡ 40 + total es
    front = omega (
      arith,
      length-append header (encode base_offset es),
      length-segment_header segment_id base_offset s.segment_size,
      length-encode base_offset es,
    )

    cut : resize s.bytes (40 + total es) ≡ segment_file segment_id base_offset s.segment_size es []
    cut =
        ap₂ (λ xs n. take (40 + total es) xs ++ replicate n 0)
          (v.bytes ∙ sym (append_assoc header (encode base_offset es) torn)) (no_growth)
        ∙ append-nil (take (40 + total es) ((header ++ encode base_offset es) ++ torn))
        ∙ take_prefix (40 + total es) (header ++ encode base_offset es) torn front
        ∙ ap (◌++◌ header) (sym (append-nil (encode base_offset es)))
      where
        no_growth : 40 + total es - length s.bytes ≡ 0
        no_growth = omega (arith, room)
