-- ===== src/Storage/Segment/Recovery/Intact.antt =====
-- A segment file whose records are all whole.
use io_t_delivery_fleet_moni.Prelude.{
  ℕ, ◌+◌, ◌≡◌, ◌∙◌, List, replicate, length, arith, length-replicate,
}
use io_t_delivery_fleet_moni.Storage.Circular.{CircularBuffer}
use io_t_delivery_fleet_moni.Storage.Codec.{segment_header_size}
use io_t_delivery_fleet_moni.Storage.Format.{Message, LogSegmentInfo}
use io_t_delivery_fleet_moni.Storage.Scan.{Source}
use io_t_delivery_fleet_moni.Storage.Scan.Records.{Entry, total}
use io_t_delivery_fleet_moni.Storage.Segment.{scanned, finish, scan_segment}
use io_t_delivery_fleet_moni.Storage.Segment.Recovery.{
  IsSegment, IsHealthy, recovered, loop_end-zeros, length-bytes, readable, scan_segment-body,
  scan_body_lem, ends_at,
}

-- A file that is a segment header, whole records and zero padding, within the segment size, sealed
-- or latest, with all system calls succeeding: the scan leaves the file as it is, pushes exactly the
-- messages of the records to the cache, and reports where the next record goes.
pub scan_segment-intact :
    (s : Source) (segment_id base_offset : ℕ) (es : List Entry) (pad : ℕ) (info : LogSegmentInfo)
    (cache : CircularBuffer Message)
    → IsSegment s segment_id base_offset es (replicate pad 0)
    → IsHealthy s
    → scan_segment s segment_id base_offset info cache
      ≡ scanned (recovered base_offset es info cache s.bytes)
unfolding finish
scan_segment-intact s segment_id base_offset es pad info cache v c =
    scan_segment-body s segment_id base_offset es (replicate pad 0) v c info cache
    ∙ scan_body_lem s segment_id base_offset es (replicate pad 0) v c info cache _ (λ fuel.
      loop_end-zeros fuel s _ pad (readable s segment_id base_offset es (replicate pad 0) v c)
        (total_length) (ends_at s segment_id base_offset es (replicate pad 0) v c))
    ∙ rw c.closes
  where
    total_length : segment_header_size + total es + pad ≡ length s.bytes
    total_length = omega (
      arith,
      length-bytes s segment_id base_offset es (replicate pad 0) v c,
      length-replicate {A = ℕ} pad 0,
    )
