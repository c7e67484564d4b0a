-- ===== src/Storage/Segment/Recovery.antt =====
-- What the scan recovers from the files that the log leaves behind.
pub mod Intact
pub mod Torn
use io_t_delivery_fleet_moni.Prelude.{
  ℕ, zero, suc, ◌+◌, ◌-◌, ◌^◌, ◌≤◌, ◌<◌, ◌≡◌, refl, ap, sym, ◌∙◌, List, [], ◌∷◌, ◌++◌, Bool, true,
  false, not, ◌&&◌, ltb, leb, ◌==◌, if◌then◌else◌, take, drop, replicate, length, arith, u32, u64,
  length-append, le→ltb, drop-drop, append-nil, take_prefix, drop_prefix, length-replicate,
  length-take, length-drop, le→leb, lt→leb, inl, inr, take_all, Bool-cases, leb→le,
}
use io_t_delivery_fleet_moni.Storage.Circular.{CircularBuffer}
use io_t_delivery_fleet_moni.Storage.Circular.History.{push_all}
use io_t_delivery_fleet_moni.Storage.Codec.{
  segment_magic, get_u32, get_u64, segment_header_size, record_header_size,
}
use io_t_delivery_fleet_moni.Storage.Codec.RoundTrip.{get_u32-zeros}
use io_t_delivery_fleet_moni.Storage.Format.{Message, LogSegmentInfo, segment_header, ok, bytes_eq}
use io_t_delivery_fleet_moni.Storage.Format.Fields.{
  length-segment_header, segment_header-magic, segment_header-version, segment_header-id,
  segment_header-base, segment_header-size, segment_header-crc,
}
use io_t_delivery_fleet_moni.Storage.Format.Names.{bytes_eq_refl}
use io_t_delivery_fleet_moni.Storage.Scan.{
  Source, ScanState, Round, stop, Loop, finished, pread, zero_filled, all_zero, at_zero, zero_tail,
  scan_record, scan_loop, check_tail, Scanned,
}
use io_t_delivery_fleet_moni.Storage.Scan.Tail.{all_zero-replicate, zero_tail_lem}
use io_t_delivery_fleet_moni.Storage.Scan.Records.{
  Entry, IsReadable, IsEncodable, encode, messages, total, length-encode, scan_loop-records,
  after_all, after_all_lem, length-le-total,
}
use io_t_delivery_fleet_moni.Storage.Scan.Ending.{
  scan_record-zeros, scan_loop-stop, scan_loop-done, check_tail-zeros,
}
use io_t_delivery_fleet_moni.Storage.Segment.{
  Outcome, scanned, header_matches, finish, then_check_tail, scan_body, scan_segment,
}

take-replicate : (n k : ℕ) → n ≤ k → take n (replicate {A = ℕ} k 0) ≡ replicate n 0
take-replicate zero k h = refl
take-replicate (suc n) zero h = absurd (omega arith)
take-replicate (suc n) (suc k) h = ap (◌∷◌ 0) (take-replicate n k (omega arith))

-- The loop and the tail check end where only zeros follow.
pub loop_end-zeros :
    (fuel : ℕ) (s : Source) (st : ScanState) (pad : ℕ)
    → IsReadable s
    → st.position + pad ≡ length s.bytes
    → drop st.position s.bytes ≡ replicate pad 0
    → then_check_tail s (scan_loop (suc fuel) s st) ≡ finished st
loop_end-zeros fuel s st pad r end bytes = elim (Bool-cases (leb 32 pad)) [
  | inl more ↦
      let room : 32 ≤ pad = leb→le 32 pad more in
      ap (then_check_tail s) (
        scan_loop-stop fuel s st st (le→leb _ _ (omega (arith, r.fits, r.small))) (
          scan_record-zeros s st r (omega arith) (ap (take 32) bytes ∙ take-replicate 32 pad room)
          ∙ ap (λ xs. at_zero s st (ok (all_zero xs))) bytes
          ∙ ap (λ b. at_zero s st (ok b)) (all_zero-replicate pad)))
      ∙ check_tail-zeros s st pad r end bytes
  | inr few ↦
      let short : pad < 32 = ground arith in
      ap (then_check_tail s)
        (scan_loop-done (suc fuel) s st (lt→leb _ _ (omega (arith, r.fits, r.small))))
      ∙ check_tail-zeros s st pad r end bytes
]

-- The header check on a header that `create_segment` wrote.
header_matches_lem :
    (segment_id base_offset segment_size : ℕ)
    → segment_id < 2 ^ 32
    → segment_size < 2 ^ 63
    → header_matches (segment_header segment_id base_offset segment_size) segment_id segment_size
      ≡ true
unfolding header_matches
header_matches_lem segment_id base_offset segment_size hi hs =
    rw (segment_header-magic segment_id base_offset segment_size) (
      ground (
        arith,
        segment_header-version segment_id base_offset segment_size,
        segment_header-id segment_id base_offset segment_size,
        segment_header-size segment_id base_offset segment_size,
        segment_header-crc segment_id base_offset segment_size,
        bytes_eq_refl segment_magic,
      ))

-- Every system call of the scan succeeds.
pub record IsHealthy (s : Source) : Type 0 where
  pub opened : s.open_ok ≡ true
  pub stat : s.fstat_ok ≡ true
  pub header : s.header_ok ≡ true
  pub reads : (offset : ℕ) → s.pread_ok offset ≡ true
  pub truncates : s.ftruncate_ok ≡ true
  pub closes : s.close_ok ≡ true

-- A segment file that `create_segment` and `append` made, with `rest` behind its last record.
abbrev pub segment_file : ℕ → ℕ → ℕ → List Entry → List ℕ → List ℕ
segment_file segment_id base_offset segment_size es rest =
    segment_header segment_id base_offset segment_size ++ (encode base_offset es ++ rest)

pub record IsSegment (s : Source) (segment_id base_offset : ℕ) (es : List Entry) (rest : List ℕ)
    : Type 0 where
  pub bytes : s.bytes ≡ segment_file segment_id base_offset s.segment_size es rest
  pub fits : length s.bytes ≤ s.segment_size
  pub small : s.segment_size < 2 ^ 63
  pub id_small : segment_id < 2 ^ 32
  pub base_small : base_offset < 2 ^ 64
  pub encodable : IsEncodable base_offset es

-- What the scan reports of the intact records, over the file that it leaves.
abbrev pub recovered : ℕ → List Entry → LogSegmentInfo → CircularBuffer Message → List ℕ → Scanned
recovered base_offset es info cache file = record {
  file = file;
  next_offset = base_offset + total es;
  info = record info {
    first_offset = base_offset;
    end_offset = base_offset + total es;
    valid_bytes = segment_header_size + total es;
  };
  recent = push_all cache (messages base_offset es);
}

module _ (s : Source) (segment_id base_offset : ℕ) (es : List Entry) (rest : List ℕ)
    (v : IsSegment s segment_id base_offset es rest) (c : IsHealthy s) where
  header : List ℕ
  header = segment_header segment_id base_offset s.segment_size

  start : CircularBuffer Message → ScanState
  start cache = record {
    position = segment_header_size;
    expected_offset = base_offset;
    truncate_tail = false;
    cache = cache;
  }

  pub length-bytes : length s.bytes ≡ 40 + total es + length rest
  unfolding header
  length-bytes = omega (
    arith,
    ap length v.bytes,
    length-append header (encode base_offset es ++ rest),
    length-append (encode base_offset es) rest,
    length-segment_header segment_id base_offset s.segment_size,
    length-encode base_offset es,
  )

  pub readable : IsReadable s
  readable = record { fits = v.fits; small = v.small; reads = c.reads }

  records : drop 40 s.bytes ≡ encode base_offset es ++ rest
  unfolding header
  records =
      ap (drop 40) v.bytes
      ∙ drop_prefix 40 header _ (length-segment_header segment_id base_offset s.segment_size)

  header-eq :
      pread s.bytes 0 segment_header_size ≡ segment_header segment_id base_offset s.segment_size
  unfolding header
  header-eq =
      ap (take 40) v.bytes
      ∙ take_prefix 40 header _ (length-segment_header segment_id base_offset s.segment_size)

  -- The header of such a file passes all checks.
  pub scan_segment-body :
      (info : LogSegmentInfo) (cache : CircularBuffer Message)
      → scan_segment s segment_id base_offset info cache
        ≡ scan_body s base_offset base_offset info cache
  unfolding scan_segment
  scan_segment-body info cache =
      rw (header-eq, c.opened, c.stat, c.header)
        (ground (
          arith,
          length-bytes,
          v.fits,
          length-segment_header segment_id base_offset s.segment_size,
          header_matches_lem segment_id base_offset s.segment_size v.id_small v.small,
          segment_header-base segment_id base_offset s.segment_size,
        ))

  -- The state behind the last record.
  abbrev pub end_state : CircularBuffer Message → ScanState
  end_state cache = record {
    position = segment_header_size + total es;
    expected_offset = base_offset + total es;
    truncate_tail = false;
    cache = push_all cache (messages base_offset es);
  }

  pub scan_body_lem :
      (info : LogSegmentInfo) (cache : CircularBuffer Message) (last : Loop)
      → ((fuel : ℕ) → then_check_tail s (scan_loop (suc fuel) s (end_state cache)) ≡ last)
      → scan_body s base_offset base_offset info cache
        ≡ finish s (record info { first_offset = base_offset }) last
  unfolding scan_body start
  scan_body_lem info cache last ends =
      ap
        (λ b.
          finish s (record info { first_offset = base_offset })
            (then_check_tail s
              (scan_loop (length s.bytes) s (record (start cache) { truncate_tail = b }))))
        untruncated
      ∙ ap (λ l. finish s (record info { first_offset = base_offset }) (then_check_tail s l))
          (ap (λ n. scan_loop n s (start cache)) rounds
            ∙ scan_loop-records (suc spare) s (start cache) es rest readable v.encodable
                (omega (arith, length-bytes)) records
            ∙ ap (scan_loop (suc spare) s) (after_all_lem (start cache) es))
      ∙ ap (finish s (record info { first_offset = base_offset })) (ends spare)
    where
      untruncated : ltb (length s.bytes) segment_header_size ≡ false
      untruncated = le→ltb (length s.bytes) 40 (omega (arith, length-bytes))

      spare : ℕ
      spare = length s.bytes - length es - 1

      rounds : length s.bytes ≡ length es + suc spare
      rounds = omega (arith, length-bytes, length-le-total es)

  pub ends_at : drop (40 + total es) s.bytes ≡ rest
  ends_at =
      sym (drop-drop (total es) 40 s.bytes)
      ∙ ap (drop (total es)) records
      ∙ drop_prefix (total es) (encode base_offset es) rest (length-encode base_offset es)
