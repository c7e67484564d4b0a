-- ===== src/Storage/Scan/Records.antt =====
-- The scan over the bytes of whole records, as `append` writes them.
use io_t_delivery_fleet_moni.Prelude.{
  ℕ, suc, ◌+◌, ◌-◌, ◌^◌, ◌≤◌, ◌<◌, ◌≡◌, refl, ap, sym, ◌∙◌, List, [], ◌∷◌, ◌++◌, true, leb, take,
  drop, replicate, length, arith, u64, length-append, append_assoc, append-nil, take_prefix,
  drop_prefix, take-append, drop-drop, length-drop, drop-append, le→leb,
}
use io_t_delivery_fleet_moni.Storage.Circular.{push}
use io_t_delivery_fleet_moni.Storage.Circular.History.{push_all}
use io_t_delivery_fleet_moni.Storage.Codec.{record_header_size}
use io_t_delivery_fleet_moni.Storage.Format.{Message, record_header}
use io_t_delivery_fleet_moni.Storage.Format.Fields.{
  length-record_header, record_header-magic, record_header-version, record_header-offset,
  record_header-timestamp, record_header-length, record_header-crc,
}
use io_t_delivery_fleet_moni.Storage.Scan.{
  Source, ScanState, next, pread, zero_filled, header_valid, record_fits, accept, read_payload,
  scan_record, scan_loop,
}

-- An appended payload with the time of the append.
pub record Entry : Type 0 where
  pub timestamp : ℕ
  pub payload : List ℕ

abbrev pub record_size : Entry → ℕ
record_size e = record_header_size + length e.payload

-- The records of the entries, from message offset `offset` on, as bytes and as messages.
abbrev pub encode : ℕ → List Entry → List ℕ
encode offset [] = []
encode offset (e ∷ es) =
    record_header offset e.timestamp e.payload ++ (e.payload ++ encode (offset + record_size e) es)

abbrev pub messages : ℕ → List Entry → List Message
messages offset [] = []
messages offset (e ∷ es) =
    record {
      offset = offset;
      timestamp_ns = e.timestamp;
      payload_length = length e.payload;
      payload = e.payload;
    }
    ∷ messages (offset + record_size e) es

abbrev pub total : List Entry → ℕ
total [] = 0
total (e ∷ es) = record_size e + total es

pub length-encode : (offset : ℕ) (es : List Entry) → length (encode offset es) ≡ total es
length-encode offset [] = refl
length-encode offset (e ∷ es) = omega (
  arith,
  length-append (record_header offset e.timestamp e.payload)
      (e.payload ++ encode (offset + record_size e) es),
  length-append e.payload (encode (offset + record_size e) es),
  length-record_header offset e.timestamp e.payload,
  length-encode (offset + record_size e) es,
)

-- What the program guarantees of the entries of a segment that starts at `offset`.
abbrev pub IsEncodable : ℕ → List Entry → Type 0
IsEncodable offset [] = Unit {0}
IsEncodable offset (e ∷ es) =
    (e.timestamp < 2 ^ 64)
    × (length e.payload < 2 ^ 32)
    × (offset + record_size e < 2 ^ 64)
    × IsEncodable (offset + record_size e) es

-- A source that is not larger than its segment, and whose reads succeed.
pub record IsReadable (s : Source) : Type 0 where
  pub fits : length s.bytes ≤ s.segment_size
  pub small : s.segment_size < 2 ^ 63
  pub reads : (offset : ℕ) → s.pread_ok offset ≡ true

header_valid_lem :
    (st : ScanState) (t : ℕ) (p : List ℕ)
    → st.expected_offset < 2 ^ 64
    → let h = record_header st.expected_offset t p in header_valid st h h ≡ true
unfolding header_valid
header_valid_lem st t p small = ground (
  arith,
  length-record_header st.expected_offset t p,
  record_header-magic st.expected_offset t p,
  record_header-version st.expected_offset t p,
  record_header-offset st.expected_offset t p,
)

record_fits_lem :
    (s : Source) (st : ScanState) (n : ℕ)
    → length s.bytes ≤ s.segment_size
    → s.segment_size < 2 ^ 63
    → st.position + (32 + n) ≤ length s.bytes
    → record_fits s st n ≡ true
unfolding record_fits
record_fits_lem s st n fits small inside = ground arith

-- The state behind one entry.
abbrev pub after : ScanState → Entry → ScanState
after st e = record st {
  position = st.position + record_size e;
  expected_offset = st.expected_offset + record_size e;
  cache = push st.cache (record {
    offset = st.expected_offset;
    timestamp_ns = e.timestamp;
    payload_length = length e.payload;
    payload = e.payload;
  });
}

accept_lem :
    (s : Source) (st : ScanState) (e : Entry)
    → e.timestamp < 2 ^ 64
    → st.expected_offset + record_size e < 2 ^ 64
    → st.position + record_size e < 2 ^ 63
    → accept s st (record_header st.expected_offset e.timestamp e.payload) e.payload
      ≡ next (after st e)
unfolding accept
accept_lem s st e ht ho hp =
    ground (arith, record_header-timestamp st.expected_offset e.timestamp e.payload)

read_payload_lem :
    (s : Source) (st : ScanState) (e : Entry)
    → ((offset : ℕ) → s.pread_ok offset ≡ true)
    → pread s.bytes (st.position + record_header_size) (length e.payload) ≡ e.payload
    → let h = record_header st.expected_offset e.timestamp e.payload in
      read_payload s st h (length e.payload) ≡ accept s st h e.payload
unfolding read_payload
read_payload_lem s st e reads got =
    rw (got, reads (st.position + record_header_size))
      (ground (arith, record_header-crc st.expected_offset e.timestamp e.payload))

-- Where a record stands in the file.
module _ (xs : List ℕ) (at offset : ℕ) (e : Entry) (rest : List ℕ) where
  abbrev h : List ℕ
  h = record_header offset e.timestamp e.payload

  record_inside :
      at ≤ length xs
      → drop at xs ≡ record_header offset e.timestamp e.payload ++ (e.payload ++ rest)
      → at + record_size e ≤ length xs
  record_inside inside bytes = omega (
    arith,
    length-drop at xs,
    ap length bytes,
    length-append h (e.payload ++ rest),
    length-append e.payload rest,
    length-record_header offset e.timestamp e.payload,
  )

  payload_at :
      drop at xs ≡ record_header offset e.timestamp e.payload ++ (e.payload ++ rest)
      → drop (at + 32) xs ≡ e.payload ++ rest
  payload_at bytes =
      sym (drop-drop 32 at xs)
      ∙ ap (drop 32) bytes
      ∙ drop_prefix 32 h (e.payload ++ rest) (length-record_header offset e.timestamp e.payload)

  behind :
      drop at xs ≡ record_header offset e.timestamp e.payload ++ (e.payload ++ rest)
      → drop (at + record_size e) xs ≡ rest
  behind bytes =
      ap (λ n. drop n xs) regroup
      ∙ sym (drop-drop (length e.payload) (at + 32) xs)
      ∙ ap (drop (length e.payload)) (payload_at bytes)
      ∙ drop-append e.payload rest
    where
      regroup : at + record_size e ≡ at + 32 + length e.payload
      regroup = omega arith

-- A round at an intact record takes it and goes on behind it.
scan_record-next :
    (s : Source) (st : ScanState) (e : Entry) (rest : List ℕ)
    → IsReadable s
    → e.timestamp < 2 ^ 64
    → length e.payload < 2 ^ 32
    → st.expected_offset + record_size e < 2 ^ 64
    → st.position ≤ length s.bytes
    → drop st.position s.bytes
      ≡ record_header st.expected_offset e.timestamp e.payload ++ (e.payload ++ rest)
    → scan_record s st ≡ next (after st e)
unfolding scan_record
scan_record-next s st e rest r ht hp ho inside bytes =
    rw (got, header-eq, r.reads st.position)
      (ground (
        arith,
        length-record_header st.expected_offset e.timestamp e.payload,
        record_header-magic st.expected_offset e.timestamp e.payload,
        record_header-length st.expected_offset e.timestamp e.payload,
        header_valid_lem st e.timestamp e.payload,
        record_fits_lem s st (length e.payload) r.fits r.small room,
        read_payload_lem s st e r.reads payload,
        accept_lem s st e ht ho (omega (arith, r.fits, r.small, room)),
      ))
  where
    h : List ℕ
    h = record_header st.expected_offset e.timestamp e.payload

    got : pread s.bytes st.position 32 ≡ h
    got = ap (take 32) bytes ∙ take_prefix 32 h (e.payload ++ rest) (length-record_header _ _ _)

    header-eq : zero_filled 32 h ≡ h
    header-eq = ap (λ n. h ++ replicate (32 - n) 0) (length-record_header _ _ _) ∙ append-nil h

    room : st.position + (32 + length e.payload) ≤ length s.bytes
    room = record_inside s.bytes st.position st.expected_offset e rest inside bytes

    payload : pread s.bytes (st.position + 32) (length e.payload) ≡ e.payload
    payload =
        ap (take (length e.payload))
          (payload_at s.bytes st.position st.expected_offset e rest bytes)
        ∙ take-append e.payload rest

abbrev pub after_all : ScanState → List Entry → ScanState
after_all st [] = st
after_all st (e ∷ es) = after_all (after st e) es

scan_loop-next :
    (fuel : ℕ) (s : Source) (st st' : ScanState)
    → leb (u64 (st.position + record_header_size)) (length s.bytes) ≡ true
    → scan_record s st ≡ next st'
    → scan_loop (suc fuel) s st ≡ scan_loop fuel s st'
unfolding scan_loop
scan_loop-next fuel s st st' more e = ground arith

-- The loop takes every intact record, one round each, and goes on behind the last.
pub scan_loop-records :
    (fuel : ℕ) (s : Source) (st : ScanState) (es : List Entry) (rest : List ℕ)
    → IsReadable s
    → IsEncodable st.expected_offset es
    → st.position ≤ length s.bytes
    → drop st.position s.bytes ≡ encode st.expected_offset es ++ rest
    → scan_loop (length es + fuel) s st ≡ scan_loop fuel s (after_all st es)
scan_loop-records fuel s st [] rest r enc inside bytes = ap (λ n. scan_loop n s st) (omega arith)
scan_loop-records fuel s st (e ∷ es) rest r enc inside bytes =
    let more = encode (st.expected_offset + record_size e) es ++ rest in
    let bytes' = bytes ∙ regroup in
    let room = record_inside s.bytes st.position st.expected_offset e more inside bytes' in
    ap (λ n. scan_loop n s st) suc_add
    ∙ scan_loop-next (length es + fuel) s st (after st e)
        (le→leb _ _ (omega (arith, r.fits, r.small)))
        (scan_record-next s st e more r enc.0 enc.1 enc.2 inside bytes')
    ∙ scan_loop-records fuel s (after st e) es rest r enc.3 room
        (behind s.bytes st.position st.expected_offset e more bytes')
  where
    suc_add : length (e ∷ es) + fuel ≡ suc (length es + fuel)
    suc_add = omega arith

    regroup :
        encode st.expected_offset (e ∷ es) ++ rest
        ≡ record_header st.expected_offset e.timestamp e.payload
          ++ (e.payload ++ (encode (st.expected_offset + record_size e) es ++ rest))
    regroup = simp append_assoc

-- The state behind all entries.
pub after_all-position :
    (st : ScanState) (es : List Entry) → (after_all st es).position ≡ st.position + total es
after_all-position st [] = omega arith
after_all-position st (e ∷ es) = omega (arith, after_all-position (after st e) es)

pub after_all-offset :
    (st : ScanState) (es : List Entry)
    → (after_all st es).expected_offset ≡ st.expected_offset + total es
after_all-offset st [] = omega arith
after_all-offset st (e ∷ es) = omega (arith, after_all-offset (after st e) es)

pub after_all-truncate :
    (st : ScanState) (es : List Entry) → (after_all st es).truncate_tail ≡ st.truncate_tail
after_all-truncate st [] = refl
after_all-truncate st (e ∷ es) = after_all-truncate (after st e) es

pub after_all-cache :
    (st : ScanState) (es : List Entry)
    → (after_all st es).cache ≡ push_all st.cache (messages st.expected_offset es)
after_all-cache st [] = refl
after_all-cache st (e ∷ es) = after_all-cache (after st e) es

pub after_all_lem :
    (st : ScanState) (es : List Entry)
    → after_all st es ≡ record st {
      position = st.position + total es;
      expected_offset = st.expected_offset + total es;
      cache = push_all st.cache (messages st.expected_offset es);
    }
after_all_lem st es = ground (
  arith,
  after_all-position st es,
  after_all-offset st es,
  after_all-truncate st es,
  after_all-cache st es,
)

-- There are no more records than bytes.
pub length-le-total : (es : List Entry) → length es ≤ total es
length-le-total [] = omega arith
length-le-total (e ∷ es) = omega (arith, length-le-total es)
