-- ===== src/Storage/History/AfterCrash.antt =====
-- `open` on a directory whose last segment file has no header at its last record.
use io_t_delivery_fleet_moni.Prelude.{
  ℕ, suc, ◌+◌, ◌-◌, ◌^◌, ◌≤◌, ◌<◌, ◌≡◌, refl, ap, ap₂, sym, subst, ◌∙◌, List, [], ◌∷◌, ◌++◌, true,
  false, some, length, replicate, arith, le→ltb, ◌==◌, length-append, IsDistinct, number_keys,
}
use io_t_delivery_fleet_moni.Storage.Circular.{CircularBuffer, create}
use io_t_delivery_fleet_moni.Storage.Circular.History.{push_all, create-Holds}
use io_t_delivery_fleet_moni.Storage.Codec.{segment_header_size, maximum_segment_id}
use io_t_delivery_fleet_moni.Storage.Format.{Message, ok, segment_path}
use io_t_delivery_fleet_moni.Storage.Format.Names.{segment_path-ne}
use io_t_delivery_fleet_moni.Storage.Scan.{resize}
use io_t_delivery_fleet_moni.Storage.Scan.Records.{Entry, total, messages, IsEncodable}
use io_t_delivery_fleet_moni.Storage.Segment.{scanned, scan_segment}
use io_t_delivery_fleet_moni.Storage.Segment.Recovery.{recovered, segment_file}
use io_t_delivery_fleet_moni.Storage.Segment.Recovery.Torn.{scan_segment-torn}
use io_t_delivery_fleet_moni.Storage.Directory.{
  Directory, find_file, update_file, arranged, numbered_files, sort_by_id,
}
use io_t_delivery_fleet_moni.Storage.Directory.Order.{sort_by_id-arranged}
use io_t_delivery_fleet_moni.Storage.Directory.Numbered.{
  update_file-miss, update_file-nil, find_file-append, find_file-hit,
}
use io_t_delivery_fleet_moni.Storage.Log.{MemoryMappedLog, Ran}
use io_t_delivery_fleet_moni.Storage.Open.{
  OpenCalls, source_of, after_scan, recover_file, go_on, recover_files, map_active_segment,
  activate, recover_or_create, blank, open_log, fresh_info,
}
use io_t_delivery_fleet_moni.Storage.History.{
  History, info_of, files_of, index_of, messages_of, size_of, IsStorable, Represents,
}
use io_t_delivery_fleet_moni.Storage.History.Files.{
  files_of-last, index_of-last, messages_of-last, size_of-append, update_file-end,
  find_file-files_of,
}
use io_t_delivery_fleet_moni.Storage.History.Listing.{numbered_of, length-numbered_of}
use io_t_delivery_fleet_moni.Storage.History.Reopen.{CanOpen, push_all-append, after_files}
use io_t_delivery_fleet_moni.Storage.History.Restart.{
  activate-last, map_active_segment-found, reopened, reopened-Represents,
}
use io_t_delivery_fleet_moni.Storage.History.Crash.{IsApart, recover_front}
use io_t_delivery_fleet_moni.Storage.History.TornFile.{
  file_at, numbered_files-behind, sort_by_id-behind, behind-IsDistinct, scanned_file, repaired,
  length-segment_file,
}

-- The last part of a storable history is storable, and so is what stands in front of it.
IsStorable-parts :
    (n base : ℕ) (front : History) (last : List Entry)
    → IsStorable n base (front ++ (last ∷ []))
    → IsStorable n base front × IsStorable n (base + size_of front) (last ∷ [])
IsStorable-parts n base [] last st =
    let e : base ≡ base + 0 = omega arith in (tt, subst (λ b. IsStorable n b (last ∷ [])) e st)
IsStorable-parts n base (es ∷ front) last st =
    let (before, at_end) = IsStorable-parts n (base + total es) front last st.2 in
    let e : base + total es + size_of front ≡ base + (total es + size_of front) = omega arith in
    ((st.0, st.1, before), subst (λ b. IsStorable n b (last ∷ [])) e at_end)

module _ (c cap : ℕ) (front : History) (last : List Entry) (log other : MemoryMappedLog)
    (calls : OpenCalls) (v : Represents c front last log) (can : CanOpen calls)
    (shut : other.opened ≡ false) (some_room : 0 < cap) (cap_small : cap ≤ 2 ^ 63) (junk : List ℕ)
    (full : segment_header_size + total last + 32 + length junk ≡ log.segment_size) where
  abbrev bytes : List ℕ
  bytes =
      segment_file (suc (length front)) (size_of front) log.segment_size last
        (replicate 32 0 ++ junk)

  abbrev crashed : Directory
  crashed = files_of log.segment_size 1 0 front ++ (file_at (suc (length front)) bytes ∷ [])

  abbrev left_file : List ℕ
  left_file = scanned_file (suc (length front)) (size_of front) log.segment_size last junk full

  abbrev start : CircularBuffer Message → MemoryMappedLog
  start b = record other {
    directory = crashed;
    segment_size = log.segment_size;
    recent_cache = b;
    next_message_offset = 0;
    segment_index = [];
  }

  id_small : suc (length front) ≤ maximum_segment_id
  id_small = omega (arith, v.count)

  numbered-eq :
      numbered_files crashed
      ≡ numbered_of log.segment_size 1 0 front
        ++ ((suc (length front), file_at (suc (length front)) bytes) ∷ [])
  numbered-eq =
      numbered_files-behind log.segment_size 1 0 (suc (length front)) front bytes
        (omega (arith, v.count)) id_small

  files-eq :
      sort_by_id (numbered_files (arranged calls.order crashed))
      ≡ numbered_of log.segment_size 1 0 front
        ++ ((suc (length front), file_at (suc (length front)) bytes) ∷ [])
  files-eq =
      sort_by_id-arranged calls.order crashed (
        subst IsDistinct (sym numbered-eq)
          (behind-IsDistinct log.segment_size 1 0 (suc (length front)) front bytes (omega arith)))
      ∙ ap sort_by_id numbered-eq
      ∙ sort_by_id-behind log.segment_size 1 0 (suc (length front)) front bytes (omega arith)

  apart : IsApart (length front) (file_at (suc (length front)) bytes ∷ [])
  apart i change low =
      update_file-miss (segment_path i) change (file_at (suc (length front)) bytes) [] (
        segment_path-ne (suc (length front)) i id_small (omega (arith, v.count, low))
          (omega (arith, low)))
      ∙ ap (◌∷◌ (file_at (suc (length front)) bytes)) (update_file-nil (segment_path i) change)

  storable :
      IsStorable log.segment_size 0 front
      × IsStorable log.segment_size (0 + size_of front) (last ∷ [])
  storable = IsStorable-parts log.segment_size 0 front last v.storable

  -- The log in front of the last file, and behind it.
  abbrev before : CircularBuffer Message → MemoryMappedLog
  before b = after_files 1 0 front (start b)

  abbrev found : CircularBuffer Message → MemoryMappedLog
  found b = record (start b) {
    directory =
        files_of log.segment_size 1 0 front ++ (file_at (suc (length front)) left_file ∷ []);
    recent_cache = push_all b (messages_of 0 (front ++ (last ∷ [])));
    segment_index = index_of 1 0 (front ++ (last ∷ []));
  }

  from_zero : 0 + size_of front ≡ size_of front
  from_zero = omega arith

  -- The scan of the torn file, at the end of the loop.
  torn_scan :
      (b : CircularBuffer Message)
      → scan_segment
          (source_of calls (before b) (suc (length front), file_at (suc (length front)) bytes) true)
          (suc (length front))
          (size_of front)
          (fresh_info (suc (length front)) (segment_path (suc (length front))))
          (before b).recent_cache
        ≡ scanned (
            recovered
              (size_of front)
              last
              (fresh_info (suc (length front)) (segment_path (suc (length front))))
              (before b).recent_cache
              left_file)
  torn_scan b =
      scan_segment-torn
        (source_of calls (before b) (suc (length front), file_at (suc (length front)) bytes) true)
        (suc (length front)) (size_of front) last junk _ (before b).recent_cache
        (record {
          bytes = refl;
          fits = omega (
            arith,
            full,
            length-append (replicate 32 0) junk,
            length-segment_file (suc (length front)) (size_of front) log.segment_size last junk full
                (replicate 32 0 ++ junk),
          );
          small = v.small;
          id_small = omega (arith, v.count);
          base_small = omega (arith, v.offset, v.offset_small);
          encodable = subst (λ o. IsEncodable o last) from_zero storable.1.1;
        })
        (can.scans (suc (length front), file_at (suc (length front)) bytes) (before b) true) refl

  last_round :
      (b : CircularBuffer Message) (count : ℕ)
      → count ≡ suc (length front)
      → recover_file calls
          (length front)
          count
          (suc (length front), file_at (suc (length front)) bytes)
          (size_of front)
          (before b)
        ≡ (ok (size_of front + total last), found b)
  unfolding recover_file
  last_round b count hc =
      rw (in_order, is_last)
        (ap (λ o. after_scan (segment_path (suc (length front))) o (before b)) (torn_scan b)
          ∙ ap₂ {C = Ran ℕ}
              (λ d xs. (
                ok (size_of front + total last),
                record (found b) {
                  directory = d;
                  segment_index = xs;
                  recent_cache =
                      push_all (push_all b (messages_of 0 front)) (messages (size_of front) last);
                },
              ))
              (update_file-end log.segment_size front bytes (λ _. left_file) v.count)
              (sym (index_of-last front last))
          ∙ ap (λ m. (ok (size_of front + total last), record (found b) { recent_cache = m }))
              (push_all-append b (messages_of 0 front) (messages (size_of front) last)
                ∙ ap (push_all b) (sym (messages_of-last front last))))
    where
      in_order : (suc (length front) == length front + 1) ≡ true
      in_order = ground arith

      is_last : (length front + 1 == count) ≡ true
      is_last = ground (arith, hc)

  all_rounds :
      (b : CircularBuffer Message) (count : ℕ)
      → count ≡ suc (length front)
      → recover_files calls 0 count
          (numbered_of log.segment_size 1 0 front
            ++ ((suc (length front), file_at (suc (length front)) bytes) ∷ []))
          0
          (start b)
        ≡ (ok (size_of front + total last), found b)
  unfolding recover_files
  all_rounds b count hc =
      recover_front calls can log.segment_size v.small count 0 0 [] front
        (file_at (suc (length front)) bytes ∷ [])
        ((suc (length front), file_at (suc (length front)) bytes) ∷ []) (start b) refl refl refl
        refl (λ i change low. apart i change (omega (arith, low))) storable.0
        (omega (arith, v.count)) (omega (arith, v.offset, v.offset_small))
      ∙ ap₂
          (λ i o.
            recover_files calls i count
              ((suc (length front), file_at (suc (length front)) bytes) ∷ []) o (before b))
          no_skip from_zero
      ∙ ap (λ (r : Ran ℕ). go_on r (recover_files calls (length front + 1) count []))
          (last_round b count hc)
    where
      no_skip : 0 + length front ≡ length front
      no_skip = omega arith

  -- Mapping the last file again repairs it.
  remapped-eq :
      (b : CircularBuffer Message)
      → map_active_segment calls
          (info_of (suc (length front)) (size_of front) last)
          (record (found b) { next_message_offset = size_of front + total last })
        ≡ (ok tt, reopened c cap front last log other calls v can shut some_room cap_small b)
  remapped-eq b =
      map_active_segment-found calls (info_of (suc (length front)) (size_of front) last) _ left_file
        there can.remap
      ∙ ap₂ {C = Ran (Unit {0})}
          (λ d o. (
            ok tt,
            record (reopened c cap front last log other calls v can shut some_room cap_small b) {
              directory = d;
              next_message_offset = o;
            },
          ))
          whole (sym (size_of-append front last))
    where
      there :
          find_file
            (segment_path (suc (length front)))
            (files_of log.segment_size 1 0 front ++ (file_at (suc (length front)) left_file ∷ []))
          ≡ some left_file
      there =
          find_file-append (segment_path (suc (length front))) (files_of log.segment_size 1 0 front)
            _
            (find_file-files_of log.segment_size 1 0 (suc (length front)) front (omega arith)
              id_small)
          ∙ find_file-hit (file_at (suc (length front)) left_file) []

      whole :
          update_file
            (segment_path (suc (length front)))
            (λ xs. resize xs log.segment_size)
            (files_of log.segment_size 1 0 front ++ (file_at (suc (length front)) left_file ∷ []))
          ≡ log.directory
      whole =
          update_file-end log.segment_size front left_file (λ xs. resize xs log.segment_size)
            v.count
          ∙ ap (λ xs. files_of log.segment_size 1 0 front ++ (file_at (suc (length front)) xs ∷ []))
              (repaired (suc (length front)) (size_of front) log.segment_size last junk full)
          ∙ sym (files_of-last log.segment_size front last)
          ∙ sym v.directory

  recover_or_create_lem :
      (b : CircularBuffer Message)
      → recover_or_create calls
          (record other { directory = crashed; segment_size = log.segment_size; recent_cache = b })
        ≡ (ok tt, reopened c cap front last log other calls v can shut some_room cap_small b)
  unfolding recover_or_create
  recover_or_create_lem b =
      rw (files-eq, all_rounds b _ count)
        (ap
            (λ xs.
              activate calls xs
                (record (found b) { next_message_offset = size_of front + total last }))
            (index_of-last front last)
          ∙ activate-last calls (index_of 1 0 front) _ _
          ∙ remapped-eq b)
    where
      count :
          length (
            numbered_of log.segment_size 1 0 front
            ++ ((suc (length front), file_at (suc (length front)) bytes) ∷ []))
          ≡ suc (length front)
      count = omega (
        arith,
        length-append (numbered_of log.segment_size 1 0 front)
            ((suc (length front), file_at (suc (length front)) bytes) ∷ []),
        length-numbered_of log.segment_size 1 0 front,
      )

  open_log-crashed :
      (b : CircularBuffer Message)
      → create blank cap ≡ some b
      → open_log calls crashed log.segment_size cap other ≡ (
        ok tt,
        record (reopened c cap front last log other calls v can shut some_room cap_small b) {
          opened = true;
        },
      )
  unfolding open_log
  open_log-crashed b made = rw (
    made,
    recover_or_create_lem b,
    le→ltb log.segment_size 73 v.large,
    le→ltb (2 ^ 64 - 1) log.segment_size (omega (arith, v.small)),
    le→ltb (2 ^ 63 - 1) log.segment_size (omega (arith, v.small)),
    can.directory,
    shut,
  )

  pub open_log-torn :
      let out = open_log calls crashed log.segment_size cap other in
      (out.0 ≡ ok tt) × Represents cap front last out.1
  open_log-torn =
      let (b, made, holds) = create-Holds blank cap some_room cap_small in
      let eq = open_log-crashed b made in
      (
        ap (λ (r : Ran (Unit {0})). r.0) eq,
        subst (λ (r : Ran (Unit {0})). Represents cap front last r.1) (sym eq)
            (reopened-Represents c cap front last log other calls v can shut some_room cap_small b
              holds),
      )
