-- ===== src/Storage/History/Restart.antt =====
-- `open` after a close: on the directory of a history, and on an empty one.
use io_t_delivery_fleet_moni.Prelude.{
  ℕ, suc, ◌+◌, ◌-◌, ◌^◌, ◌≤◌, ◌<◌, ◌≡◌, refl, ap, sym, subst, ◌∙◌, List, [], ◌∷◌, ◌++◌, true, false,
  some, length, replicate, arith, append-nil, le→ltb, take_all, take, IsDistinct, number_keys,
}
use io_t_delivery_fleet_moni.Storage.Circular.{CircularBuffer, create}
use io_t_delivery_fleet_moni.Storage.Circular.History.{
  Holds, push_all, push_all-Holds, create-Holds,
}
use io_t_delivery_fleet_moni.Storage.Codec.{maximum_segment_id}
use io_t_delivery_fleet_moni.Storage.Format.{Message, LogSegmentInfo, ok, segment_path}
use io_t_delivery_fleet_moni.Storage.Scan.{resize}
use io_t_delivery_fleet_moni.Storage.Scan.Records.{Entry}
use io_t_delivery_fleet_moni.Storage.Directory.{
  find_file, update_file, arranged, numbered_files, sort_by_id,
}
use io_t_delivery_fleet_moni.Storage.Directory.Order.{sort_by_id-arranged}
use io_t_delivery_fleet_moni.Storage.Log.{MemoryMappedLog, Ran}
use io_t_delivery_fleet_moni.Storage.Open.{
  OpenCalls, recover_files, remapped, map_found, map_active_segment, activate, recover_or_create,
  blank, open_log,
}
use io_t_delivery_fleet_moni.Storage.History.{
  History, entry_of, info_of, index_of, messages_of, size_of, Represents,
}
use io_t_delivery_fleet_moni.Storage.History.Files.{
  index_of-last, length-snoc, size_of-append, IsStorable-room,
}
use io_t_delivery_fleet_moni.Storage.History.Append.{mapping_of}
use io_t_delivery_fleet_moni.Storage.History.Reopen.{
  CanOpen, length-file, after_files, recover_files_lem,
}
use io_t_delivery_fleet_moni.Storage.History.Listing.{
  numbered_of, numbered_of-IsDistinct, numbered_files-files_of, sort_by_id-numbered_of,
  update_file-same, find_file-at,
}

pub resize-same : (xs : List ℕ) (n : ℕ) → length xs ≡ n → resize xs n ≡ xs
resize-same xs n h =
    ap (λ k. take n xs ++ replicate k 0) none_added
    ∙ append-nil (take n xs)
    ∙ take_all n xs (omega (arith, h))
  where
    none_added : n - length xs ≡ 0
    none_added = omega (arith, h)

pub activate-last :
    (calls : OpenCalls) (xs : List LogSegmentInfo) (info : LogSegmentInfo) (log : MemoryMappedLog)
    → activate calls (xs ++ (info ∷ [])) log ≡ map_active_segment calls info log
unfolding activate
activate-last calls [] info log = refl
activate-last calls (x ∷ []) info log = refl
activate-last calls (x ∷ (y ∷ xs)) info log = activate-last calls (y ∷ xs) info log

pub map_active_segment-found :
    (calls : OpenCalls) (info : LogSegmentInfo) (log : MemoryMappedLog) (bytes : List ℕ)
    → find_file (segment_path info.segment_id) log.directory ≡ some bytes
    → calls.remap_ok ≡ true
    → map_active_segment calls info log ≡ (ok tt, remapped info log)
unfolding map_active_segment
map_active_segment-found calls info log bytes found remap =
    ap (map_found calls info log) found ∙ rw remap

module _ (c cap : ℕ) (front : History) (last : List Entry) (log other : MemoryMappedLog)
    (calls : OpenCalls) (v : Represents c front last log) (can : CanOpen calls)
    (shut : other.opened ≡ false) (some_room : 0 < cap) (cap_small : cap ≤ 2 ^ 63) where
  abbrev prepared : CircularBuffer Message → MemoryMappedLog
  prepared b = record other {
    directory = log.directory;
    segment_size = log.segment_size;
    recent_cache = b;
    next_message_offset = 0;
    segment_index = [];
  }

  -- The log behind `open`.
  abbrev pub reopened : CircularBuffer Message → MemoryMappedLog
  reopened b = record other {
    directory = log.directory;
    segment_size = log.segment_size;
    recent_cache = push_all b (messages_of 0 (front ++ (last ∷ [])));
    next_message_offset = size_of (front ++ (last ∷ []));
    segment_index = index_of 1 0 (front ++ (last ∷ []));
    active = mapping_of log.segment_size front last;
  }

  numbered-eq :
      numbered_files log.directory ≡ numbered_of log.segment_size 1 0 (front ++ (last ∷ []))
  numbered-eq =
      ap numbered_files v.directory
      ∙ numbered_files-files_of log.segment_size 1 0 (front ++ (last ∷ []))
          (omega (arith, v.count, length-snoc front last))

  files-eq :
      sort_by_id (numbered_files (arranged calls.order log.directory))
      ≡ numbered_of log.segment_size 1 0 (front ++ (last ∷ []))
  files-eq =
      sort_by_id-arranged calls.order log.directory (
        subst IsDistinct (sym numbered-eq)
          (numbered_of-IsDistinct log.segment_size 1 0 (front ++ (last ∷ []))))
      ∙ ap sort_by_id numbered-eq
      ∙ sort_by_id-numbered_of log.segment_size 1 0 (front ++ (last ∷ []))

  recovered_files :
      (b : CircularBuffer Message) (count : ℕ)
      → recover_files calls 0 count
          (numbered_of log.segment_size 1 0 (front ++ (last ∷ [])))
          0
          (prepared b)
        ≡ (ok (size_of (front ++ (last ∷ []))), after_files 1 0 (front ++ (last ∷ [])) (prepared b))
  recovered_files b count =
      recover_files_lem calls can log.segment_size v.small count 0 0 [] (front ++ (last ∷ []))
        (prepared b) refl refl refl v.directory v.storable
        (omega (arith, v.count, length-snoc front last))
        (omega (arith, v.offset, v.offset_small, size_of-append front last))
      ∙ ap (λ o. (ok o, after_files 1 0 (front ++ (last ∷ [])) (prepared b))) from_zero
    where
      from_zero : 0 + size_of (front ++ (last ∷ [])) ≡ size_of (front ++ (last ∷ []))
      from_zero = omega arith

  -- Mapping the last segment again leaves the directory as it is.
  remapped-eq :
      (b : CircularBuffer Message)
      → map_active_segment calls
          (info_of (suc (length front)) (size_of front) last)
          (record (after_files 1 0 (front ++ (last ∷ [])) (prepared b)) {
            next_message_offset = size_of (front ++ (last ∷ []));
          })
        ≡ (ok tt, reopened b)
  remapped-eq b =
      map_active_segment-found calls (info_of (suc (length front)) (size_of front) last) _ _ found
        can.remap
      ∙ ap (λ d. (ok tt, record (reopened b) { directory = d })) same
    where
      few : length front + 1 ≤ maximum_segment_id
      few = omega (arith, v.count)

      found :
          find_file (segment_path (suc (length front))) log.directory
          ≡ some (entry_of log.segment_size (suc (length front)) (size_of front) last).bytes
      found =
          ap (find_file (segment_path (suc (length front)))) v.directory
          ∙ find_file-at log.segment_size front last [] few

      change : List ℕ → List ℕ
      change bytes = resize bytes log.segment_size

      same : update_file (segment_path (suc (length front))) change log.directory ≡ log.directory
      same =
          ap (update_file (segment_path (suc (length front))) change) v.directory
          ∙ update_file-same log.segment_size front last [] few change (
              resize-same _ log.segment_size (
                length-file log.segment_size (suc (length front)) (size_of front) last
                  (IsStorable-room log.segment_size 0 front last v.storable)))
          ∙ sym v.directory

  recover_or_create_lem :
      (b : CircularBuffer Message)
      → recover_or_create calls (record other {
        directory = log.directory;
        segment_size = log.segment_size;
        recent_cache = b;
      })
        ≡ (ok tt, reopened b)
  unfolding recover_or_create
  recover_or_create_lem b =
      rw (files-eq, recovered_files b)
        (ap
            (λ xs. activate calls xs (record (after_files 1 0 (front ++ (last ∷ [])) (prepared b)) {
              next_message_offset = size_of (front ++ (last ∷ []));
            }))
            (index_of-last front last)
          ∙ activate-last calls (index_of 1 0 front) _ _
          ∙ remapped-eq b)

  open_log-reopened :
      (b : CircularBuffer Message)
      → create blank cap ≡ some b
      → open_log calls log.directory log.segment_size cap other
        ≡ (ok tt, record (reopened b) { opened = true })
  unfolding open_log
  open_log-reopened b made = rw (
    made,
    recover_or_create_lem b,
    le→ltb log.segment_size 73 v.large,
    le→ltb (2 ^ 64 - 1) log.segment_size (omega (arith, v.small)),
    le→ltb (2 ^ 63 - 1) log.segment_size (omega (arith, v.small)),
    can.directory,
    shut,
  )

  pub reopened-Represents :
      (b : CircularBuffer Message)
      → Holds cap [] b
      → Represents cap front last (record (reopened b) { opened = true })
  reopened-Represents b holds = record {
    opened = refl;
    large = v.large;
    small = v.small;
    directory = v.directory;
    index = refl;
    active = refl;
    offset = size_of-append front last;
    offset_small = omega (arith, v.offset, v.offset_small, size_of-append front last);
    count = v.count;
    storable = v.storable;
    cache = push_all-Holds cap (messages_of 0 (front ++ (last ∷ []))) [] b holds;
  }

  -- `open`, by a closed log, of a directory that an open log has left: it succeeds, and the log
  -- then represents the same history, with the last messages of all segments in its cache.
  -- The directory may be listed in any order, `calls.order`. The conditions: the system calls
  -- succeed, the segment size is the one the directory was written with, and the capacity of the
  -- cache is positive and at most 2 ^ 63.
  pub open_log-Represents :
      let out = open_log calls log.directory log.segment_size cap other in
      (out.0 ≡ ok tt) × Represents cap front last out.1
  open_log-Represents =
      let (b, made, holds) = create-Holds blank cap some_room cap_small in
      let eq = open_log-reopened b made in
      (
        ap (λ (r : Ran (Unit {0})). r.0) eq,
        subst (λ (r : Ran (Unit {0})). Represents cap front last r.1) (sym eq)
            (reopened-Represents b holds),
      )
