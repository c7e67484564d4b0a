-- ===== src/Storage/Open.antt =====
-- storage/mmap_log.cpp: `open`, `recover_or_create` and `map_active_segment`.
use io_t_delivery_fleet_moni.Prelude.{
  ℕ, ◌+◌, ◌-◌, ◌^◌, List, [], ◌∷◌, ◌++◌, Option, none, some, Bool, true, not, ◌||◌, ltb, ◌==◌,
  if◌then◌else◌, length,
}
use io_t_delivery_fleet_moni.Storage.Circular.{CircularBuffer, create}
use io_t_delivery_fleet_moni.Storage.Codec.{segment_header_size, record_header_size}
use io_t_delivery_fleet_moni.Storage.Format.{
  Message, LogSegmentInfo, already_open, invalid_argument, io_error, sequence_gap, ok, err,
  segment_path,
}
use io_t_delivery_fleet_moni.Storage.Scan.{ScanCalls, Source, resize}
use io_t_delivery_fleet_moni.Storage.Segment.{Outcome, scanned, scan_failed, scan_segment}
use io_t_delivery_fleet_moni.Storage.Directory.{
  Directory, NumberedFile, find_file, update_file, arranged, numbered_files, sort_by_id,
}
use io_t_delivery_fleet_moni.Storage.Log.{MemoryMappedLog, LogCalls, Ran, create_segment}

-- Which system calls of `open` succeed, the scans' by segment id, and the order in which the
-- directory is listed.
pub record OpenCalls : Type 0 where
  pub directory_ok : Bool
  pub order : List ℕ
  pub scan : ℕ → ScanCalls
  pub log : LogCalls
  pub remap_ok : Bool

-- `LogSegmentInfo info;` with the id and the path filled in.
abbrev pub fresh_info : ℕ → List ℕ → LogSegmentInfo
fresh_info id path = record {
  segment_id = id;
  first_offset = 0;
  end_offset = 0;
  valid_bytes = 0;
  path = path;
}

abbrev pub source_of : OpenCalls → MemoryMappedLog → NumberedFile → Bool → Source
source_of calls log f is_latest = record {
  bytes = f.1.bytes;
  segment_size = log.segment_size;
  is_latest = is_latest;
  calls = calls.scan f.0;
}

abbrev pub after_scan : List ℕ → Outcome → MemoryMappedLog → Ran ℕ
after_scan path (scan_failed e file cache) log = (
  err e,
  record log { directory = update_file path (λ _. file) log.directory; recent_cache = cache },
)
after_scan path (scanned r) log = (
  ok r.next_offset,
  record log {
    directory = update_file path (λ _. r.file) log.directory;
    segment_index = log.segment_index ++ (r.info ∷ []);
    recent_cache = r.recent;
  },
)

-- The body of the loop over `files`, at `index` of `count` files.
unfoldable pub recover_file : OpenCalls → ℕ → ℕ → NumberedFile → ℕ → MemoryMappedLog → Ran ℕ
recover_file calls index count f expected_offset log =
    if not (f.0 == index + 1)
    then (err sequence_gap, log)
    else after_scan f.1.name
        (scan_segment (source_of calls log f (index + 1 == count)) f.0 expected_offset
          (fresh_info f.0 f.1.name) log.recent_cache)
        log

abbrev pub go_on {ℓ} : {A : Type ℓ} → Ran ℕ → (ℕ → MemoryMappedLog → Ran A) → Ran A
go_on (err e, log) rest = (err e, log)
go_on (ok offset, log) rest = rest offset log

-- The loop; the result is `expected_offset`.
unfoldable pub recover_files : OpenCalls → ℕ → ℕ → List NumberedFile → ℕ → MemoryMappedLog → Ran ℕ
recover_files calls index count [] expected_offset log = (ok expected_offset, log)
recover_files calls index count (f ∷ files) expected_offset log =
    go_on (recover_file calls index count f expected_offset log)
      (recover_files calls (index + 1) count files)

abbrev pub remapped : LogSegmentInfo → MemoryMappedLog → MemoryMappedLog
remapped last log = record log {
  directory =
      update_file (segment_path last.segment_id) (λ bytes. resize bytes log.segment_size)
        log.directory;
  active = record {
    has_fd = true;
    has_data = true;
    size = log.segment_size;
    path = segment_path last.segment_id;
    segment_id = last.segment_id;
    base_offset = last.first_offset;
    write_position = last.valid_bytes;
  };
}

abbrev pub map_found {ℓ} :
    {A : Type ℓ} → OpenCalls → LogSegmentInfo → MemoryMappedLog → Option A → Ran (Unit {0})
map_found calls last log none = (err io_error, log)
map_found calls last log (some _) =
    if calls.remap_ok then (ok tt, remapped last log) else (err io_error, log)

-- The file is opened without `O_CREAT`.
unfoldable pub map_active_segment : OpenCalls → LogSegmentInfo → MemoryMappedLog → Ran (Unit {0})
map_active_segment calls last log =
    map_found calls last log (find_file (segment_path last.segment_id) log.directory)

-- The active segment is the last one, or the first of an empty directory.
unfoldable pub activate : OpenCalls → List LogSegmentInfo → MemoryMappedLog → Ran (Unit {0})
activate calls [] log = create_segment calls.log 1 0 log
activate calls (info ∷ []) log = map_active_segment calls info log
activate calls (info ∷ (info' ∷ index)) log = activate calls (info' ∷ index) log

unfoldable pub recover_or_create : OpenCalls → MemoryMappedLog → Ran (Unit {0})
recover_or_create calls log =
    let files = sort_by_id (numbered_files (arranged calls.order log.directory)) in
    go_on
      (recover_files calls 0 (length files) files 0
        (record log { next_message_offset = 0; segment_index = [] }))
      λ offset log'.
        activate calls log'.segment_index (record log' { next_message_offset = offset })

-- `Message{}`
abbrev pub blank : Message
blank = record { offset = 0; timestamp_ns = 0; payload_length = 0; payload = [] }

abbrev pub mark_open : Ran (Unit {0}) → Ran (Unit {0})
mark_open (err e, log) = (err e, log)
mark_open (ok u, log) = (ok u, record log { opened = true })

abbrev pub open_with :
    OpenCalls → Directory → ℕ → MemoryMappedLog → Option (CircularBuffer Message) → Ran (Unit {0})
open_with calls dir initial_size log none = (err invalid_argument, log)
open_with calls dir initial_size log (some cache) =
    let prepared = record log {
      directory = dir;
      segment_size = initial_size;
      recent_cache = cache;
    } in
    if not calls.directory_ok
    then (err io_error, prepared)
    else mark_open (recover_or_create calls prepared)

-- `open` on a directory that holds `dir`.
unfoldable pub open_log : OpenCalls → Directory → ℕ → ℕ → MemoryMappedLog → Ran (Unit {0})
open_log calls dir initial_size recent_capacity log =
    if log.opened
    then (err already_open, log)
    else if ltb initial_size (segment_header_size + record_header_size + 1)
        || (ltb (2 ^ 64 - 1) initial_size || ltb (2 ^ 63 - 1) initial_size)
    then (err invalid_argument, log)
    else open_with calls dir initial_size log (create blank recent_capacity)
