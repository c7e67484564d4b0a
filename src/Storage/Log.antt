-- ===== src/Storage/Log.antt =====
-- storage/mmap_log.h and mmap_log.cpp: the state of `MemoryMappedLog` and the operations on an open
-- log. Which system calls fail, and the clock, are parameters; the mutex makes each method atomic.
pub mod Errors
use io_t_delivery_fleet_moni.Prelude.{
  ℕ, zero, suc, ◌+◌, ◌-◌, ◌^◌, List, [], ◌∷◌, ◌++◌, Option, none, some, Bool, true, false, not,
  ◌&&◌, ◌||◌, ltb, leb, ◌==◌, if◌then◌else◌, replicate, length, u32, add64, sub64,
}
use io_t_delivery_fleet_moni.Storage.Circular.{CircularBuffer, push, get_recent}
use io_t_delivery_fleet_moni.Storage.Codec.{
  segment_header_size, record_header_size, maximum_segment_id,
}
use io_t_delivery_fleet_moni.Storage.Format.{
  Message, LogSegmentInfo, Error, not_open, payload_too_long, record_too_large, offset_exhausted,
  id_exhausted, io_error, Result, ok, err, record_header, segment_header, segment_path,
}
use io_t_delivery_fleet_moni.Storage.Directory.{
  DirEntry, Directory, find_file, update_file, remove_file, overwrite,
}

-- `Mapping`; `has_fd` is `fd != -1`, `has_data` is `data != nullptr`. The mapped bytes are those of
-- the file `path`.
pub record Mapping : Type 0 where
  pub has_fd : Bool
  pub has_data : Bool
  pub size : ℕ
  pub path : List ℕ
  pub segment_id : ℕ
  pub base_offset : ℕ
  pub write_position : ℕ

pub record MemoryMappedLog : Type 0 where
  pub directory : Directory
  pub segment_size : ℕ
  pub next_message_offset : ℕ
  pub active : Mapping
  pub segment_index : List LogSegmentInfo
  pub recent_cache : CircularBuffer Message
  pub opened : Bool

-- Which system calls succeed: of `unmap_active`, of `create_segment`, and of its clean-up.
pub record LogCalls : Type 0 where
  pub msync_ok : Bool
  pub munmap_ok : Bool
  pub fsync_ok : Bool
  pub close_ok : Bool
  pub open_ok : Bool
  pub ftruncate_ok : Bool
  pub mmap_ok : Bool
  pub header_sync_ok : Bool
  pub directory_open_ok : Bool
  pub directory_fsync_ok : Bool
  pub cleanup_munmap_ok : Bool
  pub cleanup_close_ok : Bool

-- A method returns, or throws, and leaves the object in some state.
abbrev pub Ran {ℓ} : Type ℓ → Type ℓ
Ran A = Result A × MemoryMappedLog

-- Goes on after a call that returned; after one that threw, `catch` runs and the error is thrown on.
abbrev pub try_then {ℓ κ} :
    {A : Type ℓ} {B : Type κ}
    → Ran A
    → (MemoryMappedLog → MemoryMappedLog)
    → (MemoryMappedLog → Ran B)
    → Ran B
try_then (err e, log) catch go = (err e, catch log)
try_then (ok a, log) catch go = go log

abbrev pub unmapped : MemoryMappedLog → MemoryMappedLog
unmapped log = record log {
  active = record (log.active) { has_fd = false; has_data = false; size = 0 };
}

-- The first error is thrown after everything is released.
unfoldable pub unmap_with : Bool → Bool → Bool → Bool → Bool → MemoryMappedLog → Ran (Unit {0})
unmap_with sync msync_ok munmap_ok fsync_ok close_ok log =
    let data_failed = log.active.has_data && (sync && not msync_ok || not munmap_ok) in
    let fd_failed = log.active.has_fd && (sync && not fsync_ok || not close_ok) in
    if data_failed || fd_failed then (err io_error, unmapped log) else (ok tt, unmapped log)

abbrev pub unmap_active : LogCalls → Bool → MemoryMappedLog → Ran (Unit {0})
unmap_active calls sync log =
    unmap_with sync calls.msync_ok calls.munmap_ok calls.fsync_ok calls.close_ok log

abbrev pub remove_path : List ℕ → MemoryMappedLog → MemoryMappedLog
remove_path path log = record log { directory = remove_file path log.directory }

-- Unmaps without syncing, removes the file, and throws; a failing unmap throws before the removal.
pub abandon : LogCalls → List ℕ → MemoryMappedLog → Ran (Unit {0})
abandon calls path log =
    try_then (unmap_with false true calls.cleanup_munmap_ok true calls.cleanup_close_ok log)
      (λ log'. log') (λ log'. (err io_error, remove_path path log'))

-- The new file with its header, mapped.
unfoldable pub with_segment : ℕ → ℕ → MemoryMappedLog → MemoryMappedLog
with_segment segment_id base_offset log = record log {
  directory =
      log.directory
      ++ (record {
        name = segment_path segment_id;
        is_regular = true;
        bytes =
            overwrite 0 (segment_header segment_id base_offset log.segment_size)
              (replicate log.segment_size 0);
      }
          ∷ []);
  active = record {
    has_fd = true;
    has_data = true;
    size = log.segment_size;
    path = segment_path segment_id;
    segment_id = segment_id;
    base_offset = base_offset;
    write_position = segment_header_size;
  };
}

abbrev pub is_none {ℓ} : {A : Type ℓ} → Option A → Bool
is_none none = true
is_none (some a) = false

-- `open` with `O_EXCL` fails if the file is there; a failed `ftruncate` or `mmap` removes the file
-- that this call has created.
unfoldable pub create_segment : LogCalls → ℕ → ℕ → MemoryMappedLog → Ran (Unit {0})
create_segment calls segment_id base_offset log =
    let path = segment_path segment_id in
    let created = with_segment segment_id base_offset log in
    if not (calls.open_ok && is_none (find_file path log.directory))
    then (err io_error, log)
    else if not (calls.ftruncate_ok && calls.mmap_ok)
    then (err io_error, log)
    else if not (calls.header_sync_ok && calls.directory_open_ok && calls.directory_fsync_ok)
    then abandon calls path created
    else (
      ok tt,
      record created {
        segment_index =
            created.segment_index
            ++ (record {
              segment_id = segment_id;
              first_offset = base_offset;
              end_offset = base_offset;
              valid_bytes = segment_header_size;
              path = path;
            }
                ∷ []);
      },
    )

-- `segment_index.back()`, changed.
abbrev pub update_last {ℓ} : {A : Type ℓ} → (A → A) → List A → List A
update_last f [] = []
update_last f (x ∷ []) = f x ∷ []
update_last f (x ∷ (y ∷ xs)) = x ∷ update_last f (y ∷ xs)

-- The two copies of `append`: the payload, and then the header.
unfoldable pub store_payload : List ℕ → Mapping → Directory → Directory
store_payload payload active dir =
    if length payload == 0
    then dir
    else update_file active.path
        (overwrite (add64 active.write_position record_header_size) payload) dir

unfoldable pub store_header : List ℕ → Mapping → Directory → Directory
store_header header active = update_file active.path (overwrite active.write_position header)

-- A copy of `append` into the mapping of the active segment.
pub data Copy : Type 0 where
  payload_copy : List ℕ → Copy
  header_copy : List ℕ → Copy

unfoldable pub run_copy : Mapping → Copy → Directory → Directory
run_copy active (payload_copy payload) = store_payload payload active
run_copy active (header_copy header) = store_header header active

unfoldable pub run_copies : Mapping → List Copy → Directory → Directory
run_copies active [] dir = dir
run_copies active (c ∷ copies) dir = run_copies active copies (run_copy active c dir)

-- The copies of `append`, in their order.
unfoldable pub append_copies : ℕ → ℕ → List ℕ → List Copy
append_copies offset now payload =
    payload_copy payload ∷ (header_copy (record_header offset now payload) ∷ [])

-- `append` from the line that reads the clock.
unfoldable pub write_record : List ℕ → ℕ → MemoryMappedLog → Ran ℕ
write_record payload now log =
    let offset = log.next_message_offset in
    let record_size = add64 record_header_size (length payload) in
    let position = add64 log.active.write_position record_size in
    (
      ok offset,
      record log {
        directory = run_copies log.active (append_copies offset now payload) log.directory;
        next_message_offset = add64 offset record_size;
        active = record (log.active) { write_position = position };
        segment_index =
            update_last
              (λ info. record info {
                end_offset = add64 offset record_size;
                valid_bytes = position;
              })
              log.segment_index;
        recent_cache = push log.recent_cache (record {
          offset = offset;
          timestamp_ns = now;
          payload_length = u32 (length payload);
          payload = payload;
        });
      },
    )

abbrev pub closed : MemoryMappedLog → MemoryMappedLog
closed log = record log { opened = false }

-- The next segment; a failure closes the log.
unfoldable pub roll_over : LogCalls → MemoryMappedLog → Ran (Unit {0})
roll_over calls log = try_then (unmap_active calls true log) closed λ log'.
    try_then (create_segment calls (log.active.segment_id + 1) log.next_message_offset log') closed
      λ log''. (ok tt, log'')

unfoldable pub append : LogCalls → ℕ → List ℕ → MemoryMappedLog → Ran ℕ
append calls now payload log =
    let record_size = add64 record_header_size (length payload) in
    if not log.opened
    then (err not_open, log)
    else if ltb (2 ^ 32 - 1) (length payload)
    then (err payload_too_long, log)
    else if ltb (sub64 log.active.size segment_header_size) record_size
    then (err record_too_large, log)
    else if ltb (2 ^ 64 - 1 - record_size) log.next_message_offset
    then (err offset_exhausted, log)
    else if not (ltb (sub64 log.active.size record_size) log.active.write_position)
    then write_record payload now log
    else if leb maximum_segment_id log.active.segment_id
    then (err id_exhausted, log)
    else try_then (roll_over calls log) (λ log'. log') (write_record payload now)

unfoldable pub flush : LogCalls → MemoryMappedLog → Ran (Unit {0})
flush calls log =
    if not log.opened
    then (ok tt, log)
    else if not calls.msync_ok
    then (err io_error, log)
    else if not calls.fsync_ok
    then (err io_error, log)
    else (ok tt, log)

unfoldable pub close : LogCalls → MemoryMappedLog → Ran (Unit {0})
close calls log =
    if not log.opened && not log.active.has_fd && not log.active.has_data
    then (ok tt, log)
    else if log.active.has_fd
    then unmap_active calls true (closed log)
    else (ok tt, closed log)

-- `~MemoryMappedLog`, which prints what `close` throws.
pub destroy : LogCalls → MemoryMappedLog → MemoryMappedLog
destroy calls log = (close calls log).1

abbrev pub with_size : Option (List ℕ) → (ℕ → Result ℕ) → Result ℕ
with_size none rest = err io_error
with_size (some bytes) rest = rest (length bytes)

-- The sum over `segment_index`; a file that is not there throws.
unfoldable pub file_sizes : Directory → List LogSegmentInfo → ℕ → Result ℕ
file_sizes dir [] total = ok total
file_sizes dir (info ∷ index) total =
    with_size (find_file info.path dir) λ size. file_sizes dir index (add64 total size)

unfoldable pub disk_usage_bytes : MemoryMappedLog → Result ℕ
disk_usage_bytes log = file_sizes log.directory log.segment_index 0

unfoldable pub recent_messages : MemoryMappedLog → ℕ → Option (List Message)
recent_messages log count = get_recent log.recent_cache count
