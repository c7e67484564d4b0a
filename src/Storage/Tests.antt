-- ===== src/Storage/Tests.antt =====
-- A small log of two segments, and the theorems of the log at it.
use io_t_delivery_fleet_moni.Prelude.{
  ℕ, ◌+◌, ◌^◌, ◌≤◌, ◌≡◌, refl, List, [], ◌∷◌, ◌++◌, some, true, false, length, replicate, drop,
  arith, length-append,
}
use io_t_delivery_fleet_moni.Storage.Circular.{CircularBuffer, create, get_recent}
use io_t_delivery_fleet_moni.Storage.Circular.History.{
  push_all, push_all-Holds, empty-Holds, get_recent-push_all,
}
use io_t_delivery_fleet_moni.Storage.Codec.{put_u32, put_u64, get_u32, get_u64}
use io_t_delivery_fleet_moni.Storage.Codec.RoundTrip.{get_u64-put_u64, get_u32-put_u32}
use io_t_delivery_fleet_moni.Storage.Format.Fields.{length-segment_header}
use io_t_delivery_fleet_moni.Storage.Format.{
  segment_header, Message, LogSegmentInfo, ok, segment_path, parse_segment_id,
}
use io_t_delivery_fleet_moni.Storage.Format.Names.{parse_segment_id-segment_path}
use io_t_delivery_fleet_moni.Storage.Scan.{ScanCalls, Source, all_zero, zero_tail}
use io_t_delivery_fleet_moni.Storage.Scan.Tail.{zero_tail_lem}
use io_t_delivery_fleet_moni.Storage.Scan.Records.{Entry, encode, length-encode}
use io_t_delivery_fleet_moni.Storage.Segment.{scanned, scan_segment}
use io_t_delivery_fleet_moni.Storage.Segment.Recovery.{
  IsHealthy, IsSegment, recovered, segment_file,
}
use io_t_delivery_fleet_moni.Storage.Segment.Recovery.Intact.{scan_segment-intact}
use io_t_delivery_fleet_moni.Storage.Segment.Recovery.Torn.{scan_segment-torn}
use io_t_delivery_fleet_moni.Storage.Log.{
  append_copies, run_copies, MemoryMappedLog, LogCalls, append, disk_usage_bytes,
}
use io_t_delivery_fleet_moni.Storage.Log.Errors.{IsSafe, append-IsSafe}
use io_t_delivery_fleet_moni.Storage.Open.{OpenCalls, blank, open_log}
use io_t_delivery_fleet_moni.Storage.History.{History, files_of, index_of, messages_of, Represents}
use io_t_delivery_fleet_moni.Storage.History.RollOver.{IsUp}
use io_t_delivery_fleet_moni.Storage.History.Append.{mapping_of}
use io_t_delivery_fleet_moni.Storage.History.Grow.{append-Represents}
use io_t_delivery_fleet_moni.Storage.History.Reopen.{CanOpen}
use io_t_delivery_fleet_moni.Storage.History.Restart.{open_log-Represents}
use io_t_delivery_fleet_moni.Storage.History.Interrupted.{interrupted, open_log-after_crash}
use io_t_delivery_fleet_moni.Storage.History.Fresh.{open_log-empty}
use io_t_delivery_fleet_moni.Storage.History.Views.{disk_usage_bytes-Represents}

abbrev all_up : LogCalls
all_up = record {
  msync_ok = true;
  munmap_ok = true;
  fsync_ok = true;
  close_ok = true;
  open_ok = true;
  ftruncate_ok = true;
  mmap_ok = true;
  header_sync_ok = true;
  directory_open_ok = true;
  directory_fsync_ok = true;
  cleanup_munmap_ok = true;
  cleanup_close_ok = true;
}

all_up-IsUp : IsUp all_up
all_up-IsUp = record {
  msync = refl;
  munmap = refl;
  fsync = refl;
  close = refl;
  opens = refl;
  ftruncate = refl;
  mmap = refl;
  header_sync = refl;
  directory_open = refl;
  directory_fsync = refl;
}

abbrev scans_up : ScanCalls
scans_up = record {
  open_ok = true;
  fstat_ok = true;
  header_ok = true;
  pread_ok = λ _. true;
  ftruncate_ok = true;
  close_ok = true;
}

abbrev opens_up : OpenCalls
opens_up = record {
  directory_ok = true;
  order = 1 ∷ [];
  scan = λ _. scans_up;
  log = all_up;
  remap_ok = true;
}

opens_up-CanOpen : CanOpen opens_up
opens_up-CanOpen = record {
  directory = refl;
  scans = λ f log b. record {
    opened = refl;
    stat = refl;
    header = refl;
    reads = λ _. refl;
    truncates = refl;
    closes = refl;
  };
  remap = refl;
}

abbrev hello : Entry
hello = record { timestamp = 1000; payload = 104 ∷ 105 ∷ [] }

abbrev empty : Entry
empty = record { timestamp = 2000; payload = [] }

-- Does not fit behind `empty` in 128 bytes.
abbrev long : Entry
long = record { timestamp = 3000; payload = replicate 30 7 }

abbrev full_segments : History
full_segments = (hello ∷ []) ∷ []

abbrev two_cached : CircularBuffer Message
two_cached = record { entries = replicate 2 blank; write_index = 0; count = 0 }

abbrev sample_log : MemoryMappedLog
sample_log = record {
  directory = files_of 128 1 0 ((hello ∷ []) ∷ ((empty ∷ []) ∷ []));
  segment_size = 128;
  next_message_offset = 66;
  active = mapping_of 128 full_segments (empty ∷ []);
  segment_index = index_of 1 0 ((hello ∷ []) ∷ ((empty ∷ []) ∷ []));
  recent_cache = push_all two_cached (messages_of 0 ((hello ∷ []) ∷ ((empty ∷ []) ∷ [])));
  opened = true;
}

abbrev shut_log : MemoryMappedLog
shut_log = record sample_log { opened = false }

sample_log-Represents : Represents 2 full_segments (empty ∷ []) sample_log
sample_log-Represents = record {
  opened = refl;
  large = omega arith;
  small = omega arith;
  directory = refl;
  index = refl;
  active = refl;
  offset = refl;
  offset_small = omega arith;
  count = omega arith;
  storable = (
    omega arith,
    (omega arith, omega arith, omega arith, tt),
    (omega arith, (omega arith, omega arith, omega arith, tt), tt),
  );
  cache =
      push_all-Holds 2 (messages_of 0 ((hello ∷ []) ∷ ((empty ∷ []) ∷ []))) [] two_cached
        (empty-Holds blank 2 (omega arith) (omega arith));
}

append-Represents_example :
    ((append all_up 3000 (replicate 30 7) sample_log).0 ≡ ok 66)
    × Represents 2
        ((hello ∷ []) ∷ ((empty ∷ []) ∷ []))
        (long ∷ [])
        (append all_up 3000 (replicate 30 7) sample_log).1
append-Represents_example =
    append-Represents 2 full_segments (empty ∷ []) sample_log all_up long sample_log-Represents
      all_up-IsUp (omega arith) (omega arith) (omega arith) (omega arith) (omega arith)

open_log-Represents_example :
    ((open_log opens_up sample_log.directory 128 4 shut_log).0 ≡ ok tt)
    × Represents 4 full_segments
        (empty ∷ [])
        (open_log opens_up sample_log.directory 128 4 shut_log).1
open_log-Represents_example =
    open_log-Represents 2 4 full_segments (empty ∷ []) sample_log shut_log opens_up
      sample_log-Represents opens_up-CanOpen refl (omega arith) (omega arith)

open_log-empty_example :
    ((open_log opens_up [] 4096 4 shut_log).0 ≡ ok tt)
    × Represents 4 [] [] (open_log opens_up [] 4096 4 shut_log).1
open_log-empty_example =
    open_log-empty 4096 4 shut_log opens_up all_up-IsUp refl refl (omega arith) (omega arith)
      (omega arith) (omega arith)

disk_usage_bytes-Represents_example : disk_usage_bytes sample_log ≡ ok 256
disk_usage_bytes-Represents_example =
    disk_usage_bytes-Represents 2 full_segments (empty ∷ []) sample_log sample_log-Represents
      (omega arith)

append-IsSafe_example : IsSafe shut_log (append all_up 3000 (1 ∷ 2 ∷ []) shut_log)
append-IsSafe_example = append-IsSafe all_up 3000 (1 ∷ 2 ∷ []) shut_log

abbrev segment_source : List ℕ → Source
segment_source rest = record {
  bytes = segment_file 3 500 256 (hello ∷ (empty ∷ [])) rest;
  segment_size = 256;
  is_latest = true;
  calls = scans_up;
}

abbrev segment_info : LogSegmentInfo
segment_info = record {
  segment_id = 3;
  first_offset = 0;
  end_offset = 0;
  valid_bytes = 0;
  path = segment_path 3;
}

segment_source-IsHealthy : (rest : List ℕ) → IsHealthy (segment_source rest)
segment_source-IsHealthy rest = record {
  opened = refl;
  stat = refl;
  header = refl;
  reads = λ _. refl;
  truncates = refl;
  closes = refl;
}

segment_source-IsSegment :
    (rest : List ℕ)
    → length rest ≤ 100
    → IsSegment (segment_source rest) 3 500 (hello ∷ (empty ∷ [])) rest
segment_source-IsSegment rest h = record {
  bytes = refl;
  fits = omega (
    arith,
    h,
    length-append (segment_header 3 500 256) (encode 500 (hello ∷ (empty ∷ [])) ++ rest),
    length-append (encode 500 (hello ∷ (empty ∷ []))) rest,
    length-segment_header 3 500 256,
    length-encode 500 (hello ∷ (empty ∷ [])),
  );
  small = omega arith;
  id_small = omega arith;
  base_small = omega arith;
  encodable = (omega arith, omega arith, omega arith, (omega arith, omega arith, omega arith, tt));
}

scan_segment-intact_example :
    scan_segment (segment_source (replicate 20 0)) 3 500 segment_info two_cached
    ≡ scanned (
        recovered 500
          (hello ∷ (empty ∷ []))
          segment_info
          two_cached
          (segment_source (replicate 20 0)).bytes)
scan_segment-intact_example =
    scan_segment-intact (segment_source (replicate 20 0)) 3 500 (hello ∷ (empty ∷ [])) 20
      segment_info two_cached (segment_source-IsSegment (replicate 20 0) (omega arith))
      (segment_source-IsHealthy (replicate 20 0))

scan_segment-torn_example :
    scan_segment (segment_source (replicate 32 0 ++ (7 ∷ 8 ∷ []))) 3 500 segment_info two_cached
    ≡ scanned (
        recovered 500
          (hello ∷ (empty ∷ []))
          segment_info
          two_cached
          (segment_file 3 500 256 (hello ∷ (empty ∷ [])) []))
scan_segment-torn_example =
    scan_segment-torn (segment_source (replicate 32 0 ++ (7 ∷ 8 ∷ []))) 3 500 (hello ∷ (empty ∷ []))
      (7 ∷ 8 ∷ []) segment_info two_cached
      (segment_source-IsSegment (replicate 32 0 ++ (7 ∷ 8 ∷ [])) (omega arith))
      (segment_source-IsHealthy (replicate 32 0 ++ (7 ∷ 8 ∷ []))) refl

get_recent-push_all_example :
    (b : CircularBuffer ℕ) × (create 0 2 ≡ some b)
    × (get_recent (push_all b (4 ∷ 5 ∷ 6 ∷ [])) 9 ≡ some (5 ∷ 6 ∷ []))
get_recent-push_all_example = get_recent-push_all 0 2 (4 ∷ 5 ∷ 6 ∷ []) 9 (omega arith) (omega arith)

get_u64-put_u64_example : get_u64 ((1 ∷ 2 ∷ []) ++ (put_u64 (2 ^ 64 + 300) ++ (9 ∷ []))) 2 ≡ 300
get_u64-put_u64_example = get_u64-put_u64 (2 ^ 64 + 300) 2 (1 ∷ 2 ∷ []) (9 ∷ []) refl

get_u32-put_u32_example : get_u32 ((1 ∷ 2 ∷ []) ++ (put_u32 0x31434552 ++ (9 ∷ []))) 2 ≡ 0x31434552
get_u32-put_u32_example = get_u32-put_u32 0x31434552 2 (1 ∷ 2 ∷ []) (9 ∷ []) refl

parse_segment_id-segment_path_example : parse_segment_id (segment_path 41) ≡ some 41
parse_segment_id-segment_path_example = parse_segment_id-segment_path 41 (omega arith)

zero_tail_lem_example :
    zero_tail 8 (segment_source (0 ∷ [])) 106 1
    ≡ ok (all_zero (drop 106 (segment_source (0 ∷ [])).bytes))
zero_tail_lem_example =
    zero_tail_lem 8 (segment_source (0 ∷ [])) 106 1 (λ _. refl) (omega arith)
      (omega (
        arith,
        length-append (segment_header 3 500 256) (encode 500 (hello ∷ (empty ∷ [])) ++ (0 ∷ [])),
        length-append (encode 500 (hello ∷ (empty ∷ []))) (0 ∷ []),
        length-segment_header 3 500 256,
        length-encode 500 (hello ∷ (empty ∷ [])),
      ))
      (omega (
        arith,
        length-append (segment_header 3 500 256) (encode 500 (hello ∷ (empty ∷ [])) ++ (0 ∷ [])),
        length-append (encode 500 (hello ∷ (empty ∷ []))) (0 ∷ []),
        length-segment_header 3 500 256,
        length-encode 500 (hello ∷ (empty ∷ [])),
      ))

abbrev lost : Entry
lost = record { timestamp = 9; payload = 9 ∷ 8 ∷ [] }

open_log-after_crash_example :
    let copies = append_copies sample_log.next_message_offset 9 (9 ∷ 8 ∷ []) in
    let left = run_copies sample_log.active (interrupted 1 copies) sample_log.directory in
    let out = open_log opens_up left 128 4 shut_log in
    ((append all_up 9 (9 ∷ 8 ∷ []) sample_log).1.directory
      ≡ run_copies sample_log.active copies sample_log.directory)
    × ((out.0 ≡ ok tt) × Represents 4 full_segments (empty ∷ []) out.1)
open_log-after_crash_example =
    open_log-after_crash 2 4 full_segments (empty ∷ []) sample_log shut_log all_up opens_up lost 1
      sample_log-Represents (omega arith) (omega arith) (omega arith) (omega arith) opens_up-CanOpen
      refl (omega arith) (omega arith)
