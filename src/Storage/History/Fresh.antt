-- ===== src/Storage/History/Fresh.antt =====
-- `open` on an empty directory.
use io_t_delivery_fleet_moni.Prelude.{
  ℕ, ◌-◌, ◌^◌, ◌≤◌, ◌<◌, ◌≡◌, refl, ap, sym, subst, [], ◌∷◌, true, false, some, arith, le→ltb,
}
use io_t_delivery_fleet_moni.Storage.Circular.{CircularBuffer, create}
use io_t_delivery_fleet_moni.Storage.Circular.History.{Holds, create-Holds}
use io_t_delivery_fleet_moni.Storage.Format.{Message, ok, segment_path}
use io_t_delivery_fleet_moni.Storage.Directory.Numbered.{
  find_file-nil, numbered_files-nil, sort_by_id-nil,
}
use io_t_delivery_fleet_moni.Storage.Directory.Order.{nothing_listed}
use io_t_delivery_fleet_moni.Storage.Log.{MemoryMappedLog, Ran, create_segment, with_segment}
use io_t_delivery_fleet_moni.Storage.Open.{
  OpenCalls, recover_files, activate, recover_or_create, blank, open_log,
}
use io_t_delivery_fleet_moni.Storage.History.{entry_of, info_of, Represents}
use io_t_delivery_fleet_moni.Storage.History.Append.{mapping_of}
use io_t_delivery_fleet_moni.Storage.History.RollOver.{IsUp, fresh_file}

module _ (n cap : ℕ) (other : MemoryMappedLog) (calls : OpenCalls) (up : IsUp calls.log)
    (listed : calls.directory_ok ≡ true) (shut : other.opened ≡ false) (large : 73 ≤ n)
    (small : n < 2 ^ 63) (some_room : 0 < cap) (cap_small : cap ≤ 2 ^ 63) where
  abbrev started : CircularBuffer Message → MemoryMappedLog
  started b = record other {
    directory = entry_of n 1 0 [] ∷ [];
    segment_size = n;
    recent_cache = b;
    next_message_offset = 0;
    segment_index = info_of 1 0 [] ∷ [];
    active = mapping_of n [] [];
  }

  first_segment :
      (log : MemoryMappedLog)
      → log.directory ≡ []
      → log.segment_index ≡ []
      → log.segment_size ≡ n
      → create_segment calls.log 1 0 log ≡ (
        ok tt,
        record log {
          directory = entry_of n 1 0 [] ∷ [];
          segment_index = info_of 1 0 [] ∷ [];
          active = mapping_of n [] [];
        },
      )
  unfolding create_segment with_segment
  first_segment log hd hi hn = rw (
    hd,
    hi,
    hn,
    find_file-nil (segment_path 1),
    up.opens,
    up.ftruncate,
    up.mmap,
    up.header_sync,
    up.directory_open,
    up.directory_fsync,
    fresh_file 1 0 n,
  )

  recover_or_create_empty :
      (b : CircularBuffer Message)
      → recover_or_create calls
          (record other { directory = []; segment_size = n; recent_cache = b })
        ≡ (ok tt, started b)
  unfolding recover_or_create recover_files activate
  recover_or_create_empty b =
      rw (nothing_listed calls.order, numbered_files-nil, sort_by_id-nil)
        (first_segment _ refl refl refl)

  open_log-started :
      (b : CircularBuffer Message)
      → create blank cap ≡ some b
      → open_log calls [] n cap other ≡ (ok tt, record (started b) { opened = true })
  unfolding open_log
  open_log-started b made = rw (
    made,
    recover_or_create_empty b,
    le→ltb n 73 large,
    le→ltb (2 ^ 64 - 1) n (omega (arith, small)),
    le→ltb (2 ^ 63 - 1) n (omega (arith, small)),
    listed,
    shut,
  )

  -- `open`, by a closed log, of an empty directory: it succeeds, and the log represents the history
  -- of one segment without entries. The conditions: the system calls succeed, the segment size is
  -- one that `open` accepts, and the capacity of the cache is positive and at most 2 ^ 63.
  pub open_log-empty :
      let out = open_log calls [] n cap other in (out.0 ≡ ok tt) × Represents cap [] [] out.1
  open_log-empty =
      let (b, made, holds) = create-Holds blank cap some_room cap_small in
      let eq = open_log-started b made in
      (
        ap (λ (r : Ran (Unit {0})). r.0) eq,
        subst (λ (r : Ran (Unit {0})). Represents cap [] [] r.1) (sym eq) (represents b holds),
      )
    where
      represents :
          (b : CircularBuffer Message)
          → Holds cap [] b
          → Represents cap [] [] (record (started b) { opened = true })
      represents b holds = record {
        opened = refl;
        large = large;
        small = small;
        directory = refl;
        index = refl;
        active = refl;
        offset = refl;
        offset_small = omega arith;
        count = omega arith;
        storable = (omega (arith, large), tt, tt);
        cache = holds;
      }
