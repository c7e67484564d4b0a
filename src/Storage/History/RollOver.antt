-- ===== src/Storage/History/RollOver.antt =====
-- The change of segments in `append`, on a log that represents a history.
use io_t_delivery_fleet_moni.Prelude.{
  ℕ, zero, suc, ◌+◌, ◌-◌, ◌<◌, ◌≡◌, ap, ap₂, sym, subst, ◌∙◌, List, [], ◌∷◌, ◌++◌, true, none,
  length, replicate, drop, append-nil, arith,
}
use io_t_delivery_fleet_moni.Storage.Circular.History.{Holds}
use io_t_delivery_fleet_moni.Storage.Codec.{segment_header_size, maximum_segment_id}
use io_t_delivery_fleet_moni.Storage.Format.{LogSegmentInfo, ok, segment_path, segment_header}
use io_t_delivery_fleet_moni.Storage.Format.Fields.{length-segment_header}
use io_t_delivery_fleet_moni.Storage.Scan.Records.{Entry, total}
use io_t_delivery_fleet_moni.Storage.Directory.{DirEntry, overwrite, find_file}
use io_t_delivery_fleet_moni.Storage.Log.{
  Mapping, MemoryMappedLog, LogCalls, unmap_with, with_segment, create_segment, roll_over, unmapped,
  unmap_active,
}
use io_t_delivery_fleet_moni.Storage.History.{
  History, entry_of, files_of, index_of, messages_of, size_of, Represents,
}
use io_t_delivery_fleet_moni.Storage.History.Files.{
  files_of-last, index_of-last, messages_of-last, find_file-files_of, IsStorable-next, length-snoc,
  size_of-append,
}

-- Every system call of a change of segments succeeds.
pub record IsUp (calls : LogCalls) : Type 0 where
  pub msync : calls.msync_ok ≡ true
  pub munmap : calls.munmap_ok ≡ true
  pub fsync : calls.fsync_ok ≡ true
  pub close : calls.close_ok ≡ true
  pub opens : calls.open_ok ≡ true
  pub ftruncate : calls.ftruncate_ok ≡ true
  pub mmap : calls.mmap_ok ≡ true
  pub header_sync : calls.header_sync_ok ≡ true
  pub directory_open : calls.directory_open_ok ≡ true
  pub directory_fsync : calls.directory_fsync_ok ≡ true

drop-replicate : (m n : ℕ) → drop m (replicate {A = ℕ} n 0) ≡ replicate (n - m) 0
drop-replicate zero n = let e : n ≡ n - 0 = omega arith in ap (λ k. replicate k 0) e
drop-replicate (suc m) zero = let e : 0 ≡ 0 - suc m = omega arith in ap (λ k. replicate k 0) e
drop-replicate (suc m) (suc n) =
    let e : n - m ≡ suc n - suc m = omega arith in drop-replicate m n ∙ ap (λ k. replicate k 0) e

-- A new segment file holds its header and zeros.
pub fresh_file :
    (id base n : ℕ)
    → overwrite 0 (segment_header id base n) (replicate n 0) ≡ (entry_of n id base []).bytes
fresh_file id base n =
    ap (λ k. segment_header id base n ++ drop k (replicate n 0)) at
    ∙ ap (◌++◌ (segment_header id base n)) (drop-replicate 40 n)
  where
    at : 0 + length (segment_header id base n) ≡ 40
    at = omega (arith, length-segment_header id base n)

abbrev file_named : ℕ → List ℕ → DirEntry
file_named id bytes = record { name = segment_path id; is_regular = true; bytes = bytes }

abbrev info_named : ℕ → ℕ → ℕ → LogSegmentInfo
info_named id base end = record {
  segment_id = id;
  first_offset = base;
  end_offset = end;
  valid_bytes = segment_header_size;
  path = segment_path id;
}

abbrev mapping_named : ℕ → ℕ → ℕ → Mapping
mapping_named n id base = record {
  has_fd = true;
  has_data = true;
  size = n;
  path = segment_path id;
  segment_id = id;
  base_offset = base;
  write_position = segment_header_size;
}

module _ (c : ℕ) (front : History) (last : List Entry) (log : MemoryMappedLog) (calls : LogCalls)
    (v : Represents c front last log) (up : IsUp calls)
    (more : suc (length front) < maximum_segment_id) where
  gs : History
  gs = front ++ (last ∷ [])

  unmap_active_lem : unmap_active calls true log ≡ (ok tt, unmapped log)
  unfolding unmap_with
  unmap_active_lem = rw (up.msync, up.munmap, up.fsync, up.close) (ground arith)

  id-eq : log.active.segment_id + 1 ≡ suc (suc (length front))
  id-eq = omega (arith, ap (λ (a : Mapping). a.segment_id) v.active)

  absent : find_file (segment_path (log.active.segment_id + 1)) log.directory ≡ none
  absent =
      ap₂ find_file (ap segment_path id-eq) v.directory
      ∙ find_file-files_of log.segment_size 1 0 (suc (suc (length front))) (front ++ (last ∷ []))
          (omega (arith, length-snoc front last)) more

  -- The log behind the change.
  abbrev pub rolled : MemoryMappedLog
  rolled =
      let created =
        with_segment (log.active.segment_id + 1) log.next_message_offset (unmapped log) in
      record created {
        segment_index =
            log.segment_index
            ++ (record {
              segment_id = log.active.segment_id + 1;
              first_offset = log.next_message_offset;
              end_offset = log.next_message_offset;
              valid_bytes = segment_header_size;
              path = segment_path (log.active.segment_id + 1);
            }
                ∷ []);
      }

  create_segment_lem :
      create_segment calls (log.active.segment_id + 1) log.next_message_offset (unmapped log)
      ≡ (ok tt, rolled)
  unfolding create_segment with_segment
  create_segment_lem = rw (
    absent, up.opens, up.ftruncate, up.mmap, up.header_sync, up.directory_open, up.directory_fsync,
  )

  pub roll_over_lem : roll_over calls log ≡ (ok tt, rolled)
  unfolding roll_over
  roll_over_lem = rw (unmap_active_lem, create_segment_lem)

  base-eq : log.next_message_offset ≡ size_of gs
  unfolding gs
  base-eq = v.offset ∙ sym (size_of-append front last)

  id-gs : log.active.segment_id + 1 ≡ suc (length gs)
  unfolding gs
  id-gs = omega (arith, id-eq, length-snoc front last)

  directory-eq : rolled.directory ≡ files_of log.segment_size 1 0 (gs ++ ([] ∷ []))
  unfolding with_segment gs
  directory-eq =
      ap₂ (λ d e. d ++ (e ∷ [])) v.directory
        (ap₂
            (λ i b.
              file_named i
                (overwrite 0 (segment_header i b log.segment_size) (replicate log.segment_size 0)))
            id-gs base-eq
          ∙ ap (file_named (suc (length gs)))
              (fresh_file (suc (length gs)) (size_of gs) log.segment_size))
      ∙ sym (files_of-last log.segment_size gs [])

  index-eq : rolled.segment_index ≡ index_of 1 0 (gs ++ ([] ∷ []))
  unfolding with_segment gs
  index-eq =
      ap₂ (λ d e. d ++ (e ∷ [])) v.index
        (ap₂ (λ i b. info_named i b b) id-gs base-eq
          ∙ ap (info_named (suc (length gs)) (size_of gs)) no_entries)
      ∙ sym (index_of-last gs [])
    where
      no_entries : size_of gs ≡ size_of gs + 0
      no_entries = omega arith

  active-eq : rolled.active ≡ record {
    has_fd = true;
    has_data = true;
    size = log.segment_size;
    path = segment_path (suc (length gs));
    segment_id = suc (length gs);
    base_offset = size_of gs;
    write_position = segment_header_size + total [];
  }
  unfolding with_segment gs
  active-eq = ap₂ (mapping_named log.segment_size) id-gs base-eq

  pub rolled-Represents : Represents c (front ++ (last ∷ [])) [] rolled
  unfolding with_segment gs
  rolled-Represents = record {
    opened = v.opened;
    large = v.large;
    small = v.small;
    directory = directory-eq;
    index = index-eq;
    active = active-eq;
    offset = omega (arith, base-eq);
    offset_small = v.offset_small;
    count = omega (arith, length-snoc front last);
    storable = IsStorable-next log.segment_size 0 gs v.storable (omega (arith, v.large));
    cache =
        subst (λ h. Holds c h log.recent_cache)
          (sym (messages_of-last gs [] ∙ append-nil (messages_of 0 gs))) v.cache;
  }
