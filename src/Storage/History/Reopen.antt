-- ===== src/Storage/History/Reopen.antt =====
-- `open` on the directory that a history has left.
use io_t_delivery_fleet_moni.Prelude.{
  ℕ, suc, ◌+◌, ◌-◌, ◌^◌, ◌≤◌, ◌<◌, ◌≡◌, refl, ap, ap₂, sym, ◌∙◌, List, [], ◌∷◌, ◌++◌, Bool, true,
  length, arith, append_assoc, append-nil, ◌==◌, length-append, length-replicate,
}
use io_t_delivery_fleet_moni.Storage.Circular.{CircularBuffer, push}
use io_t_delivery_fleet_moni.Storage.Circular.History.{push_all}
use io_t_delivery_fleet_moni.Storage.Codec.{segment_header_size, maximum_segment_id}
use io_t_delivery_fleet_moni.Storage.Format.{
  Message, LogSegmentInfo, ok, segment_path, segment_header,
}
use io_t_delivery_fleet_moni.Storage.Format.Fields.{length-segment_header}
use io_t_delivery_fleet_moni.Storage.Scan.Records.{Entry, total, messages, encode, length-encode}
use io_t_delivery_fleet_moni.Storage.Segment.{scanned, scan_segment}
use io_t_delivery_fleet_moni.Storage.Segment.Recovery.{IsHealthy, recovered, segment_file}
use io_t_delivery_fleet_moni.Storage.Segment.Recovery.Intact.{scan_segment-intact}
use io_t_delivery_fleet_moni.Storage.Directory.{Directory, NumberedFile, update_file}
use io_t_delivery_fleet_moni.Storage.Log.{MemoryMappedLog, Ran}
use io_t_delivery_fleet_moni.Storage.Open.{
  OpenCalls, fresh_info, source_of, after_scan, recover_file, go_on, recover_files,
}
use io_t_delivery_fleet_moni.Storage.History.{
  History, padding, entry_of, info_of, files_of, index_of, messages_of, size_of, IsStorable,
}
use io_t_delivery_fleet_moni.Storage.History.Files.{length-snoc, size_of-append}
use io_t_delivery_fleet_moni.Storage.History.Listing.{numbered_of, update_file-same}

-- Every system call of `open` succeeds.
pub record CanOpen (calls : OpenCalls) : Type 0 where
  pub directory : calls.directory_ok ≡ true
  pub scans :
      (f : NumberedFile) (log : MemoryMappedLog) (b : Bool) → IsHealthy (source_of calls log f b)
  pub remap : calls.remap_ok ≡ true

pub length-file :
    (n id base : ℕ) (es : List Entry)
    → segment_header_size + total es ≤ n
    → length (entry_of n id base es).bytes ≡ n
length-file n id base es h = omega (
  arith,
  length-append (segment_header id base n) (encode base es ++ padding n es),
  length-append (encode base es) (padding n es),
  length-segment_header id base n,
  length-encode base es,
  length-replicate {A = ℕ} (n - (segment_header_size + total es)) 0,
)

-- The log behind the scan of the segments `gs`, the first of which has id `id` and base `base`.
abbrev pub after_files : ℕ → ℕ → History → MemoryMappedLog → MemoryMappedLog
after_files id base gs log = record log {
  segment_index = log.segment_index ++ index_of id base gs;
  recent_cache = push_all log.recent_cache (messages_of base gs);
}

pub push_all-append :
    (b : CircularBuffer Message) (xs ys : List Message)
    → push_all (push_all b xs) ys ≡ push_all b (xs ++ ys)
push_all-append b [] ys = refl
push_all-append b (x ∷ xs) ys = push_all-append (push b x) xs ys

-- The log with another directory and cache, and more in its index.
abbrev with_found : MemoryMappedLog → LogSegmentInfo → Directory → List Message → MemoryMappedLog
with_found log info d ms = record log {
  directory = d;
  segment_index = log.segment_index ++ (info ∷ []);
  recent_cache = push_all log.recent_cache ms;
}

pub after_files-step :
    (id base : ℕ) (es : List Entry) (gs : History) (log : MemoryMappedLog)
    → after_files (suc id) (base + total es) gs (after_files id base (es ∷ []) log)
      ≡ after_files id base (es ∷ gs) log
after_files-step id base es gs log =
    ap₂ (λ xs b. record log { segment_index = xs; recent_cache = b })
      (append_assoc log.segment_index (info_of id base es ∷ [])
        (index_of (suc id) (base + total es) gs))
      (push_all-append log.recent_cache (messages base es ++ []) (messages_of (base + total es) gs)
        ∙ ap (λ ms. push_all log.recent_cache (ms ++ messages_of (base + total es) gs))
            (append-nil (messages base es)))

module _ (calls : OpenCalls) (can : CanOpen calls) (n : ℕ) (n_small : n < 2 ^ 63) where
  scan_lem :
      (b : Bool) (id base : ℕ) (es : List Entry) (log : MemoryMappedLog)
      → log.segment_size ≡ n
      → IsStorable n base (es ∷ [])
      → id ≤ maximum_segment_id
      → base < 2 ^ 64
      → scan_segment
          (source_of calls log (id, entry_of n id base es) b)
          id
          base
          (fresh_info id (segment_path id))
          log.recent_cache
        ≡ scanned (
            recovered base es
              (fresh_info id (segment_path id))
              log.recent_cache
              (entry_of n id base es).bytes)
  scan_lem b id base es log hn st hid hb =
      scan_segment-intact (source_of calls log (id, entry_of n id base es) b) id base es
        (n - (segment_header_size + total es)) (fresh_info id (segment_path id)) log.recent_cache
        (record {
          bytes = ap (λ k. segment_file id base k es (padding n es)) (sym hn);
          fits = omega (arith, hn, length-file n id base es st.0);
          small = omega (arith, hn, n_small);
          id_small = omega arith;
          base_small = hb;
          encodable = st.1;
        })
        (can.scans (id, entry_of n id base es) log b)

  -- One segment, at index `k`, whose bytes are in the directory.
  pub recover_file_lem :
      (count k b : ℕ) (es : List Entry) (log : MemoryMappedLog)
      → log.segment_size ≡ n
      → IsStorable n b (es ∷ [])
      → k < maximum_segment_id
      → b < 2 ^ 64
      → update_file (segment_path (suc k)) (λ _. (entry_of n (suc k) b es).bytes) log.directory
        ≡ log.directory
      → recover_file calls k count (suc k, entry_of n (suc k) b es) b log
        ≡ (ok (b + total es), after_files (suc k) b (es ∷ []) log)
  unfolding recover_file
  recover_file_lem count k b es log hn st small hb same = rw index (
      ap (λ o. after_scan (segment_path (suc k)) o log)
        (scan_lem (k + 1 == count) (suc k) b es log hn st (omega arith) hb)
      ∙ ap₂ {C = Ran ℕ} (λ d ms. (ok (b + total es), with_found log (info_of (suc k) b es) d ms))
          same (sym (append-nil (messages b es))))
    where
      index : (suc k == k + 1) ≡ true
      index = ground arith

  same_directory :
      (k b : ℕ) (pre : History) (es : List Entry) (gs : History) (dir : Directory)
      → k ≡ length pre
      → b ≡ size_of pre
      → dir ≡ files_of n 1 0 (pre ++ (es ∷ gs))
      → length pre + suc (length gs) ≤ maximum_segment_id
      → update_file (segment_path (suc k)) (λ _. (entry_of n (suc k) b es).bytes) dir ≡ dir
  same_directory k b pre es gs dir ek eb hd small =
      ap₂ (λ i c. update_file (segment_path (suc i)) (λ _. (entry_of n (suc i) c es).bytes) dir) ek
        eb
      ∙ ap
          (update_file (segment_path (suc (length pre)))
            (λ _. (entry_of n (suc (length pre)) (size_of pre) es).bytes))
          hd
      ∙ update_file-same n pre es gs small
          (λ _. (entry_of n (suc (length pre)) (size_of pre) es).bytes) refl
      ∙ sym hd

  pub recover_files_lem :
      (count k b : ℕ) (pre gs : History) (log : MemoryMappedLog)
      → k ≡ length pre
      → b ≡ size_of pre
      → log.segment_size ≡ n
      → log.directory ≡ files_of n 1 0 (pre ++ gs)
      → IsStorable n b gs
      → length pre + length gs ≤ maximum_segment_id
      → b + size_of gs < 2 ^ 64
      → recover_files calls k count (numbered_of n (suc k) b gs) b log
        ≡ (ok (b + size_of gs), after_files (suc k) b gs log)
  unfolding recover_files
  recover_files_lem count k b pre [] log ek eb hn hd st small hb =
      ap₂ {C = Ran ℕ} (λ o xs. (ok o, record log { segment_index = xs })) (omega arith)
        (sym (append-nil log.segment_index))
  recover_files_lem count k b pre (es ∷ gs) log ek eb hn hd st small hb =
      ap
        (λ (r : Ran ℕ).
          go_on r
            (recover_files calls (k + 1) count (numbered_of n (suc (suc k)) (b + total es) gs)))
        (recover_file_lem count k b es log hn (st.0, st.1, tt) (omega arith) (omega arith)
          (same_directory k b pre es gs log.directory ek eb hd small))
      ∙ ap
          (λ i.
            recover_files calls i count (numbered_of n (suc (suc k)) (b + total es) gs)
              (b + total es) (after_files (suc k) b (es ∷ []) log))
          next
      ∙ recover_files_lem count (suc k) (b + total es) (pre ++ (es ∷ [])) gs
          (after_files (suc k) b (es ∷ []) log) (omega (arith, length-snoc pre es))
          (omega (arith, size_of-append pre es)) hn
          (hd ∙ ap (files_of n 1 0) (sym (append_assoc pre (es ∷ []) gs))) st.2
          (omega (arith, length-snoc pre es)) (omega arith)
      ∙ ap₂ {C = Ran ℕ} (λ o l. (ok o, l)) total_eq (after_files-step (suc k) b es gs log)
    where
      next : k + 1 ≡ suc k
      next = omega arith

      total_eq : b + total es + size_of gs ≡ b + (total es + size_of gs)
      total_eq = omega arith
