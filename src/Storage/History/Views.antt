-- ===== src/Storage/History/Views.antt =====
-- What the queries of a log return, in terms of its history.
use native.Mathlib.Nat.{mul-suc}
use io_t_delivery_fleet_moni.Prelude.{
  ℕ, suc, ◌+◌, ◌-◌, ◌*◌, ◌^◌, ◌≤◌, ◌<◌, ◌≡◌, refl, ap, ap₂, sym, ◌∙◌, List, [], ◌∷◌, ◌++◌, some,
  length, drop, min, arith, append_assoc, add64,
}
use io_t_delivery_fleet_moni.Storage.Circular.History.{get_recent-Holds}
use io_t_delivery_fleet_moni.Storage.Codec.{maximum_segment_id}
use io_t_delivery_fleet_moni.Storage.Format.{Result, ok, segment_path}
use io_t_delivery_fleet_moni.Storage.Scan.Records.{Entry, total}
use io_t_delivery_fleet_moni.Storage.Directory.{find_file}
use io_t_delivery_fleet_moni.Storage.Log.{
  MemoryMappedLog, with_size, file_sizes, disk_usage_bytes, recent_messages,
}
use io_t_delivery_fleet_moni.Storage.History.{
  History, entry_of, files_of, index_of, messages_of, size_of, IsStorable, Represents,
}
use io_t_delivery_fleet_moni.Storage.History.Files.{length-snoc, size_of-append}
use io_t_delivery_fleet_moni.Storage.History.Listing.{find_file-at}
use io_t_delivery_fleet_moni.Storage.History.Reopen.{length-file}

-- `get_recent` of a log that represents a history returns its last messages, across all segments:
-- `count` of them, or as many as the cache and the history have, oldest first.
pub recent_messages-Represents :
    (c count : ℕ) (front : History) (last : List Entry) (log : MemoryMappedLog)
    → Represents c front last log
    → recent_messages log count
      ≡ some (
          drop
            (length (messages_of 0 (front ++ (last ∷ []))) - min count c)
            (messages_of 0 (front ++ (last ∷ []))))
unfolding recent_messages
recent_messages-Represents c count front last log v =
    get_recent-Holds c _ log.recent_cache count v.cache

file_sizes-files_of :
    (n k b used : ℕ) (pre gs : History)
    → k ≡ length pre
    → b ≡ size_of pre
    → IsStorable n b gs
    → length pre + length gs ≤ maximum_segment_id
    → used + n * length gs < 2 ^ 64
    → file_sizes (files_of n 1 0 (pre ++ gs)) (index_of (suc k) b gs) used
      ≡ ok (used + n * length gs)
unfolding file_sizes
file_sizes-files_of n k b used pre [] ek eb st few small = ap ok (omega arith)
file_sizes-files_of n k b used pre (es ∷ gs) ek eb st few small =
    ap (λ f. with_size f rest) found
    ∙ ap₂ (λ d t. file_sizes d (index_of (suc (suc k)) (b + total es) gs) t)
        (ap (files_of n 1 0) (sym (append_assoc pre (es ∷ []) gs))) size_eq
    ∙ file_sizes-files_of n (suc k) (b + total es) (used + n) (pre ++ (es ∷ [])) gs
        (omega (arith, length-snoc pre es)) (omega (arith, size_of-append pre es)) st.2
        (omega (arith, length-snoc pre es)) (omega (arith, mul-suc n (length gs)))
    ∙ ap ok (omega (arith, mul-suc n (length gs)))
  where
    rest : ℕ → Result ℕ
    rest size =
        file_sizes (files_of n 1 0 (pre ++ (es ∷ gs))) (index_of (suc (suc k)) (b + total es) gs)
          (add64 used size)

    found :
        find_file (segment_path (suc k)) (files_of n 1 0 (pre ++ (es ∷ gs)))
        ≡ some (entry_of n (suc (length pre)) (size_of pre) es).bytes
    found =
        ap (λ i. find_file (segment_path (suc i)) (files_of n 1 0 (pre ++ (es ∷ gs)))) ek
        ∙ find_file-at n pre es gs few

    size_eq : add64 used (length (entry_of n (suc (length pre)) (size_of pre) es).bytes) ≡ used + n
    size_eq =
        omega (arith, length-file n (suc (length pre)) (size_of pre) es st.0, mul-suc n (length gs))

-- `disk_usage_bytes` of a log that represents a history is the segment size for each of its
-- segments, if that sum fits 64 bits.
pub disk_usage_bytes-Represents :
    (c : ℕ) (front : History) (last : List Entry) (log : MemoryMappedLog)
    → Represents c front last log
    → log.segment_size * suc (length front) < 2 ^ 64
    → disk_usage_bytes log ≡ ok (log.segment_size * suc (length front))
unfolding disk_usage_bytes
disk_usage_bytes-Represents c front last log v small =
    ap₂ (λ d i. file_sizes d i 0) v.directory v.index
    ∙ file_sizes-files_of log.segment_size 0 0 0 [] (front ++ (last ∷ [])) refl refl v.storable
        (omega (arith, v.count, length-snoc front last))
        (omega (arith, small, ap (λ k. log.segment_size * k) (length-snoc front last)))
    ∙ ap ok (omega (arith, ap (λ k. log.segment_size * k) (length-snoc front last)))
