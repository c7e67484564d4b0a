-- ===== src/Storage/History/Crash.antt =====
-- `open` after a crash inside `append`.
use io_t_delivery_fleet_moni.Prelude.{
  ℕ, suc, ◌+◌, ◌^◌, ◌≤◌, ◌<◌, ◌≡◌, refl, ap, ap₂, sym, ◌∙◌, List, [], ◌∷◌, ◌++◌, length, arith,
  append_assoc, append-nil,
}
use io_t_delivery_fleet_moni.Storage.Codec.{maximum_segment_id}
use io_t_delivery_fleet_moni.Storage.Format.{segment_path}
use io_t_delivery_fleet_moni.Storage.Scan.Records.{Entry, total}
use io_t_delivery_fleet_moni.Storage.Directory.{Directory, NumberedFile, update_file}
use io_t_delivery_fleet_moni.Storage.Directory.Numbered.{update_file-append}
use io_t_delivery_fleet_moni.Storage.Log.{MemoryMappedLog, Ran}
use io_t_delivery_fleet_moni.Storage.Open.{OpenCalls, go_on, recover_files}
use io_t_delivery_fleet_moni.Storage.History.{History, entry_of, files_of, size_of, IsStorable}
use io_t_delivery_fleet_moni.Storage.History.Files.{length-snoc, size_of-append}
use io_t_delivery_fleet_moni.Storage.History.Listing.{numbered_of, update_file-same}
use io_t_delivery_fleet_moni.Storage.History.Reopen.{
  CanOpen, after_files, after_files-step, recover_file_lem,
}

-- Changes of the files up to `last` leave the other files alone.
abbrev pub IsApart : ℕ → Directory → Type 0
IsApart last others =
    (i : ℕ) (change : List ℕ → List ℕ)
    → i ≤ last
    → update_file (segment_path i) change others ≡ others

module _ (calls : OpenCalls) (can : CanOpen calls) (n : ℕ) (n_small : n < 2 ^ 63) where
  same_file :
      (pre : History) (es : List Entry) (gs : History) (others : Directory)
      → length pre + suc (length gs) ≤ maximum_segment_id
      → IsApart (length pre + suc (length gs)) others
      → update_file
          (segment_path (suc (length pre)))
          (λ _. (entry_of n (suc (length pre)) (size_of pre) es).bytes)
          (files_of n 1 0 (pre ++ (es ∷ gs)) ++ others)
        ≡ files_of n 1 0 (pre ++ (es ∷ gs)) ++ others
  same_file pre es gs others small apart =
      update_file-append (segment_path (suc (length pre))) _ (files_of n 1 0 (pre ++ (es ∷ gs)))
        others
      ∙ ap₂ ◌++◌ (update_file-same n pre es gs small _ refl)
          (apart (suc (length pre)) _ (omega arith))

  -- The whole segments in front of others.
  pub recover_front :
      (count k b : ℕ) (pre gs : History) (others : Directory) (more : List NumberedFile)
      (log : MemoryMappedLog)
      → k ≡ length pre
      → b ≡ size_of pre
      → log.segment_size ≡ n
      → log.directory ≡ files_of n 1 0 (pre ++ gs) ++ others
      → IsApart (length pre + length gs) others
      → IsStorable n b gs
      → length pre + length gs ≤ maximum_segment_id
      → b + size_of gs < 2 ^ 64
      → recover_files calls k count (numbered_of n (suc k) b gs ++ more) b log
        ≡ recover_files calls
            (k + length gs)
            count
            more
            (b + size_of gs)
            (after_files (suc k) b gs log)
  unfolding recover_files
  recover_front count k b pre [] others more log ek eb hn hd apart st small hb =
      ap₂ (λ i o. recover_files calls i count more o log) no_more no_bytes
      ∙ ap
          (λ xs. recover_files calls (k + 0) count more (b + 0) (record log { segment_index = xs }))
          (sym (append-nil log.segment_index))
    where
      no_more : k ≡ k + 0
      no_more = omega arith

      no_bytes : b ≡ b + 0
      no_bytes = omega arith
  recover_front count k b pre (es ∷ gs) others more log ek eb hn hd apart st small hb =
      ap
        (λ (r : Ran ℕ). go_on r (
          recover_files calls (k + 1) count
            (numbered_of n (suc (suc k)) (b + total es) gs ++ more)))
        (recover_file_lem calls can n n_small count k b es log hn (st.0, st.1, tt) (omega arith)
          (omega arith) same)
      ∙ ap
          (λ i.
            recover_files calls i count (numbered_of n (suc (suc k)) (b + total es) gs ++ more)
              (b + total es) (after_files (suc k) b (es ∷ []) log))
          next
      ∙ recover_front count (suc k) (b + total es) (pre ++ (es ∷ [])) gs others more
          (after_files (suc k) b (es ∷ []) log) (omega (arith, length-snoc pre es))
          (omega (arith, size_of-append pre es)) hn
          (hd ∙ ap (λ g. files_of n 1 0 g ++ others) (sym (append_assoc pre (es ∷ []) gs)))
          (λ i change low. apart i change (omega (arith, low, length-snoc pre es))) st.2
          (omega (arith, length-snoc pre es)) (omega arith)
      ∙ ap₂
          (λ i o.
            recover_files calls i count more o
              (after_files (suc (suc k)) (b + total es) gs (after_files (suc k) b (es ∷ []) log)))
          rounds offset
      ∙ ap (recover_files calls (k + suc (length gs)) count more (b + (total es + size_of gs)))
          (after_files-step (suc k) b es gs log)
    where
      next : k + 1 ≡ suc k
      next = omega arith

      rounds : suc k + length gs ≡ k + suc (length gs)
      rounds = omega arith

      offset : b + total es + size_of gs ≡ b + (total es + size_of gs)
      offset = omega arith

      same :
          update_file (segment_path (suc k)) (λ _. (entry_of n (suc k) b es).bytes) log.directory
          ≡ log.directory
      same =
          ap₂
            (λ i c.
              update_file (segment_path (suc i)) (λ _. (entry_of n (suc i) c es).bytes)
                log.directory)
            ek eb
          ∙ ap
              (update_file (segment_path (suc (length pre)))
                (λ _. (entry_of n (suc (length pre)) (size_of pre) es).bytes))
              hd
          ∙ same_file pre es gs others small apart
          ∙ sym hd
