-- ===== src/Storage/History/TornFile.antt =====
-- The active segment file after a crash inside `append`: how `open` lists, repairs and maps it.
use io_t_delivery_fleet_moni.Prelude.{
  has_key, IsDistinct, number_keys, ℕ, zero, suc, ◌+◌, ◌-◌, ◌≤◌, ◌<◌, ◌≡◌, refl, ap, ap₂, ◌∙◌, List,
  [], ◌∷◌, ◌++◌, true, false, length, replicate, arith, append_assoc, append-nil, if◌then◌else◌,
  take_all, length-append, inl, inr, Bool-cases,
}
use io_t_delivery_fleet_moni.Storage.Codec.{segment_header_size, maximum_segment_id}
use io_t_delivery_fleet_moni.Storage.Format.{segment_path, segment_header}
use io_t_delivery_fleet_moni.Storage.Format.Fields.{length-segment_header}
use io_t_delivery_fleet_moni.Storage.Format.Names.{parse_segment_id-segment_path}
use io_t_delivery_fleet_moni.Storage.Scan.{all_zero, resize}
use io_t_delivery_fleet_moni.Storage.Scan.Records.{Entry, total, encode, length-encode}
use io_t_delivery_fleet_moni.Storage.Segment.Recovery.{segment_file}
use io_t_delivery_fleet_moni.Storage.Directory.{DirEntry, numbered_files, sort_by_id}
use io_t_delivery_fleet_moni.Storage.Directory.Numbered.{
  numbered_files-cons, numbered_files-nil, sort_by_id-cons, sort_by_id-one,
}
use io_t_delivery_fleet_moni.Storage.History.{History, padding, entry_of, files_of}
use io_t_delivery_fleet_moni.Storage.History.Listing.{numbered_of}
use io_t_delivery_fleet_moni.Storage.History.Restart.{resize-same}

abbrev pub file_at : ℕ → List ℕ → DirEntry
file_at id bytes = record { name = segment_path id; is_regular = true; bytes = bytes }

pub numbered_files-behind :
    (n id base last : ℕ) (gs : History) (bytes : List ℕ)
    → id + length gs ≤ suc maximum_segment_id
    → last ≤ maximum_segment_id
    → numbered_files (files_of n id base gs ++ (file_at last bytes ∷ []))
      ≡ numbered_of n id base gs ++ ((last, file_at last bytes) ∷ [])
numbered_files-behind n id base last [] bytes h hl =
    numbered_files-cons (file_at last bytes) [] last refl (parse_segment_id-segment_path last hl)
    ∙ ap (◌∷◌ (last, file_at last bytes)) numbered_files-nil
numbered_files-behind n id base last (es ∷ gs) bytes h hl =
    numbered_files-cons (entry_of n id base es) _ id refl
      (parse_segment_id-segment_path id (omega arith))
    ∙ ap (◌∷◌ (id, entry_of n id base es))
        (numbered_files-behind n (suc id) (base + total es) last gs bytes (omega arith) hl)

pub sort_by_id-behind :
    (n id base last : ℕ) (gs : History) (bytes : List ℕ)
    → id + length gs ≤ last
    → sort_by_id (numbered_of n id base gs ++ ((last, file_at last bytes) ∷ []))
      ≡ numbered_of n id base gs ++ ((last, file_at last bytes) ∷ [])
sort_by_id-behind n id base last [] bytes h = sort_by_id-one (last, file_at last bytes)
sort_by_id-behind n id base last (es ∷ []) bytes h =
    sort_by_id-cons (id, entry_of n id base es) (last, file_at last bytes) [] (omega arith)
      (sort_by_id-one (last, file_at last bytes))
sort_by_id-behind n id base last (es ∷ (fs ∷ gs)) bytes h =
    sort_by_id-cons (id, entry_of n id base es) (suc id, entry_of n (suc id) (base + total es) fs) _
      (omega arith)
      (sort_by_id-behind n (suc id) (base + total es) last (fs ∷ gs) bytes (omega arith))

-- The last file has an id of its own.
last-fresh :
    (k n id base last : ℕ) (gs : History) (bytes : List ℕ)
    → k < id
    → k < last
    → has_key k (numbered_of n id base gs ++ ((last, file_at last bytes) ∷ [])) ≡ false
unfolding has_key
last-fresh k n id base last [] bytes h h' = ground (arith, h')
last-fresh k n id base last (es ∷ gs) bytes h h' =
    ground (arith, h, last-fresh k n (suc id) (base + total es) last gs bytes (omega (arith, h)) h')

pub behind-IsDistinct :
    (n id base last : ℕ) (gs : History) (bytes : List ℕ)
    → id + length gs ≤ last
    → IsDistinct (numbered_of n id base gs ++ ((last, file_at last bytes) ∷ []))
unfolding has_key
behind-IsDistinct n id base last [] bytes h = (refl, tt)
behind-IsDistinct n id base last (es ∷ gs) bytes h = (
  last-fresh id n (suc id) (base + total es) last gs bytes (omega arith) (omega (arith, h)),
  behind-IsDistinct n (suc id) (base + total es) last gs bytes (omega (arith, h)),
)

zeros : (xs : List ℕ) → all_zero xs ≡ true → xs ≡ replicate (length xs) 0
zeros [] h = refl
zeros (x ∷ xs) h = ground (arith, zeros xs)

replicate-append : (k m : ℕ) → replicate {A = ℕ} k 0 ++ replicate m 0 ≡ replicate (k + m) 0
replicate-append zero m = let e : m ≡ 0 + m = omega arith in ap (λ t. replicate t 0) e
replicate-append (suc k) m =
    let e : suc (k + m) ≡ suc k + m = omega arith in
    ap (◌∷◌ 0) (replicate-append k m) ∙ ap (λ t. replicate t 0) e

module _ (id base n : ℕ) (es : List Entry) (junk : List ℕ)
    (full : segment_header_size + total es + 32 + length junk ≡ n) where
  -- The file as the scan leaves it.
  abbrev pub scanned_file : List ℕ
  scanned_file =
      if all_zero junk
      then segment_file id base n es (replicate 32 0 ++ junk)
      else segment_file id base n es []

  pub length-segment_file :
      (rest : List ℕ) → length (segment_file id base n es rest) ≡ 40 + total es + length rest
  length-segment_file rest = omega (
    arith,
    length-append (segment_header id base n) (encode base es ++ rest),
    length-append (encode base es) rest,
    length-segment_header id base n,
    length-encode base es,
  )

  all_zeros :
      all_zero junk ≡ true
      → segment_file id base n es (replicate 32 0 ++ junk) ≡ (entry_of n id base es).bytes
  all_zeros h =
      ap (λ xs. segment_file id base n es xs)
        (ap (λ xs. replicate 32 0 ++ xs) (zeros junk h)
          ∙ replicate-append 32 (length junk)
          ∙ ap (λ k. replicate k 0) left)
    where
      left : 32 + length junk ≡ n - (segment_header_size + total es)
      left = omega (arith, full)

  grown : resize (segment_file id base n es []) n ≡ (entry_of n id base es).bytes
  grown =
      ap₂ (λ xs k. xs ++ replicate k 0)
        (take_all n (segment_file id base n es []) (omega (arith, full, length-segment_file [])))
        left
      ∙ append_assoc (segment_header id base n) (encode base es ++ []) (padding n es)
      ∙ ap (λ xs. segment_header id base n ++ (xs ++ padding n es)) (append-nil (encode base es))
    where
      left : n - length (segment_file id base n es []) ≡ n - (segment_header_size + total es)
      left = omega (arith, length-segment_file [])

  -- Mapping it again makes it the file of the whole entries.
  pub repaired : resize scanned_file n ≡ (entry_of n id base es).bytes
  repaired = elim (Bool-cases (all_zero junk)) [
    | inl e ↦ rw e (
        resize-same (segment_file id base n es (replicate 32 0 ++ junk)) n (
          omega (
            arith,
            full,
            length-segment_file (replicate 32 0 ++ junk),
            length-append (replicate 32 0) junk,
          ))
        ∙ all_zeros e)
    | inr e ↦ rw e grown
  ]
