-- ===== src/Storage/History/Listing.antt =====
-- The directory of a history, as the recovery lists, finds and rewrites it.
use io_t_delivery_fleet_moni.Prelude.{
  ℕ, suc, ◌+◌, ◌≤◌, ◌<◌, ◌≡◌, refl, ap, ap₂, sym, ◌∙◌, List, [], ◌∷◌, ◌++◌, some, length, arith,
  false, has_key, IsDistinct, number_keys,
}
use io_t_delivery_fleet_moni.Storage.Codec.{maximum_segment_id}
use io_t_delivery_fleet_moni.Storage.Format.{segment_path}
use io_t_delivery_fleet_moni.Storage.Format.Names.{parse_segment_id-segment_path, segment_path-ne}
use io_t_delivery_fleet_moni.Storage.Scan.Records.{Entry, total}
use io_t_delivery_fleet_moni.Storage.Directory.{
  DirEntry, Directory, NumberedFile, update_file, find_file, numbered_files, sort_by_id,
}
use io_t_delivery_fleet_moni.Storage.Directory.Numbered.{
  update_file-hit, update_file-miss, update_file-append, update_file-nil, find_file-append,
  find_file-hit, numbered_files-cons, numbered_files-nil, sort_by_id-cons, sort_by_id-one,
  sort_by_id-nil,
}
use io_t_delivery_fleet_moni.Storage.History.{History, entry_of, files_of, size_of}
use io_t_delivery_fleet_moni.Storage.History.Files.{update_file-front, find_file-files_of}

abbrev pub numbered_of : ℕ → ℕ → ℕ → History → List NumberedFile
numbered_of n id base [] = []
numbered_of n id base (es ∷ gs) =
    (id, entry_of n id base es) ∷ numbered_of n (suc id) (base + total es) gs

pub numbered_files-files_of :
    (n id base : ℕ) (gs : History)
    → id + length gs ≤ suc maximum_segment_id
    → numbered_files (files_of n id base gs) ≡ numbered_of n id base gs
numbered_files-files_of n id base [] h = numbered_files-nil
numbered_files-files_of n id base (es ∷ gs) h =
    numbered_files-cons (entry_of n id base es) _ id refl
      (parse_segment_id-segment_path id (omega arith))
    ∙ ap (◌∷◌ (id, entry_of n id base es))
        (numbered_files-files_of n (suc id) (base + total es) gs (omega arith))

pub sort_by_id-numbered_of :
    (n id base : ℕ) (gs : History)
    → sort_by_id (numbered_of n id base gs) ≡ numbered_of n id base gs
sort_by_id-numbered_of n id base [] = sort_by_id-nil
sort_by_id-numbered_of n id base (es ∷ []) = sort_by_id-one (id, entry_of n id base es)
sort_by_id-numbered_of n id base (es ∷ (fs ∷ gs)) =
    sort_by_id-cons (id, entry_of n id base es) (suc id, entry_of n (suc id) (base + total es) fs) _
      (omega arith) (sort_by_id-numbered_of n (suc id) (base + total es) (fs ∷ gs))

-- The ids go up, so that none stands twice.
numbered_of-fresh :
    (k n id base : ℕ) (gs : History) → k < id → has_key k (numbered_of n id base gs) ≡ false
unfolding has_key
numbered_of-fresh k n id base [] h = refl
numbered_of-fresh k n id base (es ∷ gs) h =
    ground (arith, h, numbered_of-fresh k n (suc id) (base + total es) gs (omega (arith, h)))

pub numbered_of-IsDistinct : (n id base : ℕ) (gs : History) → IsDistinct (numbered_of n id base gs)
numbered_of-IsDistinct n id base [] = tt
numbered_of-IsDistinct n id base (es ∷ gs) = (
  numbered_of-fresh id n (suc id) (base + total es) gs (omega arith),
  numbered_of-IsDistinct n (suc id) (base + total es) gs,
)

pub length-numbered_of :
    (n id base : ℕ) (gs : History) → length (numbered_of n id base gs) ≡ length gs
length-numbered_of n id base [] = refl
length-numbered_of n id base (es ∷ gs) = ap suc (length-numbered_of n (suc id) (base + total es) gs)

-- A change of one file leaves later ones alone.
update_file-later :
    (n id base at : ℕ) (gs : History) (change : List ℕ → List ℕ)
    → at < id
    → id + length gs ≤ suc maximum_segment_id
    → update_file (segment_path at) change (files_of n id base gs) ≡ files_of n id base gs
update_file-later n id base at [] change h small = update_file-nil (segment_path at) change
update_file-later n id base at (es ∷ gs) change h small =
    update_file-miss (segment_path at) change (entry_of n id base es) _
      (segment_path-ne id at (omega arith) (omega arith) (omega arith))
    ∙ ap (◌∷◌ (entry_of n id base es))
        (update_file-later n (suc id) (base + total es) at gs change (omega arith) (omega arith))

-- The files around segment `length pre + 1`.
pub files_of-around :
    (n id base : ℕ) (pre : History) (es : List Entry) (gs : History)
    → files_of n id base (pre ++ (es ∷ gs))
      ≡ files_of n id base pre ++ files_of n (id + length pre) (base + size_of pre) (es ∷ gs)
files_of-around n id base [] es gs =
    ap₂ (λ i b. files_of n i b (es ∷ gs)) (omega arith) (omega arith)
files_of-around n id base (fs ∷ pre) es gs = ap (◌∷◌ (entry_of n id base fs)) (
    files_of-around n (suc id) (base + total fs) pre es gs
    ∙ ap₂ (λ i b. files_of n (suc id) (base + total fs) pre ++ files_of n i b (es ∷ gs))
        (omega arith) (omega arith))

module _ (n : ℕ) (pre : History) (es : List Entry) (gs : History)
    (small : length pre + suc (length gs) ≤ maximum_segment_id) where
  abbrev at : ℕ
  at = suc (length pre)

  abbrev file : DirEntry
  file = entry_of n (suc (length pre)) (size_of pre) es

  around :
      files_of n 1 0 (pre ++ (es ∷ gs))
      ≡ files_of n 1 0 pre ++ (file ∷ files_of n (suc at) (size_of pre + total es) gs)
  around =
      files_of-around n 1 0 pre es gs
      ∙ ap₂ (λ i b. files_of n 1 0 pre ++ files_of n i b (es ∷ gs)) (omega arith) (omega arith)

  -- A change that keeps the bytes of the one file keeps the directory.
  pub update_file-same :
      (change : List ℕ → List ℕ)
      → change file.bytes ≡ file.bytes
      → update_file (segment_path at) change (files_of n 1 0 (pre ++ (es ∷ gs)))
        ≡ files_of n 1 0 (pre ++ (es ∷ gs))
  update_file-same change same =
      ap (update_file (segment_path at) change) around
      ∙ update_file-append (segment_path at) change (files_of n 1 0 pre) _
      ∙ ap₂ ◌++◌ (update_file-front n 1 0 at pre change (omega arith) (omega arith)) rest
      ∙ sym around
    where
      later : Directory
      later = files_of n (suc at) (size_of pre + total es) gs

      rest : update_file (segment_path at) change (file ∷ later) ≡ file ∷ later
      rest =
          update_file-append (segment_path at) change (file ∷ []) later
          ∙ ap₂ ◌++◌ (update_file-hit file change ∙ ap (λ xs. record file { bytes = xs } ∷ []) same)
              (update_file-later n (suc at) (size_of pre + total es) at gs change (omega arith)
                (omega arith))

  pub find_file-at :
      find_file (segment_path at) (files_of n 1 0 (pre ++ (es ∷ gs))) ≡ some file.bytes
  find_file-at =
      ap (find_file (segment_path at)) around
      ∙ find_file-append (segment_path at) (files_of n 1 0 pre) _
          (find_file-files_of n 1 0 at pre (omega arith) (omega arith))
      ∙ find_file-hit file _
