-- ===== src/Storage/Directory/Numbered.antt =====
-- Laws of the file operations.
use io_t_delivery_fleet_moni.Prelude.{
  ◌≡◌, refl, ap, ◌∙◌, ◌≤◌, le→leb, none, some, List, [], ◌∷◌, ◌++◌, ℕ, true, false, arith,
  if◌then◌else◌,
}
use io_t_delivery_fleet_moni.Storage.Format.{bytes_eq, parse_segment_id}
use io_t_delivery_fleet_moni.Storage.Format.Names.{bytes_eq_refl}
use io_t_delivery_fleet_moni.Storage.Directory.{
  DirEntry, Directory, NumberedFile, update_file, find_file, numbered_files, insert_sorted,
  sort_by_id,
}

pub update_file-append :
    (name : List ℕ) (change : List ℕ → List ℕ) (xs ys : Directory)
    → update_file name change (xs ++ ys) ≡ update_file name change xs ++ update_file name change ys
unfolding update_file
update_file-append name change [] ys = refl
update_file-append name change (x ∷ xs) ys =
    ap (◌∷◌ (if bytes_eq x.name name then record x { bytes = change x.bytes } else x))
      (update_file-append name change xs ys)

pub update_file-hit :
    (e : DirEntry) (change : List ℕ → List ℕ)
    → update_file e.name change (e ∷ []) ≡ record e { bytes = change e.bytes } ∷ []
unfolding update_file
update_file-hit e change = rw (bytes_eq_refl e.name)

pub update_file-nil : (name : List ℕ) (change : List ℕ → List ℕ) → update_file name change [] ≡ []
unfolding update_file
update_file-nil name change = refl

pub update_file-miss :
    (name : List ℕ) (change : List ℕ → List ℕ) (e : DirEntry) (dir : Directory)
    → bytes_eq e.name name ≡ false
    → update_file name change (e ∷ dir) ≡ e ∷ update_file name change dir
unfolding update_file
update_file-miss name change e dir h = rw h

pub find_file-nil : (name : List ℕ) → find_file name [] ≡ none
unfolding find_file
find_file-nil name = refl

pub find_file-miss :
    (name : List ℕ) (e : DirEntry) (dir : Directory)
    → bytes_eq e.name name ≡ false
    → find_file name (e ∷ dir) ≡ find_file name dir
unfolding find_file
find_file-miss name e dir h = rw h

pub find_file-append :
    (name : List ℕ) (xs ys : Directory)
    → find_file name xs ≡ none
    → find_file name (xs ++ ys) ≡ find_file name ys
unfolding find_file
find_file-append name [] ys h = refl
find_file-append name (x ∷ xs) ys h = ground (arith, find_file-append name xs ys)

pub find_file-hit : (e : DirEntry) (dir : Directory) → find_file e.name (e ∷ dir) ≡ some e.bytes
unfolding find_file
find_file-hit e dir = rw (bytes_eq_refl e.name)

-- One file in front of the others, by its id.
pub numbered_files-cons :
    (e : DirEntry) (dir : Directory) (id : ℕ)
    → e.is_regular ≡ true
    → parse_segment_id e.name ≡ some id
    → numbered_files (e ∷ dir) ≡ (id, e) ∷ numbered_files dir
unfolding numbered_files
numbered_files-cons e dir id regular parsed = rw (parsed, regular)

pub numbered_files-nil : numbered_files [] ≡ []
unfolding numbered_files
numbered_files-nil = refl

-- A file with the lowest id stays in front.
pub sort_by_id-cons :
    (f g : NumberedFile) (files : List NumberedFile)
    → f.0 ≤ g.0
    → sort_by_id (g ∷ files) ≡ g ∷ files
    → sort_by_id (f ∷ (g ∷ files)) ≡ f ∷ (g ∷ files)
unfolding sort_by_id
sort_by_id-cons f g files h e = ap (insert_sorted f) e ∙ rw (le→leb f.0 g.0 h)

pub sort_by_id-one : (f : NumberedFile) → sort_by_id (f ∷ []) ≡ f ∷ []
unfolding sort_by_id
sort_by_id-one f = refl

pub sort_by_id-nil : sort_by_id [] ≡ []
unfolding sort_by_id
sort_by_id-nil = refl
