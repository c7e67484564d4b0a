-- ===== src/Storage/Directory.antt =====
-- The log directory as the file system shows it: names with the bytes of each regular file. Stores
-- through a shared mapping are stores to the file.
pub mod Numbered
pub mod Order
use io_t_delivery_fleet_moni.Prelude.{
  ℕ, zero, suc, ◌+◌, ◌-◌, List, [], ◌∷◌, ◌++◌, Option, none, some, Bool, true, false, if◌then◌else◌,
  take, drop, replicate, length, leb,
}
use io_t_delivery_fleet_moni.Storage.Format.{bytes_eq, parse_segment_id}

pub record DirEntry : Type 0 where
  pub name : List ℕ
  pub is_regular : Bool
  pub bytes : List ℕ

abbrev pub Directory : Type 0
Directory = List DirEntry

pub find_file : List ℕ → Directory → Option (List ℕ)
find_file name [] = none
find_file name (e ∷ dir) = if bytes_eq e.name name then some e.bytes else find_file name dir

-- Applies `change` to the bytes of the file `name`.
pub update_file : List ℕ → (List ℕ → List ℕ) → Directory → Directory
update_file name change [] = []
update_file name change (e ∷ dir) =
    (if bytes_eq e.name name then record e { bytes = change e.bytes } else e)
    ∷ update_file name change dir

-- `std::filesystem::remove`
pub remove_file : List ℕ → Directory → Directory
remove_file name [] = []
remove_file name (e ∷ dir) =
    let rest = remove_file name dir in if bytes_eq e.name name then rest else e ∷ rest

-- `memcpy` to `destination` inside the bytes of a file.
abbrev pub overwrite : ℕ → List ℕ → List ℕ → List ℕ
overwrite destination source bytes =
    take destination bytes ++ (source ++ drop (destination + length source) bytes)

-- `directory_iterator` gives each entry once, in an order that is not specified. The order is a list
-- of places: each entry is put at its place among the later ones. Every order arises in this way.
pub insert_at : ℕ → DirEntry → Directory → Directory
insert_at zero e dir = e ∷ dir
insert_at (suc k) e [] = e ∷ []
insert_at (suc k) e (f ∷ dir) = f ∷ insert_at k e dir

pub arranged : List ℕ → Directory → Directory
arranged [] dir = dir
arranged (k ∷ order) [] = []
arranged (k ∷ order) (e ∷ dir) = insert_at k e (arranged order dir)

-- A directory entry that the recovery takes for a segment, with its id.
abbrev pub NumberedFile : Type 0
NumberedFile = ℕ × DirEntry

add_numbered : DirEntry → Option ℕ → List NumberedFile → List NumberedFile
add_numbered e none files = files
add_numbered e (some id) files = if e.is_regular then (id, e) ∷ files else files

-- The loop over `directory_iterator`.
pub numbered_files : Directory → List NumberedFile
unfolding add_numbered
numbered_files [] = []
numbered_files (e ∷ dir) = add_numbered e (parse_segment_id e.name) (numbered_files dir)

insert_sorted : NumberedFile → List NumberedFile → List NumberedFile
insert_sorted f [] = f ∷ []
insert_sorted f (g ∷ files) =
    let rest = g ∷ insert_sorted f files in if leb f.0 g.0 then f ∷ (g ∷ files) else rest

-- `std::sort` by the id.
pub sort_by_id : List NumberedFile → List NumberedFile
unfolding insert_sorted
sort_by_id [] = []
sort_by_id (f ∷ files) = insert_sorted f (sort_by_id files)
