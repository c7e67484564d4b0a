-- ===== src/Storage/Directory/Order.antt =====
-- storage/mmap_log.cpp: the sort in `recover_or_create` makes up for the order in which the directory
-- is listed.
use io_t_delivery_fleet_moni.Prelude.{
  ℕ, zero, suc, ◌≡◌, refl, ap, sym, ◌∙◌, List, [], ◌∷◌, Option, none, some, Bool, true, false, ◌==◌,
  if◌then◌else◌, has_key, IsDistinct, number_keys, arith,
}
use io_t_delivery_fleet_moni.Storage.Format.{parse_segment_id}
use io_t_delivery_fleet_moni.Storage.Directory.{
  DirEntry, Directory, NumberedFile, insert_at, arranged, add_numbered, numbered_files,
  insert_sorted, sort_by_id,
}

-- The second list has the elements of the first, each as often, in some order.
pub data IsShuffle {ℓ} {A : Type ℓ} : List A → List A → Type ℓ where
  empty : IsShuffle [] []
  keeps : (x : A) (xs ys : List A) → IsShuffle xs ys → IsShuffle (x ∷ xs) (x ∷ ys)
  swaps : (x y : A) (xs : List A) → IsShuffle (x ∷ (y ∷ xs)) (y ∷ (x ∷ xs))
  both : (xs ys zs : List A) → IsShuffle xs ys → IsShuffle ys zs → IsShuffle xs zs

IsShuffle-same {ℓ} : {A : Type ℓ} (xs : List A) → IsShuffle xs xs
IsShuffle-same [] = empty
IsShuffle-same (x ∷ xs) = keeps x xs xs (IsShuffle-same xs)

insert_at-IsShuffle :
    (k : ℕ) (e : DirEntry) (dir : Directory) → IsShuffle (e ∷ dir) (insert_at k e dir)
unfolding insert_at
insert_at-IsShuffle zero e dir = IsShuffle-same (e ∷ dir)
insert_at-IsShuffle (suc k) e [] = IsShuffle-same (e ∷ [])
insert_at-IsShuffle (suc k) e (f ∷ dir) =
    both (e ∷ (f ∷ dir)) (f ∷ (e ∷ dir)) (f ∷ insert_at k e dir) (swaps e f dir)
      (keeps f (e ∷ dir) (insert_at k e dir) (insert_at-IsShuffle k e dir))

arranged-IsShuffle : (order : List ℕ) (dir : Directory) → IsShuffle dir (arranged order dir)
unfolding arranged
arranged-IsShuffle [] dir = IsShuffle-same dir
arranged-IsShuffle (k ∷ order) [] = empty
arranged-IsShuffle (k ∷ order) (e ∷ dir) =
    both (e ∷ dir) (e ∷ arranged order dir) (insert_at k e (arranged order dir))
      (keeps e dir (arranged order dir) (arranged-IsShuffle order dir))
      (insert_at-IsShuffle k e (arranged order dir))

-- An entry that is taken or left out.
abbrev listed_if {ℓ} : {A : Type ℓ} → Bool → A → List A → List A
listed_if b x xs = if b then x ∷ xs else xs

keeps_if {ℓ} :
    {A : Type ℓ} (b : Bool) (x : A) (xs ys : List A)
    → IsShuffle xs ys
    → IsShuffle (listed_if b x xs) (listed_if b x ys)
keeps_if true x xs ys s = keeps x xs ys s
keeps_if false x xs ys s = s

swaps_if {ℓ} :
    {A : Type ℓ} (b c : Bool) (x y : A) (xs : List A)
    → IsShuffle (listed_if b x (listed_if c y xs)) (listed_if c y (listed_if b x xs))
swaps_if true true x y xs = swaps x y xs
swaps_if true false x y xs = IsShuffle-same (x ∷ xs)
swaps_if false true x y xs = IsShuffle-same (y ∷ xs)
swaps_if false false x y xs = IsShuffle-same xs

add_numbered-keeps :
    (e : DirEntry) (o : Option ℕ) (xs ys : List NumberedFile)
    → IsShuffle xs ys
    → IsShuffle (add_numbered e o xs) (add_numbered e o ys)
unfolding add_numbered
add_numbered-keeps e none xs ys s = s
add_numbered-keeps e (some id) xs ys s = keeps_if e.is_regular (id, e) xs ys s

add_numbered-swaps :
    (e f : DirEntry) (o p : Option ℕ) (xs : List NumberedFile)
    → IsShuffle (add_numbered e o (add_numbered f p xs)) (add_numbered f p (add_numbered e o xs))
unfolding add_numbered
add_numbered-swaps e f none p xs = IsShuffle-same (add_numbered f p xs)
add_numbered-swaps e f (some id) none xs = IsShuffle-same (add_numbered e (some id) xs)
add_numbered-swaps e f (some id) (some id') xs =
    swaps_if e.is_regular f.is_regular (id, e) (id', f) xs

numbered_files-IsShuffle :
    (dir dir' : Directory)
    → IsShuffle dir dir'
    → IsShuffle (numbered_files dir) (numbered_files dir')
unfolding numbered_files
numbered_files-IsShuffle dir dir' empty = empty
numbered_files-IsShuffle dir dir' (keeps e xs ys s) =
    add_numbered-keeps e (parse_segment_id e.name) (numbered_files xs) (numbered_files ys)
      (numbered_files-IsShuffle xs ys s)
numbered_files-IsShuffle dir dir' (swaps e f xs) =
    add_numbered-swaps e f (parse_segment_id e.name) (parse_segment_id f.name) (numbered_files xs)
numbered_files-IsShuffle dir dir' (both xs ys zs s t) =
    both (numbered_files xs) (numbered_files ys) (numbered_files zs)
      (numbered_files-IsShuffle xs ys s) (numbered_files-IsShuffle ys zs t)

has_key-shuffle :
    (k : ℕ) (xs ys : List NumberedFile) → IsShuffle xs ys → has_key k xs ≡ has_key k ys
unfolding has_key
has_key-shuffle k xs ys empty = refl
has_key-shuffle k xs ys (keeps (i, e) xs' ys' s) = ground (arith, has_key-shuffle k xs' ys' s)
has_key-shuffle k xs ys (swaps (i, e) (j, f) xs') = ground arith
has_key-shuffle k xs ys (both xs' ys' zs' s t) =
    has_key-shuffle k xs' ys' s ∙ has_key-shuffle k ys' zs' t

shuffle-IsDistinct : (xs ys : List NumberedFile) → IsShuffle xs ys → IsDistinct xs → IsDistinct ys
unfolding has_key
shuffle-IsDistinct xs ys empty d = tt
shuffle-IsDistinct xs ys (keeps (i, e) xs' ys' s) d =
    (sym (has_key-shuffle i xs' ys' s) ∙ d.0, shuffle-IsDistinct xs' ys' s d.1)
shuffle-IsDistinct xs ys (swaps (i, e) (j, f) xs') d =
    (ground (arith, d.0, d.1.0), (ground (arith, d.0, d.1.0), d.1.1))
shuffle-IsDistinct xs ys (both xs' ys' zs' s t) d =
    shuffle-IsDistinct ys' zs' t (shuffle-IsDistinct xs' ys' s d)

insert_sorted-swap :
    (i j : ℕ) (e f : DirEntry) (files : List NumberedFile)
    → (i == j) ≡ false
    → insert_sorted (i, e) (insert_sorted (j, f) files)
      ≡ insert_sorted (j, f) (insert_sorted (i, e) files)
unfolding insert_sorted
insert_sorted-swap i j e f [] n = ground (arith, n)
insert_sorted-swap i j e f ((k, g) ∷ files) n =
    ground (arith, n, insert_sorted-swap i j e f files n)

sort_by_id-shuffle :
    (xs ys : List NumberedFile) → IsShuffle xs ys → IsDistinct xs → sort_by_id xs ≡ sort_by_id ys
unfolding sort_by_id has_key
sort_by_id-shuffle xs ys empty d = refl
sort_by_id-shuffle xs ys (keeps f xs' ys' s) d =
    ap (insert_sorted f) (sort_by_id-shuffle xs' ys' s d.1)
sort_by_id-shuffle xs ys (swaps (i, e) (j, f) xs') d =
    insert_sorted-swap i j e f (sort_by_id xs') (ground (arith, d.0))
sort_by_id-shuffle xs ys (both xs' ys' zs' s t) d =
    sort_by_id-shuffle xs' ys' s d ∙ sort_by_id-shuffle ys' zs' t (shuffle-IsDistinct xs' ys' s d)

-- Whatever the order in which a directory is listed, the sorted files are the same, if no two of
-- them have one id.
pub sort_by_id-arranged :
    (order : List ℕ) (dir : Directory)
    → IsDistinct (numbered_files dir)
    → sort_by_id (numbered_files (arranged order dir)) ≡ sort_by_id (numbered_files dir)
sort_by_id-arranged order dir d = sym (
    sort_by_id-shuffle (numbered_files dir) (numbered_files (arranged order dir))
      (numbered_files-IsShuffle dir (arranged order dir) (arranged-IsShuffle order dir)) d)

-- There is one order of nothing.
pub nothing_listed : (order : List ℕ) → arranged order [] ≡ []
unfolding arranged
nothing_listed [] = refl
nothing_listed (k ∷ order) = refl
