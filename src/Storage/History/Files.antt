-- ===== src/Storage/History/Files.antt =====
-- The files of a history under the stores of an append.
use native.Mathlib.Omega.{arith}
use io_t_delivery_fleet_moni.Prelude.{
  ℕ, suc, ◌+◌, ◌≤◌, ◌<◌, ◌≡◌, ap, ap₂, sym, subst, ◌∙◌, List, [], ◌∷◌, ◌++◌, true, length, none,
  length-append, append_assoc, append-nil,
}
use io_t_delivery_fleet_moni.Storage.Codec.{segment_header_size, maximum_segment_id}
use io_t_delivery_fleet_moni.Storage.Format.{segment_path}
use io_t_delivery_fleet_moni.Storage.Format.Names.{segment_path-ne}
use io_t_delivery_fleet_moni.Storage.Scan.Records.{Entry, IsEncodable, messages, total}
use io_t_delivery_fleet_moni.Storage.Directory.{update_file, find_file}
use io_t_delivery_fleet_moni.Storage.Directory.Numbered.{
  update_file-hit, update_file-miss, update_file-append, update_file-nil, find_file-nil,
  find_file-miss,
}
use io_t_delivery_fleet_moni.Storage.History.{
  History, entry_of, info_of, files_of, index_of, messages_of, size_of, IsStorable,
}

pub files_of-append :
    (n id base : ℕ) (front : History) (es : List Entry)
    → files_of n id base (front ++ (es ∷ []))
      ≡ files_of n id base front ++ (entry_of n (id + length front) (base + size_of front) es ∷ [])
files_of-append n id base [] es = ap₂ (λ i b. entry_of n i b es ∷ []) (omega arith) (omega arith)
files_of-append n id base (fs ∷ front) es = ap (◌∷◌ (entry_of n id base fs)) (
    files_of-append n (suc id) (base + total fs) front es
    ∙ ap₂ (λ i b. files_of n (suc id) (base + total fs) front ++ (entry_of n i b es ∷ []))
        (omega arith) (omega arith))

pub index_of-append :
    (id base : ℕ) (front : History) (es : List Entry)
    → index_of id base (front ++ (es ∷ []))
      ≡ index_of id base front ++ (info_of (id + length front) (base + size_of front) es ∷ [])
index_of-append id base [] es = ap₂ (λ i b. info_of i b es ∷ []) (omega arith) (omega arith)
index_of-append id base (fs ∷ front) es = ap (◌∷◌ (info_of id base fs)) (
    index_of-append (suc id) (base + total fs) front es
    ∙ ap₂ (λ i b. index_of (suc id) (base + total fs) front ++ (info_of i b es ∷ [])) (omega arith)
        (omega arith))

pub messages_of-append :
    (base : ℕ) (front : History) (es : List Entry)
    → messages_of base (front ++ (es ∷ []))
      ≡ messages_of base front ++ messages (base + size_of front) es
messages_of-append base [] es = append-nil _ ∙ ap (λ b. messages b es) (omega arith)
messages_of-append base (fs ∷ front) es =
    ap (◌++◌ (messages base fs)) (messages_of-append (base + total fs) front es)
    ∙ sym (append_assoc (messages base fs) _ _)
    ∙ ap (λ b. (messages base fs ++ messages_of (base + total fs) front) ++ messages b es)
        (omega arith)

pub files_of-last :
    (n : ℕ) (front : History) (last : List Entry)
    → files_of n 1 0 (front ++ (last ∷ []))
      ≡ files_of n 1 0 front ++ (entry_of n (suc (length front)) (size_of front) last ∷ [])
files_of-last n front last =
    files_of-append n 1 0 front last
    ∙ ap₂ (λ i b. files_of n 1 0 front ++ (entry_of n i b last ∷ [])) (omega arith) (omega arith)

pub index_of-last :
    (front : History) (last : List Entry)
    → index_of 1 0 (front ++ (last ∷ []))
      ≡ index_of 1 0 front ++ (info_of (suc (length front)) (size_of front) last ∷ [])
index_of-last front last =
    index_of-append 1 0 front last
    ∙ ap₂ (λ i b. index_of 1 0 front ++ (info_of i b last ∷ [])) (omega arith) (omega arith)

pub messages_of-last :
    (front : History) (last : List Entry)
    → messages_of 0 (front ++ (last ∷ [])) ≡ messages_of 0 front ++ messages (size_of front) last
messages_of-last front last =
    messages_of-append 0 front last ∙ ap (λ b. messages_of 0 front ++ messages b last) (omega arith)

-- A change of the last file leaves the others alone.
pub update_file-front :
    (n id base at : ℕ) (front : History) (change : List ℕ → List ℕ)
    → id + length front ≤ at
    → at ≤ maximum_segment_id
    → update_file (segment_path at) change (files_of n id base front) ≡ files_of n id base front
update_file-front n id base at [] change h small = update_file-nil (segment_path at) change
update_file-front n id base at (fs ∷ front) change h small =
    update_file-miss (segment_path at) change (entry_of n id base fs) _
      (segment_path-ne id at (omega arith) small (omega arith))
    ∙ ap (◌∷◌ (entry_of n id base fs))
        (update_file-front n (suc id) (base + total fs) at front change (omega arith) small)

-- A change of the active file.
pub update_file-last :
    (n : ℕ) (front : History) (last : List Entry) (change : List ℕ → List ℕ)
    → length front < maximum_segment_id
    → update_file (segment_path (suc (length front))) change (files_of n 1 0 (front ++ (last ∷ [])))
      ≡ files_of n 1 0 front
        ++ (record (entry_of n (suc (length front)) (size_of front) last) {
          bytes = change (entry_of n (suc (length front)) (size_of front) last).bytes;
        }
            ∷ [])
update_file-last n front last change h =
    ap (update_file (segment_path (suc (length front))) change) (files_of-last n front last)
    ∙ update_file-append (segment_path (suc (length front))) change (files_of n 1 0 front) _
    ∙ ap₂ ◌++◌ (update_file-front n 1 0 (suc (length front)) front change (omega arith) h)
        (update_file-hit (entry_of n (suc (length front)) (size_of front) last) change)

-- A change of a last file of any content, which has the name of segment `length front + 1`.
pub update_file-end :
    (n : ℕ) (front : History) (bytes : List ℕ) (change : List ℕ → List ℕ)
    → length front < maximum_segment_id
    → update_file (segment_path (suc (length front))) change (
        files_of n 1 0 front
        ++ (record { name = segment_path (suc (length front)); is_regular = true; bytes = bytes }
            ∷ []))
      ≡ files_of n 1 0 front
        ++ (record {
          name = segment_path (suc (length front));
          is_regular = true;
          bytes = change bytes;
        }
            ∷ [])
update_file-end n front bytes change h =
    update_file-append (segment_path (suc (length front))) change (files_of n 1 0 front) _
    ∙ ap₂ ◌++◌ (update_file-front n 1 0 (suc (length front)) front change (omega arith) h) (
        update_file-hit
          (record { name = segment_path (suc (length front)); is_regular = true; bytes = bytes })
          change)

-- More in the last segment.
pub IsStorable-last :
    (n base : ℕ) (front : History) (es fs : List Entry)
    → IsStorable n base (front ++ (es ∷ []))
    → segment_header_size + total fs ≤ n
    → (IsEncodable (base + size_of front) es → IsEncodable (base + size_of front) fs)
    → IsStorable n base (front ++ (fs ∷ []))
IsStorable-last n base [] es fs h room enc = (
  room,
  subst (λ b. IsEncodable b fs) zero_right
      (enc (subst (λ b. IsEncodable b es) (sym zero_right) h.1)),
  tt,
)
  where
    zero_right : base + 0 ≡ base
    zero_right = omega arith
IsStorable-last n base (gs ∷ front) es fs h room enc =
    (h.0, h.1, IsStorable-last n (base + total gs) front es fs h.2 room shifted)
  where
    shift : base + (total gs + size_of front) ≡ base + total gs + size_of front
    shift = omega arith

    shifted :
        IsEncodable (base + total gs + size_of front) es
        → IsEncodable (base + total gs + size_of front) fs
    shifted k =
        subst (λ b. IsEncodable b fs) shift (enc (subst (λ b. IsEncodable b es) (sym shift) k))

pub IsStorable-room :
    (n base : ℕ) (front : History) (es : List Entry)
    → IsStorable n base (front ++ (es ∷ []))
    → segment_header_size + total es ≤ n
IsStorable-room n base [] es h = h.0
IsStorable-room n base (gs ∷ front) es h = IsStorable-room n (base + total gs) front es h.2

pub IsStorable-next :
    (n base : ℕ) (gs : History)
    → IsStorable n base gs
    → segment_header_size ≤ n
    → IsStorable n base (gs ++ ([] ∷ []))
IsStorable-next n base [] h room = (room, tt, tt)
IsStorable-next n base (es ∷ gs) h room =
    (h.0, h.1, IsStorable-next n (base + total es) gs h.2 room)

pub IsStorable-end :
    (n : ℕ) (front : History) (es fs : List Entry)
    → IsStorable n 0 (front ++ (es ∷ []))
    → segment_header_size + total fs ≤ n
    → (IsEncodable (size_of front) es → IsEncodable (size_of front) fs)
    → IsStorable n 0 (front ++ (fs ∷ []))
IsStorable-end n front es fs h room enc = IsStorable-last n 0 front es fs h room λ k.
    subst (λ b. IsEncodable b fs) (sym zero_left) (enc (subst (λ b. IsEncodable b es) zero_left k))
  where
    zero_left : 0 + size_of front ≡ size_of front
    zero_left = omega arith

-- The name of a later segment is free.
pub find_file-files_of :
    (n id base at : ℕ) (gs : History)
    → id + length gs ≤ at
    → at ≤ maximum_segment_id
    → find_file (segment_path at) (files_of n id base gs) ≡ none
find_file-files_of n id base at [] h small = find_file-nil (segment_path at)
find_file-files_of n id base at (es ∷ gs) h small =
    find_file-miss (segment_path at) (entry_of n id base es) _
      (segment_path-ne id at (omega arith) small (omega arith))
    ∙ find_file-files_of n (suc id) (base + total es) at gs (omega arith) small

pub length-snoc :
    (front : History) (last : List Entry) → length (front ++ (last ∷ [])) ≡ suc (length front)
length-snoc front last = omega (arith, length-append front (last ∷ []))

pub size_of-append :
    (front : History) (last : List Entry)
    → size_of (front ++ (last ∷ [])) ≡ size_of front + total last
size_of-append [] last = omega arith
size_of-append (es ∷ front) last = omega (arith, size_of-append front last)
