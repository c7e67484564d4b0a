-- ===== src/Storage/History.antt =====
-- The log against the history of all appends: which directory, index and cache belong to a history.
pub mod Files
pub mod Store
pub mod RollOver
pub mod Append
pub mod Grow
pub mod Listing
pub mod Reopen
pub mod Restart
pub mod Fresh
pub mod Views
pub mod Crash
pub mod TornFile
pub mod AfterCrash
pub mod Interrupted
use io_t_delivery_fleet_moni.Prelude.{
  ℕ, zero, suc, ◌+◌, ◌-◌, ◌^◌, ◌≤◌, ◌<◌, ◌≡◌, List, [], ◌∷◌, ◌++◌, true, length, replicate,
}
use io_t_delivery_fleet_moni.Storage.Circular.History.{Holds}
use io_t_delivery_fleet_moni.Storage.Codec.{segment_header_size, maximum_segment_id}
use io_t_delivery_fleet_moni.Storage.Format.{Message, LogSegmentInfo, segment_path}
use io_t_delivery_fleet_moni.Storage.Scan.Records.{Entry, IsEncodable, messages, total}
use io_t_delivery_fleet_moni.Storage.Segment.Recovery.{segment_file}
use io_t_delivery_fleet_moni.Storage.Directory.{DirEntry, Directory}
use io_t_delivery_fleet_moni.Storage.Log.{Mapping, MemoryMappedLog}

-- A history is the entries of each segment, oldest segment first.
abbrev pub History : Type 0
History = List (List Entry)

abbrev pub padding : ℕ → List Entry → List ℕ
padding segment_size es = replicate (segment_size - (segment_header_size + total es)) 0

abbrev pub entry_of : ℕ → ℕ → ℕ → List Entry → DirEntry
entry_of segment_size id base es = record {
  name = segment_path id;
  is_regular = true;
  bytes = segment_file id base segment_size es (padding segment_size es);
}

abbrev pub info_of : ℕ → ℕ → List Entry → LogSegmentInfo
info_of id base es = record {
  segment_id = id;
  first_offset = base;
  end_offset = base + total es;
  valid_bytes = segment_header_size + total es;
  path = segment_path id;
}

-- The files of a history, its index and its messages, from segment `id` and offset `base` on.
abbrev pub files_of : ℕ → ℕ → ℕ → History → Directory
files_of segment_size id base [] = []
files_of segment_size id base (es ∷ gs) =
    entry_of segment_size id base es ∷ files_of segment_size (suc id) (base + total es) gs

abbrev pub index_of : ℕ → ℕ → History → List LogSegmentInfo
index_of id base [] = []
index_of id base (es ∷ gs) = info_of id base es ∷ index_of (suc id) (base + total es) gs

abbrev pub messages_of : ℕ → History → List Message
messages_of base [] = []
messages_of base (es ∷ gs) = messages base es ++ messages_of (base + total es) gs

abbrev pub size_of : History → ℕ
size_of [] = 0
size_of (es ∷ gs) = total es + size_of gs

-- Every segment has room for its entries, and the entries fit the format.
abbrev pub IsStorable : ℕ → ℕ → History → Type 0
IsStorable segment_size base [] = Unit {0}
IsStorable segment_size base (es ∷ gs) =
    (segment_header_size + total es ≤ segment_size)
    × IsEncodable base es
    × IsStorable segment_size (base + total es) gs

-- An open log whose appends were `front`, in full segments, and then `last`, in the active one.
pub record Represents (c : ℕ) (front : History) (last : List Entry) (log : MemoryMappedLog)
    : Type 0 where
  pub opened : log.opened ≡ true
  pub large : 73 ≤ log.segment_size
  pub small : log.segment_size < 2 ^ 63
  pub directory : log.directory ≡ files_of log.segment_size 1 0 (front ++ (last ∷ []))
  pub index : log.segment_index ≡ index_of 1 0 (front ++ (last ∷ []))
  pub active : log.active ≡ record {
    has_fd = true;
    has_data = true;
    size = log.segment_size;
    path = segment_path (suc (length front));
    segment_id = suc (length front);
    base_offset = size_of front;
    write_position = segment_header_size + total last;
  }
  pub offset : log.next_message_offset ≡ size_of front + total last
  pub offset_small : log.next_message_offset < 2 ^ 64
  pub count : length front < maximum_segment_id
  pub storable : IsStorable log.segment_size 0 (front ++ (last ∷ []))
  pub cache : Holds c (messages_of 0 (front ++ (last ∷ []))) log.recent_cache
