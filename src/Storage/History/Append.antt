-- ===== src/Storage/History/Append.antt =====
-- `append` on a log that represents a history.
use io_t_delivery_fleet_moni.Prelude.{
  ℕ, suc, ◌+◌, ◌-◌, ◌^◌, ◌≤◌, ◌<◌, ◌≡◌, refl, ap, ap₂, sym, subst, ◌∙◌, List, [], ◌∷◌, ◌++◌, true,
  length, replicate, take, drop, append_assoc, arith, inl, inr, Bool-cases, ◌==◌, ==_iff, add64,
  u32, take-append-drop,
}
use io_t_delivery_fleet_moni.Storage.Circular.History.{Holds, push-Holds}
use io_t_delivery_fleet_moni.Storage.Codec.{
  segment_header_size, record_header_size, maximum_segment_id,
}
use io_t_delivery_fleet_moni.Storage.Format.{
  Message, LogSegmentInfo, ok, segment_path, record_header,
}
use io_t_delivery_fleet_moni.Storage.Scan.Records.{Entry, messages, total, record_size}
use io_t_delivery_fleet_moni.Storage.Segment.Recovery.{segment_file}
use io_t_delivery_fleet_moni.Storage.Directory.{DirEntry, update_file, overwrite}
use io_t_delivery_fleet_moni.Storage.Log.{
  Mapping, MemoryMappedLog, store_payload, store_header, run_copies, run_copy, append_copies,
  write_record, update_last,
}
use io_t_delivery_fleet_moni.Storage.History.{
  History, padding, info_of, files_of, index_of, messages_of, size_of, Represents,
}
use io_t_delivery_fleet_moni.Storage.History.Files.{
  files_of-last, index_of-last, messages_of-last, update_file-end, IsStorable-end,
}
use io_t_delivery_fleet_moni.Storage.History.Store.{
  torn, store_payload-bytes, store_header-bytes, total-append, messages-append, IsEncodable-append,
}

-- The mapping of the active segment.
abbrev pub mapping_of : ℕ → History → List Entry → Mapping
mapping_of n front last = record {
  has_fd = true;
  has_data = true;
  size = n;
  path = segment_path (suc (length front));
  segment_id = suc (length front);
  base_offset = size_of front;
  write_position = segment_header_size + total last;
}

overwrite-nil : (at : ℕ) (xs ys : List ℕ) → length ys ≡ 0 → overwrite at ys xs ≡ xs
overwrite-nil at xs [] h = ap (λ k. take at xs ++ drop k xs) (omega arith) ∙ take-append-drop at xs
overwrite-nil at xs (y ∷ ys) h = absurd (omega arith)

module _ (n : ℕ) (front : History) (last : List Entry) (e : Entry) where
  abbrev pub pad : ℕ
  pad = n - (segment_header_size + total last)

  abbrev pub file_with : List ℕ → DirEntry
  file_with bytes = record {
    name = segment_path (suc (length front));
    is_regular = true;
    bytes = bytes;
  }

  -- After the first copy the active file is torn: the payload is there, its header is not.
  pub store_payload_lem :
      length front < maximum_segment_id
      → n < 2 ^ 63
      → segment_header_size + total last + record_size e ≤ n
      → store_payload e.payload (mapping_of n front last) (files_of n 1 0 (front ++ (last ∷ [])))
        ≡ files_of n 1 0 front
          ++ (file_with (torn (suc (length front)) (size_of front) n last e pad) ∷ [])
  unfolding store_payload
  store_payload_lem hc hn room = elim (Bool-cases (length e.payload == 0)) [
    | inl z ↦ rw z (
        files_of-last n front last
        ∙ ap (λ xs. files_of n 1 0 front ++ (file_with xs ∷ []))
            (sym (overwrite-nil (40 + total last + 32) _ e.payload ((==_iff _ 0).0 z)) ∙ bytes))
    | inr z ↦ rw z (
        ap
          (update_file (segment_path (suc (length front)))
            (overwrite (add64 (40 + total last) 32) e.payload))
          (files_of-last n front last)
        ∙ update_file-end n front _ (overwrite (add64 (40 + total last) 32) e.payload) hc
        ∙ ap (λ xs. files_of n 1 0 front ++ (file_with xs ∷ []))
            (ap
                (λ at.
                  overwrite at e.payload
                    (segment_file (suc (length front)) (size_of front) n last (padding n last)))
                no_wrap
              ∙ bytes))
  ]
    where
      no_wrap : add64 (40 + total last) 32 ≡ 40 + total last + 32
      no_wrap = omega arith

      bytes :
          overwrite
            (40 + total last + 32)
            e.payload
            (segment_file (suc (length front)) (size_of front) n last (padding n last))
          ≡ torn (suc (length front)) (size_of front) n last e pad
      bytes = store_payload-bytes (suc (length front)) (size_of front) n last e pad (omega arith)

  -- After the second copy it is the file of the longer history.
  pub store_header_lem :
      length front < maximum_segment_id
      → store_header
          (record_header (size_of front + total last) e.timestamp e.payload)
          (mapping_of n front last)
          (files_of n 1 0 front
            ++ (file_with (torn (suc (length front)) (size_of front) n last e pad) ∷ []))
        ≡ files_of n 1 0 (front ++ ((last ++ (e ∷ [])) ∷ []))
  unfolding store_header
  store_header_lem hc =
      update_file-end n front _
        (overwrite (40 + total last)
          (record_header (size_of front + total last) e.timestamp e.payload))
        hc
      ∙ ap (λ xs. files_of n 1 0 front ++ (file_with xs ∷ []))
          (store_header-bytes (suc (length front)) (size_of front) n last e pad
            ∙ ap
                (λ k.
                  segment_file (suc (length front)) (size_of front) n (last ++ (e ∷ []))
                    (replicate k 0))
                rest)
      ∙ sym (files_of-last n front (last ++ (e ∷ [])))
    where
      rest : pad - record_size e ≡ n - (segment_header_size + total (last ++ (e ∷ [])))
      rest = omega (arith, total-append last e)

update_last-end {ℓ} :
    {A : Type ℓ} (f : A → A) (xs : List A) (x : A)
    → update_last f (xs ++ (x ∷ [])) ≡ xs ++ (f x ∷ [])
update_last-end f [] x = refl
update_last-end f (y ∷ []) x = refl
update_last-end f (y ∷ (z ∷ xs)) x = ap (◌∷◌ y) (update_last-end f (z ∷ xs) x)

module _ (c : ℕ) (front : History) (last : List Entry) (log : MemoryMappedLog) (e : Entry)
    (v : Represents c front last log) (timely : e.timestamp < 2 ^ 64)
    (short : length e.payload < 2 ^ 32)
    (offset_room : size_of front + total last + record_size e < 2 ^ 64)
    (room : segment_header_size + total last + record_size e ≤ log.segment_size) where
  abbrev after_write : MemoryMappedLog
  after_write = (write_record e.payload e.timestamp log).1

  size-eq : add64 record_header_size (length e.payload) ≡ record_size e
  size-eq = omega arith

  directory-eq :
      after_write.directory ≡ files_of log.segment_size 1 0 (front ++ ((last ++ (e ∷ [])) ∷ []))
  unfolding write_record run_copies run_copy append_copies
  directory-eq =
      ap₂
        (λ a d.
          store_header (record_header log.next_message_offset e.timestamp e.payload) a
            (store_payload e.payload a d))
        v.active v.directory
      ∙ ap₂
          (λ o d.
            store_header (record_header o e.timestamp e.payload)
              (mapping_of log.segment_size front last) d)
          v.offset (store_payload_lem log.segment_size front last e v.count v.small room)
      ∙ store_header_lem log.segment_size front last e v.count

  active-eq : after_write.active ≡ mapping_of log.segment_size front (last ++ (e ∷ []))
  unfolding write_record
  active-eq =
      ap
        (λ (a : Mapping). record a {
          write_position = add64 a.write_position (add64 record_header_size (length e.payload));
        })
        v.active
      ∙ ap (λ p. record (mapping_of log.segment_size front last) { write_position = p })
          (omega (arith, v.small, total-append last e))

  offset-eq : after_write.next_message_offset ≡ size_of front + total (last ++ (e ∷ []))
  unfolding write_record
  offset-eq = omega (arith, v.offset, total-append last e)

  index-eq : after_write.segment_index ≡ index_of 1 0 (front ++ ((last ++ (e ∷ [])) ∷ []))
  unfolding write_record
  index-eq =
      ap (update_last written) (v.index ∙ index_of-last front last)
      ∙ update_last-end written (index_of 1 0 front)
          (info_of (suc (length front)) (size_of front) last)
      ∙ ap₂
          (λ o w.
            index_of 1 0 front
            ++ (record (info_of (suc (length front)) (size_of front) last) {
              end_offset = o;
              valid_bytes = w;
            }
                ∷ []))
          (omega (arith, v.offset, total-append last e))
          (omega
            (arith, ap (λ (a : Mapping). a.write_position) v.active, v.small, total-append last e))
      ∙ sym (index_of-last front (last ++ (e ∷ [])))
    where
      written : LogSegmentInfo → LogSegmentInfo
      written info = record info {
        end_offset = after_write.next_message_offset;
        valid_bytes = after_write.active.write_position;
      }

  cache-eq : Holds c (messages_of 0 (front ++ ((last ++ (e ∷ [])) ∷ []))) after_write.recent_cache
  unfolding write_record
  cache-eq =
      subst (λ h. Holds c h after_write.recent_cache) (sym history)
        (push-Holds c (messages_of 0 (front ++ (last ∷ []))) log.recent_cache message v.cache)
    where
      message : Message
      message = record {
        offset = log.next_message_offset;
        timestamp_ns = e.timestamp;
        payload_length = u32 (length e.payload);
        payload = e.payload;
      }

      stored : Message
      stored = record {
        offset = size_of front + total last;
        timestamp_ns = e.timestamp;
        payload_length = length e.payload;
        payload = e.payload;
      }

      same : stored ≡ message
      same = ground (arith, v.offset)

      history :
          messages_of 0 (front ++ ((last ++ (e ∷ [])) ∷ []))
          ≡ messages_of 0 (front ++ (last ∷ [])) ++ (message ∷ [])
      history =
          messages_of-last front (last ++ (e ∷ []))
          ∙ ap (◌++◌ (messages_of 0 front)) (messages-append (size_of front) last e)
          ∙ sym (append_assoc (messages_of 0 front) (messages (size_of front) last) (stored ∷ []))
          ∙ ap₂ (λ xs m. xs ++ (m ∷ [])) (sym (messages_of-last front last)) same

  -- The record that is written is the next entry of the history.
  pub write_record-Represents : Represents c front (last ++ (e ∷ [])) after_write
  unfolding write_record
  write_record-Represents = record {
    opened = v.opened;
    large = v.large;
    small = v.small;
    directory = directory-eq;
    index = index-eq;
    active = active-eq;
    offset = offset-eq;
    offset_small = omega (arith, offset-eq, total-append last e);
    count = v.count;
    storable =
        IsStorable-end log.segment_size front last (last ++ (e ∷ [])) v.storable
          (omega (arith, room, total-append last e))
          (λ enc. IsEncodable-append (size_of front) last e enc (timely, short, offset_room, tt));
    cache = cache-eq;
  }

  pub write_record-offset :
      (write_record e.payload e.timestamp log).0 ≡ ok (size_of front + total last)
  unfolding write_record
  write_record-offset = ap ok v.offset
