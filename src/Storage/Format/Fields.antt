-- ===== src/Storage/Format/Fields.antt =====
-- What the readers of storage/mmap_log.cpp find in the headers that its writers build.
use io_t_delivery_fleet_moni.Prelude.{
  ℕ, ◌+◌, ◌≡◌, refl, ap, sym, ◌∙◌, List, [], ◌∷◌, ◌++◌, take, length, arith, u32, u64,
  length-append, append_assoc, append-nil, take_all, take_prefix,
}
use io_t_delivery_fleet_moni.Storage.Codec.{
  segment_magic, segment_version, record_magic, record_header_size, put_u32, put_u64, get_u32,
  get_u64, record_crc, segment_crc,
}
use io_t_delivery_fleet_moni.Storage.Codec.RoundTrip.{
  u32-record_crc, record_crc-take, u32-segment_crc, segment_crc-take, length-put_u32,
  length-put_u64, get_u32-put_u32, get_u64-put_u64, get_u32-skip, get_u64-skip,
}
use io_t_delivery_fleet_moni.Storage.Format.{
  record_prefix, record_header, segment_prefix, segment_header,
}

-- Fields of fixed width, in order.
skip_u32 : (v at : ℕ) (xs : List ℕ) → get_u32 (put_u32 v ++ xs) (4 + at) ≡ get_u32 xs at
skip_u32 v at xs = get_u32-skip 4 at (put_u32 v) xs (length-put_u32 v)

next_u32 : (v at : ℕ) (xs : List ℕ) → get_u64 (put_u32 v ++ xs) (4 + at) ≡ get_u64 xs at
next_u32 v at xs = get_u64-skip 4 at (put_u32 v) xs (length-put_u32 v)

skip_u64 : (v at : ℕ) (xs : List ℕ) → get_u32 (put_u64 v ++ xs) (8 + at) ≡ get_u32 xs at
skip_u64 v at xs = get_u32-skip 8 at (put_u64 v) xs (length-put_u64 v)

next_u64 : (v at : ℕ) (xs : List ℕ) → get_u64 (put_u64 v ++ xs) (8 + at) ≡ get_u64 xs at
next_u64 v at xs = get_u64-skip 8 at (put_u64 v) xs (length-put_u64 v)

here_u32 : (v : ℕ) (xs : List ℕ) → get_u32 (put_u32 v ++ xs) 0 ≡ u32 v
here_u32 v xs = get_u32-put_u32 v 0 [] xs refl

here_u64 : (v : ℕ) (xs : List ℕ) → get_u64 (put_u64 v ++ xs) 0 ≡ u64 v
here_u64 v xs = get_u64-put_u64 v 0 [] xs refl

ruleset widths = (length-append, length-put_u32, length-put_u64)

length-record_prefix :
    (offset timestamp size : ℕ) → length (record_prefix offset timestamp size) ≡ 28
unfolding record_prefix
length-record_prefix offset timestamp size = simp widths

-- The record header as one row of fields.
record_header-fields :
    (offset timestamp : ℕ) (payload : List ℕ)
    → record_header offset timestamp payload
      ≡ put_u32 record_magic
        ++ (put_u32 record_header_size
            ++ (put_u64 offset
                ++ (put_u64 timestamp
                    ++ (put_u32 (u32 (length payload))
                        ++ put_u32 (
                            record_crc
                              (record_prefix offset timestamp (u32 (length payload)))
                              payload)))))
unfolding record_header record_prefix
record_header-fields offset timestamp payload = simp append_assoc

module _ (offset timestamp : ℕ) (payload : List ℕ) where
  pub length-record_header : length (record_header offset timestamp payload) ≡ 32
  length-record_header = rw (record_header-fields offset timestamp payload) (simp widths)

  pub record_header-magic : get_u32 (record_header offset timestamp payload) 0 ≡ record_magic
  record_header-magic =
      ap (λ h. get_u32 h 0) (record_header-fields offset timestamp payload)
      ∙ here_u32 record_magic _

  pub record_header-version :
      get_u32 (record_header offset timestamp payload) 4 ≡ record_header_size
  record_header-version =
      ap (λ h. get_u32 h 4) (record_header-fields offset timestamp payload)
      ∙ skip_u32 _ 0 _
      ∙ here_u32 record_header_size _

  pub record_header-offset : get_u64 (record_header offset timestamp payload) 8 ≡ u64 offset
  record_header-offset =
      ap (λ h. get_u64 h 8) (record_header-fields offset timestamp payload)
      ∙ next_u32 _ 4 _
      ∙ next_u32 _ 0 _
      ∙ here_u64 offset _

  pub record_header-timestamp : get_u64 (record_header offset timestamp payload) 16 ≡ u64 timestamp
  record_header-timestamp =
      ap (λ h. get_u64 h 16) (record_header-fields offset timestamp payload)
      ∙ next_u32 _ 12 _
      ∙ next_u32 _ 8 _
      ∙ next_u64 _ 0 _
      ∙ here_u64 timestamp _

  pub record_header-length :
      get_u32 (record_header offset timestamp payload) 24 ≡ u32 (u32 (length payload))
  record_header-length =
      ap (λ h. get_u32 h 24) (record_header-fields offset timestamp payload)
      ∙ skip_u32 _ 20 _
      ∙ skip_u32 _ 16 _
      ∙ skip_u64 _ 8 _
      ∙ skip_u64 _ 0 _
      ∙ here_u32 _ _

  -- The stored checksum is the one that the reader computes over the header that it finds.
  pub record_header-crc :
      get_u32 (record_header offset timestamp payload) 28
      ≡ record_crc (record_header offset timestamp payload) payload
  unfolding record_header
  record_header-crc =
      ap (λ h. get_u32 h 28) (record_header-fields offset timestamp payload)
      ∙ skip_u32 _ 24 _
      ∙ skip_u32 _ 20 _
      ∙ skip_u64 _ 12 _
      ∙ skip_u64 _ 4 _
      ∙ skip_u32 _ 0 _
      ∙ last _
      ∙ u32-record_crc _ payload
      ∙ record_crc-take _ _ payload checked
    where
      prefix : List ℕ
      prefix = record_prefix offset timestamp (u32 (length payload))

      last : (v : ℕ) → get_u32 (put_u32 v) 0 ≡ u32 v
      last v = ap (λ xs. get_u32 xs 0) (sym (append-nil (put_u32 v))) ∙ here_u32 v []

      checked : take 28 prefix ≡ take 28 (record_header offset timestamp payload)
      checked =
          take_all 28 prefix
            (omega (arith, length-record_prefix offset timestamp (u32 (length payload))))
          ∙ sym (
              take_prefix 28 prefix _
                (length-record_prefix offset timestamp (u32 (length payload))))

-- The segment header, likewise.
length-segment_prefix :
    (segment_id base_offset segment_size : ℕ)
    → length (segment_prefix segment_id base_offset segment_size) ≡ 32
unfolding segment_prefix
length-segment_prefix segment_id base_offset segment_size = simp widths

module _ (segment_id base_offset segment_size : ℕ) where
  segment_header-fields :
      segment_header segment_id base_offset segment_size
      ≡ segment_magic
        ++ (put_u32 segment_version
            ++ (put_u32 segment_id
                ++ (put_u64 base_offset
                    ++ (put_u64 segment_size
                        ++ (put_u32
                              (segment_crc (segment_prefix segment_id base_offset segment_size))
                            ++ (0 ∷ 0 ∷ 0 ∷ 0 ∷ []))))))
  unfolding segment_header segment_prefix
  segment_header-fields = simp append_assoc

  pub length-segment_header : length (segment_header segment_id base_offset segment_size) ≡ 40
  length-segment_header = rw segment_header-fields (simp widths)

  pub segment_header-magic :
      take 8 (segment_header segment_id base_offset segment_size) ≡ segment_magic
  segment_header-magic = ap (take 8) segment_header-fields

  pub segment_header-version :
      get_u32 (segment_header segment_id base_offset segment_size) 8 ≡ segment_version
  segment_header-version =
      ap (λ h. get_u32 h 8) segment_header-fields
      ∙ get_u32-skip 8 0 segment_magic _ refl
      ∙ here_u32 segment_version _

  pub segment_header-id :
      get_u32 (segment_header segment_id base_offset segment_size) 12 ≡ u32 segment_id
  segment_header-id =
      ap (λ h. get_u32 h 12) segment_header-fields
      ∙ get_u32-skip 8 4 segment_magic _ refl
      ∙ skip_u32 _ 0 _
      ∙ here_u32 segment_id _

  pub segment_header-base :
      get_u64 (segment_header segment_id base_offset segment_size) 16 ≡ u64 base_offset
  segment_header-base =
      ap (λ h. get_u64 h 16) segment_header-fields
      ∙ get_u64-skip 8 8 segment_magic _ refl
      ∙ next_u32 _ 4 _
      ∙ next_u32 _ 0 _
      ∙ here_u64 base_offset _

  pub segment_header-size :
      get_u64 (segment_header segment_id base_offset segment_size) 24 ≡ u64 segment_size
  segment_header-size =
      ap (λ h. get_u64 h 24) segment_header-fields
      ∙ get_u64-skip 8 16 segment_magic _ refl
      ∙ next_u32 _ 12 _
      ∙ next_u32 _ 8 _
      ∙ next_u64 _ 0 _
      ∙ here_u64 segment_size _

  pub segment_header-crc :
      get_u32 (segment_header segment_id base_offset segment_size) 32
      ≡ segment_crc (segment_header segment_id base_offset segment_size)
  unfolding segment_header
  segment_header-crc =
      ap (λ h. get_u32 h 32) segment_header-fields
      ∙ get_u32-skip 8 24 segment_magic _ refl
      ∙ skip_u32 _ 20 _
      ∙ skip_u32 _ 16 _
      ∙ skip_u64 _ 8 _
      ∙ skip_u64 _ 0 _
      ∙ here_u32 _ _
      ∙ u32-segment_crc _
      ∙ segment_crc-take _ _ checked
    where
      prefix : List ℕ
      prefix = segment_prefix segment_id base_offset segment_size

      checked : take 32 prefix ≡ take 32 (segment_header segment_id base_offset segment_size)
      checked =
          take_all 32 prefix
            (omega (arith, length-segment_prefix segment_id base_offset segment_size))
          ∙ sym
              (take_prefix 32 prefix _ (length-segment_prefix segment_id base_offset segment_size))
