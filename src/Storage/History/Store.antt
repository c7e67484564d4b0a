-- ===== src/Storage/History/Store.antt =====
-- What the two copies of `append` do to the bytes of a segment file.
use io_t_delivery_fleet_moni.Prelude.{
  ℕ, zero, suc, ◌+◌, ◌-◌, ◌≤◌, ◌≡◌, ap, ap₂, sym, ◌∙◌, List, [], ◌∷◌, ◌++◌, length, replicate, drop,
  length-append, append_assoc, append-nil, take_prefix, drop_prefix, length-replicate, arith,
}
use io_t_delivery_fleet_moni.Storage.Format.{Message, segment_header, record_header}
use io_t_delivery_fleet_moni.Storage.Format.Fields.{length-record_header, length-segment_header}
use io_t_delivery_fleet_moni.Storage.Scan.Records.{
  Entry, encode, messages, total, record_size, length-encode, IsEncodable,
}
use io_t_delivery_fleet_moni.Storage.Segment.Recovery.{segment_file}
use io_t_delivery_fleet_moni.Storage.Directory.{overwrite}

-- A store over bytes of the same number.
overwrite_lem :
    (at : ℕ) (before old new after : List ℕ)
    → length before ≡ at
    → length old ≡ length new
    → overwrite at new (before ++ (old ++ after)) ≡ before ++ (new ++ after)
overwrite_lem at before old new after h same =
    ap₂ (λ xs ys. xs ++ (new ++ ys)) (take_prefix at before (old ++ after) h)
      (ap (drop (at + length new)) (sym (append_assoc before old after))
        ∙ drop_prefix (at + length new) (before ++ old) after
            (omega (arith, length-append before old)))

replicate-split : (m n : ℕ) → m ≤ n → replicate {A = ℕ} n 0 ≡ replicate m 0 ++ replicate (n - m) 0
replicate-split zero n h = ap (λ k. replicate k 0) (omega arith)
replicate-split (suc m) zero h = absurd (omega arith)
replicate-split (suc m) (suc n) h =
    ap (◌∷◌ 0)
      (replicate-split m n (omega arith) ∙ ap (λ k. replicate m 0 ++ replicate k 0) (omega arith))

pub encode-append :
    (base : ℕ) (es : List Entry) (e : Entry)
    → encode base (es ++ (e ∷ []))
      ≡ encode base es ++ (record_header (base + total es) e.timestamp e.payload ++ e.payload)
encode-append base [] e =
    ap₂ (λ b p. record_header b e.timestamp e.payload ++ p) (omega arith) (append-nil e.payload)
encode-append base (f ∷ es) e =
    ap (λ t. record_header base f.timestamp f.payload ++ (f.payload ++ t))
      (encode-append (base + record_size f) es e)
    ∙ simp append_assoc (
        ap
          (λ b.
            record_header base f.timestamp f.payload
            ++ (f.payload
                ++ (encode (base + record_size f) es
                    ++ (record_header b e.timestamp e.payload ++ e.payload))))
          (omega arith))

pub total-append : (es : List Entry) (e : Entry) → total (es ++ (e ∷ [])) ≡ total es + record_size e
total-append [] e = omega arith
total-append (f ∷ es) e = omega (arith, total-append es e)

pub messages-append :
    (base : ℕ) (es : List Entry) (e : Entry)
    → messages base (es ++ (e ∷ []))
      ≡ messages base es
        ++ (record {
          offset = base + total es;
          timestamp_ns = e.timestamp;
          payload_length = length e.payload;
          payload = e.payload;
        }
            ∷ [])
messages-append base [] e = ap (λ b. messages b (e ∷ [])) (omega arith)
messages-append base (f ∷ es) e = ap (◌∷◌ first) (
    messages-append (base + record_size f) es e
    ∙ ap (λ b. messages (base + record_size f) es ++ messages b (e ∷ [])) regroup)
  where
    first : Message
    first = record {
      offset = base;
      timestamp_ns = f.timestamp;
      payload_length = length f.payload;
      payload = f.payload;
    }

    regroup : base + record_size f + total es ≡ base + total (f ∷ es)
    regroup = omega arith

pub IsEncodable-append :
    (base : ℕ) (es : List Entry) (e : Entry)
    → IsEncodable base es
    → IsEncodable (base + total es) (e ∷ [])
    → IsEncodable base (es ++ (e ∷ []))
IsEncodable-append base [] e h k = omega arith
IsEncodable-append base (f ∷ es) e h k =
    (h.0, h.1, h.2, IsEncodable-append (base + record_size f) es e h.3 (omega arith))

module _ (id base n : ℕ) (es : List Entry) (e : Entry) where
  abbrev front : List ℕ
  front = segment_header id base n ++ encode base es

  length-front : length front ≡ 40 + total es
  length-front = omega (
    arith,
    length-append (segment_header id base n) (encode base es),
    length-segment_header id base n,
    length-encode base es,
  )

  as_front : (rest : List ℕ) → segment_file id base n es rest ≡ front ++ rest
  as_front rest = sym (append_assoc (segment_header id base n) (encode base es) rest)

  -- Between the copies: 32 zeros where the header will stand, and the payload behind them.
  abbrev pub torn : ℕ → List ℕ
  torn pad =
      segment_file id base n es (replicate 32 0 ++ (e.payload ++ replicate (pad - record_size e) 0))

  pub store_payload-bytes :
      (pad : ℕ)
      → record_size e ≤ pad
      → overwrite (40 + total es + 32) e.payload (segment_file id base n es (replicate pad 0))
        ≡ torn pad
  store_payload-bytes pad h =
      ap (overwrite (40 + total es + 32) e.payload) split
      ∙ overwrite_lem (40 + total es + 32) (front ++ replicate 32 0)
          (replicate (length e.payload) 0) e.payload (replicate (pad - record_size e) 0)
          (omega (arith, length-append front (replicate {A = ℕ} 32 0), length-front))
          (length-replicate (length e.payload) 0)
      ∙ append_assoc front (replicate 32 0) _
      ∙ sym (as_front (replicate 32 0 ++ (e.payload ++ replicate (pad - record_size e) 0)))
    where
      split :
          segment_file id base n es (replicate pad 0)
          ≡ (front ++ replicate 32 0)
            ++ (replicate (length e.payload) 0 ++ replicate (pad - record_size e) 0)
      split =
          as_front (replicate pad 0)
          ∙ ap (◌++◌ front) (
              replicate-split 32 pad (omega arith)
              ∙ ap (◌++◌ (replicate 32 0)) (
                  replicate-split (length e.payload) (pad - 32) (omega arith)
                  ∙ ap (λ k. replicate (length e.payload) 0 ++ replicate k 0) (omega arith)))
          ∙ sym (
              append_assoc front (replicate 32 0)
                (replicate (length e.payload) 0 ++ replicate (pad - record_size e) 0))

  pub store_header-bytes :
      (pad : ℕ)
      → overwrite (40 + total es) (record_header (base + total es) e.timestamp e.payload) (torn pad)
        ≡ segment_file id base n (es ++ (e ∷ [])) (replicate (pad - record_size e) 0)
  store_header-bytes pad =
      ap (overwrite (40 + total es) header) (as_front (replicate 32 0 ++ behind))
      ∙ overwrite_lem (40 + total es) front (replicate 32 0) header behind length-front
          (sym (length-record_header (base + total es) e.timestamp e.payload))
      ∙ append_assoc (segment_header id base n) (encode base es) (header ++ behind)
      ∙ ap (λ xs. segment_header id base n ++ xs) joined
    where
      header : List ℕ
      header = record_header (base + total es) e.timestamp e.payload

      behind : List ℕ
      behind = e.payload ++ replicate (pad - record_size e) 0

      joined :
          encode base es ++ (header ++ behind)
          ≡ encode base (es ++ (e ∷ [])) ++ replicate (pad - record_size e) 0
      joined =
          ap (◌++◌ (encode base es))
            (sym (append_assoc header e.payload (replicate (pad - record_size e) 0)))
          ∙ sym (
              append_assoc (encode base es) (header ++ e.payload)
                (replicate (pad - record_size e) 0))
          ∙ ap (λ xs. xs ++ replicate (pad - record_size e) 0) (sym (encode-append base es e))
