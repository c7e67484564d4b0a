-- ===== src/Storage/History/Grow.antt =====
-- `append` as a step of the history, on both of its paths.
use io_t_delivery_fleet_moni.Prelude.{
  ℕ, suc, ◌+◌, ◌^◌, ◌≤◌, ◌<◌, ◌≡◌, ap, sym, subst, ◌∙◌, List, [], ◌∷◌, ◌++◌, length, arith,
  if◌then◌else◌, leb, inl, inr, Bool-cases, leb→le,
}
use io_t_delivery_fleet_moni.Storage.Codec.{segment_header_size, maximum_segment_id}
use io_t_delivery_fleet_moni.Storage.Format.{ok}
use io_t_delivery_fleet_moni.Storage.Scan.Records.{Entry, total, record_size}
use io_t_delivery_fleet_moni.Storage.Log.{
  Mapping, MemoryMappedLog, LogCalls, Ran, write_record, append, with_segment,
}
use io_t_delivery_fleet_moni.Storage.History.{History, size_of, Represents}
use io_t_delivery_fleet_moni.Storage.History.Files.{size_of-append}
use io_t_delivery_fleet_moni.Storage.History.RollOver.{
  IsUp, rolled, roll_over_lem, rolled-Represents,
}
use io_t_delivery_fleet_moni.Storage.History.Append.{write_record-Represents, write_record-offset}

-- The history behind an append: in the active segment if the record fits there, else in a new one.
abbrev pub grow : ℕ → History → List Entry → Entry → History × List Entry
grow n front last e =
    if leb (segment_header_size + total last + record_size e) n
    then (front, last ++ (e ∷ []))
    else (front ++ (last ∷ []), e ∷ [])

module _ (c : ℕ) (front : History) (last : List Entry) (log : MemoryMappedLog) (calls : LogCalls)
    (e : Entry) (v : Represents c front last log) where
  size-eq : log.active.size ≡ log.segment_size
  size-eq = ap (λ (a : Mapping). a.size) v.active

  position-eq : log.active.write_position ≡ segment_header_size + total last
  position-eq = ap (λ (a : Mapping). a.write_position) v.active

  id-eq : log.active.segment_id ≡ suc (length front)
  id-eq = ap (λ (a : Mapping). a.segment_id) v.active

  pub append_in_place :
      length e.payload < 2 ^ 32
      → size_of front + total last + record_size e < 2 ^ 64
      → segment_header_size + total last + record_size e ≤ log.segment_size
      → append calls e.timestamp e.payload log ≡ write_record e.payload e.timestamp log
  unfolding append
  append_in_place short offset_room room =
      ground (arith, v.opened, v.small, v.offset, size-eq, position-eq)

  module _ (up : IsUp calls) (more : suc (length front) < maximum_segment_id)
      (timely : e.timestamp < 2 ^ 64) (short : length e.payload < 2 ^ 32)
      (offset_room : size_of front + total last + record_size e < 2 ^ 64)
      (fits : segment_header_size + record_size e ≤ log.segment_size) where
    append_after_roll :
        log.segment_size < segment_header_size + total last + record_size e
        → append calls e.timestamp e.payload log
          ≡ write_record e.payload e.timestamp (rolled c front last log calls v up more)
    unfolding append
    append_after_roll full =
        rw (roll_over_lem c front last log calls v up more)
          (ground (arith, v.opened, v.small, v.offset, size-eq, position-eq, id-eq))

    abbrev Grown : History → List Entry → Type 0
    Grown front' last' =
        ((append calls e.timestamp e.payload log).0 ≡ ok (size_of front + total last))
        × Represents c front' last' (append calls e.timestamp e.payload log).1

    Grown-in_place :
        segment_header_size + total last + record_size e ≤ log.segment_size
        → Grown front (last ++ (e ∷ []))
    Grown-in_place room =
        let eq = append_in_place short offset_room room in
        (
          ap (λ (r : Ran ℕ). r.0) eq
              ∙ write_record-offset c front last log e v timely short offset_room room,
          subst (λ (r : Ran ℕ). Represents c front (last ++ (e ∷ [])) r.1) (sym eq)
              (write_record-Represents c front last log e v timely short offset_room room),
        )

    Grown-after_roll :
        log.segment_size < segment_header_size + total last + record_size e
        → Grown (front ++ (last ∷ [])) (e ∷ [])
    unfolding with_segment
    Grown-after_roll full =
        let eq = append_after_roll full in
        let next = rolled c front last log calls v up more in
        let r = rolled-Represents c front last log calls v up more in
        let room : size_of (front ++ (last ∷ [])) + 0 + record_size e < 2 ^ 64 =
          omega (arith, size_of-append front last) in
        let fits' : 40 + 0 + record_size e ≤ next.segment_size = omega arith in
        (
          ap (λ (r : Ran ℕ). r.0) eq
              ∙ write_record-offset c (front ++ (last ∷ [])) [] next e r timely short room fits'
              ∙ ap ok (omega (arith, size_of-append front last)),
          subst (λ (r : Ran ℕ). Represents c (front ++ (last ∷ [])) (e ∷ []) r.1) (sym eq)
              (write_record-Represents c (front ++ (last ∷ [])) [] next e r timely short room
                fits'),
        )

    -- On an open log that represents a history, `append` of a payload that fits an empty segment
    -- returns the offset behind all earlier records, and the log then represents the history with
    -- this entry at its end: in the active segment if there is room, else alone in a new segment.
    -- The conditions: the system calls succeed, there is a segment id left, and the clock, the payload
    -- and the new offset fit their fields.
    pub append-Represents :
        let g = grow log.segment_size front last e in
        let out = append calls e.timestamp e.payload log in
        (out.0 ≡ ok (size_of front + total last)) × Represents c g.0 g.1 out.1
    append-Represents =
        elim (Bool-cases
          (leb (segment_header_size + total last + record_size e) log.segment_size)) [
            | inl room ↦ rw room (Grown-in_place (leb→le _ _ room))
            | inr full ↦ rw full (Grown-after_roll (ground arith))
          ]
