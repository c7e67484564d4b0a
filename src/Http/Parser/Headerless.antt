-- ===== src/Http/Parser/Headerless.antt =====
-- A request of a request line alone.
use io_t_delivery_fleet_moni.Prelude.{
  ℕ, ◌+◌, ◌^◌, ◌≤◌, ◌<◌, ◌≡◌, refl, List, [], ◌∷◌, ◌++◌, true, false, ◌||◌, ltb, length, arith,
  le→ltb, le→leb, length-append, add64, sub64,
}
use io_t_delivery_fleet_moni.Http.Text.Find.{lacks, find-crlf, find-blank_line}
use io_t_delivery_fleet_moni.Http.Parser.{
  fail, missing_request_line, new_parser, parse_headers, feed_headers, feed,
}

-- A new parser refuses every request that has no header line between its request line and the
-- blank line, with the error "missing request line", be the request line well formed or not. The
-- conditions: the line holds no carriage return, it fits the header limit with the four bytes that
-- end it, and the sum of the limits fits 64 bits.
pub feed-headerless :
    (h b : ℕ) (line : List ℕ)
    → lacks 13 line ≡ true
    → length line + 4 ≤ h
    → h + b < 2 ^ 64
    → feed (new_parser h b) (line ++ (13 ∷ 10 ∷ 13 ∷ 10 ∷ []))
      ≡ fail missing_request_line
          (record (new_parser h b) { buffer = line ++ (13 ∷ 10 ∷ 13 ∷ 10 ∷ []) })
unfolding feed feed_headers parse_headers
feed-headerless h b line lack short small =
    rw
      (
        room,
        find-blank_line line [] lack,
        le→ltb h (length line + 4) short,
        find-crlf line (13 ∷ 10 ∷ []) lack,
        le→leb (length line) (length line) (omega arith),
      )
      refl
  where
    room :
        (ltb (add64 h b) 0 || ltb (sub64 (add64 h b) 0) (length (line ++ (13 ∷ 10 ∷ 13 ∷ 10 ∷ []))))
        ≡ false
    room = ground (arith, small, short, length-append line (13 ∷ 10 ∷ 13 ∷ 10 ∷ []))
