-- ===== src/Http/Text/Find.antt =====
-- `find`, where the first byte of the pattern is known to occur only once so far.
use io_t_delivery_fleet_moni.Prelude.{
  ℕ, ◌≡◌, refl, List, [], ◌∷◌, ◌++◌, some, Bool, true, not, ◌&&◌, ◌==◌, length, arith,
}
use io_t_delivery_fleet_moni.Http.Text.{starts_with, find}

-- Is the byte absent from the text?
unfoldable pub lacks : ℕ → List ℕ → Bool
lacks c [] = true
lacks c (d ∷ text) = not (c == d) && lacks c text

find-lacks :
    (c : ℕ) (pattern text rest : List ℕ)
    → lacks c text ≡ true
    → starts_with (c ∷ pattern) (c ∷ rest) ≡ true
    → find (c ∷ pattern) (text ++ (c ∷ rest)) ≡ some (length text)
unfolding lacks find starts_with
find-lacks c pattern [] rest h e = rw e refl
find-lacks c pattern (d ∷ text) rest h e = ground (arith, find-lacks c pattern text rest)

pub find-crlf :
    (text rest : List ℕ)
    → lacks 13 text ≡ true
    → find (13 ∷ 10 ∷ []) (text ++ (13 ∷ 10 ∷ rest)) ≡ some (length text)
unfolding starts_with
find-crlf text rest h = find-lacks 13 (10 ∷ []) text (10 ∷ rest) h refl

pub find-blank_line :
    (text rest : List ℕ)
    → lacks 13 text ≡ true
    → find (13 ∷ 10 ∷ 13 ∷ 10 ∷ []) (text ++ (13 ∷ 10 ∷ 13 ∷ 10 ∷ rest)) ≡ some (length text)
unfolding starts_with
find-blank_line text rest h = find-lacks 13 (10 ∷ 13 ∷ 10 ∷ []) text (10 ∷ 13 ∷ 10 ∷ rest) h refl
