-- ===== src/Content/Tests.antt =====
-- Ranges and slots at concrete inputs.
use storix.Base.{ℕ, ◌<◌, ◌≡◌, ◌↔◌, refl, none, some, List, [], ◌∷◌, ok, err, arith}
use storix.Content.Range.{
  matched, not_satisfiable, parse_range, Asks, Selects, IsInside, parse_range_lem,
}
use storix.Content.ArchiveGate.{
  Gate, Use, acquires, releases, use_gate, IsCounted, use_gate-IsCounted,
}

suffix_range : parse_range (matched none (some 4)) 10 ≡ ok (record { start = 6; end = 9 })
unfolding parse_range
suffix_range = refl

empty_file : parse_range (matched none (some 4)) 0 ≡ err not_satisfiable
unfolding parse_range
empty_file = refl

parse_range_lem_example :
    ((i : ℕ)
      → i < 10
      → Selects (parse_range (matched (some 3) (some 20)) 10) i
        ↔ Asks (matched (some 3) (some 20)) 10 i)
    × IsInside (parse_range (matched (some 3) (some 20)) 10) 10
parse_range_lem_example = parse_range_lem (matched (some 3) (some 20)) 10 (omega arith)

abbrev one_slot : Gate
one_slot = record { limit = 1; active = 0; released = [] }

abbrev uses : List Use
uses = acquires ∷ acquires ∷ releases 0 ∷ releases 0 ∷ acquires ∷ []

use_gate-IsCounted_example : IsCounted (use_gate uses one_slot)
use_gate-IsCounted_example = use_gate-IsCounted uses one_slot (refl, omega arith)
