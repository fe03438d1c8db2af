-- ===== src/Graph/Examples.antt =====
-- Segments, intervals and the cover index on concrete inputs.
use finance_context_builder.Base.{
  ℕ, ◌≡◌, refl, Bool, ◌&&◌, List, [], ◌∷◌, leb, min, max, arith, some,
}
use finance_context_builder.Base.Eq.{nat_eq, list_eq, pair_eq}
use finance_context_builder.Base.Text.{Text}
use finance_context_builder.Formulas.Spans.{covers}
use finance_context_builder.Formulas.RangeNodes.{RangeNode}
use finance_context_builder.Graph.Segments.{cover, Ascending, cover_lem}
use finance_context_builder.Graph.Intervals.{Item, build, covering, sort_items}
use finance_context_builder.Graph.Intervals.Queries.{payloads, covering-build}
use finance_context_builder.Graph.CoverIndex.{cover_index, covering_nodes}
use finance_context_builder.Graph.CoverIndex.Queries.{tally, containing, covering_nodes-tally}

segments : cover 0 7 2 6 ≡ (2, 3) ∷ (4, 5) ∷ (6, 6) ∷ []
unfolding cover
segments = refl

cover_lem_example :
    Ascending 0 (cover 0 7 2 6)
    × ((row : ℕ) → covers (cover 0 7 2 6) row ≡ (leb (max 0 2) row && leb row (min 7 6)))
cover_lem_example = cover_lem 0 7 2 6 (omega arith) (omega arith)

abbrev items : List (Item ℕ)
items = (5, 9, 1) ∷ (1, 6, 2) ∷ (7, 7, 3) ∷ []

intervals : covering (build items) 6 ≡ some (2 ∷ 1 ∷ [])
unfolding covering build
intervals = refl

covering-build_example : covering (build items) 6 ≡ some (payloads 6 (sort_items items))
covering-build_example = covering-build items 6

abbrev sheet : Text
sheet = b'S' ∷ []

abbrev block : RangeNode
block = record { node_id = sheet; sheet = sheet; c1 = 2; c2 = 3; r1 = 1; r2 = 9 }

abbrev band : RangeNode
band = record { node_id = sheet; sheet = sheet; c1 = 1; c2 = 90; r1 = 4; r2 = 5 }

abbrev nodes : List RangeNode
nodes = block ∷ band ∷ []

covering_nodes-tally_example :
    (found : List RangeNode) × (covering_nodes (cover_index nodes) sheet 3 4 ≡ some found)
    × ((p : RangeNode → Bool) → tally p found ≡ tally p (containing nodes sheet 3 4))
covering_nodes-tally_example = covering_nodes-tally nodes sheet 3 4
