-- ===== src/Examples/Graphs.antt =====
-- The theorems on the ranking and the blast radius, at a concrete graph.

use abb_accelerator_submissi.Prelude.{
  ◌≡◌, ◌≤◌, length, lookup, put, refl, none, some, List, [], ◌∷◌, All, contains, IsSorted, text_key,
}
use abb_accelerator_submissi.Thousandths.{above, thousandths_float, Thousandths-IsRounded}
use abb_accelerator_submissi.Ranking.{
  Victim, Cause, build_graph, blast_radius, rank_root_causes, not_less_hit,
}
use abb_accelerator_submissi.Ranking.Blast.{blast_radius-IsHit, IsHit}
use abb_accelerator_submissi.Ranking.Order.{IsCandidate, rank_root_causes-IsCandidate}
use abb_accelerator_submissi.Examples.{T, plant_graph}

abbrev plant_victims : List (Victim T)
plant_victims =
    record { pod = "vision-1-b"; impact = above 560; eta_s = 5 }
    ∷ record { pod = "telemetry-1-c"; impact = above 352; eta_s = 15 }
    ∷ []

plant_blast : blast_radius plant_graph "analytics-1-a" ≡ some plant_victims
unfolding build_graph blast_radius contains
plant_blast = refl

blast_radius-IsHit_example :
    All (IsHit plant_graph "analytics-1-a") plant_victims × IsSorted not_less_hit plant_victims
blast_radius-IsHit_example =
    blast_radius-IsHit Thousandths-IsRounded plant_graph "analytics-1-a" plant_victims plant_blast

abbrev plant_causes : List (Cause T)
plant_causes =
    record { pod = "analytics-1-a"; score = above 743; onset_s = none }
    ∷ record { pod = "vision-1-b"; score = above 256; onset_s = none }
    ∷ []

plant_ranking :
    rank_root_causes plant_graph ("vision-1-b" ∷ "telemetry-1-c" ∷ []) [] ≡ some plant_causes
unfolding build_graph rank_root_causes contains lookup put
plant_ranking = refl

rank_root_causes-IsCandidate_example :
    (length plant_causes ≤ 3)
    × All (λ c. IsCandidate plant_graph ("vision-1-b" ∷ "telemetry-1-c" ∷ []) c.pod) plant_causes
rank_root_causes-IsCandidate_example =
    rank_root_causes-IsCandidate plant_graph ("vision-1-b" ∷ "telemetry-1-c" ∷ []) [] plant_causes
      plant_ranking
