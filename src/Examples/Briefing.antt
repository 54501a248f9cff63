-- ===== src/Examples/Briefing.antt =====
-- Parts of a briefing.
use tuskbase.Common.{ℕ, List, [], ◌∷◌}
use tuskbase.Examples.World.{hundredth_float, world_store, kafka}
use tuskbase.App.Briefing.Trail.{context_supersessions}
use tuskbase.App.Briefing.Trail.Bounds.{Sound, context_supersessions-Sound}

context_supersessions-Sound_example :
    Sound 1 (context_supersessions world_store 1 (kafka ∷ kafka ∷ []) []).0
context_supersessions-Sound_example =
    context_supersessions-Sound world_store 1 (kafka ∷ kafka ∷ []) []

abbrev scores : List ℕ
scores = 30 ∷ 80 ∷ []
