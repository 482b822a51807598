-- ===== src/Gb/Ssrc/Runs.antt =====
-- Calls of a generator at concrete values.
use lite_nvr.Common.{[], ◌∷◌, ◌≡◌, length, arith}
use lite_nvr.Gb.Ssrc.{SsrcGenerator, live, playback, new}
use lite_nvr.Gb.Ssrc.Unique.{new-IsGenerator, issue, issue-Distinct, Distinct}

abbrev no_platform : SsrcGenerator
no_platform = new []

issue-Distinct_example :
    Distinct (issue no_platform (live ∷ playback ∷ live ∷ []))
    × (length (issue no_platform (live ∷ playback ∷ live ∷ [])) ≡ 3)
issue-Distinct_example =
    issue-Distinct no_platform (live ∷ playback ∷ live ∷ []) (new-IsGenerator []) (omega arith)
