-- ===== src/Switcher/Runs.antt =====
-- Two cameras.
use lite_nvr.Switcher.Frames.{
  switch_between, program_run-Clean, Clean, Serial, then_frame, then_switch, nothing_left,
}
use lite_nvr.Common.{
  string_eq, Bool, List, String, refl, none, true, false, [], ◌∷◌, ◌++◌, ok, ◌≡◌, ◌≢◌,
}
use lite_nvr.Switcher.{
  set_active, set_flag, push, ProgramStep, let_through, Program, TaggedFrame, start, program_run,
  switch, checks, pushes,
}

abbrev both_start : String → Bool
both_start id = true

abbrev door : TaggedFrame
door = record { source_id = "door"; video = true }

abbrev yard : TaggedFrame
yard = record { source_id = "yard"; video = true }

abbrev first : Program
first = record {
  ids = "door" ∷ "yard" ∷ [];
  active = "door";
  force_idr = true;
  held = none;
  pushed = [];
}

begins : start both_start ("door" ∷ "yard" ∷ []) ≡ ok first
unfolding start
begins = refl

abbrev both_ids : List String
both_ids = "door" ∷ "yard" ∷ []

abbrev of_yard : List ProgramStep
of_yard = checks yard ∷ pushes ∷ checks yard ∷ pushes ∷ []

abbrev evening : List ProgramStep
evening =
    checks door
    ∷ pushes
    ∷ checks yard
    ∷ pushes
    ∷ checks door
    ∷ pushes
    ∷ ((switch both_ids "yard").1 ++ of_yard)

run_evening :
    (program_run evening first).pushed
    ≡ ("yard", false) ∷ ("yard", true) ∷ ("door", false) ∷ ("door", true) ∷ []
unfolding program_run switch
run_evening = refl

evening-Serial : Serial both_ids evening
evening-Serial = then_frame door _ (
    then_frame yard _ (
      then_frame door _
        (then_switch "yard" of_yard (then_frame yard _ (then_frame yard _ nothing_left)))))

program_run-Clean_example : Clean (program_run evening first).pushed
program_run-Clean_example =
    program_run-Clean both_start ("door" ∷ "yard" ∷ []) evening first begins evening-Serial

two_names : ◌≢◌ {A = String} "door" "yard"
two_names h = no ((string_eq.hits_iff "door" "yard").1 h)
  where
    no : false ≡ true → ⊥
    no e = cc

switch_between_example :
    let let_in = let_through (record { source_id = "door"; video = true }) first in
    let switched = push (set_flag (set_active "yard" let_in)) in
    let after = push (let_through (record { source_id = "yard"; video = true }) switched) in
    (after.pushed ≡ ("yard", false) ∷ ("door", true) ∷ []) × (¬ (Clean after.pushed))
switch_between_example = switch_between first "yard" two_names
