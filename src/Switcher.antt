-- ===== src/Switcher.antt =====
-- crates/nvr-switcher: switcher.rs and program.rs, the program that shows one source at a time.
pub mod Frames
mod Runs
use lite_nvr.Common.{
  String, string_eq, Bool, true, false, Option, none, some, List, [], ◌∷◌, ◌++◌, if◌then◌else◌,
  ◌==◌, Result, ok, err,
}

-- A frame with its source; the program shows video only.
pub record TaggedFrame : Type 0 where
  pub source_id : String
  pub video : Bool

-- What the sink has been given: the source and whether the frame must be an IDR. `held` is the
-- frame that the loop has let through and not yet pushed. The newest push is the first.
pub record Program : Type 0 where
  pub ids : List String
  pub active : String
  pub force_idr : Bool
  pub held : Option String
  pub pushed : List (String × Bool)

abbrev pub contains : List String → String → Bool
contains [] id = false
contains (x ∷ xs) id = let rest = contains xs id in if x == id then true else rest

pub data StartError : Type 0 where
  no_source : StartError
  duplicate_id : String → StartError
  not_started : String → StartError

-- `starts` tells which source starts.
unfoldable pub start_sources :
    (String → Bool) → List String → List String → Result StartError (List String)
start_sources starts ids [] = ok ids
start_sources starts ids (id ∷ rest) =
    let others = start_sources starts (ids ++ (id ∷ [])) rest in
    if contains ids id
    then err (duplicate_id id)
    else if starts id
    then others
    else err (not_started id)

abbrev pub started : Result StartError (List String) → Result StartError Program
started (err e) = err e
started (ok []) = err no_source
started (ok (id ∷ ids)) =
    ok (record { ids = id ∷ ids; active = id; force_idr = true; held = none; pushed = [] })

unfoldable pub start : (String → Bool) → List String → Result StartError Program
unfolding start_sources
start starts [] = err no_source
start starts (id ∷ ids) = started (start_sources starts [] (id ∷ ids))

-- The two writes of a switch.
abbrev pub set_active : String → Program → Program
set_active id p = record p { active = id }

abbrev pub set_flag : Program → Program
set_flag p = record p { force_idr = true }

-- The loop up to the push: a frame of the active source is let through, if it is video.
unfoldable pub let_through : TaggedFrame → Program → Program
let_through f p =
    if p.active == f.source_id
    then if f.video then record p { held = some f.source_id } else p
    else p

-- The rest of the loop: the flag is taken, and the frame is pushed.
abbrev pub push_one : Option String → Program → Program
push_one none p = p
push_one (some id) p = record p {
  force_idr = false;
  held = none;
  pushed = (id, p.force_idr) ∷ p.pushed;
}

unfoldable pub push : Program → Program
push p = push_one p.held p

-- What the switching threads and the program's thread do, one access of the shared state after the
-- other.
pub data ProgramStep : Type 0 where
  writes_active : String → ProgramStep
  writes_flag : ProgramStep
  checks : TaggedFrame → ProgramStep
  pushes : ProgramStep

-- The answer of a switch, and its writes.
abbrev pub switch_if : Bool → String → Bool × List ProgramStep
switch_if true id = (true, writes_active id ∷ writes_flag ∷ [])
switch_if false id = (false, [])

unfoldable pub switch : List String → String → Bool × List ProgramStep
switch ids id = switch_if (contains ids id) id

unfoldable pub program_step : ProgramStep → Program → Program
unfolding let_through push
program_step (writes_active id) p = set_active id p
program_step writes_flag p = set_flag p
program_step (checks f) p = let_through f p
program_step pushes p = push p

unfoldable pub program_run : List ProgramStep → Program → Program
unfolding program_step
program_run [] p = p
program_run (e ∷ es) p = program_run es (program_step e p)
