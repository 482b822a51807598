-- ===== src/Switcher/Frames.antt =====
-- program.rs: where the program changes its source.
use lite_nvr.Switcher.{
  switch_if, checks, pushes, TaggedFrame, started, start_sources, no_source, StartError, start,
  contains, set_active, set_flag, push, let_through, ProgramStep, switch, push_one, program_step,
  Program, program_run,
}
use lite_nvr.Common.{
  Result, subst, Bool, List, String, refl, sym, ap, none, some, true, false, [], ◌∷◌, ◌++◌, ok, err,
  string_eq, if◌then◌else◌, ◌==◌, ◌≡◌, ◌≢◌, ◌⊎◌, inl, inr, Bool-cases,
}

-- The frame before is of the source.
unfoldable pub Follows : String → List (String × Bool) → Type 0
Follows id [] = ⊥
Follows id ((before, idr) ∷ rest) = before ≡ id

-- A frame that does not follow one of its source is an IDR.
unfoldable pub Clean : List (String × Bool) → Type 0
Clean [] = Unit {0}
Clean ((id, idr) ∷ rest) = ((idr ≡ true) ⊎ Follows id rest) × Clean rest

-- Nothing is held, and without the flag the last frame is of the active source.
record Ready (p : Program) : Type 0 where
  free : p.held ≡ none
  clean : Clean p.pushed
  same : p.force_idr ≡ false → Follows p.active p.pushed

push_one-Ready : (p : Program) → Ready p → Ready (push_one (some p.active) p)
unfolding Clean Follows
push_one-Ready p r = record {
  free = refl;
  clean = (flagged p.force_idr refl, r.clean);
  same = λ h. refl;
}
  where
    flagged : (b : Bool) → p.force_idr ≡ b → (p.force_idr ≡ true) ⊎ Follows p.active p.pushed
    flagged true e = inl e
    flagged false e = inr (r.same e)

-- The steps of whole switches and whole frames: no frame is handled between the two writes of a
-- switch, and no write falls between the check of a frame and its push.
pub data Serial (ids : List String) : List ProgramStep → Type 0 where
  nothing_left : Serial ids []
  then_switch :
      (id : String) (es : List ProgramStep) → Serial ids es → Serial ids ((switch ids id).1 ++ es)
  then_frame :
      (f : TaggedFrame) (es : List ProgramStep)
      → Serial ids es
      → Serial ids (checks f ∷ pushes ∷ es)

switch-Ready : (id : String) (p : Program) → Ready p → Ready (set_flag (set_active id p))
switch-Ready id p r = record { free = r.free; clean = r.clean; same = λ h. absurd (no h) }
  where
    no : true ≡ false → ⊥
    no h = cc

frame-Ready : (f : TaggedFrame) (p : Program) → Ready p → Ready (push (let_through f p))
unfolding let_through push
frame-Ready f p r = at (Bool-cases (p.active == f.source_id)) (f.video)
  where
    idle : Ready (push_one p.held p)
    idle = subst (λ o. Ready (push_one o p)) (sym r.free) r

    shown :
        (b : Bool)
        → f.source_id ≡ p.active
        → Ready (push (if b then record p { held = some f.source_id } else p))
    shown true e =
        subst (λ id. Ready (push (record p { held = some id }))) (sym e) (push_one-Ready p r)
    shown false e = idle

    at :
        ((p.active == f.source_id) ≡ true) ⊎ ((p.active == f.source_id) ≡ false)
        → (b : Bool)
        → Ready (
            push (
              if p.active == f.source_id
              then if b then record p { held = some f.source_id } else p
              else p))
    at (inl y) b = rw y (shown b (sym ((string_eq.hits_iff p.active f.source_id).0 y)))
    at (inr n) b = rw n idle

run-Ready :
    (ids : List String) (es : List ProgramStep) (p : Program)
    → Serial ids es
    → Ready p
    → Ready (program_run es p)
unfolding program_run program_step switch
run-Ready ids _ p nothing_left r = r
run-Ready ids _ p (then_switch id es s) r =
    at (contains ids id) (run-Ready ids es (set_flag (set_active id p)) s (switch-Ready id p r))
      (run-Ready ids es p s r)
  where
    at :
        (b : Bool)
        → Ready (program_run es (set_flag (set_active id p)))
        → Ready (program_run es p)
        → Ready (program_run ((switch_if b id).1 ++ es) p)
    at true switched same = switched
    at false switched same = same
run-Ready ids _ p (then_frame f es s) r =
    run-Ready ids es (push (let_through f p)) s (frame-Ready f p r)

started-Ready : (r : Result StartError (List String)) (p : Program) → started r ≡ ok p → Ready p
unfolding Clean
started-Ready (err e) p h = absurd (failed h)
  where
    failed : err e ≡ ok p → ⊥
    failed h = cc
started-Ready (ok []) p h = absurd (failed h)
  where
    failed : err no_source ≡ ok p → ⊥
    failed h = cc
started-Ready (ok (id ∷ ids)) p h =
    subst Ready (ok-injective _ p h) (record { free = refl; clean = tt; same = λ h. absurd (no h) })
  where
    no : true ≡ false → ⊥
    no h = cc

    value : Program → Result StartError Program → Program
    value d (ok a) = a
    value d (err e) = d

    ok-injective : (a b : Program) → ◌≡◌ {A = Result StartError Program} (ok a) (ok b) → a ≡ b
    ok-injective a b h = ap (value a) h

-- From the start of a switcher on, when no frame is handled between the two writes of a switch and
-- no write of a switch falls between the check of a frame and its push: every frame that the program
-- shows is of an IDR, or follows a frame of the same source.
pub program_run-Clean :
    (starts : String → Bool) (ids : List String) (es : List ProgramStep) (p : Program)
    → start starts ids ≡ ok p
    → Serial ids es
    → Clean (program_run es p).pushed
unfolding start
program_run-Clean starts ids es p h s = (run-Ready ids es p s (begun ids h)).clean
  where
    begun : (ids : List String) → start starts ids ≡ ok p → Ready p
    begun [] h = absurd (failed h)
      where
        failed : err no_source ≡ ok p → ⊥
        failed h = cc
    begun (id ∷ ids) h = started-Ready (start_sources starts [] (id ∷ ids)) p h

-- When a switch to another source falls between the check of a frame and its push, that frame takes
-- the flag, and the first frame of the new source is shown without an IDR.
pub switch_between :
    (p : Program) (b : String)
    → p.active ≢ b
    → let let_in = let_through (record { source_id = p.active; video = true }) p in
      let switched = push (set_flag (set_active b let_in)) in
      let after = push (let_through (record { source_id = b; video = true }) switched) in
      (after.pushed ≡ (b, false) ∷ (p.active, true) ∷ p.pushed) × (¬ (Clean after.pushed))
unfolding let_through push Clean Follows
switch_between p b other = (pushed, λ c. clash (subst Clean pushed c))
  where
    here : (s : String) → (s == s) ≡ true
    here s = (string_eq.hits_iff s s).1 refl

    no : false ≡ true → ⊥
    no h = cc

    clash : Clean ((b, false) ∷ (p.active, true) ∷ p.pushed) → ⊥
    clash c = either c.0
      where
        either : (false ≡ true) ⊎ (p.active ≡ b) → ⊥
        either (inl h) = no h
        either (inr h) = other h

    pushed :
        (push (
          let_through
            (record { source_id = b; video = true })
            (push (
              set_flag (
                set_active b
                  (let_through (record { source_id = p.active; video = true }) p)))))).pushed
        ≡ (b, false) ∷ (p.active, true) ∷ p.pushed
    pushed = rw (here p.active, here b) refl
