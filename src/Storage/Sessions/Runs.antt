-- ===== src/Storage/Sessions/Runs.antt =====
-- A login service at concrete requests.
use lite_nvr.Common.{some, none, refl, ◌∷◌, [], ◌≡◌, List, ℕ, arith, string_eq}
use lite_nvr.Common.Dict.{lookup}
use lite_nvr.Storage.Sessions.{validate, Session, Auth, look_up, settle, revoke}
use lite_nvr.Storage.Sessions.Cache.{permitted}
use lite_nvr.Storage.Sessions.History.{
  Request, log_in, check, log_out_user, serve_all, no_sessions, validate_lem, revoked_between,
}

abbrev morning : List (ℕ × Request)
morning =
    (10, log_in "t1" "admin")
    ∷ (20, log_in "t2" "admin")
    ∷ (30, check "t2")
    ∷ (40, log_out_user "admin" (some "t1"))
    ∷ []

validate_lem_example :
    let a = serve_all no_sessions morning in
    (validate a "t2" 50).0 ≡ permitted 50 (lookup "t2" a.db)
validate_lem_example =
    validate_lem morning "t2" 50 (omega arith, (omega arith, (omega arith, (omega arith, tt))))
      (omega arith)

abbrev session : Session
session = record { token = "t1"; username = "admin"; expires_at = 100 }

abbrev restarted : Auth
restarted = record { cache = []; db = ("t1", session) ∷ [] }

is_missed : lookup "t1" restarted.cache ≡ none
unfolding lookup
is_missed = refl

is_stored : lookup "t1" restarted.db ≡ some session
unfolding lookup
is_stored = refl

revoked_between_example :
    let found = look_up restarted "t1" 10 in
    let a' = (settle "t1" found.0 (revoke found.1 "t1")).1 in
    (lookup "t1" a'.db ≡ none) × ((validate a' "t1" 20).0 ≡ some "admin")
revoked_between_example = revoked_between restarted "t1" session 10 20 is_missed is_stored refl refl
