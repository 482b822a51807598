-- ===== src/Storage/Sessions/History.antt =====
-- Histories of requests to the login service.
use lite_nvr.Storage.Sessions.Cache.{
  delete_expired-Coherent, revoke_user-Coherent, revoke-Coherent, from_cache-Coherent,
  stored-Coherent, answer_lem, permitted, Coherent,
}
use lite_nvr.Common.{
  sym, subst, ◌∙◌, none, some, true, false, ◌==◌, leb, ltb, refl, ◌≤◌, ◌+◌, ◌*◌, ◌≡◌, Option,
  String, string_eq, List, [], ◌∷◌, ℕ,
}
use lite_nvr.Common.Dict.{lookup, insert, remove, lookup-insert, lookup-remove}
use lite_nvr.Storage.Sessions.{
  Session, Found, caches, cached_of, look_up, settle, from_cache, from_db, Auth, validate, revoke,
  revoke_user, delete_expired, create_session, day, session_ttl_days,
}

-- What the service does, with the time of the clock.
pub data Request : Type 0 where
  log_in : String → String → Request
  check : String → Request
  log_out : String → Request
  log_out_user : String → Option String → Request
  collect : Request

pub serve : ℕ → Auth → Request → Auth
serve now a (log_in token username) = create_session a token username now
serve now a (check token) = (validate a token now).1
serve now a (log_out token) = revoke a token
serve now a (log_out_user username except) = revoke_user a username except
serve now a collect = delete_expired a now

serve-Coherent :
    (clock now : ℕ) (a : Auth) (r : Request)
    → Coherent clock a
    → clock ≤ now
    → Coherent now (serve now a r)
unfolding serve create_session validate look_up
serve-Coherent clock now a (log_in t n) h le =
    stored-Coherent clock now a h le
      (record { token = t; username = n; expires_at = now + session_ttl_days * day })
serve-Coherent clock now a (check t) h le =
    from_cache-Coherent clock now a h le (lookup t a.cache) t refl
serve-Coherent clock now a (log_out t) h le = revoke-Coherent clock now a h le t
serve-Coherent clock now a (log_out_user n except) h le =
    revoke_user-Coherent clock now a h le n except
serve-Coherent clock now a collect h le = delete_expired-Coherent clock now a h le

-- Requests with their times, which do not go back.
abbrev pub Timed : ℕ → List (ℕ × Request) → Type 0
Timed clock [] = Unit
Timed clock ((now, r) ∷ rs) = (clock ≤ now) × Timed now rs

pub serve_all : Auth → List (ℕ × Request) → Auth
serve_all a [] = a
serve_all a ((now, r) ∷ rs) = serve_all (serve now a r) rs

abbrev pub last_time : ℕ → List (ℕ × Request) → ℕ
last_time clock [] = clock
last_time clock ((now, r) ∷ rs) = last_time now rs

serve_all-Coherent :
    (clock : ℕ) (a : Auth) (rs : List (ℕ × Request))
    → Coherent clock a
    → Timed clock rs
    → Coherent (last_time clock rs) (serve_all a rs)
unfolding serve_all
serve_all-Coherent clock a [] h t = h
serve_all-Coherent clock a ((now, r) ∷ rs) h t =
    serve_all-Coherent now (serve now a r) rs (serve-Coherent clock now a r h t.0) t.1

abbrev pub no_sessions : Auth
no_sessions = record { cache = []; db = [] }

-- After any requests, each handled to its end before the next, at times that do not go back, from no
-- sessions on: a validation at a later time names the user of the session that the database stores
-- under the token, if that has not expired at that time, and nobody otherwise. A session that was
-- logged out, or collected, is then never accepted from the cache.
pub validate_lem :
    (rs : List (ℕ × Request)) (token : String) (now : ℕ)
    → Timed 0 rs
    → last_time 0 rs ≤ now
    → let a = serve_all no_sessions rs in
      (validate a token now).0 ≡ permitted now (lookup token a.db)
unfolding validate look_up lookup
validate_lem rs token now t le =
    let a = serve_all no_sessions rs in
    let h =
      serve_all-Coherent 0 no_sessions rs
        (record { cache_once = tt; db_once = tt; agrees = λ token. tt }) t in
    answer_lem (last_time 0 rs) now a token (lookup token a.cache) (h.agrees token) le

-- When a session is in the database and not in the cache, and it is revoked while its validation
-- awaits the database: the validation puts it into the cache, and until it expires every further
-- validation names its user, although the database no longer has it.
pub revoked_between :
    (a : Auth) (token : String) (s : Session) (now now' : ℕ)
    → lookup token a.cache ≡ none
    → lookup token a.db ≡ some s
    → leb s.expires_at now ≡ false
    → ltb now' s.expires_at ≡ true
    → let found = look_up a token now in
      let a' = (settle token found.0 (revoke found.1 token)).1 in
      (lookup token a'.db ≡ none) × ((validate a' token now').0 ≡ some s.username)
unfolding revoke validate look_up from_cache from_db
revoked_between a token s now now' missed stored valid later =
    subst
      (λ (found : Found × Auth).
        let a' = (settle token found.0 (revoke found.1 token)).1 in
        (lookup token a'.db ≡ none) × ((validate a' token now').0 ≡ some s.username))
      (sym reached) (gone, named)
  where
    reached : look_up a token now ≡ (caches s, a)
    reached = rw (missed, stored, valid) refl

    here : (token == token) ≡ true
    here = (string_eq.hits_iff token token).1 refl

    gone : lookup token (remove token a.db) ≡ none
    gone = lookup-remove token token a.db ∙ rw here refl

    kept : lookup token (insert token (cached_of s) (remove token a.cache)) ≡ some (cached_of s)
    kept = lookup-insert token token (cached_of s) (remove token a.cache) ∙ rw here refl

    named : (validate (settle token (caches s) (revoke a token)).1 token now').0 ≡ some s.username
    named = rw (kept, later) refl
