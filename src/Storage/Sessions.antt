-- ===== src/Storage/Sessions.antt =====
-- nvr-db/src/session.rs and nvr/src/auth.rs: login sessions in the database, under a cache. The
-- database's calls are taken to succeed. A validation is cut at
-- its await of the database; the other operations are one step each. The JSON values are the
-- records that they stand for.
pub mod Cache
pub mod History
mod Runs
use lite_nvr.Common.{
  ◌+◌, ◌*◌, String, string_eq, Bool, true, false, Option, none, some, List, [], ◌==◌, not, ◌||◌,
  ◌&&◌, ltb, leb, if◌then◌else◌, ℕ,
}
use lite_nvr.Common.Dict.{Dict, lookup, insert, remove, keep_where}

-- Times are nanoseconds.
pub record Session : Type 0 where
  pub token : String
  pub username : String
  pub expires_at : ℕ

pub record CachedSession : Type 0 where
  pub username : String
  pub expires_at : ℕ

pub record Auth : Type 0 where
  pub cache : Dict String CachedSession
  pub db : Dict String Session

pub session_ttl_days : ℕ
session_ttl_days = 30

abbrev pub day : ℕ
day = 86_400_000_000_000

abbrev pub cached_of : Session → CachedSession
cached_of s = record { username = s.username; expires_at = s.expires_at }

abbrev pub stored : Auth → Session → Auth
stored a s = record { cache = insert s.token (cached_of s) a.cache; db = insert s.token s a.db }

-- The token is a new one.
pub create_session : Auth → String → String → ℕ → Auth
unfolding session_ttl_days
create_session a token username now =
    stored a
      (record { token = token; username = username; expires_at = now + session_ttl_days * day })

pub revoke : Auth → String → Auth
revoke a token = record { cache = remove token a.cache; db = remove token a.db }

abbrev pub is_spared : Option String → String → Bool
is_spared none token = false
is_spared (some t) token = token == t

pub revoke_user : Auth → String → Option String → Auth
revoke_user a username except = record {
  cache = keep_where (λ token c. not (c.username == username) || is_spared except token) a.cache;
  db = keep_where (λ token s. not (s.username == username && not (is_spared except token))) a.db;
}

pub delete_expired : Auth → ℕ → Auth
delete_expired a now = record a { db = keep_where (λ token s. not (leb s.expires_at now)) a.db }

-- How far a validation gets without its last step: it has its answer, or a session of the database
-- to put into the cache.
pub data Found : Type 0 where
  answers : Option String → Found
  caches : Session → Found

-- On a miss: what the database says.
pub from_db : Option Session → Auth → String → ℕ → Found × Auth
from_db none a token now = (answers none, a)
from_db (some s) a token now =
    if leb s.expires_at now
    then (answers none, record a { db = remove token a.db })
    else (caches s, a)

pub from_cache : Option CachedSession → Auth → String → ℕ → Found × Auth
unfolding from_db revoke
from_cache none a token now = from_db (lookup token a.db) a token now
from_cache (some c) a token now =
    if ltb now c.expires_at then (answers (some c.username), a) else (answers none, revoke a token)

-- `validate` up to the database's answer, which it awaits, and its last step.
pub look_up : Auth → String → ℕ → Found × Auth
unfolding from_cache
look_up a token now = from_cache (lookup token a.cache) a token now

abbrev pub settle : String → Found → Auth → Option String × Auth
settle token (answers o) a = (o, a)
settle token (caches s) a =
    (some s.username, record a { cache = insert token (cached_of s) a.cache })

-- The two with nothing in between.
pub validate : Auth → String → ℕ → Option String × Auth
unfolding look_up
validate a token now = let found = look_up a token now in settle token found.0 found.1
