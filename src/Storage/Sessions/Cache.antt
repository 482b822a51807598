-- ===== src/Storage/Sessions/Cache.antt =====
use lite_nvr.Common.Dict.{kept_if, lookup, UniqueKeys}
use lite_nvr.Common.{Bool}
use lite_nvr.Common.Dict.{keep_where-UniqueKeys, lookup-keep_where, insert, remove}
use lite_nvr.Storage.Sessions.{from_db, from_cache}
use lite_nvr.Common.{◌==◌, not, ◌||◌, ◌&&◌, ap}
use lite_nvr.Common.Dict.{
  lookup, lookup-insert, lookup-remove, insert-UniqueKeys, remove-UniqueKeys,
}
use lite_nvr.Storage.Sessions.{stored, cached_of, revoke, revoke_user, delete_expired, is_spared}
use lite_nvr.Common.{
  ◌∙◌, ◌≡◌, ◌≤◌, sym, subst, refl, Bool-cases, inl, inr, true, false, arith, ltb, leb,
  if◌then◌else◌, string_eq, none, some, Option, String, ℕ,
}
use lite_nvr.Common.{string_eq, none, leb, ◌≡◌, if◌then◌else◌, ◌≤◌, some, String, Option, ℕ}
use lite_nvr.Storage.Sessions.{
  revoke, cached_of, from_db, CachedSession, Session, Auth, from_cache, Found, answers, caches,
  settle,
}

-- The cache is invisible: a validation says what the database says.

-- Whose session it is, if it has not expired.
abbrev pub permitted : ℕ → Option Session → Option String
permitted now none = none
permitted now (some s) = if leb s.expires_at now then none else some s.username

-- A validation whose last step follows at once.
abbrev pub whole : String → Found × Auth → Option String × Auth
whole token found = settle token found.0 found.1

-- A cached session is the stored one; if none is stored, it has expired.
abbrev pub Agree : ℕ → Option CachedSession → Option Session → Type 0
Agree clock none o = Unit
Agree clock (some c) (some s) = cached_of s ≡ c
Agree clock (some c) none = c.expires_at ≤ clock

pub record Coherent (clock : ℕ) (a : Auth) : Type 0 where
  pub cache_once : UniqueKeys a.cache
  pub db_once : UniqueKeys a.db
  pub agrees : (token : String) → Agree clock (lookup token a.cache) (lookup token a.db)

Agree-le :
    (clock now : ℕ) (c : Option CachedSession) (s : Option Session)
    → clock ≤ now
    → Agree clock c s
    → Agree now c s
Agree-le clock now none s le h = h
Agree-le clock now (some c) (some s) le h = h
Agree-le clock now (some c) none le h = omega (arith, le, h)

Agree-subst :
    (clock : ℕ) {c d : Option CachedSession} {s t : Option Session}
    → c ≡ d
    → s ≡ t
    → Agree clock d t
    → Agree clock c s
Agree-subst clock {c = c} {t = t} e f h =
    subst (λ y. Agree clock c y) (sym f) (subst (λ x. Agree clock x t) (sym e) h)

leb_of_le : (a b : ℕ) → a ≤ b → leb a b ≡ true
leb_of_le a b h = ground arith

hit_answer :
    (clock now : ℕ) (a : Auth) (token : String) (c : CachedSession) (o : Option Session)
    → Agree clock (some c) o
    → clock ≤ now
    → (whole token (from_cache (some c) a token now)).0 ≡ permitted now o
unfolding from_cache
hit_answer clock now a token c (some s) h le =
    subst (λ d. (whole token (from_cache (some d) a token now)).0 ≡ permitted now (some s)) h
      (elim (Bool-cases (leb s.expires_at now)) [
        | inl e ↦ rw (e, late now s.expires_at e) refl
        | inr e ↦ rw (e, early now s.expires_at e) refl
      ])
  where
    late : (n e : ℕ) → leb e n ≡ true → ltb n e ≡ false
    late n e h = ground arith

    early : (n e : ℕ) → leb e n ≡ false → ltb n e ≡ true
    early n e h = ground arith
hit_answer clock now a token c none h le = rw (late now c.expires_at (omega (arith, h, le))) refl
  where
    late : (n e : ℕ) → e ≤ n → ltb n e ≡ false
    late n e h = ground arith

miss_answer :
    (now : ℕ) (a : Auth) (token : String) (o : Option Session)
    → (whole token (from_db o a token now)).0 ≡ permitted now o
unfolding from_db
miss_answer now a token none = refl
miss_answer now a token (some s) = elim (Bool-cases (leb s.expires_at now)) [
  | inl e ↦ rw e refl
  | inr e ↦ rw e refl
]

pub answer_lem :
    (clock now : ℕ) (a : Auth) (token : String) (o : Option CachedSession)
    → Agree clock o (lookup token a.db)
    → clock ≤ now
    → (whole token (from_cache o a token now)).0 ≡ permitted now (lookup token a.db)
unfolding from_cache
answer_lem clock now a token none h le = miss_answer now a token (lookup token a.db)
answer_lem clock now a token (some c) h le = hit_answer clock now a token c (lookup token a.db) h le

le_of_leb : (a b : ℕ) → leb a b ≡ true → a ≤ b
le_of_leb a b h = ground arith

module _ (clock now : ℕ) (a : Auth) (h : Coherent clock a) (le : clock ≤ now) where
  later : (token : String) → Agree now (lookup token a.cache) (lookup token a.db)
  later token = Agree-le clock now (lookup token a.cache) (lookup token a.db) le (h.agrees token)

  pub stored-Coherent : (s : Session) → Coherent now (stored a s)
  stored-Coherent s = record {
    cache_once = insert-UniqueKeys s.token (cached_of s) a.cache h.cache_once;
    db_once = insert-UniqueKeys s.token s a.db h.db_once;
    agrees = λ token.
        Agree-subst now (lookup-insert token s.token (cached_of s) a.cache)
          (lookup-insert token s.token s a.db)
          (elim (s.token == token)
            as (λ b.
              Agree now (if b then some (cached_of s) else lookup token a.cache)
                (if b then some s else lookup token a.db)) [ true ↦ refl | false ↦ later token ]);
  }

  pub revoke-Coherent : (t : String) → Coherent now (revoke a t)
  unfolding revoke
  revoke-Coherent t = record {
    cache_once = remove-UniqueKeys t a.cache h.cache_once;
    db_once = remove-UniqueKeys t a.db h.db_once;
    agrees = λ token.
        Agree-subst now (lookup-remove token t a.cache) (lookup-remove token t a.db)
          (elim (t == token)
            as (λ b.
              Agree now (if b then none else lookup token a.cache)
                (if b then none else lookup token a.db)) [ true ↦ tt | false ↦ later token ]);
  }

  both :
      (u p : Bool) (s : Session)
      → Agree now
          (if not u || p then some (cached_of s) else none)
          (if not (u && not p) then some s else none)
  both true true s = refl
  both true false s = tt
  both false p s = refl

  expired_le :
      (s : Session) (c : CachedSession)
      → cached_of s ≡ c
      → leb s.expires_at now ≡ true
      → c.expires_at ≤ now
  expired_le s c g e = subst (λ d. d.expires_at ≤ now) g (le_of_leb s.expires_at now e)

  spared_agree :
      (n : String) (except : Option String) (token : String) (c : Option CachedSession)
      (s : Option Session)
      → Agree now c s
      → Agree now
          (kept_if (λ k c. not (c.username == n) || is_spared except k) token c)
          (kept_if (λ k s. not (s.username == n && not (is_spared except k))) token s)
  unfolding kept_if
  spared_agree n except token none s g = tt
  spared_agree n except token (some c) none g =
      elim (Bool-cases (not (c.username == n) || is_spared except token)) [
        | inl e ↦ rw e g
        | inr e ↦ rw e tt
      ]
  spared_agree n except token (some c) (some s) g =
      subst
        (λ d.
          Agree now (if not (d.username == n) || is_spared except token then some d else none)
            (if not (s.username == n && not (is_spared except token)) then some s else none))
        g (both (s.username == n) (is_spared except token) s)

  collected_agree :
      (token : String) (c : Option CachedSession) (s : Option Session)
      → Agree now c s
      → Agree now c (kept_if (λ k s. not (leb s.expires_at now)) token s)
  unfolding kept_if
  collected_agree token none s g = tt
  collected_agree token (some c) none g = g
  collected_agree token (some c) (some s) g = elim (Bool-cases (leb s.expires_at now)) [
    | inl e ↦ rw e (expired_le s c g e)
    | inr e ↦ rw e g
  ]

  pub revoke_user-Coherent :
      (n : String) (except : Option String) → Coherent now (revoke_user a n except)
  unfolding revoke_user
  revoke_user-Coherent n except =
      let in_cache : String → CachedSession → Bool =
        λ k c. not (c.username == n) || is_spared except k in
      let in_db : String → Session → Bool =
        λ k s. not (s.username == n && not (is_spared except k)) in
      record {
        cache_once = keep_where-UniqueKeys in_cache a.cache h.cache_once;
        db_once = keep_where-UniqueKeys in_db a.db h.db_once;
        agrees = λ token.
            Agree-subst now (lookup-keep_where in_cache token a.cache h.cache_once)
              (lookup-keep_where in_db token a.db h.db_once)
              (spared_agree n except token (lookup token a.cache) (lookup token a.db)
                (later token));
      }

  pub delete_expired-Coherent : Coherent now (delete_expired a now)
  unfolding delete_expired
  delete_expired-Coherent =
      let stays : String → Session → Bool = λ k s. not (leb s.expires_at now) in
      record {
        cache_once = h.cache_once;
        db_once = keep_where-UniqueKeys stays a.db h.db_once;
        agrees = λ token.
            Agree-subst now refl (lookup-keep_where stays token a.db h.db_once)
              (collected_agree token (lookup token a.cache) (lookup token a.db) (later token));
      }

  same-Coherent : Coherent now a
  same-Coherent = record { cache_once = h.cache_once; db_once = h.db_once; agrees = later }

  from_db-Coherent :
      (o : Option Session) (t : String)
      → lookup t a.cache ≡ none
      → lookup t a.db ≡ o
      → Coherent now (whole t (from_db o a t now)).1
  unfolding from_db
  from_db-Coherent none t e f = same-Coherent
  from_db-Coherent (some s) t e f =
      let either : Bool → Found × Auth =
        λ b. if b then (answers none, record a { db = remove t a.db }) else (caches s, a) in
      elim (leb s.expires_at now) as (λ b. Coherent now (whole t (either b)).1) [
        | true ↦ record {
          cache_once = h.cache_once;
          db_once = remove-UniqueKeys t a.db h.db_once;
          agrees = λ token. elim (Bool-cases (t == token)) [
            | inl y ↦
                let gone =
                  ap (λ k. lookup k a.cache) (sym ((string_eq.hits_iff t token).0 y)) ∙ e in
                Agree-subst now gone refl tt
            | inr n ↦
                let kept : lookup token (remove t a.db) ≡ lookup token a.db =
                  lookup-remove token t a.db ∙ rw n refl in
                Agree-subst now refl kept (later token)
          ];
        }
        | false ↦ record {
          cache_once = insert-UniqueKeys t (cached_of s) a.cache h.cache_once;
          db_once = h.db_once;
          agrees = λ token. elim (Bool-cases (t == token)) [
            | inl y ↦
                let found = ap (λ k. lookup k a.db) (sym ((string_eq.hits_iff t token).0 y)) ∙ f in
                let cached : lookup token (insert t (cached_of s) a.cache) ≡ some (cached_of s) =
                  lookup-insert token t (cached_of s) a.cache ∙ rw y refl in
                Agree-subst now cached found refl
            | inr n ↦
                let kept : lookup token (insert t (cached_of s) a.cache) ≡ lookup token a.cache =
                  lookup-insert token t (cached_of s) a.cache ∙ rw n refl in
                Agree-subst now kept refl (later token)
          ];
        }
      ]

  pub from_cache-Coherent :
      (o : Option CachedSession) (t : String)
      → lookup t a.cache ≡ o
      → Coherent now (whole t (from_cache o a t now)).1
  unfolding from_cache
  from_cache-Coherent none t e = from_db-Coherent (lookup t a.db) t e refl
  from_cache-Coherent (some c) t e =
      let either : Bool → Found × Auth =
        λ b. if b then (answers (some c.username), a) else (answers none, revoke a t) in
      elim (ltb now c.expires_at) as (λ b. Coherent now (whole t (either b)).1) [
        | true ↦ same-Coherent
        | false ↦ revoke-Coherent t
      ]
