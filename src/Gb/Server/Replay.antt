-- ===== src/Gb/Server/Replay.antt =====
-- server.rs: a nonce serves once.
use lite_nvr.Gb.Registrar.{
  udp, keepalive, register, SweepOutcome, RegistrarChange, Registrar, sweep,
}
use lite_nvr.Common.Text.{by_colon}
use lite_nvr.Common.Int.{ℤ}
use lite_nvr.Common.Dict.{
  is_some, contains-lookup, lookup-insert, Dict, lookup-remove, keep_where, lookup,
}
use lite_nvr.Common.{
  List, Option, Bool, ℕ, String, refl, sym, ap, subst, ◌∙◌, none, some, true, false, [], ◌∷◌,
  nat_eq, string_eq, if◌then◌else◌, ◌==◌, ◌≡◌, ◌≢◌, inl, inr, Bool-cases,
}
use lite_nvr.Gb.Registrar.{registered, refreshed, unregistered, no_change, went_offline, dropped}
use lite_nvr.Gb.Digest.{password_for, AuthDecision, Authorization, allow, require, reject}
use lite_nvr.Gb.Server.Auth.{Unmoved, check-Unmoved}
use lite_nvr.Gb.Server.{
  Reply, answered_right, keepalive_message, catalog_message, malformed, other_message, route,
  CatalogResponse, expires_of, catalog_message, register_user, keepalive_reply, decide, told,
  keepalive_message, if_owned, apply_outcomes, accept_register, after_check, query_to, end_query,
  begin_query, terminated, sweep_once, fresh, handle_message, Message, retain_fresh,
  handle_register, RegisterRequest, challenge, check_authorization, ServerInner, unauthorized,
}

-- The server has no such nonce.
abbrev pub Spent : String → ServerInner → Type 0
Spent nonce s = lookup nonce s.nonces ≡ none

lookup-keep_none :
    (p : String → ℤ → Bool) (k : String) (m : Dict String ℤ)
    → lookup k m ≡ none
    → lookup k (keep_where p m) ≡ none
unfolding lookup keep_where
lookup-keep_none p k [] h = refl
lookup-keep_none p k ((j, v) ∷ m) h = elim (Bool-cases (j == k)) [
  | inl e ↦ absurd (hit (ap (λ b. if b then some v else lookup k m) (sym e) ∙ h))
  | inr e ↦
      let rest = lookup-keep_none p k m (ap (λ b. if b then some v else lookup k m) (sym e) ∙ h) in
      elim (Bool-cases (p j v)) [ inl q ↦ rw (q, e) rest | inr q ↦ rw q rest ]
]
  where
    hit : some v ≡ none → ⊥
    hit h = cc

module _ (md5_hex : String → String) (seq_text : ℕ → String) where
  -- What a server may do between two states without issuing the nonce.
  pub data Without (nonce : String) : ServerInner → ServerInner → Type 0 where
    ends : (s : ServerInner) → Without nonce s s
    registers :
        (q : RegisterRequest) (nanos : String) (now : ℤ) (s s' : ServerInner)
        → (handle_register md5_hex seq_text q nanos now s).0 ≢ unauthorized nonce
        → Without nonce (handle_register md5_hex seq_text q nanos now s).1 s'
        → Without nonce s s'
    receives :
        (m : Message) (replies : Bool) (now : ℤ) (s s' : ServerInner)
        → Without nonce (handle_message m replies now s).1 s'
        → Without nonce s s'
    sweeps :
        (now : ℤ) (s s' : ServerInner) → Without nonce (sweep_once now s) s' → Without nonce s s'
    terminates :
        (dialog : String) (s s' : ServerInner)
        → Without nonce (terminated dialog s) s'
        → Without nonce s s'
    queries :
        (device_id : String) (s s' : ServerInner)
        → Without nonce (begin_query device_id s).1 s'
        → Without nonce s s'
    answers : (sn : ℕ) (s s' : ServerInner) → Without nonce (end_query sn s) s' → Without nonce s s'

  check-Spent :
      (nonce : String) (o : Option Authorization) (password : String) (now : ℤ) (s : ServerInner)
      → Spent nonce s
      → Spent nonce (check_authorization md5_hex seq_text o password now s).1
  unfolding check_authorization retain_fresh
  check-Spent nonce none password now s h = h
  check-Spent nonce (some a) password now s h =
      lookup-remove nonce a.nonce (keep_where (λ n issued. fresh now issued) s.nonces)
      ∙ at (a.nonce == nonce) (lookup-keep_none (λ n issued. fresh now issued) nonce s.nonces h)
    where
      at : (b : Bool) {o : Option ℤ} → o ≡ none → (if b then none else o) ≡ none
      at true h = refl
      at false h = h

  taken-Spent :
      (a : Authorization) (password : String) (now : ℤ) (s : ServerInner)
      → Spent a.nonce (check_authorization md5_hex seq_text (some a) password now s).1
  unfolding check_authorization
  taken-Spent a password now s =
      lookup-remove a.nonce a.nonce (retain_fresh now s.nonces)
      ∙ ap (λ b. if b then none else lookup a.nonce (retain_fresh now s.nonces))
          ((string_eq.hits_iff a.nonce a.nonce).1 refl)

  challenge-Spent :
      (nonce nanos : String) (now : ℤ) (s : ServerInner)
      → (challenge md5_hex seq_text nanos now s).0 ≢ unauthorized nonce
      → Spent nonce s
      → Spent nonce (challenge md5_hex seq_text nanos now s).1
  unfolding challenge
  challenge-Spent nonce nanos now s other h =
      let issued = md5_hex (by_colon nanos (by_colon (seq_text s.nonce_seq) s.sip_id)) in
      lookup-insert nonce issued now s.nonces ∙ elim (Bool-cases (issued == nonce)) [
        | inl e ↦ absurd (other (ap unauthorized ((string_eq.hits_iff issued nonce).0 e)))
        | inr e ↦ rw e h
      ]

  accept-Spent :
      (nonce device_id : String) (q : RegisterRequest) (now : ℤ) (s : ServerInner)
      → Spent nonce s
      → Spent nonce (accept_register device_id q now s).1
  unfolding accept_register
  accept-Spent nonce device_id q now s h =
      after q.replies (register s.registrar device_id q.contact udp (expires_of q.expires) now).0 _
        h
    where
      after :
          (b : Bool) (c : RegistrarChange) (s : ServerInner)
          → Spent nonce s
          → Spent nonce (told b c device_id s)
      after true registered s h = h
      after true unregistered s h = h
      after true refreshed s h = h
      after true no_change s h = h
      after false c s h = h

  after_check-Spent :
      (nonce device_id : String) (q : RegisterRequest) (nanos : String) (now : ℤ)
      (r : Bool × ServerInner)
      → (after_check md5_hex seq_text device_id q nanos now r).0 ≢ unauthorized nonce
      → Spent nonce r.1
      → Spent nonce (after_check md5_hex seq_text device_id q nanos now r).1
  after_check-Spent nonce device_id q nanos now (true, s') other h =
      accept-Spent nonce device_id q now s' h
  after_check-Spent nonce device_id q nanos now (false, s') other h =
      challenge-Spent nonce nanos now s' other h

  register-Spent :
      (nonce : String) (q : RegisterRequest) (nanos : String) (now : ℤ) (s : ServerInner)
      → (handle_register md5_hex seq_text q nanos now s).0 ≢ unauthorized nonce
      → Spent nonce s
      → Spent nonce (handle_register md5_hex seq_text q nanos now s).1
  unfolding handle_register
  register-Spent nonce q nanos now s = named q.user
    where
      decided :
          (d : AuthDecision) (device_id : String)
          → (decide md5_hex seq_text d device_id q nanos now s).0 ≢ unauthorized nonce
          → Spent nonce s
          → Spent nonce (decide md5_hex seq_text d device_id q nanos now s).1
      decided allow device_id other h = accept-Spent nonce device_id q now s h
      decided reject device_id other h = h
      decided (require password) device_id other h =
          after_check-Spent nonce device_id q nanos now
            (check_authorization md5_hex seq_text q.authorization password now s) other
            (check-Spent nonce q.authorization password now s h)

      named :
          (user : Option String)
          → (register_user md5_hex seq_text user q nanos now s).0 ≢ unauthorized nonce
          → Spent nonce s
          → Spent nonce (register_user md5_hex seq_text user q nanos now s).1
      named none other h = h
      named (some device_id) other h = decided (password_for s.auth device_id) device_id other h

  message-Spent :
      (nonce : String) (m : Message) (replies : Bool) (now : ℤ) (s : ServerInner)
      → Spent nonce s
      → Spent nonce (handle_message m replies now s).1
  unfolding handle_message
  message-Spent nonce (keepalive_message device_id) replies now s h =
      kept replies (keepalive s.registrar device_id now)
    where
      kept :
          (replies : Bool) (r : Bool × Registrar)
          → Spent nonce (keepalive_reply device_id replies r s).1
      kept true (true, r) = h
      kept false (true, r) = h
      kept replies (false, r) = h
  message-Spent nonce (catalog_message c) true now s h = routed (lookup c.sn s.pending_catalog)
    where
      routed : (o : Option (List CatalogResponse)) → Spent nonce (route c o s)
      routed none = h
      routed (some chunks) = h
  message-Spent nonce (catalog_message c) false now s h = h
  message-Spent nonce malformed replies now s h = h
  message-Spent nonce other_message replies now s h = h

  outcomes-Spent :
      (nonce : String) (os : List (String × SweepOutcome)) (s : ServerInner)
      → Spent nonce s
      → Spent nonce (apply_outcomes os s)
  unfolding apply_outcomes
  outcomes-Spent nonce [] s h = h
  outcomes-Spent nonce ((device_id, went_offline) ∷ os) s h = outcomes-Spent nonce os _ h
  outcomes-Spent nonce ((device_id, dropped) ∷ os) s h = outcomes-Spent nonce os _ h

  sweep-Spent :
      (nonce : String) (now : ℤ) (s : ServerInner) → Spent nonce s → Spent nonce (sweep_once now s)
  unfolding sweep_once retain_fresh
  sweep-Spent nonce now s h =
      outcomes-Spent nonce (sweep s.registrar now).0 _
        (lookup-keep_none (λ n issued. fresh now issued) nonce s.nonces h)

  terminated-Spent :
      (nonce dialog : String) (s : ServerInner) → Spent nonce s → Spent nonce (terminated dialog s)
  unfolding terminated
  terminated-Spent nonce dialog s h = owned (lookup dialog s.sessions)
    where
      owned : (o : Option (Unit {0})) → Spent nonce (if_owned dialog o s)
      owned none = h
      owned (some u) = h

  query-Spent :
      (nonce device_id : String) (s : ServerInner)
      → Spent nonce s
      → Spent nonce (begin_query device_id s).1
  unfolding begin_query
  query-Spent nonce device_id s h = to (lookup device_id s.dests)
    where
      to : (o : Option String) → Spent nonce (query_to o s).1
      to none = h
      to (some dest) = h

  Without-Spent :
      (nonce : String) (s s' : ServerInner) → Without nonce s s' → Spent nonce s → Spent nonce s'
  unfolding end_query
  Without-Spent nonce _ _ (ends s) h = h
  Without-Spent nonce _ _ (registers q nanos now s s' other rest) h =
      Without-Spent nonce _ s' rest (register-Spent nonce q nanos now s other h)
  Without-Spent nonce _ _ (receives m replies now s s' rest) h =
      Without-Spent nonce _ s' rest (message-Spent nonce m replies now s h)
  Without-Spent nonce _ _ (sweeps now s s' rest) h =
      Without-Spent nonce _ s' rest (sweep-Spent nonce now s h)
  Without-Spent nonce _ _ (terminates dialog s s' rest) h =
      Without-Spent nonce _ s' rest (terminated-Spent nonce dialog s h)
  Without-Spent nonce _ _ (queries device_id s s' rest) h =
      Without-Spent nonce _ s' rest (query-Spent nonce device_id s h)
  Without-Spent nonce _ _ (answers sn s s' rest) h = Without-Spent nonce _ s' rest h

  -- A REGISTER of a device with a password, and its handling.
  pub record Presents (q : RegisterRequest) (s : ServerInner) (a : Authorization) : Type 0 where
    pub device_id : String
    pub password : String
    pub names : q.user ≡ some device_id
    pub secret : password_for s.auth device_id ≡ require password
    pub shows : q.authorization ≡ some a

  presented :
      (q : RegisterRequest) (nanos : String) (now : ℤ) (s : ServerInner) (a : Authorization)
      (p : Presents q s a)
      → handle_register md5_hex seq_text q nanos now s
        ≡ after_check md5_hex seq_text p.device_id q nanos now
            (check_authorization md5_hex seq_text (some a) p.password now s)
  unfolding handle_register
  presented q nanos now s a p =
      ap (λ u. register_user md5_hex seq_text u q nanos now s) p.names
      ∙ (ap (λ d. decide md5_hex seq_text d p.device_id q nanos now s) p.secret
          ∙ ap
              (λ o.
                after_check md5_hex seq_text p.device_id q nanos now
                  (check_authorization md5_hex seq_text o p.password now s))
              p.shows)

  check_again :
      (b : Authorization) (password nonce : String) (now : ℤ) (s : ServerInner)
      → b.nonce ≡ nonce
      → Spent nonce s
      → (check_authorization md5_hex seq_text (some b) password now s).0 ≡ false
  unfolding check_authorization retain_fresh
  check_again b password nonce now s same gone =
      let none_kept =
        lookup-keep_none (λ n issued. fresh now issued) b.nonce s.nonces
          (ap (λ n. lookup n s.nonces) same ∙ gone) in
      ap (answered_right md5_hex seq_text b password)
        (contains-lookup b.nonce (retain_fresh now s.nonces) ∙ ap is_some none_kept)

  challenged :
      (device_id : String) (q : RegisterRequest) (nanos : String) (now : ℤ) (s : ServerInner)
      (r : Bool × ServerInner)
      → r.0 ≡ false
      → Unmoved s r.1
      → let done = after_check md5_hex seq_text device_id q nanos now r in
        ((nonce : String) × (done.0 ≡ unauthorized nonce)) × Unmoved s done.1
  unfolding challenge
  challenged device_id q nanos now s (true, s') h u = absurd (no h)
    where
      no : true ≡ false → ⊥
      no h = cc
  challenged device_id q nanos now s (false, s') h u = ((_, refl), u)

  -- Once a REGISTER of a device with a password has presented a nonce, and has been handled to its
  -- end, accepted or challenged with another nonce: whatever the server has handled since, and
  -- whenever that was, unless it has issued the same nonce again, it answers a further REGISTER of a
  -- device with a password that presents this nonce with a challenge, and leaves the registrar, the
  -- destinations and the events as they were.
  pub handle_register_once :
      (q q' : RegisterRequest) (nanos nanos' : String) (now now' : ℤ) (s s' : ServerInner)
      (a b : Authorization)
      → Presents q s a
      → Presents q' s' b
      → b.nonce ≡ a.nonce
      → (handle_register md5_hex seq_text q nanos now s).0 ≢ unauthorized a.nonce
      → Without a.nonce (handle_register md5_hex seq_text q nanos now s).1 s'
      → let done = handle_register md5_hex seq_text q' nanos' now' s' in
        ((nonce : String) × (done.0 ≡ unauthorized nonce)) × Unmoved s' done.1
  handle_register_once q q' nanos nanos' now now' s s' a b p p' same other between =
      let first = presented q nanos now s a p in
      let spent =
        after_check-Spent a.nonce p.device_id q nanos now
          (check_authorization md5_hex seq_text (some a) p.password now s)
          (λ e. other (ap (λ r. r.0) first ∙ e)) (taken-Spent a p.password now s) in
      let gone =
        Without-Spent a.nonce _ s' between
          (subst (λ (r : Reply × ServerInner). Spent a.nonce r.1) (sym first) spent) in
      subst
        (λ (r : Reply × ServerInner).
          ((nonce : String) × (r.0 ≡ unauthorized nonce)) × Unmoved s' r.1)
        (sym (presented q' nanos' now' s' b p'))
        (challenged p'.device_id q' nanos' now' s'
          (check_authorization md5_hex seq_text (some b) p'.password now' s')
          (check_again b p'.password a.nonce now' s' same gone)
          (check-Unmoved md5_hex seq_text (some b) p'.password now' s'))
