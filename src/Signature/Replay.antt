-- ===== src/Signature/Replay.antt =====
-- Webhooks that are sent again, to `build_webhook_hmac_middleware` and the store of nonces of
-- src/ops-service/src/middleware/webhook_hmac.rs.
use ops_service.Prelude.{
  ℕ, ◌-◌, ◌≤◌, ◌<◌, ◌≡◌, refl, sym, subst, true, Bool, ◌&&◌, Option, none, some, List, [], ◌∷◌,
  ◌++◌, ltb, ◌==◌, any, arith, inl, inr, Bool-cases, All, retain,
}
use ops_service.Prelude.Bytes.{Bytes, bytes_eq, bytes_eq_refl}
use ops_service.Error.Preservation.{keeps_or_fail, keeps_refuse_if}
use ops_service.Signature.{
  NonceEntry, NonceStore, check_and_record, contains_key, drop_expired, is_fresh, parse_i64,
  skew_of,
}
use ops_service.Signature.Middleware.{
  Config, Moment, WebhookRequest, Store, Event, arrives, cleans, changes, check_nonce, accept,
  judged, build_webhook_hmac_middleware, perform, perform_all,
}
use ops_service.Signature.Handled.{IsNew, accept-store}

-- The instant of an event is not after another.
abbrev pub NotAfter : ℕ → Event → Type 0
NotAfter now (arrives moment request) = moment.instant ≤ now
NotAfter now (cleans t) = t ≤ now
NotAfter now (changes runners) = Unit

module _ (nonce : Bytes) (at : ℕ) where
  abbrev pub is_recorded : List NonceEntry → Bool
  is_recorded es = any (λ e. bytes_eq e.nonce nonce && e.recorded_at == at) es

  is_recorded-retain :
      (ttl now : ℕ) (es : List NonceEntry)
      → now - at < ttl
      → is_recorded es ≡ true
      → is_recorded (retain (is_fresh ttl now) es) ≡ true
  is_recorded-retain ttl now [] h g = cc
  is_recorded-retain ttl now (e ∷ es) h g = elim (Bool-cases (is_fresh ttl now e)) [
    | inl fresh ↦ rw fresh (ground (arith, is_recorded-retain ttl now es h))
    | inr expired ↦ rw expired (is_recorded-retain ttl now es h (ground arith))
  ]

  is_recorded-append :
      (es fs : List NonceEntry) → is_recorded es ≡ true → is_recorded (es ++ fs) ≡ true
  is_recorded-append [] fs h = cc
  is_recorded-append (e ∷ es) fs h = ground (arith, is_recorded-append es fs)

  is_recorded-contains_key :
      (es : List NonceEntry) → is_recorded es ≡ true → contains_key nonce es ≡ true
  is_recorded-contains_key [] h = cc
  is_recorded-contains_key (e ∷ es) h = ground (arith, is_recorded-contains_key es)

  pub is_recorded-last :
      (es : List NonceEntry)
      → is_recorded (es ++ record { nonce = nonce; recorded_at = at } ∷ []) ≡ true
  is_recorded-last [] = ground (arith, bytes_eq_refl nonce)
  is_recorded-last (e ∷ es) = ground (arith, is_recorded-last es)

  -- The store has the nonce on record since that instant.
  abbrev pub Holds : ℕ → Store → Type 0
  Holds ttl s =
      (store : NonceStore) × (s.nonces ≡ some store)
      × (store.ttl ≡ ttl)
      × (is_recorded store.entries ≡ true)

  module _ (ttl : ℕ) where
    Holds-judged :
        (now : ℕ) (other : Bytes) (store : NonceStore) (s : Store)
        → now - at < ttl
        → store.ttl ≡ ttl
        → is_recorded store.entries ≡ true
        → Holds ttl (judged (check_and_record store other now) s).0
    unfolding check_and_record
    Holds-judged now other store s h e g =
        let kept = is_recorded-retain store.ttl now store.entries (omega (arith, e)) g in
        elim (Bool-cases (contains_key other (drop_expired now store).entries)) [
          | inl known ↦ rw known (_, refl, e, kept)
          | inr new ↦ rw new (_, refl, e, is_recorded-append _ _ kept)
        ]

    Holds-check_nonce :
        (now : ℕ) (other : Option Bytes) (s : Store)
        → now - at < ttl
        → Holds ttl s
        → Holds ttl (check_nonce now other s).0
    Holds-check_nonce now none s h p = p
    Holds-check_nonce now (some n) s h (store, e, limit, g) =
        rw e (Holds-judged now n store s h limit g)

    -- What a request leaves: what it found, or what its test of the nonce leaves.
    Holds-accept :
        (config : Config) (moment : Moment) (request : WebhookRequest) (s : Store)
        (secret body name timestamp signature : Bytes)
        → moment.instant - at < ttl
        → Holds ttl s
        → Holds ttl (accept config moment request secret body name timestamp signature s).0
    Holds-accept config moment request s secret body name timestamp signature h p =
        subst (Holds ttl)
          (sym (accept-store config moment request s secret body name timestamp signature))
          (Holds-check_nonce moment.instant request.nonce s h p)

    Holds-middleware :
        (config : Config) (moment : Moment) (request : WebhookRequest) (s : Store)
        → moment.instant - at < ttl
        → Holds ttl s
        → Holds ttl (build_webhook_hmac_middleware config moment request s).0
    unfolding build_webhook_hmac_middleware
    Holds-middleware config moment request s h p =
        keeps_or_fail (Holds ttl) config.secret _ s _ p λ secret.
          keeps_or_fail (Holds ttl) request.body _ s _ p λ body.
            keeps_or_fail (Holds ttl) request.runner_id _ s _ p λ name.
              keeps_or_fail (Holds ttl) request.timestamp _ s _ p λ timestamp.
                keeps_or_fail (Holds ttl) request.signature _ s _ p λ signature.
                  keeps_or_fail (Holds ttl) (parse_i64 timestamp) _ s _ p λ time.
                    keeps_refuse_if (Holds ttl)
                      (ltb config.max_skew_secs (skew_of moment.unix_now time)) _ s
                      (λ _. accept config moment request secret body name timestamp signature) p
                      (Holds-accept config moment request s secret body name timestamp signature h
                        p)

    Holds-perform :
        (config : Config) (now : ℕ) (event : Event) (s : Store)
        → now - at < ttl
        → NotAfter now event
        → Holds ttl s
        → Holds ttl (perform config event s)
    unfolding perform
    Holds-perform config now (arrives moment request) s h before p =
        Holds-middleware config moment request s (omega arith) p
    Holds-perform config now (cleans t) s h before (store, e, limit, g) =
        rw e (_, refl, limit, is_recorded-retain store.ttl t store.entries (omega (arith, limit)) g)
    Holds-perform config now (changes runners) s h before p = p

    pub Holds-perform_all :
        (config : Config) (now : ℕ) (events : List Event) (s : Store)
        → now - at < ttl
        → All (NotAfter now) events
        → Holds ttl s
        → Holds ttl (perform_all config events s)
    unfolding perform_all
    Holds-perform_all config now [] s h before p = p
    Holds-perform_all config now (e ∷ es) s h (first, before) p =
        Holds-perform_all config now es (perform config e s) h before
          (Holds-perform config now e s h first p)

    pub Holds-known :
        (now : ℕ) (s : Store) → now - at < ttl → Holds ttl s → IsNew now (some nonce) s.nonces → ⊥
    unfolding drop_expired
    Holds-known now s h (store, e, limit, g) new =
        let kept = is_recorded-retain store.ttl now store.entries (omega (arith, limit)) g in
        let known = is_recorded-contains_key _ kept in
        let fresh = subst (IsNew now (some nonce)) e new in absurd cc
