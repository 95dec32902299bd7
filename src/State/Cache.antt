-- ===== src/State/Cache.antt =====
-- The configuration over a restart.
use horstmann_dnp3_gateway.Base.{
  ℕ, String, refl, ◌≡◌, ◌≢◌, true, false, inl, inr, List, Option, arith, if◌then◌else◌, ◌==◌,
  nat_eq, text_eq, pair_eq, ==_ne, sym, ◌∙◌, Bool, Bool-cases, subst,
}
use horstmann_dnp3_gateway.Base.Json.{Json, Fields, null, bool, int, float, text, list, object}
use horstmann_dnp3_gateway.Base.Number.{pos, Float, int_ltb}
use horstmann_dnp3_gateway.Exception.{ok}
use horstmann_dnp3_gateway.State.Refresh.{take-answer, update-refresh}
use horstmann_dnp3_gateway.Config.{DeviceConfig, SignalConfig, GatewayConfig}
use horstmann_dnp3_gateway.Config.Values.{
  Conv, good, refused, overflow, Python, get, or_else, truthy,
}
use horstmann_dnp3_gateway.CacheFile.{payload}
use horstmann_dnp3_gateway.CacheFile.Reading.{
  Read, got, type_error, attribute_error, untyped, find, read_lists,
}
use horstmann_dnp3_gateway.CacheFile.Reads.{read_lists-payload}
use horstmann_dnp3_gateway.State.{
  absent, unreadable, not_loaded, holds, Written, replaced, Clock, Loaded, loaded, take_config,
  GatewayState, File, update, after_persist, load_from_cache, load_value, take_lists, take_cached,
  cached_at, text_of, take_refresh_request, init, persist, install, follow_nonce,
}

-- What the poller reads of the state.
abbrev pub SameConfig : GatewayState → GatewayState → Type 0
SameConfig s t =
    (s.devices ≡ t.devices)
    × (s.signals ≡ t.signals)
    × (s.gateway_active ≡ t.gateway_active)
    × (s.gateway_name ≡ t.gateway_name)
    × (s.config_version ≡ t.config_version)
    × (s.config_loaded_at ≡ t.config_loaded_at)

follow_nonce-SameConfig :
    (s : GatewayState) (config : GatewayConfig) → SameConfig s (follow_nonce config.refresh_nonce s)
unfolding follow_nonce
follow_nonce-SameConfig s config = ground arith

SameConfig-trans : (s t u : GatewayState) → SameConfig s t → SameConfig t u → SameConfig s u
SameConfig-trans s t u h k = (h.0 ∙ k.0, h.1 ∙ k.1, h.2 ∙ k.2, h.3 ∙ k.3, h.4 ∙ k.4, h.5 ∙ k.5)

-- What is assumed of Python: str() of a text and float() of a float give it back; and a time that
-- is written in seconds is read back in milliseconds.
pub record IsFaithful (python : Python) (clock : Clock) : Type 0 where
  pub str_text : (t : String) → python.str_of (text t) ≡ t
  pub float_float : (x : Float) → python.float_of (float x) ≡ good x
  pub same_time : (n : ℕ) → clock.millis (clock.seconds n) ≡ n

module _ (python : Python) (clock : Clock) (faithful : IsFaithful python clock) where
  str_of-or_else : (t : String) → python.str_of (or_else (text "") (text t)) ≡ t
  unfolding or_else truthy
  str_of-or_else t = elim (Bool-cases (t == "")) [
    | inl q ↦ rw q (faithful.str_text "" ∙ sym ((text_eq.test_iff t "").0 q))
    | inr q ↦ rw q (faithful.str_text t)
  ]

  -- What is loaded of a payload.
  load-payload :
      (config : GatewayConfig) (now max_age : ℕ) (s : GatewayState)
      → let (end, restarted) =
          load_from_cache python clock
            (holds (object (payload config (clock.seconds now))))
            (init true max_age) in
        (end ≡ loaded) × SameConfig restarted (take_config config now s)
  unfolding load_from_cache load_value take_lists take_cached cached_at text_of get find payload
      init take_config truthy
  load-payload config now max_age s =
      rw
        (
          read_lists-payload config (clock.seconds now),
          faithful.float_float (clock.seconds now),
          faithful.same_time now,
          str_of-or_else config.gateway_name,
          str_of-or_else config.config_version,
        )
        (refl, (refl, refl, refl, refl, refl, refl))

  module _ (config : GatewayConfig) (now max_age : ℕ) (s : GatewayState) (f : File)
      (new : config.config_version ≢ s.config_version) (path : s.has_cache_path ≡ true) where
    update-file :
        update clock config now replaced s f
        ≡ (ok true, install config now s, holds (object (payload config (clock.seconds now))))
    unfolding update persist after_persist
    update-file = rw (==_ne config.config_version s.config_version new, path) refl

    -- A configuration with a new version that could be written is what a process that starts later
    -- loads from the file's JSON: the devices, the signals, the name, the version, the activity and
    -- the time.
    pub load-update :
        let (changed, s', f') = update clock config now replaced s f in
        let (end, restarted) = load_from_cache python clock f' (init true max_age) in
        (changed ≡ ok true) × (end ≡ loaded) × SameConfig restarted s'
    unfolding install
    load-update =
        let (end, same) = load-payload config now max_age s in
        subst
          (λ u.
            let (ended, restarted) = load_from_cache python clock u.2 (init true max_age) in
            (u.0 ≡ ok true) × (ended ≡ loaded) × SameConfig restarted u.1)
          (sym update-file)
          (
            refl,
            end,
            SameConfig-trans
                (load_from_cache python clock (holds (object (payload config (clock.seconds now))))
                  (init true max_age)).1
                (take_config config now s) (install config now s) same
                (follow_nonce-SameConfig (take_config config now s) config),
          )

module _ (python : Python) (clock : Clock) where
  -- What a load leaves as it was.
  KeepsNonce : GatewayState → Loaded × GatewayState → Type 0
  KeepsNonce s (end, t) =
      (t.refresh_nonce ≡ s.refresh_nonce) × (t.refresh_pending ≡ s.refresh_pending)

  take_cached_keeps :
      (fields : Fields) (time : Conv (Option ℕ)) (s t : GatewayState)
      → KeepsNonce s (loaded, t)
      → KeepsNonce s (take_cached python clock fields time s t)
  unfolding take_cached KeepsNonce
  take_cached_keeps fields (good time) s t h = h
  take_cached_keeps fields refused s t h = (refl, refl)
  take_cached_keeps fields overflow s t h = (refl, refl)

  take_lists_keeps :
      (fields : Fields) (lists : Read (List DeviceConfig × List SignalConfig)) (s : GatewayState)
      → KeepsNonce s (take_lists python clock fields lists s)
  unfolding take_lists KeepsNonce
  take_lists_keeps fields type_error s = (refl, refl)
  take_lists_keeps fields attribute_error s = (refl, refl)
  take_lists_keeps fields untyped s = take_cached_keeps fields _ s s (refl, refl)
  take_lists_keeps fields (got (devices, signals)) s =
      take_cached_keeps fields _ s (record s { devices = devices; signals = signals }) (refl, refl)

  load_value_keeps : (v : Json) (s : GatewayState) → KeepsNonce s (load_value python clock v s)
  unfolding load_value KeepsNonce
  load_value_keeps (object fields) s = take_lists_keeps fields (read_lists fields) s
  load_value_keeps null s = (refl, refl)
  load_value_keeps (bool b) s = (refl, refl)
  load_value_keeps (int n) s = (refl, refl)
  load_value_keeps (float x) s = (refl, refl)
  load_value_keeps (text t) s = (refl, refl)
  load_value_keeps (list items) s = (refl, refl)

  load_from_cache_keeps :
      (f : File) (s : GatewayState) → KeepsNonce s (load_from_cache python clock f s)
  unfolding load_from_cache KeepsNonce
  load_from_cache_keeps absent s = (refl, refl)
  load_from_cache_keeps unreadable s = (refl, refl)
  load_from_cache_keeps (holds v) s =
      elim s.has_cache_path
        as (λ b. KeepsNonce s (if b then load_value python clock v s else (not_loaded, s))) [
          | true ↦ load_value_keeps v s
          | false ↦ (refl, refl)
        ]

  -- The file does not hold the nonce: after a start, with whatever file, the first update asks for a
  -- refresh exactly when the backend's nonce is above 0, also when it is the one of the last run.
  pub restart-refreshes :
      (config : GatewayConfig) (now max_age : ℕ) (end : Written) (path : Bool) (f : File)
      → let started = (load_from_cache python clock f (init path max_age)).1 in
        (take_refresh_request (update clock config now end started f).1).0
        ≡ int_ltb (pos 0) config.refresh_nonce
  unfolding init KeepsNonce
  restart-refreshes config now max_age end path f =
      let started = (load_from_cache python clock f (init path max_age)).1 in
      let (nonce, pending) = load_from_cache_keeps f (init path max_age) in
      take-answer (update clock config now end started f).1
      ∙ (update-refresh clock config now end started f).0
      ∙ rw (nonce, pending) refl
