-- ===== src/Dnp3py/Sessions.antt =====
-- What forget_devices leaves of the sessions and of the devices' caches.
use mathlib.Core.Bool.{Bool, true, false}
use horstmann_dnp3_gateway.Base.{
  ℕ, ◌+◌, String, ◌≡◌, refl, ap, ◌∙◌, not, ◌&&◌, none, List, [], ◌∷◌, if◌then◌else◌, nat_eq,
  text_eq, pair_eq, contains, keep, lookup, remove, keys, contains-keys, contains-keep, is_some,
  Option, some, arith, Dict, lookup-remove,
}
use horstmann_dnp3_gateway.Dnp3py.Reader.{Reader, forget_codes, forget_devices}

-- Whether a device has a session and is not active.
unfoldable pub is_stale : List String → Reader → String → Bool
is_stale active r code = not (contains code active) && is_some (lookup code r.sessions)

dropped :
    {V : Type 0} (code c : String) (codes : List String) (d : Dict String V)
    → (if contains code codes then none else lookup code (remove c d))
      ≡ (if contains code (c ∷ codes) then none else lookup code d)
unfolding contains
dropped code c codes d =
    ground (arith, lookup-remove c code d, text_eq.test_iff c code, text_eq.test_iff code c)

kept :
    {A : Type 0} (active : Bool) (o : Option A)
    → (if not active && is_some o then none else o) ≡ (if active then o else none)
kept true o = refl
kept false none = refl
kept false (some a) = refl

forget_codes_lem :
    (codes : List String) (n : ℕ) (r : Reader) (code : String)
    → let r' = (forget_codes codes n r).1 in
      (lookup code r'.sessions ≡ (if contains code codes then none else lookup code r.sessions))
      × (lookup code r'.device_event_cache
          ≡ (if contains code codes then none else lookup code r.device_event_cache))
      × (lookup code r'.device_baseline_at
          ≡ (if contains code codes then none else lookup code r.device_baseline_at))
unfolding forget_codes contains
forget_codes_lem [] n r code = (refl, refl, refl)
forget_codes_lem (c ∷ codes) n r code =
    let rest =
      forget_codes_lem codes (n + 1)
        (record r {
          sessions = remove c r.sessions;
          device_event_cache = remove c r.device_event_cache;
          device_baseline_at = remove c r.device_baseline_at;
        })
        code in
    (
      rest.0 ∙ dropped code c codes r.sessions,
      rest.1 ∙ dropped code c codes r.device_event_cache,
      rest.2 ∙ dropped code c codes r.device_baseline_at,
    )

-- forget_devices removes the session, the cache and the baseline's time of each device that has a
-- session and is not active, and nothing else: a device whose session was evicted before keeps its
-- cache and its baseline's time, active or not.
pub forget_devices-exact_caches :
    (active : List String) (r : Reader) (code : String)
    → let r' = (forget_devices active r).1 in
      (lookup code r'.sessions ≡ (if contains code active then lookup code r.sessions else none))
      × (lookup code r'.device_event_cache
          ≡ (if is_stale active r code then none else lookup code r.device_event_cache))
      × (lookup code r'.device_baseline_at
          ≡ (if is_stale active r code then none else lookup code r.device_baseline_at))
unfolding forget_devices is_stale
forget_devices-exact_caches active r code =
    let stale : String → Bool = λ c. not (contains c active) in
    let all = forget_codes_lem (keep stale (keys r.sessions)) 0 r code in
    let which =
      contains-keep stale code (keys r.sessions)
      ∙ ap (λ b. stale code && b) (contains-keys code r.sessions) in
    (
      all.0
          ∙ ap (λ b. if b then none else lookup code r.sessions) which
          ∙ kept (contains code active) (lookup code r.sessions),
      all.1 ∙ ap (λ b. if b then none else lookup code r.device_event_cache) which,
      all.2 ∙ ap (λ b. if b then none else lookup code r.device_baseline_at) which,
    )
