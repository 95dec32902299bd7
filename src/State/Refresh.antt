-- ===== src/State/Refresh.antt =====
-- The operator's request to read all devices: the nonce of the configuration.
use horstmann_dnp3_gateway.Base.{
  ℕ, refl, ◌≡◌, ap, false, ◌||◌, arith, ◌∙◌, inl, inr, Bool-cases, ◌==◌, nat_eq, text_eq, pair_eq,
}
use horstmann_dnp3_gateway.Base.Number.{ℤ, pos, negsuc, int_ltb, int_ltb_irrefl}
use horstmann_dnp3_gateway.Exception.{Result, ok, raise}
use horstmann_dnp3_gateway.Config.{GatewayConfig}
use horstmann_dnp3_gateway.State.{
  GatewayState, File, Written, Clock, install, after_persist, update, persist, take_refresh_request,
  follow_nonce,
}

int_ltb_antisym : (x y : ℤ) → int_ltb x y ≡ false → int_ltb y x ≡ false → x ≡ y
unfolding int_ltb
int_ltb_antisym (pos m) (pos n) h k = ap pos (ground arith)
int_ltb_antisym (pos m) (negsuc n) h k = cc
int_ltb_antisym (negsuc m) (pos n) h k = cc
int_ltb_antisym (negsuc m) (negsuc n) h k = ap negsuc (ground arith)

follow_nonce-nonce : (n : ℤ) (s : GatewayState) → (follow_nonce n s).refresh_nonce ≡ n
unfolding follow_nonce
follow_nonce-nonce n s = ground (arith, int_ltb_antisym s.refresh_nonce n)

follow_nonce_again : (s : GatewayState) → follow_nonce s.refresh_nonce s ≡ s
unfolding follow_nonce
follow_nonce_again s = rw (int_ltb_irrefl s.refresh_nonce) refl

follow_nonce-pending :
    (n : ℤ) (s : GatewayState)
    → (follow_nonce n s).refresh_pending ≡ (s.refresh_pending || int_ltb s.refresh_nonce n)
unfolding follow_nonce
follow_nonce-pending n s = ground arith

after_persist-state : (s : GatewayState) (r : Result (Unit {0}) × File) → (after_persist s r).1 ≡ s
unfolding after_persist
after_persist-state s (ok u, f) = refl
after_persist-state s (raise exc, f) = refl

-- The state is the new one however the writing of the file ends.
pub update-state :
    (clock : Clock) (config : GatewayConfig) (now : ℕ) (end : Written) (s : GatewayState) (f : File)
    → (update clock config now end s f).1 ≡ install config now s
unfolding update
update-state clock config now end s f =
    elim (Bool-cases (config.config_version == s.config_version)) [
      | inl q ↦ rw q refl
      | inr q ↦ rw q (
          after_persist-state (install config now s)
            (persist clock s.has_cache_path config now end f))
    ]

module _ (clock : Clock) (config : GatewayConfig) (now : ℕ) (end : Written) (s : GatewayState)
    (f : File) where
  update-nonce : (update clock config now end s f).1.refresh_nonce ≡ config.refresh_nonce
  unfolding install
  update-nonce =
      ap (λ (t : GatewayState). t.refresh_nonce) (update-state clock config now end s f)
      ∙ follow_nonce-nonce config.refresh_nonce _

  -- After `update`, a request is pending exactly when one was or the backend's nonce is above the
  -- one that was seen last; the nonce that is seen last is then the backend's.
  pub update-refresh :
      ((update clock config now end s f).1.refresh_pending
        ≡ (s.refresh_pending || int_ltb s.refresh_nonce config.refresh_nonce))
      × ((update clock config now end s f).1.refresh_nonce ≡ config.refresh_nonce)
  unfolding install
  update-refresh = (
    ap (λ (t : GatewayState). t.refresh_pending) (update-state clock config now end s f)
        ∙ follow_nonce-pending config.refresh_nonce _,
    update-nonce,
  )

take-pending : (s : GatewayState) → (take_refresh_request s).1.refresh_pending ≡ false
unfolding take_refresh_request
take-pending s = ground arith

take-nonce : (s : GatewayState) → (take_refresh_request s).1.refresh_nonce ≡ s.refresh_nonce
unfolding take_refresh_request
take-nonce s = ground arith

pub take-answer : (s : GatewayState) → (take_refresh_request s).0 ≡ s.refresh_pending
unfolding take_refresh_request
take-answer s = ground arith

-- One request is taken once: when the poller has taken what an update asked for, a further update
-- with the same nonce asks for nothing, whatever else it changes.
pub request_taken_once :
    (clock : Clock) (config later : GatewayConfig) (now then' : ℕ) (e e' : Written)
    (s : GatewayState) (f f' : File)
    → later.refresh_nonce ≡ config.refresh_nonce
    → let taken = (take_refresh_request (update clock config now e s f).1).1 in
      (take_refresh_request (update clock later then' e' taken f').1).0 ≡ false
request_taken_once clock config later now then' e e' s f f' same =
    let t = (update clock config now e s f).1 in
    let taken = (take_refresh_request t).1 in
    take-answer (update clock later then' e' taken f').1
    ∙ (update-refresh clock later then' e' taken f').0
    ∙ rw (take-pending t, take-nonce t, update-nonce clock config now e s f, same)
        (int_ltb_irrefl config.refresh_nonce)
