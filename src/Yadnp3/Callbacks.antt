-- ===== src/Yadnp3/Callbacks.antt =====
-- The callbacks of OpenDNP3 as lists of calls that take the lock of the cache.
use horstmann_dnp3_gateway.Base.{ℕ, String, ◌≡◌, refl, none, List, [], ◌∷◌, map}
use horstmann_dnp3_gateway.Base.Number.{pos, Float, float_zero}
use horstmann_dnp3_gateway.Yadnp3.Cache.{
  DeviceCache, Value, Item, Batch, binaries, analogs, counters, binary_outputs, analog_outputs,
  octet_strings, other_type, set_all, truth_value, text_of, process, on_open, on_close,
}
use horstmann_dnp3_gateway.Yadnp3.Read.{
  Arrival, frame, link_up, recovery_begins, link_down, arrive_one, arrive,
}

-- What OpenDNP3 calls.
pub data Callback : Type 0 where
  processes : Batch → Callback
  opens : ℕ → Callback
  closes : Callback

abbrev pub frames : {A : Type 0} → ℕ → (A → Value) → List (Item A) → List Arrival
frames group of_value items =
    map (λ it. frame (pos group, pos it.index) (of_value it.value) it.time) items

module _ (decode : List ℕ → String) (of_int : ℕ → Float) where
  unfoldable pub call : Callback → DeviceCache → DeviceCache
  unfolding process on_open on_close
  call (processes batch) c = process decode of_int batch c
  call (opens now) c = on_open now c
  call closes c = on_close c

  unfoldable pub frames_of : Batch → List Arrival
  frames_of (binaries items) = frames 1 (λ b. (truth_value b, none)) items
  frames_of (analogs items) = frames 30 (λ x. (x, none)) items
  frames_of (counters items) = frames 20 (λ n. (of_int n, none)) items
  frames_of (binary_outputs items) = frames 10 (λ b. (truth_value b, none)) items
  frames_of (analog_outputs items) = frames 40 (λ x. (x, none)) items
  frames_of (octet_strings items) =
      frames 110 (λ raw. (float_zero, text_of decode of_int raw)) items
  frames_of other_type = []

  unfoldable pub arrivals_of : Callback → List Arrival
  unfolding frames_of
  arrivals_of (processes batch) = frames_of batch
  arrivals_of (opens now) = link_up ∷ recovery_begins now ∷ []
  arrivals_of closes = link_down ∷ []

set_all-arrive :
    {A : Type 0} (group : ℕ) (of_value : A → Value) (items : List (Item A)) (c : DeviceCache)
    → set_all group of_value items c ≡ arrive (frames group of_value items) c
unfolding set_all arrive arrive_one
set_all-arrive group of_value [] c = refl
set_all-arrive group of_value (it ∷ items) c = set_all-arrive group of_value items _

-- A callback of OpenDNP3 leaves the cache as its list of calls does that take the lock: one frame for
-- each measurement in order, and for OnOpen the link and then the start of a recovery.
pub call-arrive :
    (decode : List ℕ → String) (of_int : ℕ → Float) (k : Callback) (c : DeviceCache)
    → call decode of_int k c ≡ arrive (arrivals_of decode of_int k) c
unfolding call arrivals_of process frames_of on_open on_close arrive arrive_one
call-arrive decode of_int (processes (binaries items)) c = set_all-arrive 1 _ items c
call-arrive decode of_int (processes (analogs items)) c = set_all-arrive 30 _ items c
call-arrive decode of_int (processes (counters items)) c = set_all-arrive 20 _ items c
call-arrive decode of_int (processes (binary_outputs items)) c = set_all-arrive 10 _ items c
call-arrive decode of_int (processes (analog_outputs items)) c = set_all-arrive 40 _ items c
call-arrive decode of_int (processes (octet_strings items)) c = set_all-arrive 110 _ items c
call-arrive decode of_int (processes other_type) c = refl
call-arrive decode of_int (opens now) c = refl
call-arrive decode of_int closes c = refl
