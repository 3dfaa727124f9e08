-- ===== src/Privacy/Responses.antt =====
-- src/http_server/privacy.rs: `scrub_response`, for the replies of src/http_server/protocol.rs. A snapshot
-- that is not JSON yet is of type `A`.
use procinsh.Prelude.{ℕ, ◌≡◌, refl, Bool, Option, none, some, List, Result, ok, ◌>>=◌}
use procinsh.Ipc.Codec.Addresses.{IpAddr}
use procinsh.Privacy.{Privacy, Panic, Cache}
use procinsh.Privacy.Scans.{IsEngine, IsCache}
use procinsh.Privacy.Scrub.{Value, scrub}
use procinsh.Privacy.Scrub.Complete.{scrub-IsScrubbed}
use procinsh.Privacy.Scrub.Replacement.{IsNulFree, IsScrubbed}

pub data MonitorEvent (A : Type 0) : Type 0 where
  observation snapshot activity : Value → MonitorEvent A
  gap : ℕ → Value → MonitorEvent A
  acquired_snapshot : A → MonitorEvent A
  acquisition_gap : ℕ → A → MonitorEvent A

pub data MonitorResponse (A : Type 0) : Type 0 where
  data_response : Value → MonitorResponse A
  started : ℕ → MonitorEvent A → MonitorResponse A
  event : Option (MonitorEvent A) → Bool → MonitorResponse A
  closed : MonitorResponse A

module _ {A : Type 0} (parse : List ℕ → Option IpAddr) where
  unfoldable pub scrub_event :
      Privacy → MonitorEvent A → Cache → Result Panic (MonitorEvent A × Cache)
  unfolding scrub
  scrub_event p (observation value) cache = do
    (masked, cache) ← scrub p parse none value cache
    ok (observation masked, cache)
  scrub_event p (snapshot value) cache = do
    (masked, cache) ← scrub p parse none value cache
    ok (snapshot masked, cache)
  scrub_event p (activity value) cache = do
    (masked, cache) ← scrub p parse none value cache
    ok (activity masked, cache)
  scrub_event p (gap dropped value) cache = do
    (masked, cache) ← scrub p parse none value cache
    ok (gap dropped masked, cache)
  scrub_event p (acquired_snapshot raw) cache = ok (acquired_snapshot raw, cache)
  scrub_event p (acquisition_gap dropped raw) cache = ok (acquisition_gap dropped raw, cache)

  -- `PRIVACY.get()` comes first.
  unfoldable pub scrub_response :
      Option Privacy → MonitorResponse A → Cache → Result Panic (MonitorResponse A × Cache)
  unfolding scrub_event scrub
  scrub_response none response cache = ok (response, cache)
  scrub_response (some p) (data_response value) cache = do
    (masked, cache) ← scrub p parse none value cache
    ok (data_response masked, cache)
  scrub_response (some p) (started session initial) cache = do
    (masked, cache) ← scrub_event p initial cache
    ok (started session masked, cache)
  scrub_response (some p) (event (some e) end) cache = do
    (masked, cache) ← scrub_event p e cache
    ok (event (some masked) end, cache)
  scrub_response (some p) (event none end) cache = ok (event none end, cache)
  scrub_response (some p) closed cache = ok (closed, cache)

-- The JSON of an event and of a response, where it has some.
abbrev pub json_of : {A : Type 0} → MonitorEvent A → Option Value
json_of (observation value) = some value
json_of (snapshot value) = some value
json_of (activity value) = some value
json_of (gap dropped value) = some value
json_of (acquired_snapshot raw) = none
json_of (acquisition_gap dropped raw) = none

abbrev pub body_of : {A : Type 0} → MonitorResponse A → Option Value
body_of (data_response value) = some value
body_of (started session initial) = json_of initial
body_of (event none end) = none
body_of (event (some e) end) = json_of e
body_of closed = none

-- The event or the response with another JSON value.
abbrev pub with_json : {A : Type 0} → Value → MonitorEvent A → MonitorEvent A
with_json other (observation value) = observation other
with_json other (snapshot value) = snapshot other
with_json other (activity value) = activity other
with_json other (gap dropped value) = gap dropped other
with_json other (acquired_snapshot raw) = acquired_snapshot raw
with_json other (acquisition_gap dropped raw) = acquisition_gap dropped raw

abbrev pub with_body : {A : Type 0} → Value → MonitorResponse A → MonitorResponse A
with_body other (data_response value) = data_response other
with_body other (started session initial) = started session (with_json other initial)
with_body other (event none end) = event none end
with_body other (event (some e) end) = event (some (with_json other e)) end
with_body other closed = closed

some-injective : (v w : Value) → ◌≡◌ {A = Option Value} (some v) (some w) → v ≡ w
some-injective v w e = cc e

module _ {A : Type 0} (p : Privacy) (parse : List ℕ → Option IpAddr) where
  module _ (value masked : Value) (cache after : Cache)
      (done : scrub p parse none value cache ≡ ok (masked, after)) where
    scrub_event-with_json :
        (e : MonitorEvent A)
        → json_of e ≡ some value
        → scrub_event parse p e cache ≡ ok (with_json masked e, after)
    unfolding scrub_event
    scrub_event-with_json (observation v) e = rw (some-injective v value e, done) refl
    scrub_event-with_json (snapshot v) e = rw (some-injective v value e, done) refl
    scrub_event-with_json (activity v) e = rw (some-injective v value e, done) refl
    scrub_event-with_json (gap dropped v) e = rw (some-injective v value e, done) refl
    scrub_event-with_json (acquired_snapshot raw) e = absurd (cc e)
    scrub_event-with_json (acquisition_gap dropped raw) e = absurd (cc e)

    scrub_response-with_body :
        (r : MonitorResponse A)
        → body_of r ≡ some value
        → scrub_response parse (some p) r cache ≡ ok (with_body masked r, after)
    unfolding scrub_response
    scrub_response-with_body (data_response v) e = rw (some-injective v value e, done) refl
    scrub_response-with_body (started session initial) e = rw (scrub_event-with_json initial e) refl
    scrub_response-with_body (event none end) e = absurd (cc e)
    scrub_response-with_body (event (some initial) end) e =
        rw (scrub_event-with_json initial e) refl
    scrub_response-with_body closed e = absurd (cc e)

  -- In privacy mode, a response that carries JSON whose strings have no NUL is sent with that JSON
  -- scrubbed and all else as it was, and the cache stays sound.
  pub scrub_response-IsScrubbed :
      (engine : IsEngine p) (r : MonitorResponse A) (value : Value) (cache : Cache)
      → body_of r ≡ some value
      → IsNulFree value
      → IsCache p cache
      → (masked : Value) × (after : Cache) × (scrub_response parse (some p) r cache
          ≡ ok (with_body masked r, after))
        × IsScrubbed p parse none value masked
        × IsCache p after
  scrub_response-IsScrubbed engine r value cache carried free sound =
      let (masked, after, done, m, good) =
        scrub-IsScrubbed p parse engine none value cache free sound in
      (masked, after, scrub_response-with_body value masked cache after done r carried, m, good)
