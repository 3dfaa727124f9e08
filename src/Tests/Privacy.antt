-- ===== src/Tests/Privacy.antt =====
-- A command line and an object in the privacy mode of src/http_server/privacy.rs.
use procinsh.Prelude.{
  false, ℕ, ◌≡◌, ◌≢◌, refl, ap, Option, none, some, List, [], ◌∷◌, map, ok, arith,
}
use procinsh.Helper.Serve.{codes}
use procinsh.Privacy.{
  Privacy, Cache, pseudonym, join, split, slice, overlapping, mask_hits, mask_items, get,
  remove_key, remember_masked, scan,
}
use procinsh.Privacy.Scans.{IsEngine, IsCache}
use procinsh.Privacy.Scrub.{
  Value, string, array, object, number, no_values, value, no_fields, field, scrub,
}
use procinsh.Privacy.Scrub.Complete.{Succeeds, scrub-IsScrubbed}
use procinsh.Privacy.Scrub.Replacement.{IsScrubbed, IsNulFree}
use procinsh.Privacy.Responses.{
  MonitorEvent, MonitorResponse, scrub_response, with_body, scrub_response-IsScrubbed,
}
use procinsh.Ipc.Codec.Addresses.{IpAddr}

-- The bytes 3 to 5 of a text are a secret.
abbrev third : Privacy
third = record {
  key = 7 ∷ [];
  find = λ text. record { start = 3; end = 6 } ∷ [];
  digest = λ bytes. bytes;
  lossy = λ bytes. bytes;
}

map_same : (xs : List (List ℕ)) → xs ≡ map third.lossy xs
map_same [] = refl
map_same (x ∷ xs) = ap (λ (r : List (List ℕ)). x ∷ r) (map_same xs)

third-IsEngine : IsEngine third
third-IsEngine = record {
  ordered = λ text. (omega arith, omega arith, tt);
  lossy_split = λ bytes. map_same (split bytes);
}

abbrev no_address : List ℕ → Option IpAddr
no_address text = none

-- "-p", "pw" and "ab": the hit is the second and the space behind it.
abbrev scanned : List (List ℕ)
scanned = codes "-p" ∷ (pseudonym third (codes "pw")) ∷ codes "ab" ∷ []

scan_password :
    scan third (codes "-p" ∷ codes "pw" ∷ codes "ab" ∷ []) []
    ≡ ok (scanned, (join 0 (codes "-p" ∷ codes "pw" ∷ codes "ab" ∷ []), join 0 scanned) ∷ [])
unfolding scan join split slice overlapping mask_hits mask_items get remove_key remember_masked
    pseudonym
scan_password = refl

-- {"uuid": "p", "a": ["p", 5]}
abbrev reply : Value
reply = object (
    field (codes "uuid") (string (112 ∷ [])) (
      field (97 ∷ []) (array (value (string (112 ∷ [])) (value (number (53 ∷ [])) no_values)))
        no_fields))

p-nonzero : ◌≢◌ {A = ℕ} 112 0
p-nonzero e = absurd (omega (arith, e))

reply-IsNulFree : IsNulFree reply
unfolding IsNulFree
reply-IsNulFree = ((p-nonzero, tt), (((p-nonzero, tt), (tt, tt)), tt))

scrub-IsScrubbed_example :
    Succeeds third no_address third-IsEngine
      (IsScrubbed third no_address none reply)
      (scrub third no_address none reply [])
scrub-IsScrubbed_example =
    scrub-IsScrubbed third no_address third-IsEngine none reply [] reply-IsNulFree (tt, omega arith)

-- A polled snapshot.
abbrev polled_reply : MonitorResponse ℕ
polled_reply = MonitorResponse.event (some (MonitorEvent.snapshot reply)) false

scrub_response-IsScrubbed_example :
    (masked : Value) × (after : Cache) × (scrub_response no_address (some third) polled_reply []
      ≡ ok (with_body masked polled_reply, after))
    × IsScrubbed third no_address none reply masked
    × IsCache third after
scrub_response-IsScrubbed_example =
    scrub_response-IsScrubbed third no_address third-IsEngine polled_reply reply [] refl
      reply-IsNulFree (tt, omega arith)
