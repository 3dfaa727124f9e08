-- ===== src/Delivery.antt =====
-- src/http_server/delivery.rs: full and delta snapshots for the browser.
-- A JSON value is a parameter, with the fields that the code reads from it and its tests.
pub mod Delta
pub mod Applied
pub mod Encoder
pub mod Merge
pub mod Known
pub mod Processes
pub mod Faithful
use procinsh.Prelude.{ℕ, Bool, true, ◌≡◌, List}

-- What the code uses of `serde_json`: `field_identity_key(value, field)` for the fields "start" and "id",
-- the equality of keys and of values, and the test of the two printed lengths.
pub record Json : Type 1 where
  pub Key : Type 0
  pub Value : Type 0
  pub start : Value → Key
  pub id : Value → Key
  -- The number 0.
  pub zero : Value
  pub same_key : Key → Key → Bool
  pub same_value : Value → Value → Bool
  pub is_shorter : List Value → List Key → List Value → Bool

-- The equalities of `serde_json` are sound, and that of strings is also complete.
pub record HasEquality (J : Json) : Type 0 where
  pub same_key_refl : (k : J.Key) → J.same_key k k ≡ true
  pub same_key_sound : (k l : J.Key) → J.same_key k l ≡ true → k ≡ l
  pub same_value_sound : (v w : J.Value) → J.same_value v w ≡ true → v ≡ w
