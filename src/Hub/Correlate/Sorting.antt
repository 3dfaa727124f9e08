-- ===== src/Hub/Correlate/Sorting.antt =====
-- The sort of src/http_server/hosts/correlate.rs keeps what is in a list.
use procinsh.Prelude.{◌≡◌, ◌⊎◌, inl, inr, Bool, Bool-cases, List, [], ◌∷◌}
use mathlib.Core.Logic.{◌↔◌}
use procinsh.Hub.Correlate.{insert_by, sort_by}

abbrev pub In : {A : Type 0} → A → List A → Type 0
In x [] = ⊥
In x (y ∷ ys) = (x ≡ y) ⊎ In x ys

module _ {A : Type 0} (lt : A → A → Bool) (x : A) where
  In-insert_by : (y : A) (ys : List A) → In x (insert_by lt y ys) ↔ In x (y ∷ ys)
  unfolding insert_by
  In-insert_by y [] = (λ h. h, λ h. h)
  In-insert_by y (z ∷ zs) =
      let ih = In-insert_by y zs in
      elim (Bool-cases (lt z y)) [
        | inr first ↦ rw first (λ h. h, λ h. h)
        | inl later ↦ rw later (
          λ h. elim h [
            | inl here ↦ inr (inl here)
            | inr there ↦ elim (ih.0 there) [ inl own ↦ inl own | inr rest ↦ inr (inr rest) ]
          ],
          λ h. elim h [
            | inl own ↦ inr (ih.1 (inl own))
            | inr (inl here) ↦ inl here
            | inr (inr rest) ↦ inr (ih.1 (inr rest))
          ],
        )
      ]

  pub In-sort_by : (xs : List A) → In x (sort_by lt xs) ↔ In x xs
  unfolding sort_by
  In-sort_by [] = (λ h. h, λ h. h)
  In-sort_by (y ∷ ys) =
      let ih = In-sort_by ys in
      let put = In-insert_by y (sort_by lt ys) in
      (
        λ h. elim (put.0 h) [ inl own ↦ inl own | inr rest ↦ inr (ih.0 rest) ],
        λ h. put.1 (elim h [ inl own ↦ inl own | inr rest ↦ inr (ih.1 rest) ]),
      )
