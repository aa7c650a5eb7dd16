-- ===== src/Base/Report/Picked.antt =====
-- What is picked from each report of a list: the keys of one sort of report.
use mathlib.Core.Path.{◌≡◌, refl, ap}
use mathlib.Core.List.{List, [], ◌∷◌, ◌++◌, map, append_assoc}
use scrutiny.Base.Lists.{All}

module _ {ℓ κ} {A : Type ℓ} {K : Type κ} (pick : A → List K) where
  abbrev pub picked : List A → List K
  picked [] = []
  picked (a ∷ l) = pick a ++ picked l

  pub picked-append : (l m : List A) → picked (l ++ m) ≡ picked l ++ picked m
  picked-append [] m = refl
  picked-append (a ∷ l) m =
      rw (picked-append l m) (rw (append_assoc (pick a) (picked l) (picked m)) refl)

  pub picked-none : (l : List A) → All (λ a. pick a ≡ []) l → picked l ≡ []
  picked-none [] h = refl
  picked-none (a ∷ l) (e, h) = rw e (picked-none l h)

  pub picked-tags :
      (tag : A → K) (l : List A) → All (λ a. pick a ≡ tag a ∷ []) l → picked l ≡ map tag l
  picked-tags tag [] h = refl
  picked-tags tag (a ∷ l) (e, h) = rw e (ap (λ m. tag a ∷ m) (picked-tags tag l h))
