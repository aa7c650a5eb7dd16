-- ===== src/Baseline/Build/Tracked.antt =====
-- internal/baseline/merge.go: about a map or a set that AddRun fills and Build sorts.
use scrutiny.Base.{◌≡◌, sym, ap, ◌∙◌, Bool, ◌||◌, List, [], ◌∷◌, map, arith}
use mathlib.Core.Path.{subst}
use scrutiny.Base.Eq.{Eq, nat_eq, has}
use scrutiny.Base.Text.{Text, text_eq}
use scrutiny.Base.Assoc.{Assoc, keys, values}
use scrutiny.Base.Sort.{sort_by}
use scrutiny.Base.Sort.Laws.{has-sort_by, has-sort}
use scrutiny.Baseline.Accumulator.{Run, Accumulator, empty, add_run, add_runs}
use scrutiny.Baseline.Maps.{add_names}
use scrutiny.Baseline.Maps.Laws.{Keyed, has-values, has-add_names}
use scrutiny.Baseline.Build.Coverage.{seen}

-- A map of the accumulator that a loop fills with the items of each run.
module _ {A : Type 0} (key : A → Text) (get : Accumulator → Assoc Text A) (item : Run → List A)
    (fold : List A → Assoc Text A → Assoc Text A)
    (add : (r : Run) (a : Accumulator) → get (add_run r a) ≡ fold (item r) (get a))
    (has-fold : (k : Text) (l : List A) (m : Assoc Text A)
      → has k (keys (fold l m)) ≡ (has k (keys m) || has k (map key l)))
    (fold-Keyed : (l : List A) (m : Assoc Text A) → Keyed key m → Keyed key (fold l m)) where
  keys-add_runs :
      (k : Text) (l : List Run) (a : Accumulator)
      → has k (keys (get (add_runs l a)))
        ≡ (has k (keys (get a)) || seen (λ r. map key (item r)) k l)
  unfolding add_runs
  keys-add_runs k [] a = ground arith
  keys-add_runs k (r ∷ l) a = ground (
    arith,
    keys-add_runs k l (add_run r a),
    ap (λ m. has k (keys m)) (add r a),
    has-fold k (item r) (get a),
  )

  get-Keyed : (l : List Run) (a : Accumulator) → Keyed key (get a) → Keyed key (get (add_runs l a))
  unfolding add_runs
  get-Keyed [] a h = h
  get-Keyed (r ∷ l) a h =
      get-Keyed l (add_run r a) (subst (Keyed key) (sym (add r a)) (fold-Keyed (item r) (get a) h))

  -- Sorted in any way, the values have the keys that some run brings.
  pub sorted-values :
      (less : A → A → Bool) (k : Text) (l : List Run)
      → get empty ≡ []
      → has k (map key (sort_by less (values (get (add_runs l empty)))))
        ≡ seen (λ r. map key (item r)) k l
  unfolding has
  sorted-values less k l none =
      has-sort_by less key k (values (get (add_runs l empty)))
      ∙ has-values key k (get (add_runs l empty))
          (get-Keyed l empty (subst (Keyed key) (sym none) tt))
      ∙ keys-add_runs k l empty
      ∙ ap (λ m. has k (keys m) || seen (λ r. map key (item r)) k l) none

-- A set of the accumulator.
module _ {K : Type 0} ⦃d : Eq K⦄ (get : Accumulator → List K) (item : Run → List K)
    (add : (r : Run) (a : Accumulator) → get (add_run r a) ≡ add_names (item r) (get a)) where
  names-add_runs :
      (k : K) (l : List Run) (a : Accumulator)
      → has k (get (add_runs l a)) ≡ (has k (get a) || seen item k l)
  unfolding add_runs
  names-add_runs k [] a = ground arith
  names-add_runs k (r ∷ l) a = ground (
    arith,
    names-add_runs k l (add_run r a),
    ap (has k) (add r a),
    has-add_names k (item r) (get a),
  )

  pub sorted-names :
      (less : K → K → Bool) (k : K) (l : List Run)
      → get empty ≡ []
      → has k (sort_by less (get (add_runs l empty))) ≡ seen item k l
  unfolding has
  sorted-names less k l none =
      has-sort less k (get (add_runs l empty))
      ∙ names-add_runs k l empty
      ∙ ap (λ s. has k s || seen item k l) none
