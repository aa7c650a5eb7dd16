-- ===== src/Base/Sort/Unique.antt =====
-- A sort by distinct text keys gives the same list for every order of its input.
use mathlib.Core.Path.{◌≡◌, refl, ap, ◌∙◌}
use mathlib.Core.Bool.{Bool, false}
use mathlib.Core.List.{List, [], ◌∷◌, map, Perm}
use mathlib.Core.Logic.{∥∥₁_elim}
use mathlib.Core.List.{Permᴰ}
use native.Mathlib.Omega.{arith}
use scrutiny.Base.Eq.{◌==◌, has, Distinct, eq_iff}
use scrutiny.Base.Text.{Text, text_eq}
use scrutiny.Base.Text.Order.{text_lt, text_lt_asymm, text_lt_trans, text_lt_total}
use scrutiny.Base.Sort.{insert_by, sort_by}

module _ {ℓ} {A : Type ℓ} (key : A → Text) where
  abbrev pub key_less : A → A → Bool
  key_less x y = text_lt (key x) (key y)

  -- Two elements with different keys may be inserted in either order.
  insert_by_comm :
      (a b : A) (l : List A)
      → (key a == key b) ≡ false
      → insert_by key_less a (insert_by key_less b l)
        ≡ insert_by key_less b (insert_by key_less a l)
  unfolding insert_by
  insert_by_comm a b [] n =
      ground (
        arith,
        eq_iff (key a) (key b),
        text_lt_asymm (key a) (key b),
        text_lt_total (key a) (key b),
      )
  insert_by_comm a b (c ∷ l) n = ground (
    arith,
    eq_iff (key a) (key b),
    text_lt_asymm (key a) (key b),
    text_lt_total (key a) (key b),
    text_lt_trans (key c) (key a) (key b),
    text_lt_trans (key c) (key b) (key a),
    text_lt_trans (key a) (key b) (key c),
    text_lt_trans (key b) (key a) (key c),
    text_lt_asymm (key c) (key a),
    text_lt_asymm (key c) (key b),
    text_lt_asymm (key b) (key a),
    insert_by_comm a b l n,
  )

  has-perm : {l m : List A} → Permᴰ l m → (k : Text) → has k (map key l) ≡ has k (map key m)
  unfolding has
  has-perm Permᴰ.nil k = refl
  has-perm (Permᴰ.cons e p) k = ground (arith, ap key e, has-perm p k)
  has-perm (Permᴰ.swap e f) k = ground (arith, ap key e, ap key f)
  has-perm (Permᴰ.trans p q) k = has-perm p k ∙ has-perm q k

  Distinct-perm : {l m : List A} → Permᴰ l m → Distinct (map key l) → Distinct (map key m)
  unfolding has
  Distinct-perm Permᴰ.nil d = d
  Distinct-perm (Permᴰ.cons {a = a} {l₁ = l} e p) (n, d) =
      (ground (arith, ap key e, has-perm p (key a)), Distinct-perm p d)
  Distinct-perm (Permᴰ.swap {a = a} {b = b} e f) (n, (k, d)) =
      ground (arith, ap key e, ap key f, eq_iff (key a) (key b), eq_iff (key b) (key a))
  Distinct-perm (Permᴰ.trans p q) d = Distinct-perm q (Distinct-perm p d)

  sort_by_swap_perm :
      {l m : List A} → Permᴰ l m → Distinct (map key l) → sort_by key_less l ≡ sort_by key_less m
  unfolding sort_by has
  sort_by_swap_perm Permᴰ.nil d = refl
  sort_by_swap_perm (Permᴰ.cons e p) (n, d) = cc (e, sort_by_swap_perm p d)
  sort_by_swap_perm (Permᴰ.swap {a = a} {b = b} {l = l} e f) (n, (k, d)) =
      cc (e, f, insert_by_comm a b (sort_by key_less l) (ground arith))
  sort_by_swap_perm (Permᴰ.trans p q) d =
      sort_by_swap_perm p d ∙ sort_by_swap_perm q (Distinct-perm p d)

  pub sort_by_unique :
      IsSet A
      → {l m : List A} → Perm l m
      → Distinct (map key l)
      → sort_by key_less l ≡ sort_by key_less m
  sort_by_unique s p d = ∥∥₁_elim p (hlevel s) (λ q. sort_by_swap_perm q d)
