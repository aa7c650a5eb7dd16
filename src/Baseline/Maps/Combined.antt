-- ===== src/Baseline/Maps/Combined.antt =====
-- internal/baseline/merge.go: what several records of a syscall come to.
pub mod Calls
use mathlib.Core.List.{append-nil, append_assoc}
use scrutiny.Base.{
  ℕ, ◌+◌, ◌%◌, ◌≤◌, ◌<◌, ◌≡◌, refl, sym, ap, ◌∙◌, inl, inr, Bool, true, Option, none, some, List,
  [], ◌∷◌, ◌++◌, map, arith, if◌then◌else◌, Bool-cases, length, take, take-few, All, All-append,
  All-map,
}
use scrutiny.Base.Eq.{◌==◌, nat_eq, eq_iff, eq_refl, has}
use mathlib.Core.Path.{subst}
use scrutiny.Base.Int64.{Int64, word, add64, slt, sle}
use scrutiny.Base.Text.{Text, text_eq}
use scrutiny.Base.Assoc.{Assoc, lookup, insert}
use scrutiny.Base.Assoc.Laws.{lookup-insert}
use scrutiny.Schema.Observed.{SyscallRecord}
use scrutiny.Baseline.Maps.{merge_syscall, merge_calls, cap_append}

-- A record as the sensors leave it: 64-bit counters and at most three samples.
abbrev pub IsSound : SyscallRecord → Type 0
IsSound r =
    (r.count < word)
    × (r.exit_count < word)
    × (r.error_count < word)
    × (r.total_latency_ns < word)
    × (length r.args_sample ≤ 3)
    × (length r.ret_sample ≤ 3)

module _ {ℓ} {A : Type ℓ} where
  abbrev pub sum_of : (A → ℕ) → List A → ℕ
  sum_of f [] = 0
  sum_of f (x ∷ l) = f x + sum_of f l

  abbrev pub all_of {κ} : {B : Type κ} → (A → List B) → List A → List B
  all_of f [] = []
  all_of f (x ∷ l) = f x ++ all_of f l

  -- `v` is the least, or the greatest, of the values of `f`, in the signed order.
  abbrev pub IsLeast : (A → Int64) → List A → Int64 → Type 0
  IsLeast f l v = (has v (map f l) ≡ true) × All (λ x. sle v (f x) ≡ true) l

  abbrev pub IsGreatest : (A → Int64) → List A → Int64 → Type 0
  IsGreatest f l v = (has v (map f l) ≡ true) × All (λ x. sle (f x) v ≡ true) l

-- What records of one syscall come to: sums modulo 2^64, the first and the last sight, the largest
-- latency, and the first three samples.
pub record Combines (l : List SyscallRecord) (m : SyscallRecord) : Type 0 where
  pub count : m.count ≡ sum_of (λ r. r.count) l % word
  pub exits : m.exit_count ≡ sum_of (λ r. r.exit_count) l % word
  pub errors : m.error_count ≡ sum_of (λ r. r.error_count) l % word
  pub latency : m.total_latency_ns ≡ sum_of (λ r. r.total_latency_ns) l % word
  pub first : IsLeast (λ r. r.first_seen_offset_ms) l m.first_seen_offset_ms
  pub last : IsGreatest (λ r. r.last_seen_offset_ms) l m.last_seen_offset_ms
  pub slowest : IsGreatest (λ r. r.max_latency_ns) l m.max_latency_ns
  pub args : m.args_sample ≡ take 3 (all_of (λ r. r.args_sample) l)
  pub rets : m.ret_sample ≡ take 3 (all_of (λ r. r.ret_sample) l)

module _ {ℓ} {A : Type ℓ} where
  sum_of-last : (f : A → ℕ) (l : List A) (x : A) → sum_of f (l ++ x ∷ []) ≡ sum_of f l + f x
  sum_of-last f [] x = omega arith
  sum_of-last f (y ∷ l) x = omega (arith, sum_of-last f l x)

  all_of-last {κ} :
      {B : Type κ} (f : A → List B) (l : List A) (x : A)
      → all_of f (l ++ x ∷ []) ≡ all_of f l ++ f x
  all_of-last f [] x = append-nil (f x)
  all_of-last f (y ∷ l) x = rw (all_of-last f l x) (sym (append_assoc (f y) (all_of f l) (f x)))

  added :
      (f : A → ℕ) (l : List A) (x : A) (s : ℕ)
      → s ≡ sum_of f l % word
      → add64 s (f x) ≡ sum_of f (l ++ x ∷ []) % word
  added f l x s h = omega (arith, h, sum_of-last f l x)

  has-map-last :
      (v : ℕ) (f : A → ℕ) (l : List A) (x : A)
      → has v (map f (l ++ x ∷ [])) ≡ (if has v (map f l) then true else v == f x)
  unfolding has
  has-map-last v f [] x = ground arith
  has-map-last v f (y ∷ l) x = ground (arith, has-map-last v f l x)

  least :
      (f : A → Int64) (l : List A) (x : A) (v : Int64)
      → IsLeast f l v
      → IsLeast f (l ++ x ∷ []) (if slt (f x) v then f x else v)
  least f l x v (h, below) = elim (Bool-cases (slt (f x) v)) [
    | inl e ↦ rw e (
      ground (arith, has-map-last (f x) f l x, eq_iff (f x) (f x)),
      All-append (λ y. sle (f x) (f y) ≡ true) l (x ∷ [])
          (All-map (λ y. sle v (f y) ≡ true) _ l (λ y p. ground (arith, p, e)) below)
          (ground arith, tt),
    )
    | inr e ↦ rw e (
      ground (arith, has-map-last v f l x, h),
      All-append (λ y. sle v (f y) ≡ true) l (x ∷ []) below (ground (arith, e), tt),
    )
  ]

  greatest :
      (f : A → Int64) (l : List A) (x : A) (v : Int64)
      → IsGreatest f l v
      → IsGreatest f (l ++ x ∷ []) (if slt v (f x) then f x else v)
  greatest f l x v (h, above) = elim (Bool-cases (slt v (f x))) [
    | inl e ↦ rw e (
      ground (arith, has-map-last (f x) f l x, eq_iff (f x) (f x)),
      All-append (λ y. sle (f y) (f x) ≡ true) l (x ∷ [])
          (All-map (λ y. sle (f y) v ≡ true) _ l (λ y p. ground (arith, p, e)) above)
          (ground arith, tt),
    )
    | inr e ↦ rw e (
      ground (arith, has-map-last v f l x, h),
      All-append (λ y. sle (f y) v ≡ true) l (x ∷ []) above (ground (arith, e), tt),
    )
  ]

  three_samples : (a b c : A) (t : List A) → cap_append (a ∷ b ∷ c ∷ []) t ≡ a ∷ b ∷ c ∷ []
  unfolding cap_append
  three_samples a b c [] = refl
  three_samples a b c (x ∷ t) = refl

  cap_append-take : (s t : List A) → cap_append (take 3 s) t ≡ take 3 (s ++ t)
  unfolding cap_append
  cap_append-take [] [] = refl
  cap_append-take [] (a ∷ []) = refl
  cap_append-take [] (a ∷ b ∷ []) = refl
  cap_append-take [] (a ∷ b ∷ c ∷ t) = three_samples a b c t
  cap_append-take (a ∷ []) [] = refl
  cap_append-take (a ∷ []) (b ∷ []) = refl
  cap_append-take (a ∷ []) (b ∷ c ∷ t) = three_samples a b c t
  cap_append-take (a ∷ b ∷ []) [] = refl
  cap_append-take (a ∷ b ∷ []) (c ∷ t) = three_samples a b c t
  cap_append-take (a ∷ b ∷ c ∷ s) t = three_samples a b c t

  take_few : (s : List A) → length s ≤ 3 → take 3 (s ++ []) ≡ s
  take_few s h = take-few 3 s h

pub Combines-one : (r : SyscallRecord) → IsSound r → Combines (r ∷ []) r
unfolding has
Combines-one r (count, exits, errors, latency, args, rets) = record {
  count = omega (arith, count);
  exits = omega (arith, exits);
  errors = omega (arith, errors);
  latency = omega (arith, latency);
  first = (ground (arith, eq_refl r.first_seen_offset_ms), ground arith);
  last = (ground (arith, eq_refl r.last_seen_offset_ms), ground arith);
  slowest = (ground (arith, eq_refl r.max_latency_ns), ground arith);
  args = sym (take_few r.args_sample args);
  rets = sym (take_few r.ret_sample rets);
}

samples :
    {A : Type 0} (f : SyscallRecord → List A) (l : List SyscallRecord) (r : SyscallRecord)
    (s : List A)
    → s ≡ take 3 (all_of f l)
    → cap_append s (f r) ≡ take 3 (all_of f (l ++ r ∷ []))
samples f l r s h =
    ap (λ t. cap_append t (f r)) h
    ∙ cap_append-take (all_of f l) (f r)
    ∙ ap (take 3) (sym (all_of-last f l r))

pub Combines-merge_syscall :
    (l : List SyscallRecord) (m r : SyscallRecord)
    → Combines l m
    → Combines (l ++ r ∷ []) (merge_syscall m r)
unfolding merge_syscall
Combines-merge_syscall l m r h = record {
  count = added (λ x. x.count) l r m.count h.count;
  exits = added (λ x. x.exit_count) l r m.exit_count h.exits;
  errors = added (λ x. x.error_count) l r m.error_count h.errors;
  latency = added (λ x. x.total_latency_ns) l r m.total_latency_ns h.latency;
  first = least (λ x. x.first_seen_offset_ms) l r m.first_seen_offset_ms h.first;
  last = greatest (λ x. x.last_seen_offset_ms) l r m.last_seen_offset_ms h.last;
  slowest = greatest (λ x. x.max_latency_ns) l r m.max_latency_ns h.slowest;
  args = samples (λ x. x.args_sample) l r m.args_sample h.args;
  rets = samples (λ x. x.ret_sample) l r m.ret_sample h.rets;
}
