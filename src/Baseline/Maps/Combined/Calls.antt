-- ===== src/Baseline/Maps/Combined/Calls.antt =====
-- internal/baseline/merge.go: about the records under one name in the map of syscalls.
use mathlib.Core.List.{append-nil, append_assoc}
use scrutiny.Base.{
  ◌≡◌, sym, ap, ◌∙◌, inl, inr, Bool, Option, none, some, List, [], ◌∷◌, ◌++◌, if◌then◌else◌,
  Bool-cases, All,
}
use scrutiny.Base.Eq.{◌==◌, nat_eq, eq_iff}
use mathlib.Core.Path.{subst}
use scrutiny.Base.Text.{Text, text_eq}
use scrutiny.Base.Assoc.{Assoc, lookup, insert}
use scrutiny.Base.Assoc.Laws.{lookup-insert}
use scrutiny.Schema.Observed.{SyscallRecord}
use scrutiny.Baseline.Maps.{merge_syscall, merge_calls}
use scrutiny.Baseline.Maps.Combined.{IsSound, Combines, Combines-one, Combines-merge_syscall}

-- The records that stand under a name.
abbrev pub records_of : Text → Assoc Text SyscallRecord → List SyscallRecord
records_of name [] = []
records_of name ((n, r) ∷ l) = if n == name then r ∷ records_of name l else records_of name l

-- What is kept of a list of records: nothing of none.
abbrev pub ComesTo : List SyscallRecord → Option SyscallRecord → Type 0
ComesTo l none = l ≡ []
ComesTo l (some m) = Combines l m

one_more :
    (l : List SyscallRecord) (o : Option SyscallRecord) (r : SyscallRecord)
    → IsSound r
    → ComesTo l o
    → Combines (l ++ r ∷ []) (elim o [ some cur ↦ merge_syscall cur r | none ↦ r ])
one_more l none r sound h = subst (λ k. Combines (k ++ r ∷ []) r) (sym h) (Combines-one r sound)
one_more l (some m) r sound h = Combines-merge_syscall l m r h

pub lookup-merge_calls :
    (name : Text) (before : List SyscallRecord) (l m : Assoc Text SyscallRecord)
    → All IsSound (records_of name l)
    → ComesTo before (lookup name m)
    → ComesTo (before ++ records_of name l) (lookup name (merge_calls l m))
unfolding merge_calls
lookup-merge_calls name before [] m sound h =
    subst (λ k. ComesTo k (lookup name m)) (sym (append-nil before)) h
lookup-merge_calls name before ((n, r) ∷ l) m sound h =
    let v : SyscallRecord = elim (lookup n m) [ some cur ↦ merge_syscall cur r | none ↦ r ] in
    let next = insert n v m in
    let result = lookup name (merge_calls l next) in
    let listed : Bool → List SyscallRecord =
      λ b. if b then r ∷ records_of name l else records_of name l in
    let read : Bool → Option SyscallRecord = λ b. if b then some v else lookup name m in
    elim (Bool-cases (n == name)) [
      | inl e ↦
          let (r_sound, l_sound) = subst (λ b. All IsSound (listed b)) e sound in
          let old = subst (λ k. ComesTo before (lookup k m)) (sym ((eq_iff n name).0 e)) h in
          let kept =
            subst (ComesTo (before ++ r ∷ [])) (sym (lookup-insert n name v m ∙ ap read e))
              (one_more before (lookup n m) r r_sound old) in
          subst (λ b. ComesTo (before ++ listed b) result) (sym e)
            (subst (λ k. ComesTo k result) (append_assoc before (r ∷ []) (records_of name l))
              (lookup-merge_calls name (before ++ r ∷ []) l next l_sound kept))
      | inr e ↦
          subst (λ b. ComesTo (before ++ listed b) result) (sym e)
            (lookup-merge_calls name before l next (subst (λ b. All IsSound (listed b)) e sound)
              (subst (ComesTo before) (sym (lookup-insert n name v m ∙ ap read e)) h))
    ]
