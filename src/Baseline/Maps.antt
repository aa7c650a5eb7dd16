-- ===== src/Baseline/Maps.antt =====
-- internal/baseline/merge.go: how one loop over an observation writes one map of the accumulator.
pub mod Laws
pub mod Combined
pub mod Keys
use scrutiny.Base.{ℕ, ◌+◌, ◌-◌, not, none, some, List, [], ◌∷◌, ◌++◌, leb, if◌then◌else◌, length}
use scrutiny.Base.Eq.{Eq, nat_eq, has}
use scrutiny.Base.Int64.{add64, slt}
use scrutiny.Base.Text.{Text, codes, text_eq}
use scrutiny.Base.Decimal.{decimal}
use scrutiny.Base.Assoc.{Assoc, lookup, insert, bump}
use scrutiny.Base.Assoc.Laws.{is_some}
use scrutiny.Schema.Observed.{SyscallRecord, FilePath, PrivilegeChange}
use scrutiny.Schema.Baseline.{confidence_eq}

module _ {ℓ} {A : Type ℓ} (key : A → Text) where
  -- if _, ok := m[k]; !ok { m[k] = x }
  unfoldable pub keep_first : List A → Assoc Text A → Assoc Text A
  keep_first [] m = m
  keep_first (x ∷ l) m = keep_first l (if is_some (lookup (key x) m) then m else insert (key x) x m)

  -- m[k] = x
  unfoldable pub keep_last : List A → Assoc Text A → Assoc Text A
  keep_last [] m = m
  keep_last (x ∷ l) m = keep_last l (insert (key x) x m)

  -- m[k]++
  unfoldable pub count_keys : List A → Assoc Text ℕ → Assoc Text ℕ
  count_keys [] m = m
  count_keys (x ∷ l) m = count_keys l (bump (key x) m)

-- set[x] = true, for a set kept as the list of its elements
unfoldable pub add_names {ℓ} : {A : Type ℓ} ⦃e : Eq A⦄ → List A → List A → List A
add_names [] s = s
add_names (x ∷ l) s = add_names l (if has x s then s else s ++ x ∷ [])

abbrev pub max_samples : ℕ
max_samples = 3

-- capAppendStr and capAppendI64
unfoldable pub cap_append {ℓ} : {A : Type ℓ} → List A → List A → List A
cap_append dst [] = dst
cap_append dst (x ∷ src) =
    let rest = cap_append (dst ++ x ∷ []) src in if leb max_samples (length dst) then dst else rest

unfoldable pub merge_syscall : SyscallRecord → SyscallRecord → SyscallRecord
merge_syscall m r = record {
  count = add64 m.count r.count;
  first_seen_offset_ms =
      if slt r.first_seen_offset_ms m.first_seen_offset_ms
      then r.first_seen_offset_ms
      else m.first_seen_offset_ms;
  last_seen_offset_ms =
      if slt m.last_seen_offset_ms r.last_seen_offset_ms
      then r.last_seen_offset_ms
      else m.last_seen_offset_ms;
  args_sample = cap_append m.args_sample r.args_sample;
  exit_count = add64 m.exit_count r.exit_count;
  error_count = add64 m.error_count r.error_count;
  ret_sample = cap_append m.ret_sample r.ret_sample;
  max_latency_ns =
      if slt m.max_latency_ns r.max_latency_ns then r.max_latency_ns else m.max_latency_ns;
  total_latency_ns = add64 m.total_latency_ns r.total_latency_ns;
}

-- the loop over the observed syscalls
unfoldable pub merge_calls :
    Assoc Text SyscallRecord → Assoc Text SyscallRecord → Assoc Text SyscallRecord
merge_calls [] m = m
merge_calls ((name, rec) ∷ l) m =
    merge_calls l
      (insert name (elim (lookup name m) [ some cur ↦ merge_syscall cur rec | none ↦ rec ]) m)

unfoldable pub merge_files : List FilePath → Assoc Text FilePath → Assoc Text FilePath
merge_files [] m = m
merge_files (f ∷ l) m = merge_files l (
    insert f.normalized_path
      (elim (lookup f.normalized_path m) [
        | some cur ↦ record cur { count = add64 cur.count f.count }
        | none ↦ f
      ])
      m)

unfoldable pub privilege_key : PrivilegeChange → Text
privilege_key pc =
    decimal pc.from_uid ++ (codes "|" ++ (decimal pc.to_uid ++ (codes "|" ++ pc.syscall)))

-- the changes kept, in order, and the keys seen
unfoldable pub keep_changes :
    List PrivilegeChange → List PrivilegeChange × List Text → List PrivilegeChange × List Text
keep_changes [] s = s
keep_changes (pc ∷ l) (kept, seen) = keep_changes l (
    if not (has (privilege_key pc) seen)
    then (kept ++ pc ∷ [], privilege_key pc ∷ seen)
    else (kept, seen))
