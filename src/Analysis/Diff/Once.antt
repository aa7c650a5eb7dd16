-- ===== src/Analysis/Diff/Once.antt =====
-- internal/analysis/analyze.go: about the registry keys that diffRegistry reports.
use scrutiny.Base.{
  ◌≡◌, refl, ap, sym, All, not, ◌&&◌, some, List, [], ◌∷◌, ◌++◌, map, arith, if◌then◌else◌,
}
use scrutiny.Base.Eq.{nat_eq, eq_iff, has, Distinct}
use scrutiny.Base.Text.{Text, text_eq}
use scrutiny.Base.Report.{flag_each}
use scrutiny.Base.Report.Laws.{hits, All-flag_each, has-flag_each, flag_each-Distinct}
use scrutiny.Schema.Observed.{RegistryKey, RegistryObservation}
use scrutiny.Schema.Anomaly.{AnomalyConfig, Anomaly, string}
use scrutiny.Analysis.Config.{new_anomaly}
use scrutiny.Analysis.Diff.Laws.{reported_name}
use scrutiny.Analysis.Diff.Registry.{
  key_of, key_anomaly, defense_anomalies, persistence_anomalies, diff_registry,
}
use scrutiny.Base.Report.Picked.{picked, picked-append, picked-none, picked-tags}
use mathlib.Core.Path.{subst}

-- The keys that are not sensitive; the sensitive ones raise the findings on flags.
abbrev pub plain_keys : List RegistryKey → List Text
plain_keys [] = []
plain_keys (k ∷ l) = if k.sensitive then plain_keys l else k.key ∷ plain_keys l

abbrev pub base_keys : RegistryObservation → List Text
base_keys b = map key_of b.keys_written ++ map key_of b.keys_created

key-tagged :
    (b : RegistryObservation) (cfg : AnomalyConfig) (k : RegistryKey) (a : Anomaly)
    → key_anomaly b cfg k ≡ some a
    → reported_name a ≡ key_of k
unfolding key_anomaly new_anomaly
key-tagged b cfg k a h = ground (arith, h)

hits-plain :
    (b : RegistryObservation) (cfg : AnomalyConfig) (k : Text) (l : List RegistryKey)
    → hits key_of (key_anomaly b cfg) k l ≡ (has k (plain_keys l) && not (has k (base_keys b)))
unfolding has key_anomaly
hits-plain b cfg k [] = refl
hits-plain b cfg k (x ∷ l) = ground (arith, eq_iff k x.key, hits-plain b cfg k l)

-- The text that a finding shows, where it shows one.
abbrev pub text_of : Anomaly → List Text
text_of a = elim a.observed_value [ string s ↦ s ∷ [] | _ ↦ [] ]

key_shown :
    (b : RegistryObservation) (cfg : AnomalyConfig) (k : RegistryKey) (a : Anomaly)
    → key_anomaly b cfg k ≡ some a
    → text_of a ≡ reported_name a ∷ []
unfolding key_anomaly new_anomaly
key_shown b cfg k a h = ground (arith, h)

module _ (b o : RegistryObservation) (cfg : AnomalyConfig) where
  signals_show_none :
      All (λ a. text_of a ≡ []) (defense_anomalies b o cfg)
      × All (λ a. text_of a ≡ []) (persistence_anomalies b o cfg)
  unfolding defense_anomalies persistence_anomalies new_anomaly
  signals_show_none = (ground arith, ground arith)

  abbrev found_keys : List Anomaly
  found_keys = flag_each key_of (key_anomaly b cfg) [] (o.keys_written ++ o.keys_created)

  picked-keys : picked text_of (diff_registry b o cfg) ≡ map reported_name found_keys
  unfolding diff_registry
  picked-keys = cc (
    picked-append text_of (defense_anomalies b o cfg) (persistence_anomalies b o cfg ++ found_keys),
    picked-append text_of (persistence_anomalies b o cfg) found_keys,
    picked-none text_of (defense_anomalies b o cfg) signals_show_none.0,
    picked-none text_of (persistence_anomalies b o cfg) signals_show_none.1,
    picked-tags text_of reported_name found_keys
        (All-flag_each key_of (key_anomaly b cfg) _ [] _ (key_shown b cfg)),
  )

-- diffRegistry reports a registry key that is not sensitive exactly when the observation wrote or
-- created it and the baseline did neither, and once, however often the observation lists it.
pub keys-reports :
    (k : Text) (b o : RegistryObservation) (cfg : AnomalyConfig)
    → (has k (picked text_of (diff_registry b o cfg))
        ≡ (has k (plain_keys (o.keys_written ++ o.keys_created)) && not (has k (base_keys b))))
      × Distinct (picked text_of (diff_registry b o cfg))
unfolding has
keys-reports k b o cfg =
    let l = o.keys_written ++ o.keys_created in
    let hit = key_anomaly b cfg in
    let same = picked-keys b o cfg in
    (
      ground (
        arith,
        ap (has k) same,
        has-flag_each key_of hit reported_name (key-tagged b cfg) k [] l,
        hits-plain b cfg k l,
      ),
      subst Distinct (sym same)
          (flag_each-Distinct key_of hit reported_name (key-tagged b cfg) [] l),
    )
