-- ===== src/Analysis/Diff/Registry.antt =====
-- internal/analysis/analyze.go: diffRegistry.
use scrutiny.Base.{
  true, false, not, ◌&&◌, ◌||◌, Option, none, some, List, [], ◌∷◌, ◌++◌, map, if◌then◌else◌,
}
use scrutiny.Base.Eq.{nat_eq, has}
use scrutiny.Base.Text.{Text, codes, text_eq}
use scrutiny.Base.Report.{flag_each}
use scrutiny.Schema.Platform.{context_eq}
use scrutiny.Schema.Observed.{RegistryKey, RegistryObservation}
use scrutiny.Schema.Anomaly.{
  registry_persistence, registry_defense_impair, registry_new_write, AnomalyConfig, Dimension,
  dimension_eq, null, flag, string, Anomaly, anomaly_type_eq,
}
use scrutiny.Schema.Baseline.{confidence_eq}
use scrutiny.Analysis.Config.{new_anomaly}

abbrev pub key_of : RegistryKey → Text
key_of k = k.key

unfoldable pub defense_anomalies :
    RegistryObservation → RegistryObservation → AnomalyConfig → List Anomaly
defense_anomalies b o cfg =
    if o.security_weakened && not b.security_weakened
    then new_anomaly cfg Dimension.registry registry_defense_impair
        (codes "host security control weakened via registry (e.g. anonymous access enabled)")
        (flag false) (flag true) 0
      ∷ []
    else []

unfoldable pub persistence_anomalies :
    RegistryObservation → RegistryObservation → AnomalyConfig → List Anomaly
persistence_anomalies b o cfg =
    if o.persistence_path_touched && not b.persistence_path_touched
    then new_anomaly cfg Dimension.registry registry_persistence
        (codes "registry persistence path written") (flag b.persistence_path_touched) (flag true) 0
      ∷ []
    else []

unfoldable pub key_anomaly : RegistryObservation → AnomalyConfig → RegistryKey → Option Anomaly
key_anomaly b cfg k =
    if k.sensitive || has k.key (map key_of b.keys_written ++ map key_of b.keys_created)
    then none
    else some (
        new_anomaly cfg Dimension.registry registry_new_write
          (codes "new registry key written: " ++ k.key) null (string k.key) 0)

unfoldable pub diff_registry :
    RegistryObservation → RegistryObservation → AnomalyConfig → List Anomaly
diff_registry b o cfg =
    defense_anomalies b o cfg
    ++ (persistence_anomalies b o cfg
        ++ flag_each key_of (key_anomaly b cfg) [] (o.keys_written ++ o.keys_created))
