-- ===== src/Analysis/Engine/Ordered.antt =====
-- internal/analysis/analyze.go: about the findings that Analyze returns, and their order.
use scrutiny.Base.{◌++◌}
use mathlib.Core.List.{Perm}
use scrutiny.Schema.Baseline.{Baseline, Observation}
use scrutiny.Analysis.Config.{effective_config}
use scrutiny.Analysis.Order.Laws.{EachPrecedes, sort_anomalies-sorts}
use scrutiny.Analysis.Diff.Syscalls.{diff_syscalls}
use scrutiny.Analysis.Diff.Network.{diff_network}
use scrutiny.Analysis.Diff.Filesystem.{diff_filesystem}
use scrutiny.Analysis.Diff.Registry.{diff_registry}
use scrutiny.Analysis.Diff.Process.{diff_process}
use scrutiny.Analysis.Diff.Memory.{diff_memory}
use scrutiny.Analysis.Engine.{all_diffs, analyze}

-- Analyze returns the findings of the six comparisons, none lost or made twice. Each stands before the
-- later ones by rule: active before suppressed, then by falling weight in the signed order, then by the
-- dimension's name, then by description.
pub analyze-sorts :
    (b : Baseline) (o : Observation)
    → let cfg = effective_config b.anomaly_cfg in
      Perm (analyze b o).anomalies (
        diff_syscalls b.syscalls o.base.syscalls cfg
        ++ (diff_network b.network o.base.network cfg
            ++ (diff_filesystem b.filesystem o.base.filesystem cfg
                ++ (diff_registry b.registry o.base.registry cfg
                    ++ (diff_process b.process o.base.process cfg
                        ++ diff_memory b.memory o.base.memory cfg)))))
      × EachPrecedes (analyze b o).anomalies
unfolding analyze all_diffs
analyze-sorts b o = sort_anomalies-sorts (all_diffs b o.base (effective_config b.anomaly_cfg))
