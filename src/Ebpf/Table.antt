-- ===== src/Ebpf/Table.antt =====
-- internal/sensor/ebpf/syscall_table.go: the name of a syscall number. The table is three lists.
mod Low
mod Middle
mod High
pub mod Names
use scrutiny.Base.{ℕ, ◌++◌, get_or}
use scrutiny.Base.Eq.{nat_eq}
use scrutiny.Base.Int64.{Int64}
use scrutiny.Base.Decimal.{decimal}
use scrutiny.Base.Text.{Text, codes}
use scrutiny.Base.Assoc.{Assoc, lookup}
use scrutiny.Ebpf.Table.Low.{low_names}
use scrutiny.Ebpf.Table.Middle.{middle_names}
use scrutiny.Ebpf.Table.High.{high_names}

unfoldable pub syscall_names : Assoc ℕ Text
unfolding low_names middle_names high_names
syscall_names = low_names ++ (middle_names ++ high_names)

unfoldable pub syscall_name : Int64 → Text
syscall_name nr = get_or (codes "sys_" ++ decimal nr) (lookup nr syscall_names)
