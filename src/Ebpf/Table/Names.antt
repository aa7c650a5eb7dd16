-- ===== src/Ebpf/Table/Names.antt =====
-- internal/sensor/ebpf/syscall_table.go: about the names of different syscalls.
use scrutiny.Base.{◌≡◌, refl, Bool, true, not, ◌&&◌, List, [], ◌∷◌}
use scrutiny.Base.Eq.{nat_eq, has, list_beq}
use scrutiny.Base.Text.{Text, text_eq}
use scrutiny.Base.Assoc.{values}
use scrutiny.Ebpf.Table.{syscall_names}

distinct? : List Text → Bool
distinct? [] = true
distinct? (x ∷ xs) = not (has x xs) && distinct? xs

table_distinct : distinct? (values syscall_names) ≡ true
unfolding distinct? has list_beq syscall_names
table_distinct = refl
