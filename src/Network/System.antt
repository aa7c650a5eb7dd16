-- ===== src/Network/System.antt =====
-- internal/sensor/network/collector_linux.go: the inodes of the target's sockets, and the promiscuous
-- interfaces.
use scrutiny.Base.{
  ◌-◌, ◌%◌, Bool, false, ◌&&◌, ◌||◌, Option, none, some, List, [], ◌∷◌, ◌++◌, if◌then◌else◌, ltb,
  nat_beq, leb,
}
use scrutiny.Base.Eq.{nat_eq}
use scrutiny.Base.Int64.{Int64, word, sign_bit}
use scrutiny.Base.Text.{Text, codes, text_eq}
use scrutiny.Base.Text.Search.{has_prefix, has_suffix}
use scrutiny.Base.Text.Parts.{trim_space, trim_prefix, drop_like}
use scrutiny.Base.Numeral.{parse_hex}
use scrutiny.Sensor.Capability.{bit}
use scrutiny.Procfs.Collect.{Snapshot, proc_path}

drop_last : Text → Text
drop_last [] = []
drop_last (c ∷ []) = []
drop_last (c ∷ d ∷ s) = c ∷ drop_last (d ∷ s)

-- The inode of a link `socket:[<inode>]`.
unfoldable pub link_inode : Text → Option Text
unfolding has_prefix has_suffix drop_like drop_last
link_inode link =
    if has_prefix link (codes "socket:[") && has_suffix link (codes "]")
    then some (drop_last (drop_like (codes "socket:[") link))
    else none

unfoldable pub inodes_in : Snapshot → Text → List Text → List Text
unfolding link_inode
inodes_in p dir [] = []
inodes_in p dir (name ∷ l) =
    let rest = inodes_in p dir l in
    elim (p.readlink (dir ++ codes "/" ++ name)) [
      | none ↦ rest
      | some link ↦ elim (link_inode link) [ none ↦ rest | some inode ↦ inode ∷ rest ]
    ]

unfoldable pub socket_inodes : Snapshot → Int64 → Option (List Text)
unfolding proc_path inodes_in
socket_inodes p pid =
    let dir = proc_path pid (codes "fd") in
    elim (p.read_dir dir) [ none ↦ none | some names ↦ some (inodes_in p dir names) ]

-- ParseInt in base 16: a word, none on an error.
unfoldable pub parse_hex_int : Text → Option Int64
unfolding parse_hex
parse_hex_int [] = none
parse_hex_int (c ∷ s) =
    let negative = nat_beq c b'-' in
    let digits = if negative || nat_beq c b'+' then s else c ∷ s in
    elim (parse_hex digits) [
      | none ↦ none
      | some n ↦
          if negative
          then if leb n sign_bit then some ((word - n) % word) else none
          else if ltb n sign_bit
          then some n
          else none
    ]

unfoldable pub is_promiscuous : Text → Bool
unfolding trim_space trim_prefix parse_hex_int bit
is_promiscuous raw = elim (parse_hex_int (trim_space (trim_prefix (trim_space raw) (codes "0x")))) [
  | none ↦ false
  | some flags ↦ bit flags 8
]

unfoldable pub promiscuous_in : Snapshot → List Text → List Text
unfolding is_promiscuous
promiscuous_in p [] = []
promiscuous_in p (name ∷ l) =
    let rest = promiscuous_in p l in
    elim (p.read_file (codes "/sys/class/net/" ++ name ++ codes "/flags")) [
      | none ↦ rest
      | some raw ↦ if is_promiscuous raw then name ∷ rest else rest
    ]

unfoldable pub promiscuous_interfaces_now : Snapshot → List Text
unfolding promiscuous_in
promiscuous_interfaces_now p = elim (p.read_dir (codes "/sys/class/net")) [
  | none ↦ []
  | some names ↦ promiscuous_in p names
]
