-- ===== src/Procfs/Parse.antt =====
-- internal/sensor/procfs/procfs.go: the parsers of /proc files. The loop of parseMaps has a function
-- for each of the lists that it appends to.
use scrutiny.Base.{
  ◌-◌, Bool, false, not, ◌&&◌, ◌||◌, Option, none, some, List, [], ◌∷◌, ◌++◌, if◌then◌else◌, ltb,
}
use scrutiny.Base.Eq.{◌==◌, nat_eq}
use scrutiny.Base.Int64.{Int64, sle}
use scrutiny.Base.Text.{Text, codes, text_eq, join}
use scrutiny.Base.Text.Search.{has_prefix, has_suffix}
use scrutiny.Base.Text.Parts.{split, fields, cut}
use scrutiny.Base.Numeral.{parse_hex, parse_int}
use scrutiny.Base.Report.{report_each, flag_each}
use scrutiny.Schema.Observed.{MemoryRegion}

-- 100 MiB
abbrev pub large_alloc_bytes : Int64
large_alloc_bytes = 104857600

has_one_prefix : Text → List Text → Bool
unfolding has_prefix
has_one_prefix s [] = false
has_one_prefix s (p ∷ l) = has_prefix s p || has_one_prefix s l

unfoldable pub anonymous_mapping : Text → Bool
unfolding has_prefix has_suffix has_one_prefix
anonymous_mapping pathname =
    pathname == []
    || has_prefix pathname (codes "[")
    || has_suffix pathname (codes "(deleted)")
    || has_one_prefix pathname (
        codes "/dev/zero"
        ∷ codes "/dev/shm/"
        ∷ codes "/memfd:"
        ∷ codes "memfd:"
        ∷ codes "anon_inode:"
        ∷ [])

unfoldable pub region_size : Text → Int64
unfolding cut parse_hex
region_size range = elim (cut b'-' range) [
  | none ↦ 0
  | some (first, last) ↦ elim (parse_hex first) [
    | none ↦ 0
    | some start ↦ elim (parse_hex last) [
      | none ↦ 0
      | some end ↦ if ltb end start then 0 else end - start
    ]
  ]
]

-- What parseMaps reads of a line.
pub record MapsLine : Type 0 where
  pub addr_range : Text
  pub exec : Bool
  pub write : Bool
  pub pathname : Text

-- None where the line has fewer than five fields, or fewer than four permissions.
unfoldable pub maps_line_of : List Text → Option MapsLine
unfolding join
maps_line_of (range ∷ (r ∷ w ∷ x ∷ p ∷ perms) ∷ offset ∷ device ∷ inode ∷ path) = some (record {
  addr_range = range;
  exec = x == b'x';
  write = w == b'w';
  pathname = join path (codes " ");
})
maps_line_of _ = none

unfoldable pub maps_lines : List Text → List MapsLine
unfolding report_each maps_line_of fields
maps_lines = report_each (λ line. maps_line_of (fields line))

unfoldable pub region_of : MapsLine → Option MemoryRegion
region_of l =
    let anon = anonymous_mapping l.pathname in
    if l.exec && (anon || l.write)
    then some (record {
      address_range = l.addr_range;
      backed_by = if anon then codes "anonymous" else codes "file";
      suspicious = l.write;
    })
    else none

unfoldable pub mapped_of : MapsLine → Option Text
mapped_of l =
    if not (anonymous_mapping l.pathname) && has_prefix l.pathname (codes "/")
    then some l.pathname
    else none

unfoldable pub large_of : MapsLine → Option Int64
large_of l =
    let size = region_size l.addr_range in
    if anonymous_mapping l.pathname && l.write && sle large_alloc_bytes size
    then some size
    else none

abbrev pub pathname_of : MapsLine → Text
pathname_of l = l.pathname

unfoldable pub parse_maps : Text → List MemoryRegion × List Text × List Int64
unfolding maps_lines region_of mapped_of large_of split report_each flag_each
parse_maps contents =
    let lines = maps_lines (split b'\n' contents) in
    (
      report_each region_of lines,
      flag_each pathname_of mapped_of [] lines,
      report_each large_of lines,
    )

-- The number in the field of a line, where there is one.
unfoldable pub third_number : List Text → Option Int64
unfolding parse_int
third_number (a ∷ b ∷ c ∷ rest) = let (v, valid) = parse_int c in if valid then some v else none
third_number _ = none

unfoldable pub second_number : List Text → Option Int64
unfolding parse_int
second_number (a ∷ b ∷ rest) = let (v, valid) = parse_int b in if valid then some v else none
second_number _ = none

-- The number in the first line with the prefix that has one.
unfoldable pub number_in : (List Text → Option Int64) → Text → List Text → Option Int64
unfolding has_prefix fields
number_in number prefix [] = none
number_in number prefix (line ∷ lines) =
    let rest = number_in number prefix lines in
    if has_prefix line prefix
    then elim (number (fields line)) [ none ↦ rest | some v ↦ some v ]
    else rest

unfoldable pub parse_status_euid : Text → Option Int64
unfolding number_in third_number split
parse_status_euid contents = number_in third_number (codes "Uid:") (split b'\n' contents)

unfoldable pub parse_status_kb : Text → Text → Int64
unfolding number_in second_number split
parse_status_kb contents key =
    elim (number_in second_number (key ++ codes ":") (split b'\n' contents)) [
      | none ↦ 0
      | some v ↦ v
    ]
