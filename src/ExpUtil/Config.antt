-- ===== src/ExpUtil/Config.antt =====
-- `read_config` and the parameter lookups of `exp-util.cc`. What a file name leads to is an
-- argument: the lines that `getline` gives, or that the file is missing or cannot be read.
pub mod Laws
use basic_sim.Prelude.{
  ℕ, ◌≡◌, Bool, true, false, not, ◌||◌, List, [], ◌∷◌, if◌then◌else◌, ◌==◌, is_nil, Option, none,
  some, map,
}
use basic_sim.Prelude.Text.{Bytes, codes, bytes_ord}
use basic_sim.Prelude.Results.{Result, ok, err, invalid_argument, runtime_error, guard, ◌>>=◌, ◌>>◌}
use basic_sim.Containers.SortedMap.{find, insert}
use basic_sim.ExpUtil.Strings.{trim, remove_start_end_double_quote_if_present}
use basic_sim.ExpUtil.Split.{split_string_expected}
use basic_sim.ExpUtil.Collections.{at_index}

pub data File : Type 0 where
  missing unreadable : File
  text : List Bytes → File

abbrev pub Config : Type 0
Config = List (Bytes × Bytes)

abbrev pub has_key : Bytes → Config → Bool
has_key key config = elim (find key config) [ none ↦ false | some v ↦ true ]

-- A line that is blank or begins with `#` is skipped.
unfoldable pub is_skipped : Bytes → Bool
is_skipped [] = true
is_skipped (c ∷ line) = is_nil (trim (c ∷ line)) || c == 35

-- A line `key=value` is put into the configuration.
unfoldable pub read_property : Bytes → Config → Result Config
read_property line config = do
  equals_split ← split_string_expected line (codes "=") 2
  k ← at_index equals_split 0
  v ← at_index equals_split 1
  let key = trim k
  let value = remove_start_end_double_quote_if_present (trim v)
  guard (not (has_key key config)) runtime_error
  ok (insert key value config)

unfoldable pub read_lines : List Bytes → Config → Result Config
unfolding is_skipped read_property
read_lines [] config = ok config
read_lines (line ∷ lines) config =
    (if is_skipped line then ok config else read_property line config) >>= λ config'.
    read_lines lines config'

unfoldable pub read_config : File → Result Config
unfolding read_lines
read_config missing = err runtime_error
read_config unreadable = err runtime_error
read_config (text lines) = read_lines lines []

unfoldable pub get_param_or_fail : Bytes → Config → Result Bytes
get_param_or_fail key config = elim (find key config) [
  | none ↦ err invalid_argument
  | some v ↦ ok v
]

unfoldable pub get_param_or_default : Bytes → Bytes → Config → Bytes
get_param_or_default key default config = elim (find key config) [ none ↦ default | some v ↦ v ]

-- `read_file_direct`: the lines, trimmed.
unfoldable pub read_file_direct : File → Result (List Bytes)
read_file_direct missing = err runtime_error
read_file_direct unreadable = err runtime_error
read_file_direct (text lines) = ok (map trim lines)
