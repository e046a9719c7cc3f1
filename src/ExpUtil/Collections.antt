-- ===== src/ExpUtil/Collections.antt =====
-- The parsers of sets, lists and maps in `exp-util.cc`.
pub mod Laws
use basic_sim.Prelude.{
  ℕ, suc, ◌-◌, ◌≡◌, Bool, true, false, not, ◌&&◌, List, [], ◌∷◌, ◌++◌, map, if◌then◌else◌, ◌==◌,
  length, drop, take, is_nil, get_elem?, Option, none, some,
}
use basic_sim.Prelude.Int.{ℤ, pos, ltb_ℤ, int_ord}
use basic_sim.Prelude.Order.{pair_ord}
use basic_sim.Prelude.Text.{Bytes, codes, bytes_ord}
use basic_sim.Prelude.Results.{
  Result, ok, err, invalid_argument, out_of_range, guard, ◌>>=◌, ◌>>◌, map_result,
}
use basic_sim.Containers.SortedSet.{insert, insert_all, intersection, union, same}
use basic_sim.ExpUtil.Strings.{trim, starts_with, ends_with}
use basic_sim.ExpUtil.Split.{split_string, split_string_expected}
use basic_sim.ExpUtil.Numbers.{parse_positive_int64}

abbrev comma : Bytes
comma = 44 ∷ []

-- `vector::at`.
abbrev pub at_index {ℓ} : {A : Type ℓ} → List A → ℕ → Result A
at_index xs i = elim (get_elem? xs i) [ none ↦ err out_of_range | some x ↦ ok x ]

-- What stands between `name(` and `)`; `opening` holds the parenthesis.
unfoldable pub inside : Bytes → Bytes → Result Bytes
inside opening str =
    if starts_with str opening && ends_with str (codes ")")
    then ok (take (length str - suc (length opening)) (drop (length opening) str))
    else err invalid_argument

unfoldable pub parse_set_string : Bytes → Result (List Bytes)
unfolding inside
parse_set_string str = do
  only_inside ← inside (codes "set(") str
  let final = split_string only_inside comma
  let final_set = insert_all (map trim final) []
  if is_nil (trim only_inside)
      then ok []
      else (guard (length final == length final_set) invalid_argument >> ok final_set)

unfoldable pub parse_set_positive_int64 : Bytes → Result (List ℤ)
parse_set_positive_int64 str = do
  string_set ← parse_set_string str
  int64s ← map_result parse_positive_int64 string_set
  let int64_set = insert_all int64s []
  guard (length string_set == length int64_set) invalid_argument
  ok int64_set

-- One entry `a->b`.
unfoldable pub parse_directed_pair : Bytes → Result (ℤ × ℤ)
parse_directed_pair s = do
  split_by_directed_arrow ← split_string_expected s (codes "->") 2
  a ← at_index split_by_directed_arrow 0 >>= parse_positive_int64
  b ← at_index split_by_directed_arrow 1 >>= parse_positive_int64
  guard (not (same a b)) invalid_argument
  ok (a, b)

unfoldable pub parse_set_directed_pair_positive_int64 : Bytes → Result (List (ℤ × ℤ))
unfolding parse_directed_pair
parse_set_directed_pair_positive_int64 str = do
  string_set ← parse_set_string str
  pairs ← map_result parse_directed_pair string_set
  let directed_pair_set = insert_all pairs []
  guard (length string_set == length directed_pair_set) invalid_argument
  ok directed_pair_set

unfoldable pub parse_list_string : Bytes → Result (List Bytes)
unfolding inside
parse_list_string str = do
  only_inside ← inside (codes "list(") str
  let final_list = map trim (split_string only_inside comma)
  ok (if is_nil (trim only_inside) then [] else final_list)

unfoldable pub parse_list_positive_int64 : Bytes → Result (List ℤ)
parse_list_positive_int64 str = do
  string_list ← parse_list_string str
  map_result parse_positive_int64 string_list

-- The loop over the entries of a map, with the pairs and the key set so far.
unfoldable pub parse_map_entries :
    List Bytes → List (Bytes × Bytes) → List Bytes → Result (List (Bytes × Bytes))
parse_map_entries [] result key_set = ok result
parse_map_entries (s ∷ ss) result key_set = do
  colon_split_list ← split_string_expected s (codes ":") 2
  k ← at_index colon_split_list 0
  v ← at_index colon_split_list 1
  let result' = result ++ (trim k, trim v) ∷ []
  let key_set' = insert (trim k) key_set
  guard (length result' == length key_set') invalid_argument
  parse_map_entries ss result' key_set'

unfoldable pub parse_map_string : Bytes → Result (List (Bytes × Bytes))
unfolding inside parse_map_entries
parse_map_string str = do
  only_inside ← inside (codes "map(") str
  let entries = parse_map_entries (split_string only_inside comma) [] []
  if is_nil (trim only_inside) then ok [] else entries

unfoldable pub all_items_are_less_than : List ℤ → ℤ → Result (Unit {0})
all_items_are_less_than [] number = ok tt
all_items_are_less_than (val ∷ vals) number =
    guard (ltb_ℤ val number) invalid_argument >> all_items_are_less_than vals number

unfoldable pub direct_set_intersection : List ℤ → List ℤ → List ℤ
direct_set_intersection s1 s2 = intersection s1 s2

unfoldable pub direct_set_union : List ℤ → List ℤ → List ℤ
direct_set_union s1 s2 = union s1 s2
