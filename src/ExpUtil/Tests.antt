-- ===== src/ExpUtil/Tests.antt =====
-- The parsers on short texts.
use basic_sim.Prelude.{ℕ, ◌≡◌, ◌≢◌, refl, List, [], ◌∷◌, ◌++◌, All, none, some, ◌↔◌, length, true}
use basic_sim.Prelude.Int.{negsuc}
use basic_sim.Prelude.Text.{Bytes, codes, bytes_ord}
use basic_sim.Prelude.Results.{ok}
use basic_sim.Containers.SortedSet.{IsSorted}
use basic_sim.Containers.SortedMap
use basic_sim.Containers.SortedMap.{keys}
use basic_sim.ExpUtil.Strings.{trim, find, is_space}
use basic_sim.ExpUtil.Split.{split_string, join, split_string_lem}
use basic_sim.ExpUtil.Numbers.{parse_int64, is_digit}
use basic_sim.ExpUtil.Numbers.Laws.{plus, number, parse_int64_complete, sign_bytes}
use basic_sim.ExpUtil.Collections.{parse_set_string}
use basic_sim.ExpUtil.Collections.Laws.{IsSetOf, parse_set_string_sound}
use basic_sim.ExpUtil.Config.{Config, text, read_config}
use basic_sim.ExpUtil.Config.Laws.{HasProperties, HasDistinctKeys, IsAmong, read_config_sound}

split_string_lem_example :
    (join (codes "->") (split_string (codes "1->22->") (codes "->")) ≡ codes "1->22->")
    × All (λ p. find (codes "->") p ≡ none) (split_string (codes "1->22->") (codes "->"))
split_string_lem_example = split_string_lem (codes "1->22->") (codes "->") (λ e. cc e)

-- Twelve digits with a sign and spaces.
parse_int64_complete_example :
    parse_int64 (codes "  " ++ ((sign_bytes plus ++ codes "123456789012") ++ codes " "))
    ≡ number plus (codes "123456789012")
unfolding is_space is_digit
parse_int64_complete_example =
    parse_int64_complete (codes "  ") plus (codes "123456789012") (codes " ") (refl, (refl, tt))
      (refl, tt) (λ e. cc e)
      (
        refl,
        (refl, (refl, (refl, (refl, (refl, (refl, (refl, (refl, (refl, (refl, (refl, tt))))))))))),
      )

parsed_number : parse_int64 (codes " -42 ") ≡ ok (negsuc 41)
unfolding parse_int64 basic_sim.ExpUtil.Numbers.stoll basic_sim.ExpUtil.Strings.left_trim trim
    is_space basic_sim.ExpUtil.Numbers.digits_prefix is_digit basic_sim.ExpUtil.Numbers.fits_int64
    basic_sim.ExpUtil.Numbers.value basic_sim.ExpUtil.Numbers.signed
parsed_number = refl

abbrev two_items : List Bytes
two_items = codes "a" ∷ codes "b" ∷ []

parsed_set : parse_set_string (codes "set( b, a)") ≡ ok two_items
unfolding parse_set_string basic_sim.ExpUtil.Strings.starts_with basic_sim.Prelude.Text.bytes_beq
    basic_sim.ExpUtil.Strings.ends_with trim is_space split_string find
    basic_sim.Containers.SortedSet.insert_all basic_sim.Containers.SortedSet.insert
    basic_sim.Prelude.Text.bytes_lt
parsed_set = refl

parse_set_string_sound_example :
    (inner : Bytes) × (codes "set( b, a)" ≡ codes "set(" ++ (inner ++ codes ")"))
    × (IsSorted two_items × IsSetOf inner two_items)
parse_set_string_sound_example = parse_set_string_sound (codes "set( b, a)") two_items parsed_set

abbrev lines : List Bytes
lines = codes "# comment" ∷ codes "b=\"2\"" ∷ [] ∷ codes "a = 1" ∷ []

abbrev config : Config
config = (codes "a", codes "1") ∷ (codes "b", codes "2") ∷ []

config_read : read_config (text lines) ≡ ok config
unfolding read_config trim is_space basic_sim.ExpUtil.Split.split_string_expected split_string find
    basic_sim.Prelude.Text.bytes_beq basic_sim.Containers.SortedMap.find
    basic_sim.Containers.SortedMap.insert basic_sim.Containers.SortedSet.same
    basic_sim.Prelude.Text.bytes_lt
    basic_sim.ExpUtil.Strings.remove_start_end_double_quote_if_present
config_read = refl

read_config_sound_example :
    (ps : List (Bytes × Bytes)) × HasProperties lines ps
    × HasDistinctKeys ps
    × IsSorted (keys config)
    × ((k v : Bytes) → (SortedMap.find k config ≡ some v) ↔ IsAmong k v ps)
read_config_sound_example = read_config_sound lines config config_read
