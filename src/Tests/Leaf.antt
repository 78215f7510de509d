-- ===== src/Tests/Leaf.antt =====
-- The command line of a leaf and its telemetry at concrete inputs.
use edge_sync.Base.{text_eq, Text, codes, ◌≡◌, refl, none, [], ◌∷◌, map, ◌==◌, if◌then◌else◌}
use edge_sync.Leaf.{cut_equals, Headers, put, lookup, put_pairs, parse_headers}
use edge_sync.Leaf.Headers.{join_commas, print_pair, IsPlain, latest, parse_headers_lem}
use edge_sync.Cli.Notify.{split_commas}

-- Removes one space at the front.
unfoldable trim_front : Text → Text
trim_front [] = []
trim_front (c ∷ t) = if c == b' ' then t else c ∷ t

abbrev key_one : Text
key_one = codes "a"

abbrev first_pair : Text × Text
first_pair = (key_one, codes "x=1")

abbrev second_pair : Text × Text
second_pair = (codes "b", codes "2")

abbrev third_pair : Text × Text
third_pair = (key_one, codes "3")

abbrev given_headers : Headers
given_headers = second_pair ∷ third_pair ∷ []

-- A value keeps its equals sign, a pair without one is skipped.
parse_headers_run :
    parse_headers trim_front (codes "a=x=1, b= 2,c")
    ≡ (key_one, codes "x=1") ∷ (codes "b", codes "2") ∷ []
unfolding parse_headers put_pairs split_commas cut_equals put trim_front text_eq
parse_headers_run = refl

first_pair-IsPlain : IsPlain trim_front first_pair
unfolding trim_front
first_pair-IsPlain = record {
  trimmed_key = refl;
  trimmed_value = refl;
  no_equals = (refl, _);
  no_comma = (refl, (refl, (refl, (refl, (refl, _)))));
}

second_pair-IsPlain : IsPlain trim_front second_pair
unfolding trim_front
second_pair-IsPlain = record {
  trimmed_key = refl;
  trimmed_value = refl;
  no_equals = (refl, _);
  no_comma = (refl, (refl, (refl, _)));
}

third_pair-IsPlain : IsPlain trim_front third_pair
unfolding trim_front
third_pair-IsPlain = record {
  trimmed_key = refl;
  trimmed_value = refl;
  no_equals = (refl, _);
  no_comma = (refl, (refl, (refl, _)));
}

parse_headers_example :
    lookup key_one (
      parse_headers trim_front (join_commas (print_pair first_pair) (map print_pair given_headers)))
    ≡ latest key_one (first_pair ∷ given_headers) none
parse_headers_example =
    parse_headers_lem trim_front key_one first_pair given_headers
      (first_pair-IsPlain, (second_pair-IsPlain, (third_pair-IsPlain, _)))
