-- ===== src/Steng/Tests.antt =====
-- Filters and the change bus at concrete inputs.
use netab.Common.{
  ℕ, length, suc, ◌≤◌, ◌<◌, arith, true, false, split, List, [], ◌∷◌, ◌++◌, none, some, ◌≡◌, refl,
  All, get, nat_eq, string_eq, if◌then◌else◌,
}
use netab.Json.{Value, num, str, obj, end, field, get_prop}
use netab.Steng.Types.{json, i64, FilterClause, TableInfo, ChangeEvent, lt, ge, added}
use netab.Steng.Filtering
use netab.Steng.Filtering.{
  match_clause, actual_of, filter_upper_bound, assert_filter_supported, upper_bound_from,
  clause_upper_bound,
}
use netab.Utils.{get_field, walk, get_part, is_container}
use netab.Steng.Filtering.Laws.{filter_upper_bound_sound}
use netab.Steng.ChangeBus.{
  ChangeBus, Unsub, new_bus, subscribe, unsubscribe, publish, wants, listeners, matches_filter,
  bucket_of,
}
use netab.Steng.IdGeneration.{encode_time, sanitize_id_token, is_token_char}
use netab.Steng.IdGeneration.Time.{digits_value, encode_time_lem}
use netab.Steng.IdGeneration.Tokens.{all_parts, all_parts-sanitize_id_token}
use netab.Steng.ChangeBus.Filters.{matches_filter-agree}
use netab.Steng.ChangeBus.Listening.{
  IsSound, new_bus-IsSound, me_of, publish-subscribe, publish-unsubscribe, subscribe-IsSound,
}
use netab.Steng.ChangeBus.Unsubscribe.{unsubscribe_twice}

abbrev young : List FilterClause
young =
    record { field = "age"; op = ge; value = num 10 }
    ∷ record { field = "age"; op = lt; value = num 18 }
    ∷ []

abbrev minor : Value
minor = obj (field "name" (str "Tim") (field "age" (num 12) end))

minor_matches : Filtering.matches_filter minor (some young) ≡ true
unfolding Filtering.matches_filter match_clause actual_of get_field walk split get_part is_container
    get_prop
minor_matches = refl

bounded : filter_upper_bound (some young) "age" ≡ some 18
unfolding filter_upper_bound upper_bound_from clause_upper_bound
bounded = refl

filter_upper_bound_sound_example : (a : ℕ) × (actual_of minor "age" ≡ num a) × (a ≤ 18)
filter_upper_bound_sound_example =
    filter_upper_bound_sound minor "age" young 18 minor_matches bounded

abbrev info : TableInfo
info = record {
  table_id = 1;
  app = "shop";
  db = "main";
  table_name = "users";
  type = json;
  config = record {
    indexes = ("age", record { type = i64; multi = false }) ∷ [];
    time_field = none;
    retention_hours = none;
    id_prefix = none;
  };
}

matches_filter-agree_example :
    matches_filter (some young) minor ≡ Filtering.matches_filter minor (some young)
matches_filter-agree_example = matches_filter-agree (some young) minor

abbrev demo_event : ChangeEvent
demo_event = record { ts = 1000; op = added; id = "a"; value = minor }

-- A bus on which somebody listens to table 7.
abbrev heard : Unsub × ChangeBus
heard = subscribe 7 none new_bus

heard-IsSound : IsSound heard.1
heard-IsSound = subscribe-IsSound 7 none new_bus new_bus-IsSound

publish-subscribe_example :
    publish 7 demo_event (subscribe 7 (some young) heard.1).1
    ≡ publish 7 demo_event heard.1
      ++ (if wants demo_event (me_of heard.1 (some young))
          then record { subscriber = suc heard.1.next_ref; event = demo_event } ∷ []
          else [])
publish-subscribe_example = publish-subscribe 7 (some young) heard.1 heard-IsSound demo_event

publish-unsubscribe_example :
    let r = subscribe 7 (some young) heard.1 in
    publish 7 demo_event (unsubscribe r.0 r.1) ≡ publish 7 demo_event heard.1
publish-unsubscribe_example = publish-unsubscribe 7 (some young) heard.1 heard-IsSound 7 demo_event

unheard : get 7 new_bus.subscribers ≡ none
unfolding new_bus get
unheard = refl

unsubscribe_twice_example :
    let first = subscribe 7 none new_bus in
    let left_alone = unsubscribe first.0 first.1 in
    let second = subscribe 7 (some young) left_alone in
    (listeners second.1 7 ≡ me_of left_alone (some young) ∷ [])
    × (publish 7 demo_event (unsubscribe first.0 second.1) ≡ [])
unsubscribe_twice_example =
    unsubscribe_twice 7 none (some young) new_bus new_bus-IsSound unheard demo_event

issued : heard.0.bucket < heard.1.next_ref
unfolding subscribe bucket_of new_bus get
issued = omega arith

encode_time_lem_example :
    (length (encode_time 1700000000000 10) ≡ 10)
    × All (λ d. d < 32) (encode_time 1700000000000 10)
    × (digits_value 0 (encode_time 1700000000000 10) ≡ 1700000000000)
encode_time_lem_example = encode_time_lem 1700000000000 10 (omega arith)

obj_is_token : all_parts "obj" ≡ true
unfolding is_token_char
obj_is_token = refl

all_parts-sanitize_id_token_example : all_parts (sanitize_id_token " Menu -- Items! " "obj") ≡ true
all_parts-sanitize_id_token_example =
    all_parts-sanitize_id_token " Menu -- Items! " "obj" obj_is_token
