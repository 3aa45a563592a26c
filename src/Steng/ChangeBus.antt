-- ===== src/Steng/ChangeBus.antt =====
-- src/steng/engine/change_bus.ts. The buckets are objects that the unsubscribe closures share with
-- the map, so they stand in a store under references of their own. A subscriber is known by a
-- number, and a call of its callback is a `Delivery`.
pub mod Filters
pub mod Listening
pub mod Unsubscribe
use text.Mathlib.Text.{starts_with}
use netab.Common.{
  ℕ, suc, ◌+◌, String, Bool, true, false, List, [], ◌∷◌, ◌++◌, Option, none, some, ◌&&◌, ◌||◌, not,
  if◌then◌else◌, ◌==◌, nat_eq, leb, ltb, any, all, keep, has_text, Dict, get, set, delete, map,
}
use netab.Json.{
  Value, undefined, null, num, str, arr, obj, nil, cons, end, field, items, strict_eq, text_of,
}
use netab.Utils.{get_field}
use netab.Steng.Types.{
  FilterOp, eq, ne, gt, ge, lt, le, between, in_list, contains, prefix, FilterClause, Filter,
  ChangeEvent, EventKind, deleted,
}

-- The bus has its own copy of the filter.
unfoldable pub clause_holds : Value → FilterOp → Value → Bool
clause_holds actual eq expected = strict_eq actual expected
clause_holds actual ne expected = not (strict_eq actual expected)
clause_holds (num a) gt (num b) = ltb b a
clause_holds (num a) ge (num b) = leb b a
clause_holds (num a) lt (num b) = ltb a b
clause_holds (num a) le (num b) = leb a b
clause_holds (num a) between (arr (cons (num lo) (cons (num hi) nil))) = leb lo a && ltb a hi
clause_holds actual in_list (arr vs) = any (λ v. strict_eq v actual) (items vs)
clause_holds (arr vs) contains expected = any (λ v. strict_eq v expected) (items vs)
clause_holds (str s) contains expected = has_text s (text_of expected)
clause_holds (str s) prefix expected = starts_with s (text_of expected)
clause_holds _ _ _ = false

unfoldable pub matches_filter : Filter → Value → Bool
matches_filter none value = true
matches_filter (some clauses) value =
    all (λ c. clause_holds (get_field value c.field) c.op c.value) clauses

pub record Subscriber : Type 0 where
  pub id : ℕ
  pub filter : Filter

pub record ChangeBus : Type 0 where
  pub buckets : Dict ℕ (List Subscriber)
  pub subscribers : Dict ℕ ℕ
  pub next_ref : ℕ

-- What the closure that `subscribe` returns has captured.
pub record Unsub : Type 0 where
  pub table_id : ℕ
  pub bucket : ℕ
  pub subscriber : ℕ

pub record Delivery : Type 0 where
  pub subscriber : ℕ
  pub event : ChangeEvent

unfoldable pub new_bus : ChangeBus
new_bus = record { buckets = []; subscribers = []; next_ref = 0 }

-- The members of a bucket; a reference that was handed out always has one.
unfoldable pub members : ChangeBus → ℕ → List Subscriber
members bus ref = elim (get ref bus.buckets) [ none ↦ [] | some subs ↦ subs ]

-- `this.subscribers.get(tableId) ?? new Set()`.
unfoldable pub bucket_of : ChangeBus → ℕ → ℕ
bucket_of bus table_id = elim (get table_id bus.subscribers) [
  | none ↦ bus.next_ref
  | some ref ↦ ref
]

unfoldable pub subscribe : ℕ → Filter → ChangeBus → Unsub × ChangeBus
subscribe table_id filter bus =
    let ref = bucket_of bus table_id in
    let me = suc bus.next_ref in
    (
      record { table_id = table_id; bucket = ref; subscriber = me },
      record {
        buckets = set ref (members bus ref ++ record { id = me; filter = filter } ∷ []) bus.buckets;
        subscribers = set table_id ref bus.subscribers;
        next_ref = suc me;
      },
    )

unfoldable pub remove_subscriber : ℕ → List Subscriber → List Subscriber
remove_subscriber me = keep λ s. not (s.id == me)

-- What is left of a bucket is kept, and an emptied one takes the table's entry with it.
unfoldable pub shrink : Unsub → List Subscriber → ChangeBus → ChangeBus
shrink u left bus = record {
  buckets = set u.bucket left bus.buckets;
  subscribers = elim left [ [] ↦ delete u.table_id bus.subscribers | _ ↦ bus.subscribers ];
  next_ref = bus.next_ref;
}

-- The closure that `subscribe` returns.
unfoldable pub unsubscribe : Unsub → ChangeBus → ChangeBus
unsubscribe u bus = shrink u (remove_subscriber u.subscriber (members bus u.bucket)) bus

is_deleted : EventKind → Bool
is_deleted deleted = true
is_deleted _ = false

-- `evt.value ?? { id: evt.id }`.
unfoldable pub event_value : ChangeEvent → Value
event_value evt = elim evt.value [
  | undefined ↦ obj (field "id" (str evt.id) end)
  | null ↦ obj (field "id" (str evt.id) end)
  | _ ↦ evt.value
]

unfoldable pub wants : ChangeEvent → Subscriber → Bool
unfolding is_deleted event_value
wants evt s = is_deleted evt.op || matches_filter s.filter (event_value evt)

-- The subscribers of a table, in the order in which they subscribed.
unfoldable pub listeners : ChangeBus → ℕ → List Subscriber
listeners bus table_id = elim (get table_id bus.subscribers) [
  | none ↦ []
  | some ref ↦ members bus ref
]

unfoldable pub publish : ℕ → ChangeEvent → ChangeBus → List Delivery
publish table_id evt bus =
    map (λ s. record { subscriber = s.id; event = evt }) (keep (wants evt) (listeners bus table_id))
