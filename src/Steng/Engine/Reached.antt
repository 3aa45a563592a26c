-- ===== src/Steng/Engine/Reached.antt =====
-- The engine as a state machine: the steps that its callers can take, in any order, and what holds
-- in every state that they reach.
use netab.Common.{
  ℕ, ◌<◌, String, List, Option, none, some, get, set, get-set, ◌≡◌, refl, sym, ap, ◌∙◌, subst,
  arith, nat_eq, string_eq, Keeps, ok, err, Result, true, equals-cases, inl, inr, Option-cases,
  ◌==◌,
}
use netab.Steng.Types.{TableType, TableInfo, Filter, Op, Error, no_table}
use netab.Steng.Host.{Host, World}
use netab.Steng.ChangeBus.{ChangeBus, Unsub, subscribe, unsubscribe}
use netab.Steng.ChangeBus.Listening.{IsSound, new_bus-IsSound, subscribe-IsSound}
use netab.Steng.ChangeBus.Unsubscribe.{unsubscribe-IsSound}
use netab.Steng.Engine.{TableState, Session, Engine, Act, on_table}
use netab.Steng.Engine.Replica.{apply_ops}
use netab.Steng.Engine.Replication.{Write}
use netab.Steng.Engine.CatchUp.{perform_all}
use netab.Steng.Engine.Retention.{retain_table}
use netab.Steng.Engine.Tables.{
  new_engine, make_table_key, ensure_table, insert_table, drop_table, find_table,
}
use netab.Steng.Engine.Access.{subscribe_objs}
use netab.Steng.Engine.Directory.{IsDirectory, new_engine-IsDirectory, ensure_table-IsDirectory}
use netab.Steng.Engine.Dropping.{drop_table-IsDirectory}
use netab.Steng.Engine.Unmoved.{IsUnmoved, perform_all-Keeps, apply_ops-Keeps, retain_table-Keeps}

abbrev pub with_bus : ChangeBus → Engine → Engine
with_bus bus engine = record engine { world = record (engine.world) { bus = bus } }

pub data Step (host : Host) (e : Engine) : Engine → Type 0 where
  ensures :
      (app db table_name : String) (type : TableType)
      → Step host e (ensure_table app db table_name type e).1
  drops : (table_id : ℕ) → Step host e (drop_table table_id e).1
  writes :
      (table_id : ℕ) (ws : List Write)
      → Step host e (on_table table_id (perform_all host e.cluster_short ws) e).1
  follows :
      (table_id : ℕ) (ops : List Op) → Step host e (on_table table_id (apply_ops host ops) e).1
  retains : (table_id now_ms : ℕ) → Step host e (on_table table_id (retain_table host now_ms) e).1
  listens : (table_id : ℕ) (filter : Filter) → Step host e (subscribe_objs table_id filter e).1
  leaves :
      (u : Unsub)
      → u.bucket < e.world.bus.next_ref
      → Step host e (with_bus (unsubscribe u e.world.bus) e)

pub data Reached (host : Host) : Engine → Type 0 where
  starts : (cluster_short : String) → Reached host (new_engine cluster_short)
  steps : {e f : Engine} → Reached host e → Step host e f → Reached host f

-- The directory and the bus are sound.
abbrev pub IsWellFormed : Engine → Type 0
IsWellFormed e = IsDirectory e × IsSound e.world.bus

abbrev stored_back : ℕ → Session → Engine → Engine
stored_back table_id s e = record e {
  tables_by_id = set table_id s.table e.tables_by_id;
  world = s.world;
}

some_inj : {a b : TableState} → some a ≡ some b → a ≡ b
some_inj h = ground (arith, h)

abbrev key_of : TableInfo → String
key_of info = make_table_key info.app info.db info.table_name

stored_back-IsDirectory :
    (table_id : ℕ) (s : Session) (e : Engine) (old : TableState)
    → get table_id e.tables_by_id ≡ some old
    → s.table.info ≡ old.info
    → IsDirectory e
    → IsDirectory (stored_back table_id s e)
stored_back-IsDirectory table_id s e old found same d = record {
  fresh = λ id st h. ground (
    arith,
    h,
    get-set table_id id s.table e.tables_by_id,
    d.fresh id st,
    d.fresh table_id old found,
    nat_eq.equals_iff table_id id,
  );
  own_id = λ id st h. elim (equals-cases table_id id) [
    | inl (q, here) ↦
        ap (λ (i : TableInfo). i.table_id)
          (ap (λ (t : TableState). t.info) (some_inj (sym h ∙ self id q)) ∙ same)
        ∙ d.own_id table_id old found
        ∙ here
    | inr (q, apart) ↦
        d.own_id id st (ground (arith, h, q, get-set table_id id s.table e.tables_by_id))
  ];
  named = λ key id h.
      let (st, there, k) = d.named key id h in
      elim (equals-cases table_id id) [
        | inl (q, here) ↦
            let known =
              some_inj (sym there ∙ subst (λ j. get j e.tables_by_id ≡ some old) here found) in
            (
              s.table,
              self id q,
              k ∙ ap (λ (t : TableState). key_of t.info) known ∙ ap key_of (sym same),
            )
        | inr (q, apart) ↦
            (st, ground (arith, there, q, get-set table_id id s.table e.tables_by_id), k)
      ];
}
  where
    self :
        (id : ℕ)
        → (table_id == id) ≡ true
        → get id (stored_back table_id s e).tables_by_id ≡ some s.table
    self id q = ground (arith, q, get-set table_id id s.table e.tables_by_id)

on_table_missing :
    (table_id : ℕ) (act : Act (Unit {0})) (e : Engine)
    → get table_id e.tables_by_id ≡ none
    → (on_table table_id act e).1 ≡ e
unfolding on_table
on_table_missing table_id act e missing = ground (arith, missing)

on_table_found :
    (table_id : ℕ) (act : Act (Unit {0})) (e : Engine) (old : TableState)
    → get table_id e.tables_by_id ≡ some old
    → (on_table table_id act e).1
      ≡ stored_back table_id (act (record { table = old; world = e.world })).1 e
unfolding on_table
on_table_found table_id act e old found = ground (arith, found)

on_table-IsWellFormed :
    (table_id : ℕ) (act : Act (Unit {0})) (e : Engine)
    → ((old : TableState) → Keeps (IsUnmoved old.info e.world.bus) act)
    → IsWellFormed e
    → IsWellFormed (on_table table_id act e).1
on_table-IsWellFormed table_id act e keeps (d, sound) =
    elim (Option-cases (get table_id e.tables_by_id)) [
      | inl missing ↦ subst IsWellFormed (sym (on_table_missing table_id act e missing)) (d, sound)
      | inr (old, found) ↦
          let t : Session = (act (record { table = old; world = e.world })).1 in
          let (same, bus) = keeps old (record { table = old; world = e.world }) (refl, refl) in
          subst IsWellFormed (sym (on_table_found table_id act e old found))
            (stored_back-IsDirectory table_id t e old found same d, subst IsSound (sym bus) sound)
    ]

ensure_table-world :
    (app db table_name : String) (type : TableType) (e : Engine)
    → (ensure_table app db table_name type e).1.world ≡ e.world
unfolding ensure_table insert_table
ensure_table-world app db table_name type e =
    elim (Option-cases (find_table (make_table_key app db table_name) e)) [
      | inl missing ↦ ground (arith, missing)
      | inr (st, found) ↦ ground (arith, found)
    ]

drop_table-world : (table_id : ℕ) (e : Engine) → (drop_table table_id e).1.world ≡ e.world
unfolding drop_table
drop_table-world table_id e = elim (Option-cases (get table_id e.tables_by_id)) [
  | inl missing ↦ ground (arith, missing)
  | inr (st, found) ↦ ground (arith, found)
]

with_bus-IsDirectory : (bus : ChangeBus) (e : Engine) → IsDirectory e → IsDirectory (with_bus bus e)
with_bus-IsDirectory bus e d = record { fresh = d.fresh; own_id = d.own_id; named = d.named }

abbrev subscribed_from : ℕ → Filter → Engine → Option TableState → Result Error Unsub × Engine
subscribed_from table_id filter e none = (err (no_table table_id), e)
subscribed_from table_id filter e (some st) = (
  ok (subscribe table_id filter e.world.bus).0,
  with_bus (subscribe table_id filter e.world.bus).1 e,
)

subscribed_from-IsWellFormed :
    (table_id : ℕ) (filter : Filter) (e : Engine) (found : Option TableState)
    → IsWellFormed e
    → IsWellFormed (subscribed_from table_id filter e found).1
subscribed_from-IsWellFormed table_id filter e none w = w
subscribed_from-IsWellFormed table_id filter e (some st) (d, sound) = (
  with_bus-IsDirectory (subscribe table_id filter e.world.bus).1 e d,
  subscribe-IsSound table_id filter e.world.bus sound,
)

subscribe_objs-IsWellFormed :
    (table_id : ℕ) (filter : Filter) (e : Engine)
    → IsWellFormed e
    → IsWellFormed (subscribe_objs table_id filter e).1
unfolding subscribe_objs
subscribe_objs-IsWellFormed table_id filter e w =
    subscribed_from-IsWellFormed table_id filter e (get table_id e.tables_by_id) w

Step-IsWellFormed : (host : Host) (e f : Engine) → IsWellFormed e → Step host e f → IsWellFormed f
Step-IsWellFormed host e f (d, sound) (ensures app db table_name type) = (
  ensure_table-IsDirectory app db table_name type e d,
  subst (λ (w : World). IsSound w.bus) (sym (ensure_table-world app db table_name type e)) sound,
)
Step-IsWellFormed host e f (d, sound) (drops table_id) = (
  drop_table-IsDirectory table_id e d,
  subst (λ (w : World). IsSound w.bus) (sym (drop_table-world table_id e)) sound,
)
Step-IsWellFormed host e f w (writes table_id ws) =
    on_table-IsWellFormed table_id (perform_all host e.cluster_short ws) e
      (λ old. perform_all-Keeps old.info e.world.bus host e.cluster_short ws) w
Step-IsWellFormed host e f w (follows table_id ops) =
    on_table-IsWellFormed table_id (apply_ops host ops) e
      (λ old. apply_ops-Keeps old.info e.world.bus host ops) w
Step-IsWellFormed host e f w (retains table_id now_ms) =
    on_table-IsWellFormed table_id (retain_table host now_ms) e
      (λ old. retain_table-Keeps old.info e.world.bus host now_ms) w
Step-IsWellFormed host e f (d, sound) (listens table_id filter) =
    subscribe_objs-IsWellFormed table_id filter e (d, sound)
Step-IsWellFormed host e f (d, sound) (leaves u issued) = (
  with_bus-IsDirectory (unsubscribe u e.world.bus) e d,
  unsubscribe-IsSound u e.world.bus sound issued,
)

-- In every state that an engine reaches by creating and dropping tables, writing documents, applying
-- ops, retention, subscribing and unsubscribing, the directory and the change bus are sound.
pub Reached-IsWellFormed : (host : Host) (e : Engine) → Reached host e → IsWellFormed e
unfolding new_engine
Reached-IsWellFormed host e (starts cluster_short) =
    (new_engine-IsDirectory cluster_short, new_bus-IsSound)
Reached-IsWellFormed host e (steps {e = before} r s) =
    Step-IsWellFormed host before e (Reached-IsWellFormed host before r) s
