-- ===== src/Steng/Engine/Directory.antt =====
-- The table directory: `ensure_table`, `drop_table` and the two maps.
use netab.Common.{
  ℕ, ◌<◌, String, none, some, get, get-set, get-set_ne, equals-cases, ◌≡◌, sym, ap, ◌∙◌, subst,
  arith, ◌⋅◌, string_eq, nat_eq, inl, inr, Option-cases, equals_refl,
}
use text.Mathlib.TextLemmas.{append_assoc}
use netab.Steng.Types.{TableType, TableInfo}
use netab.Steng.Engine.{TableState, Engine}
use netab.Steng.Engine.Tables.{
  make_table_key, new_table, find_table, insert_table, ensure_table, get_table_info, new_engine,
}

-- Both maps agree, and every id was given out before.
pub record IsDirectory (engine : Engine) : Type 0 where
  pub fresh :
      (id : ℕ) (st : TableState) → get id engine.tables_by_id ≡ some st → id < engine.next_table_id
  pub own_id :
      (id : ℕ) (st : TableState) → get id engine.tables_by_id ≡ some st → st.info.table_id ≡ id
  pub named :
      (key : String) (id : ℕ)
      → get key engine.tables_by_name ≡ some id
      → (st : TableState) × (get id engine.tables_by_id ≡ some st)
        × (key ≡ make_table_key st.info.app st.info.db st.info.table_name)

-- Two different databases can have the same key, where a name has `::` in it.
key_collision :
    (app db part table_name : String)
    → make_table_key (app ⋅ "::" ⋅ db) part table_name
      ≡ make_table_key app (db ⋅ "::" ⋅ part) table_name
unfolding make_table_key
key_collision app db part table_name =
    append_assoc app ("::" ⋅ db) ("::" ⋅ part ⋅ "::" ⋅ table_name)
    ∙ ap (λ rest. app ⋅ rest) (append_assoc "::" db ("::" ⋅ part ⋅ "::" ⋅ table_name))
    ∙ ap (λ rest. app ⋅ "::" ⋅ db ⋅ rest) (sym (append_assoc "::" part ("::" ⋅ table_name)))
    ∙ ap (λ rest. app ⋅ "::" ⋅ rest) (sym (append_assoc db ("::" ⋅ part) ("::" ⋅ table_name)))

find-insert :
    (key : String) (st : TableState) (engine : Engine)
    → find_table key (insert_table key st engine) ≡ some st
unfolding find_table insert_table
find-insert key st engine = ground (
  arith,
  get-set key key st.info.table_id engine.tables_by_name,
  get-set st.info.table_id st.info.table_id st engine.tables_by_id,
  equals_refl key,
  equals_refl st.info.table_id,
)

ensure_found :
    (app db table_name : String) (type : TableType) (engine : Engine)
    → let r = ensure_table app db table_name type engine in
      (st : TableState) × (find_table (make_table_key app db table_name) r.1 ≡ some st)
      × (st.info ≡ r.0)
unfolding ensure_table
ensure_found app db table_name type engine =
    let key = make_table_key app db table_name in
    elim (Option-cases (find_table key engine)) [
      | inl missing ↦ (
        new_table engine.next_table_id app db table_name type,
        ground
            (arith, find-insert key (new_table engine.next_table_id app db table_name type) engine),
        ground arith,
      )
      | inr (st, found) ↦ (st, ground arith, ground arith)
    ]

ensure_again :
    (app db table_name : String) (type : TableType) (engine : Engine) (st : TableState)
    → find_table (make_table_key app db table_name) engine ≡ some st
    → ensure_table app db table_name type engine ≡ (st.info, engine)
unfolding ensure_table
ensure_again app db table_name type engine st found = ground arith

info_found :
    (app db table_name : String) (engine : Engine) (st : TableState)
    → find_table (make_table_key app db table_name) engine ≡ some st
    → get_table_info app db table_name engine ≡ some st.info
unfolding get_table_info
info_found app db table_name engine st found = ground arith

-- After `ensure_table` the table is found under its names, with the info that was returned, and to
-- ensure it again, whatever the type then asked for, returns that info and changes nothing.
pub ensure_table_again :
    (app db table_name : String) (type other : TableType) (engine : Engine)
    → let r = ensure_table app db table_name type engine in
      (get_table_info app db table_name r.1 ≡ some r.0)
      × (ensure_table app db table_name other r.1 ≡ (r.0, r.1))
ensure_table_again app db table_name type other engine =
    let r : TableInfo × Engine = ensure_table app db table_name type engine in
    let (st, found, same) = ensure_found app db table_name type engine in
    (
      info_found app db table_name r.1 st found ∙ ap some same,
      ensure_again app db table_name other r.1 st found ∙ ap (λ i. (i, r.1)) same,
    )

-- Names with `::` in them: a table of the database `part` of the app `app::db` is what is found as
-- a table of the database `db::part` of `app`, and no second table is created for that.
pub ensure_table_collision :
    (app db part table_name : String) (type other : TableType) (engine : Engine)
    → let r = ensure_table (app ⋅ "::" ⋅ db) part table_name type engine in
      ensure_table app (db ⋅ "::" ⋅ part) table_name other r.1 ≡ (r.0, r.1)
ensure_table_collision app db part table_name type other engine =
    let r : TableInfo × Engine = ensure_table (app ⋅ "::" ⋅ db) part table_name type engine in
    let (st, found, same) = ensure_found (app ⋅ "::" ⋅ db) part table_name type engine in
    ensure_again app (db ⋅ "::" ⋅ part) table_name other r.1 st
      (subst (λ key. find_table key r.1 ≡ some st) (key_collision app db part table_name) found)
    ∙ ap (λ i. (i, r.1)) same

pub new_engine-IsDirectory : (cluster_short : String) → IsDirectory (new_engine cluster_short)
unfolding new_engine get
new_engine-IsDirectory cluster_short = record {
  fresh = λ id st h. absurd (ground (arith, h));
  own_id = λ id st h. absurd (ground (arith, h));
  named = λ key id h. absurd (ground (arith, h));
}

ensure_missing :
    (app db table_name : String) (type : TableType) (engine : Engine)
    → find_table (make_table_key app db table_name) engine ≡ none
    → (ensure_table app db table_name type engine).1
      ≡ insert_table
          (make_table_key app db table_name)
          (new_table engine.next_table_id app db table_name type)
          engine
unfolding ensure_table
ensure_missing app db table_name type engine missing = ground arith

insert-IsDirectory :
    (app db table_name : String) (type : TableType) (engine : Engine)
    → IsDirectory engine
    → find_table (make_table_key app db table_name) engine ≡ none
    → IsDirectory (
        insert_table
          (make_table_key app db table_name)
          (new_table engine.next_table_id app db table_name type)
          engine)
unfolding insert_table new_table
insert-IsDirectory app db table_name type engine d missing =
    let key = make_table_key app db table_name in
    let new = new_table engine.next_table_id app db table_name type in
    record {
      fresh = λ id st h. ground (
        arith,
        h,
        get-set engine.next_table_id id new engine.tables_by_id,
        d.fresh id st,
        nat_eq.equals_iff engine.next_table_id id,
      );
      own_id = λ id st h. ground (
        arith,
        h,
        get-set engine.next_table_id id new engine.tables_by_id,
        d.own_id id st,
        nat_eq.equals_iff engine.next_table_id id,
      );
      named = λ other id h. elim (equals-cases key other) [
        | inl (e, same) ↦ (
          new,
          ground (
            arith,
            h,
            get-set key other engine.next_table_id engine.tables_by_name,
            get-set engine.next_table_id id new engine.tables_by_id,
            equals_refl id,
          ),
          ground arith,
        )
        | inr (e, differ) ↦
            let (st, there, k) =
              d.named other id (
                sym (get-set_ne key other engine.next_table_id engine.tables_by_name differ) ∙ h) in
            (
              st,
              ground (
                arith,
                there,
                get-set engine.next_table_id id new engine.tables_by_id,
                d.fresh id st,
                nat_eq.equals_iff engine.next_table_id id,
              ),
              k,
            )
      ];
    }

-- Ensuring a table keeps the directory sound: every id in use was given out and is that of the
-- table stored under it, and every name refers to a table whose names make up that key.
pub ensure_table-IsDirectory :
    (app db table_name : String) (type : TableType) (engine : Engine)
    → IsDirectory engine
    → IsDirectory (ensure_table app db table_name type engine).1
ensure_table-IsDirectory app db table_name type engine d =
    elim (Option-cases (find_table (make_table_key app db table_name) engine)) [
      | inl missing ↦
          subst IsDirectory (sym (ensure_missing app db table_name type engine missing))
            (insert-IsDirectory app db table_name type engine d missing)
      | inr (st, found) ↦
          subst IsDirectory
            (sym (ap (λ r. r.1) (ensure_again app db table_name type engine st found))) d
    ]
