-- ===== src/Steng/Engine/Dropping.antt =====
-- `drop_table` and the table directory.
use netab.Common.{
  ℕ, String, none, some, get, delete, equals-cases, get-delete, ◌≡◌, sym, ap, ◌∙◌, subst, arith,
  string_eq, nat_eq, inl, inr, Option-cases,
}
use netab.Steng.Engine.{TableState, Engine}
use netab.Steng.Engine.Tables.{make_table_key, drop_table}
use netab.Steng.Engine.Directory.{IsDirectory}

drop_missing :
    (table_id : ℕ) (engine : Engine)
    → get table_id engine.tables_by_id ≡ none
    → (drop_table table_id engine).1 ≡ engine
unfolding drop_table
drop_missing table_id engine missing = ground arith

abbrev dropped : ℕ → TableState → Engine → Engine
dropped table_id state engine = record engine {
  tables_by_id = delete table_id engine.tables_by_id;
  tables_by_name =
      delete (make_table_key state.info.app state.info.db state.info.table_name)
        engine.tables_by_name;
}

drop_found :
    (table_id : ℕ) (engine : Engine) (state : TableState)
    → get table_id engine.tables_by_id ≡ some state
    → (drop_table table_id engine).1 ≡ dropped table_id state engine
unfolding drop_table
drop_found table_id engine state found = ground arith

abbrev key_of : TableState → String
key_of state = make_table_key state.info.app state.info.db state.info.table_name

some_inj : {a b : TableState} → some a ≡ some b → a ≡ b
some_inj h = ground (arith, h)

still_named :
    (table_id : ℕ) (engine : Engine) (state : TableState)
    → IsDirectory engine
    → get table_id engine.tables_by_id ≡ some state
    → (other : String) (id : ℕ) → get other (dropped table_id state engine).tables_by_name ≡ some id
    → (st : TableState) × (get id (delete table_id engine.tables_by_id) ≡ some st)
      × (other ≡ make_table_key st.info.app st.info.db st.info.table_name)
still_named table_id engine state d found other id h =
    let key = make_table_key state.info.app state.info.db state.info.table_name in
    let kept = get-delete key other engine.tables_by_name in
    elim (equals-cases key other) [
      | inl (e, same) ↦ absurd (ground (arith, kept, h))
      | inr (e, differ) ↦
          let (st, there, k) = d.named other id (ground (arith, kept, h)) in
          elim (equals-cases table_id id) [
            | inl (i, own) ↦ absurd (
                differ (
                  sym (
                    k
                    ∙ ap key_of (
                        some_inj (
                          sym there
                          ∙ subst (λ j. get j engine.tables_by_id ≡ some state) own found)))))
            | inr (i, apart) ↦
                (st, ground (arith, get-delete table_id id engine.tables_by_id, there), k)
          ]
    ]

-- Dropping a table keeps the directory sound, also where the id is not in use: no name is left that
-- refers to a dropped table.
pub drop_table-IsDirectory :
    (table_id : ℕ) (engine : Engine)
    → IsDirectory engine
    → IsDirectory (drop_table table_id engine).1
drop_table-IsDirectory table_id engine d = elim (Option-cases (get table_id engine.tables_by_id)) [
  | inl missing ↦ subst IsDirectory (sym (drop_missing table_id engine missing)) d
  | inr (state, found) ↦ subst IsDirectory (sym (drop_found table_id engine state found)) (record {
    fresh = λ id st h. ground (arith, h, get-delete table_id id engine.tables_by_id, d.fresh id st);
    own_id =
        λ id st h. ground (arith, h, get-delete table_id id engine.tables_by_id, d.own_id id st);
    named = λ other id h. still_named table_id engine state d found other id h;
  })
]
