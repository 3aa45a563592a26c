-- ===== src/Netab/Scope/Written.antt =====
-- What a caller who is bound to a site can have written.
use netab.Common.{
  String, true, false, not, ◌&&◌, List, [], ◌∷◌, string_eq, ◌==◌, Result, ok, err, ◌≡◌, inl, inr,
  refl, ◌∙◌, arith, All, Bool-cases,
}
use netab.Json.{
  Value, undefined, Fields, get_prop, set_prop, fields_of, strict_eq, is_truthy, get_prop-set_prop,
}
use netab.Utils.{is_container}
use netab.Steng.Engine.Methods.{NewRow, Patch, Merge, Replacement}
use netab.Netab.Types.{TablePermission, NetabContext}
use netab.Netab.Rbac.{Forbidden, assert_writable_fields}
use netab.Netab.Service.{Service, NetabError}
use netab.Netab.Scope.{is_scoped, apply_write_scope, claim_site, filled, fill, fill_both, copied}
use netab.Netab.Writes.{
  writable_value, if_writable, new_rows, patch_rows, replacement_rows, then_more, as_new, as_patch,
  as_replacement, value_at, values_after, or_object,
}

-- An object or array of the caller's site.
abbrev pub InSite : NetabContext → Value → Type 0
InSite ctx value = is_container value ≡ true → get_prop "siteId" (fields_of value) ≡ ctx.site_id

get_prop-fill :
    (name k : String) (given : Value) (fs : Fields)
    → (name == k) ≡ false
    → get_prop k (fill name given fs) ≡ get_prop k fs
get_prop-fill name k given fs h = ground (arith, h, get_prop-set_prop name k given fs)

get_prop-fill_both :
    (ctx : NetabContext) (fs : Fields) → get_prop "siteId" (fill_both ctx fs) ≡ get_prop "siteId" fs
get_prop-fill_both ctx fs =
    get_prop-fill "brandId" "siteId" ctx.brand_id (fill "locationId" ctx.location_id fs) refl
    ∙ get_prop-fill "locationId" "siteId" ctx.location_id fs refl

-- What holds of a result if it is one.
abbrev pub OnOk : {A : Type 0} → (A → Type 0) → Result NetabError A → Type 0
OnOk P (err e) = Unit {0}
OnOk P (ok a) = P a

module _ (service : Service) (table_name : String) (ctx : NetabContext) where
  claimed : (fs : Fields) → OnOk (InSite ctx) (filled ctx (claim_site ctx fs))
  claimed fs =
      elim (Bool-cases
        (is_truthy (get_prop "siteId" fs) && not (strict_eq (get_prop "siteId" fs) ctx.site_id))) [
          | inl other ↦ rw other tt
          | inr own ↦ rw own (λ h.
              get_prop-fill_both ctx (set_prop "siteId" ctx.site_id fs)
              ∙ get_prop-set_prop "siteId" "siteId" ctx.site_id fs)
        ]

  apply_write_scope-InSite :
      (value : Value)
      → is_scoped service table_name ctx ≡ true
      → OnOk (InSite ctx) (apply_write_scope service table_name ctx value)
  unfolding apply_write_scope
  apply_write_scope-InSite value scoped = elim (Bool-cases (is_container value)) [
    | inl there ↦ rw there (rw scoped (claimed (copied value)))
    | inr plain ↦ rw plain (λ h. absurd ((ground (arith, plain, h))))
  ]

  writable_value-InSite :
      (permission : TablePermission) (value : Value)
      → is_scoped service table_name ctx ≡ true
      → OnOk (InSite ctx) (writable_value service table_name ctx permission value)
  unfolding writable_value
  writable_value-InSite permission value scoped =
      go (apply_write_scope service table_name ctx value) (apply_write_scope-InSite value scoped)
    where
      go :
          (r : Result NetabError Value)
          → OnOk (InSite ctx) r
          → OnOk (InSite ctx) (if_writable permission r)
      go (err e) h = tt
      go (ok v) h = go_on (assert_writable_fields v permission)
        where
          go_on :
              (w : Result Forbidden (Unit {0}))
              → OnOk (InSite ctx) (elim w [ err e ↦ err (NetabError.access e) | ok done ↦ ok v ])
          go_on (err e) = tt
          go_on (ok d) = h

  then_more-All :
      {A : Type 0} (P : A → Type 0) (r : Result NetabError A) (rest : Result NetabError (List A))
      → OnOk P r
      → OnOk (All P) rest
      → OnOk (All P) (then_more r rest)
  then_more-All P (err e) rest h k = tt
  then_more-All P (ok a) (err e) h k = tt
  then_more-All P (ok a) (ok more) h k = (h, k)

  OnOk-as_new :
      (r : Result NetabError Value)
      → OnOk (InSite ctx) r
      → OnOk (λ (row : NewRow). InSite ctx row.value) (as_new r)
  OnOk-as_new (err e) h = tt
  OnOk-as_new (ok v) h = h

  OnOk-as_patch :
      (id : String) (merge : Merge) (r : Result NetabError Value)
      → OnOk (InSite ctx) r
      → OnOk (λ (row : Patch). InSite ctx row.patch) (as_patch id merge r)
  OnOk-as_patch id merge (err e) h = tt
  OnOk-as_patch id merge (ok v) h = h

  OnOk-as_replacement :
      (id : String) (r : Result NetabError Value)
      → OnOk (InSite ctx) r
      → OnOk (λ (row : Replacement). InSite ctx row.value) (as_replacement id r)
  OnOk-as_replacement id (err e) h = tt
  OnOk-as_replacement id (ok v) h = h

  module _ (permission : TablePermission) (scoped : is_scoped service table_name ctx ≡ true) where
    prepared :
        (value : Value) → OnOk (InSite ctx) (writable_value service table_name ctx permission value)
    prepared value = writable_value-InSite permission value scoped

    new_rows-OnOk :
        (rows : List NewRow)
        → OnOk
            (All (λ (row : NewRow). InSite ctx row.value))
            (new_rows service table_name ctx permission rows)
    unfolding new_rows
    new_rows-OnOk [] = tt
    new_rows-OnOk (row ∷ rows) =
        then_more-All (λ (row : NewRow). InSite ctx row.value) _ _
          (elim (Bool-cases (not (strict_eq row.id undefined))) [
            | inl own_id ↦ rw own_id tt
            | inr without ↦ rw without (OnOk-as_new _ (prepared row.value))
          ])
          (new_rows-OnOk rows)

    patch_rows-OnOk :
        (merge : Merge) (ids : List String) (patches : List Value)
        → OnOk
            (All (λ (row : Patch). InSite ctx row.patch))
            (patch_rows service table_name ctx permission merge ids patches)
    unfolding patch_rows
    patch_rows-OnOk merge [] patches = tt
    patch_rows-OnOk merge (id ∷ ids) patches =
        then_more-All (λ (row : Patch). InSite ctx row.patch) _ _
          (OnOk-as_patch id merge _ (prepared (or_object (value_at patches))))
          (patch_rows-OnOk merge ids (values_after patches))

    replacement_rows-OnOk :
        (ids : List String) (values : List Value)
        → OnOk
            (All (λ (row : Replacement). InSite ctx row.value))
            (replacement_rows service table_name ctx permission ids values)
    unfolding replacement_rows
    replacement_rows-OnOk [] values = tt
    replacement_rows-OnOk (id ∷ ids) values =
        then_more-All (λ (row : Replacement). InSite ctx row.value) _ _
          (OnOk-as_replacement id _ (prepared (value_at values)))
          (replacement_rows-OnOk ids (values_after values))

    -- What a caller who is bound to a site hands to the engine, for a table with a site's rows: every
    -- object or array among the new rows, the patches and the replacements has the caller's site in
    -- its field `siteId`; otherwise the method throws.
    pub written-InSite :
        (rows : List NewRow) (merge : Merge) (ids : List String) (values : List Value)
        → OnOk
            (All (λ (row : NewRow). InSite ctx row.value))
            (new_rows service table_name ctx permission rows)
          × OnOk
              (All (λ (row : Patch). InSite ctx row.patch))
              (patch_rows service table_name ctx permission merge ids values)
          × OnOk
              (All (λ (row : Replacement). InSite ctx row.value))
              (replacement_rows service table_name ctx permission ids values)
    written-InSite rows merge ids values =
        (new_rows-OnOk rows, patch_rows-OnOk merge ids values, replacement_rows-OnOk ids values)
