-- ===== src/Netab/Sites/Given.antt =====
-- Which sites an anonymous caller gets a token for.
use netab.Common.{
  ℕ, ◌+◌, ◌*◌, String, Bool, true, false, not, List, [], ◌∷◌, Option, none, some, values, get, keep,
  ◌==◌, string_eq, if◌then◌else◌, Result, ok, err, ◌≡◌, refl, ap, subst, arith, All, All-sort,
  All-keep, Bool-cases, inl, inr,
}
use netab.Netab.Types.{SiteRecord, AccessResult}
use netab.Netab.Service.{Service, NetabError, ambiguous_brand, no_hint, not_public, unknown_site}
use netab.Netab.Sites.{
  require_site, or_err, find_sites_by_brand, only_one, if_public, given, resolve_anonymous_site,
  site_claims, with_token, grant_site, auth_anonymous,
}
use netab.Cord.Store.Listing.{In}

All-Has : {A : Type 0} (xs ys : List A) → ((a : A) → In a xs → In a ys) → All (λ a. In a ys) xs
All-Has [] ys f = tt
All-Has (x ∷ xs) ys f = (f x (inl refl), All-Has xs ys (λ a m. f a (inr m)))

get-values :
    (k : String) (m : List (String × SiteRecord)) (site : SiteRecord)
    → get k m ≡ some site
    → In site (values m)
unfolding get
get-values k [] site h = absurd (cc)
get-values k ((j, w) ∷ m) site h = elim (Bool-cases (j == k)) [
  | inl same ↦ inl (ground (arith, same, h))
  | inr other ↦ inr (get-values k m site (ground (arith, other, h)))
]

module _ (locale_le : String → String → Bool) (service : Service) where
  -- A public site of the service.
  abbrev pub IsOffered : SiteRecord → Type 0
  IsOffered site = (site.public ≡ true) × In site (values service.sites)

  abbrev Offers : Result NetabError SiteRecord → Type 0
  Offers (err e) = Unit {0}
  Offers (ok site) = IsOffered site

  only_one-Offers :
      (e : NetabError) (xs : List SiteRecord) → All IsOffered xs → Offers (only_one e xs)
  only_one-Offers e [] h = tt
  only_one-Offers e (site ∷ []) h = h.0
  only_one-Offers e (site ∷ other ∷ more) h = tt

  All-own : All (λ site. In site (values service.sites)) (values service.sites)
  All-own = All-Has (values service.sites) (values service.sites) (λ a m. m)

  without_test :
      (p : SiteRecord → Bool) (xs : List SiteRecord)
      → All (λ site. (p site ≡ true) × In site (values service.sites)) xs
      → All (λ site. In site (values service.sites)) xs
  without_test p [] h = tt
  without_test p (x ∷ xs) ((q, m), h) = (m, without_test p xs h)

  public-Offers : (site_id : String) → Offers (if_public (require_site service site_id))
  unfolding require_site
  public-Offers site_id = go (get site_id service.sites) refl
    where
      go :
          (o : Option SiteRecord)
          → get site_id service.sites ≡ o
          → Offers (if_public (or_err (unknown_site site_id) o))
      go none h = tt
      go (some site) h = go_on site.public refl
        where
          go_on : (b : Bool) → site.public ≡ b → Offers (if not b then err not_public else ok site)
          go_on true e = (e, get-values site_id service.sites site h)
          go_on false e = tt

  resolve-Offers :
      (brand site_id : Option String)
      → Offers (resolve_anonymous_site locale_le service brand site_id)
  unfolding resolve_anonymous_site find_sites_by_brand
  resolve-Offers brand site_id = go (given site_id) (given brand)
    where
      offered :
          (xs : List SiteRecord)
          → All (λ x. In x (values service.sites)) xs
          → All IsOffered (keep (λ (site : SiteRecord). site.public) xs)
      offered xs h =
          All-keep (λ x. In x (values service.sites)) (λ (site : SiteRecord). site.public) xs h

      go :
          (wanted name : Option String)
          → Offers (elim wanted [
            | some id ↦ if_public (require_site service id)
            | none ↦ elim name [
              | some n ↦ only_one ambiguous_brand (
                  keep
                    (λ (site : SiteRecord). site.public)
                    (find_sites_by_brand locale_le service n))
              | none ↦
                  only_one no_hint
                    (keep (λ (site : SiteRecord). site.public) (values service.sites))
            ]
          ])
      go (some id) name = public-Offers id
      go none (some n) = only_one-Offers ambiguous_brand _ (
          offered _
            (All-sort _ _ _ (without_test _ _ (All-keep _ _ (values service.sites) All-own))))
      go none none = only_one-Offers no_hint _ (offered (values service.sites) All-own)

  -- An anonymous caller who gets a token gets it for a public site of the service, and the token is
  -- the one that is issued for that site and for no group but that of customers.
  pub auth_anonymous_lem :
      (token_id : String) (now_s : ℕ) (brand site_id : Option String) (access : AccessResult)
      → auth_anonymous locale_le service token_id now_s brand site_id ≡ ok access
      → IsOffered access.site
        × (service.issue
              (site_claims service token_id ("customer" ∷ []) (now_s + 8 * 60 * 60) access.site)
            ≡ ok access.token)
  unfolding auth_anonymous
  auth_anonymous_lem token_id now_s brand site_id access h =
      go (resolve_anonymous_site locale_le service brand site_id) (resolve-Offers brand site_id) h
    where
      issued : SiteRecord → Result NetabError String
      issued site =
          service.issue (site_claims service token_id ("customer" ∷ []) (now_s + 8 * 60 * 60) site)

      from_ok : Result NetabError AccessResult → AccessResult
      from_ok (ok a) = a
      from_ok (err e) = access

      go :
          (r : Result NetabError SiteRecord)
          → Offers r
          → grant_site service token_id ("customer" ∷ []) (now_s + 8 * 60 * 60) r ≡ ok access
          → IsOffered access.site × (issued access.site ≡ ok access.token)
      go (err e) offers k = absurd (cc)
      go (ok site) offers k = go_on (issued site) refl k
        where
          go_on :
              (t : Result NetabError String)
              → issued site ≡ t
              → with_token site t ≡ ok access
              → IsOffered access.site × (issued access.site ≡ ok access.token)
          go_on (err e) same l = absurd (cc)
          go_on (ok token) same l =
              subst (λ (a : AccessResult). IsOffered a.site × (issued a.site ≡ ok a.token))
                (ap from_ok l) (offers, same)
