-- ===== src/Routes/Spared.antt =====
-- The addresses that the published route lists name.
use fredoomeaxima.Common.{
  ℕ, ◌≡◌, refl, sym, subst, true, false, ◌&&◌, List, [], ◌∷◌, map, Option, none, some, arith, ltb,
  length, filter, any, All, Bool-cases, inl, inr,
}
use fredoomeaxima.Text.{Text, text_eq}
use fredoomeaxima.Exec.Steps.{or_throw_keeps}
use fredoomeaxima.Database.{Db, RouteGroup, RouteEntry, RouteListVersion}
use fredoomeaxima.Database.Tables.{OfSome}
use fredoomeaxima.Cidr.{reserved_ranges}
use fredoomeaxima.Cidr.Blocks.{routes}
use fredoomeaxima.Cidr.Merge.{in_ranges}
use fredoomeaxima.Routes.{
  find_group, upsert_group, set_enabled, get_current_version, entries_of, text_le, insert_text,
  sort_texts, set_from, allowed_ips_of, get_current_allowed_ips, resolve_groups, is_changed,
  publish, is_empty, settle, resolve_and_publish,
}
use fredoomeaxima.Routes.Steps.{Step, step, steps}
use fredoomeaxima.Routes.Reserved.{
  Spares, SparesReserved, VersionSpares, All-resolve_groups, All-unique_from, All-entries_of,
  current_spares,
}

-- No stored version routes a reserved address.
abbrev pub DbSpares : Db → Type 0
DbSpares db = All VersionSpares db.route_versions

settle-DbSpares :
    (new_id : ℕ) (o : Option RouteListVersion) (es : List RouteEntry) (db : Db)
    → All Spares es
    → DbSpares db
    → DbSpares (settle new_id o es db).1
unfolding settle publish
settle-DbSpares new_id none es db a d = (a, d)
settle-DbSpares new_id (some v) es db a d =
    elim (Bool-cases (is_empty es && ltb 0 (length v.entries))) [
      | inl emptied ↦ rw emptied d
      | inr kept ↦ elim (Bool-cases (is_changed v.entries es)) [
        | inl new ↦ rw (kept, new) (a, d)
        | inr same ↦ rw (kept, same) d
      ]
    ]

pub step-DbSpares : (s : Step) (db : Db) → DbSpares db → DbSpares (step s db)
unfolding upsert_group set_enabled resolve_and_publish
step-DbSpares (Step.upserts new_id input) db d = d
step-DbSpares (Step.enables key is_enabled) db d =
    or_throw_keeps DbSpares _ (find_group key db) _ db d (λ g e. d)
step-DbSpares (Step.resolves resolve4 new_id) db d =
    let groups = filter (λ (g : RouteGroup). g.is_enabled) db.route_groups in
    let current = entries_of (get_current_version db) in
    settle-DbSpares new_id (get_current_version db) _ db
      (All-unique_from [] (resolve_groups resolve4 current groups) (
        All-resolve_groups resolve4 current groups
          (All-entries_of (get_current_version db) (current_spares db d))))
      d

steps-DbSpares : (ss : List Step) (db : Db) → DbSpares db → DbSpares (steps ss db)
steps-DbSpares [] db d = d
steps-DbSpares (s ∷ ss) db d = steps-DbSpares ss (step s db) (step-DbSpares s db d)

All-insert_text :
    (t : Text) (ts : List Text)
    → SparesReserved t
    → All SparesReserved ts
    → All SparesReserved (insert_text t ts)
unfolding insert_text
All-insert_text t [] a b = (a, tt)
All-insert_text t (u ∷ us) a b = elim (Bool-cases (text_le t u)) [
  | inl before ↦ rw before (a, b)
  | inr behind ↦ rw behind (b.0, All-insert_text t us a b.1)
]

All-sort_texts : (ts : List Text) → All SparesReserved ts → All SparesReserved (sort_texts ts)
unfolding sort_texts
All-sort_texts [] a = tt
All-sort_texts (t ∷ ts) a = All-insert_text t (sort_texts ts) a.0 (All-sort_texts ts a.1)

All-set_from : (seen ts : List Text) → All SparesReserved ts → All SparesReserved (set_from seen ts)
unfolding set_from
All-set_from seen [] a = tt
All-set_from seen (t ∷ ts) a = elim (Bool-cases (any (text_eq t) seen)) [
  | inl old ↦ rw old (All-set_from seen ts a.1)
  | inr new ↦ rw new (a.0, All-set_from (t ∷ seen) ts a.1)
]

pub cidrs_spare :
    (es : List RouteEntry)
    → All Spares es
    → All SparesReserved (map (λ (e : RouteEntry). e.cidr) es)
cidrs_spare [] a = tt
cidrs_spare (e ∷ es) a = (a.0, cidrs_spare es a.1)

allowed_ips_spare :
    (o : Option RouteListVersion)
    → OfSome VersionSpares o
    → All SparesReserved (allowed_ips_of o).cidrs
unfolding allowed_ips_of
allowed_ips_spare none a = tt
allowed_ips_spare (some v) a = All-sort_texts _ (All-set_from [] _ (cidrs_spare v.entries a))

pub All-unrouted :
    (x : ℕ) (ts : List Text)
    → in_ranges x reserved_ranges ≡ true
    → All SparesReserved ts
    → routes x ts ≡ false
unfolding any
All-unrouted x [] h a = refl
All-unrouted x (t ∷ ts) h a = ground (arith, a.0 x h, All-unrouted x ts h a.1)

-- Where no stored version routes a reserved address, the list for peers does not.
pub spared_routes :
    (x : ℕ) (db : Db)
    → DbSpares db
    → in_ranges x reserved_ranges ≡ true
    → routes x (get_current_allowed_ips db).cidrs ≡ false
unfolding get_current_allowed_ips
spared_routes x db d h =
    All-unrouted x _ h (allowed_ips_spare (get_current_version db) (current_spares db d))

-- Starting without any published version, whatever groups are edited and whatever the DNS answers
-- in any number of resolutions, the list for peers that is made of the current version never routes
-- a reserved address: neither a fallback to an older version nor merging lets one in.
pub allowed_ips_never_reserved :
    (x : ℕ) (ss : List Step) (db : Db)
    → db.route_versions ≡ []
    → in_ranges x reserved_ranges ≡ true
    → routes x (get_current_allowed_ips (steps ss db)).cidrs ≡ false
allowed_ips_never_reserved x ss db fresh =
    spared_routes x (steps ss db) (steps-DbSpares ss db (subst (All VersionSpares) (sym fresh) tt))
