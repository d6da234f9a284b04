-- ===== src/Routes/Reserved.antt =====
-- Resolving groups of domains into route entries, and the reserved addresses.
use fredoomeaxima.Common.{
  ℕ, ◌≡◌, true, false, List, [], ◌∷◌, ◌++◌, map, Option, none, some, arith, ◌==◌, any, All,
  Bool-cases, inl, inr,
}
use fredoomeaxima.Text.{Text}
use fredoomeaxima.Database.{Db, RouteGroup, RouteEntry, RouteListVersion}
use fredoomeaxima.Database.Tables.{OfSome, OfSome-greatest}
use fredoomeaxima.Cidr.{reserved_ranges}
use fredoomeaxima.Cidr.Blocks.{routes, routes_entry}
use fredoomeaxima.Cidr.Merge.{in_ranges}
use fredoomeaxima.Cidr.Sanitize.{aggregate-sanitize_reserved}
use fredoomeaxima.Routes.{
  Dns, get_current_version, entries_of, resolve_domains, prev_of, keep_previous, group_cidrs,
  in_group, resolve_groups, same_entry, unique_from,
}

-- The entry routes no reserved address.
abbrev pub SparesReserved : Text → Type 0
SparesReserved t = (x : ℕ) → in_ranges x reserved_ranges ≡ true → routes_entry x t ≡ false

abbrev pub Spares : RouteEntry → Type 0
Spares e = SparesReserved e.cidr

abbrev pub VersionSpares : RouteListVersion → Type 0
VersionSpares v = All Spares v.entries

spared_entries :
    (ts : List Text)
    → ((x : ℕ) → in_ranges x reserved_ranges ≡ true → routes x ts ≡ false)
    → All SparesReserved ts
unfolding any
spared_entries [] h = tt
spared_entries (t ∷ ts) h =
    ((λ x r. ground (arith, h x r)), spared_entries ts (λ x r. ground (arith, h x r)))

All-prev_of : (id : ℕ) (es : List RouteEntry) → All Spares es → All SparesReserved (prev_of id es)
unfolding prev_of
All-prev_of id [] a = tt
All-prev_of id (e ∷ es) a = elim (Bool-cases (e.route_group_id == id)) [
  | inl hit ↦ rw hit (a.0, All-prev_of id es a.1)
  | inr miss ↦ rw miss (All-prev_of id es a.1)
]

All-keep_previous :
    (ts prev : List Text)
    → All SparesReserved ts
    → All SparesReserved prev
    → All SparesReserved (keep_previous ts prev)
All-keep_previous [] prev a b = b
All-keep_previous (t ∷ ts) prev a b = a

All-group_cidrs :
    (resolve4 : Dns) (current : List RouteEntry) (g : RouteGroup)
    → All Spares current
    → All SparesReserved (group_cidrs resolve4 current g)
unfolding group_cidrs
All-group_cidrs resolve4 current g a =
    All-keep_previous _ _
      (spared_entries _ (λ x. aggregate-sanitize_reserved x (resolve_domains resolve4 g.domains)))
      (All-prev_of g.id current a)

All-append {ℓ κ} :
    {A : Type ℓ} (P : A → Type κ) (xs ys : List A) → All P xs → All P ys → All P (xs ++ ys)
All-append P [] ys a b = b
All-append P (x ∷ xs) ys a b = (a.0, All-append P xs ys a.1 b)

All-in_group : (id : ℕ) (ts : List Text) → All SparesReserved ts → All Spares (map (in_group id) ts)
All-in_group id [] a = tt
All-in_group id (t ∷ ts) a = (a.0, All-in_group id ts a.1)

pub All-resolve_groups :
    (resolve4 : Dns) (current : List RouteEntry) (gs : List RouteGroup)
    → All Spares current
    → All Spares (resolve_groups resolve4 current gs)
unfolding resolve_groups
All-resolve_groups resolve4 current [] a = tt
All-resolve_groups resolve4 current (g ∷ gs) a =
    All-append Spares (map (in_group g.id) (group_cidrs resolve4 current g)) _
      (All-in_group g.id _ (All-group_cidrs resolve4 current g a))
      (All-resolve_groups resolve4 current gs a)

pub All-unique_from : (seen es : List RouteEntry) → All Spares es → All Spares (unique_from seen es)
unfolding unique_from
All-unique_from seen [] a = tt
All-unique_from seen (e ∷ es) a = elim (Bool-cases (any (same_entry e) seen)) [
  | inl old ↦ rw old (All-unique_from seen es a.1)
  | inr new ↦ rw new (a.0, All-unique_from (e ∷ seen) es a.1)
]

pub All-entries_of :
    (o : Option RouteListVersion) → OfSome VersionSpares o → All Spares (entries_of o)
All-entries_of none a = tt
All-entries_of (some v) a = a

pub current_spares :
    (db : Db) → All VersionSpares db.route_versions → OfSome VersionSpares (get_current_version db)
unfolding get_current_version
current_spares db = OfSome-greatest VersionSpares (λ v. v.version) db.route_versions
