-- ===== src/Routes.antt =====
-- apps/api/src/routes/routes.service.ts: groups of domains, and the published versions of the list
-- of blocks that they resolve to. The DNS is an argument: the addresses of a domain, or nothing if
-- the lookup throws.
pub mod Frame
pub mod Steps
pub mod Publishing
pub mod Reserved
pub mod Spared
mod Tests
use fredoomeaxima.Common.{
  ℕ, ◌+◌, String, Bool, true, false, not, ◌&&◌, ◌||◌, List, [], ◌∷◌, ◌++◌, map, Option, none, some,
  ltb, ◌==◌, length, find, filter, any, if◌then◌else◌,
}
use text.Mathlib.Text.{◌==◌ as str_eq}
use fredoomeaxima.Text.{Text, codes, text_eq}
use fredoomeaxima.Exec.{Result, ok, not_found, Exec, pure, gets, modify, or_throw, ◌>>=◌, ◌>>◌}
use fredoomeaxima.Database.{Db, RouteGroup, RouteEntry, RouteListVersion, Peer}
use fredoomeaxima.Database.Tables.{update_where, greatest}
use fredoomeaxima.Servers.{peer_is_active}
use fredoomeaxima.Cidr.{sanitize_cidrs, aggregate_cidrs}

pub record UpsertRouteGroupInput : Type 0 where
  pub key : String
  pub name : String
  pub domains : List String
  pub is_enabled : Bool

abbrev find_group : String → Db → Option RouteGroup
find_group key db = find (λ g. str_eq g.key key) db.route_groups

abbrev put_group : ℕ → UpsertRouteGroupInput → Option RouteGroup → List RouteGroup → List RouteGroup
put_group new_id input none gs =
    record {
      id = new_id;
      key = input.key;
      name = input.name;
      domains = input.domains;
      is_enabled = input.is_enabled;
    }
    ∷ gs
put_group new_id input (some found) gs =
    update_where (λ g. str_eq g.key input.key)
      (λ g. record g { name = input.name; domains = input.domains; is_enabled = input.is_enabled })
      gs

pub upsert_group : ℕ → UpsertRouteGroupInput → Exec Db (Option RouteGroup)
upsert_group new_id input = do
  found ← gets (find_group input.key)
  modify (λ db. record db { route_groups = put_group new_id input found db.route_groups })
  gets (find_group input.key)

pub set_enabled : String → Bool → Exec Db (Option RouteGroup)
set_enabled key is_enabled = do
  found ← gets (find_group key)
  or_throw (not_found "Route group not found") found
  modify (λ db. record db {
    route_groups =
        update_where (λ g. str_eq g.key key) (λ g. record g { is_enabled = is_enabled })
          db.route_groups;
  })
  gets (find_group key)

pub get_current_version : Db → Option RouteListVersion
get_current_version db = greatest (λ v. v.version) db.route_versions

abbrev pub entries_of : Option RouteListVersion → List RouteEntry
entries_of none = []
entries_of (some v) = v.entries

-- The order in which `sort()` without a comparison puts texts: by code units.
text_le : Text → Text → Bool
text_le [] t = true
text_le (c ∷ s) [] = false
text_le (c ∷ s) (d ∷ t) = let rest = text_le s t in if ltb c d then true else c == d && rest

insert_text : Text → List Text → List Text
insert_text t [] = t ∷ []
insert_text t (u ∷ us) = let rest = insert_text t us in if text_le t u then t ∷ u ∷ us else u ∷ rest

sort_texts : List Text → List Text
sort_texts [] = []
sort_texts (t ∷ ts) = insert_text t (sort_texts ts)

-- The elements of a set that was filled in the order of the list.
set_from : List Text → List Text → List Text
set_from seen [] = []
set_from seen (t ∷ ts) =
    let skipped = set_from seen ts in
    let added = set_from (t ∷ seen) ts in if any (text_eq t) seen then skipped else t ∷ added

pub record AllowedIps : Type 0 where
  pub version_id : Option ℕ
  pub cidrs : List Text

allowed_ips_of : Option RouteListVersion → AllowedIps
unfolding sort_texts set_from
allowed_ips_of none = record { version_id = none; cidrs = [] }
allowed_ips_of (some v) = record {
  version_id = some v.id;
  cidrs = sort_texts (set_from [] (map (λ (e : RouteEntry). e.cidr) v.entries));
}

pub get_current_allowed_ips : Db → AllowedIps
unfolding allowed_ips_of get_current_version
get_current_allowed_ips db = allowed_ips_of (get_current_version db)

abbrev pub Dns : Type 0
Dns = String → Option (List Text)

resolve_domain : Dns → String → List Text
resolve_domain resolve4 domain = elim (resolve4 domain) [
  | none ↦ []
  | some addrs ↦ map (λ ip. ip ++ codes "/32") addrs
]

-- `rawCidrs`
resolve_domains : Dns → List String → List Text
unfolding resolve_domain
resolve_domains resolve4 [] = []
resolve_domains resolve4 (d ∷ ds) = resolve_domain resolve4 d ++ resolve_domains resolve4 ds

-- `prevByGroup.get(groupId)`
prev_of : ℕ → List RouteEntry → List Text
prev_of group_id [] = []
prev_of group_id (e ∷ es) =
    let rest = prev_of group_id es in if e.route_group_id == group_id then e.cidr ∷ rest else rest

abbrev keep_previous : List Text → List Text → List Text
keep_previous [] prev = prev
keep_previous (c ∷ cs) prev = c ∷ cs

-- `groupCidrs`
group_cidrs : Dns → List RouteEntry → RouteGroup → List Text
unfolding resolve_domains prev_of
group_cidrs resolve4 current group =
    keep_previous (aggregate_cidrs (sanitize_cidrs (resolve_domains resolve4 group.domains)))
      (prev_of group.id current)

abbrev in_group : ℕ → Text → RouteEntry
in_group group_id cidr = record { route_group_id = group_id; cidr = cidr }

-- `resolved`, over the enabled groups.
pub resolve_groups : Dns → List RouteEntry → List RouteGroup → List RouteEntry
unfolding group_cidrs
resolve_groups resolve4 current [] = []
resolve_groups resolve4 current (g ∷ gs) =
    map (in_group g.id) (group_cidrs resolve4 current g) ++ resolve_groups resolve4 current gs

-- Equality of the keys `${routeGroupId}|${cidr}`; an identifier has no bar.
same_entry : RouteEntry → RouteEntry → Bool
same_entry d e = d.route_group_id == e.route_group_id && text_eq d.cidr e.cidr

pub unique_from : List RouteEntry → List RouteEntry → List RouteEntry
unfolding same_entry
unique_from seen [] = []
unique_from seen (e ∷ es) =
    let skipped = unique_from seen es in
    let added = unique_from (e ∷ seen) es in if any (same_entry e) seen then skipped else e ∷ added

-- `currentSet.size !== newSet.size || [...newSet].some((k) => !currentSet.has(k))`
is_changed : List RouteEntry → List RouteEntry → Bool
unfolding same_entry unique_from
is_changed current new =
    not (length (unique_from [] current) == length (unique_from [] new))
    || any (λ e. not (any (same_entry e) current)) new

pub record Published : Type 0 where
  pub version : ℕ
  pub entry_count : ℕ
  pub changed : Bool

-- SQL finds no inequality with a missing value, so `NOT` leaves out the peers without a version.
is_behind : ℕ → Peer → Bool
is_behind version_id p = elim p.route_list_version_id [
  | none ↦ false
  | some v ↦ peer_is_active p.status && not (v == version_id)
]

-- The transaction of `resolveAndPublish`.
publish : ℕ → ℕ → List RouteEntry → Db → Db
unfolding is_behind
publish new_id version entries db = record db {
  route_versions = record { id = new_id; version = version; entries = entries } ∷ db.route_versions;
  peers = update_where (is_behind new_id) (λ p. record p { needs_update = true }) db.peers;
}

abbrev is_empty {ℓ} : {A : Type ℓ} → List A → Bool
is_empty [] = true
is_empty (x ∷ xs) = false

abbrev unchanged : ℕ → ℕ → Result Published
unchanged version entry_count =
    ok (record { version = version; entry_count = entry_count; changed = false })

-- What is left once the entries are resolved: the guard against an emptied list, the skip of an
-- unchanged one, the publication.
settle : ℕ → Option RouteListVersion → List RouteEntry → Exec Db Published
unfolding is_changed publish
settle new_id none entries db = (
  ok (record { version = 1; entry_count = length entries; changed = true }),
  publish new_id 1 entries db,
)
settle new_id (some v) entries db =
    if is_empty entries && ltb 0 (length v.entries)
    then (unchanged v.version (length v.entries), db)
    else if not (is_changed v.entries entries)
    then (unchanged v.version (length entries), db)
    else (
      ok (record { version = v.version + 1; entry_count = length entries; changed = true }),
      publish new_id (v.version + 1) entries db,
    )

pub resolve_and_publish : Dns → ℕ → Exec Db Published
unfolding resolve_groups unique_from settle get_current_version
resolve_and_publish resolve4 new_id = do
  groups ← gets (λ db. filter (λ g. g.is_enabled) db.route_groups)
  current ← gets get_current_version
  let resolved = resolve_groups resolve4 (entries_of current) groups
  settle new_id current (unique_from [] resolved)
