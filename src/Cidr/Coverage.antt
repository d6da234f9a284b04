-- ===== src/Cidr/Coverage.antt =====
-- What `aggregateCidrs` and `excludeIpFromCidrs` route.
use fredoomeaxima.Common.{
  ℕ, ◌+◌, ◌-◌, ◌^◌, ◌<◌, ◌≡◌, refl, ap₂, ◌∙◌, Bool, false, not, ◌&&◌, ◌||◌, List, [], ◌∷◌, Option,
  none, some, arith, ltb, leb, ◌==◌, any, any-append, Bool-cases, Option-cases, inl, inr,
  if◌then◌else◌,
}
use fredoomeaxima.Text.{Text}
use fredoomeaxima.Cidr.{
  ip_to_int, range_to_cidrs, to_merged_ranges, blocks_of, aggregate_cidrs, exclude_from,
  exclude_ip_from_cidrs,
}
use fredoomeaxima.Cidr.Blocks.{routes, routes_entry, range_to_cidrs-routes}
use fredoomeaxima.Cidr.Merge.{
  in_ranges, IsProper, to_merged_ranges-in_ranges, to_merged_ranges_ordered,
}

blocks_of-routes :
    (x : ℕ) (rs : List (ℕ × ℕ)) → IsProper rs → routes x (blocks_of rs) ≡ in_ranges x rs
unfolding blocks_of any
blocks_of-routes x [] p = refl
blocks_of-routes x ((s, e) ∷ rs) (h, lt, p) =
    any-append _ (range_to_cidrs s e) (blocks_of rs)
    ∙ ap₂ ◌||◌ (range_to_cidrs-routes s e x lt) (blocks_of-routes x rs p)

-- An aggregated list routes an address exactly when the list it was made of does.
pub aggregate_cidrs-routes :
    (x : ℕ) (cidrs : List Text) → routes x (aggregate_cidrs cidrs) ≡ routes x cidrs
unfolding aggregate_cidrs
aggregate_cidrs-routes x cidrs =
    blocks_of-routes x (to_merged_ranges cidrs) (to_merged_ranges_ordered cidrs).0
    ∙ to_merged_ranges-in_ranges x cidrs

-- Whether `x` is the address that a text parsed to.
abbrev pub is_address : ℕ → Option ℕ → Bool
is_address x none = false
is_address x (some target) = x == target

routes_below :
    (x target s : ℕ)
    → target < 2 ^ 32
    → routes x (if ltb s target then range_to_cidrs s (target - 1) else [])
      ≡ (leb s x && ltb x target)
unfolding any
routes_below x target s lt = elim (Bool-cases (ltb s target)) [
  | inl some_left ↦
      rw some_left (range_to_cidrs-routes s (target - 1) x (omega arith) ∙ ground arith)
  | inr none_left ↦ rw none_left (ground arith)
]

routes_above :
    (x target e : ℕ)
    → e < 2 ^ 32
    → routes x (if ltb target e then range_to_cidrs (target + 1) e else [])
      ≡ (ltb target x && leb x e)
unfolding any
routes_above x target e lt = elim (Bool-cases (ltb target e)) [
  | inl some_left ↦ rw some_left (range_to_cidrs-routes (target + 1) e x lt ∙ ground arith)
  | inr none_left ↦ rw none_left (ground arith)
]

exclude_from-routes :
    (x target : ℕ) (rs : List (ℕ × ℕ))
    → IsProper rs
    → routes x (exclude_from target rs) ≡ (in_ranges x rs && not (x == target))
unfolding exclude_from any
exclude_from-routes x target [] p = refl
exclude_from-routes x target ((s, e) ∷ rs) (h, lt, p) =
    let ih = exclude_from-routes x target rs p in
    elim (Bool-cases (ltb target s || ltb e target)) [
      | inl outside ↦
          rw
            (
              outside,
              exclude_from,
              any-append (routes_entry x) (range_to_cidrs s e) (exclude_from target rs),
              range_to_cidrs-routes s e x lt,
              ih,
            )
            (ground arith)
      | inr inside ↦
          rw
            (
              inside,
              exclude_from,
              any-append (routes_entry x)
                  (if ltb s target then range_to_cidrs s (target - 1) else []) _,
              any-append (routes_entry x)
                  (if ltb target e then range_to_cidrs (target + 1) e else []) _,
              routes_below x target s (ground arith),
              routes_above x target e lt,
              ih,
            )
            (ground arith)
    ]

-- Without the server's address, a list routes what it did but that address; a text that is no
-- address takes nothing away.
pub exclude_ip_from_cidrs-routes :
    (x : ℕ) (cidrs : List Text) (ip : Text)
    → routes x (exclude_ip_from_cidrs cidrs ip)
      ≡ (routes x cidrs && not (is_address x (ip_to_int ip)))
unfolding exclude_ip_from_cidrs
exclude_ip_from_cidrs-routes x cidrs ip =
    let ranges = to_merged_ranges cidrs in
    let proper = (to_merged_ranges_ordered cidrs).0 in
    let same = to_merged_ranges-in_ranges x cidrs in
    elim (Option-cases (ip_to_int ip)) [
      | inl e ↦ rw (e, exclude_ip_from_cidrs) (ground (arith, blocks_of-routes x ranges proper))
      | inr (target, e) ↦
          rw (e, exclude_ip_from_cidrs) (ground (arith, exclude_from-routes x target ranges proper))
    ]
