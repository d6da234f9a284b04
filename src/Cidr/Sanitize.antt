-- ===== src/Cidr/Sanitize.antt =====
-- `sanitizeCidrs`: what its output routes, and its entries.
use fredoomeaxima.Common.{
  ℕ, ◌≡◌, refl, ◌∙◌, Bool, true, false, not, ◌&&◌, ◌||◌, List, [], ◌∷◌, Option, none, some, arith,
  leb, any, all, Bool-cases, Option-cases, inl, inr,
}
use fredoomeaxima.Text.{Text, text_eq, index_of, trim, split, is_digits, to_number}
use fredoomeaxima.Text.Laws.{text_eq→eq, text_eq_refl}
use fredoomeaxima.Cidr.{
  ParsedCidr, parse_parts, ip_to_int, parse_cidr, cidr_to_range, overlaps, overlaps_reserved,
  reserved_ranges, admit, sanitize_from, sanitize_cidrs, aggregate_cidrs,
}
use fredoomeaxima.Cidr.Notation.{parse_cidr-IsCanonical, parse_cidr-cidr_text}
use fredoomeaxima.Cidr.Blocks.{in_range, routes, routes_entry}
use fredoomeaxima.Cidr.Merge.{in_ranges}
use fredoomeaxima.Cidr.Coverage.{aggregate_cidrs-routes}

-- A block that may be routed: not broader than a /8, and clear of every reserved range.
unfoldable pub is_deliberate : ParsedCidr → Bool
unfolding overlaps_reserved
is_deliberate c = leb 8 c.prefix && not (overlaps_reserved (cidr_to_range c))

-- Whether an entry, as it was given, has a right to route `x`.
unfoldable pub rightly_routes : ℕ → Text → Bool
rightly_routes x raw = elim (parse_cidr raw) [
  | none ↦ false
  | some c ↦ is_deliberate c && in_range x (cidr_to_range c)
]

abbrev admitted_routes : ℕ → Option Text → Bool
admitted_routes x none = false
admitted_routes x (some t) = routes_entry x t

admit-routes : (x : ℕ) (raw : Text) → admitted_routes x (admit raw) ≡ rightly_routes x raw
unfolding admit rightly_routes is_deliberate
admit-routes x raw = elim (Option-cases (parse_cidr raw)) [
  | inl e ↦ rw (e, admit, rightly_routes)
  | inr (c, e) ↦
      let again = parse_cidr-cidr_text c (parse_cidr-IsCanonical raw c e) in
      rw (e, admit, rightly_routes) (unfold routes_entry in ground arith)
]

routes_seen :
    (x : ℕ) (t : Text) (seen : List Text)
    → any (text_eq t) seen ≡ true
    → routes_entry x t ≡ true
    → routes x seen ≡ true
unfolding any
routes_seen x t [] h r = h
routes_seen x t (s ∷ seen) h r = elim (Bool-cases (text_eq t s)) [
  | inl e ↦ let same = text_eq→eq t s e in ground arith
  | inr e ↦ ground (arith, routes_seen x t seen)
]

sanitize_from-routes :
    (x : ℕ) (seen cs : List Text)
    → (routes x (sanitize_from seen cs) || routes x seen)
      ≡ (any (rightly_routes x) cs || routes x seen)
unfolding sanitize_from any
sanitize_from-routes x seen [] = refl
sanitize_from-routes x seen (raw ∷ cs) =
    let here = admit-routes x raw in
    let rest = sanitize_from-routes x seen cs in
    elim (Option-cases (admit raw)) [
      | inl e ↦ rw (e, sanitize_from) (ground arith)
      | inr (t, e) ↦ elim (Bool-cases (any (text_eq t) seen)) [
        | inl old ↦
            rw (e, sanitize_from)
              (rw (old, sanitize_from) (ground (arith, routes_seen x t seen old)))
        | inr new ↦
            let more = sanitize_from-routes x (t ∷ seen) cs in
            rw (e, sanitize_from) (rw (new, sanitize_from) (ground arith))
      ]
    ]

-- The sanitised list routes exactly what some entry of the input has a right to route.
pub sanitize_cidrs-routes :
    (x : ℕ) (cidrs : List Text) → routes x (sanitize_cidrs cidrs) ≡ any (rightly_routes x) cidrs
unfolding sanitize_cidrs any
sanitize_cidrs-routes x cidrs = let both = sanitize_from-routes x [] cidrs in ground arith

overlaps_shared :
    (x : ℕ) (r : ℕ × ℕ) (rs : List (ℕ × ℕ))
    → in_range x r ≡ true
    → in_ranges x rs ≡ true
    → any (overlaps r) rs ≡ true
unfolding any
overlaps_shared x r [] h k = k
overlaps_shared x r (q ∷ rs) h k = ground (arith, overlaps_shared x r rs h)

rightly_routes_reserved :
    (x : ℕ) (raw : Text) → in_ranges x reserved_ranges ≡ true → rightly_routes x raw ≡ false
unfolding rightly_routes is_deliberate
rightly_routes_reserved x raw h = elim (Option-cases (parse_cidr raw)) [
  | inl e ↦ rw (e, rightly_routes)
  | inr (c, e) ↦
      rw (e, rightly_routes) (ground (arith, overlaps_shared x (cidr_to_range c) reserved_ranges))
]

any-rightly_routes_reserved :
    (x : ℕ) (cidrs : List Text)
    → in_ranges x reserved_ranges ≡ true
    → any (rightly_routes x) cidrs ≡ false
unfolding any
any-rightly_routes_reserved x [] h = refl
any-rightly_routes_reserved x (raw ∷ cidrs) h =
    ground (arith, rightly_routes_reserved x raw h, any-rightly_routes_reserved x cidrs h)

-- Whatever the input, a list that was sanitised and aggregated routes no reserved address.
pub aggregate-sanitize_reserved :
    (x : ℕ) (cidrs : List Text)
    → in_ranges x reserved_ranges ≡ true
    → routes x (aggregate_cidrs (sanitize_cidrs cidrs)) ≡ false
aggregate-sanitize_reserved x cidrs h =
    aggregate_cidrs-routes x (sanitize_cidrs cidrs)
    ∙ sanitize_cidrs-routes x cidrs
    ∙ any-rightly_routes_reserved x cidrs h

-- No entry is in the list twice.
abbrev pub IsDistinct : List Text → Type 0
IsDistinct [] = Unit {0}
IsDistinct (t ∷ ts) = (any (text_eq t) ts ≡ false) × IsDistinct ts

-- What was seen before is not put out again.
sanitize_from-fresh :
    (t : Text) (seen cs : List Text)
    → any (text_eq t) seen ≡ true
    → any (text_eq t) (sanitize_from seen cs) ≡ false
unfolding sanitize_from any
sanitize_from-fresh t seen [] h = refl
sanitize_from-fresh t seen (raw ∷ cs) h = elim (Option-cases (admit raw)) [
  | inl e ↦ rw (e, sanitize_from) (sanitize_from-fresh t seen cs h)
  | inr (u, e) ↦ elim (Bool-cases (any (text_eq u) seen)) [
    | inl old ↦ rw (e, sanitize_from) (rw (old, sanitize_from) (sanitize_from-fresh t seen cs h))
    | inr new ↦
        let rest = sanitize_from-fresh t (u ∷ seen) cs in
        rw (e, sanitize_from) (rw (new, sanitize_from) (ground (arith, text_eq→eq t u)))
  ]
]

sanitize_from-IsDistinct : (seen cs : List Text) → IsDistinct (sanitize_from seen cs)
unfolding sanitize_from any
sanitize_from-IsDistinct seen [] = tt
sanitize_from-IsDistinct seen (raw ∷ cs) = elim (Option-cases (admit raw)) [
  | inl e ↦ rw (e, IsDistinct, sanitize_from) (sanitize_from-IsDistinct seen cs)
  | inr (u, e) ↦ elim (Bool-cases (any (text_eq u) seen)) [
    | inl old ↦
        rw (e, IsDistinct, sanitize_from)
          (rw (old, IsDistinct, sanitize_from) (sanitize_from-IsDistinct seen cs))
    | inr new ↦
        let first = text_eq_refl u in
        rw (e, IsDistinct, sanitize_from)
          (rw (new, IsDistinct, sanitize_from)
            (
              sanitize_from-fresh u (u ∷ seen) cs (ground arith),
              sanitize_from-IsDistinct (u ∷ seen) cs,
            ))
  ]
]

-- No entry of a sanitised list comes twice.
pub sanitize_cidrs-IsDistinct : (cidrs : List Text) → IsDistinct (sanitize_cidrs cidrs)
unfolding sanitize_cidrs
sanitize_cidrs-IsDistinct cidrs = sanitize_from-IsDistinct [] cidrs

-- 127.0.0.1 is reserved.
pub loopback_reserved : in_ranges 2130706433 reserved_ranges ≡ true
unfolding reserved_ranges any parse_cidr index_of trim parse_parts ip_to_int split is_digits all
    to_number cidr_to_range
loopback_reserved = refl
