-- ===== src/Cidr/Merge.antt =====
-- `toMergedRanges`: sorting the ranges and merging them.
use fredoomeaxima.Common.{
  ℕ, ◌+◌, ◌-◌, ◌^◌, ◌≤◌, ◌<◌, ◌≡◌, refl, ap, ◌∙◌, Bool, ◌||◌, List, [], ◌∷◌, arith, ltb, leb, any,
  Bool-cases, Option-cases, inl, inr, if◌then◌else◌,
}
use fredoomeaxima.Text.{Text}
use fredoomeaxima.Cidr.{
  parse_cidr, cidr_to_range, ranges_of, insert_range, sort_ranges, merge_onto, merge_ranges,
  to_merged_ranges,
}
use fredoomeaxima.Cidr.Notation.{parse_cidr-IsCanonical, pow_pos}
use fredoomeaxima.Cidr.Blocks.{in_range, routes, routes_entry}

abbrev pub in_ranges : ℕ → List (ℕ × ℕ) → Bool
in_ranges x = any (in_range x)

ranges_of-routes : (x : ℕ) (cs : List Text) → in_ranges x (ranges_of cs) ≡ routes x cs
unfolding ranges_of routes_entry any
ranges_of-routes x [] = refl
ranges_of-routes x (raw ∷ cs) = ground (arith, ranges_of-routes x cs)

insert_range-in_ranges :
    (x : ℕ) (r : ℕ × ℕ) (rs : List (ℕ × ℕ))
    → in_ranges x (insert_range r rs) ≡ (in_range x r || in_ranges x rs)
unfolding insert_range any
insert_range-in_ranges x r [] = refl
insert_range-in_ranges x r (q ∷ rs) = ground (arith, insert_range-in_ranges x r rs)

sort_ranges-in_ranges : (x : ℕ) (rs : List (ℕ × ℕ)) → in_ranges x (sort_ranges rs) ≡ in_ranges x rs
unfolding sort_ranges any
sort_ranges-in_ranges x [] = refl
sort_ranges-in_ranges x (r ∷ rs) =
    insert_range-in_ranges x r (sort_ranges rs)
    ∙ ap (λ b. in_range x r || b) (sort_ranges-in_ranges x rs)

-- The starts go up, from `low` on.
abbrev Ascending : ℕ → List (ℕ × ℕ) → Type 0
Ascending low [] = Unit {0}
Ascending low ((s, e) ∷ rs) = (low ≤ s) × Ascending s rs

Ascending-mono :
    (low low' : ℕ) (rs : List (ℕ × ℕ)) → low ≤ low' → Ascending low' rs → Ascending low rs
Ascending-mono low low' [] h a = tt
Ascending-mono low low' ((s, e) ∷ rs) h a = (omega arith, a.1)

insert_range-Ascending :
    (low s e : ℕ) (rs : List (ℕ × ℕ))
    → low ≤ s
    → Ascending low rs
    → Ascending low (insert_range (s, e) rs)
unfolding insert_range
insert_range-Ascending low s e [] h a = (h, tt)
insert_range-Ascending low s e ((s', e') ∷ rs) h a =
    ground (arith, insert_range-Ascending s' s e rs)

sort_ranges-Ascending : (rs : List (ℕ × ℕ)) → Ascending 0 (sort_ranges rs)
unfolding sort_ranges
sort_ranges-Ascending [] = tt
sort_ranges-Ascending ((s, e) ∷ rs) =
    insert_range-Ascending 0 s e (sort_ranges rs) (omega arith) (sort_ranges-Ascending rs)

merge_onto-in_ranges :
    (x s e : ℕ) (rs : List (ℕ × ℕ))
    → Ascending s rs
    → in_ranges x (merge_onto s e rs) ≡ (in_range x (s, e) || in_ranges x rs)
unfolding merge_onto any
merge_onto-in_ranges x s e [] a = refl
merge_onto-in_ranges x s e ((s', e') ∷ rs) a = elim (Bool-cases (leb s' (e + 1))) [
  | inl joins ↦
      let wider = if ltb e e' then e' else e in
      let ih = merge_onto-in_ranges x s wider rs (Ascending-mono s s' rs a.0 a.1) in
      rw (joins, merge_onto) (ground arith)
  | inr apart ↦ rw (apart, merge_onto) (ground (arith, merge_onto-in_ranges x s' e' rs a.1))
]

-- Every range is within the 32-bit addresses and not empty.
abbrev pub IsProper : List (ℕ × ℕ) → Type 0
IsProper [] = Unit {0}
IsProper ((s, e) ∷ rs) = (s ≤ e) × (e < 2 ^ 32) × IsProper rs

ranges_of-IsProper : (cs : List Text) → IsProper (ranges_of cs)
unfolding ranges_of cidr_to_range
ranges_of-IsProper [] = tt
ranges_of-IsProper (raw ∷ cs) = elim (Option-cases (parse_cidr raw)) [
  | inl e ↦ rw (e, IsProper, ranges_of) (ranges_of-IsProper cs)
  | inr (c, e) ↦
      let canonical = parse_cidr-IsCanonical raw c e in
      let pos = pow_pos (32 - c.prefix) in
      rw (e, IsProper, ranges_of)
        (omega (arith, canonical.within), omega (arith, canonical.within), ranges_of-IsProper cs)
]

insert_range-IsProper :
    (s e : ℕ) (rs : List (ℕ × ℕ))
    → s ≤ e
    → e < 2 ^ 32
    → IsProper rs
    → IsProper (insert_range (s, e) rs)
unfolding insert_range
insert_range-IsProper s e [] h lt p = (h, lt, tt)
insert_range-IsProper s e ((s', e') ∷ rs) h lt p = ground (arith, insert_range-IsProper s e rs)

sort_ranges-IsProper : (rs : List (ℕ × ℕ)) → IsProper rs → IsProper (sort_ranges rs)
unfolding sort_ranges
sort_ranges-IsProper [] p = tt
sort_ranges-IsProper ((s, e) ∷ rs) (h, lt, p) =
    insert_range-IsProper s e (sort_ranges rs) h lt (sort_ranges-IsProper rs p)

merge_onto-IsProper :
    (s e : ℕ) (rs : List (ℕ × ℕ)) → s ≤ e → e < 2 ^ 32 → IsProper rs → IsProper (merge_onto s e rs)
unfolding merge_onto
merge_onto-IsProper s e [] h lt p = (h, lt, tt)
merge_onto-IsProper s e ((s', e') ∷ rs) h lt (h', lt', p) = elim (Bool-cases (leb s' (e + 1))) [
  | inl joins ↦
      let wider = if ltb e e' then e' else e in
      rw (joins, IsProper, merge_onto)
        (merge_onto-IsProper s wider rs (ground arith) (ground arith) p)
  | inr apart ↦ rw (apart, IsProper, merge_onto) (h, lt, merge_onto-IsProper s' e' rs h' lt' p)
]

-- Every range starts at `low` or later, and the next one at least two past its end: one address at
-- least lies between them, so that no two could be merged.
abbrev pub Separated : ℕ → List (ℕ × ℕ) → Type 0
Separated low [] = Unit {0}
Separated low ((s, e) ∷ rs) = (low ≤ s) × Separated (e + 2) rs

merge_onto-Separated :
    (low s e : ℕ) (rs : List (ℕ × ℕ)) → low ≤ s → Ascending s rs → Separated low (merge_onto s e rs)
unfolding merge_onto
merge_onto-Separated low s e [] h a = (h, tt)
merge_onto-Separated low s e ((s', e') ∷ rs) h a = elim (Bool-cases (leb s' (e + 1))) [
  | inl joins ↦
      let wider = if ltb e e' then e' else e in
      rw (joins, Separated, merge_onto)
        (merge_onto-Separated low s wider rs h (Ascending-mono s s' rs a.0 a.1))
  | inr apart ↦
      rw (apart, Separated, merge_onto)
        (h, merge_onto-Separated (e + 2) s' e' rs (ground arith) a.1)
]

merge_ranges-in_ranges :
    (x : ℕ) (rs : List (ℕ × ℕ)) → Ascending 0 rs → in_ranges x (merge_ranges rs) ≡ in_ranges x rs
unfolding merge_ranges any
merge_ranges-in_ranges x [] a = refl
merge_ranges-in_ranges x ((s, e) ∷ rs) a = merge_onto-in_ranges x s e rs a.1

merge_ranges-IsProper : (rs : List (ℕ × ℕ)) → IsProper rs → IsProper (merge_ranges rs)
unfolding merge_ranges
merge_ranges-IsProper [] p = tt
merge_ranges-IsProper ((s, e) ∷ rs) (h, lt, p) = merge_onto-IsProper s e rs h lt p

merge_ranges-Separated : (rs : List (ℕ × ℕ)) → Ascending 0 rs → Separated 0 (merge_ranges rs)
unfolding merge_ranges
merge_ranges-Separated [] a = tt
merge_ranges-Separated ((s, e) ∷ rs) a = merge_onto-Separated 0 s e rs (omega arith) a.1

-- The merged ranges hold exactly the addresses that the list routes.
pub to_merged_ranges-in_ranges :
    (x : ℕ) (cs : List Text) → in_ranges x (to_merged_ranges cs) ≡ routes x cs
unfolding to_merged_ranges
to_merged_ranges-in_ranges x cs =
    merge_ranges-in_ranges x (sort_ranges (ranges_of cs)) (sort_ranges-Ascending (ranges_of cs))
    ∙ sort_ranges-in_ranges x (ranges_of cs)
    ∙ ranges_of-routes x cs

-- The merged ranges are proper, in ascending order, and no two of them overlap or touch.
pub to_merged_ranges_ordered :
    (cs : List Text) → IsProper (to_merged_ranges cs) × Separated 0 (to_merged_ranges cs)
unfolding to_merged_ranges
to_merged_ranges_ordered cs =
    let rs = ranges_of cs in
    (
      merge_ranges-IsProper (sort_ranges rs) (sort_ranges-IsProper rs (ranges_of-IsProper cs)),
      merge_ranges-Separated (sort_ranges rs) (sort_ranges-Ascending rs),
    )
