-- ===== src/Text/Laws.antt =====
-- Splitting what was joined, and texts that `trim` leaves alone.
use fredoomeaxima.Common.{
  ℕ, ◌≡◌, refl, ap, ◌∙◌, Bool, true, false, not, [], ◌∷◌, ◌++◌, some, arith, ◌==◌, length, all,
}
use fredoomeaxima.Text.{
  Text, is_space, trim_start, trim_cons, trim_end, trim, index_of, split, text_eq,
}

-- A text without the character `s`.
abbrev pub free_of : ℕ → Text → Bool
free_of s = all (λ c. not (c == s))

pub split_free : (s : ℕ) (w : Text) → free_of s w ≡ true → split s w ≡ w ∷ []
unfolding split all
split_free s [] h = refl
split_free s (c ∷ w) h = ground (arith, split_free s w)

pub split-append : (s : ℕ) (w t : Text) → free_of s w ≡ true → split s (w ++ s ∷ t) ≡ w ∷ split s t
unfolding split all
split-append s [] t h = ground arith
split-append s (c ∷ w) t h = ground (arith, split-append s w t)

pub index_of-append :
    (s : ℕ) (w t : Text) → free_of s w ≡ true → index_of s (w ++ s ∷ t) ≡ some (length w)
unfolding index_of all
index_of-append s [] t h = ground arith
index_of-append s (c ∷ w) t h = ground (arith, index_of-append s w t)

abbrev pub spaceless : Text → Bool
spaceless = all (λ c. not (is_space c))

trim_start_free : (t : Text) → spaceless t ≡ true → trim_start t ≡ t
unfolding trim_start all
trim_start_free [] h = refl
trim_start_free (c ∷ t) h = ground arith

trim_cons_free : (c : ℕ) (t : Text) → is_space c ≡ false → trim_cons c t ≡ c ∷ t
unfolding trim_cons
trim_cons_free c [] h = ground arith
trim_cons_free c (d ∷ t) h = refl

trim_end_free : (t : Text) → spaceless t ≡ true → trim_end t ≡ t
unfolding trim_end all
trim_end_free [] h = refl
trim_end_free (c ∷ t) h = ground (arith, trim_end_free t, trim_cons_free c t)

pub trim_free : (t : Text) → spaceless t ≡ true → trim t ≡ t
unfolding trim
trim_free t h = ap trim_end (trim_start_free t h) ∙ trim_end_free t h

pub text_eq_refl : (t : Text) → text_eq t t ≡ true
unfolding text_eq
text_eq_refl [] = refl
text_eq_refl (c ∷ t) = ground (arith, text_eq_refl t)

pub text_eq→eq : (s t : Text) → text_eq s t ≡ true → s ≡ t
unfolding text_eq
text_eq→eq [] [] h = refl
text_eq→eq [] (d ∷ t) h = ground arith
text_eq→eq (c ∷ s) [] h = ground arith
text_eq→eq (c ∷ s) (d ∷ t) h = ground (arith, text_eq→eq s t)
