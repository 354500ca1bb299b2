-- ===== src/Domain/Identifiers.antt =====
-- Qualified identifiers, `provider:slug`: printing and parsing.
use mathlib.Core.List.{reverse-append, reverse-cons, append_assoc}
use zero_nime.Base.{ℕ, ◌≡◌, ◌≢◌, [], ◌∷◌, ◌++◌, reverse, ok, nat_eq}
use zero_nime.Text.{Text, is_space, trim, trim_space}
use zero_nime.Text.Laws.{
  Lacks, StartsOff, StartsOff-append, reverse-ne-nil, split_2-append, trim_by_of_StartsOff,
  trim_by_idem, eq_of_ne,
}
use zero_nime.Domain.{new_catalog_id, parse_qualified_id}

-- A provider name that an identifier can carry: not empty, no ':' and no leading space.
pub record IsProviderName (p : Text) : Type 0 where
  pub non_empty : p ≢ []
  pub colon_free : Lacks 58 p
  pub no_leading_space : StartsOff is_space p

-- The part that `new_catalog_id` makes of a slug.
abbrev pub slug_part : Text → Text
slug_part slug = trim 47 (trim_space slug)

-- the end of the printed identifier is the end of the slug
reverse-identifier : (p s : Text) → reverse (p ++ 58 ∷ s) ≡ reverse s ++ (58 ∷ reverse p)
reverse-identifier p s = simp (reverse-append, reverse-cons, append_assoc)

identifier-trim :
    (p s : Text)
    → IsProviderName p
    → s ≢ []
    → StartsOff is_space (reverse s)
    → trim_space (p ++ 58 ∷ s) ≡ p ++ 58 ∷ s
unfolding trim_space
identifier-trim p s v ne h =
    trim_by_of_StartsOff is_space (p ++ 58 ∷ s)
      (StartsOff-append is_space p (58 ∷ s) v.non_empty v.no_leading_space)
      (rw reverse-identifier
        (StartsOff-append is_space (reverse s) (58 ∷ reverse p) (reverse-ne-nil s ne) h))

trim_idem : (k : ℕ) (s : Text) → trim k (trim k s) ≡ trim k s
unfolding trim
trim_idem k s = trim_by_idem (λ c. nat_eq c k) s

-- An identifier that is made of a provider name and a slug parses to that name and to the slug
-- without the spaces and slashes around it, if that is not empty and ends in no space.
pub parse_qualified_id-new_catalog_id :
    (p slug : Text)
    → IsProviderName p
    → slug_part slug ≢ []
    → StartsOff is_space (reverse (slug_part slug))
    → parse_qualified_id (new_catalog_id p slug) ≡ ok (p, slug_part slug)
unfolding parse_qualified_id new_catalog_id
parse_qualified_id-new_catalog_id p slug v ne h = rw (
  identifier-trim p (slug_part slug) v ne h,
  split_2-append 58 p (slug_part slug) v.colon_free,
  eq_of_ne p [] v.non_empty,
  eq_of_ne (slug_part slug) [] ne,
  trim_idem 47 (trim_space slug),
)
