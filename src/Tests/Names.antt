-- ===== src/Tests/Names.antt =====
-- The selection of a provider, at concrete values; a provider is its name.
use zero_nime.Base.{◌≡◌, refl, inl, inr, Option, none, some, List, [], ◌∷◌, In, ok}
use zero_nime.Registry.{provider_key, select_provider, select_provider-registered}
use zero_nime.Text.{Text, text, ◌==◌, trim_space, trim_by, drop_while, is_space, to_lower, lower}

abbrev two_providers : List (Option Text)
two_providers = some (text "otakudesu") ∷ none ∷ some (text "Kuramanime") ∷ []

only_one :
    (q : Text)
    → In (some q) two_providers
    → provider_key q ≡ provider_key (text "Kuramanime")
    → q ≡ text "Kuramanime"
unfolding trim_space trim_by drop_while is_space to_lower lower
only_one q (inl e) k = cc
only_one q (inr (inl e)) k = cc
only_one q (inr (inr (inl e))) k = cc
only_one q (inr (inr (inr m))) k = elim m [ ]

select_provider-registered_example :
    select_provider (λ (p : Text). p) (some two_providers) (text " kuramanime ")
    ≡ ok (text "Kuramanime")
unfolding trim_space trim_by drop_while is_space to_lower lower ◌==◌
select_provider-registered_example =
    select_provider-registered (λ p. p) (text "Kuramanime") two_providers (text " kuramanime ")
      (inr (inr (inl refl))) only_one refl refl
