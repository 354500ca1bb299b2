-- ===== src/Registry.antt =====
-- internal/provider/registry.go: the providers by name. What a provider is, and its Name, are
-- parameters; a nil provider or registry is `none`.
use zero_nime.Base.{
  ◌≡◌, refl, sym, ap, ◌∙◌, ◌⊎◌, inl, inr, false, Option, none, some, List, [], ◌∷◌, ◌++◌, Result,
  ok, err, In, if◌then◌else◌, if_cases, if_true, if_false,
}
use zero_nime.Text.{Text, text, ◌==◌, trim_space, to_lower}
use zero_nime.Text.Laws.{eq_iff}

abbrev pub default_active_provider : Text
default_active_provider = text "otakudesu"

abbrev pub provider_key : Text → Text
provider_key name = to_lower (trim_space name)

module _ {P : Type 0} (name_of : P → Text) where
  -- `items` of NewRegistry at a key: the last provider of the name stays
  unfoldable pub registered : List (Option P) → Text → Option P
  registered [] k = none
  registered (none ∷ ps) k = registered ps k
  registered (some p ∷ ps) k = elim (registered ps k) [
    | some later ↦ some later
    | none ↦ if provider_key (name_of p) == k then some p else none
  ]

  abbrev pub found_provider : Text → Option P → Result P
  found_provider selected none = err (text "provider " ++ (selected ++ text " is not registered"))
  found_provider selected (some p) = ok p

  abbrev pub selected_name : Text → Text
  selected_name name =
      if provider_key name == [] then default_active_provider else provider_key name

  -- Select, on the registry that NewRegistry makes of the providers
  unfoldable pub select_provider : Option (List (Option P)) → Text → Result P
  select_provider none name = err (text "provider registry is nil")
  select_provider (some ps) name =
      found_provider (selected_name name) (registered ps (selected_name name))

  abbrev Alone : P → List (Option P) → Type 0
  Alone p ps =
      (q : P) → In (some q) ps → provider_key (name_of q) ≡ provider_key (name_of p) → q ≡ p

  some_inj : (p q : P) → some p ≡ some q → p ≡ q
  some_inj p q h = cc

  -- nothing, or the only provider of the name
  registered_sound :
      (p : P) (ps : List (Option P))
      → Alone p ps
      → (registered ps (provider_key (name_of p)) ≡ none)
        ⊎ (registered ps (provider_key (name_of p)) ≡ some p)
  unfolding registered
  registered_sound p [] alone = inl refl
  registered_sound p (none ∷ ps) alone = registered_sound p ps (λ q m. alone q (inr m))
  registered_sound p (some q ∷ ps) alone = elim (registered_sound p ps (λ r m. alone r (inr m))) [
    | inr e ↦ inr (rw e refl)
    | inl e ↦ rw e (
        if_cases (λ o. (o ≡ none) ⊎ (o ≡ some p))
          (provider_key (name_of q) == provider_key (name_of p)) _ _
          (λ t. inr (ap some (alone q (inl refl) ((eq_iff _ _).0 t)))) (λ _. inl refl))
  ]

  registered_complete :
      (p : P) (ps : List (Option P))
      → Alone p ps
      → In (some p) ps
      → registered ps (provider_key (name_of p)) ≡ some p
  unfolding registered
  registered_complete p [] alone m = elim m [ ]
  registered_complete p (none ∷ ps) alone (inl e) = cc
  registered_complete p (none ∷ ps) alone (inr m) =
      registered_complete p ps (λ q n. alone q (inr n)) m
  registered_complete p (some q ∷ ps) alone (inr m) =
      rw (registered_complete p ps (λ r n. alone r (inr n)) m) refl
  registered_complete p (some q ∷ ps) alone (inl e) =
      elim (registered_sound p ps (λ r m. alone r (inr m))) [
        | inr e' ↦ rw e' refl
        | inl e' ↦ rw e' (
            if_true (λ o. o ≡ some p) (provider_key (name_of q) == provider_key (name_of p)) _ _
              ((eq_iff _ _).1 (ap (λ x. provider_key (name_of x)) (some_inj q p (sym e)))) (sym e))
      ]

  -- A provider that is registered under a name of its own is selected by each text that is this
  -- name but for letter case and spaces around it, if the name is not blank.
  pub select_provider-registered :
      (p : P) (ps : List (Option P)) (name : Text)
      → In (some p) ps
      → Alone p ps
      → provider_key name ≡ provider_key (name_of p)
      → (provider_key name == []) ≡ false
      → select_provider (some ps) name ≡ ok p
  unfolding select_provider
  select_provider-registered p ps name m alone same named =
      if_false (λ k. found_provider k (registered ps k) ≡ ok p) (provider_key name == []) _ _ named
        (ap (found_provider (provider_key name))
          (ap (registered ps) same ∙ registered_complete p ps alone m))
