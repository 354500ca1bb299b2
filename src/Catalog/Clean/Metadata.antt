-- ===== src/Catalog/Clean/Metadata.antt =====
-- What normalizeDetail leaves of the metadata.
use zero_nime.Base.{
  keep_if, Bool, true, Bool-cases, ◌⊎◌, if_false, if◌then◌else◌, ◌≡◌, refl, ◌∙◌, ap, sym, inl, inr,
  false, not, ◌||◌, Option, none, some, List, [], ◌∷◌, In, keep_if-In, arith, if_cases, if_true,
  subst,
}
use zero_nime.Catalog.Clean.{
  Entries, entry_at, without_key, with_entry, with_count, clean_metadata, normalize_detail,
  inferred_episode_count,
}
use zero_nime.Domain.{Episode, AnimeDetail}
use zero_nime.Text.Decimal.{format_int}
use zero_nime.Text.Laws.{eq_refl, eq_iff}
use zero_nime.Text.{Text, text, ◌==◌, trim_space}

-- No entry has the key.
abbrev pub LacksKey : Text → Entries → Type 0
LacksKey key entries = (k v : Text) → In (k, v) entries → (k == key) ≡ false

without_key-LacksKey : (key : Text) (entries : Entries) → LacksKey key (without_key key entries)
unfolding without_key
without_key-LacksKey key entries k v m =
    let (_, h) = keep_if-In (λ (e : Text × Text). not (e.0 == key)) (k, v) entries m in ground arith

without_key-keeps :
    (key other : Text) (entries : Entries)
    → LacksKey key entries
    → LacksKey key (without_key other entries)
unfolding without_key
without_key-keeps key other entries h k v m =
    h k v (keep_if-In (λ (e : Text × Text). not (e.0 == other)) (k, v) entries m).0

with_entry-keeps :
    (key other value : Text) (entries : Entries)
    → (other == key) ≡ false
    → LacksKey key entries
    → LacksKey key (with_entry other value entries)
unfolding with_entry
with_entry-keeps key other value entries d h k v (inl e) =
    ap (λ (x : Text × Text). x.0 == key) e ∙ d
with_entry-keeps key other value entries d h k v (inr m) =
    without_key-keeps key other entries h k v m

with_count-keeps :
    (key : Text) (items : List Episode) (entries : Entries)
    → (text "episode" == key) ≡ false
    → LacksKey key entries
    → LacksKey key (with_count items entries)
unfolding with_count
with_count-keeps key [] entries d h = h
with_count-keeps key (item ∷ items) entries d h =
    if_cases (LacksKey key)
      (trim_space (entry_at (text "episode") entries) == []
        || trim_space (entry_at (text "episode") entries) == text "?")
      _ _
      (λ _.
        with_entry-keeps key (text "episode") (format_int (inferred_episode_count (item ∷ items)))
          entries d h)
      (λ _. h)

entry_at-with_entry :
    (key value : Text) (entries : Entries) → entry_at key (with_entry key value entries) ≡ value
unfolding entry_at with_entry
entry_at-with_entry key value entries = if_true (λ v. v ≡ value) (key == key) _ _ (eq_refl key) refl

entry_at-without_key :
    (key other : Text) (entries : Entries)
    → (other == key) ≡ false
    → entry_at key (without_key other entries) ≡ entry_at key entries
unfolding entry_at without_key keep_if
entry_at-without_key key other [] d = refl
entry_at-without_key key other ((k, v) ∷ entries) d = elim (Bool-cases (k == other)) [
  | inl t ↦ rw t (
      entry_at-without_key key other entries d
      ∙ sym (
          if_false (λ u. u ≡ entry_at key entries) (k == key) _ _
            (ap (λ x. x == key) ((eq_iff k other).0 t) ∙ d) refl))
  | inr f ↦ rw f (ap (λ u. if k == key then v else u) (entry_at-without_key key other entries d))
]

-- The number of episodes is missing: the text is blank, or a question mark.
abbrev pub is_missing : Text → Bool
is_missing value = trim_space value == [] || trim_space value == text "?"

-- The number that is told for these episodes: what was told before, or where this is missing and
-- there are episodes, their number.
abbrev pub Counted : List Episode → Text → Text → Type 0
Counted [] before after = after ≡ before
Counted (item ∷ items) before after =
    ((is_missing before ≡ true) × (after ≡ format_int (inferred_episode_count (item ∷ items))))
    ⊎ ((is_missing before ≡ false) × (after ≡ before))

with_count-Counted :
    (episodes : List Episode) (entries : Entries)
    → Counted episodes
        (entry_at (text "episode") entries)
        (entry_at (text "episode") (with_count episodes entries))
unfolding with_count
with_count-Counted [] entries = refl
with_count-Counted (item ∷ items) entries =
    let before : Text = entry_at (text "episode") entries in
    if_cases (λ e. Counted (item ∷ items) before (entry_at (text "episode") e)) (is_missing before)
      _ _
      (λ t. inl (
        t,
        entry_at-with_entry (text "episode") (format_int (inferred_episode_count (item ∷ items)))
            entries,
      ))
      (λ f. inr (f, refl))

with_count-others :
    (key : Text) (episodes : List Episode) (entries : Entries)
    → (text "episode" == key) ≡ false
    → entry_at key (with_count episodes entries) ≡ entry_at key entries
unfolding with_count
with_count-others key [] entries d = refl
with_count-others key (item ∷ items) entries d =
    let count : Text = format_int (inferred_episode_count (item ∷ items)) in
    if_cases (λ e. entry_at key e ≡ entry_at key entries)
      (is_missing (entry_at (text "episode") entries)) _ _
      (λ _.
        unfold entry_at with_entry in
        if_false (λ v. v ≡ entry_at key entries) (text "episode" == key) _ _ d
          (entry_at-without_key key (text "episode") entries d))
      (λ _. refl)

-- The entries after the clean-up, for these episodes: "eksplisit" and "tema" are gone, "episode"
-- tells the number of episodes, and all others are as before.
abbrev pub CleanEntries : List Episode → Option Entries → Option Entries → Type 0
CleanEntries episodes none none = Unit
CleanEntries episodes none (some after) = ⊥
CleanEntries episodes (some before) none = ⊥
CleanEntries episodes (some before) (some after) =
    LacksKey (text "eksplisit") after
    × LacksKey (text "tema") after
    × Counted episodes (entry_at (text "episode") before) (entry_at (text "episode") after)
    × ((key : Text)
        → (text "eksplisit" == key) ≡ false
        → (text "tema" == key) ≡ false
        → (text "episode" == key) ≡ false
        → entry_at key after ≡ entry_at key before)

shown_as_before :
    (key : Text) (entries : Entries)
    → (text "eksplisit" == key) ≡ false
    → (text "tema" == key) ≡ false
    → entry_at key (without_key (text "tema") (without_key (text "eksplisit") entries))
      ≡ entry_at key entries
shown_as_before key entries d d' =
    entry_at-without_key key (text "tema") (without_key (text "eksplisit") entries) d'
    ∙ entry_at-without_key key (text "eksplisit") entries d

clean_metadata-CleanEntries :
    (episodes : List Episode) (entries : Option Entries)
    → CleanEntries episodes entries (clean_metadata episodes entries)
unfolding clean_metadata ◌==◌
clean_metadata-CleanEntries episodes none = tt
clean_metadata-CleanEntries episodes (some entries) =
    let shown = without_key (text "tema") (without_key (text "eksplisit") entries) in
    (
      with_count-keeps (text "eksplisit") episodes shown refl (
          without_key-keeps (text "eksplisit") (text "tema")
            (without_key (text "eksplisit") entries)
            (without_key-LacksKey (text "eksplisit") entries)),
      with_count-keeps (text "tema") episodes shown refl
          (without_key-LacksKey (text "tema") (without_key (text "eksplisit") entries)),
      subst
          (λ before.
            Counted episodes before (entry_at (text "episode") (with_count episodes shown)))
          (shown_as_before (text "episode") entries refl refl) (with_count-Counted episodes shown),
      (λ key d d' d''. with_count-others key episodes shown d'' ∙ shown_as_before key entries d d'),
    )

-- The detail's metadata is that of another one after the clean-up.
abbrev pub CleanDetail : AnimeDetail → AnimeDetail → Type 0
CleanDetail offered d = CleanEntries d.episodes offered.metadata d.metadata

pub normalize_detail-CleanDetail : (d : AnimeDetail) → CleanDetail d (normalize_detail d)
unfolding normalize_detail
normalize_detail-CleanDetail d = clean_metadata-CleanEntries d.episodes d.metadata
