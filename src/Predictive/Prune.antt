-- ===== src/Predictive/Prune.antt =====
-- pruneInactive keeps the entries of the windows that it reads, and no others.
use zero_nime.Base.{
  ◌≡◌, refl, sym, ap, ◌∙◌, true, false, not, Option, none, some, List, [], ◌∷◌, In, In-keep_if, ◌⊎◌,
  ◌++◌, subst, Bool-cases, if_false, keep_if-In, find_first-none, if_cases, inl, inr, ◌≢◌, arith,
}
use zero_nime.Domain.{StartupMediaCache}
use zero_nime.Predictive.{
  Window, Meanwhile, find_entry, delete_entry, drop_found, prune_each, ids_of, active_episodes,
  prune_inactive,
}
use zero_nime.Text.Laws.{eq_iff}
use zero_nime.Text.{Text, ◌==◌, member}

abbrev Entries : Type 0
Entries = List StartupMediaCache

drop_found-In :
    (k : Text) (entries : Entries) (e : StartupMediaCache) (o : Option StartupMediaCache)
    → find_entry k entries ≡ o
    → In e (drop_found k o entries).0
    → In e entries × ((e.episode_id == k) ≡ false)
unfolding find_entry delete_entry
drop_found-In k entries e none h m = (m, find_first-none (λ x. x.episode_id == k) entries e h m)
drop_found-In k entries e (some x) h m =
    let (m', t) = keep_if-In (λ x. not (x.episode_id == k)) e entries m in (m', ground arith)

In-drop_found :
    (k : Text) (entries : Entries) (e : StartupMediaCache) (o : Option StartupMediaCache)
    → In e entries
    → (e.episode_id == k) ≡ false
    → In e (drop_found k o entries).0
unfolding delete_entry
In-drop_found k entries e none m h = m
In-drop_found k entries e (some x) m h =
    In-keep_if (λ x. not (x.episode_id == k)) e entries m (ground arith)

-- The episode is in the window of a client.
abbrev pub InWindow : Text → List Window → Type 0
InWindow id windows = (w : Window) × In w windows × In id w.1

member-here :
    (id : Text) (episodes rest : List Text) → In id episodes → member id (episodes ++ rest) ≡ true
unfolding member
member-here id [] rest m = elim m [ ]
member-here id (x ∷ xs) rest (inl e) = let same = (eq_iff x id).1 (sym e) in ground arith
member-here id (x ∷ xs) rest (inr m) = let later = member-here id xs rest m in ground arith

member-there :
    (id : Text) (episodes rest : List Text)
    → member id rest ≡ true
    → member id (episodes ++ rest) ≡ true
unfolding member
member-there id [] rest h = h
member-there id (x ∷ xs) rest h = let later = member-there id xs rest h in ground arith

InWindow-member :
    (id : Text) (windows : List Window)
    → InWindow id windows
    → member id (active_episodes windows) ≡ true
unfolding active_episodes
InWindow-member id [] (w, m, n) = elim m [ ]
InWindow-member id ((client, episodes) ∷ windows) (w, inl e, n) =
    member-here id episodes (active_episodes windows) (subst (λ (x : Window). In id x.1) e n)
InWindow-member id ((client, episodes) ∷ windows) (w, inr m, n) =
    member-there id episodes (active_episodes windows) (InWindow-member id windows (w, m, n))

member-split :
    (id : Text) (episodes rest : List Text)
    → member id (episodes ++ rest) ≡ true
    → In id episodes ⊎ (member id rest ≡ true)
unfolding member
member-split id [] rest h = inr h
member-split id (x ∷ xs) rest h = elim (Bool-cases (x == id)) [
  | inl t ↦ inl (inl (sym ((eq_iff x id).0 t)))
  | inr f ↦ elim (member-split id xs rest (ground arith)) [ inl m ↦ inl (inr m) | inr m ↦ inr m ]
]

member-InWindow :
    (id : Text) (windows : List Window)
    → member id (active_episodes windows) ≡ true
    → InWindow id windows
unfolding active_episodes
member-InWindow id [] h = absurd (none_active id h)
  where
    none_active : (k : Text) → member k [] ≡ true → ⊥
    none_active k h = unfold member in ground arith
member-InWindow id ((client, episodes) ∷ windows) h =
    elim (member-split id episodes (active_episodes windows) h) [
      | inl m ↦ ((client, episodes), inl refl, m)
      | inr m ↦ let (w, n, k) = member-InWindow id windows m in (w, inr n, k)
    ]

-- No entry has the episode.
abbrev pub Lacks : Text → Entries → Type 0
Lacks id entries = (e : StartupMediaCache) → In e entries → (e.episode_id == id) ≡ false

drop_found-Lacks :
    (id k : Text) (entries : Entries)
    → Lacks id entries
    → Lacks id (drop_found k (find_entry k entries) entries).0
drop_found-Lacks id k entries h e m =
    h e (drop_found-In k entries e (find_entry k entries) refl m).0

module _ (meanwhile : Text → Meanwhile) where
  -- An episode that is lacking is lacking after the loop, if the other goroutines do not add it.
  prune_each-Lacks :
      (active ks : List Text) (entries : Entries) (id : Text)
      → ((k : Text) (es : Entries) → Lacks id es → Lacks id (meanwhile k es))
      → Lacks id entries
      → Lacks id (prune_each meanwhile active ks entries).0
  unfolding prune_each
  prune_each-Lacks active [] entries id quiet h = h
  prune_each-Lacks active (k ∷ ks) entries id quiet h =
      if_cases {A = Entries × List Text} (λ r. Lacks id r.0) (member k active) _ _
        (λ _. prune_each-Lacks active ks entries id quiet h)
        (λ _.
          prune_each-Lacks active ks
            (drop_found k (find_entry k (meanwhile k entries)) (meanwhile k entries)).0 id quiet
            (drop_found-Lacks id k (meanwhile k entries) (quiet k entries h)))

  prune_each-drops :
      (active ks : List Text) (entries : Entries) (id : Text)
      → ((k : Text) (es : Entries) → Lacks id es → Lacks id (meanwhile k es))
      → In id ks
      → member id active ≡ false
      → Lacks id (prune_each meanwhile active ks entries).0
  unfolding prune_each
  prune_each-drops active [] entries id quiet m f = elim m [ ]
  prune_each-drops active (k ∷ ks) entries id quiet (inr m) f =
      if_cases {A = Entries × List Text} (λ r. Lacks id r.0) (member k active) _ _
        (λ _. prune_each-drops active ks entries id quiet m f)
        (λ _.
          prune_each-drops active ks
            (drop_found k (find_entry k (meanwhile k entries)) (meanwhile k entries)).0 id quiet m
            f)
  prune_each-drops active (k ∷ ks) entries id quiet (inl s) f =
      if_false {A = Entries × List Text} (λ r. Lacks id r.0) (member k active) _ _
        (sym (ap (λ x. member x active) s) ∙ f)
        (prune_each-Lacks active ks
          (drop_found k (find_entry k (meanwhile k entries)) (meanwhile k entries)).0 id quiet
          (λ e m.
            ap (λ x. e.episode_id == x) s
            ∙ (drop_found-In k (meanwhile k entries) e (find_entry k (meanwhile k entries)) refl
                m).1))

  In-prune_each :
      (active ks : List Text) (entries : Entries) (e : StartupMediaCache)
      → ((k : Text) (es : Entries) → In e es → In e (meanwhile k es))
      → In e entries
      → member e.episode_id active ≡ true
      → In e (prune_each meanwhile active ks entries).0
  unfolding prune_each
  In-prune_each active [] entries e quiet m h = m
  In-prune_each active (k ∷ ks) entries e quiet m h =
      if_cases {A = Entries × List Text} (λ r. In e r.0) (member k active) _ _
        (λ _. In-prune_each active ks entries e quiet m h)
        (λ f.
          In-prune_each active ks
            (drop_found k (find_entry k (meanwhile k entries)) (meanwhile k entries)).0 e quiet
            (In-drop_found k (meanwhile k entries) e (find_entry k (meanwhile k entries))
              (quiet k entries m)
              (differ e.episode_id k (λ s. cc (sym h ∙ ap (λ x. member x active) s ∙ f))))
            h)
    where
      differ : (a b : Text) → a ≢ b → (a == b) ≡ false
      differ a b s = ground (arith, eq_iff a b)

In-ids : (id : Text) (entries : Entries) → In id (ids_of entries) ⊎ Lacks id entries
In-ids id [] = inr (λ e m. elim m [ ])
In-ids id (x ∷ xs) = elim (Bool-cases (x.episode_id == id)) [
  | inl t ↦ inl (inl (sym ((eq_iff x.episode_id id).0 t)))
  | inr f ↦ elim (In-ids id xs) [
    | inl m ↦ inl (inr m)
    | inr h ↦ inr (λ e m. elim m [
      | inl s ↦ ap (λ (y : StartupMediaCache). y.episode_id == id) s ∙ f
      | inr n ↦ h e n
    ])
  ]
]

-- The other goroutines keep the entries of the episode, and add none to an episode without entries.
abbrev pub Keeps : Text → Meanwhile → Type 0
Keeps id f =
    (es : List StartupMediaCache) (e : StartupMediaCache)
    → e.episode_id ≡ id
    → In e es
    → In e (f es)

abbrev pub AddsNone : Text → Meanwhile → Type 0
AddsNone id f = (es : List StartupMediaCache) → Lacks id es → Lacks id (f es)

-- For an episode whose entries the other goroutines keep while pruneInactive runs, and to which they
-- add none after the snapshot: if it is in the window of a client when pruneInactive reads the
-- windows, its entries are left; if it is in no window then, it has no entry afterwards.
pub prune_inactive-Active :
    (before_snapshot : Meanwhile) (meanwhile : Text → Meanwhile) (windows : List Window)
    (entries : List StartupMediaCache) (id : Text)
    → Keeps id before_snapshot
    → ((k : Text) → Keeps id (meanwhile k) × AddsNone id (meanwhile k))
    → (InWindow id windows
        → (e : StartupMediaCache) → e.episode_id ≡ id
        → In e entries
        → In e (prune_inactive before_snapshot meanwhile windows entries).0)
      × (¬ InWindow id windows
          → Lacks id (prune_inactive before_snapshot meanwhile windows entries).0)
unfolding prune_inactive
prune_inactive-Active before_snapshot meanwhile windows entries id first quiet =
    let snapshot : Entries = before_snapshot entries in
    let active : List Text = active_episodes windows in
    (
      (λ inside e same m.
          In-prune_each meanwhile active (ids_of snapshot) snapshot e
            (λ k es n. (quiet k).0 es e same n) (first entries e same m)
            (ap (λ k. member k active) same ∙ InWindow-member id windows inside)),
      (λ outside. elim (In-ids id snapshot) [
        | inl m ↦
            prune_each-drops meanwhile active (ids_of snapshot) snapshot id (λ k. (quiet k).1) m
              (inactive outside)
        | inr h ↦
            prune_each-Lacks meanwhile active (ids_of snapshot) snapshot id (λ k. (quiet k).1) h
      ]),
    )
  where
    inactive : ¬ InWindow id windows → member id (active_episodes windows) ≡ false
    inactive outside = elim (Bool-cases (member id (active_episodes windows))) [
      | inl t ↦ absurd (outside (member-InWindow id windows t))
      | inr f ↦ f
    ]
