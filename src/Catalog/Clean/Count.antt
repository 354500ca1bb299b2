-- ===== src/Catalog/Clean/Count.antt =====
-- inferredEpisodeCount against its specification: the largest number that occurs, or the length.
use zero_nime.Base.{◌≡◌, ◌⊎◌, List, In, length, ℤ, pos, ◌≤ℤ◌, ◌<ℤ◌}
use zero_nime.Catalog.Clean.{numbers_of}
use zero_nime.Domain.{Episode}

-- The number occurs in one of the episodes: as its number, in its label or in its title.
abbrev pub Occurs : ℤ → List Episode → Type 0
Occurs n items = (item : Episode) × In item items × In n (numbers_of item)

-- The count of the episodes: no number that occurs exceeds it, it is positive if there are
-- episodes, and it is a number that occurs or the number of the episodes.
abbrev pub IsCount : List Episode → ℤ → Type 0
IsCount items c =
    ((n : ℤ) → Occurs n items → n ≤ℤ c)
    × ((item : Episode) → In item items → pos 0 <ℤ c)
    × ((c ≡ pos (length items)) ⊎ Occurs c items)
