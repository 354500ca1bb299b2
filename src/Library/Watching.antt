-- ===== src/Library/Watching.antt =====
-- Which rows of a history lack a title or a cover, and what the list shows for the others.
use zero_nime.Base.{
  ◌≡◌, sym, ap, ◌∙◌, subst, ◌⊎◌, inl, inr, true, false, Option, none, some, List, [], ◌∷◌, In,
  if_cases, if_false, arith,
}
use zero_nime.Domain.{AnimeDetail, ContinueWatchingItem}
use zero_nime.Library.{
  has_meta, listed_meta, missing_from, or_trimmed, listed_title, listed_cover, title_of, cover_of,
  watching_item,
}
use zero_nime.Store.Clients.{Watchlist, WatchHistory}
use zero_nime.Text.{Text, ◌==◌, trim_space, member}

-- The rows are of different catalog identifiers.
abbrev pub DistinctRows : List WatchHistory → Type 0
DistinctRows [] = Unit
DistinctRows (x ∷ xs) =
    ((y : WatchHistory) → In y xs → (x.catalog_id == y.catalog_id) ≡ false) × DistinctRows xs

-- The title and the cover of a row are known from the row or from the watchlist.
abbrev pub Known : (Text → Option Watchlist) → WatchHistory → Type 0
Known listed row =
    (has_meta row.title row.cover_image ≡ true) ⊎ (listed_meta (listed row.catalog_id) ≡ true)

abbrev pub KnownOrMissing : (Text → Option Watchlist) → WatchHistory → List Text → Type 0
KnownOrMissing listed row ids = Known listed row ⊎ In row.catalog_id ids

unseen :
    (k j : Text) (seen : List Text)
    → (j == k) ≡ false
    → member k seen ≡ false
    → member k (j ∷ seen) ≡ false
unfolding member
unseen k j seen h h' = rw (h, h')

pub missing_from-covers :
    (listed : Text → Option Watchlist) (seen : List Text) (rows : List WatchHistory)
    (row : WatchHistory)
    → DistinctRows rows
    → member row.catalog_id seen ≡ false
    → In row rows
    → KnownOrMissing listed row (missing_from listed seen rows)
unfolding missing_from
missing_from-covers listed seen [] row d new m = elim m [ ]
missing_from-covers listed seen (x ∷ xs) row (d, ds) new (inl e) =
    if_cases (KnownOrMissing listed row) (member x.catalog_id seen) _ _
      (λ t. cc (sym new ∙ ap (λ (y : WatchHistory). member y.catalog_id seen) e ∙ t))
      (λ _.
        if_cases (KnownOrMissing listed row) (has_meta x.title x.cover_image) _ _
          (λ t. inl (inl (ap (λ (y : WatchHistory). has_meta y.title y.cover_image) e ∙ t)))
          (λ _.
            if_cases (KnownOrMissing listed row) (listed_meta (listed x.catalog_id)) _ _
              (λ t. inl (inr (ap (λ (y : WatchHistory). listed_meta (listed y.catalog_id)) e ∙ t)))
              (λ _. inr (inl (ap (λ (y : WatchHistory). y.catalog_id) e)))))
missing_from-covers listed seen (x ∷ xs) row (d, ds) new (inr m) =
    let rest =
      missing_from-covers listed (x.catalog_id ∷ seen) xs row ds
        (unseen row.catalog_id x.catalog_id seen (d row m) new) m in
    if_cases (KnownOrMissing listed row) (member x.catalog_id seen) _ _
      (λ _. missing_from-covers listed seen xs row ds new m)
      (λ _.
        if_cases (KnownOrMissing listed row) (has_meta x.title x.cover_image) _ _ (λ _. rest)
          (λ _.
            if_cases (KnownOrMissing listed row) (listed_meta (listed x.catalog_id)) _ _ (λ _. rest)
              (λ _. later x.catalog_id (missing_from listed (x.catalog_id ∷ seen) xs) rest)))
  where
    later :
        (k : Text) (ids : List Text)
        → KnownOrMissing listed row ids
        → KnownOrMissing listed row (k ∷ ids)
    later k ids (inl h) = inl h
    later k ids (inr n) = inr (inr n)

-- a text that is not empty
abbrev Filled : Text → Type 0
Filled t = (t == []) ≡ false

or_trimmed-Filled :
    (found other : Text)
    → Filled found ⊎ Filled (trim_space other)
    → Filled (or_trimmed found other)
or_trimmed-Filled found other (inl h) = if_false Filled (found == []) _ _ h h
or_trimmed-Filled found other (inr h) = if_cases Filled (found == []) _ _ (λ _. h) (λ k. k)

-- The title and the cover are not blank.
abbrev pub HasMeta : Text → Text → Type 0
HasMeta title cover = ((trim_space title == []) ≡ false) × ((trim_space cover == []) ≡ false)

has_meta-HasMeta : (title cover : Text) → has_meta title cover ≡ true → HasMeta title cover
has_meta-HasMeta title cover h = (ground arith, ground arith)

title_of-Filled : (found : Text) (o : Option AnimeDetail) → Filled found → Filled (title_of found o)
title_of-Filled found none h = h
title_of-Filled found (some detail) h = or_trimmed-Filled found detail.title (inl h)

cover_of-Filled : (found : Text) (o : Option AnimeDetail) → Filled found → Filled (cover_of found o)
cover_of-Filled found none h = h
cover_of-Filled found (some detail) h = or_trimmed-Filled found detail.cover_image (inl h)

-- The item shows a title and a cover.
abbrev pub Shown : ContinueWatchingItem → Type 0
Shown item = ((item.title == []) ≡ false) × ((item.cover_image == []) ≡ false)

listed-HasMeta :
    (o : Option Watchlist) → listed_meta o ≡ true → HasMeta (listed_title o) (listed_cover o)
listed-HasMeta none h = cc
listed-HasMeta (some meta) h = has_meta-HasMeta meta.title meta.cover_image h

pub Known-Shown :
    (listed : Text → Option Watchlist) (fallback : Text → Option AnimeDetail) (row : WatchHistory)
    → Known listed row
    → Shown (watching_item listed fallback row)
unfolding watching_item
Known-Shown listed fallback row (inl h) =
    let (title, cover) = has_meta-HasMeta row.title row.cover_image h in
    (
      title_of-Filled _ (fallback row.catalog_id)
          (or_trimmed-Filled (trim_space row.title) _ (inl title)),
      cover_of-Filled _ (fallback row.catalog_id)
          (or_trimmed-Filled (trim_space row.cover_image) _ (inl cover)),
    )
Known-Shown listed fallback row (inr h) =
    let (title, cover) = listed-HasMeta (listed row.catalog_id) h in
    (
      title_of-Filled _ (fallback row.catalog_id)
          (or_trimmed-Filled (trim_space row.title) _ (inr title)),
      cover_of-Filled _ (fallback row.catalog_id)
          (or_trimmed-Filled (trim_space row.cover_image) _ (inr cover)),
    )

pub fetched-Shown :
    (listed : Text → Option Watchlist) (fallback : Text → Option AnimeDetail) (row : WatchHistory)
    (detail : AnimeDetail)
    → fallback row.catalog_id ≡ some detail
    → HasMeta detail.title detail.cover_image
    → Shown (watching_item listed fallback row)
unfolding watching_item
fetched-Shown listed fallback row detail e (title, cover) = (
  subst
      (λ o.
        Filled
          (title_of (or_trimmed (trim_space row.title) (listed_title (listed row.catalog_id))) o))
      (sym e) (or_trimmed-Filled _ detail.title (inr title)),
  subst
      (λ o. Filled (
        cover_of (or_trimmed (trim_space row.cover_image) (listed_cover (listed row.catalog_id)))
          o))
      (sym e) (or_trimmed-Filled _ detail.cover_image (inr cover)),
)
