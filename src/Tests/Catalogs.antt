-- ===== src/Tests/Catalogs.antt =====
-- The theorems on internal/service/catalog/service.go, applied to a small provider and cache.
use zero_nime.Base.{
  ◌≡◌, refl, ap, Option, none, some, List, [], ◌∷◌, pos, ok, err, M, pure, if◌then◌else◌,
}
use zero_nime.Catalog.Clean.{
  normalize_anime_cards, normalize_collection_page, clean_card, is_score, all_digits,
}
use zero_nime.Catalog.Detail.Cleaned.{IsClean}
use zero_nime.Catalog.Detail.{catalog}
use zero_nime.Catalog.Detail.Total.{Calm, catalog-Answers}
use zero_nime.Catalog.Listing.Again.{
  Remembers, discovery_call-again, normalize_collection_page_idem,
}
use zero_nime.Catalog.Listing.{Provider, Service, page_shape, discovery_call, fetch_discovery}
use zero_nime.Domain.{AnimeCard, AnimeDetail, CollectionPage, Episode}
use zero_nime.Memory.{Cache, Value, as_page}
use zero_nime.Text.Laws.{eq_refl}
use zero_nime.Text.{Text, text, ◌==◌, trim_space, trim_by, drop_while, is_space, split_2}

-- what is kept in memory
abbrev pub Kept : Type 0
Kept = Text → Option Value

abbrev pub kept_cache : Cache Kept
kept_cache = record {
  get = λ key w. (w key, w);
  set = λ key v ttl w. λ other. if key == other then some v else w other;
  delete = λ key w. λ other. if key == other then none else w other;
}

abbrev pub empty : Kept
empty key = none

abbrev card : AnimeCard
card = record {
  id = text "k:1/one";
  title = text "One";
  cover_image = [];
  status_label = [];
  episode_label = text "8.5";
  rating_label = [];
  views_label = [];
  provider = text "k";
}

abbrev page_of : List AnimeCard → CollectionPage
page_of cards = record {
  kind = text "quick";
  key = text "ongoing";
  title = [];
  subtitle = [];
  items = cards;
  current_filter = [];
  current_order = [];
  filter_options = [];
  order_options = [];
  pagination = record {
    current_page = pos 1;
    prev_page = pos 0;
    next_page = pos 0;
    total_pages = pos 1;
  };
}

abbrev sample_episode : Episode
sample_episode = record {
  id = text "k:1/one/episode/12";
  catalog_id = text "k:1/one";
  number = pos 12;
  title = text "Episode 12";
  label = [];
  released_at = [];
}

abbrev sample_detail : AnimeDetail
sample_detail = record {
  id = text "k:1/one";
  title = text "One";
  synopsis = [];
  cover_image = [];
  banner_image = [];
  genres = [];
  metadata = some ((text "tema", text "School") ∷ (text "episode", text "?") ∷ []);
  episodes = sample_episode ∷ [];
  recommendations = card ∷ [];
  provider = text "k";
}

abbrev offline : {A : Type 0} → M Kept A
offline w = (err (text "offline"), w)

-- a provider that has the details of one anime, and nothing else
abbrev sample_provider : Provider Kept
sample_provider = record {
  home_feed = offline;
  search_cards = λ title. offline;
  schedule_days = offline;
  day_page = λ day number. offline;
  index_cards = offline;
  property_items = λ kind. offline;
  property_page = λ kind id order number. offline;
  quick_page = λ kind order number. pure (page_of (card ∷ []));
  seasonal_page = offline;
  catalog_detail = λ id. pure sample_detail;
}

abbrev sample_service : Service Kept
sample_service = record { provider = sample_provider; cache = kept_cache; store = none }

calm : Calm sample_service
calm = record { details = λ id w h. cc; searches = λ title w h. cc; tables = tt }

remembers : Remembers (λ w k. w k) kept_cache page_shape none
unfolding as_page
remembers = record {
  got = λ k w. refl;
  get_leaves = λ k w. refl;
  set_holds = λ k v w. ap (λ b. if b then some v else w k) (eq_refl k);
  save_leaves = λ k v w. refl;
  unwraps = λ v. refl;
  cleans = normalize_collection_page_idem;
}

catalog-Answers_example :
    (d : AnimeDetail) × ((catalog sample_service (text "k:1/one") empty).0 ≡ ok d)
    × IsClean sample_service (text "k:1/one") d
catalog-Answers_example =
    catalog-Answers sample_service calm (text "k:1/one") empty (λ w. (sample_detail, refl))

first_page :
    (discovery_call kept_cache page_shape none (text "key") (pure (page_of (card ∷ []))) empty).0
    ≡ ok (page_of (record card { episode_label = [] } ∷ []))
unfolding discovery_call as_page fetch_discovery normalize_collection_page normalize_anime_cards
    clean_card is_score all_digits ◌==◌ trim_space trim_by drop_while is_space split_2
first_page = refl

discovery_call-again_example :
    discovery_call kept_cache page_shape none
      (text "key")
      offline
      (discovery_call kept_cache page_shape none (text "key") (pure (page_of (card ∷ []))) empty).1
    ≡ (
      ok (page_of (record card { episode_label = [] } ∷ [])),
      (kept_cache.get
          (text "key")
          (discovery_call kept_cache page_shape none
            (text "key")
            (pure (page_of (card ∷ [])))
            empty).1).1,
    )
discovery_call-again_example =
    discovery_call-again (λ w k. w k) kept_cache page_shape none remembers (text "key")
      (pure (page_of (card ∷ []))) offline empty (page_of (record card { episode_label = [] } ∷ []))
      first_page
