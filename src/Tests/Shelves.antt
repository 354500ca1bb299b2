-- ===== src/Tests/Shelves.antt =====
-- The theorems on stored payloads and on what a client goes on watching, at concrete values.
use zero_nime.Base.{
  nat_eq, ◌≡◌, refl, sym, ap, if_true, Option, none, some, List, [], ◌∷◌, ℤ, pos, ◌<ℤ◌, Result, ok,
  err, In, if◌then◌else◌,
}
use zero_nime.Domain.{AnimeDetail, ContinueWatchingItem, StreamResult}
use zero_nime.Library.Complete.{continue_watching-Shown}
use zero_nime.Library.Watching.{HasMeta, Shown}
use zero_nime.Library.{continue_watching}
use zero_nime.Store.Clients.{WatchHistory, ClientTables}
use zero_nime.Store.Payloads.{PayloadRow, StreamRow, get_payload, upsert_payload, get_stream_row}
use zero_nime.Store.Payloads.Kept.{
  IsTable, payload_of, stream_payload_of, get_payload-upsert_payload, get_stream_row-unexpired,
}
use zero_nime.Store.{Rows, Json}
use zero_nime.Text.Laws.{eq_refl}
use zero_nime.Text.{Text, text, ◌==◌, trim_space, trim_by, drop_while, is_space}

-- a table of one kind, as a function
abbrev Payloads : Type 0
Payloads = Text → Option PayloadRow

-- the JSON of a text is the text after a quote; the column puts a space before it, which is skipped
abbrev unquote : Text → Result Text
unquote [] = err (text "unexpected end")
unquote (c ∷ []) = if nat_eq c 32 then err (text "unexpected end") else ok []
unquote (c ∷ d ∷ t) = if nat_eq c 32 then ok t else ok (d ∷ t)

abbrev spaced : Text → Text
spaced t = 32 ∷ t

abbrev payload_rows : Rows Payloads Text PayloadRow
payload_rows = record {
  first = λ k w. (ok (w k), w);
  create = λ r w. (ok tt, λ k. if r.key == k then some r else w k);
  save = λ r w.
      (ok tt, λ k. if r.key == k then some (record r { payload = spaced r.payload }) else w k);
  delete_where = λ k w. (ok tt, λ j. if k == j then none else w j);
  delete_row = λ r w. (ok tt, λ j. if r.key == j then none else w j);
}

abbrev quoted : Json Text
quoted = record { marshal = λ t. ok (34 ∷ t); unmarshal = unquote }

value_of : {A : Type 0} (a b : A) → ok a ≡ ok b → a ≡ b
value_of a b h = cc

payload_rows-IsTable : IsTable spaced (λ (w : Payloads) k. payload_of (w k)) payload_rows
payload_rows-IsTable = record {
  first_finds = λ k w found h. ap payload_of (sym (value_of (w k) found h));
  save_stores = λ r w h.
      if_true (λ o. payload_of o ≡ some (spaced r.payload)) (r.key == r.key) _ _ (eq_refl r.key)
        refl;
}

no_payloads : Payloads
no_payloads k = none

abbrev stored_row : PayloadRow
stored_row = record { id = 0; key = text "home"; payload = spaced (34 ∷ text "feed") }

get_payload-upsert_payload_example :
    (get_payload quoted payload_rows
      (text "home")
      (upsert_payload quoted payload_rows (text "home") (text "feed") no_payloads).1).0
    ≡ ok (some (text "feed"))
unfolding upsert_payload no_payloads ◌==◌
get_payload-upsert_payload_example =
    get_payload-upsert_payload quoted spaced
      (λ v payload e. ap (λ t. unquote (spaced t)) (value_of _ _ (sym e))) (λ w k. payload_of (w k))
      payload_rows payload_rows-IsTable (text "home") (text "feed") no_payloads (some stored_row)
      refl refl

abbrev StreamRows : Type 0
StreamRows = Text → Option StreamRow

abbrev stream_rows : Rows StreamRows Text StreamRow
stream_rows = record {
  first = λ k w. (ok (w k), w);
  create = λ r w. (ok tt, λ k. if r.episode_id == k then some r else w k);
  save = λ r w. (ok tt, λ k. if r.episode_id == k then some r else w k);
  delete_where = λ k w. (ok tt, λ j. if k == j then none else w j);
  delete_row = λ r w. (ok tt, λ j. if r.episode_id == j then none else w j);
}

-- a result whose provider is the payload
abbrev sample_result : Text → StreamResult
sample_result payload = record {
  episode_id = text "k:1";
  preferred_stream = none;
  candidates = [];
  selection_reason = [];
  provider = payload;
}

abbrev result_json : Json StreamResult
result_json = record {
  marshal = λ r. ok r.provider;
  unmarshal = λ payload. ok (sample_result payload);
}

abbrev cached_row : StreamRow
cached_row = record { id = 3; episode_id = text "k:1"; payload = text "k"; expires_at = pos 9 }

get_stream_row-unexpired_example :
    (payload : Text) × (at : ℤ) × (stream_payload_of (some cached_row) ≡ some (payload, at))
    × (pos 5 <ℤ at)
    × (result_json.unmarshal payload ≡ ok (sample_result (text "k")))
unfolding get_stream_row
get_stream_row-unexpired_example =
    get_stream_row-unexpired result_json (λ w k. stream_payload_of (w k)) stream_rows
      (λ k w found h. ap stream_payload_of (sym (value_of (w k) found h))) (text "k:1") (pos 5)
      (λ k. some cached_row) (sample_result (text "k")) refl

-- a client with one row in the history and an empty watchlist
abbrev watched : WatchHistory
watched = record {
  id = 1;
  client_id = 4;
  catalog_id = text "k:a";
  episode_id = text "k:a-1";
  title = [];
  cover_image = [];
  provider = text "k";
  position_seconds = pos 90;
  updated_at = pos 7;
}

abbrev one_client : ClientTables Payloads
one_client = record {
  clients = record {
    first = λ k w. (ok none, w);
    create = λ r w. (ok tt, w);
    save = λ r w. (ok tt, w);
    delete_where = λ k w. (ok tt, w);
    delete_row = λ r w. (ok tt, w);
  };
  create_client = λ token w. (ok (record { id = 4; token = token }), w);
  watchlists = record {
    first = λ k w. (ok none, w);
    create = λ r w. (ok tt, w);
    save = λ r w. (ok tt, w);
    delete_where = λ k w. (ok tt, w);
    delete_row = λ r w. (ok tt, w);
  };
  histories = record {
    first = λ k w. (ok (some watched), w);
    create = λ r w. (ok tt, w);
    save = λ r w. (ok tt, w);
    delete_where = λ k w. (ok tt, w);
    delete_row = λ r w. (ok tt, w);
  };
  watchlist_of = λ c w. (ok [], w);
  history_of = λ c w. (ok (watched ∷ []), w);
}

abbrev sample_detail : AnimeDetail
sample_detail = record {
  id = text "k:a";
  title = text "A";
  synopsis = [];
  cover_image = text "a.png";
  banner_image = [];
  genres = [];
  metadata = none;
  episodes = [];
  recommendations = [];
  provider = text "k";
}

sample_detail-HasMeta : HasMeta sample_detail.title sample_detail.cover_image
unfolding trim_space trim_by drop_while is_space ◌==◌
sample_detail-HasMeta = (refl, refl)

continue_watching-Shown_example :
    (items : List ContinueWatchingItem) × ((continue_watching one_client
        (λ id w. (ok sample_detail, w))
        4
        no_payloads).0
      ≡ ok items)
    × ((item : ContinueWatchingItem) → In item items → Shown item)
continue_watching-Shown_example =
    continue_watching-Shown one_client (λ id w. (ok sample_detail, w)) 4 no_payloads (watched ∷ [])
      [] (λ id w. (sample_detail, refl, sample_detail-HasMeta)) ((λ y m. elim m [ ]), tt) refl refl
