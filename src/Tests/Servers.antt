-- ===== src/Tests/Servers.antt =====
-- The theorems on internal/httpserver, applied to small servers.
use zero_nime.Base.{
  ℕ, ◌≡◌, refl, sym, subst, ap, inl, inr, Option, none, some, List, [], ◌∷◌, In, arith, find_first,
  find_first-In, pos, Result, ok, err, M, pure, ◌∙◌, wrap64, if◌then◌else◌, Preserves,
}
use zero_nime.Http.{Bytes, Response}
use zero_nime.Identity.Ensured.{Working}
use zero_nime.Memory.{as_buffered}
use zero_nime.Server.Clients.Session.{require_client-ensure_session}
use zero_nime.Server.Clients.{
  ClientServer, session_reply, ensure_session, require_client, as_client, token_header,
}
use zero_nime.Server.Fetch.Faithful.{Steady, Honest, Shows, fetch-Shows}
use zero_nime.Server.Fetch.{
  MediaFetcher, Fetched, fetch, explicit_range, coalescing_range_key, media_key,
}
use zero_nime.Server.Media.Hosts.{Guarded, media_route-Preserves}
use zero_nime.Server.Media.{MediaServer, media_route}
use zero_nime.Server.Proxy.Trusted.{Trusted, media_domains}
use zero_nime.Server.Proxy.{Client, Url}
use zero_nime.Server.Reply.{Request, Reply}
use zero_nime.Store.Clients.{AnonymousClient, ClientTables}
use zero_nime.Store.Uuid.{AllBytes}
use zero_nime.Tests.Catalogs.{Kept, kept_cache, empty}
use zero_nime.Tests.Idle.{offline, idle_rows, idle_client, idle_media, idle_server}
use zero_nime.Text.Decimal.{parse_int}
use zero_nime.Text.Laws.{eq_iff, eq_refl}
use zero_nime.Text.{
  Text, text, ◌==◌, trim_space, trim_by, drop_while, is_space, to_lower, lower, has_prefix, split_2,
  first_part,
}

abbrev file_url : Text
file_url = text "https://pixeldrain.com/a"

abbrev small_range : Text
small_range = text "bytes=0-3"

abbrev all_numbers : Text
all_numbers = text "bytes=0-9223372036854775807"

all_numbers-key :
    coalescing_range_key file_url all_numbers (pos 4) ≡ some (media_key file_url all_numbers)
unfolding coalescing_range_key explicit_range parse_int wrap64 ◌==◌ trim_space trim_by drop_while
    is_space to_lower lower has_prefix split_2 first_part
all_numbers-key = refl

abbrev file : Bytes
file = 10 ∷ 11 ∷ 12 ∷ 13 ∷ []

abbrev response : Response
response = record {
  status_code = 206;
  header = (text "Content-Type", text "video/mp4" ∷ []) ∷ [];
  content_length = pos 4;
  body = some (ok file);
}

abbrev file_fetch : MediaFetcher Kept
file_fetch = record {
  cache = kept_cache;
  fetch = λ url range. pure (some response);
  now = pure (pos 7);
  buffer_ttl = pos 4000000000;
  max_buffered_bytes = pos 4;
  slow_threshold = pos 900000000;
}

steady : Steady (λ w k. w k) file_fetch file_url small_range response file
steady = record {
  answers = λ w. refl;
  reads = refl;
  times = λ w. (pos 7, refl);
  got = λ k w. refl;
  get_leaves = λ k w. refl;
  set_holds = λ k v ttl w. ap (λ b. if b then some v else w k) (eq_refl k);
  fetch_leaves = λ k w. refl;
  now_leaves = λ k w. refl;
}

nothing_held :
    (o : Option Text)
    → Honest (λ w k. w k) file_fetch file_url small_range response file steady o empty
unfolding as_buffered
nothing_held none = tt
nothing_held (some k) = inl refl

fetch-Shows_example :
    (x : Fetched) × ((fetch file_fetch file_url small_range empty).0 ≡ ok x)
    × Shows response file x
    × Honest
        (λ w k. w k)
        file_fetch
        file_url
        small_range
        response
        file
        steady
        (coalescing_range_key file_url small_range (pos 4))
        (fetch file_fetch file_url small_range empty).1
fetch-Shows_example =
    fetch-Shows (λ w k. w k) file_fetch file_url small_range response file steady empty
      (nothing_held (coalescing_range_key file_url small_range (pos 4)))

-- the world is the list of the URLs that were asked for
abbrev pixeldrain_url : Url
pixeldrain_url = record {
  scheme = text "https";
  host = text "pixeldrain.com";
  hostname = text "pixeldrain.com";
  path = text "/a";
}

abbrev recorded : Client (List Text)
recorded = record {
  parse = λ url. if url == file_url then some pixeldrain_url else none;
  new_request = λ url. ok tt;
  send = λ url h asked. (ok response, url ∷ asked);
}

abbrev recorder : MediaServer (List Text)
recorder = idle_media idle_client recorded

abbrev AllTrusted : List Text → Type 0
AllTrusted asked = (url : Text) → In url asked → Trusted recorded media_domains url

guarded : Guarded AllTrusted recorder
guarded = record {
  sends = λ url h trusted w all. λ other m. elim m [
    | inl e ↦ subst (Trusted recorded media_domains) (sym e) trusted
    | inr m' ↦ all other m'
  ];
  wired = λ url range. refl;
  lookups = λ kind id w h. h;
  streams = record {
    candidates = λ id w h. h;
    times = λ w h. h;
    memory = record { gets = λ k w h. h; sets = λ k v ttl w h. h; deletes = λ k w h. h };
    table = tt;
  };
  startup = tt;
  predictive = tt;
  times = λ w h. h;
  buffers = record { gets = λ k w h. h; sets = λ k v ttl w h. h; deletes = λ k w h. h };
  memory = record { gets = λ k w h. h; sets = λ k v ttl w h. h; deletes = λ k w h. h };
  starts = λ task w h. h;
}

abbrev request : (Text → Text) → (Text → Text) → Request
request query header = record {
  query = query;
  query_int = λ name default. default;
  param = λ name. [];
  header = header;
  base_url = text "http://localhost";
  client_id = 0;
}

abbrev file_request : Request
file_request = request (λ name. if name == text "url" then file_url else []) (λ name. [])

media_route-Preserves_example : Preserves AllTrusted (media_route recorder file_request)
media_route-Preserves_example = media_route-Preserves AllTrusted recorder guarded file_request

-- the world is the table of the clients
abbrev lookup_client : List AnonymousClient → Text → Option AnonymousClient
lookup_client w k = find_first (λ c. c.token == k) w

-- the index refuses a token that the table has
abbrev created :
    Text
    → List AnonymousClient
    → Option AnonymousClient
    → Result AnonymousClient × List AnonymousClient
created k w (some c) = (err (text "duplicate key value violates unique constraint"), w)
created k w none = (ok (record { id = 1; token = k }), record { id = 1; token = k } ∷ w)

abbrev drawn : List ℕ
drawn =
    1 ∷ 2 ∷ 3 ∷ 4 ∷ 5 ∷ 6 ∷ 7 ∷ 8 ∷ 9 ∷ 10 ∷ 11 ∷ 12 ∷ 13 ∷ 14 ∷ 15 ∷ 16 ∷ 17 ∷ 18 ∷ 19 ∷ 20 ∷ 21
    ∷ 22 ∷ 23 ∷ 255 ∷ []

abbrev clients : ClientTables (List AnonymousClient)
clients = record {
  clients = record idle_rows { first = λ k w. (ok (lookup_client w k), w) };
  create_client = λ k w. created k w (lookup_client w k);
  watchlists = idle_rows;
  histories = idle_rows;
  watchlist_of = λ id. offline;
  history_of = λ id. offline;
}

abbrev client_server : ClientServer (List AnonymousClient)
client_server = record {
  server = idle_server;
  tables = clients;
  random_bytes = pure drawn;
  count_request = pure 1;
  public_limit = 60;
}

all_bytes : AllBytes drawn
all_bytes = (
  omega arith,
  (
    omega arith,
    (
      omega arith,
      (
        omega arith,
        (
          omega arith,
          (
            omega arith,
            (
              omega arith,
              (
                omega arith,
                (
                  omega arith,
                  (
                    omega arith,
                    (
                      omega arith,
                      (
                        omega arith,
                        (
                          omega arith,
                          (
                            omega arith,
                            (
                              omega arith,
                              (
                                omega arith,
                                (
                                  omega arith,
                                  (
                                    omega arith,
                                    (
                                      omega arith,
                                      (
                                        omega arith,
                                        (
                                          omega arith,
                                          (omega arith, (omega arith, (omega arith, tt))),
                                        ),
                                      ),
                                    ),
                                  ),
                                ),
                              ),
                            ),
                          ),
                        ),
                      ),
                    ),
                  ),
                ),
              ),
            ),
          ),
        ),
      ),
    ),
  ),
)

working : Working clients (pure drawn)
unfolding find_first
working = record {
  look = lookup_client;
  first = λ k w. refl;
  first_leaves = λ k w. refl;
  named = λ k w c e.
      (eq_iff c.token k).0 (find_first-In (λ (d : AnonymousClient). d.token == k) w c e).1;
  creates = λ k w absent room. (
    record { id = 1; token = k },
    ap (λ o. (created k w o).0) absent,
    refl,
    ap (λ o. lookup_client (created k w o).1 k) absent
        ∙ ap
            (λ b.
              if b
              then some (record { id = 1; token = k })
              else find_first (λ (d : AnonymousClient). d.token == k) w)
            (eq_refl k),
  );
  bytes = λ w. (1, _, refl, all_bytes, refl);
}

require_client-ensure_session_example :
    (c : AnonymousClient) × ((ensure_session client_server file_request []).0
      ≡ ok (session_reply client_server c))
    × ((next : Request → M (List AnonymousClient) Reply) (later : Request)
        → later.header token_header ≡ c.token
        → (w' : List AnonymousClient) × (require_client client_server next later
              (ensure_session client_server file_request []).1
            ≡ next (as_client client_server later c) w'))
require_client-ensure_session_example =
    require_client-ensure_session client_server working file_request []
