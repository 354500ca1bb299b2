-- ===== src/Tests/Idle.antt =====
-- The parts of a server that do nothing, over any world.
use zero_nime.Base.{false, none, some, pos, ok, err, M, pure}
use zero_nime.Catalog.Listing.{Provider}
use zero_nime.Catalog.Listing
use zero_nime.Memory.{Cache}
use zero_nime.Server.Media.{MediaServer, upstream_of}
use zero_nime.Server.Proxy.{Client}
use zero_nime.Server.Public.{Server, UrlFunctions}
use zero_nime.Store.Aliases.{AliasTable}
use zero_nime.Store.{Rows}
use zero_nime.Stream.Expiry.{Calendar}
use zero_nime.Stream.Resolve
use zero_nime.Text.{text}

abbrev pub idle_calendar : Calendar
idle_calendar = record { query = λ url. none; parse_time = λ date. none; in_ten_years = λ now. now }

abbrev pub idle_urls : UrlFunctions
idle_urls = record {
  path_unescape = some;
  query_escape = λ t. t;
  parse = λ url. none;
  is_ip = λ host. false;
}

module _ {W : Type 0} where
  abbrev pub offline : {A : Type 0} → M W A
  offline w = (err (text "offline"), w)

  abbrev pub idle_cache : Cache W
  idle_cache = record { get = λ key w. (none, w); set = λ key v ttl w. w; delete = λ key w. w }

  abbrev pub idle_aliases : AliasTable W
  idle_aliases = record {
    find_internal = λ kind id. offline;
    find_public = λ kind id. offline;
    create_alias = λ row. offline;
    new_uuid = offline;
  }

  abbrev pub idle_rows : {K R : Type 0} → Rows W K R
  idle_rows = record {
    first = λ k. offline;
    create = λ r. offline;
    save = λ r. offline;
    delete_where = λ k. offline;
    delete_row = λ r. offline;
  }

  abbrev pub idle_provider : Provider W
  idle_provider = record {
    home_feed = offline;
    search_cards = λ title. offline;
    schedule_days = offline;
    day_page = λ day number. offline;
    index_cards = offline;
    property_items = λ kind. offline;
    property_page = λ kind id order number. offline;
    quick_page = λ kind order number. offline;
    seasonal_page = offline;
    catalog_detail = λ id. offline;
  }

  abbrev pub idle_catalogs : Listing.Service W
  idle_catalogs = record { provider = idle_provider; cache = idle_cache; store = none }

  abbrev pub idle_streams : Resolve.Service W
  idle_streams = record {
    name = text "k";
    stream_candidates = λ id. offline;
    cache = idle_cache;
    store = none;
    ttl = pos 0;
    now = pure (pos 0);
    calendar = idle_calendar;
    sort_slice = λ cs. cs;
  }

  abbrev pub idle_client : Client W
  idle_client = record { parse = λ url. none; new_request = λ url. ok tt; send = λ url h. offline }

  -- a server with these clients for images and media
  abbrev pub idle_media : Client W → Client W → MediaServer W
  idle_media image media = record {
    aliases = idle_aliases;
    streams = idle_streams;
    keys = record { sha1_hex = λ t. t; url_path = some };
    startup = none;
    predictive = none;
    image = image;
    media = media;
    fetcher = record {
      cache = idle_cache;
      fetch = upstream_of media;
      now = pure (pos 0);
      buffer_ttl = pos 4000000000;
      max_buffered_bytes = pos 2097152;
      slow_threshold = pos 900000000;
    };
    cache = idle_cache;
    start = λ task. pure tt;
    image_max_age = pos 0;
  }

  abbrev pub idle_server : Server W
  idle_server = record {
    provider = text "k";
    catalogs = idle_catalogs;
    media = idle_media idle_client idle_client;
    urls = idle_urls;
    ping = pure tt;
  }
