-- ===== src/Server/Reply.antt =====
-- internal/httpserver/envelope.go, and what a handler reads of a request and answers.
use zero_nime.Base.{
  ℕ, Bool, Option, none, some, List, [], ℤ, Result, ok, err, panic, Message, M, pure, lift, attempt,
  ◌>>=◌,
}
use zero_nime.Domain.{
  AnimeCard, HomeFeed, ScheduleDay, CollectionPage, PropertyList, Episode, AnimeDetail,
  StreamResult, WatchlistItem, HistoryItem, ContinueWatchingItem,
}
use zero_nime.Http.{Bytes, Header}
use zero_nime.Text.{Text, text}

-- c.Query, c.QueryInt, c.Params, c.Get, c.BaseURL and c.Locals("client_id")
pub record Request : Type 0 where
  pub query : Text → Text
  pub query_int : Text → ℤ → ℤ
  pub param : Text → Text
  pub header : Text → Text
  pub base_url : Text
  pub client_id : ℕ

-- the data of the answers
pub data Payload : Type 0 where
  healthy : Bool → Payload
  session : Text → ℕ → Payload
  feed : HomeFeed → Payload
  found : List AnimeCard → Payload
  schedule : List ScheduleDay → Payload
  indexed : List (Text × List AnimeCard) → Payload
  properties : PropertyList → Payload
  page : CollectionPage → Payload
  shown : AnimeDetail → Payload
  episodes : Text → List Episode → Payload
  streams : StreamResult → Payload
  watchlist : List WatchlistItem → Payload
  history : List HistoryItem → Payload
  watching : List ContinueWatchingItem → Payload
  saved : Text → Payload
  saved_episode : Text → Text → Payload
  deleted : Payload
  window : ℕ → Text → Bool → Bool → Payload

-- APIError
pub record ApiError : Type 0 where
  pub code : Text
  pub message : Text

pub record Envelope : Type 0 where
  pub payload : Option Payload
  pub meta : List (Text × Text)
  pub error : Option ApiError

-- ok
abbrev pub ok_envelope : Payload → List (Text × Text) → Envelope
ok_envelope p meta = record { payload = some p; meta = meta; error = none }

-- errEnvelope, of which no caller gives a meta
abbrev pub err_envelope : Text → Text → Envelope
err_envelope code message = record {
  payload = none;
  meta = [];
  error = some (record { code = code; message = message });
}

-- a JSON body, a body that is sent whole, and one that is copied from the upstream
pub data Content : Type 0 where
  json : Envelope → Content
  whole : Bytes → Content
  copied : Option (Result Bytes) → Content

pub record Reply : Type 0 where
  pub status : ℕ
  pub headers : Header
  pub content : Content

abbrev pub answer_ok : Payload → List (Text × Text) → Reply
answer_ok p meta = record { status = 200; headers = []; content = json (ok_envelope p meta) }

abbrev pub refuse : ℕ → Text → Text → Reply
refuse status code message = record {
  status = status;
  headers = [];
  content = json (err_envelope code message);
}

abbrev pub provider_failed : Message → Reply
provider_failed e = refuse 502 (text "provider_failed") e

abbrev pub storage_unavailable : Message → Reply
storage_unavailable e = refuse 503 (text "storage_unavailable") (text "Database unavailable.")

module _ {W A : Type 0} where
  abbrev pub go_on : (Message → Reply) → (A → M W Reply) → Result A → M W Reply
  go_on failed next (ok v) = next v
  go_on failed next (err e) = pure (failed e)
  go_on failed next panic = lift panic

  -- `data, err := call(); if err != nil { return … }`
  unfoldable pub on_success : M W A → (Message → Reply) → (A → M W Reply) → M W Reply
  on_success call failed next = attempt call >>= go_on failed next
