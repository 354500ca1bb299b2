-- ===== src/Stream/Expiry.antt =====
-- The expiry of a stream result, of internal/service/stream/service.go. A time is its number of
-- nanoseconds. What the packages url and time do is a parameter.
pub mod Earliest
use zero_nime.Base.{
  ℕ, zero, suc, ◌*◌, Bool, true, false, not, ◌||◌, Option, none, some, List, [], ◌∷◌, ℤ, pos,
  negsuc, ◌+ℤ◌, ◌-ℤ◌, ltb_ℤ, leb_ℤ, max_int64, wrap64, if◌then◌else◌,
}
use zero_nime.Domain.{StreamCandidate, StreamResult}
use zero_nime.Text.Decimal.{parse_int}
use zero_nime.Text.{Text, text, ◌==◌, trim_space}

pub record Calendar : Type 0 where
  -- url.Parse and Query().Get: the value of a query parameter, or `none` if the URL has an error
  pub query : Text → Option (Text → Text)
  -- time.Parse with the layout 20060102T150405Z
  pub parse_time : Text → Option ℤ
  -- AddDate(10, 0, 0)
  pub in_ten_years : ℤ → ℤ

abbrev pub second : ℕ
second = 1000000000

abbrev pub five_minutes : ℤ
five_minutes = pos 300000000000

-- Time.Sub: the difference as a Duration, which saturates
unfoldable pub time_sub : ℤ → ℤ → ℤ
time_sub a b =
    let d = a -ℤ b in
    if ltb_ℤ (pos max_int64) d
    then pos max_int64
    else if ltb_ℤ d (negsuc max_int64)
    then negsuc max_int64
    else d

-- the time left, or the fallback if that is positive and shorter; a second if no time is left
unfoldable pub shorter : ℤ → ℤ → ℤ
shorter left fallback =
    if leb_ℤ left (pos 0)
    then pos second
    else if leb_ℤ fallback (pos 0) || ltb_ℤ left fallback
    then left
    else fallback

-- time.Duration(seconds) * time.Second wraps
abbrev pub after_seconds : ℤ → Option ℤ → Option ℤ
after_seconds start none = none
after_seconds start (some (pos (suc n))) = some (start +ℤ wrap64 (pos (suc n * second)))
after_seconds start (some _) = none

abbrev from_start : Option ℤ → Text → Option ℤ
from_start none expires = none
from_start (some start) expires = after_seconds start (parse_int expires)

-- `consider`, on `expiresAt` with `found`
abbrev pub earlier : ℤ × Bool → Option ℤ → ℤ × Bool
earlier (at, found) none = (at, found)
earlier (at, found) (some expiry) =
    let safe = expiry -ℤ five_minutes in
    if not found || ltb_ℤ safe at then (safe, true) else (at, found)

-- the candidates that are considered
abbrev pub considered : StreamResult → List StreamCandidate
considered r = elim r.preferred_stream [ none ↦ r.candidates | some c ↦ c ∷ r.candidates ]

module _ (calendar : Calendar) where
  abbrev from_query : Option (Text → Text) → Option ℤ
  from_query none = none
  from_query (some get) =
      let date = trim_space (get (text "X-Amz-Date")) in
      let expires = trim_space (get (text "X-Amz-Expires")) in
      if date == [] || expires == [] then none else from_start (calendar.parse_time date) expires

  -- signedURLExpiresAt
  unfoldable pub signed_url_expires_at : Text → Option ℤ
  signed_url_expires_at raw_url = from_query (calendar.query (trim_space raw_url))

  -- the expiry that `consider` reads from a URL
  unfoldable pub expiry_of : Text → Option ℤ
  expiry_of raw_url = if raw_url == [] then none else signed_url_expires_at raw_url

  unfoldable pub consider_all : ℤ × Bool → List StreamCandidate → ℤ × Bool
  consider_all s [] = s
  consider_all s (c ∷ cs) = consider_all (earlier s (expiry_of c.url)) cs

  -- resultExpiresAt
  unfoldable pub result_expires_at : ℤ → StreamResult → ℤ
  result_expires_at now r = (consider_all (calendar.in_ten_years now, false) (considered r)).0

  -- resultIsExpired
  unfoldable pub result_is_expired : ℤ → StreamResult → Bool
  result_is_expired now r = not (ltb_ℤ now (result_expires_at now r))

  -- streamMemoryTTL; `later` is the time that time.Until reads
  unfoldable pub stream_memory_ttl : ℤ → ℤ → StreamResult → ℤ → ℤ
  stream_memory_ttl later now r fallback =
      let expires_at = result_expires_at now r in
      shorter (if ltb_ℤ now expires_at then time_sub expires_at now else time_sub expires_at later)
        fallback
