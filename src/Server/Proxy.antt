-- ===== src/Server/Proxy.antt =====
-- internal/mediaproxy/proxy.go and internal/imageproxy/proxy.go: fetching from the hosts that are
-- trusted. What url.Parse reads, what http.NewRequest accepts and what the client does are
-- parameters.
pub mod Trusted
use zero_nime.Base.{
  ℕ, Bool, true, false, not, ◌&&◌, ◌||◌, Option, none, some, List, [], ◌∷◌, ◌++◌, any, leb, Result,
  ok, err, panic, M, pure, fail, lift, attempt, ◌>>=◌, ◌>>◌, if◌then◌else◌,
}
use zero_nime.Http.{Bytes, Header, Response, header_get, header_set}
use zero_nime.Text.Decimal.{format_nat}
use zero_nime.Text.{Text, text, ◌==◌, trim_space, to_lower, has_suffix, contains}

-- what the code reads of a *url.URL: Scheme, Host, Hostname() and Path
pub record Url : Type 0 where
  pub scheme : Text
  pub host : Text
  pub hostname : Text
  pub path : Text

-- url.Parse, with `none` for an error; http.NewRequest with the method GET; and client.Do
pub record Client (W : Type 0) : Type 0 where
  pub parse : Text → Option Url
  pub new_request : Text → Result (Unit {0})
  pub send : Text → Header → M W Response

abbrev pub media_hosts : List Text
media_hosts =
    text "pixeldrain.com"
    ∷ text "kitasan.my.id"
    ∷ text "amiya.my.id"
    ∷ text "anisphia.my.id"
    ∷ text "r2.cloudflarestorage.com"
    ∷ []

abbrev pub image_hosts : List Text
image_hosts =
    text "otakudesu.blog"
    ∷ text "otakudesu.best"
    ∷ text "otakudesu.cloud"
    ∷ text "kuramanime.ink"
    ∷ text "kuramanime.work"
    ∷ text "kuramanime.tel"
    ∷ text "i0.wp.com"
    ∷ text "nyomo.my.id"
    ∷ text "pixeldrain.com"
    ∷ text "kitasan.my.id"
    ∷ text "myanimelist.net"
    ∷ []

-- the loops over allowedHosts
unfoldable pub is_listed : List Text → Text → Bool
is_listed hosts host = any (λ allowed. host == allowed || has_suffix host (46 ∷ allowed)) hosts

unfoldable pub is_media_host : Text → Bool
is_media_host host = is_listed media_hosts host || has_suffix host (text ".my.id")

unfoldable pub is_image_host : Text → Bool
is_image_host host = is_listed image_hosts host

-- the scheme and the host are not empty
abbrev pub is_absolute : Url → Bool
is_absolute u = not (u.scheme == []) && not (u.host == [])

abbrev pub has_host : (Text → Bool) → Option Url → Bool
has_host test none = false
has_host test (some u) = is_absolute u && test (to_lower u.hostname)

abbrev pub referer_host : (Text → Text) → Text → Option Url → Text
referer_host choose default none = default
referer_host choose default (some u) =
    if is_absolute u then choose (to_lower u.hostname) else default

abbrev pixeldrain : Text
pixeldrain = text "https://pixeldrain.com/"

abbrev kuramanime : Text
kuramanime = text "https://v17.kuramanime.ink/"

abbrev otakudesu : Text
otakudesu = text "https://otakudesu.best/"

abbrev media_referer : Text → Text
media_referer host =
    if has_suffix host (text ".my.id") || has_suffix host (text ".r2.cloudflarestorage.com")
    then kuramanime
    else pixeldrain

abbrev image_referer : Text → Text
image_referer host =
    if contains host (text "kuramanime")
    then kuramanime
    else if contains host (text "myanimelist")
    then text "https://myanimelist.net/"
    else otakudesu

module _ {W : Type 0} (client : Client W) where
  -- Proxy.Allowed
  unfoldable pub media_allowed : Text → Bool
  media_allowed raw_url = has_host is_media_host (client.parse (trim_space raw_url))

  unfoldable pub image_allowed : Text → Bool
  image_allowed raw_url = has_host is_image_host (client.parse (trim_space raw_url))

  -- refererFor
  unfoldable pub media_referer_for : Text → Text
  media_referer_for raw_url =
      referer_host media_referer pixeldrain (client.parse (trim_space raw_url))

  unfoldable pub image_referer_for : Text → Text
  image_referer_for raw_url =
      referer_host image_referer otakudesu (client.parse (trim_space raw_url))

  -- the headers of the requests
  unfoldable pub media_request : Text → Text → Header
  media_request raw_url range =
      let base =
        header_set
          (header_set (header_set [] (text "User-Agent") (text "Mozilla/5.0")) (text "Accept")
            (text "*/*"))
          (text "Referer") (media_referer_for raw_url) in
      if not (trim_space range == []) then header_set base (text "Range") range else base

  unfoldable pub image_request : Text → Header
  image_request raw_url =
      header_set
        (header_set (header_set [] (text "User-Agent") (text "Mozilla/5.0")) (text "Accept")
          (text "image/avif,image/webp,image/apng,image/*,*/*;q=0.8"))
        (text "Referer") (image_referer_for raw_url)

  abbrev pub media_received : Response → M W Response
  media_received resp =
      if leb 400 resp.status_code
      then fail (text "media status " ++ format_nat resp.status_code)
      else pure resp

  -- Fetch of the media proxy
  unfoldable pub media_fetch : Text → Text → M W Response
  media_fetch raw_url range =
      if not (media_allowed raw_url)
      then fail (text "host not allowed")
      else lift (client.new_request raw_url)
        >> client.send raw_url (media_request raw_url range)
        >>= media_received

  -- the body, read to the end; a nil body panics
  abbrev pub read_body : Option (Result Bytes) → Result Bytes
  read_body none = panic
  read_body (some r) = r

  abbrev pub content_type_or : Text → Text → Text
  content_type_or value default = if value == [] then default else value

  abbrev pub image_received : Response → M W (Bytes × Text)
  image_received resp =
      if leb 400 resp.status_code
      then fail (text "image status " ++ format_nat resp.status_code)
      else lift (read_body resp.body) >>= λ body.
          pure (
            body,
            content_type_or (header_get resp.header (text "Content-Type")) (text "image/jpeg"),
          )

  -- Fetch of the image proxy
  unfoldable pub image_fetch : Text → M W (Bytes × Text)
  image_fetch raw_url =
      if not (image_allowed raw_url)
      then fail (text "host not allowed")
      else lift (client.new_request raw_url)
        >> client.send raw_url (image_request raw_url)
        >>= image_received
