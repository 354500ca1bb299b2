-- ===== src/Server/Proxy/Trusted.antt =====
-- The hosts that the proxies of internal/mediaproxy and internal/imageproxy ask.
use mathlib.Core.List.{reverse-append, reverse-reverse}
use zero_nime.Base.{
  ◌≡◌, refl, sym, ap, ◌∙◌, ◌⊎◌, inl, inr, Bool, true, not, Bool-cases, Option, none, some, List, [],
  ◌∷◌, ◌++◌, any, reverse, In, arith, leb, lift, ◌>>◌, if_cases, Preserves, lift-Preserves,
  bind-Preserves, then-Preserves,
}
use zero_nime.Http.{Header, Response}
use zero_nime.Server.Proxy.{
  Url, Client, is_listed, is_media_host, is_image_host, has_host, is_absolute, media_hosts,
  image_hosts, media_allowed, image_allowed, media_request, image_request, media_received,
  image_received, read_body, media_fetch, image_fetch,
}
use zero_nime.Text.Laws.{eq_iff}
use zero_nime.Text.{Text, text, ◌==◌, trim_space, to_lower, has_prefix, has_suffix}

has_prefix-rest : (s p : Text) → has_prefix s p ≡ true → (r : Text) × (s ≡ p ++ r)
unfolding has_prefix
has_prefix-rest s [] h = (s, refl)
has_prefix-rest [] (b ∷ p) h = cc
has_prefix-rest (a ∷ s) (b ∷ p) h =
    let (r, e) = has_prefix-rest s p (ground arith) in (r, ground (arith, e))

has_suffix-front : (s p : Text) → has_suffix s p ≡ true → (r : Text) × (s ≡ r ++ p)
unfolding has_suffix
has_suffix-front s p h =
    let (r, e) = has_prefix-rest (reverse s) (reverse p) h in
    (
      reverse r,
      sym (reverse-reverse s)
          ∙ ap reverse e
          ∙ reverse-append (reverse p) r
          ∙ ap (λ q. reverse r ++ q) (reverse-reverse p),
    )

-- The host is the domain, or a host inside of it; 46 is '.'.
abbrev pub Belongs : Text → Text → Type 0
Belongs host domain = (host ≡ domain) ⊎ ((sub : Text) × (host ≡ sub ++ 46 ∷ domain))

abbrev pub BelongsToOne : Text → List Text → Type 0
BelongsToOne host domains = (d : Text) × In d domains × Belongs host d

is_listed-BelongsToOne :
    (hosts : List Text) (host : Text) → is_listed hosts host ≡ true → BelongsToOne host hosts
unfolding is_listed any
is_listed-BelongsToOne [] host h = cc
is_listed-BelongsToOne (d ∷ hosts) host h = elim (Bool-cases (host == d)) [
  | inl e ↦ (d, inl refl, inl ((eq_iff host d).0 e))
  | inr n ↦ elim (Bool-cases (has_suffix host (46 ∷ d))) [
    | inl e ↦ (d, inl refl, inr (has_suffix-front host (46 ∷ d) e))
    | inr n' ↦
        let (d', m, b) = is_listed-BelongsToOne hosts host (rw (n, n') at h) in (d', inr m, b)
  ]
]

-- the domains whose hosts the media proxy asks
abbrev pub media_domains : List Text
media_domains = text "my.id" ∷ media_hosts

is_media_host-BelongsToOne :
    (host : Text) → is_media_host host ≡ true → BelongsToOne host media_domains
unfolding is_media_host
is_media_host-BelongsToOne host h = elim (Bool-cases (is_listed media_hosts host)) [
  | inl e ↦ let (d, m, b) = is_listed-BelongsToOne media_hosts host e in (d, inr m, b)
  | inr n ↦ (text "my.id", inl refl, inr (has_suffix-front host (text ".my.id") (rw n at h)))
]

-- The URL is absolute, and its host belongs to one of the domains.
abbrev pub Trusted : {W : Type 0} → Client W → List Text → Text → Type 0
Trusted client domains url =
    (u : Url) × (client.parse (trim_space url) ≡ some u)
    × (is_absolute u ≡ true)
    × BelongsToOne (to_lower u.hostname) domains

module _ {W : Type 0} (client : Client W) where
  has_host-Trusted :
      (test : Text → Bool) (domains : List Text)
      → ((host : Text) → test host ≡ true → BelongsToOne host domains)
      → (url : Text) (o : Option Url) → client.parse (trim_space url) ≡ o
      → has_host test o ≡ true
      → Trusted client domains url
  has_host-Trusted test domains belongs url none e h = cc
  has_host-Trusted test domains belongs url (some u) e h = elim (Bool-cases (is_absolute u)) [
    | inl t ↦ (u, e, t, belongs (to_lower u.hostname) (rw t at h))
    | inr f ↦ cc (rw f at h)
  ]

  media_allowed-Trusted :
      (url : Text) → media_allowed client url ≡ true → Trusted client media_domains url
  unfolding media_allowed
  media_allowed-Trusted url h =
      has_host-Trusted is_media_host media_domains is_media_host-BelongsToOne url
        (client.parse (trim_space url)) refl h

  image_allowed-Trusted :
      (url : Text) → image_allowed client url ≡ true → Trusted client image_hosts url
  unfolding image_allowed is_image_host
  image_allowed-Trusted url h =
      has_host-Trusted is_image_host image_hosts (is_listed-BelongsToOne image_hosts) url
        (client.parse (trim_space url)) refl h

  module _ (P : W → Type 0) where
    media_received-Preserves : (resp : Response) → Preserves P (media_received client resp)
    media_received-Preserves resp =
        if_cases (Preserves P) (leb 400 resp.status_code) _ _ (λ _ w h. h) (λ _ w h. h)

    -- The media proxy keeps what the requests to trusted hosts keep.
    pub media_fetch-Preserves :
        ((url : Text) (h : Header)
          → Trusted client media_domains url
          → Preserves P (client.send url h))
        → (url range : Text) → Preserves P (media_fetch client url range)
    unfolding media_fetch
    media_fetch-Preserves sends url range =
        if_cases (Preserves P) (not (media_allowed client url)) _ _ (λ _ w h. h)
          (λ f.
            bind-Preserves P
              (lift (client.new_request url) >> client.send url (media_request client url range))
              (media_received client)
              (then-Preserves P (lift (client.new_request url))
                (client.send url (media_request client url range))
                (lift-Preserves P (client.new_request url))
                (sends url (media_request client url range)
                  (media_allowed-Trusted url (ground arith))))
              media_received-Preserves)

    image_received-Preserves : (resp : Response) → Preserves P (image_received client resp)
    image_received-Preserves resp =
        if_cases (Preserves P) (leb 400 resp.status_code) _ _ (λ _ w h. h)
          (λ _.
            bind-Preserves P (lift (read_body client resp.body)) _
              (lift-Preserves P (read_body client resp.body)) (λ body w h. h))

    -- The image proxy keeps what the requests to its hosts keep.
    pub image_fetch-Preserves :
        ((url : Text) (h : Header)
          → Trusted client image_hosts url
          → Preserves P (client.send url h))
        → (url : Text) → Preserves P (image_fetch client url)
    unfolding image_fetch
    image_fetch-Preserves sends url =
        if_cases (Preserves P) (not (image_allowed client url)) _ _ (λ _ w h. h)
          (λ f.
            bind-Preserves P
              (lift (client.new_request url) >> client.send url (image_request client url))
              (image_received client)
              (then-Preserves P (lift (client.new_request url))
                (client.send url (image_request client url))
                (lift-Preserves P (client.new_request url))
                (sends url (image_request client url) (image_allowed-Trusted url (ground arith))))
              image_received-Preserves)
