-- ===== src/Http.antt =====
-- The parts of Go's net/http values that the program reads: headers, and the response that an
-- HTTP client or a proxied upstream gives.
use zero_nime.Base.{ℕ, Option, List, [], ◌∷◌, ℤ, Result, if◌then◌else◌}
use zero_nime.Text.{Text, ◌==◌}

abbrev pub Bytes : Type 0
Bytes = List ℕ

-- http.Header: the values of each canonical header name.
abbrev pub Header : Type 0
Header = List (Text × List Text)

-- Header.Get: the first value, or the empty text
unfoldable pub header_get : Header → Text → Text
header_get [] key = []
header_get ((k, []) ∷ h) key = header_get h key
header_get ((k, v ∷ vs) ∷ h) key = if k == key then v else header_get h key

-- Header.Set
unfoldable pub header_set : Header → Text → Text → Header
header_set [] key v = (key, v ∷ []) ∷ []
header_set ((k, vs) ∷ h) key v =
    if k == key then (key, v ∷ []) ∷ h else (k, vs) ∷ header_set h key v

-- *http.Response: the body is what reading it to the end gives, `none` where it is nil, and the
-- content length is -1 where it is not known.
pub record Response : Type 0 where
  pub status_code : ℕ
  pub header : Header
  pub content_length : ℤ
  pub body : Option (Result Bytes)
