-- ===== src/Store/Payloads/Kept.antt =====
-- A value that was stored is what is read afterwards.
use zero_nime.Base.{
  ◌≡◌, refl, sym, ap, ◌∙◌, subst, Option, none, some, ℤ, ◌<ℤ◌, ok, lift, pure, M, bind-ok, bind-inv,
  if_cases, not, ltb_ℤ, arith,
}
use zero_nime.Domain.{StreamResult}
use zero_nime.Store.Payloads.{
  PayloadRow, StreamRow, payload_row, decode, read_payload, get_payload, upsert_payload,
  read_stream, get_stream_row,
}
use zero_nime.Store.{Rows, Json}
use zero_nime.Text.{Text}

-- Unmarshal reads what Marshal wrote, in the form in which a jsonb column holds it.
abbrev pub ReadsBack : {A : Type 0} → (Text → Text) → Json A → Type 0
ReadsBack {A} stored json =
    (v : A) (payload : Text) → json.marshal v ≡ ok payload → json.unmarshal (stored payload) ≡ ok v

abbrev pub payload_of : Option PayloadRow → Option Text
payload_of none = none
payload_of (some row) = some row.payload

abbrev pub stream_payload_of : Option StreamRow → Option (Text × ℤ)
stream_payload_of none = none
stream_payload_of (some row) = some (row.payload, row.expires_at)

-- The table holds the payload `look w k` under the key `k`: a lookup without an error gives it, and
-- a save without an error leaves, under the key of the row, its payload in the form of the column.
pub record IsTable {W : Type 0} (stored : Text → Text) (look : W → Text → Option Text)
    (rows : Rows W Text PayloadRow) : Type 0 where
  pub first_finds :
      (k : Text) (w : W) (found : Option PayloadRow)
      → (rows.first k w).0 ≡ ok found
      → payload_of found ≡ look w k
  pub save_stores :
      (r : PayloadRow) (w : W)
      → (rows.save r w).0 ≡ ok tt
      → look (rows.save r w).1 r.key ≡ some (stored r.payload)

-- `stored` is the form in which a jsonb column holds a text, which keeps its value and not its text.
module _ {W A : Type 0} (json : Json A) (stored : Text → Text) (faithful : ReadsBack stored json)
    (look : W → Text → Option Text) (rows : Rows W Text PayloadRow)
    (table : IsTable stored look rows) where
  upsert_payload-run :
      (key : Text) (v : A) (w : W) (payload : Text) (found : Option PayloadRow)
      → json.marshal v ≡ ok payload
      → (rows.first key w).0 ≡ ok found
      → upsert_payload json rows key v w
        ≡ rows.save
            (record (payload_row found) { key = key; payload = payload })
            (rows.first key w).1
  unfolding upsert_payload
  upsert_payload-run key v w payload found e e' =
      bind-ok (lift (json.marshal v)) _ w payload e ∙ bind-ok (rows.first key) _ w found e'

  upsert_payload-looks :
      (key : Text) (v : A) (w : W)
      → (upsert_payload json rows key v w).0 ≡ ok tt
      → (payload : Text) × (json.marshal v ≡ ok payload)
        × (look (upsert_payload json rows key v w).1 key ≡ some (stored payload))
  unfolding upsert_payload
  upsert_payload-looks key v w h =
      let (payload, e, h') = bind-inv (lift (json.marshal v)) _ w tt h in
      let (found, e', h'') = bind-inv (rows.first key) _ w tt h' in
      let row : PayloadRow = record (payload_row found) { key = key; payload = payload } in
      (
        payload,
        e,
        subst (λ x. look x.1 key ≡ some (stored payload))
            (sym (upsert_payload-run key v w payload found e e'))
            (table.save_stores row (rows.first key w).1 h''),
      )

  found_payload :
      (found : Option PayloadRow) (payload : Text)
      → payload_of found ≡ some payload
      → (row : PayloadRow) × (found ≡ some row) × (row.payload ≡ payload)
  found_payload none payload h = cc
  found_payload (some row) payload h = (row, refl, cc)

  -- After a catalog, discovery or startup entry was stored without an error, a lookup of its key
  -- that the database answers returns the entry, if the JSON of a value, in the form in which the
  -- column holds it, is read as this value.
  pub get_payload-upsert_payload :
      (key : Text) (v : A) (w : W) (found : Option PayloadRow)
      → (upsert_payload json rows key v w).0 ≡ ok tt
      → (rows.first key (upsert_payload json rows key v w).1).0 ≡ ok found
      → (get_payload json rows key (upsert_payload json rows key v w).1).0 ≡ ok (some v)
  unfolding get_payload
  get_payload-upsert_payload key v w found h h' =
      let after : W = (upsert_payload json rows key v w).1 in
      let (payload, e, kept) = upsert_payload-looks key v w h in
      let (row, same, same') =
        found_payload found (stored payload) (table.first_finds key after found h' ∙ kept) in
      let read : json.unmarshal row.payload ≡ ok v =
        ap json.unmarshal same' ∙ faithful v payload e in
      subst (λ x. x.0 ≡ ok (some v))
        (sym (
          bind-ok (rows.first key) (read_payload json) after (some row) (h' ∙ ap ok same)
          ∙ bind-ok (lift (json.unmarshal row.payload)) _ (rows.first key after).1 v read))
        refl

module _ {W : Type 0} (json : Json StreamResult) (look : W → Text → Option (Text × ℤ))
    (rows : Rows W Text StreamRow)
    (finds : (k : Text) (w : W) (found : Option StreamRow)
      → (rows.first k w).0 ≡ ok found
      → stream_payload_of found ≡ look w k) where
  decode-inv :
      (payload : Text) (w : W) (r : StreamResult)
      → (decode {W = W} json payload w).0 ≡ ok (some r)
      → json.unmarshal payload ≡ ok r
  decode-inv payload w r h =
      let (v, e, h') = bind-inv (lift {W = W} (json.unmarshal payload)) _ w (some r) h in cc

  read_stream-unexpired :
      (now : ℤ) (o : Option StreamRow) (w : W) (r : StreamResult)
      → (read_stream json rows now o w).0 ≡ ok (some r)
      → (row : StreamRow) × (o ≡ some row)
        × (now <ℤ row.expires_at)
        × (json.unmarshal row.payload ≡ ok r)
  read_stream-unexpired now none w r h = cc
  read_stream-unexpired now (some row) w r h =
      let (lt, decoded) =
        if_cases {A = M W (Option StreamResult)}
          (λ m.
            (m w).0 ≡ ok (some r) → (now <ℤ row.expires_at) × (json.unmarshal row.payload ≡ ok r))
          (not (ltb_ℤ now row.expires_at)) _ _
          (λ _ e.
            let (_, _, e') = bind-inv (rows.delete_row row) (λ _. pure none) w (some r) e in cc)
          (λ f e. (ground arith, decode-inv row.payload w r e)) h in
      (row, refl, lt, decoded)

  -- A result that GetStreamCache returns is what the payload of the row of the episode is decoded to,
  -- and this row has not expired.
  pub get_stream_row-unexpired :
      (id : Text) (now : ℤ) (w : W) (r : StreamResult)
      → (get_stream_row json rows id now w).0 ≡ ok (some r)
      → (payload : Text) × (at : ℤ) × (look w id ≡ some (payload, at))
        × (now <ℤ at)
        × (json.unmarshal payload ≡ ok r)
  unfolding get_stream_row
  get_stream_row-unexpired id now w r h =
      let (found, e, h') = bind-inv (rows.first id) (read_stream json rows now) w (some r) h in
      let (row, same, lt, decoded) = read_stream-unexpired now found (rows.first id w).1 r h' in
      (
        row.payload,
        row.expires_at,
        sym (finds id w found e) ∙ ap stream_payload_of same,
        lt,
        decoded,
      )
