-- ===== src/MediaCache/Prewarm/Stored.antt =====
-- The tail step of Prewarm of internal/mediacache/service.go: an entry that describes the stored
-- head of a file goes on to describe it, with the tail where one is stored.
use zero_nime.Base.{
  ℕ, ◌-◌, ◌≤◌, ◌<◌, ◌≡◌, refl, ◌≢◌, ap, sym, subst, ◌∙◌, ◌⊎◌, inl, inr, true, false, some, [], ◌∷◌,
  arith, ℤ, pos, negsuc, ◌-ℤ◌, max_int64, pos_part, ok, M, Result, length, take, drop, length-drop,
  if_cases, attempt-ok, if◌then◌else◌,
}
use zero_nime.Domain.{StartupMediaCache}
use zero_nime.Http.{Bytes, Response}
use zero_nime.MediaCache.Blobs.{Table}
use zero_nime.MediaCache.Prewarm.Entry.{tail_start, wants_tail, with_tail, read_all_and_close}
use zero_nime.MediaCache.Prewarm.Parts.{slice_to_end, tail_start-pos, read_of_IsPartial}
use zero_nime.MediaCache.Prewarm.Upstream.{IsPartial, Serves, IsWorking}
use zero_nime.MediaCache.Prewarm.{store_tail, tail_request, tail_read, tail_fetched}
use zero_nime.MediaCache.Range.{range_header}
use zero_nime.MediaCache.{BlobStore, Fetcher, MetadataStore, KeyFunctions, blob_key}
use zero_nime.Text.{Text, text, ◌==◌}
use zero_nime.Text.Laws.{eq_refl}

pub record StoredTail {W : Type 0} (look : Table W) (file : Bytes) (entry : StartupMediaCache)
    (w : W) : Type 0 where
  pub tail_length : ℕ
  pub fits : tail_length ≤ length file
  pub tail_bytes : entry.tail_bytes ≡ pos tail_length
  pub blob : look w entry.tail_key ≡ some (drop (length file - tail_length) file)

-- The entry describes the file, by the bodies that are stored.
pub record Stored {W : Type 0} (look : Table W) (file : Bytes) (entry : StartupMediaCache) (w : W)
    : Type 0 where
  pub content_length : entry.content_length ≡ pos (length file)
  pub head_length : ℕ
  pub fits : head_length ≤ length file
  pub head_bytes : entry.head_bytes ≡ pos head_length
  pub head_blob : look w entry.head_key ≡ some (take head_length file)
  pub tail : (entry.tail_key ≡ []) ⊎ StoredTail look file entry w

-- what wants_tail says of the numbers
pub record HasTail (total : ℕ) (head : ℕ) (tail_bytes : ℤ) : Type 0 where
  pub tail : ℕ
  pub is_pos : tail_bytes ≡ pos tail
  pub positive : 0 < tail
  pub lt_total : tail < total
  pub past_head : head ≤ total - tail

wants_tail-HasTail :
    (total head : ℕ) (tail_bytes : ℤ) (entry : StartupMediaCache)
    → total ≤ max_int64
    → pos_part tail_bytes ≤ max_int64
    → entry.content_length ≡ pos total
    → entry.head_bytes ≡ pos head
    → wants_tail tail_bytes entry ≡ true
    → HasTail total head tail_bytes
unfolding wants_tail
wants_tail-HasTail total head (negsuc n) entry h k ec eh e = absurd (ground arith)
wants_tail-HasTail total head (pos n) entry h k ec eh e =
    let start : tail_start entry.content_length (pos n) ≡ pos (total - n) =
      ap (λ c. tail_start c (pos n)) ec ∙ tail_start-pos total n h k in
    record {
      tail = n;
      is_pos = refl;
      positive = ground (arith, start);
      lt_total = ground (arith, start);
      past_head = ground (arith, start);
    }

-- the key of the tail's blob
abbrev pub tail_key_of : KeyFunctions → StartupMediaCache → Text
tail_key_of keys entry = blob_key keys entry.episode_id entry.source_url (text "tail")

module _ {W : Type 0} (keys : KeyFunctions) (blobs : BlobStore W) where
  tail_read-runs :
      (entry : StartupMediaCache) (body : Bytes) (w : W)
      → body ≢ []
      → (blobs.put (blob_key keys entry.episode_id entry.source_url (text "tail")) body w).0 ≡ ok tt
      → tail_read keys blobs entry (ok body) w ≡ (
        ok (with_tail entry (blob_key keys entry.episode_id entry.source_url (text "tail")) body),
        (blobs.put (blob_key keys entry.episode_id entry.source_url (text "tail")) body w).1,
      )
  tail_read-runs entry [] w ne e = absurd (ne refl)
  tail_read-runs entry (c ∷ body) w ne e = attempt-ok (blobs.put _ (c ∷ body)) _ w tt e

pub Stored-moves :
    {W : Type 0} (look : Table W) (file : Bytes) (entry : StartupMediaCache) (w w' : W)
    → ((j : Text) → look w' j ≡ look w j)
    → Stored look file entry w
    → Stored look file entry w'
Stored-moves look file entry w w' same v = record {
  content_length = v.content_length;
  head_length = v.head_length;
  fits = v.fits;
  head_bytes = v.head_bytes;
  head_blob = same entry.head_key ∙ v.head_blob;
  tail = tail v.tail;
}
  where
    tail :
        (entry.tail_key ≡ []) ⊎ StoredTail look file entry w
        → (entry.tail_key ≡ []) ⊎ StoredTail look file entry w'
    tail (inl e) = inl e
    tail (inr t) = inr (record {
      tail_length = t.tail_length;
      fits = t.fits;
      tail_bytes = t.tail_bytes;
      blob = same entry.tail_key ∙ t.blob;
    })

-- What the tail step returns: an entry of the same episode and source that describes the file.
abbrev pub TailStep :
    {W : Type 0} → Table W → Bytes → StartupMediaCache → Result StartupMediaCache × W → Type 0
TailStep look file entry (result, w) =
    (entry' : StartupMediaCache) × (result ≡ ok entry')
    × Stored look file entry' w
    × (entry'.episode_id ≡ entry.episode_id)
    × (entry'.source_key ≡ entry.source_key)
    × (entry'.head_bytes ≡ entry.head_bytes)

module _ {W : Type 0} (keys : KeyFunctions) (look : Table W) (store : MetadataStore W)
    (blobs : BlobStore W) (fetcher : Fetcher W) (works : IsWorking look store blobs fetcher)
    (file : Bytes) (url : Text) (serves : Serves fetcher url file)
    (fits : length file ≤ max_int64) where
  -- the tail is stored under a key of its own
  tail-Stored :
      (entry : StartupMediaCache) (w : W) (from : ℕ)
      → Stored look file entry w
      → (tail_key_of keys entry == entry.head_key) ≡ false
      → from ≤ length file
      → Stored look file
          (with_tail entry (tail_key_of keys entry) (drop from file))
          (blobs.put (tail_key_of keys entry) (drop from file) w).1
  unfolding with_tail
  tail-Stored entry w from v apart h = record {
    content_length = v.content_length;
    head_length = v.head_length;
    fits = v.fits;
    head_bytes = v.head_bytes;
    head_blob = stores entry.head_key ∙ rw apart v.head_blob;
    tail = inr (record {
      tail_length = length (drop from file);
      fits = omega (arith, length-drop from file);
      tail_bytes = refl;
      blob =
          stores (tail_key_of keys entry)
          ∙ rw (eq_refl (tail_key_of keys entry))
              (ap (λ n. some (drop n file)) (omega (arith, length-drop from file)));
    });
  }
    where
      stores :
          (j : Text)
          → look (blobs.put (tail_key_of keys entry) (drop from file) w).1 j
            ≡ (if tail_key_of keys entry == j then some (drop from file) else look w j)
      stores j =
          works.blob_store.put_stores (tail_key_of keys entry) (drop from file) w j
            (works.put_accepts _ _ w)

  drop-ne-nil : (from : ℕ) → from < length file → drop from file ≢ []
  drop-ne-nil from h e = omega (arith, length-drop from file, ap length e)

  last_byte : (total : ℕ) (z : ℤ) → 0 < total → z ≡ pos total → z -ℤ pos 1 ≡ pos (total - 1)
  last_byte total z h e = ground arith

  -- the step once the tail has been asked for
  tail_fetched-TailStep :
      (entry : StartupMediaCache) (w : W) (from : ℕ) (resp : Response)
      → Stored look file entry w
      → (tail_key_of keys entry == entry.head_key) ≡ false
      → from < length file
      → read_all_and_close (some resp) ≡ ok (drop from file)
      → TailStep look file entry (tail_fetched keys blobs entry (ok (some resp)) w)
  tail_fetched-TailStep entry w from resp v apart h read =
      subst (TailStep look file entry)
        (sym (
          ap (λ r. tail_read keys blobs entry r w) read
          ∙ tail_read-runs keys blobs entry (drop from file) w (drop-ne-nil from h)
              (works.put_accepts _ _ w)))
        (
          with_tail entry (tail_key_of keys entry) (drop from file),
          refl,
          tail-Stored entry w from v apart (omega arith),
          unfold with_tail in refl,
          unfold with_tail in refl,
          unfold with_tail in refl,
        )

  wanted-TailStep :
      (entry : StartupMediaCache) (w : W) (tail_bytes : ℤ)
      → Stored look file entry w
      → entry.source_url ≡ url
      → (tail_key_of keys entry == entry.head_key) ≡ false
      → pos_part tail_bytes ≤ max_int64
      → wants_tail tail_bytes entry ≡ true
      → TailStep look file entry (tail_request keys blobs fetcher tail_bytes entry w)
  unfolding tail_request
  wanted-TailStep entry w tail_bytes v from apart bound wanted =
      subst (TailStep look file entry)
        (sym (attempt-ok (fetcher.fetch entry.source_url range) _ w (some resp) got))
        (tail_fetched-TailStep entry after start resp
          (Stored-moves look file entry w after (works.fetch_leaves entry.source_url range w) v)
          apart (omega (arith, t.positive, t.lt_total))
          (read_of_IsPartial file start (length file - 1) resp answer.2
            ∙ ap ok (
                slice_to_end start (length file - 1) file (omega (arith, t.positive))
                  (omega (arith, t.lt_total)))))
    where
      t : HasTail (length file) v.head_length tail_bytes
      t =
          wants_tail-HasTail (length file) v.head_length tail_bytes entry fits bound
            v.content_length v.head_bytes wanted

      start : ℕ
      start = length file - t.tail

      range : Text
      range =
          range_header (tail_start entry.content_length tail_bytes) (entry.content_length -ℤ pos 1)

      range-eq : range ≡ range_header (pos start) (pos (length file - 1))
      range-eq =
          ap (range_header (tail_start entry.content_length tail_bytes)) (
            last_byte (length file) entry.content_length (omega (arith, t.lt_total))
              v.content_length)
          ∙ ap (λ x. range_header x (pos (length file - 1)))
              (ap (λ c. tail_start c tail_bytes) v.content_length
                ∙ ap (tail_start (pos (length file))) t.is_pos
                ∙ tail_start-pos (length file) t.tail fits
                    (subst (λ z. pos_part z ≤ max_int64) t.is_pos bound))

      answer :
          (r : Response) × ((fetcher.fetch url
              (range_header (pos start) (pos (length file - 1)))
              w).0
            ≡ ok (some r))
          × IsPartial file start (length file - 1) r
      answer =
          serves.responds start (length file - 1) w (omega (arith, t.positive, t.lt_total))
            (omega (arith, t.positive)) (omega arith)

      resp : Response
      resp = answer.0

      got : (fetcher.fetch entry.source_url range w).0 ≡ ok (some resp)
      got =
          ap (λ x. (fetcher.fetch x range w).0) from
          ∙ ap (λ x. (fetcher.fetch url x w).0) range-eq
          ∙ answer.1

      after : W
      after = (fetcher.fetch entry.source_url range w).1

  pub store_tail-TailStep :
      (entry : StartupMediaCache) (w : W) (tail_bytes : ℤ)
      → Stored look file entry w
      → entry.source_url ≡ url
      → (tail_key_of keys entry == entry.head_key) ≡ false
      → pos_part tail_bytes ≤ max_int64
      → TailStep look file entry (store_tail keys blobs fetcher tail_bytes entry w)
  unfolding store_tail
  store_tail-TailStep entry w tail_bytes v from apart bound =
      if_cases {A = M W StartupMediaCache} (λ m. TailStep look file entry (m w))
        (wants_tail tail_bytes entry) _ _ (wanted-TailStep entry w tail_bytes v from apart bound)
        (λ _. (entry, refl, v, refl, refl, refl))
