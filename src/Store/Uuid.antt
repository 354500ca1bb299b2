-- ===== src/Store/Uuid.antt =====
-- newUUID of internal/store/postgres/store.go, from the 16 bytes that rand.Read gives.
use zero_nime.Base.{
  ℕ, ◌+◌, ◌/◌, ◌%◌, ◌<◌, ◌≤◌, ◌≡◌, refl, ap, ◌∙◌, Bool, false, ◌||◌, List, [], ◌∷◌, ◌++◌, arith,
  ltb, nat_eq, if◌then◌else◌, M, pure, ◌>>=◌, length, none, ◌⊎◌, inl, inr,
}
use zero_nime.Text.{Text, is_space, trim_space, split_2, ◌==◌}
use zero_nime.Text.Laws.{AllOff, StartsOff, AllOff-reverse, trim_by_of_StartsOff}
use zero_nime.Domain.{parse_qualified_id, qualified_parts, err_invalid_identifier}
use zero_nime.Identifiers.RoundTrip.{IsPublicId}

abbrev pub hex_digit : ℕ → ℕ
hex_digit n = if ltb n 10 then 48 + n else 87 + n

-- the verb %x for a byte slice
unfoldable pub hex : List ℕ → Text
hex [] = []
hex (b ∷ bs) = hex_digit (b / 16) ∷ hex_digit (b % 16) ∷ hex bs

-- bytes[6] and bytes[8] with the version and the variant
abbrev pub versioned : ℕ → ℕ
versioned b = b % 16 + 64

abbrev pub variant : ℕ → ℕ
variant b = b % 64 + 128

-- the bytes, the bits of the version and the variant set
unfoldable pub uuid_text : List ℕ → Text
uuid_text (b0 ∷ b1 ∷ b2 ∷ b3 ∷ b4 ∷ b5 ∷ b6 ∷ b7 ∷ b8 ∷ b9 ∷ rest) =
    hex (b0 ∷ b1 ∷ b2 ∷ b3 ∷ [])
    ++ (45
        ∷ (hex (b4 ∷ b5 ∷ [])
            ++ (45
                ∷ (hex (versioned b6 ∷ b7 ∷ [])
                    ++ (45 ∷ (hex (variant b8 ∷ b9 ∷ []) ++ (45 ∷ hex rest)))))))
uuid_text bytes = []

-- newUUID, with rand.Read of 16 bytes
abbrev pub new_uuid_of : {W : Type 0} → M W (List ℕ) → M W Text
new_uuid_of random = random >>= λ bytes. pure (uuid_text bytes)

-- A character that neither ends a trimmed text nor separates a qualified identifier.
abbrev pub is_odd : ℕ → Bool
is_odd c = is_space c || nat_eq c 58

abbrev pub AllBytes : List ℕ → Type 0
AllBytes [] = Unit
AllBytes (b ∷ bs) = (b < 256) × AllBytes bs

even_of_range : (c : ℕ) → (48 ≤ c) → (c ≤ 57) ⊎ ((97 ≤ c) × (c ≤ 102)) → is_odd c ≡ false
unfolding is_space
even_of_range c h (inl k) = ground arith
even_of_range c h (inr (k, l)) = ground arith

hex_digit-even : (n : ℕ) → n < 16 → is_odd (hex_digit n) ≡ false
hex_digit-even n h = even_of_range (hex_digit n) (ground arith) (ground arith)

hex-AllOff : (bs : List ℕ) → AllBytes bs → AllOff is_odd (hex bs)
unfolding hex
hex-AllOff [] h = tt
hex-AllOff (b ∷ bs) (h, hs) = (
  hex_digit-even (b / 16) (omega arith),
  (hex_digit-even (b % 16) (omega arith), hex-AllOff bs hs),
)

AllOff-append : (s t : Text) → AllOff is_odd s → AllOff is_odd t → AllOff is_odd (s ++ t)
AllOff-append [] t h k = k
AllOff-append (c ∷ s) t (h, hs) k = (h, AllOff-append s t hs k)

-- groups joined by '-'
dashed : (s t : Text) → AllOff is_odd s → AllOff is_odd t → AllOff is_odd (s ++ 45 ∷ t)
unfolding is_space
dashed s t h k = AllOff-append s (45 ∷ t) h (refl, k)

uuid_text-AllOff : (bytes : List ℕ) → AllBytes bytes → AllOff is_odd (uuid_text bytes)
unfolding uuid_text
uuid_text-AllOff (b0 ∷ b1 ∷ b2 ∷ b3 ∷ b4 ∷ b5 ∷ b6 ∷ b7 ∷ b8 ∷ b9 ∷ rest)
      (h0, (h1, (h2, (h3, (h4, (h5, (h6, (h7, (h8, (h9, hs)))))))))) =
    dashed (hex (b0 ∷ b1 ∷ b2 ∷ b3 ∷ [])) _ (hex-AllOff _ (h0, (h1, (h2, (h3, tt))))) (
      dashed (hex (b4 ∷ b5 ∷ [])) _ (hex-AllOff _ (h4, (h5, tt))) (
        dashed (hex (versioned b6 ∷ b7 ∷ [])) _ (hex-AllOff _ (omega arith, (h7, tt))) (
          dashed (hex (variant b8 ∷ b9 ∷ [])) _ (hex-AllOff _ (omega arith, (h9, tt)))
            (hex-AllOff rest hs))))
uuid_text-AllOff _ h = tt

AllOff-space : (s : Text) → AllOff is_odd s → AllOff is_space s
AllOff-space [] h = tt
AllOff-space (c ∷ s) (h, hs) = (ground arith, AllOff-space s hs)

AllOff-StartsOff : (s : Text) → AllOff is_odd s → StartsOff is_space s
AllOff-StartsOff [] h = tt
AllOff-StartsOff (c ∷ s) (h, hs) = ground arith

no_colon : (s : Text) → AllOff is_odd s → split_2 58 s ≡ none
unfolding split_2
no_colon [] h = refl
no_colon (c ∷ s) (h, hs) =
    let other : nat_eq c 58 ≡ false = ground arith in rw (other, no_colon s hs)

even_trimmed : (s : Text) → AllOff is_odd s → trim_space s ≡ s
unfolding trim_space
even_trimmed s h =
    trim_by_of_StartsOff is_space s (AllOff-StartsOff s h)
      (AllOff-reverse is_space s (AllOff-space s h))

-- hexadecimal text has no spaces around it
pub hex-trimmed : (bs : List ℕ) → AllBytes bs → trim_space (hex bs) ≡ hex bs
hex-trimmed bs h = even_trimmed (hex bs) (hex-AllOff bs h)

uuid_text-non_empty : (bytes : List ℕ) → 10 ≤ length bytes → (uuid_text bytes == []) ≡ false
unfolding uuid_text hex ◌==◌
uuid_text-non_empty (b0 ∷ b1 ∷ b2 ∷ b3 ∷ b4 ∷ b5 ∷ b6 ∷ b7 ∷ b8 ∷ b9 ∷ rest) h = refl
uuid_text-non_empty _ h = ground arith

-- The text that newUUID makes of 16 bytes is not empty, has no spaces around it, and is not read
-- as a qualified identifier.
pub uuid_text-IsPublicId :
    (bytes : List ℕ) → AllBytes bytes → length bytes ≡ 16 → IsPublicId (uuid_text bytes)
unfolding parse_qualified_id
uuid_text-IsPublicId bytes h k =
    let even = uuid_text-AllOff bytes h in
    let same = even_trimmed (uuid_text bytes) even in
    record {
      trimmed = same;
      non_empty = uuid_text-non_empty bytes (omega arith);
      unqualified = (
        err_invalid_identifier,
        ap qualified_parts (ap (split_2 58) same ∙ no_colon (uuid_text bytes) even),
      );
    }
