-- ===== src/Stream/Expiry/Earliest.antt =====
-- The expiry of a stream result is that of the signed URL that expires first, less five minutes.
use zero_nime.Base.{
  ◌≡◌, refl, ap, sym, subst, ◌∙◌, ◌⊎◌, inl, inr, Bool, true, false, not, ◌||◌, Option, none, some,
  List, [], ◌∷◌, ℤ, pos, ◌-ℤ◌, ◌≤ℤ◌, ◌<ℤ◌, ltb_ℤ, arith, In, if_cases, if_true,
}
use zero_nime.Domain.{StreamCandidate, StreamResult}
use zero_nime.Stream.Expiry.{
  Calendar, five_minutes, expiry_of, earlier, consider_all, considered, result_expires_at,
  result_is_expired, stream_memory_ttl, time_sub, shorter,
}

time_sub_bounds :
    (at now : ℤ) → now <ℤ at → (pos 0 <ℤ time_sub at now) × (time_sub at now ≤ℤ at -ℤ now)
unfolding time_sub
time_sub_bounds at now h = (ground arith, ground arith)

shorter_bounds :
    (left fallback : ℤ)
    → pos 0 <ℤ left
    → (pos 0 <ℤ shorter left fallback) × (shorter left fallback ≤ℤ left)
unfolding shorter
shorter_bounds left fallback h = (ground arith, ground arith)

module _ (calendar : Calendar) where
  earlier-le_found :
      (s : ℤ × Bool) (o : Option ℤ)
      → s.1 ≡ true
      → ((earlier s o).0 ≤ℤ s.0) × ((earlier s o).1 ≡ true)
  earlier-le_found (at, found) none h = (omega arith, h)
  earlier-le_found (at, found) (some e) h = ground arith

  earlier-le :
      (s : ℤ × Bool) (e : ℤ)
      → ((earlier s (some e)).0 ≤ℤ e -ℤ five_minutes) × ((earlier s (some e)).1 ≡ true)
  earlier-le (at, found) e = ground arith

  ≤ℤ_trans : (a b c : ℤ) → a ≤ℤ b → b ≤ℤ c → a ≤ℤ c
  ≤ℤ_trans a b c h k = omega arith

  -- the state after one more candidate
  abbrev after : ℤ × Bool → StreamCandidate → ℤ × Bool
  after s c = earlier s (expiry_of calendar c.url)

  consider_all-le_found :
      (s : ℤ × Bool) (cs : List StreamCandidate)
      → s.1 ≡ true
      → (consider_all calendar s cs).0 ≤ℤ s.0
  unfolding consider_all
  consider_all-le_found s [] h = omega arith
  consider_all-le_found s (c ∷ cs) h =
      let (le, found) = earlier-le_found s (expiry_of calendar c.url) h in
      ≤ℤ_trans (consider_all calendar (after s c) cs).0 (after s c).0 s.0
        (consider_all-le_found (after s c) cs found) le

  consider_all-le :
      (s : ℤ × Bool) (cs : List StreamCandidate) (c : StreamCandidate) (e : ℤ)
      → In c cs
      → expiry_of calendar c.url ≡ some e
      → (consider_all calendar s cs).0 ≤ℤ e -ℤ five_minutes
  unfolding consider_all
  consider_all-le s [] c e m h = elim m [ ]
  consider_all-le s (d ∷ cs) c e (inr m) h = consider_all-le (after s d) cs c e m h
  consider_all-le s (d ∷ cs) c e (inl same) h =
      let (le, found) = earlier-le s e in
      let now : expiry_of calendar d.url ≡ some e =
        ap (λ (x : StreamCandidate). expiry_of calendar x.url) (sym same) ∙ h in
      subst (λ o. (consider_all calendar (earlier s o) cs).0 ≤ℤ e -ℤ five_minutes) (sym now)
        (≤ℤ_trans (consider_all calendar (earlier s (some e)) cs).0 (earlier s (some e)).0
          (e -ℤ five_minutes) (consider_all-le_found (earlier s (some e)) cs found) le)

  -- a result expires at some signed URL's time, less five minutes
  abbrev pub Attained : ℤ → List StreamCandidate → Type 0
  Attained at cs =
      (c : StreamCandidate) × (e : ℤ) × In c cs
      × (expiry_of calendar c.url ≡ some e)
      × (at ≡ e -ℤ five_minutes)

  earlier-cases :
      (s : ℤ × Bool) (o : Option ℤ)
      → (earlier s o ≡ s) ⊎ ((e : ℤ) × (o ≡ some e) × ((earlier s o).0 ≡ e -ℤ five_minutes))
  earlier-cases s none = inl refl
  earlier-cases s (some e) =
      if_cases (λ r. (r ≡ s) ⊎ ((e' : ℤ) × (some e ≡ some e') × (r.0 ≡ e' -ℤ five_minutes)))
        (not s.1 || ltb_ℤ (e -ℤ five_minutes) s.0) _ _ (λ _. inr (e, refl, refl)) (λ _. inl refl)

  later_place :
      (at : ℤ) (d : StreamCandidate) (cs : List StreamCandidate)
      → Attained at cs
      → Attained at (d ∷ cs)
  later_place at d cs (c, e, m, h, k) = (c, e, inr m, h, k)

  consider_all-cases :
      (s : ℤ × Bool) (cs : List StreamCandidate)
      → ((consider_all calendar s cs).0 ≡ s.0) ⊎ Attained (consider_all calendar s cs).0 cs
  unfolding consider_all
  consider_all-cases s [] = inl refl
  consider_all-cases s (c ∷ cs) = elim (consider_all-cases (after s c) cs) [
    | inr there ↦ inr (later_place _ c cs there)
    | inl same ↦ elim (earlier-cases s (expiry_of calendar c.url)) [
      | inl kept ↦ inl (same ∙ ap (λ x. x.0) kept)
      | inr (e, h, k) ↦ inr (c, e, inl refl, h, same ∙ k)
    ]
  ]

  -- A result expires at least five minutes before each signed URL in it does, and it expires at
  -- the default time or exactly five minutes before one of them.
  pub result_expires_at_earliest :
      (now : ℤ) (r : StreamResult)
      → ((c : StreamCandidate) (e : ℤ)
          → In c (considered r)
          → expiry_of calendar c.url ≡ some e
          → result_expires_at calendar now r ≤ℤ e -ℤ five_minutes)
        × ((result_expires_at calendar now r ≡ calendar.in_ten_years now)
            ⊎ Attained (result_expires_at calendar now r) (considered r))
  unfolding result_expires_at
  result_expires_at_earliest now r = (
    consider_all-le (calendar.in_ten_years now, false) (considered r),
    consider_all-cases (calendar.in_ten_years now, false) (considered r),
  )

  -- every signed URL in the result is good for more than five minutes
  abbrev pub IsFresh : ℤ → StreamResult → Type 0
  IsFresh now r =
      (c : StreamCandidate) (e : ℤ)
      → In c (considered r)
      → expiry_of calendar c.url ≡ some e
      → now <ℤ e -ℤ five_minutes

  pub IsFresh-of_not_expired :
      (now : ℤ) (r : StreamResult) → result_is_expired calendar now r ≡ false → IsFresh now r
  unfolding result_is_expired
  IsFresh-of_not_expired now r h c e m k =
      ground (arith, (result_expires_at_earliest now r).0 c e m k)

  -- streamMemoryTTL gives a positive time for a result that has not expired. From the time of the
  -- check on, it ends no later than the result expires.
  pub stream_memory_ttl_bounds :
      (later now fallback : ℤ) (r : StreamResult)
      → result_is_expired calendar now r ≡ false
      → (pos 0 <ℤ stream_memory_ttl calendar later now r fallback)
        × (stream_memory_ttl calendar later now r fallback
            ≤ℤ result_expires_at calendar now r -ℤ now)
  unfolding stream_memory_ttl result_is_expired
  stream_memory_ttl_bounds later now fallback r h =
      let left = result_expires_at calendar now r in
      let open_yet : ltb_ℤ now (result_expires_at calendar now r) ≡ true = ground arith in
      let (some_left, fits) =
        time_sub_bounds (result_expires_at calendar now r) now (ground arith) in
      let (positive, le) =
        shorter_bounds (time_sub (result_expires_at calendar now r) now) fallback some_left in
      if_true
        (λ t.
          (pos 0 <ℤ shorter t fallback)
          × (shorter t fallback ≤ℤ result_expires_at calendar now r -ℤ now))
        (ltb_ℤ now (result_expires_at calendar now r)) _ _ open_yet
        (positive, ≤ℤ_trans _ (time_sub (result_expires_at calendar now r) now) _ le fits)
