-- ===== src/Stream/Select/Preferred.antt =====
-- What the preferred stream is.
use zero_nime.Base.{
  ◌≡◌, refl, inl, Bool, true, Option, none, some, List, [], ◌∷◌, arith, In, find_first,
  find_first-In, find_first-none,
}
use zero_nime.Domain.{StreamCandidate}
use zero_nime.Stream.Select.{
  is_playable_mp4, is_playable_720p, pick_preferred_stream, pick_fallback, pick_first, pick_mp4,
  pick_direct, pick_any, choose, select_stream,
}
use zero_nime.Text.{Text}

-- There is a candidate that passes a test.
abbrev pub Some : (StreamCandidate → Bool) → List StreamCandidate → Type 0
Some p cs = (c : StreamCandidate) × In c cs × (p c ≡ true)

-- The choice comes from the list, and is as good as the list allows: a playable direct mp4 in
-- 720p, else a playable direct mp4, else a direct one.
pub record IsBest (cs : List StreamCandidate) (c : StreamCandidate) : Type 0 where
  pub place : In c cs
  pub best_720p : Some is_playable_720p cs → is_playable_720p c ≡ true
  pub best_mp4 : Some is_playable_mp4 cs → is_playable_mp4 c ≡ true
  pub best_direct : Some (λ d. d.is_direct) cs → c.is_direct ≡ true

-- nothing passes a test that no candidate passes
none-Some :
    {A : Type 0} (p : StreamCandidate → Bool) (cs : List StreamCandidate)
    → find_first p cs ≡ none
    → Some p cs
    → A
none-Some p cs e (c, m, h) = cc (find_first-none p cs c e m, h)

mp4_of_720p : (c : StreamCandidate) → is_playable_720p c ≡ true → is_playable_mp4 c ≡ true
mp4_of_720p c h = ground arith

direct_of_mp4 : (c : StreamCandidate) → is_playable_mp4 c ≡ true → c.is_direct ≡ true
direct_of_mp4 c h = ground arith

IsBest-720p :
    (cs : List StreamCandidate) (c : StreamCandidate)
    → find_first is_playable_720p cs ≡ some c
    → IsBest cs c
IsBest-720p cs c e =
    let (m, h) = find_first-In is_playable_720p cs c e in
    record {
      place = m;
      best_720p = λ _. h;
      best_mp4 = λ _. mp4_of_720p c h;
      best_direct = λ _. direct_of_mp4 c (mp4_of_720p c h);
    }

IsBest-mp4 :
    (cs : List StreamCandidate) (c : StreamCandidate)
    → find_first is_playable_720p cs ≡ none
    → find_first is_playable_mp4 cs ≡ some c
    → IsBest cs c
IsBest-mp4 cs c miss e =
    let (m, h) = find_first-In is_playable_mp4 cs c e in
    record {
      place = m;
      best_720p = none-Some is_playable_720p cs miss;
      best_mp4 = λ _. h;
      best_direct = λ _. direct_of_mp4 c h;
    }

IsBest-direct :
    (cs : List StreamCandidate) (c : StreamCandidate)
    → find_first is_playable_720p cs ≡ none
    → find_first is_playable_mp4 cs ≡ none
    → find_first (λ d. d.is_direct) cs ≡ some c
    → IsBest cs c
IsBest-direct cs c miss miss' e =
    let (m, h) = find_first-In (λ d. d.is_direct) cs c e in
    record {
      place = m;
      best_720p = none-Some is_playable_720p cs miss;
      best_mp4 = none-Some is_playable_mp4 cs miss';
      best_direct = λ _. h;
    }

IsBest-any :
    (cs : List StreamCandidate) (c : StreamCandidate)
    → find_first is_playable_720p cs ≡ none
    → find_first is_playable_mp4 cs ≡ none
    → find_first (λ d. d.is_direct) cs ≡ none
    → In c cs
    → IsBest cs c
IsBest-any cs c miss miss' miss'' m = record {
  place = m;
  best_720p = none-Some is_playable_720p cs miss;
  best_mp4 = none-Some is_playable_mp4 cs miss';
  best_direct = none-Some (λ d. d.is_direct) cs miss'';
}

-- the choice is the best, or there is nothing to choose from
abbrev pub Chosen : List StreamCandidate → Option StreamCandidate → Type 0
Chosen cs none = cs ≡ []
Chosen cs (some c) = IsBest cs c

choose_any :
    (cs : List StreamCandidate)
    → find_first is_playable_720p cs ≡ none
    → find_first is_playable_mp4 cs ≡ none
    → find_first (λ d. d.is_direct) cs ≡ none
    → Chosen cs (pick_any cs).0
choose_any [] miss miss' miss'' = refl
choose_any (c ∷ cs) miss miss' miss'' = IsBest-any (c ∷ cs) c miss miss' miss'' (inl refl)

choose_direct :
    (cs : List StreamCandidate) (o : Option StreamCandidate)
    → find_first is_playable_720p cs ≡ none
    → find_first is_playable_mp4 cs ≡ none
    → find_first (λ d. d.is_direct) cs ≡ o
    → Chosen cs (pick_direct o cs).0
choose_direct cs none miss miss' e = choose_any cs miss miss' e
choose_direct cs (some c) miss miss' e = IsBest-direct cs c miss miss' e

choose_mp4 :
    (cs : List StreamCandidate) (o : Option StreamCandidate)
    → find_first is_playable_720p cs ≡ none
    → find_first is_playable_mp4 cs ≡ o
    → Chosen cs (pick_fallback (pick_mp4 o) cs).0
choose_mp4 cs none miss e = choose_direct cs _ miss e refl
choose_mp4 cs (some c) miss e = IsBest-mp4 cs c miss e

choose_720p :
    (cs : List StreamCandidate) (o : Option StreamCandidate)
    → find_first is_playable_720p cs ≡ o
    → Chosen cs (pick_fallback (pick_first o (pick_mp4 (find_first is_playable_mp4 cs))) cs).0
choose_720p cs none e = choose_mp4 cs _ e refl
choose_720p cs (some c) e = IsBest-720p cs c e

-- The preferred stream is missing only if there are no candidates. It is one of the candidates:
-- a playable direct mp4 in 720p if there is one, else a playable direct mp4 if there is one, else
-- a direct one if there is one.
pub select_stream-Chosen :
    (id provider : Text) (cs : List StreamCandidate)
    → Chosen cs (select_stream id provider cs).preferred_stream
unfolding select_stream choose pick_preferred_stream
select_stream-Chosen id provider cs = choose_720p cs _ refl
