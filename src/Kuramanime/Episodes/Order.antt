-- ===== src/Kuramanime/Episodes/Order.antt =====
-- The order of the references in internal/provider/kuramanime/episodes.go.
use zero_nime.Base.{◌≡◌, refl, true, false, ◌||◌, [], ◌∷◌, arith, StrictOrder, Apart}
use zero_nime.Kuramanime.Episodes.{EpisodeRef, text_less, ref_less}
use zero_nime.Text.{Text, ◌==◌}

text_less_asym : (s t : Text) → text_less s t ≡ true → text_less t s ≡ false
unfolding text_less
text_less_asym s [] h = cc
text_less_asym [] (b ∷ t) h = refl
text_less_asym (a ∷ s) (b ∷ t) h = ground (arith, text_less_asym s t)

text_less_trans_not :
    (s t u : Text) → text_less t s ≡ false → text_less u t ≡ false → text_less u s ≡ false
unfolding text_less
text_less_trans_not [] t u h k = refl
text_less_trans_not (a ∷ s) [] u h k = cc
text_less_trans_not (a ∷ s) (b ∷ t) [] h k = cc
text_less_trans_not (a ∷ s) (b ∷ t) (c ∷ u) h k = ground (arith, text_less_trans_not s t u)

text_less_apart : (s t : Text) → (s == t) ≡ false → (text_less s t || text_less t s) ≡ true
unfolding text_less ◌==◌
text_less_apart [] [] h = cc
text_less_apart [] (b ∷ t) h = refl
text_less_apart (a ∷ s) [] h = refl
text_less_apart (a ∷ s) (b ∷ t) h = ground (arith, text_less_apart s t)

pub ref_less-StrictOrder : StrictOrder ref_less
unfolding ref_less
ref_less-StrictOrder = record {
  asym = λ a b h. ground (arith, text_less_asym a.slug b.slug);
  trans_not = λ a b c h k. ground (arith, text_less_trans_not a.slug b.slug c.slug);
}

-- references with different slugs are told apart
pub ref_less-Apart : (a b : EpisodeRef) → (a.slug == b.slug) ≡ false → Apart ref_less a b
unfolding ref_less
ref_less-Apart a b h = ground (arith, text_less_apart a.slug b.slug)
