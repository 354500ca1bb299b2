-- ===== src/Kuramanime.antt =====
-- internal/provider/kuramanime: the lists of episodes, which are put together from many pages, and
-- the candidates for a stream.
pub mod Episodes
pub mod Stream
