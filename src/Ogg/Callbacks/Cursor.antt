-- ===== src/Ogg/Callbacks/Cursor.antt =====
-- A seek, a read and a question for the position, as the libraries see them.
use mathlib.Core.Path.{subst}
use nfdecoder.Base.{ℕ, ◌+◌, ◌*◌, ◌<◌, ◌≤◌, ◌≡◌, arith, Option, some, List, length, take, drop}
use nfdecoder.Base.Int.{ℤ, pos}
use nfdecoder.Provider.{DataProvider, IsStream, Reading, seek_set}
use nfdecoder.Ogg.Callbacks.{vorbis_read, vorbis_seek, vorbis_tell, opus_read, opus_seek, opus_tell}

module _ (P : DataProvider) (content : List ℕ) (stream : IsStream P content) where
  -- A read that gives `n` bytes from `q` on, and a position behind them.
  abbrev pub ReadsAt : Option (Reading P.State) → (P.State → ℤ) → ℕ → ℕ → Type 0
  ReadsAt answer tell q n =
      (t : P.State) × (answer
        ≡ some (record { value = n; bytes = take n (drop q content); next = t }))
      × (tell t ≡ pos (q + n))

  reads_at :
      (s : P.State) (q n : ℕ)
      → stream.At s q
      → 0 < n
      → q + n ≤ length content
      → ReadsAt (P.read s 1 n) P.tell q n
  reads_at s q n a more inside =
      let one : 1 * n ≡ n = omega arith in
      let (t, e, b) = stream.reads s q 1 n a (omega arith) more (omega (arith, inside)) in
      subst (λ m. ReadsAt (P.read s 1 n) P.tell q m) one (t, e, stream.tells t (q + 1 * n) b)

  -- On a provider that is a cursor in a content, after a seek from anywhere to a position of it, a
  -- read of some bytes that the content has from there on gives both libraries exactly those bytes
  -- and their number, and the position that they are told is the one behind them.
  pub seek-ReadsAt :
      (s : P.State) (p q n : ℕ)
      → stream.At s p
      → 0 < n
      → q + n ≤ length content
      → ReadsAt (vorbis_read P (vorbis_seek P s (pos q) seek_set).1 1 n) (vorbis_tell P) q n
        × ReadsAt (opus_read P (opus_seek P s (pos q) seek_set).1 n) (opus_tell P) q n
  unfolding vorbis_read vorbis_seek vorbis_tell opus_read opus_seek opus_tell
  seek-ReadsAt s p q n a more inside =
      let there = stream.seeks s p q a (omega (arith, inside)) in
      let h = reads_at (P.seek s (pos q) seek_set).1 q n there more inside in (h, h)
