-- ===== src/AudioConverter/Silent.antt =====
-- The junk frames of an AAC file, in a call for no more frames than there are junk frames.
use nfdecoder.Base.{ℕ, length, ◌<◌, ◌≤◌, ◌≡◌, true, false, []}
use nfdecoder.Base.Int.{ℤ, failed}
use nfdecoder.Base.Run.{Run, ret}
use nfdecoder.Provider.{DataProvider}
use nfdecoder.AudioConverter.{AudioToolbox, AudioConverter, fill_data}
use nfdecoder.AudioConverter.Decode.{Decoding, dump_data, read_samples}
use nfdecoder.AudioConverter.Start.{RunsOut, AtStart}
use nfdecoder.AudioConverter.Rounds.{IsFinite}

module _ {F Rate : Type 0} (lib : AudioToolbox F Rate) (P : DataProvider) (channels : ℕ)
    (out : RunsOut lib channels) (finite : IsFinite P) where
  abbrev D : Type 0
  D = AudioConverter lib P

  abbrev At : P.State → D → Type 0
  At = AtStart lib P channels out

  -- Nothing has been read in this call.
  abbrev fresh : D → Decoding lib P
  fresh d = record { decoder = d; read_frames = 0; samples = [] }

  module _ (some_channels : 0 < channels) (wanted : ℕ) (few : wanted ≤ 1024) where
    -- Chunks that are read where nothing is cached, and junk that is removed, in the order in which
    -- the loop comes to them.
    pub data Reads (inner : ℕ) : D → D → Type 0 where
      here : (d : D) → Reads inner d d
      chunk_read :
          (d d1 d2 : D) (z : ℤ)
          → length d.pcm_buffer ≡ 0
          → fill_data lib P inner d ≡ ret (z, d1)
          → failed z ≡ false
          → Reads inner d1 d2
          → Reads inner d d2
      junk_removed :
          (d d1 d2 : D)
          → dump_data lib P wanted 0 (fresh d) ≡ ret (fresh d1)
          → Reads inner d1 d2
          → Reads inner d d2

    -- After such reads a chunk was tried and failed.
    abbrev pub ReadsUntilFailure : ℕ → D → D → Type 0
    ReadsUntilFailure inner d d' =
        (d0 : D) × (z : ℤ) × Reads inner d d0
        × (fill_data lib P inner d0 ≡ ret (z, d'))
        × (failed z ≡ true)

    -- The loop comes to its end with nothing read.
    abbrev Drains : ℕ → D → Type 0
    Drains inner d =
        (fuel : ℕ) × (s' : P.State) × (d' : D) × (read_samples lib P inner fuel wanted 0 (fresh d)
          ≡ ret (fresh d'))
        × At s' d'
        × ReadsUntilFailure inner d d'
