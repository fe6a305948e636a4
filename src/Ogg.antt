-- ===== src/Ogg.antt =====
-- source/DecoderOggImplementation.cpp: an Ogg file by the codec that takes it, Vorbis before Opus.
mod Ends
pub mod Vorbis
pub mod Opus
pub mod Callbacks
mod Load
mod Tests
use nfdecoder.Base.{ℕ, if◌then◌else◌, Bool, false, Option, none, some, List, [], ◌∷◌}
use nfdecoder.Base.Event.{Event, error, done}
use nfdecoder.Base.Frames.{Decoded}
use nfdecoder.Base.Int.{ℤ, pos}
use nfdecoder.Base.Run.{Run, ret, fault, ◌>>=◌}
use nfdecoder.Base.Text.{Text, codes}
use nfdecoder.Provider.{DataProvider, seek_set}
use nfdecoder.Ogg.Vorbis
use nfdecoder.Ogg.Opus

abbrev pub domain : Text
domain = codes "com.nativeformat.decoder.ogg"

-- `ErrorCodeCouldNotDecode`
abbrev pub could_not_decode : ℕ
could_not_decode = 1

-- The two libraries over one data provider: a fresh `OggVorbis_File` reads from the provider, and
-- the provider is what a file that was tried leaves of it.
pub record Codecs (Float : Type 0) : Type 1 where
  pub Provider : DataProvider
  pub libvorbis : Vorbis.Libvorbis Float
  pub libopusfile : Opus.Libopusfile Float
  pub vorbis_file : DataProvider.State Provider → libvorbis.File
  pub vorbis_provider : libvorbis.File → DataProvider.State Provider
  pub opus_source : DataProvider.State Provider → libopusfile.Source

module _ {Float : Type 0} (codecs : Codecs Float) where
  open codecs use {Provider, libvorbis, libopusfile, vorbis_file, vorbis_provider, opus_source}

  -- `_decoder`, which `load` sets.
  pub data Inner : Type 0 where
    vorbis : Vorbis.Vorbis libvorbis → Inner
    opus : Opus.Opus libopusfile → Inner

  -- `load` once Vorbis has declined.
  unfoldable pub load_opus : Opus.Opus libopusfile → Run (List (Event Bool) × Option Inner)
  load_opus d = Opus.check_codec libopusfile d >>= λ r.
      let (takes, o) = r in
      if takes
      then (Opus.load libopusfile o >>= λ l. ret (l.0, some (opus l.1)))
      else ret (error domain could_not_decode ∷ done false ∷ [], none)

  -- The calls of the callbacks, in order, and the decoder that the file is left to.
  unfoldable pub load : DataProvider.State Provider → Run (List (Event Bool) × Option Inner)
  unfolding load_opus
  load provider =
      let (takes, v) =
        Vorbis.check_codec libvorbis (Vorbis.create libvorbis (vorbis_file provider)) in
      let (events, v') = Vorbis.load libvorbis v in
      let back = (DataProvider.seek Provider (vorbis_provider v.file) (pos 0) seek_set).1 in
      if takes
      then ret (events, some (vorbis v'))
      else load_opus (Opus.create libopusfile (opus_source back))

  unfoldable pub channels : Inner → ℤ
  channels (vorbis d) = pos d.channels
  channels (opus d) = d.channels

  unfoldable pub frames : Inner → ℤ
  frames (vorbis d) = d.total_frames
  frames (opus d) = d.total_frames

  -- Either decoder's `flush` does nothing.
  unfoldable pub flush : Inner → Inner
  flush inner = inner

  unfoldable pub current_frame_index : Inner → ℕ
  current_frame_index (vorbis d) = d.frame_index
  current_frame_index (opus d) = d.frame_index

  unfoldable pub seek : Inner → ℕ → Run Inner
  seek (vorbis d) index = ret (vorbis (Vorbis.seek libvorbis d index))
  seek (opus d) index = Opus.seek libopusfile d index >>= λ r. ret (opus r.1)

  unfoldable pub decode : ℕ → ℕ → Inner → Run (Decoded Float × Inner)
  decode fuel wanted (vorbis d) =
      Vorbis.decode libvorbis fuel wanted d >>= λ r. ret (r.0, vorbis r.1)
  decode fuel wanted (opus d) = Opus.decode libopusfile fuel wanted d >>= λ r. ret (r.0, opus r.1)
