-- ===== src/Ogg/Vorbis.antt =====
-- source/DecoderVorbisImplementation.cpp: libvorbisfile, which is a parameter together with the
-- data provider that it reads. A mutex makes each operation one step. Frame indexes and numbers of
-- frames are not negative; the section that libvorbisfile reports is not read by the code.
pub mod Whole
use nfdecoder.Base.{
  ℕ, zero, suc, ◌+◌, ◌-◌, ◌*◌, ◌==◌, ltb, leb, if◌then◌else◌, Bool, true, false, ◌||◌, Option, none,
  some, List, [], ◌∷◌, ◌++◌,
}
use nfdecoder.Base.Frames.{Decoded, interleave}
use nfdecoder.Base.Int.{ℤ, pos, failed}
use nfdecoder.Base.Text.{Text, codes}
use nfdecoder.Base.Event.{Event, error, done}
use nfdecoder.Base.Run.{Run, ret, fault, unfinished, ◌>>=◌}
use nfdecoder.Provider.{DataProvider, Reading, Whence}

abbrev pub domain : Text
domain = codes "com.nativeformat.decoder.vorbis"

-- `ErrorCodeCouldNotDecode`
abbrev pub could_not_decode : ℕ
could_not_decode = 1

-- What `ov_read_float` reports: `samples[channel][i]` of some frames and channels, `OV_HOLE`, or 0
-- and the other negative codes.
pub data Packet (F : Type 0) : Type 0 where
  frames : ℕ → ℕ → (ℕ → ℕ → F) → Packet F
  hole : Packet F
  stop : Packet F

-- What the header of the first section says.
pub record Info : Type 0 where
  pub channels : ℕ
  pub rate : ℕ

-- libvorbisfile; a code of `pos 0` is success. `frames_of` is `ov_time_total` times the rate, as a
-- `long`.
pub record Libvorbis (Float : Type 0) : Type 1 where
  pub File : Type 0
  pub test_callbacks : File → ℤ × File
  pub test_open : File → ℤ × File
  pub open_callbacks : File → ℤ × File
  pub set_read_size : File → ℕ → File
  pub info : File → Option Info
  pub frames_of : File → ℕ → ℤ
  pub pcm_seek : File → ℕ → ℤ × File
  -- The number of frames is an `int`, to which the code narrows a `long`: it is one that fits.
  pub read_float : File → ℕ → Packet Float × File

-- `VORBIS_READ_SIZE`
abbrev pub vorbis_read_size : ℕ
vorbis_read_size = 32768

module _ {Float : Type 0} (lib : Libvorbis Float) where
  open lib use {
    File, test_callbacks, test_open, open_callbacks, set_read_size, info, frames_of, pcm_seek,
    read_float,
  }

  pub record Vorbis : Type 0 where
    pub file : File
    pub is_open : Bool
    pub channels : ℕ
    pub samplerate : ℕ
    pub total_frames : ℤ
    pub frame_index : ℕ

  pub create : File → Vorbis
  create file = record {
    file = file;
    is_open = false;
    channels = 0;
    samplerate = 0;
    total_frames = pos 0;
    frame_index = 0;
  }

  unfoldable pub check_codec : Vorbis → Bool × Vorbis
  check_codec d =
      let (tested, f) = test_callbacks d.file in
      let (opened, g) = test_open f in
      if failed tested
      then (false, record d { file = f })
      else if failed opened
      then (false, record d { file = g })
      else (true, record d { file = set_read_size g vorbis_read_size; is_open = true })

  abbrev pub could_not : List (Event Bool)
  could_not = error domain could_not_decode ∷ done false ∷ []

  -- `load` of an open file.
  unfoldable pub read_info : Vorbis → Option Info → List (Event Bool) × Vorbis
  read_info d none = (could_not, d)
  read_info d (some i) = (
    done true ∷ [],
    record d { channels = i.channels; samplerate = i.rate; total_frames = frames_of d.file i.rate },
  )

  -- The calls of the callbacks, in order, and the decoder after them.
  unfoldable pub load : Vorbis → List (Event Bool) × Vorbis
  unfolding read_info
  load d =
      let (code, f) = open_callbacks d.file in
      if d.is_open
      then read_info d (info d.file)
      else if failed code
      then (could_not, record d { file = f })
      else let d' = record d { file = set_read_size f vorbis_read_size; is_open = true } in
        read_info d' (info d'.file)

  unfoldable pub seek : Vorbis → ℕ → Vorbis
  seek d index =
      let (code, f) = pcm_seek d.file index in
      if failed code then record d { file = f } else record d { file = f; frame_index = index }

  abbrev pub Result : Type 0
  Result = Run (ℕ × List Float × Vorbis)

  -- One round of the loop in `decode`, before the next one. Samples of more frames than were asked
  -- for would be written past the buffer, those of missing channels read past the library's.
  unfoldable pub on_packet :
      ℕ → Vorbis → ℕ → List Float → Packet Float → (ℕ → List Float → Result) → Result
  on_packet wanted d n out stop next = ret (n, out, d)
  on_packet wanted d n out hole next = next n out
  on_packet wanted d n out (frames k c samples) next =
      if k == 0
      then ret (n, out, d)
      else if ltb c d.channels || ltb wanted (n + k)
      then fault
      else next (n + k) (out ++ interleave samples d.channels 0 k)

  -- The loop, one call of the library for each unit of fuel, after `n` frames.
  unfoldable pub read_frames : ℕ → ℕ → Vorbis → ℕ → List Float → Result
  unfolding on_packet
  read_frames zero wanted d n out = if ltb n wanted then unfinished else ret (n, out, d)
  read_frames (suc fuel) wanted d n out =
      let (packet, f) = read_float d.file (wanted - n) in
      let d' = record d { file = f } in
      let rest = on_packet wanted d' n out packet (read_frames fuel wanted d') in
      if ltb n wanted then rest else ret (n, out, d)

  unfoldable pub decode : ℕ → ℕ → Vorbis → Run (Decoded Float × Vorbis)
  unfolding read_frames seek
  decode fuel wanted d = read_frames fuel wanted (seek d d.frame_index) 0 [] >>= λ r.
      let (n, out, d') = r in
      ret (
        record { frame_index = d.frame_index; frame_count = n; samples = out },
        record d' { frame_index = d.frame_index + n },
      )
