-- ===== src/Speex.antt =====
-- source/DecoderSpeexImplementation.cpp: libspeex, which is a parameter, over any data provider.
-- The mutex makes each operation one step. Frame indexes and numbers of frames are not negative.
mod Silent
mod Tests
use nfdecoder.Base.{
  ℕ, zero, suc, ◌+◌, ◌-◌, ◌*◌, ◌==◌, ltb, leb, min, if◌then◌else◌, Bool, true, false, ◌||◌, ◌&&◌,
  not, Option, none, some, List, [], ◌∷◌, ◌++◌, take, drop, length, replicate,
}
use nfdecoder.Base.Bytes.{fill}
use nfdecoder.Base.Event.{Event, error, done}
use nfdecoder.Base.Frames.{Decoded}
use nfdecoder.Base.Int.{ℤ, pos, negsuc}
use nfdecoder.Base.Run.{Run, ret, fault, unfinished, or_fault, ◌>>=◌}
use nfdecoder.Base.Text.{Text, codes}
use nfdecoder.Provider.{DataProvider, Reading, seek_set}

abbrev pub domain : Text
domain = codes "com.nativeformat.decoder.speex"

-- libspeex. A state is that of the decoder together with its bits; the header's size and fields are
-- the library's too. `decode` gives its status, the floats that it wrote into the buffer, and the
-- state.
pub record Libspeex (Float : Type 0) : Type 1 where
  pub State : Type 0
  pub init : State
  pub header_size : ℕ
  pub rate : List ℕ → ℕ
  pub nb_channels : List ℕ → ℕ
  pub frame_size : State → ℕ
  pub read_from : State → List ℕ → State
  pub decode : State → ℤ × List Float × State
  pub reset : State → State

-- `UNKNOWN_FRAMES`
abbrev pub unknown_frames : ℤ
unknown_frames = negsuc 0

module _ {Float : Type 0} (lib : Libspeex Float) (P : DataProvider) where
  -- `state` is none until `load` has made one.
  pub record Speex : Type 0 where
    pub provider : P.State
    pub state : Option lib.State
    pub channels : ℕ
    pub samplerate : ℕ
    pub frame_index : ℕ
    pub cached_samples : List Float

  pub create : P.State → Speex
  create provider = record {
    provider = provider;
    state = none;
    channels = 1;
    samplerate = 0;
    frame_index = 0;
    cached_samples = [];
  }

  -- The calls of the callbacks, and the decoder after them. `uninitialised` is what stands in the
  -- local header at first.
  unfoldable pub load : Speex → List ℕ → Run (List (Event Bool) × Speex)
  load d uninitialised = or_fault (P.read d.provider lib.header_size 1) >>= λ r.
      let header = fill uninitialised r.bytes in
      ret (
        done true ∷ [],
        record d {
          provider = r.next;
          state = some lib.init;
          samplerate = lib.rate header;
          channels = lib.nb_channels header;
        },
      )

  unfoldable pub flush : Speex → Run Speex
  flush d = elim d.state [
    | none ↦ fault
    | some s ↦ ret (record d { state = some (lib.reset s); cached_samples = [] })
  ]

  pub frames : Speex → ℤ
  frames d = unknown_frames

  -- The samples that `samples, samples + samples_read` name: the status of `speex_decode` is taken
  -- for their number. A range that ends before it begins, or outside of the buffer, is undefined.
  unfoldable pub named : ℤ → ℕ → List Float → Run (List Float)
  named (negsuc n) size samples = fault
  named (pos n) size samples = if ltb size n then fault else ret (take n samples)

  -- What one round of either loop reads: the status as a number, the samples, and the state and the
  -- provider after it.
  pub record Round : Type 0 where
    pub samples : List Float
    pub state : lib.State
    pub provider : P.State

  unfoldable pub read_round : lib.State → P.State → Run Round
  unfolding named
  read_round s provider = or_fault (P.read provider 1 256) >>= λ r.
      let (status, samples, s') = lib.decode (lib.read_from s r.bytes) in
      named status (lib.frame_size s) samples >>= λ read.
      ret (record { samples = read; state = s'; provider = r.next })

  -- The loop of `decode`, one round for each unit of fuel.
  unfoldable pub fill_cache :
      ℕ → ℕ → lib.State → P.State → List Float → Run (lib.State × P.State × List Float)
  unfolding read_round
  fill_cache zero wanted s provider cached =
      if not (P.eof provider) && ltb (length cached) wanted
      then unfinished
      else ret (s, provider, cached)
  fill_cache (suc fuel) wanted s provider cached =
      let rest = read_round s provider >>= λ r.
      fill_cache fuel wanted r.state r.provider (cached ++ r.samples) in
      if not (P.eof provider) && ltb (length cached) wanted then rest else ret (s, provider, cached)

  -- The rest of `decode`; the buffer has room for the samples of `wanted` frames.
  unfoldable pub deliver : ℕ → Speex → List Float → Run (Decoded Float × Speex)
  deliver wanted d cached =
      let n = min (length cached) wanted in
      if ltb (wanted * d.channels) n
      then fault
      else ret (
        record { frame_index = d.frame_index; frame_count = n; samples = take n cached },
        record d { cached_samples = drop n cached },
      )

  unfoldable pub decode : ℕ → ℕ → Speex → Run (Decoded Float × Speex)
  unfolding fill_cache deliver
  decode fuel wanted d = elim d.state [
    | none ↦ fault
    | some s ↦ fill_cache fuel wanted s d.provider d.cached_samples >>= λ r.
        let (s', provider', cached) = r in
        deliver wanted (record d { state = some s'; provider = provider' }) cached
  ]

  -- The loop of `seek`, after `current` samples: only the samples of its last round stay cached.
  unfoldable pub skip :
      ℕ → ℕ → lib.State → P.State → ℕ → List Float → Run (lib.State × P.State × List Float)
  unfolding read_round
  skip zero index s provider current cached =
      if not (P.eof provider) && ltb current index then unfinished else ret (s, provider, cached)
  skip (suc fuel) index s provider current cached =
      let rest = read_round s provider >>= λ r.
      skip fuel index r.state r.provider (current + length r.samples) r.samples in
      if not (P.eof provider) && ltb current index then rest else ret (s, provider, cached)

  unfoldable pub seek : ℕ → Speex → ℕ → Run Speex
  unfolding skip
  seek fuel d index = elim d.state [
    | none ↦ fault
    | some s ↦
        let provider' = (P.seek d.provider (pos lib.header_size) seek_set).1 in
        skip fuel index (lib.reset s) provider' 0 [] >>= λ r.
        let (s', provider'', cached) = r in
        ret (record d {
          state = some s';
          provider = provider'';
          cached_samples = cached;
          frame_index = index;
        })
  ]
