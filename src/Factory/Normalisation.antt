-- ===== src/Factory/Normalisation.antt =====
-- source/FactoryNormalisationImplementation.cpp, and `load` and the getters of
-- source/DecoderNormalisationImplementation.cpp: decoders of the rate and the channels that are
-- asked for. `==` on doubles is a parameter; the resamplers that `load` opens are in Normaliser.
pub mod Rates
use nfdecoder.Base.Run.{Run, ret, fault, ◌>>=◌}
use nfdecoder.Base.{ltb, ◌&&◌, ◌==◌, if◌then◌else◌, Bool, true, false, Option, none, some}
use nfdecoder.Base.Int.{ℤ, pos, negsuc}
use nfdecoder.Factory.{Objects, CreateDecoder, Calls, continue, call}

-- `==` on `int`
unfoldable pub same_int : ℤ → ℤ → Bool
same_int (pos a) (pos b) = a == b
same_int (pos a) (negsuc b) = false
same_int (negsuc a) (pos b) = false
same_int (negsuc a) (negsuc b) = a == b

module _ (O : Objects) where
  open O use {Rate, same_rate, Decoder}

  -- The decoders that the factory delivers: the wrapped one's, or a normaliser around one.
  pub data Output : Type 0 where
    plain : Decoder → Output
    normalised : Decoder → Rate → ℤ → Output

  -- The virtual getters.
  unfoldable pub sample_rate : Output → Rate
  sample_rate (plain decoder) = O.sample_rate decoder
  sample_rate (normalised decoder samplerate n) = samplerate

  unfoldable pub channels : Output → ℤ
  channels (plain decoder) = O.channels decoder
  channels (normalised decoder samplerate n) = n

  -- The constructor, which writes a null pointer for each channel into an array of two handlers.
  unfoldable pub make : Decoder → Rate → ℤ → Run Output
  make decoder samplerate (pos n) =
      if ltb 2 n then fault else ret (normalised decoder samplerate (pos n))
  make decoder samplerate (negsuc n) = ret (normalised decoder samplerate (negsuc n))

  -- `load` of a normaliser that was made: the handlers that it opens have their places in the
  -- array, and it calls the callback with true.
  unfoldable pub load : Output → Calls Bool
  load output = call true

  -- The callback of the wrapped factory.
  unfoldable pub normalise : Rate → ℤ → Option Decoder → Calls (Option Output)
  unfolding same_int continue load make
  normalise samplerate channels none = call none
  normalise samplerate channels (some decoder) =
      if same_rate (O.sample_rate decoder) samplerate && same_int (O.channels decoder) channels
      then call (some (plain decoder))
      else make decoder samplerate channels >>= λ output.
          continue (load output) (λ success. call (some output))

  -- `STANDARD_CHANNELS`
  abbrev pub standard_channels : ℤ
  standard_channels = pos 2

  -- The wrapped factory is called with the default rate and channels.
  unfoldable pub create_decoder : CreateDecoder O Decoder → CreateDecoder O Output
  unfolding normalise
  create_decoder wrapped path mime_type samplerate channels =
      continue (wrapped path mime_type O.standard_samplerate standard_channels)
        (normalise samplerate channels)
