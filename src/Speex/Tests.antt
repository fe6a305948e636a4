-- ===== src/Speex/Tests.antt =====
-- Examples for the Speex decoder: a provider of two packets.
use nfdecoder.Base.{ℕ, ◌-◌, ◌<◌, ◌≡◌, refl, arith, ◌==◌, true, false, some, [], ◌∷◌}
use nfdecoder.Base.Int.{pos}
use nfdecoder.Base.Run.{ret}
use nfdecoder.Provider.{DataProvider}
use nfdecoder.Speex.{Libspeex, Speex, decode}
use nfdecoder.Speex.Silent.{IsFinite, decode-drains}

-- A state is the number of packets that are left.
abbrev packets : DataProvider
packets = record {
  State = ℕ;
  read = λ s n k. some (record { value = 1; bytes = 7 ∷ []; next = s - 1 });
  seek = λ s o w. (pos 0, s);
  tell = λ s. pos 0;
  eof = λ s. s == 0;
  size = λ s. pos s;
}

-- Every packet is decoded into two samples, without an error.
abbrev libspeex : Libspeex ℕ
libspeex = record {
  State = Unit;
  init = tt;
  header_size = 80;
  rate = λ h. 8000;
  nb_channels = λ h. 1;
  frame_size = λ s. 160;
  read_from = λ s b. s;
  decode = λ s. (pos 0, 5 ∷ 6 ∷ [], s);
  reset = λ s. s;
}

one_less : (s : ℕ) → (s == 0) ≡ false → s - 1 < s
one_less s more = ground (arith, more)

abbrev packets_end : IsFinite packets
packets_end = record {
  left = λ s. s;
  reads = λ s more. (record { value = 1; bytes = 7 ∷ []; next = s - 1 }, refl, one_less s more);
}

abbrev loaded : Speex libspeex packets
loaded = record {
  provider = 2;
  state = some tt;
  channels = 1;
  samplerate = 8000;
  frame_index = 0;
  cached_samples = [];
}

decode-drains_example :
    (d' : Speex libspeex packets) × (decode libspeex packets 2 1 loaded
      ≡ ret (record { frame_index = 0; frame_count = 0; samples = [] }, d'))
    × (DataProvider.eof packets d'.provider ≡ true)
    × (d'.cached_samples ≡ [])
decode-drains_example =
    decode-drains libspeex packets (λ s. refl) packets_end 1 loaded tt (omega arith) refl refl
