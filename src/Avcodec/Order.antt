-- ===== src/Avcodec/Order.antt =====
-- What runDecodeThread delivers: the cached samples and those that it decodes, in order.
use nfdecoder.Base.{
  ℕ, zero, suc, ◌+◌, ◌-◌, ◌*◌, ◌/◌, ◌==◌, ◌≤◌, ◌≡◌, refl, sym, arith, ltb, leb, min, Bool, true,
  false, ◌&&◌, ◌||◌, not, Option, some, List, [], ◌++◌, take, length, append-nil, take_all,
  Bool-cases, inl, inr,
}
use nfdecoder.Base.Frames.{Decoded, interleave, length-interleave}
use nfdecoder.Base.Int.{ℤ, ◌==ℤ◌, failed}
use nfdecoder.Base.Run.{
  Keeps, Keeps-ret, Keeps-fault, Keeps-unfinished, Keeps-if, Keeps-or_fault, Keeps-bind,
  Keeps-anything,
}
use nfdecoder.Provider.{DataProvider}
use nfdecoder.Avcodec.{Libav, Times, Decrypter, Avcodec}
use nfdecoder.Avcodec.Decode.{
  Decoding, move_decoded, take_block, clip_frames, if_positive, place, on_frame, receive_frames,
  prepare, send, handle, round, decode_packets, finish, decode,
}
use nfdecoder.Avcodec.Blocks.{InOrder, InOrder-move, InOrder-block}
use nfdecoder.Avcodec.Calls.{Same, run_io-Same}

-- Samples that libav has decoded: of one frame after another that a codec has given, as a resampler
-- has converted it, so many of the first ones as are kept, the channels interleaved.
pub data AreDecoded {F : Type 0} (lib : Libav F) : List F → Type 0 where
  nothing : AreDecoded lib []
  behind :
      (xs : List F) (codec : lib.Codec) (resampler : lib.Resampler) (n : ℕ)
      → AreDecoded lib xs
      → failed (lib.receive_frame codec).0 ≡ false
      → n ≤ if_positive (lib.convert resampler (lib.receive_frame codec).1).0
      → AreDecoded lib
          (xs ++ interleave (lib.convert resampler (lib.receive_frame codec).1).1 2 0 n)

module _ {F : Type 0} (lib : Libav F) (P : DataProvider) (times : Times)
    (decrypter : Option Decrypter) where
  abbrev L : Type 0
  L = Decoding lib P times decrypter

  module _ (wanted start : ℕ) (cached : List F) where
    abbrev pub Holds : L → Type 0
    Holds l =
        InOrder (AreDecoded lib) wanted start cached l.decoder.frame_index l.read_frames l.output
          l.decoder.pcm_buffer

    pub move_decoded-Holds : (l : L) → Holds l → Holds (move_decoded lib P times decrypter wanted l)
    unfolding move_decoded
    move_decoded-Holds l h =
        let n = min (length l.decoder.pcm_buffer) ((wanted - l.read_frames) * 2) in
        elim (Bool-cases (n == 0)) [
          | inl e ↦ rw e h
          | inr e ↦ rw e (InOrder-move (AreDecoded lib) wanted start cached _ _ n _ _ refl h)
        ]

    -- The first frames of the block may stand behind what was decoded.
    abbrev Follows : ℕ → (ℕ → ℕ → F) → Type 0
    Follows n block =
        (k : ℕ)
        → k ≤ n
        → (xs : List F) → AreDecoded lib xs
        → AreDecoded lib (xs ++ interleave block 2 0 k)

    take_block-Holds :
        (packet_frames : ℤ) (n : ℕ) (block : ℕ → ℕ → F) (l : L)
        → Follows n block
        → Holds l
        → Holds (take_block lib P times decrypter wanted start packet_frames n block l)
    unfolding take_block
    take_block-Holds packet_frames n block l follows h =
        let clip = clip_frames lib P times decrypter start packet_frames l in
        elim (Bool-cases (leb n clip)) [
          | inl e ↦ rw e h
          | inr e ↦ rw e (
              move_decoded-Holds _ (
                InOrder-block (AreDecoded lib) wanted start cached _ _ (n - clip) _ _ _
                  (length-interleave block 2 0 (n - clip)) (follows (n - clip) (omega arith)) h))
        ]

    place-Holds :
        (packet : Option lib.Packet) (n : ℕ) (block : ℕ → ℕ → F) (l : L)
        → Follows n block
        → Holds l
        → Keeps Holds (place lib P times decrypter wanted start packet n block l)
    unfolding place
    place-Holds packet n block l follows h = Keeps-or_fault Holds packet _ λ p.
        Keeps-or_fault Holds l.decoder.stream _ λ s.
          let ratio = s.time_base_den / s.time_base_num in
          Keeps-if Holds (s.time_base_num == 0) _ _ (Keeps-fault Holds) (
            Keeps-ret Holds
              (take_block lib P times decrypter wanted start
                (times.frames_of (lib.pts p) ratio s.sample_rate) n block l)
              (take_block-Holds _ n block l follows h))

    on_frame-Holds :
        (packet : Option lib.Packet) (frame : lib.Frame) (l : L)
        → ((resampler : lib.Resampler)
            → Follows (if_positive (lib.convert resampler frame).0) (lib.convert resampler frame).1)
        → Holds l
        → Keeps Holds (on_frame lib P times decrypter wanted start packet frame l)
    unfolding on_frame
    on_frame-Holds packet frame l follows h =
        Keeps-if Holds (ltb 0 (if_positive (lib.nb_samples frame))) _ _
          (Keeps-or_fault Holds l.decoder.resampler _ λ resampler.
            let (n, block, resampler') = lib.convert resampler frame in
            let l' : L = record l { decoder = record l.decoder { resampler = some resampler' } } in
            Keeps-if Holds (ltb 0 (if_positive n)) _ _
              (place-Holds packet (if_positive n) block l' (follows resampler) h)
              (Keeps-ret Holds l' h))
          (Keeps-ret Holds l h)

    receive_frames-Holds :
        (fuel : ℕ) (packet : Option lib.Packet) (codec : lib.Codec) (l : L)
        → Holds l
        → Keeps Holds (receive_frames lib P times decrypter fuel wanted start packet codec l)
    unfolding receive_frames
    receive_frames-Holds zero packet codec l h = Keeps-unfinished Holds
    receive_frames-Holds (suc fuel) packet codec l h =
        let (error_code, frame, codec') = lib.receive_frame codec in
        let l' : L = record l { decoder = record l.decoder { codec = some codec' } } in
        elim (Bool-cases (failed error_code)) [
          | inl e ↦ rw e (Keeps-ret Holds l' h)
          | inr e ↦
              let follows : (resampler : lib.Resampler)
                  → Follows (if_positive (lib.convert resampler frame).0)
                      (lib.convert resampler frame).1 =
                λ resampler k fits xs made. behind xs codec resampler k made e fits in
              rw e (
                Keeps-bind Holds Holds (on_frame lib P times decrypter wanted start packet frame l')
                  _ (on_frame-Holds packet frame l' follows h)
                  (receive_frames-Holds fuel packet codec'))
        ]

    abbrev After : Bool × L → Type 0
    After r = Holds r.1

    send-Holds :
        (fuel : ℕ) (packet : Option lib.Packet) (l : L)
        → Holds l
        → Keeps After (send lib P times decrypter fuel wanted start packet l)
    unfolding send
    send-Holds fuel packet l h = Keeps-or_fault After l.decoder.codec _ λ codec.
        let (error_code, codec') = lib.send_packet codec packet in
        let l' : L = record l { decoder = record l.decoder { codec = some codec' } } in
        let l'' : L = record l' { drain = true } in
        Keeps-if After (error_code ==ℤ lib.averror_eof) _ _ (Keeps-ret After (false, l'') h) (
          Keeps-if After (failed error_code) _ _ (Keeps-ret After (true, l') h) (
            Keeps-bind After Holds
              (receive_frames lib P times decrypter fuel wanted start packet codec' l') _
              (receive_frames-Holds fuel packet codec' l' h)
              (λ l3 h'. Keeps-ret After (true, l3) h')))

    InOrder-Same :
        {A : Type 0} (l : L) (r : A × Avcodec lib P)
        → Holds l
        → Same lib P decrypter l.decoder r
        → Holds (record l { decoder = r.1 })
    unfolding Same
    InOrder-Same l r h s = rw (s.0, s.1) h

    handle-Holds :
        (fuel : ℕ) (l : L) (r : (ℤ × lib.Packet × lib.Format) × Avcodec lib P)
        → Holds l
        → Same lib P decrypter l.decoder r
        → Keeps After (handle lib P times decrypter fuel wanted start l r)
    unfolding handle
    handle-Holds fuel l ((error_code, packet, format'), d) h s =
        let ended = error_code ==ℤ lib.averror_eof in
        let l' : L = record l {
          decoder = record d { format = some format' };
          drain = ended || l.drain;
        } in
        let h' : Holds l' = InOrder-Same l ((error_code, packet, format'), d) h s in
        Keeps-if After (not ended && failed error_code) _ _ (Keeps-ret After (true, l') h') (
          Keeps-bind After (λ p. Unit {0}) (prepare lib P times decrypter packet l') _
            (Keeps-anything _) (λ p u. send-Holds fuel p l' h'))

    round-Holds :
        (fuel : ℕ) (l : L) → Holds l → Keeps After (round lib P times decrypter fuel wanted start l)
    unfolding round
    round-Holds fuel l h = Keeps-or_fault After l.decoder.format _ λ format.
        Keeps-bind After (Same lib P decrypter l.decoder) _ _
          (run_io-Same lib P decrypter fuel (lib.read_frame format) l.decoder)
          (λ r s. handle-Holds fuel l r h s)

    decode_packets-Holds :
        (inner fuel : ℕ) (l : L)
        → Holds l
        → Keeps Holds (decode_packets lib P times decrypter inner fuel wanted start l)
    unfolding decode_packets
    decode_packets-Holds inner zero l h =
        Keeps-if Holds (ltb l.read_frames wanted) _ _ (Keeps-unfinished Holds) (Keeps-ret Holds l h)
    decode_packets-Holds inner (suc fuel) l h =
        Keeps-if Holds (ltb l.read_frames wanted) _ _
          (Keeps-bind Holds After (round lib P times decrypter inner wanted start l) _
            (round-Holds inner l h)
            (λ r h'.
              Keeps-if Holds r.0 _ _ (decode_packets-Holds inner fuel r.1 h')
                (Keeps-ret Holds r.1 h')))
          (Keeps-ret Holds l h)

  -- What a call for `wanted` frames of `d` has delivered.
  pub record Delivers (wanted : ℕ) (d : Avcodec lib P) (r : Decoded F × Avcodec lib P)
      : Type 0 where
    pub begins : r.0.frame_index ≡ d.frame_index
    pub bounded : r.0.frame_count ≤ wanted
    pub moved : r.1.frame_index ≡ d.frame_index + r.0.frame_count
    pub sized : length r.0.samples ≡ r.0.frame_count * 2
    pub decoded : List F
    pub from_libav : AreDecoded lib decoded
    pub order : r.0.samples ++ r.1.pcm_buffer ≡ d.pcm_buffer ++ decoded

  finish-Delivers :
      (wanted : ℕ) (d : Avcodec lib P) (l : L)
      → Holds wanted d.frame_index d.pcm_buffer l
      → Delivers wanted d (finish lib P times decrypter wanted d.frame_index l)
  unfolding finish
  finish-Delivers wanted d l h =
      let n : min l.read_frames wanted ≡ l.read_frames = omega (arith, h.within) in
      let all : take (l.read_frames * 2) l.output ≡ l.output =
        take_all _ l.output (omega (arith, h.full)) in
      record {
        begins = refl;
        bounded = omega arith;
        moved = rw n refl;
        sized = rw (n, all) h.full;
        decoded = h.decoded;
        from_libav = h.made;
        order = rw (n, all) h.order;
      }

  -- What decode gives, where it is defined and ends, from a decoder whose cached samples are whole
  -- frames: it starts at the frame index and moves it by what it delivers, that is not more than
  -- what was wanted, with two samples for each frame, and the samples that it delivers and those
  -- that it leaves cached are, in order, those that were cached before and the ones it decoded.
  pub decode-Delivers_in_order :
      (inner fuel wanted : ℕ) (d : Avcodec lib P) (n : ℕ)
      → length d.pcm_buffer ≡ n * 2
      → Keeps (Delivers wanted d) (decode lib P times decrypter inner fuel wanted d)
  unfolding decode
  decode-Delivers_in_order inner fuel wanted d n whole =
      let l : L = record {
        decoder = d;
        output = [];
        read_frames = 0;
        drain = false;
        first_run = false;
        decoded_frames = 0;
      } in
      let h : Holds wanted d.frame_index d.pcm_buffer l = record {
        stays = refl;
        within = omega arith;
        full = omega arith;
        frames = n;
        whole = whole;
        decoded = [];
        made = nothing;
        order = sym (append-nil d.pcm_buffer);
      } in
      Keeps-bind (Delivers wanted d) (Holds wanted d.frame_index d.pcm_buffer)
        (decode_packets lib P times decrypter inner fuel wanted d.frame_index
          (move_decoded lib P times decrypter wanted l))
        _
        (decode_packets-Holds wanted d.frame_index d.pcm_buffer inner fuel _
          (move_decoded-Holds wanted d.frame_index d.pcm_buffer l h))
        (λ l' h'. Keeps-ret (Delivers wanted d) _ (finish-Delivers wanted d l' h'))
