-- ===== src/Avcodec/Calls.antt =====
-- What the calls of libav leave as it is in the decoder.
use nfdecoder.Base.{ℕ, ◌≡◌, refl, ◌∙◌, ltb, if◌then◌else◌, Option, List, take}
use nfdecoder.Base.Int.{ℤ, ◌==ℤ◌}
use nfdecoder.Base.Run.{
  Run, Keeps, Keeps-ret, Keeps-if, Keeps-option, Keeps-or_fault, Keeps-bind, Keeps-anything,
  Keeps-map,
}
use nfdecoder.Provider.{DataProvider, Whence, seek_set}
use nfdecoder.Avcodec.{
  Libav, Decrypter, Avcodec, Io, finished, reading, seeking, asking_size, begin_of, avio_read,
  avio_seek, run_io,
}
use nfdecoder.Avcodec.Search.{Scan, search_boxes}

module _ {F : Type 0} (lib : Libav F) (P : DataProvider) (decrypter : Option Decrypter) where
  -- A call of libav leaves the cached samples and the frame index as they are.
  unfoldable pub Same : {A : Type 0} → Avcodec lib P → A × Avcodec lib P → Type 0
  Same d r = (r.1.pcm_buffer ≡ d.pcm_buffer) × (r.1.frame_index ≡ d.frame_index)

  avio_read-Same :
      (fuel n : ℕ) (d : Avcodec lib P) → Keeps (Same d) (avio_read lib P decrypter fuel n d)
  unfolding avio_read Same
  avio_read-Same fuel n d = Keeps-or_fault (Same d) (P.read d.provider 1 n) _ λ r.
      let tell = P.tell r.next in
      let scan : Scan P = record {
        bytes = take r.value r.bytes;
        provider = r.next;
        boxes = d.boxes;
      } in
      let plain : (ℕ × List ℕ) × Avcodec lib P =
        ((r.value, r.bytes), record d { provider = r.next }) in
      let at : Scan P → P.State = λ s.
        if P.tell s.provider ==ℤ tell then s.provider else (P.seek s.provider tell seek_set).1 in
      Keeps-option (Same d) decrypter _ _ (Keeps-ret (Same d) plain (refl, refl)) λ _ _.
        Keeps-if (Same d) (ltb 0 r.value) _ _
          (Keeps-bind (Same d) (λ s. Unit {0})
            (search_boxes P fuel (begin_of lib P tell r.value) scan) _ (Keeps-anything _)
            (λ s h.
              Keeps-ret (Same d) ((r.value, r.bytes), record d { provider = at s; boxes = s.boxes })
                (refl, refl)))
          (Keeps-ret (Same d) plain (refl, refl))

  avio_seek-Same : (o : ℤ) (w : Whence) (d : Avcodec lib P) → Same d (avio_seek lib P o w d)
  unfolding Same avio_seek
  avio_seek-Same o w d = (refl, refl)

  Same-refl : {A : Type 0} (a : A) (d : Avcodec lib P) → Same d (a, d)
  unfolding Same
  Same-refl a d = (refl, refl)

  Same-trans :
      {A B : Type 0} (d : Avcodec lib P) (r : A × Avcodec lib P) (m : Run (B × Avcodec lib P))
      → Same d r
      → Keeps (Same r.1) m
      → Keeps (Same d) m
  unfolding Same
  Same-trans d r m h k = Keeps-map (Same r.1) (Same d) m k λ s e. (e.0 ∙ h.0, e.1 ∙ h.1)

  pub run_io-Same :
      {A : Type 0} (fuel : ℕ) (io : Io A) (d : Avcodec lib P)
      → Keeps (Same d) (run_io lib P decrypter fuel io d)
  unfolding run_io
  run_io-Same fuel (finished a) d = Keeps-ret (Same d) (a, d) (Same-refl a d)
  run_io-Same fuel (reading n k) d =
      Keeps-bind (Same d) (Same d) _ _ (avio_read-Same fuel n d)
        λ r h. Same-trans d r _ h (run_io-Same fuel (k r.0) r.1)
  run_io-Same fuel (seeking offset whence k) d =
      let r = avio_seek lib P offset whence d in
      Same-trans d r _ (avio_seek-Same offset whence d) (run_io-Same fuel (k r.0) r.1)
  run_io-Same fuel (asking_size k) d = run_io-Same fuel (k (P.size d.provider)) d
