-- ===== src/Midi/Seek.antt =====
-- One call of `seek` after another.
use nfdecoder.Base.{
  ℕ, ◌/◌, ◌<◌, ◌≤◌, ◌≡◌, refl, ap, sym, ◌∙◌, arith, ltb, true, false, List, [], ◌∷◌, Bool-cases,
  ◌⊎◌, inl, inr, lt→ltb, le→ltb, ltb→lt, ne→==,
}
use nfdecoder.Base.Run.{ret, fault}
use nfdecoder.Midi.{TinySoundFont, Message, Midi, samplerate, skip, seek_from, seek, eof}

module _ {F : Type 0} (lib : TinySoundFont F) where
  -- The loop goes on where an earlier one, to no later time, has stopped.
  skip-skip :
      (s t : ℕ) (m : Message) (ms : List Message)
      → s ≤ t
      → (skip lib s m ms ≡ [])
        ⊎ ((n : Message) × (ns : List Message) × (skip lib s m ms ≡ n ∷ ns)
            × (skip lib t n ns ≡ skip lib t m ms))
  unfolding skip
  skip-skip s t m [] no_later = inl refl
  skip-skip s t m (n ∷ ns) no_later = elim (Bool-cases (ltb n.time s)) [
    | inl e ↦
        rw (e, lt→ltb n.time t (omega (arith, ltb→lt n.time s e, no_later)))
          (skip-skip s t n ns no_later)
    | inr e ↦ rw e (inr (m, n ∷ ns, refl, refl))
  ]

  seek_on :
      (d : Midi lib) (index : ℕ)
      → d.frame_index < index
      → seek lib d index ≡ seek_from lib d index d.midi_stream
  unfolding seek
  seek_on d index later =
      rw
        (
          ne→== index d.frame_index (omega (arith, later)),
          le→ltb index d.frame_index (omega (arith, later)),
          le→ltb index (index / samplerate) (omega arith),
        )
        refl

  -- The second call finds what the first one has left, or a null stream.
  abbrev pub Sought : Midi lib → Midi lib → ℕ → Type 0
  Sought d d' j =
      ((eof lib d'.midi_stream ≡ false) × (seek lib d' j ≡ seek lib d j))
      ⊎ ((eof lib d'.midi_stream ≡ true) × (seek lib d' j ≡ fault))

  -- From a decoder with a stream, `seek` to a frame behind its own is defined. A second `seek`, to
  -- a frame behind that one, leaves the decoder as the second alone would have, unless the first
  -- call has come to the end of the stream: then it is undefined.
  pub seek-seek :
      (d : Midi lib) (m : Message) (ms : List Message) (i j : ℕ)
      → d.midi_stream ≡ m ∷ ms
      → d.frame_index < i
      → i < j
      → (d' : Midi lib) × (seek lib d i ≡ ret d') × Sought d d' j
  unfolding seek_from eof
  seek-seek d m ms i j stream first second =
      let t = i / samplerate in
      let d' = record d { midi_stream = skip lib t m ms; frame_index = i } in
      (
        d',
        seek_on d i first ∙ ap (seek_from lib d i) stream,
        elim (skip-skip t (j / samplerate) m ms (omega (arith, second))) [
          | inl e ↦ inr (rw e refl, seek_on d' j second ∙ ap (seek_from lib d' j) e)
          | inr (n, ns, e, same) ↦ inl (
            rw e refl,
            seek_on d' j second
                ∙ ap (seek_from lib d' j) e
                ∙ ap (λ s. ret (record d { midi_stream = s; frame_index = j })) same
                ∙ sym (seek_on d j (omega (arith, first, second)) ∙ ap (seek_from lib d j) stream),
          )
        ],
      )
