-- ===== src/Midi/Names.antt =====
-- The path that the code takes apart.
use nfdecoder.Base.{
  ℕ, ◌+◌, ◌-◌, ◌≡◌, refl, ap, ◌∙◌, arith, some, ◌++◌, length, take, drop, le→ltb, take-append,
  drop-append, append_assoc, length-append,
}
use nfdecoder.Base.Run.{ret}
use nfdecoder.Base.Text.{Text, find?}
use nfdecoder.Midi.{midi_prefix, soundfont_prefix, between, paths}

-- The path of a MIDI file with a sound font.
abbrev pub join : Text → Text → Text
join midi soundfont = midi_prefix ++ midi ++ soundfont_prefix ++ soundfont

starts :
    (midi soundfont : Text)
    → paths (join midi soundfont)
      ≡ between (join midi soundfont) 0 (find? soundfont_prefix (join midi soundfont))
unfolding paths find?
starts midi soundfont = refl

parted :
    (midi soundfont : Text)
    → between (join midi soundfont) 0 (some (length midi_prefix + length midi))
      ≡ ret (midi, soundfont)
unfolding between
parted midi soundfont =
    let l = length midi in
    rw (le→ltb (5 + l) 5 (omega arith)) (
      ap (λ m. ret (m, drop (5 + l + 11) (join midi soundfont)))
        (front l midi soundfont (omega arith))
      ∙ ap (λ s. ret (midi, s))
          (drop-append (5 + l + 11) (midi_prefix ++ midi ++ soundfont_prefix) soundfont (
            grind (
              arith,
              length-append (midi_prefix ++ midi) soundfont_prefix,
              length-append midi_prefix midi,
            ))))
  where
    front :
        (l : ℕ) (midi soundfont : Text)
        → l ≡ length midi
        → take (5 + l - 5) (drop 5 (join midi soundfont)) ≡ midi
    front l midi soundfont e =
        ap (λ n. take n (midi ++ soundfont_prefix ++ soundfont)) (size l)
        ∙ ap (take l) (append_assoc midi soundfont_prefix soundfont)
        ∙ take-append l midi (soundfont_prefix ++ soundfont) e
      where
        size : (l : ℕ) → 5 + l - 5 ≡ l
        size l = omega arith

-- A path that is joined from two, where the first sound font prefix is the one between them, is
-- taken apart into the two again.
pub paths-join :
    (midi soundfont : Text)
    → find? soundfont_prefix (join midi soundfont) ≡ some (length midi_prefix + length midi)
    → paths (join midi soundfont) ≡ ret (midi, soundfont)
paths-join midi soundfont found =
    starts midi soundfont ∙ ap (between (join midi soundfont) 0) found ∙ parted midi soundfont
