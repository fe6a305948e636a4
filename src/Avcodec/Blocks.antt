-- ===== src/Avcodec/Blocks.antt =====
-- The order of the samples that runDecodeThread caches and moves.
use nfdecoder.Base.{
  ℕ, ◌+◌, ◌-◌, ◌*◌, ◌/◌, ◌≤◌, ◌≡◌, sym, ap, ◌∙◌, arith, min, List, ◌++◌, take, drop, length,
  append_assoc, take-append-drop, take_all, length-append, length-take, length-drop,
}

-- The samples that are moved and those that are cached, one behind the other, are those that were
-- cached at first and what was decoded since, of which `Made` holds.
pub record InOrder {F : Type 0} (Made : List F → Type 0) (wanted start : ℕ) (cached : List F)
    (index read : ℕ) (output pcm : List F) : Type 0 where
  pub stays : index ≡ start
  pub within : read ≤ wanted
  pub full : length output ≡ read * 2
  pub frames : ℕ
  pub whole : length pcm ≡ frames * 2
  pub decoded : List F
  pub made : Made decoded
  pub order : output ++ pcm ≡ cached ++ decoded

module _ {F : Type 0} (Made : List F → Type 0) (wanted start : ℕ) (cached : List F) where
  pub InOrder-move :
      (index read n : ℕ) (output pcm : List F)
      → n ≡ min (length pcm) ((wanted - read) * 2)
      → InOrder Made wanted start cached index read output pcm
      → InOrder Made wanted start cached index
          (read + n / 2)
          (take (read * 2) output ++ take n pcm)
          (drop n pcm)
  InOrder-move index read n output pcm e h =
      let m = min h.frames (wanted - read) in
      let half : n ≡ m * 2 = omega (arith, e, h.whole) in
      rw (take_all (read * 2) output (omega (arith, h.full))) (record {
        stays = h.stays;
        within = omega (arith, half, h.within);
        full =
            length-append output (take n pcm)
            ∙ omega (arith, length-take n pcm, half, e, h.full, h.whole);
        frames = h.frames - m;
        whole = omega (arith, length-drop n pcm, half, h.whole);
        decoded = h.decoded;
        made = h.made;
        order =
            append_assoc output (take n pcm) (drop n pcm)
            ∙ ap (λ t. output ++ t) (take-append-drop n pcm)
            ∙ h.order;
      })

  pub InOrder-block :
      (index read n : ℕ) (output pcm block : List F)
      → length block ≡ n * 2
      → ((xs : List F) → Made xs → Made (xs ++ block))
      → InOrder Made wanted start cached index read output pcm
      → InOrder Made wanted start cached index read output (pcm ++ block)
  InOrder-block index read n output pcm block e grows h = record {
    stays = h.stays;
    within = h.within;
    full = h.full;
    frames = h.frames + n;
    whole = length-append pcm block ∙ omega (arith, h.whole, e);
    decoded = h.decoded ++ block;
    made = grows h.decoded h.made;
    order =
        sym (append_assoc output pcm block)
        ∙ ap (λ t. t ++ block) h.order
        ∙ append_assoc cached h.decoded block;
  }
