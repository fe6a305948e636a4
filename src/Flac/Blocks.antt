-- ===== src/Flac/Blocks.antt =====
-- The samples of the blocks that libFLAC writes, and their number.
use nfdecoder.Base.{
  ℕ, zero, suc, ◌+◌, ◌*◌, ◌≡◌, refl, arith, ap, sym, ◌∙◌, List, [], ◌∷◌, ◌++◌, length, append-nil,
  append_assoc, length-append,
}
use nfdecoder.Flac.{
  Block, Libflac, Floats, Flac, frame_samples, block_samples, flac_write, write_all,
}

module _ (floats : Floats) (flac : Libflac) where
  -- The samples of blocks that are written one after the other.
  abbrev pub blocks_samples : ℕ → List Block → List floats.Float
  blocks_samples c [] = []
  blocks_samples c (b ∷ bs) = block_samples floats flac b c 0 b.blocksize ++ blocks_samples c bs

  abbrev pub total : List Block → ℕ
  total [] = 0
  total (b ∷ bs) = b.blocksize + total bs

  length-frame_samples : (b : Block) (i k n : ℕ) → length (frame_samples floats flac b i k n) ≡ n
  unfolding frame_samples
  length-frame_samples b i k zero = refl
  length-frame_samples b i k (suc n) = ap suc (length-frame_samples b i (k + 1) n)

  length-block_samples :
      (b : Block) (c i n : ℕ) → length (block_samples floats flac b c i n) ≡ n * c
  unfolding block_samples
  length-block_samples b c i zero = omega arith
  length-block_samples b c i (suc n) = grind (
    arith,
    length-append (frame_samples floats flac b i 0 c) (block_samples floats flac b c (i + 1) n),
    length-frame_samples b i 0 c,
    length-block_samples b c (i + 1) n,
  )

  pub length-blocks_samples :
      (c : ℕ) (bs : List Block) → length (blocks_samples c bs) ≡ total bs * c
  length-blocks_samples c [] = omega arith
  length-blocks_samples c (b ∷ bs) = grind (
    arith,
    length-append (block_samples floats flac b c 0 b.blocksize) (blocks_samples c bs),
    length-block_samples b c 0 b.blocksize,
    length-blocks_samples c bs,
  )

  pub blocks_samples-append :
      (c : ℕ) (xs ys : List Block)
      → blocks_samples c (xs ++ ys) ≡ blocks_samples c xs ++ blocks_samples c ys
  blocks_samples-append c [] ys = refl
  blocks_samples-append c (x ∷ xs) ys =
      ap (λ t. block_samples floats flac x c 0 x.blocksize ++ t) (blocks_samples-append c xs ys)
      ∙ sym (append_assoc _ (blocks_samples c xs) (blocks_samples c ys))

  pub write_all_lem :
      (d : Flac floats flac) (bs : List Block)
      → write_all floats flac d bs
        ≡ record d { samples = d.samples ++ blocks_samples d.channels bs }
  unfolding write_all flac_write
  write_all_lem d [] = rw (append-nil d.samples) refl
  write_all_lem d (b ∷ bs) =
      write_all_lem (flac_write floats flac d b) bs
      ∙ rw
          (append_assoc d.samples (block_samples floats flac b d.channels 0 b.blocksize)
            (blocks_samples d.channels bs))
          refl

  pub total-append : (xs ys : List Block) → total (xs ++ ys) ≡ total xs + total ys
  total-append [] ys = omega arith
  total-append (x ∷ xs) ys = omega (arith, total-append xs ys)
