-- ===== src/Avcodec/Vectors.antt =====
-- The initialisation vectors on their way from the file to the decrypter.
use nfdecoder.Base.{
  ℕ, zero, suc, ◌+◌, ◌*◌, ◌/◌, ◌%◌, ◌^◌, ◌<◌, ◌≤◌, ◌≡◌, refl, ap, ◌∙◌, arith, Option, some, List,
  [], ◌∷◌, ◌++◌, take, drop, length, get_or, replicate, if◌then◌else◌, ==_refl, ne→==, length-take,
  length-drop, All-take, take_all, le→ltb, ltb,
}
use nfdecoder.Base.Bytes.{AreBytes, u32_bytes}
use nfdecoder.Base.Int.{ℤ, pos, failed}
use nfdecoder.Base.Run.{ret, fault}
use nfdecoder.Provider.{DataProvider}
use nfdecoder.Avcodec.{Libav, Times, Decrypter}
use nfdecoder.Avcodec.Decode.{decrypt_with}
use nfdecoder.Avcodec.Endians.{swap_endians-get_or}
use nfdecoder.Avcodec.Search.{read_u64, read_ivs, set_iv, slice, vector_of}

u32_bytes_lem :
    (a b c d : ℕ)
    → a < 256
    → b < 256
    → c < 256
    → d < 256
    → u32_bytes (a + b * 256 + (c + d * 256) * 65536) ≡ a ∷ b ∷ c ∷ d ∷ []
u32_bytes_lem a b c d ha hb hc hd =
    let n = a + b * 256 + (c + d * 256) * 65536 in
    let e0 : n % 256 ≡ a = omega (arith, ha, hb, hc, hd) in
    let e1 : n / 256 % 256 ≡ b = omega (arith, ha, hb, hc, hd) in
    let e2 : n / 65536 % 256 ≡ c = omega (arith, ha, hb, hc, hd) in
    let e3 : n / 16777216 % 256 ≡ d = omega (arith, ha, hb, hc, hd) in rw (e0, e1, e2, e3) refl

-- The number of eight bytes.
abbrev value_of : ℕ → ℕ → ℕ → ℕ → ℕ
value_of a b c d = a + b * 256 + (c + d * 256) * 65536

read_u64_lem :
    (a b c d e f g h : ℕ)
    → AreBytes (a ∷ b ∷ c ∷ d ∷ e ∷ f ∷ g ∷ h ∷ [])
    → read_u64 (a ∷ b ∷ c ∷ d ∷ e ∷ f ∷ g ∷ h ∷ []) ≡ value_of h g f e + value_of d c b a * 2 ^ 32
unfolding read_u64
read_u64_lem a b c d e f g h bytes =
    let m = a ∷ b ∷ c ∷ d ∷ e ∷ f ∷ g ∷ h ∷ [] in
    let at = (swap_endians-get_or m bytes).1 in
    rw
      (
        at 0 (omega arith),
        at 1 (omega arith),
        at 2 (omega arith),
        at 3 (omega arith),
        at 4 (omega arith),
        at 5 (omega arith),
        at 6 (omega arith),
        at 7 (omega arith),
      )
      refl

-- The eight bytes of two words, the last one first, and the zeros.
abbrev turned : List ℕ → List ℕ → List ℕ
turned x y =
    (get_or (x ++ y) 7 0
      ∷ get_or (x ++ y) 6 0
      ∷ get_or (x ++ y) 5 0
      ∷ get_or (x ++ y) 4 0
      ∷ get_or (x ++ y) 3 0
      ∷ get_or (x ++ y) 2 0
      ∷ get_or (x ++ y) 1 0
      ∷ get_or (x ++ y) 0 0
      ∷ [])
    ++ replicate 8 0

vector_of-value_of :
    (a b c d e f g h : ℕ)
    → AreBytes (a ∷ b ∷ c ∷ d ∷ e ∷ f ∷ g ∷ h ∷ [])
    → vector_of (value_of h g f e + value_of d c b a * 2 ^ 32)
      ≡ (a ∷ b ∷ c ∷ d ∷ e ∷ f ∷ g ∷ h ∷ []) ++ replicate 8 0
unfolding vector_of
vector_of-value_of a b c d e f g h (ha, (hb, (hc, (hd, (he, (hf, (hg, (hh, _)))))))) =
    let low = value_of h g f e in
    let high = value_of d c b a in
    let small : low < 2 ^ 32 = omega (arith, he, hf, hg, hh) in
    ap (λ n. turned (u32_bytes n) (u32_bytes ((low + high * 2 ^ 32) / 2 ^ 32)))
      (remainder low high small)
    ∙ ap (λ n. turned (u32_bytes low) (u32_bytes n)) (quotient low high small)
    ∙ ap (λ x. turned x (u32_bytes high)) (u32_bytes_lem h g f e hh hg hf he)
    ∙ ap (turned (h ∷ g ∷ f ∷ e ∷ [])) (u32_bytes_lem d c b a hd hc hb ha)
  where
    remainder : (low high : ℕ) → low < 2 ^ 32 → (low + high * 2 ^ 32) % 2 ^ 32 ≡ low
    remainder low high small = omega (arith, small)

    quotient : (low high : ℕ) → low < 2 ^ 32 → (low + high * 2 ^ 32) / 2 ^ 32 ≡ high
    quotient low high small = omega (arith, small)

-- Eight bytes are given to the decrypter as they stand in the file.
vector_of-read_u64 :
    (v : List ℕ) → length v ≡ 8 → AreBytes v → vector_of (read_u64 v) ≡ v ++ replicate 8 0
vector_of-read_u64 (a ∷ b ∷ c ∷ d ∷ e ∷ f ∷ g ∷ h ∷ []) size bytes =
    rw (read_u64_lem a b c d e f g h bytes) (vector_of-value_of a b c d e f g h bytes)
vector_of-read_u64 [] size bytes = absurd (omega (arith, size))
vector_of-read_u64 (a ∷ []) size bytes = absurd (omega (arith, size))
vector_of-read_u64 (a ∷ b ∷ []) size bytes = absurd (omega (arith, size))
vector_of-read_u64 (a ∷ b ∷ c ∷ []) size bytes = absurd (omega (arith, size))
vector_of-read_u64 (a ∷ b ∷ c ∷ d ∷ []) size bytes = absurd (omega (arith, size))
vector_of-read_u64 (a ∷ b ∷ c ∷ d ∷ e ∷ []) size bytes = absurd (omega (arith, size))
vector_of-read_u64 (a ∷ b ∷ c ∷ d ∷ e ∷ f ∷ []) size bytes = absurd (omega (arith, size))
vector_of-read_u64 (a ∷ b ∷ c ∷ d ∷ e ∷ f ∷ g ∷ []) size bytes = absurd (omega (arith, size))
vector_of-read_u64 (a ∷ b ∷ c ∷ d ∷ e ∷ f ∷ g ∷ h ∷ i ∷ v) size bytes = absurd (omega (arith, size))

set_iv-same : (ivs : ℕ → Option ℕ) (key iv : ℕ) → key < 2 ^ 32 → set_iv ivs key iv key ≡ some iv
set_iv-same ivs key iv small =
    let e : key % 2 ^ 32 ≡ key = omega (arith, small) in rw (e, ==_refl key) refl

set_iv-other :
    (ivs : ℕ → Option ℕ) (key iv k : ℕ) → key < 2 ^ 32 → k < key → set_iv ivs key iv k ≡ ivs k
set_iv-other ivs key iv k small less =
    let e : key % 2 ^ 32 ≡ key = omega (arith, small) in
    rw (e, ne→== k key (omega (arith, less))) refl

read_ivs-other :
    (n i entry : ℕ) (bytes : List ℕ) (ivs : ℕ → Option ℕ) (k : ℕ)
    → entry + n ≤ 2 ^ 32
    → k < entry
    → read_ivs n i entry bytes ivs k ≡ ivs k
unfolding read_ivs
read_ivs-other zero i entry bytes ivs k small less = refl
read_ivs-other (suc n) i entry bytes ivs k small less =
    read_ivs-other n (i + 8) (entry + 1) bytes _ k (omega (arith, small)) (omega (arith, less))
    ∙ set_iv-other ivs entry _ k (omega (arith, small)) less

read_ivs_lem :
    (n i entry : ℕ) (bytes : List ℕ) (ivs : ℕ → Option ℕ) (k : ℕ)
    → entry + n ≤ 2 ^ 32
    → k < n
    → read_ivs n i entry bytes ivs (entry + k) ≡ some (read_u64 (slice (i + 8 * k) 8 bytes))
unfolding read_ivs
read_ivs_lem zero i entry bytes ivs k small less = absurd (omega (arith, less))
read_ivs_lem (suc n) i entry bytes ivs zero small less =
    let e : entry + 0 ≡ entry = omega arith in
    let s : i + 8 * 0 ≡ i = omega arith in
    rw (e, s)
      (read_ivs-other n (i + 8) (entry + 1) bytes _ entry (omega (arith, small)) (omega arith)
        ∙ set_iv-same ivs entry _ (omega (arith, small)))
read_ivs_lem (suc n) i entry bytes ivs (suc k) small less =
    let e : entry + suc k ≡ entry + 1 + k = omega arith in
    let s : i + 8 * suc k ≡ i + 8 + 8 * k = omega arith in
    rw (e, s)
      (read_ivs_lem n (i + 8) (entry + 1) bytes _ k (omega (arith, small)) (omega (arith, less)))

AreBytes-drop : (n : ℕ) (m : List ℕ) → AreBytes m → AreBytes (drop n m)
AreBytes-drop zero m h = h
AreBytes-drop (suc n) [] h = tt
AreBytes-drop (suc n) (x ∷ m) h = AreBytes-drop n m h.1

module _ {F : Type 0} (lib : Libav F) (P : DataProvider) (times : Times)
    (decrypter : Option Decrypter) where
  decrypt_with-ok :
      (decrypts : Decrypter) (key_id : Option (List ℕ)) (iv : ℕ) (packet : lib.Packet)
      (output : List ℕ)
      → decrypts (lib.bytes packet) key_id (vector_of iv) ≡ (pos 0, output)
      → length output ≡ length (lib.bytes packet)
      → decrypt_with lib P times decrypter decrypts key_id packet (some iv)
        ≡ ret (lib.with_bytes packet output)
  unfolding decrypt_with vector_of
  decrypt_with-ok decrypts key_id iv packet output ok size =
      let n = length (lib.bytes packet) in
      ap
        (λ (r : ℤ × List ℕ).
          if failed r.0
          then ret packet
          else if ltb (length r.1) n
          then fault
          else ret (lib.with_bytes packet (take n r.1)))
        ok
      ∙ rw (le→ltb (length output) n (omega (arith, size)), take_all n output (omega (arith, size)))
          refl

  -- Where `n` vectors have been read from position `i` of the bytes of a file, for the entries from
  -- `entry` on, the packet of the `k`-th of them is decrypted with the eight bytes that stand in
  -- the file as the `k`-th vector and eight zeros behind them: where the decrypter succeeds on
  -- these with an output of the size of its input, the packet has that output.
  pub decrypt_with-read_ivs :
      (n i entry k : ℕ) (bytes : List ℕ) (ivs : ℕ → Option ℕ) (decrypts : Decrypter)
      (key_id : Option (List ℕ)) (packet : lib.Packet) (output : List ℕ)
      → AreBytes bytes
      → i + 8 * n ≤ length bytes
      → entry + n ≤ 2 ^ 32
      → k < n
      → decrypts (lib.bytes packet) key_id (slice (i + 8 * k) 8 bytes ++ replicate 8 0)
        ≡ (pos 0, output)
      → length output ≡ length (lib.bytes packet)
      → decrypt_with lib P times decrypter decrypts key_id packet
          (read_ivs n i entry bytes ivs (entry + k))
        ≡ ret (lib.with_bytes packet output)
  decrypt_with-read_ivs n i entry k bytes ivs decrypts key_id packet output are inside small less ok
        size =
      let v = slice (i + 8 * k) 8 bytes in
      let eight : length v ≡ 8 =
        length-take 8 (drop (i + 8 * k) bytes)
        ∙ omega (arith, length-drop (i + 8 * k) bytes, inside, less) in
      let is_v : vector_of (read_u64 v) ≡ v ++ replicate 8 0 =
        vector_of-read_u64 v eight (All-take _ 8 _ (AreBytes-drop (i + 8 * k) bytes are)) in
      ap (decrypt_with lib P times decrypter decrypts key_id packet)
        (read_ivs_lem n i entry bytes ivs k small less)
      ∙ decrypt_with-ok decrypts key_id (read_u64 v) packet output
          (ap (decrypts (lib.bytes packet) key_id) is_v ∙ ok) size
