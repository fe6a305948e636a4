-- ===== src/Avcodec/Search.antt =====
-- source/DecoderAVCodecImplementation.cpp: the boxes of an MPEG-4 file that avio_read looks for in
-- what it reads, for a decrypter: the index (sidx), the key (tenc), and in each fragment (moof) the
-- initialisation vectors (senc).
use nfdecoder.Base.{
  ℕ, zero, suc, ◌+◌, ◌-◌, ◌*◌, ◌%◌, ◌^◌, ◌==◌, ltb, leb, if◌then◌else◌, Bool, true, ◌&&◌, Option,
  none, some, List, [], ◌∷◌, ◌++◌, take, drop, length, replicate, get_elem?, get_or, ◌/◌,
}
use nfdecoder.Base.Bytes.{fill, u16_at, u32_at, u32_bytes}
use nfdecoder.Base.Run.{Run, ret, fault, unfinished, or_fault, ◌>>=◌}
use nfdecoder.Base.Text.{Text, codes, text_eq}
use nfdecoder.Provider.{DataProvider}
use nfdecoder.Avcodec.Endians.{swap_endians}

pub record SidxFrame : Type 0 where
  pub junk : ℕ
  pub subsegment_duration : ℕ
  pub referenced_size : ℕ

pub record Moofs : Type 0 where
  pub offset : ℕ
  pub sidx_frames : List SidxFrame

-- An `int`, by its 32-bit pattern, converted to `size_t`.
abbrev pub widened : ℕ → ℕ
widened n = if ltb n (2 ^ 31) then n else n + (2 ^ 64 - 2 ^ 32)

-- The rest of the loop of `moofIndex`; `start` is the pattern of `start_offset`, and `none` is
-- `INVALID_MOOF_INDEX`.
unfoldable pub moof_from : ℕ → ℕ → ℕ → List SidxFrame → Option ℕ
moof_from byte_offset start i [] = none
moof_from byte_offset start i (sidx ∷ frames) =
    let end_offset = (start + sidx.referenced_size) % 2 ^ 32 in
    let rest = moof_from byte_offset end_offset (i + 1) frames in
    if leb (widened start) byte_offset && ltb byte_offset end_offset then some i else rest

unfoldable pub moof_index : Moofs → ℕ → Option ℕ
unfolding moof_from
moof_index moofs byte_offset = moof_from byte_offset (moofs.offset % 2 ^ 32) 0 moofs.sidx_frames

-- The numbers that stand in a file with the first byte the highest.
unfoldable pub read_u16 : List ℕ → ℕ
unfolding swap_endians
read_u16 bytes = u16_at 0 (swap_endians bytes)

unfoldable pub read_u32 : List ℕ → ℕ
unfolding swap_endians
read_u32 bytes = u32_at 0 (swap_endians bytes)

unfoldable pub read_u64 : List ℕ → ℕ
unfolding swap_endians
read_u64 bytes = u32_at 0 (swap_endians bytes) + u32_at 4 (swap_endians bytes) * 2 ^ 32

-- An entry of the index: the 12 bytes are turned around as a whole, in place.
unfoldable pub sidx_frame : List ℕ → SidxFrame
unfolding swap_endians
sidx_frame bytes = record {
  junk = u32_at 0 (swap_endians bytes);
  subsegment_duration = u32_at 4 (swap_endians bytes);
  referenced_size = u32_at 8 (swap_endians bytes);
}

-- The vector of a packet: the bytes of a number, turned around, and as many zeros.
unfoldable pub vector_of : ℕ → List ℕ
vector_of iv = reversed 8 ++ replicate 8 0
  where
    reversed : ℕ → List ℕ
    reversed zero = []
    reversed (suc i) = get_or (u32_bytes (iv % 2 ^ 32) ++ u32_bytes (iv / 2 ^ 32)) i 0 ∷ reversed i

abbrev pub slice : ℕ → ℕ → List ℕ → List ℕ
slice i n bytes = take n (drop i bytes)

-- `memcmp` with the four bytes of a box's name.
abbrev pub is_at : Text → ℕ → List ℕ → Bool
is_at name i bytes = text_eq (slice i 4 bytes) name

-- The members of the decoder that the search writes. A key of the map is the pattern of an `int`.
pub record Boxes : Type 0 where
  pub found_sidx : Bool
  pub key_id : Option (List ℕ)
  pub ivs : ℕ → Option ℕ
  pub moofs : Moofs
  pub packets_per_moof : ℕ

-- `_ivs[key] = iv`
abbrev pub set_iv : (ℕ → Option ℕ) → ℕ → ℕ → ℕ → Option ℕ
set_iv ivs key iv k = if k == key % 2 ^ 32 then some iv else ivs k

-- The entries of the index from `i` on: the bytes with each of them turned around, and the frames.
unfoldable pub read_frames : ℕ → ℕ → List ℕ → List SidxFrame → List ℕ × List SidxFrame
unfolding swap_endians sidx_frame
read_frames zero i bytes frames = (bytes, frames)
read_frames (suc n) i bytes frames =
    let block = slice i 12 bytes in
    read_frames n (i + 12) (take i bytes ++ swap_endians block ++ drop (i + 12) bytes)
      (frames ++ sidx_frame block ∷ [])

-- The vectors that stand from `i` on, for the entries from `entry` on.
unfoldable pub read_ivs : ℕ → ℕ → ℕ → List ℕ → (ℕ → Option ℕ) → ℕ → Option ℕ
unfolding read_u64
read_ivs zero i entry bytes ivs = ivs
read_ivs (suc n) i entry bytes ivs =
    read_ivs n (i + 8) (entry + 1) bytes (set_iv ivs entry (read_u64 (slice i 8 bytes)))

module _ (P : DataProvider) where
  -- What the search works on: the bytes so far, the provider, and the members.
  pub record Scan : Type 0 where
    pub bytes : List ℕ
    pub provider : P.State
    pub boxes : Boxes

  -- `ensure_data_required`: the missing bytes are read as one item.
  unfoldable pub ensure_data_required : ℕ → ℕ → Scan → Run Scan
  ensure_data_required data_to_read offset s =
      let missing = data_to_read + offset - length s.bytes in
      let grown = or_fault (P.read s.provider missing 1) >>= λ r.
      ret (record s { bytes = s.bytes ++ fill (replicate missing 0) r.bytes; provider = r.next }) in
      if leb (data_to_read + offset) (length s.bytes) then ret s else grown

  -- The index, whose name is at `i`. The number of its entries is read behind the bytes that are
  -- there for certain. The entries are read through a pointer from before the bytes grew, which is
  -- undefined where they did.
  unfoldable pub take_sidx : ℕ → Scan → Run Scan
  unfolding ensure_data_required read_u16 read_frames
  take_sidx i s = ensure_data_required 26 i s >>= λ s1.
      let moof_count = read_u16 (slice (26 + i) 2 s1.bytes) in
      let entries = ensure_data_required (moof_count * 12) (i + 28) s1 >>= λ s2.
      let (bytes, frames) = read_frames moof_count (i + 28) s2.bytes s2.boxes.moofs.sidx_frames in
      let moofs : Moofs = record { offset = 28 + moof_count * 12; sidx_frames = frames } in
      if ltb 0 moof_count && ltb (length s.bytes) (length s2.bytes)
      then fault
      else ret (record s2 {
        bytes = bytes;
        boxes = record s2.boxes { moofs = moofs; found_sidx = true };
      }) in
      if ltb (length s1.bytes) (i + 28) then fault else entries

  -- The key, whose box has its name at `i`.
  unfoldable pub take_tenc : ℕ → Scan → Run Scan
  unfolding ensure_data_required
  take_tenc i s = ensure_data_required 28 i s >>= λ s1.
      ret (record s1 { boxes = record s1.boxes { key_id = some (slice (i + 12) 16 s1.bytes) } })

  unfoldable pub search_index : ℕ → Scan → Run Scan
  unfolding take_sidx take_tenc text_eq
  search_index i s =
      if is_at (codes "sidx") i s.bytes
      then take_sidx i s
      else if is_at (codes "tenc") i s.bytes
      then take_tenc i s
      else ret s

  -- A loop over the positions from `i` on that have four bytes and one more behind them, one round
  -- for each unit of fuel. With less than four bytes the bound wraps around, and `memcmp` reads
  -- past the end.
  unfoldable pub search : (ℕ → Scan → Run Scan) → ℕ → ℕ → Scan → Run Scan
  search look zero i s =
      if ltb (length s.bytes) 4
      then fault
      else if ltb i (length s.bytes - 4)
      then unfinished
      else ret s
  search look (suc fuel) i s =
      let rest = look i s >>= search look fuel (i + 1) in
      if ltb (length s.bytes) 4 then fault else if ltb i (length s.bytes - 4) then rest else ret s

  -- The search for the trun box, `n` rounds from the position `p` on. All that comes of it is that
  -- the bytes grow.
  unfoldable pub search_trun : ℕ → ℕ → Scan → Run Scan
  unfolding ensure_data_required text_eq
  search_trun zero p s = ret s
  search_trun (suc n) p s = ensure_data_required p 4 s >>= λ s1.
      (if is_at (codes "trun") p s1.bytes then ensure_data_required 12 p s1 else ret s1)
      >>= search_trun n (p + 1)

  -- The vectors of a senc box with its name at `p`, for the entries from `entry` on.
  unfoldable pub take_senc : ℕ → ℕ → Scan → Run Scan
  unfolding ensure_data_required read_u32 read_ivs
  take_senc entry p s = ensure_data_required 12 p s >>= λ s1.
      let count = read_u32 (slice (p + 8) 4 s1.bytes) in
      ensure_data_required (12 + 8 * count) p s1 >>= λ s2. ret (record s2 {
        boxes = record s2.boxes { ivs = read_ivs count (p + 12) entry s2.bytes s2.boxes.ivs };
      })

  unfoldable pub search_senc : ℕ → ℕ → ℕ → Scan → Run Scan
  unfolding take_senc text_eq
  search_senc entry zero p s = ret s
  search_senc entry (suc n) p s =
      (if is_at (codes "senc") p s.bytes then take_senc entry p s else ret s)
      >>= search_senc entry n (p + 1)

  -- A fragment with its name at `i`. `start` is where the bytes stand in the file. The size of a
  -- fragment that is in none of the entries is undefined, and so is the count of the rounds where
  -- its size is less than four.
  unfoldable pub take_moof : ℕ → ℕ → Scan → Run Scan
  unfolding moof_index ensure_data_required search_trun search_senc
  take_moof start i s = or_fault (moof_index s.boxes.moofs ((start + i) % 2 ^ 64)) >>= λ index.
      or_fault (get_elem? s.boxes.moofs.sidx_frames index) >>= λ frame.
      let size = frame.referenced_size in
      let found = ensure_data_required size i s >>= λ s1.
      search_trun (size - 4) i s1 >>= search_senc (index * s.boxes.packets_per_moof) (size - 4) i in
      if ltb size 4 then fault else found

  unfoldable pub search_moof : ℕ → ℕ → Scan → Run Scan
  unfolding take_moof text_eq
  search_moof start i s = if is_at (codes "moof") i s.bytes then take_moof start i s else ret s

  -- Both searches, through the bytes that stand at `start` in the file.
  unfoldable pub search_boxes : ℕ → ℕ → Scan → Run Scan
  unfolding search search_index search_moof
  search_boxes fuel start s =
      (if s.boxes.found_sidx then ret s else search search_index fuel 0 s) >>= λ s1.
      if s1.boxes.found_sidx then search (search_moof start) fuel 0 s1 else ret s1
