-- ===== src/Provider/Http/Cursor.antt =====
-- Seeking in a remote file: which targets are accepted, and what `tell` says then.
use nfdecoder.Base.{
  ◌↔◌, ℕ, ◌*◌, ◌^◌, ◌<◌, ◌≤◌, ◌≡◌, arith, leb, if◌then◌else◌, Option, none, some, List, length,
}
use nfdecoder.Base.Int.{ℤ, pos, negsuc, IsI64, move}
use nfdecoder.Provider.{Whence, seek_set, seek_cur, seek_end}
use nfdecoder.Provider.Http.{HttpClient, Http, seek, read, receive, last_byte}

-- The length is one that `long` can hold, and the offset lies in the file or at its end.
pub record IsValid (http : HttpClient) (p : Http http) : Type 0 where
  pub small : p.content_length < 2 ^ 63
  pub within : p.offset ≤ p.content_length

module _ (http : HttpClient) where
  abbrev pub origin : Http http → Whence → ℕ
  origin p seek_set = 0
  origin p seek_cur = p.offset
  origin p seek_end = p.content_length

  -- The seek as C describes it: to a place from 0 to the length, and nowhere else.
  abbrev pub seek_to : Http http → Option ℕ → ℤ × Http http
  seek_to p none = (negsuc 0, p)
  seek_to p (some q) =
      if leb q p.content_length then (pos 0, record p { offset = q }) else (negsuc 0, p)

  -- On a valid provider and for every `long` offset, the `size_t` arithmetic of `seek` does not
  -- wrap into the file: it accepts exactly the targets from 0 to the length and then stands there;
  -- any other target returns -1 and changes nothing.
  pub seek_lem :
      (p : Http http) (offset : ℤ) (whence : Whence)
      → IsValid http p
      → IsI64 offset
      → seek http p offset whence ≡ seek_to p (move (origin p whence) offset)
  unfolding seek
  seek_lem p (pos n) seek_set v h = ground arith
  seek_lem p (pos n) seek_cur v h = ground arith
  seek_lem p (pos n) seek_end v h = ground arith
  seek_lem p (negsuc n) seek_set v h = ground arith
  seek_lem p (negsuc n) seek_cur v h = ground arith
  seek_lem p (negsuc n) seek_end v h = ground arith

  pub seek-IsValid :
      (p : Http http) (offset : ℤ) (whence : Whence)
      → IsValid http p
      → IsValid http (seek http p offset whence).1
  unfolding seek
  seek-IsValid p offset seek_set v = ground arith
  seek-IsValid p offset seek_cur v = ground arith
  seek-IsValid p offset seek_end v = ground arith

  -- Inside the file, when the response has data, a read is undefined behaviour exactly when the
  -- server sends more bytes than the buffer has room for: the code copies them all.
  pub read_overrun :
      (p : Http http) (n k : ℕ) (bytes : List ℕ)
      → p.offset < p.content_length
      → (http.range p.client p.path p.offset (last_byte http p n k)).0 ≡ some bytes
      → (read http p n k ≡ none) ↔ (n * k < length bytes)
  unfolding read receive
  read_overrun p n k bytes inside answer = ground (arith, answer)
