-- ===== src/Provider/Http/Whole.antt =====
-- Against a server that answers range requests, the provider is a stream of the file's bytes.
use native.Mathlib.Decide.{dec_lt}
use nfdecoder.Base.{
  ℕ, ◌+◌, ◌-◌, ◌*◌, ◌%◌, ◌^◌, ◌<◌, ◌≤◌, ◌≡◌, refl, arith, true, false, Option, some, List, [], ◌∷◌,
  length, take, drop, length-take, length-drop, drop_all, min, le→leb, lt→leb, take-nil, ◌∙◌,
}
use nfdecoder.Base.Int.{pos}
use nfdecoder.Base.Text.{Text}
use nfdecoder.Provider.{IsStream, seek_set, seek_cur}
use nfdecoder.Base.Event.{done}
use nfdecoder.Provider.Http.{
  HttpClient, Http, create, load, parse_size, seek, tell, read, eof, receive, last_byte, provider,
}

-- RFC 7233: the answer to a range that begins in the file is the part of the file in the range.
pub record Serves (http : HttpClient) (path : Text) (content : List ℕ) : Type 0 where
  pub answers :
      (c : http.Client) (a b : ℕ)
      → a ≤ b
      → a < length content
      → (http.range c path a b).0 ≡ some (take (b + 1 - a) (drop a content))

module _ (http : HttpClient) (path : Text) (content : List ℕ)
    (server : Serves http path content) where
  -- The provider after `load`, at an offset in the file.
  pub record Loaded (p : Http http) (offset : ℕ) : Type 0 where
    pub of_path : p.path ≡ path
    pub of_length : p.content_length ≡ length content
    pub small : length content < 2 ^ 63
    pub at_offset : p.offset ≡ offset
    pub within : offset ≤ length content

  receive_lem :
      (p : Http http) (room : ℕ) (r : Option (List ℕ) × http.Client) (bytes : List ℕ)
      → r.0 ≡ some bytes
      → length bytes ≤ room
      → receive http p room r
        ≡ some (record {
          value = length bytes;
          bytes = bytes;
          next = record p { client = r.1; offset = (p.offset + length bytes) % 2 ^ 64 };
        })
  unfolding receive
  receive_lem p room (o, c) bytes e h = rw (e, receive) (rw (le→leb _ _ h))

  -- The request names exactly the bytes that the buffer has room for.
  last_byte_lem :
      (p : Http http) (offset n k : ℕ)
      → Loaded p offset
      → 0 < n * k
      → n * k < 2 ^ 63
      → last_byte http p n k + 1 ≡ offset + n * k
  unfolding last_byte
  last_byte_lem p offset n k l some_bytes fits = omega arith

  reply :
      (p : Http http) (offset n k : ℕ)
      → Loaded p offset
      → 0 < n * k
      → n * k < 2 ^ 63
      → offset < length content
      → (http.range p.client p.path p.offset (last_byte http p n k)).0
        ≡ some (take (n * k) (drop offset content))
  reply p offset n k l some_bytes fits inside = cc (l.of_path, l.at_offset, answer, count)
    where
      asked : last_byte http p n k + 1 ≡ offset + n * k
      asked = last_byte_lem p offset n k l some_bytes fits

      answer :
          (http.range p.client path offset (last_byte http p n k)).0
          ≡ some (take (last_byte http p n k + 1 - offset) (drop offset content))
      answer = server.answers p.client offset (last_byte http p n k) (omega (arith, asked)) inside

      count : last_byte http p n k + 1 - offset ≡ n * k
      count = omega (arith, asked)

  length-next :
      (offset m : ℕ) → length (take m (drop offset content)) ≡ min m (length content - offset)
  length-next offset m =
      omega (arith, length-take m (drop offset content), length-drop offset content)

  read_inside :
      (p : Http http) (offset n k : ℕ)
      → Loaded p offset
      → 0 < n * k
      → n * k < 2 ^ 63
      → offset < length content
      → read http p n k
        ≡ some (record {
          value = min (n * k) (length content - offset);
          bytes = take (n * k) (drop offset content);
          next = record p {
            client = (http.range p.client p.path p.offset (last_byte http p n k)).1;
            offset = offset + min (n * k) (length content - offset);
          };
        })
  unfolding read
  read_inside p offset n k l some_bytes fits inside =
      rw (lt→leb p.offset p.content_length (omega arith)) (
        receive_lem p (n * k) (http.range p.client p.path p.offset (last_byte http p n k)) _
          (reply p offset n k l some_bytes fits inside) (omega (arith, length-next offset (n * k)))
        ∙ cc (length-next offset (n * k), moved))
    where
      moved :
          (p.offset + length (take (n * k) (drop offset content))) % 2 ^ 64
          ≡ offset + min (n * k) (length content - offset)
      moved = omega (arith, length-next offset (n * k))

  -- A read of at least one byte, in the file or at its end, delivers the next bytes of the file, as
  -- many as were asked for or are left, returns their number and moves the offset past them; it
  -- never overruns the buffer.
  pub read_lem :
      (p : Http http) (offset n k : ℕ)
      → Loaded p offset
      → 0 < n * k
      → n * k < 2 ^ 63
      → (q : Http http) × (read http p n k
          ≡ some (record {
            value = min (n * k) (length content - offset);
            bytes = take (n * k) (drop offset content);
            next = q;
          }))
        × Loaded q (offset + min (n * k) (length content - offset))
  unfolding read
  read_lem p offset n k l some_bytes fits = elim (dec_lt offset (length content)) [
    | yes inside ↦ (
      record p {
        client = (http.range p.client p.path p.offset (last_byte http p n k)).1;
        offset = offset + min (n * k) (length content - offset);
      },
      read_inside p offset n k l some_bytes fits inside,
      record {
        of_path = l.of_path;
        of_length = l.of_length;
        small = l.small;
        at_offset = refl;
        within = omega arith;
      },
    )
    | no outside ↦ (
      p,
      ground (arith, nothing outside),
      record {
        of_path = l.of_path;
        of_length = l.of_length;
        small = l.small;
        at_offset = omega arith;
        within = omega arith;
      },
    )
  ]
    where
      nothing : (offset < length content → ⊥) → take (n * k) (drop offset content) ≡ []
      nothing h = rw (drop_all offset content (omega arith)) (take-nil ℕ (n * k))

  -- The fields of the stream interface.
  module _ (s : Http http) (p : ℕ) (l : Loaded s p) where
    reads_whole :
        (n k : ℕ)
        → 0 < n
        → 0 < k
        → p + n * k ≤ length content
        → (t : Http http) × (read http s n k
            ≡ some (record { value = n * k; bytes = take (n * k) (drop p content); next = t }))
          × Loaded t (p + n * k)
    reads_whole n k hn hk h = rw whole at (read_lem s p n k l some_bytes (omega (arith, l.small)))
      where
        some_bytes : 0 < n * k
        some_bytes = grind arith

        whole : min (n * k) (length content - p) ≡ n * k
        whole = omega arith

    seeks_to : (q : ℕ) → q ≤ length content → Loaded (seek http s (pos q) seek_set).1 q
    unfolding seek
    seeks_to q h = ground arith

    skips_by : (n : ℕ) → p + n ≤ length content → Loaded (seek http s (pos n) seek_cur).1 (p + n)
    unfolding seek
    skips_by n h = ground arith

    tells_offset : tell http s ≡ pos p
    unfolding tell
    tells_offset = ground arith

    goes_on_inside : p < length content → eof http s ≡ false
    unfolding eof
    goes_on_inside h = ground arith

  unfoldable http_stream : length content < 2 ^ 63 → IsStream (provider http) content
  http_stream fits = record {
    At = Loaded;
    small = fits;
    reads = λ s p n k l hn hk h. reads_whole s p l n k hn hk h;
    seeks = λ s p q l h. seeks_to s p l q h;
    skips = λ s p n l h. skips_by s p l n h;
    tells = tells_offset;
    goes_on = goes_on_inside;
  }

  -- Against a server that answers the HEAD request with the length of the file and range requests
  -- from the file, `load` reports success once, and from then on the provider is a cursor in the
  -- content of the file, which stands at its first byte.
  pub http-IsStream :
      (c : http.Client)
      → length content < 2 ^ 63
      → (http.head c path).0.status ≡ 200
      → parse_size (http.head c path).0.content_length ≡ length content
      → (p : Http http) × (load http (create http path c) ≡ (done true ∷ [], p))
        × (stream : IsStream (provider http) content) × stream.At p 0
  unfolding load create http_stream
  http-IsStream c fits ok counted = (
    record {
      path = path;
      client = (http.head c path).1;
      content_length = parse_size (http.head c path).0.content_length;
      offset = 0;
    },
    rw ok refl,
    http_stream fits,
    record {
      of_path = refl;
      of_length = counted;
      small = fits;
      at_offset = refl;
      within = omega arith;
    },
  )
