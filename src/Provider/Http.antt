-- ===== src/Provider/Http.antt =====
-- source/DataProviderHTTPImplementation.cpp: a file on a server, read by range requests. The mutex
-- makes each call one step; `load` runs its callbacks in order.
mod Cursor
pub mod Whole
mod Tests
use nfdecoder.Base.{
  ℕ, ◌+◌, ◌-◌, ◌*◌, ◌%◌, ◌^◌, ◌==◌, ltb, leb, if◌then◌else◌, Bool, true, false, ◌&&◌, ◌||◌, Option,
  none, some, List, [], ◌∷◌, length,
}
use nfdecoder.Base.Int.{ℤ, pos, negsuc, to_u64, to_i64}
use nfdecoder.Base.Text.{Text, codes}
use nfdecoder.Base.Event.{Event, error, done}
use nfdecoder.Provider.{DataProvider, Reading, Whence, seek_set, seek_cur, seek_end}

-- A response to a HEAD request: its status and the text of its `Content-Length` header.
pub record Head : Type 0 where
  pub status : ℕ
  pub content_length : Text

-- The HTTP client that the provider is given. A range request gives the data of the response,
-- `none` where it has none.
pub record HttpClient : Type 1 where
  pub Client : Type 0
  pub head : Client → Text → Head × Client
  pub range : Client → Text → ℕ → ℕ → Option (List ℕ) × Client

-- `stream >> n` for a `size_t`: white space, a sign, digits. No digits give 0, too large a number
-- the largest `size_t`.
abbrev is_space : ℕ → Bool
is_space c = c == 32 || (leb 9 c && leb c 13)

abbrev is_digit : ℕ → Bool
is_digit c = leb b'0' c && leb c b'9'

abbrev clamp : ℕ → ℕ
clamp n = if ltb n (2 ^ 64) then n else 2 ^ 64 - 1

parse_digits : ℕ → Text → ℕ
parse_digits n [] = n
parse_digits n (c ∷ cs) =
    let rest = parse_digits (n * 10 + (c - b'0')) cs in if is_digit c then rest else n

parse_signed : Text → ℕ
unfolding parse_digits
parse_signed [] = 0
parse_signed (c ∷ cs) =
    if c == b'+'
    then clamp (parse_digits 0 cs)
    else if c == b'-'
    then (2 ^ 64 - clamp (parse_digits 0 cs)) % 2 ^ 64
    else clamp (parse_digits 0 (c ∷ cs))

pub parse_size : Text → ℕ
unfolding parse_signed
parse_size [] = 0
parse_size (c ∷ cs) = let rest = parse_size cs in if is_space c then rest else parse_signed (c ∷ cs)

abbrev pub domain : Text
domain = codes "com.nativeformat.decoder.http"

module _ (http : HttpClient) where
  open http use {Client, head, range}

  pub record Http : Type 0 where
    pub path : Text
    pub client : Client
    pub content_length : ℕ
    pub offset : ℕ

  pub create : Text → Client → Http
  create path client = record { path = path; client = client; content_length = 0; offset = 0 }

  -- The events are the calls of the error callback and of the load callback.
  pub load : Http → List (Event Bool) × Http
  unfolding parse_size
  load p =
      let (response, client') = head p.client p.path in
      if response.status == 200
      then (
        done true ∷ [],
        record p { client = client'; content_length = parse_size response.content_length },
      )
      else (error domain response.status ∷ done false ∷ [], record p { client = client' })

  -- The last byte of the request. A response longer than the buffer overruns it.
  pub last_byte : Http → ℕ → ℕ → ℕ
  last_byte p size nmemb = (p.offset + size * nmemb % 2 ^ 64 + (2 ^ 64 - 1)) % 2 ^ 64

  receive : Http → ℕ → Option (List ℕ) × Client → Option (Reading Http)
  receive p room (none, client') =
      some (record { value = 0; bytes = []; next = record p { client = client' } })
  receive p room (some bytes, client') =
      if leb (length bytes) room
      then some (record {
        value = length bytes;
        bytes = bytes;
        next = record p { client = client'; offset = (p.offset + length bytes) % 2 ^ 64 };
      })
      else none

  pub read : Http → ℕ → ℕ → Option (Reading Http)
  unfolding receive last_byte
  read p size nmemb =
      if leb p.content_length p.offset
      then some (record { value = 0; bytes = []; next = p })
      else receive p (size * nmemb) (range p.client p.path p.offset (last_byte p size nmemb))

  abbrev target : Http → ℤ → Whence → ℕ
  target p offset seek_set = to_u64 offset
  target p offset seek_cur = (p.offset + to_u64 offset) % 2 ^ 64
  target p offset seek_end = (p.content_length + to_u64 offset) % 2 ^ 64

  -- `EOF` is -1.
  pub seek : Http → ℤ → Whence → ℤ × Http
  seek p offset whence =
      if ltb p.content_length (target p offset whence)
      then (negsuc 0, p)
      else (pos 0, record p { offset = target p offset whence })

  pub tell : Http → ℤ
  tell p = to_i64 p.offset

  pub eof : Http → Bool
  eof p = leb p.content_length p.offset

  pub size : Http → ℤ
  size p = to_i64 p.content_length

  abbrev pub provider : DataProvider
  provider = record { State = Http; read = read; seek = seek; tell = tell; eof = eof; size = size }
