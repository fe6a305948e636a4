-- ===== src/Provider/Http/Tests.antt =====
-- Examples for the HTTP provider: a server with one file.
use nfdecoder.Base.{
  ℕ, ◌+◌, ◌-◌, ◌*◌, ◌≡◌, refl, true, arith, min, some, List, [], ◌∷◌, take, drop, length,
}
use nfdecoder.Base.Int.{negsuc, move}
use nfdecoder.Base.Text.{Text, codes}
use nfdecoder.Base.Event.{done}
use nfdecoder.Provider.{IsStream, seek_cur}
use nfdecoder.Provider.Http.{HttpClient, Http, create, load, parse_size, provider, seek, read}
use nfdecoder.Provider.Http.Cursor.{seek_lem, seek_to, origin}
use nfdecoder.Provider.Http.Whole.{Serves, Loaded, read_lem, http-IsStream}

abbrev content : List ℕ
content = 1 ∷ 2 ∷ 3 ∷ []

abbrev path : Text
path = codes "http://a/b"

abbrev server : HttpClient
server = record {
  Client = Unit;
  head = λ c p. (record { status = 200; content_length = codes "3" }, tt);
  range = λ c p a b. (some (take (b + 1 - a) (drop a content)), tt);
}

abbrev loaded : ℕ → Http server
loaded offset = record { path = path; client = tt; content_length = 3; offset = offset }

serves : Serves server path content
serves = record { answers = λ c a b h k. refl }

abbrev at_two : Http server
at_two = loaded 2

parsed : parse_size (codes "3") ≡ 3
unfolding parse_size
parsed = refl

http-IsStream_example :
    (p : Http server) × (load server (create server path tt) ≡ (done true ∷ [], p))
    × (stream : IsStream (provider server) content) × stream.At p 0
http-IsStream_example = http-IsStream server path content serves tt (omega arith) refl parsed

read_lem_example :
    (q : Http server) × (read server at_two 1 5
      ≡ some (record {
        value = min (1 * 5) (length content - 2);
        bytes = take (1 * 5) (drop 2 content);
        next = q;
      }))
    × Loaded server path content serves q (2 + min (1 * 5) (length content - 2))
read_lem_example =
    read_lem server path content serves at_two 2 1 5
      (record {
        of_path = refl;
        of_length = refl;
        small = omega arith;
        at_offset = refl;
        within = omega arith;
      })
      (omega arith) (omega arith)

seek_lem_example :
    seek server at_two (negsuc 2) seek_cur
    ≡ seek_to server at_two (move (origin server at_two seek_cur) (negsuc 2))
seek_lem_example =
    seek_lem server at_two (negsuc 2) seek_cur
      (record { small = omega arith; within = omega arith }) (omega arith)

-- A server that ignores the range.
abbrev careless : HttpClient
careless = record {
  Client = Unit;
  head = λ c p. (record { status = 200; content_length = codes "3" }, tt);
  range = λ c p a b. (some content, tt);
}

abbrev careless_at_two : Http careless
careless_at_two = record { path = path; client = tt; content_length = 3; offset = 2 }
