-- ===== src/Provider/File/Whole.antt =====
-- Over C streams that behave as documented, a loaded file is a cursor in the file's bytes.
use native.Mathlib.Nat.{mul_comm}
use nfdecoder.Base.{
  ℕ, ◌+◌, ◌-◌, ◌*◌, ◌/◌, ◌≤◌, ◌<◌, ◌≡◌, ◌^◌, refl, arith, Bool, true, false, some, List, [], ◌∷◌,
  length, take, drop,
}
use nfdecoder.Base.Int.{pos}
use nfdecoder.Base.Text.{Text}
use nfdecoder.Base.Event.{done}
use nfdecoder.Provider.{Reading, IsStream, seek_set, seek_cur, seek_end}
use nfdecoder.Provider.File.{Stdio, File, load, read, seek, tell, eof, size, provider}

-- What the C standard says of a binary stream on a regular file of the bytes `content`. `Stands h p
-- e`: the position of `h` is `p`, and `e` is its end-of-file indicator.
pub record IsRegular (stdio : Stdio) (path : Text) (content : List ℕ) : Type 1 where
  pub Stands : stdio.Handle → ℕ → Bool → Type 0
  pub small : length content < 2 ^ 63
  pub opens : (h : stdio.Handle) × (stdio.fopen path ≡ some h) × Stands h 0 false
  -- A request that the rest of the file can meet is met, and the indicator stays as it was.
  pub reads :
      (h : stdio.Handle) (p n k : ℕ) (e : Bool)
      → Stands h p e
      → 0 < n
      → 0 < k
      → p + n * k ≤ length content
      → (g : stdio.Handle) × (stdio.fread h n k ≡ (k, take (n * k) (drop p content), g))
        × Stands g (p + n * k) e
  -- Of a request that it cannot meet, the items that are left as a whole are counted, and the end
  -- is met.
  pub shorts :
      (h : stdio.Handle) (p n k : ℕ) (e : Bool)
      → Stands h p e
      → 0 < n
      → 0 < k
      → length content < p + n * k
      → (bytes : List ℕ) × (g : stdio.Handle) × (q : ℕ) × (stdio.fread h n k
          ≡ ((length content - p) / n, bytes, g))
        × Stands g q true
  -- A successful seek clears the indicator; it may go past the end.
  pub sets :
      (h : stdio.Handle) (p q : ℕ) (e : Bool)
      → Stands h p e
      → q < 2 ^ 63
      → Stands (stdio.fseek h (pos q) seek_set).1 q false
  pub moves :
      (h : stdio.Handle) (p n : ℕ) (e : Bool)
      → Stands h p e
      → p + n < 2 ^ 63
      → Stands (stdio.fseek h (pos n) seek_cur).1 (p + n) false
  pub ends :
      (h : stdio.Handle) (p : ℕ) (e : Bool)
      → Stands h p e
      → Stands (stdio.fseek h (pos 0) seek_end).1 (length content) false
  pub tells : (h : stdio.Handle) (p : ℕ) (e : Bool) → Stands h p e → stdio.ftell h ≡ pos p
  pub indicates : (h : stdio.Handle) (p : ℕ) (e : Bool) → Stands h p e → stdio.feof h ≡ e

module _ (stdio : Stdio) (path : Text) (content : List ℕ) (c : IsRegular stdio path content) where
  -- The provider's stream stands at a place of the file, with no end met.
  pub record At (f : File stdio) (p : ℕ) : Type 0 where
    pub stands : c.Stands f.handle p false
    pub within : p ≤ length content

  -- Loading an existing file reports success once, takes its length, and leaves the stream at its
  -- first byte.
  pub load_file :
      (f : File stdio) × (load stdio path ≡ (done true ∷ [], some f))
      × (size stdio f ≡ pos (length content))
      × At f 0
  unfolding load size
  load_file = (
    f,
    rw (c.opens.1, load),
    c.tells at_end (length content) false c_end,
    record {
      stands = c.sets at_end (length content) 0 false c_end (omega arith);
      within = omega arith;
    },
  )
    where
      handle : stdio.Handle
      handle = c.opens.0

      at_end : stdio.Handle
      at_end = (stdio.fseek handle (pos 0) seek_end).1

      c_end : c.Stands at_end (length content) false
      c_end = c.ends handle 0 false c.opens.2

      f : File stdio
      f = record {
        path = path;
        handle = (stdio.fseek at_end (pos 0) seek_set).1;
        length_in_bytes = stdio.ftell at_end;
      }

  pub reads_whole :
      (s : File stdio) (p n k : ℕ)
      → At s p
      → 0 < n
      → 0 < k
      → p + n * k ≤ length content
      → (t : File stdio) × (read stdio s n k
          ≡ some (record { value = n * k; bytes = take (n * k) (drop p content); next = t }))
        × At t (p + n * k)
  unfolding read
  reads_whole s p n k l hn hk h =
      let (g, answer, stands) = c.reads s.handle p n k false l.stands hn hk h in
      (record s { handle = g }, rw (answer, mul_comm k n), record { stands = stands; within = h })

  -- A read of one item that is longer than what is left.
  pub read_short :
      (s : File stdio) (p n : ℕ)
      → At s p
      → 0 < n
      → length content < p + n * 1
      → (r : Reading (File stdio)) × (read stdio s n 1 ≡ some r)
        × (r.value ≡ (length content - p) / n * n)
        × (eof stdio r.next ≡ true)
  unfolding read eof
  read_short s p n a more short =
      let (bytes, g, q, e, stands) =
        c.shorts s.handle p n 1 false a.stands more (omega arith) short in
      (
        record {
          value = (length content - p) / n * n;
          bytes = bytes;
          next = record s { handle = g };
        },
        rw e refl,
        refl,
        c.indicates g q true stands,
      )

  -- The fields of the stream interface.
  unfoldable pub file_stream : IsStream (provider stdio) content
  unfolding seek tell eof
  file_stream = record {
    At = At;
    small = c.small;
    reads = reads_whole;
    seeks = λ s p q l h. record {
      stands = c.sets s.handle p q false l.stands (omega (arith, c.small));
      within = h;
    };
    skips = λ s p n l h. record {
      stands = c.moves s.handle p n false l.stands (omega (arith, c.small));
      within = h;
    };
    tells = λ s p l. c.tells s.handle p false l.stands;
    goes_on = λ s p l h. c.indicates s.handle p false l.stands;
  }

  -- Over streams that behave as C prescribes, loading an existing file reports success once, and
  -- from then on the provider is a cursor in the content of the file, which stands at its first
  -- byte.
  pub file-IsStream :
      (f : File stdio) × (load stdio path ≡ (done true ∷ [], some f))
      × (stream : IsStream (provider stdio) content) × stream.At f 0
  unfolding file_stream
  file-IsStream = let (f, loaded, _, stands) = load_file in (f, loaded, file_stream, stands)

  -- The stream's cursor is the provider's.
  pub file-At : (f : File stdio) (p : ℕ) → At f p → IsStream.At file_stream f p
  unfolding file_stream
  file-At f p a = a
