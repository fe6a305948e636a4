-- ===== src/Provider/File.antt =====
-- source/DataProviderFileImplementation.cpp: a local file through C streams, which are a parameter.
pub mod Whole
pub mod Disk
mod Tests
use nfdecoder.Base.{
  ℕ, ◌+◌, ◌-◌, ◌*◌, ◌≤◌, ◌<◌, ◌≡◌, ◌/◌, Bool, true, false, Option, none, some, List, [], ◌∷◌,
  length, take, drop, min, ◌++◌,
}
use nfdecoder.Base.Int.{ℤ, pos, negsuc}
use nfdecoder.Base.Text.{Text, codes}
use nfdecoder.Base.Event.{Event, error, done}
use nfdecoder.Provider.{DataProvider, Reading, Whence, seek_set, seek_cur, seek_end}

-- The functions of <cstdio> that the provider calls. `fread` gives the number of whole items, the
-- bytes that it puts into the buffer, and the stream after it.
pub record Stdio : Type 1 where
  pub Handle : Type 0
  pub fopen : Text → Option Handle
  pub fread : Handle → ℕ → ℕ → ℕ × List ℕ × Handle
  pub fseek : Handle → ℤ → Whence → ℤ × Handle
  pub ftell : Handle → ℤ
  pub feof : Handle → Bool

abbrev pub domain : Text
domain = codes "com.nativeformat.decoder.file"

-- `ErrorCodeCouldNotReadFile`
abbrev pub could_not_read_file : ℕ
could_not_read_file = 0

module _ (stdio : Stdio) where
  open stdio use {Handle, fopen, fread, fseek, ftell, feof}

  -- The provider once `load` has opened its file.
  pub record File : Type 0 where
    pub path : Text
    pub handle : Handle
    pub length_in_bytes : ℤ

  opened : Text → Option Handle → List (Event Bool) × Option File
  opened path none = (error domain could_not_read_file ∷ done false ∷ [], none)
  opened path (some handle) =
      let at_end = (fseek handle (pos 0) seek_end).1 in
      (
        done true ∷ [],
        some (record {
          path = path;
          handle = (fseek at_end (pos 0) seek_set).1;
          length_in_bytes = ftell at_end;
        }),
      )

  -- The calls of the callbacks, and the provider if the file could be opened.
  pub load : Text → List (Event Bool) × Option File
  unfolding opened
  load path = opened path (fopen path)

  pub read : File → ℕ → ℕ → Option (Reading File)
  read f size nmemb =
      let (data_read, bytes, handle') = fread f.handle size nmemb in
      some
        (record { value = data_read * size; bytes = bytes; next = record f { handle = handle' } })

  pub seek : File → ℤ → Whence → ℤ × File
  seek f offset whence =
      let (status, handle') = fseek f.handle offset whence in
      (status, record f { handle = handle' })

  pub tell : File → ℤ
  tell f = ftell f.handle

  pub eof : File → Bool
  eof f = feof f.handle

  pub size : File → ℤ
  size f = f.length_in_bytes

  abbrev pub provider : DataProvider
  provider = record { State = File; read = read; seek = seek; tell = tell; eof = eof; size = size }
