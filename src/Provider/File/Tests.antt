-- ===== src/Provider/File/Tests.antt =====
-- Examples for the file provider.
use nfdecoder.Base.{ℕ, ◌≡◌, true, some, List, [], ◌∷◌, arith}
use nfdecoder.Base.Text.{codes}
use nfdecoder.Base.Event.{done}
use nfdecoder.Provider.{IsStream}
use nfdecoder.Provider.File.{File, load, provider}
use nfdecoder.Provider.File.Whole.{file-IsStream}
use nfdecoder.Provider.File.Disk.{disk, disk-IsRegular}

abbrev content : List ℕ
content = 1 ∷ 2 ∷ 3 ∷ []

file-IsStream_example :
    (f : File (disk content)) × (load (disk content) (codes "a.wav") ≡ (done true ∷ [], some f))
    × (stream : IsStream (provider (disk content)) content) × stream.At f 0
file-IsStream_example =
    file-IsStream (disk content) (codes "a.wav") content
      (disk-IsRegular content (codes "a.wav") (omega arith))
