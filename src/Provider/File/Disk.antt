-- ===== src/Provider/File/Disk.antt =====
-- C streams on one regular file, as a function: what the examples of this library run on.
use nfdecoder.Base.{
  ℕ, ap, ◌+◌, ◌-◌, ◌*◌, ◌/◌, ◌^◌, ◌<◌, ◌≤◌, ◌≡◌, refl, arith, leb, le→leb, lt→leb, if◌then◌else◌,
  Bool, true, false, Option, none, some, List, take, drop, length,
}
use nfdecoder.Base.Int.{ℤ, pos, negsuc, move}
use nfdecoder.Base.Text.{Text}
use nfdecoder.Provider.{Whence, seek_set, seek_cur, seek_end}
use nfdecoder.Provider.File.{Stdio}
use nfdecoder.Provider.File.Whole.{IsRegular}

module _ (content : List ℕ) where
  -- A position, and the end-of-file indicator.
  abbrev pub Handle : Type 0
  Handle = ℕ × Bool

  abbrev pub fread : Handle → ℕ → ℕ → ℕ × List ℕ × Handle
  fread (p, e) n k =
      if leb (p + n * k) (length content)
      then (k, take (n * k) (drop p content), (p + n * k, e))
      else ((length content - p) / n, drop p content, (length content, true))

  abbrev origin : ℕ → Whence → ℕ
  origin p seek_set = 0
  origin p seek_cur = p
  origin p seek_end = length content

  abbrev go_to : Handle → Option ℕ → ℤ × Handle
  go_to h none = (negsuc 0, h)
  go_to h (some q) = (pos 0, (q, false))

  abbrev pub disk : Stdio
  disk = record {
    Handle = Handle;
    fopen = λ path. some (0, false);
    fread = fread;
    fseek = λ h offset whence. go_to h (move (origin h.0 whence) offset);
    ftell = λ h. pos h.0;
    feof = λ h. h.1;
  }

  fread_lem :
      (h : Handle) (p n k : ℕ) (e : Bool)
      → (h ≡ (p, e))
      → p + n * k ≤ length content
      → fread h n k ≡ (k, take (n * k) (drop p content), (p + n * k, e))
  fread_lem h p n k e s l = rw (s, le→leb (p + n * k) (length content) l) refl

  fread_short :
      (h : Handle) (p n k : ℕ) (e : Bool)
      → (h ≡ (p, e))
      → length content < p + n * k
      → fread h n k ≡ ((length content - p) / n, drop p content, (length content, true))
  fread_short h p n k e s l = rw (s, lt→leb (length content) (p + n * k) l) refl

  from_zero : (q : ℕ) → 0 + q ≡ q
  from_zero q = omega arith

  to_zero : (q : ℕ) → q + 0 ≡ q
  to_zero q = omega arith

  pub disk-IsRegular : (path : Text) → length content < 2 ^ 63 → IsRegular disk path content
  disk-IsRegular path small = record {
    Stands = λ h p e. h ≡ (p, e);
    small = small;
    opens = ((0, false), refl, refl);
    reads = λ h p n k e s hn hk l. ((p + n * k, e), fread_lem h p n k e s l, refl);
    shorts = λ h p n k e s hn hk l.
        (drop p content, (length content, true), length content, fread_short h p n k e s l, refl);
    sets = λ h p q e s l. ap (λ n. (n, false)) (from_zero q);
    moves = λ h p n e s l. rw s refl;
    ends = λ h p e s. ap (λ n. (n, false)) (to_zero (length content));
    tells = λ h p e s. rw s refl;
    indicates = λ h p e s. rw s refl;
  }

  pub disk-Stands :
      (path : Text) (small : length content < 2 ^ 63) (p : ℕ)
      → IsRegular.Stands (disk-IsRegular path small) (p, false) p false
  unfolding disk-IsRegular
  disk-Stands path small p = refl
