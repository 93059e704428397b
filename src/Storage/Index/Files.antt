-- ===== src/Storage/Index/Files.antt =====
-- The pages of an index file, as it grows and as its first page is written at the end.
use eve_db.Base.{
  ℕ, ◌+◌, ◌-◌, ◌*◌, ◌^◌, ◌≤◌, ◌<◌, ◌≡◌, refl, sym, ap, ◌∙◌, ◌++◌, [], ◌∷◌, length, take, drop,
  length-append, arith, ok, ltb, leb, true, false, ◌==◌,
}
use eve_db.Codec.LittleEndian.{Bytes, to_le_bytes, length-to_le_bytes}
use eve_db.Codec.Parses.{drop-length_append}
use eve_db.Checksum.{crc32c}
use eve_db.Storage.Frame.{read_exact}
use eve_db.Storage.Page.{page_size, splice}
use eve_db.Storage.Page.Checksums.{length-splice}
use eve_db.Storage.Pager.{read_page}
use eve_db.Storage.Index.{seal, decode, lsn}
use eve_db.Storage.Index.Splices.{slice_before, slice-splice, drop-splice}
use eve_db.Storage.Index.Reader.{node}
use eve_db.Storage.Index.Reaches.{Holds}

pub length-seal : (P : Bytes) → length P ≡ page_size → length (seal P) ≡ page_size
unfolding seal
length-seal P h =
    length-splice 28 (to_le_bytes 4 (crc32c P)) P
      (omega (arith, h, length-to_le_bytes 4 (crc32c P)))
    ∙ h

-- A page that lies in the file is read.
node_of_bytes :
    (file : Bytes) (id sequence : ℕ) (S P : Bytes)
    → id * page_size < 2 ^ 64
    → id * page_size + page_size ≤ length file
    → take page_size (drop (id * page_size) file) ≡ S
    → decode id S ≡ ok P
    → lsn P ≡ sequence
    → node file id sequence ≡ ok P
unfolding node read_page read_exact
node_of_bytes file id sequence S P small fits e d l =
    let a : leb (2 ^ 64) (id * page_size) ≡ false = ground (arith, small) in
    let b : ltb (length file - id * page_size) page_size ≡ false = ground (arith, fits) in
    let c : (lsn P == sequence) ≡ true = ground (arith, l) in rw (a, b, e, d, c) refl

-- What a read that succeeds has met.
record Readable (file : Bytes) (id sequence : ℕ) (P : Bytes) : Type 0 where
  small : id * page_size < 2 ^ 64
  fits : id * page_size + page_size ≤ length file
  decoded : decode id (take page_size (drop (id * page_size) file)) ≡ ok P
  stamped : lsn P ≡ sequence

node-Readable :
    (file : Bytes) (id sequence : ℕ) (P : Bytes)
    → node file id sequence ≡ ok P
    → Readable file id sequence P
unfolding node read_page read_exact
node-Readable file id sequence P h = record {
  small = ground (arith, h);
  fits = ground (arith, h);
  decoded = ground (arith, h);
  stamped = ground (arith, h);
}

node-eq :
    (file other : Bytes) (id sequence : ℕ) (P : Bytes)
    → node file id sequence ≡ ok P
    → length file ≤ length other
    → (id * page_size + page_size ≤ length file
        → take page_size (drop (id * page_size) other)
          ≡ take page_size (drop (id * page_size) file))
    → node other id sequence ≡ ok P
node-eq file other id sequence P h longer same =
    let r = node-Readable file id sequence P h in
    node_of_bytes other id sequence _ P r.small (omega (arith, r.fits, longer)) (same r.fits)
      r.decoded r.stamped

take_all : (xs : Bytes) → take (length xs) xs ≡ xs
take_all [] = refl
take_all (x ∷ xs) = ap (◌∷◌ x) (take_all xs)

pub Holds-append :
    (file more : Bytes) (base sequence id : ℕ) (P : Bytes)
    → Holds file base sequence id P
    → Holds (file ++ more) base sequence id P
Holds-append file more base sequence id P h = record {
  past = h.past;
  reads =
      node-eq file (file ++ more) id sequence P h.reads (omega (arith, length-append file more))
        (λ fits.
          ap (λ x. take page_size (drop (id * page_size) (x ++ more))) (sym (take_all file))
          ∙ slice_before (id * page_size) page_size (length file) file more fits (omega arith));
}

pub Holds-splice :
    (file S : Bytes) (base sequence id : ℕ) (P : Bytes)
    → length S ≡ page_size
    → (base + 1) * page_size ≤ length file
    → Holds file base sequence id P
    → Holds (splice (base * page_size) S file) base sequence id P
Holds-splice file S base sequence id P s fits h = record {
  past = h.past;
  reads =
      node-eq file (splice (base * page_size) S file) id sequence P h.reads
        (omega (arith, length-splice (base * page_size) S file (omega (arith, s, fits))))
        (λ _. ap (take page_size) (
          drop-splice (id * page_size) (base * page_size) S file (omega (arith, fits))
            (omega (arith, s, h.past))));
}

-- The page that is written at the end of a file of `id` pages.
pub Holds-last :
    (file : Bytes) (base sequence id : ℕ) (P : Bytes)
    → length file ≡ id * page_size
    → length P ≡ page_size
    → base < id
    → id * page_size < 2 ^ 64
    → decode id (seal P) ≡ ok P
    → lsn P ≡ sequence
    → Holds (file ++ seal P) base sequence id P
Holds-last file base sequence id P whole p past small d l = record {
  past = past;
  reads =
      node_of_bytes (file ++ seal P) id sequence (seal P) P small
        (omega (arith, length-append file (seal P), whole, length-seal P p))
        (ap (λ n. take page_size (drop n (file ++ seal P))) (sym whole)
          ∙ ap (take page_size) (drop-length_append file (seal P))
          ∙ ap (λ n. take n (seal P)) (sym (length-seal P p))
          ∙ take_all (seal P))
        d l;
}

pub node-splice :
    (file : Bytes) (base sequence : ℕ) (P : Bytes)
    → length P ≡ page_size
    → (base + 1) * page_size ≤ length file
    → base * page_size < 2 ^ 64
    → decode base (seal P) ≡ ok P
    → lsn P ≡ sequence
    → node (splice (base * page_size) (seal P) file) base sequence ≡ ok P
node-splice file base sequence P p fits small d l =
    let s = length-seal P p in
    node_of_bytes (splice (base * page_size) (seal P) file) base sequence (seal P) P small
      (omega (arith, length-splice (base * page_size) (seal P) file (omega (arith, s, fits)), fits))
      (ap (λ n. take n (drop (base * page_size) (splice (base * page_size) (seal P) file))) (sym s)
        ∙ slice-splice (base * page_size) (seal P) file (omega (arith, fits)))
      d l

pub Holds-small :
    (file : Bytes) (base sequence id : ℕ) (P : Bytes)
    → Holds file base sequence id P
    → id * page_size < 2 ^ 64
Holds-small file base sequence id P h = (node-Readable file id sequence P h.reads).small
