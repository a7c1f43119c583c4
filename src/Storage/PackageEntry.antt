-- ===== src/Storage/PackageEntry.antt =====
-- storage/src/archives/package_entry.rs: an entry of an archive, its header, and how it is read and
-- written. A `String` is the list of its bytes in UTF-8.
use ton_labs_node.Base.{
  ℕ, zero, suc, ◌+◌, ◌%◌, ◌<◌, ◌≡◌, refl, sym, ap, ◌∙◌, subst, Bool, true, false, ◌&&◌, List, [],
  ◌∷◌, ◌++◌, append_assoc, append-nil, length, length-append, ltb, leb, ◌==◌, if◌then◌else◌, Option,
  none, some, u32, u64, arith,
}
use ton_labs_node.Storage.Bytes.{
  unexpected_eof, bad_magic, invalid_utf8, Result, ok, err, ◌>>=◌, le_bytes, read_exact, read_le,
  length-le_bytes, read_exact-append, read_le-le_bytes,
}

-- `PKG_ENTRY_HEADER_SIZE` and `PKG_ENTRY_HEADER_MAGIC`
abbrev pub pkg_entry_header_size : ℕ
pkg_entry_header_size = 8

abbrev pkg_entry_header_magic : ℕ
pkg_entry_header_magic = 0x1E8B

pub record PackageEntryHeader : Type 0 where
  pub filename_size : ℕ
  pub data_size : ℕ

pub record PackageEntry : Type 0 where
  pub filename : List ℕ
  pub entry_data : List ℕ

unfoldable pub calc_entry_size : PackageEntryHeader → ℕ
calc_entry_size header = u64 (pkg_entry_header_size + header.filename_size + header.data_size)

unfoldable pub serialize : PackageEntryHeader → List ℕ
serialize header =
    le_bytes 2 pkg_entry_header_magic
    ++ le_bytes 2 header.filename_size
    ++ le_bytes 4 header.data_size

unfoldable pub deserialize : List ℕ → Result (PackageEntryHeader × List ℕ)
unfolding read_le
deserialize reader = do
  (magic, reader1) ← read_le 2 reader
  if magic == pkg_entry_header_magic
      then (do
        (filename_size, reader2) ← read_le 2 reader1
        (data_size, reader3) ← read_le 4 reader2
        ok (record { filename_size = filename_size; data_size = data_size }, reader3))
      else err bad_magic

-- What the first byte of a character says of the bytes that follow it: how many they are, and the
-- bounds of the next one.
lead : ℕ → Option (ℕ × ℕ × ℕ)
lead b =
    if ltb b 128
    then some (0, 128, 191)
    else if ltb b 194
    then none
    else if ltb b 224
    then some (1, 128, 191)
    else if b == 224
    then some (2, 160, 191)
    else if b == 237
    then some (2, 128, 159)
    else if ltb b 240
    then some (2, 128, 191)
    else if b == 240
    then some (3, 144, 191)
    else if ltb b 244
    then some (3, 128, 191)
    else if b == 244
    then some (3, 128, 143)
    else none

-- `String::from_utf8`
unfoldable pub utf8_from : ℕ → ℕ → ℕ → List ℕ → Bool
unfolding lead
utf8_from zero low high [] = true
utf8_from (suc n) low high [] = false
utf8_from zero low high (b ∷ bytes) = elim (lead b) [
  | none ↦ false
  | some (n, l, h) ↦ utf8_from n l h bytes
]
utf8_from (suc n) low high (b ∷ bytes) =
    let rest = utf8_from n 128 191 bytes in leb low b && leb b high && rest

abbrev pub is_utf8 : List ℕ → Bool
is_utf8 bytes = utf8_from 0 128 191 bytes

-- The rest of an entry after its header.
unfoldable pub read_body : PackageEntryHeader → List ℕ → Result (PackageEntry × List ℕ)
unfolding utf8_from
read_body header reader = do
  (filename, reader1) ← read_exact header.filename_size reader
  if is_utf8 filename
      then (do
        (entry_data, reader2) ← read_exact header.data_size reader1
        ok (record { filename = filename; entry_data = entry_data }, reader2))
      else err invalid_utf8

-- After the bytes of the header: too few of them are the end of the package.
unfoldable pub entry_of : Result (List ℕ × List ℕ) → Result (Option (PackageEntry × List ℕ))
unfolding read_body deserialize
entry_of (err unexpected_eof) = ok none
entry_of (err error) = err error
entry_of (ok (buf, reader)) = do
  header ← deserialize buf
  entry ← read_body header.0 reader
  ok (some entry)

unfoldable pub read_from : List ℕ → Result (Option (PackageEntry × List ℕ))
unfolding entry_of
read_from reader = entry_of (read_exact pkg_entry_header_size reader)

abbrev pub header_of : PackageEntry → PackageEntryHeader
header_of entry = record {
  filename_size = length entry.filename % 65536;
  data_size = u32 (length entry.entry_data);
}

-- What `write_to` writes, and the size that it returns.
unfoldable pub write_to : PackageEntry → List ℕ × ℕ
unfolding serialize calc_entry_size
write_to entry = (
  serialize (header_of entry) ++ entry.filename ++ entry.entry_data,
  calc_entry_size (header_of entry),
)

-- The lengths of an entry fit its header, and its name is a string.
pub record IsEntry (entry : PackageEntry) : Type 0 where
  pub name_fits : length entry.filename < 65536
  pub data_fits : length entry.entry_data < 4294967296
  pub name_valid : is_utf8 entry.filename ≡ true

pub length-serialize : (header : PackageEntryHeader) → length (serialize header) ≡ 8
unfolding serialize
length-serialize header =
    let magic = le_bytes 2 pkg_entry_header_magic in
    let name = le_bytes 2 header.filename_size in
    let size = le_bytes 4 header.data_size in
    omega (
      arith,
      length-append (magic ++ name) size,
      length-append magic name,
      length-le_bytes 2 pkg_entry_header_magic,
      length-le_bytes 2 header.filename_size,
      length-le_bytes 4 header.data_size,
    )

deserialize-serialize :
    (header : PackageEntryHeader)
    → header.filename_size < 65536
    → header.data_size < 4294967296
    → deserialize (serialize header) ≡ ok (header, [])
unfolding deserialize serialize
deserialize-serialize header hn hd =
    let magic = le_bytes 2 pkg_entry_header_magic in
    let name = le_bytes 2 header.filename_size in
    let size = le_bytes 4 header.data_size in
    let q = append-nil size in
    let last = ap (read_le 4) (sym q) ∙ read_le-le_bytes 4 header.data_size [] (omega arith) in
    rw
      (
        append_assoc magic name size,
        read_le-le_bytes 2 pkg_entry_header_magic (name ++ size) (omega arith),
        read_le-le_bytes 2 header.filename_size size (omega arith),
        last,
      )
      refl

pub read_from-write_to :
    (entry : PackageEntry) (rest : List ℕ)
    → IsEntry entry
    → read_from ((write_to entry).0 ++ rest) ≡ ok (some (entry, rest))
unfolding read_from write_to entry_of read_body
read_from-write_to entry rest valid =
    let header = serialize (header_of entry) in
    let small : length entry.filename % 65536 ≡ length entry.filename =
      omega (arith, valid.name_fits) in
    let fits : length entry.entry_data % 4294967296 ≡ length entry.entry_data =
      omega (arith, valid.data_fits) in
    let split : header ++ entry.filename ++ entry.entry_data ++ rest
        ≡ header ++ (entry.filename ++ (entry.entry_data ++ rest)) =
      ap (λ x. x ++ rest) (append_assoc header entry.filename entry.entry_data)
      ∙ append_assoc header (entry.filename ++ entry.entry_data) rest
      ∙ ap (λ x. header ++ x) (append_assoc entry.filename entry.entry_data rest) in
    let body = entry.filename ++ (entry.entry_data ++ rest) in
    let e : read_exact 8 (header ++ body) ≡ ok (header, body) =
      subst (λ k. read_exact k (header ++ body) ≡ ok (header, body))
        (length-serialize (header_of entry)) (read_exact-append header body) in
    let d = deserialize-serialize (header_of entry) (omega arith) (omega arith) in
    rw
      (
        split,
        e,
        d,
        small,
        read_exact-append entry.filename (entry.entry_data ++ rest),
        valid.name_valid,
        fits,
        read_exact-append entry.entry_data rest,
      )
      refl
