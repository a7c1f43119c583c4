-- ===== src/Storage/Package.antt =====
-- storage/src/archives/package.rs: a package file, a header and then entries. The file is the list of
-- its bytes; its path, the lock of its writers and failures of the disk are left out.
pub mod Entries
pub mod Examples
use ton_labs_node.Base.{
  ℕ, zero, suc, ◌+◌, ◌-◌, ◌*◌, ◌^◌, ◌<◌, ◌≤◌, ◌≡◌, refl, sym, ap, ◌∙◌, subst, Bool, true, false,
  not, List, [], ◌∷◌, ◌++◌, append_assoc, append-nil, length, length-append, replicate, take, drop,
  ltb, leb, ◌==◌, if◌then◌else◌, Option, none, some, u64, Outcome, done, panic, assert, ◌>>◌, All,
  Bool-cases, inl, inr, arith,
}
use ton_labs_node.Storage.Bytes.{
  Error, package_too_short, header_mismatch, end_of_package, not_writable, Result, ok, err, ◌>>=◌,
  le_bytes, read_le, read_exact, length-le_bytes, read_le-le_bytes,
}
use ton_labs_node.Storage.PackageEntry.{
  PackageEntry, read_from, write_to, pkg_entry_header_size, IsEntry, read_from-write_to,
}

-- `PKG_HEADER_SIZE` and `PKG_HEADER_MAGIC`
abbrev pub pkg_header_size : ℕ
pkg_header_size = 4

abbrev pub pkg_header_magic : ℕ
pkg_header_magic = 0xAE8F_DD01

pub record Package : Type 0 where
  pub read_only : Bool
  pub size_of : ℕ
  pub file : List ℕ

unfoldable pub read_header : List ℕ → Result (List ℕ)
unfolding read_le
read_header reader = read_le pkg_header_size reader >>= λ r.
    if r.0 == pkg_header_magic then ok r.1 else err header_mismatch

-- A file that is too short is begun anew, when that is asked for.
open_package : List ℕ → Bool → Bool → Result Package
unfolding read_header le_bytes
open_package file read_only create =
    if ltb (length file) pkg_header_size
    then (if create
        then ok (record {
          read_only = read_only;
          size_of = pkg_header_size;
          file = le_bytes pkg_header_size pkg_header_magic;
        })
        else err package_too_short)
    else (read_header file >>= λ _.
        ok (record { read_only = read_only; size_of = length file; file = file }))

unfoldable pub size : Package → ℕ
size pkg = pkg.size_of - pkg_header_size

-- The size is stored before the file is opened, without write access when the package is read only:
-- `set_len` fails then. Else it fills up with zeros.
truncate : Package → ℕ → Package × Result (Unit {0})
truncate pkg new_size =
    let total = u64 (pkg_header_size + new_size) in
    let stored = record pkg { size_of = total } in
    if pkg.read_only then (stored, err not_writable) else (
      record stored { file = take total pkg.file ++ replicate (total - length pkg.file) 0 },
      ok tt,
    )

-- The entry that has been read, if the package has not ended.
unfoldable pub found_entry : Option (PackageEntry × List ℕ) → Result PackageEntry
found_entry none = err end_of_package
found_entry (some (entry, rest)) = ok entry

unfoldable pub read_entry : Package → ℕ → Result PackageEntry
unfolding size read_from found_entry
read_entry pkg offset =
    if leb (size pkg) (u64 (offset + pkg_entry_header_size))
    then err end_of_package
    else (read_from (drop (pkg_header_size + offset) pkg.file) >>= found_entry)

-- The package after an append, and the result. A package that is read only is opened without write
-- access, so that the write fails; else `after_append` is called with two offsets once the entry has
-- been written, and its result is that of the append.
unfoldable pub append_entry :
    Package → PackageEntry → (ℕ → ℕ → Result (Unit {0})) → Outcome (Package × Result (Unit {0}))
unfolding size write_to
append_entry pkg entry after_append =
    let offset = size pkg in
    let (bytes, entry_size) = write_to entry in
    let written = record pkg {
      size_of = u64 (pkg.size_of + entry_size);
      file = pkg.file ++ bytes;
    } in
    assert (leb (length entry.filename) 65535)
    >> (assert (leb (length entry.entry_data) 4294967295)
        >> done (
            if pkg.read_only
            then (pkg, err not_writable)
            else (written, after_append offset (u64 (offset + entry_size)))))

-- `PackageReader::next`, until there is no entry. Nothing is returned when the fuel runs out.
unfoldable pub read_entries : ℕ → List ℕ → Result (Option (List PackageEntry))
unfolding read_from
read_entries zero reader = ok none
read_entries (suc fuel) reader = read_from reader >>= λ next. elim next [
  | none ↦ ok (some [])
  | some (entry, rest) ↦
      (read_entries fuel rest >>= λ entries.
      ok (elim entries [ none ↦ none | some es ↦ some (entry ∷ es) ]))
]

-- `read_package_from`
unfoldable pub read_package_from : ℕ → List ℕ → Result (Option (List PackageEntry))
unfolding read_header read_entries
read_package_from fuel reader = read_header reader >>= read_entries fuel
