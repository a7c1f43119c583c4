-- ===== src/Storage/Package/Entries.antt =====
-- A package as the list of its entries (package.rs).
use ton_labs_node.Base.{
  subst, if◌then◌else◌, Bool-cases, inl, inr, ℕ, zero, suc, ◌+◌, ◌-◌, ◌<◌, ◌≡◌, refl, sym, ap, ◌∙◌,
  true, false, List, [], ◌∷◌, ◌++◌, append_assoc, append-nil, length, length-append, drop, leb,
  some, u64, done, All, arith,
}
use ton_labs_node.Storage.Bytes.{
  ok, le_bytes, length-le_bytes, read_le-le_bytes, read_exact, Result, err, not_writable,
}
use ton_labs_node.Storage.PackageEntry.{
  PackageEntry, read_from, write_to, entry_of, serialize, calc_entry_size, header_of, IsEntry,
  read_from-write_to, length-serialize,
}
use ton_labs_node.Storage.Package.{
  Package, size, read_header, read_entry, found_entry, append_entry, read_entries,
  read_package_from, pkg_header_magic, pkg_header_size,
}

-- The bytes of entries, one after another.
abbrev pub entries_bytes : List PackageEntry → List ℕ
entries_bytes [] = []
entries_bytes (entry ∷ entries) = (write_to entry).0 ++ entries_bytes entries

-- The package has these entries, all of which fit their headers.
pub record Represents (pkg : Package) (entries : List PackageEntry) : Type 0 where
  pub bytes : pkg.file ≡ le_bytes pkg_header_size pkg_header_magic ++ entries_bytes entries
  pub sized : pkg.size_of ≡ length pkg.file
  pub valid : All IsEntry entries

length-write_to :
    (entry : PackageEntry)
    → length (write_to entry).0 ≡ 8 + length entry.filename + length entry.entry_data
unfolding write_to
length-write_to entry =
    let header = serialize (header_of entry) in
    omega (
      arith,
      length-append (header ++ entry.filename) entry.entry_data,
      length-append header entry.filename,
      length-serialize (header_of entry),
    )

size-write_to :
    (entry : PackageEntry) → IsEntry entry → (write_to entry).1 ≡ length (write_to entry).0
unfolding write_to calc_entry_size
size-write_to entry valid =
    let l = length-write_to entry in omega (arith, valid.name_fits, valid.data_fits, l)

entries_bytes-append :
    (entries : List PackageEntry) (entry : PackageEntry)
    → entries_bytes (entries ++ entry ∷ []) ≡ entries_bytes entries ++ (write_to entry).0
entries_bytes-append [] entry = append-nil (write_to entry).0
entries_bytes-append (e ∷ entries) entry =
    ap (λ x. (write_to e).0 ++ x) (entries_bytes-append entries entry)
    ∙ sym (append_assoc (write_to e).0 (entries_bytes entries) (write_to entry).0)

All-append :
    (entries : List PackageEntry) (entry : PackageEntry)
    → All IsEntry entries
    → IsEntry entry
    → All IsEntry (entries ++ entry ∷ [])
All-append [] entry h v = (v, tt)
All-append (e ∷ entries) entry h v = (h.0, All-append entries entry h.1 v)

All-middle :
    (before after : List PackageEntry) (entry : PackageEntry)
    → All IsEntry (before ++ entry ∷ after)
    → IsEntry entry
All-middle [] after entry h = h.0
All-middle (e ∷ before) after entry h = All-middle before after entry h.1

entries_bytes-split :
    (before after : List PackageEntry) (entry : PackageEntry)
    → entries_bytes (before ++ entry ∷ after)
      ≡ entries_bytes before ++ ((write_to entry).0 ++ entries_bytes after)
entries_bytes-split [] after entry = refl
entries_bytes-split (e ∷ before) after entry =
    ap (λ x. (write_to e).0 ++ x) (entries_bytes-split before after entry)
    ∙ sym (
        append_assoc (write_to e).0 (entries_bytes before)
          ((write_to entry).0 ++ entries_bytes after))

no_entry : (fuel : ℕ) → read_entries (suc fuel) [] ≡ ok (some [])
unfolding read_entries read_from entry_of read_exact
no_entry fuel = refl

read_entries-entries_bytes :
    (entries : List PackageEntry)
    → All IsEntry entries
    → (fuel : ℕ) → length entries < fuel
    → read_entries fuel (entries_bytes entries) ≡ ok (some entries)
unfolding read_entries
read_entries-entries_bytes entries h zero l = absurd (omega arith)
read_entries-entries_bytes [] h (suc fuel) l = no_entry fuel
read_entries-entries_bytes (e ∷ entries) h (suc fuel) l =
    rw
      (
        read_from-write_to e (entries_bytes entries) h.0,
        read_entries-entries_bytes entries h.1 fuel (omega arith),
      )
      refl

drop-append : {A : Type 0} (xs ys : List A) → drop (length xs) (xs ++ ys) ≡ ys
drop-append [] ys = refl
drop-append (x ∷ xs) ys = drop-append xs ys

module _ (pkg : Package) where
  length_file :
      (entries : List PackageEntry)
      → Represents pkg entries
      → pkg.size_of ≡ 4 + length (entries_bytes entries)
  length_file entries h =
      let header = le_bytes pkg_header_size pkg_header_magic in
      h.sized
      ∙ ap length h.bytes
      ∙ omega (
        arith,
        length-append header (entries_bytes entries),
        length-le_bytes pkg_header_size pkg_header_magic,
      )

  -- To a package that holds some entries an entry is appended whose lengths fit its header, whose
  -- name is valid UTF-8, and with which the size of the file stays below 2^64. The append does not
  -- panic, the package then holds those entries and the new one at the end, and the two offsets
  -- that the callback is given are the length of the earlier entries and the new size of the
  -- package.
  module _ (entries : List PackageEntry) (entry : PackageEntry) (h : Represents pkg entries)
      (valid : IsEntry entry)
      (fits : pkg.size_of + 8 + length entry.filename + length entry.entry_data
        < 18446744073709551616) where
    -- The package with the entry written at its end.
    abbrev written : Package
    written = record pkg {
      size_of = u64 (pkg.size_of + (write_to entry).1);
      file = pkg.file ++ (write_to entry).0;
    }

    written-Represents : Represents written (entries ++ entry ∷ [])
    written-Represents =
        let s = size-write_to entry valid in
        let l = length-write_to entry in
        let header = le_bytes pkg_header_size pkg_header_magic in
        record {
          bytes =
              ap (λ x. x ++ (write_to entry).0) h.bytes
              ∙ append_assoc header (entries_bytes entries) (write_to entry).0
              ∙ ap (λ x. header ++ x) (sym (entries_bytes-append entries entry));
          sized = omega (arith, length-append pkg.file (write_to entry).0, h.sized);
          valid = All-append entries entry h.valid valid;
        }

    -- An entry is appended, with any callback, to a package that holds some entries, where the
    -- entry's lengths fit its header, its name is valid UTF-8, and the size of the file with it
    -- stays below 2^64. The append does not panic. If the package is read only, the result is an
    -- error and the package holds the entries that it held. Else it holds those and the new one at
    -- the end, and the result is that of the callback on two offsets, the length of the earlier
    -- entries and the new size of the package.
    pub append_entry-Represents :
        (after_append : ℕ → ℕ → Result (Unit {0}))
        → (new : Package) × (append_entry pkg entry after_append
            ≡ done (
              new,
              if pkg.read_only
                  then err not_writable
                  else after_append (length (entries_bytes entries)) (size new),
            ))
          × Represents new (if pkg.read_only then entries else entries ++ entry ∷ [])
    unfolding append_entry size
    append_entry-Represents after_append =
        let s = size-write_to entry valid in
        let l = length-write_to entry in
        let n = length_file entries h in
        let fits_name : leb (length entry.filename) 65535 ≡ true =
          ground (arith, valid.name_fits) in
        let fits_data : leb (length entry.entry_data) 4294967295 ≡ true =
          ground (arith, valid.data_fits) in
        let offset : pkg.size_of - 4 ≡ length (entries_bytes entries) = omega arith in
        let end : u64 (length (entries_bytes entries) + (write_to entry).1)
            ≡ u64 (pkg.size_of + (write_to entry).1) - 4 =
          omega arith in
        elim (Bool-cases pkg.read_only) [
          | inl t ↦ (
            pkg,
            rw (fits_name, fits_data, t) refl,
            subst (λ b. Represents pkg (if b then entries else entries ++ entry ∷ [])) (sym t) h,
          )
          | inr t ↦ (
            written,
            rw (fits_name, fits_data, t) (rw (offset, end) refl),
            subst (λ b. Represents written (if b then entries else entries ++ entry ∷ [])) (sym t)
                written-Represents,
          )
        ]

  -- The reading of a package of less than 2^64 bytes at the offset of an entry, the length of the
  -- entries before it, returns that entry, when its name or its data has a byte.
  pub read_entry-Represents :
      (before after : List PackageEntry) (entry : PackageEntry)
      → Represents pkg (before ++ entry ∷ after)
      → 0 < length entry.filename + length entry.entry_data
      → pkg.size_of < 18446744073709551616
      → read_entry pkg (length (entries_bytes before)) ≡ ok entry
  unfolding read_entry size
  read_entry-Represents before after entry h some_byte fits =
      let header = le_bytes pkg_header_size pkg_header_magic in
      let prefix = header ++ entries_bytes before in
      let later = entries_bytes after in
      let start : 4 + length (entries_bytes before) ≡ length prefix = omega (
        arith,
        length-append header (entries_bytes before),
        length-le_bytes pkg_header_size pkg_header_magic,
      ) in
      let split : pkg.file ≡ prefix ++ ((write_to entry).0 ++ later) =
        h.bytes
        ∙ ap (λ x. header ++ x) (entries_bytes-split before after entry)
        ∙ sym (append_assoc header (entries_bytes before) ((write_to entry).0 ++ later)) in
      let total = h.sized ∙ ap length split in
      let more : leb (pkg.size_of - 4) (u64 (length (entries_bytes before) + 8)) ≡ false = ground (
        arith,
        length-append prefix ((write_to entry).0 ++ later),
        length-append (write_to entry).0 later,
        length-write_to entry,
      ) in
      let rest : drop (4 + length (entries_bytes before)) pkg.file ≡ (write_to entry).0 ++ later =
        ap (λ k. drop k pkg.file) start
        ∙ ap (λ x. drop (length prefix) x) split
        ∙ drop-append prefix ((write_to entry).0 ++ later) in
      let valid = All-middle before after entry h.valid in
      rw more (rw rest (rw (read_from-write_to entry later valid) (unfold found_entry in refl)))

  -- The reading of a package from its first byte returns the entries that it holds, in order, when
  -- the fuel exceeds their number.
  pub read_package_from-Represents :
      (entries : List PackageEntry)
      → Represents pkg entries
      → (fuel : ℕ) → length entries < fuel
      → read_package_from fuel pkg.file ≡ ok (some entries)
  unfolding read_package_from read_header
  read_package_from-Represents entries h fuel enough =
      rw
        (
          h.bytes,
          read_le-le_bytes pkg_header_size pkg_header_magic (entries_bytes entries) (omega arith),
          read_entries-entries_bytes entries h.valid fuel enough,
        )
        refl
