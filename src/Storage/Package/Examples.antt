-- ===== src/Storage/Package/Examples.antt =====
-- A package of two entries, for the tests (package.rs).
use ton_labs_node.Base.{ℕ, ◌≡◌, refl, true, false, [], ◌∷◌, length, some, done, arith}
use ton_labs_node.Storage.Bytes.{Result, ok, err, not_writable, le_bytes}
use ton_labs_node.Storage.PackageEntry.{PackageEntry, IsEntry, utf8_from, write_to, serialize}
use ton_labs_node.Storage.Package.{Package, size, append_entry, read_entry, read_package_from}
use ton_labs_node.Storage.Package.Entries.{
  Represents, entries_bytes, append_entry-Represents, read_entry-Represents,
  read_package_from-Represents,
}

abbrev first : PackageEntry
first = record { filename = 98 ∷ 49 ∷ []; entry_data = 1 ∷ 2 ∷ 3 ∷ [] }

-- A name of two characters, the second of two bytes.
abbrev second : PackageEntry
second = record { filename = 98 ∷ 195 ∷ 169 ∷ []; entry_data = [] }

first-IsEntry : IsEntry first
first-IsEntry = record {
  name_fits = omega arith;
  data_fits = omega arith;
  name_valid = unfold utf8_from in refl;
}

second-IsEntry : IsEntry second
second-IsEntry = record {
  name_fits = omega arith;
  data_fits = omega arith;
  name_valid = unfold utf8_from in refl;
}

abbrev pkg : Package
pkg = record {
  read_only = false;
  size_of = 17;
  file = 1 ∷ 221 ∷ 143 ∷ 174 ∷ 139 ∷ 30 ∷ 2 ∷ 0 ∷ 3 ∷ 0 ∷ 0 ∷ 0 ∷ 98 ∷ 49 ∷ 1 ∷ 2 ∷ 3 ∷ [];
}

pkg-Represents : Represents pkg (first ∷ [])
unfolding write_to serialize le_bytes
pkg-Represents = record { bytes = refl; sized = refl; valid = (first-IsEntry, tt) }

-- A callback that accepts every offset.
abbrev accepts : ℕ → ℕ → Result (Unit {0})
accepts offset end = ok tt

append_entry-Represents_example :
    (new : Package) × (append_entry pkg second accepts
      ≡ done (new, accepts (length (entries_bytes (first ∷ []))) (size new)))
    × Represents new (first ∷ second ∷ [])
append_entry-Represents_example =
    append_entry-Represents pkg (first ∷ []) second pkg-Represents second-IsEntry (omega arith)
      accepts

abbrev both : Package
both =
    (append_entry-Represents pkg (first ∷ []) second pkg-Represents second-IsEntry (omega arith)
      accepts).0

both-Represents : Represents both (first ∷ second ∷ [])
both-Represents =
    (append_entry-Represents pkg (first ∷ []) second pkg-Represents second-IsEntry (omega arith)
      accepts).2

-- A package that is read only stays as it is.
read_only_refuses :
    append_entry (record pkg { read_only = true }) second accepts
    ≡ done (record pkg { read_only = true }, err not_writable)
unfolding append_entry
read_only_refuses = refl

read_entry-Represents_example : read_entry pkg 0 ≡ ok first
read_entry-Represents_example =
    read_entry-Represents pkg [] [] first pkg-Represents (omega arith) (omega arith)

read_package_from-Represents_example :
    read_package_from 3 both.file ≡ ok (some (first ∷ second ∷ []))
read_package_from-Represents_example =
    read_package_from-Represents both (first ∷ second ∷ []) both-Represents 3 (omega arith)
