-- ===== src/Ext2/Search.antt =====
-- The searches against the list of entries.
use xdk.Prelude.{
  ℕ, ◌+◌, ◌-◌, ◌^◌, ◌<◌, ◌≡◌, ◌∙◌, refl, arith, Bool, true, false, ◌&&◌, List, [], ◌∷◌, Option,
  none, some, if◌then◌else◌, ◌==◌, ltb, Bool-cases, inl, inr,
}
use xdk.Ext2.{u32}
use xdk.BlockCache.{u64}
use xdk.Ext2.Directory.{
  DirectoryEntry, Located, asserted, panics, reads_past, same_name, directory_inode,
  find_local_directory, locate_file, locate_entry, file_inode, is_indexed, Volume,
}

-- The bytes of the entries.
abbrev pub entry_bytes : List DirectoryEntry → ℕ
entry_bytes [] = 0
entry_bytes (e ∷ es) = e.record_length + entry_bytes es

abbrev pub AllLong : List DirectoryEntry → Type 0
AllLong [] = Unit
AllLong (e ∷ es) = (0 < e.record_length) × AllLong es

-- The first entry that passes a test.
abbrev pub first_entry : (DirectoryEntry → Bool) → List DirectoryEntry → Option DirectoryEntry
first_entry test [] = none
first_entry test (e ∷ es) = if test e then some e else first_entry test es

abbrev pub file_found : Volume → Option DirectoryEntry → Located
file_found volume none = panics
file_found volume (some e) = file_inode volume e.inode

abbrev pub directory_found : Volume → List DirectoryEntry → Option DirectoryEntry → Located
directory_found volume [] none = panics
directory_found volume (e ∷ es) none = reads_past
directory_found volume es (some e) = directory_inode volume e

locate_entry-found :
    (volume : Volume) (filename : List ℕ) (s : ℕ) (es : List DirectoryEntry)
    → AllLong es
    → s ≡ entry_bytes es
    → s < 2 ^ 32
    → locate_entry volume filename s es
      ≡ file_found volume (first_entry (λ e. ltb 0 e.inode && same_name e.name filename) es)
unfolding locate_entry
locate_entry-found volume filename s [] long e small = rw e refl
locate_entry-found volume filename s (d ∷ es) (pos, long) e small =
    let z : (s == 0) ≡ false = ground arith in
    let next : u32 (s + (2 ^ 32 - d.record_length)) ≡ entry_bytes es = omega (arith, e) in
    let rest =
      locate_entry-found volume filename (u32 (s + (2 ^ 32 - d.record_length))) es long next
        (omega (arith, next, e)) in
    rw (z, locate_entry)
      (elim (Bool-cases (ltb 0 d.inode && same_name d.name filename)) [
        | inl t ↦ rw t refl
        | inr t ↦ rw t rest
      ])

same_end :
    (volume : Volume) (a b : DirectoryEntry) (xs ys : List DirectoryEntry)
    (o : Option DirectoryEntry)
    → directory_found volume (a ∷ xs) o ≡ directory_found volume (b ∷ ys) o
same_end volume a b xs ys none = refl
same_end volume a b xs ys (some e) = refl

-- What is left of the size is that of the entries from the current one on, with the length of the first
-- entry in place of that of the current one.
find_local_directory-found :
    (volume : Volume) (dirname : List ℕ) (size : ℕ) (d : DirectoryEntry) (es : List DirectoryEntry)
    → entry_bytes es < size
    → size < 2 ^ 64
    → find_local_directory volume dirname size (d ∷ es)
      ≡ directory_found volume (d ∷ es) (first_entry (λ e. same_name dirname e.name) (d ∷ es))
unfolding find_local_directory
find_local_directory-found volume dirname size d [] lt small =
    let z : (size == 0) ≡ false = ground arith in
    rw (z, find_local_directory)
      (elim (Bool-cases (same_name dirname d.name)) [ inl t ↦ rw t refl | inr t ↦ rw t refl ])
find_local_directory-found volume dirname size d (d' ∷ es) lt small =
    let z : (size == 0) ≡ false = ground arith in
    let n : ℕ = u64 (size + (2 ^ 64 - d'.record_length)) in
    let left : n ≡ size - d'.record_length = omega (arith, lt) in
    let rest =
      find_local_directory-found volume dirname n d' es (omega (arith, lt)) (omega (arith, left)) in
    rw (z, find_local_directory)
      (elim (Bool-cases (same_name dirname d.name)) [
        | inl t ↦ rw t refl
        | inr t ↦ rw t (
            rest
            ∙ same_end volume d' d es (d' ∷ es)
                (first_entry (λ e. same_name dirname e.name) (d' ∷ es)))
      ])

-- On a buffer that its entries fill, none of them of length 0: in a directory without an index
-- `locate_file` finds the first entry of the name that is in use, with assertions that there is such
-- an inode and that it is a file's, and panics if there is no such entry; a directory with an index
-- fails an assertion. `find_local_directory` finds the first entry of the name, in use or not, with
-- assertions that it is a directory and that there is such an inode, which fail where it is not in
-- use; if there is no such entry it panics on an empty buffer, and otherwise reads behind the end.
pub searches_lem :
    (volume : Volume) (name : List ℕ) (flags : ℕ) (es : List DirectoryEntry)
    → AllLong es
    → entry_bytes es < 2 ^ 32
    → (is_indexed flags ≡ false
        → locate_file volume name flags (entry_bytes es) es
          ≡ file_found volume (first_entry (λ e. ltb 0 e.inode && same_name e.name name) es))
      × (is_indexed flags ≡ true → locate_file volume name flags (entry_bytes es) es ≡ asserted)
      × (find_local_directory volume name (entry_bytes es) es
          ≡ directory_found volume es (first_entry (λ e. same_name name e.name) es))
unfolding locate_file find_local_directory
searches_lem volume name flags es long small =
    let size : u32 (entry_bytes es) ≡ entry_bytes es = omega arith in
    (
      λ f.
          rw (f, size, locate_file)
            (locate_entry-found volume name (entry_bytes es) es long refl small),
      λ f. rw (f, locate_file),
      directories es long small,
    )
  where
    directories :
        (l : List DirectoryEntry)
        → AllLong l
        → entry_bytes l < 2 ^ 32
        → find_local_directory volume name (entry_bytes l) l
          ≡ directory_found volume l (first_entry (λ e. same_name name e.name) l)
    directories [] long small = refl
    directories (d ∷ l) (pos, long) small =
        find_local_directory-found volume name (entry_bytes (d ∷ l)) d l (omega arith) (omega arith)
