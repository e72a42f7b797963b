-- ===== src/Ext2/Directory.antt =====
-- fs/ext2fs/ext2fs.cc, lines 178 to 290, and ext2_dir.h: the two searches through the entries of a
-- directory, which `get_directory_entries` has read into a buffer.
use xdk.Prelude.{
  ℕ, ◌+◌, ◌-◌, ◌/◌, ◌%◌, ◌^◌, Bool, true, false, ◌&&◌, List, [], ◌∷◌, if◌then◌else◌, ◌==◌, ltb, leb,
}
use xdk.Ext2.{u32}
use xdk.BlockCache.{u64}

-- `Directory_entry`, with its name as `get_name` makes it
pub record DirectoryEntry : Type 0 where
  pub inode : ℕ
  pub record_length : ℕ
  pub file_type : ℕ
  pub name : List ℕ

-- What the super block and the inodes on the disk say: `get_total_inode_count`, and for an index
-- whether the inode is that of a file
pub record Volume : Type 0 where
  pub total_inode_count : ℕ
  pub is_file : ℕ → Bool

-- `inode->flags & FS_INDEX_FL`
abbrev pub is_indexed : ℕ → Bool
is_indexed flags = flags / 4096 % 2 == 1

-- How a search ends: the index of an inode, a failed assertion, a panic, or a read of an entry behind
-- the end of the buffer.
pub data Located : Type 0 where
  located : ℕ → Located
  asserted : Located
  panics : Located
  reads_past : Located

-- The comparison of names
unfoldable pub same_name : List ℕ → List ℕ → Bool
same_name [] [] = true
same_name [] (d ∷ ds) = false
same_name (c ∷ cs) [] = false
same_name (c ∷ cs) (d ∷ ds) = let rest = same_name cs ds in (c == d) && rest

-- The assertions of `get_inode_ref` on an index
abbrev pub is_inode : Volume → ℕ → Bool
is_inode volume inode_index = ltb 0 inode_index && leb inode_index volume.total_inode_count

-- A directory that has been found
abbrev pub directory_inode : Volume → DirectoryEntry → Located
directory_inode volume e =
    if (e.file_type == 2) && is_inode volume e.inode then located e.inode else asserted

-- A file that has been found
abbrev pub file_inode : Volume → ℕ → Located
file_inode volume inode_idx =
    if is_inode volume inode_idx && volume.is_file inode_idx then located inode_idx else asserted

-- The loop of `find_local_directory`: it goes to the next entry, and then takes the length of that one
-- off the size.
unfoldable pub find_local_directory : Volume → List ℕ → ℕ → List DirectoryEntry → Located
find_local_directory volume dirname size [] = if size == 0 then panics else reads_past
find_local_directory volume dirname size (e ∷ []) =
    if size == 0
    then panics
    else (if same_name dirname e.name then directory_inode volume e else reads_past)
find_local_directory volume dirname size (e ∷ e' ∷ es) =
    let rest =
      find_local_directory volume dirname (u64 (size + (2 ^ 64 - e'.record_length))) (e' ∷ es) in
    if size == 0
    then panics
    else (if same_name dirname e.name then directory_inode volume e else rest)

-- The loop of `locate_file`
unfoldable pub locate_entry : Volume → List ℕ → ℕ → List DirectoryEntry → Located
locate_entry volume filename s [] = if s == 0 then panics else reads_past
locate_entry volume filename s (e ∷ es) =
    let rest = locate_entry volume filename (u32 (s + (2 ^ 32 - e.record_length))) es in
    if s == 0
    then panics
    else (if ltb 0 e.inode && same_name e.name filename then file_inode volume e.inode else rest)

-- `locate_file` in a directory with these flags, whose entries fill `dir_size` bytes
unfoldable pub locate_file : Volume → List ℕ → (flags dir_size : ℕ) → List DirectoryEntry → Located
unfolding locate_entry
locate_file volume filename flags dir_size es =
    if is_indexed flags then asserted else locate_entry volume filename (u32 dir_size) es
