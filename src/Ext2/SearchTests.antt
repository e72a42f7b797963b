-- ===== src/Ext2/SearchTests.antt =====
-- Tests and witnesses of the searches in a directory.
use xdk.Prelude.{◌≡◌, refl, arith, true, false, ◌==◌, List, [], ◌∷◌, ◌&&◌, ltb}
use xdk.Ext2.Directory.{
  DirectoryEntry, Volume, is_indexed, asserted, located, reads_past, same_name,
  find_local_directory, locate_file,
}
use xdk.Ext2.Search.{first_entry, file_found, directory_found, searches_lem}

-- A removed entry "a", a file "b" and a directory "c".
abbrev entries : List DirectoryEntry
entries =
    record { inode = 0; record_length = 12; file_type = 1; name = 97 ∷ [] }
    ∷ record { inode = 7; record_length = 12; file_type = 1; name = 98 ∷ [] }
    ∷ record { inode = 9; record_length = 1000; file_type = 2; name = 99 ∷ [] }
    ∷ []

abbrev volume : Volume
volume = record { total_inode_count = 32; is_file = λ i. i == 7 }

finds_c : find_local_directory volume (99 ∷ []) 1024 entries ≡ located 9
unfolding find_local_directory same_name
finds_c = refl

misses_d : find_local_directory volume (100 ∷ []) 1024 entries ≡ reads_past
unfolding find_local_directory same_name
misses_d = refl

-- 7 is the inode of a file; 8 inodes in all, so that 9 is none.
abbrev small_volume : Volume
small_volume = record { total_inode_count = 8; is_file = λ i. i == 7 }

outside : find_local_directory small_volume (99 ∷ []) 1024 entries ≡ asserted
unfolding find_local_directory same_name
outside = refl

searches_lem_example :
    (is_indexed 0 ≡ false
      → locate_file volume (98 ∷ []) 0 1024 entries
        ≡ file_found volume
            (first_entry (λ e. ltb 0 e.inode && same_name e.name (98 ∷ [])) entries))
    × (is_indexed 0 ≡ true → locate_file volume (98 ∷ []) 0 1024 entries ≡ asserted)
    × (find_local_directory volume (98 ∷ []) 1024 entries
        ≡ directory_found volume entries (first_entry (λ e. same_name (98 ∷ []) e.name) entries))
searches_lem_example =
    searches_lem volume (98 ∷ []) 0 entries (omega arith, (omega arith, (omega arith, tt)))
      (omega arith)
