-- ===== src/Tests/DirTests.antt =====
-- fs/dir.c on a directory of 100 bytes.
use ece334operating_system.Prelude.{◌+◌, ◌≡◌, ◌≢◌, true, false, arith}
use ece334operating_system.Fs.Inode.{FileState}
use ece334operating_system.Fs.Itable.{zero_dinode}
use ece334operating_system.Fs.Dir.{i_dir, is_live, scan, scan_all, str_eq, str_bytes, dot, dot_dot}
use ece334operating_system.Fs.Dir.Names.{str_eq-str_bytes}
use ece334operating_system.Fs.Dir.Scan.{scan_all_lem}
use ece334operating_system.Tests.SuperTests.{fresh}

abbrev directory : FileState
directory = record {
  super = fresh;
  inode = record {
    in_core = record zero_dinode { i_type = i_dir; i_size = 100 };
    dirty = false;
    i_nr = 0;
    i_count = 1;
  };
}

scan_all_lem_example : scan (100 + 1 + 7) directory is_live 0 ≡ scan_all directory is_live
scan_all_lem_example = scan_all_lem directory is_live 7

str_eq-str_bytes_example :
    (str_eq (str_bytes dot) dot ≡ true) × (dot ≢ dot_dot → str_eq (str_bytes dot) dot_dot ≡ false)
str_eq-str_bytes_example =
    str_eq-str_bytes dot dot_dot (λ z. omega (arith, z), tt)
      (λ z. omega (arith, z), (λ z. omega (arith, z), tt))
