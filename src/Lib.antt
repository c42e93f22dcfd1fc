-- ===== src/Lib.antt =====
-- The laboratory exercises of an operating systems course: a FAT16 file system over FUSE, a shell,
-- two system calls, threads, and kernel modules.
--
-- The parts share no state; each is a tree of modules of its own.
--
-- Fat16 models lab4/simple_fat16_new.c with the structures of lab4/fat16.h. A volume is the record
-- Fat16; its image is a function from offsets to bytes, so that every `fseek`, `fread` and
-- `fwrite` is a lookup or a `store`. Numbers of type WORD and DWORD are natural numbers whose
-- wrap-around is written out where the source computes with them.
--   Image, Volume: `sector_read`, the boot sector and the entries, `pre_init_fat16`.
--   Table: `fat_entry_by_cluster`, `ClusterEmpty`, `FindEmptyCluster`, `ClusterIsEmpty`,
--     `first_sector_by_cluster`, `freeCluster` and the loop of `fat16_unlink` over it.
--   Paths, Names: `depth`, `org_path_split`, `get_prt_path`, `path_split`, `path_decode`.
--   Scan: the loop over the sectors of the root directory and the one over the clusters of another
--     directory, which several functions of the source repeat; Lookup: `find_root` and
--     `find_subdir`; Locate: the slots that unlink, edit_size and mknod look for.
--   Update: `dir_entry_create`, `fat16_mknod`, `fat16_unlink`, `edit_size`; Read: `read_path`,
--     whose buffer has the bytes that the source allocates, and no more;
--     Attr: `fat16_getattr`, `fat16_readdir`; Write: `write_path`.
--   Main, Bench: `main` and the functions that only hand over to others, the tests of lab4/bench.h.
--   Files: these operations one after the other, on a file in the root directory. Extend, Pieces,
--     Grown, Append and Longer follow a write at the end of a file through its parts: the clusters
--     that are added, the pieces that fill them, and the file as a whole.
--   FileMap: the abstract view of the root directory, a map from names to the bytes of files. Holds
--     says when a volume holds a map: each name at one entry, no two files in one cluster. Requests
--     are calls one after the other, Run shows that they do to the volume what they promise of the
--     map, Room counts the free entries and clusters that this needs, and Read and Stat say what
--     the calls that change nothing show of it.
-- Shell models lab2/lab2.2/lab2_shell.c: Split is `split_string`, Pipes the descriptors of the
-- processes of a pipeline, Main the builtins and one round of `main`. The loop over three or more
-- commands reads variables that its body declares; what they hold at the start of a round is a
-- parameter.
-- PsCalls models `ps_counter` and `ps_state` at the end of lab2/lab2.1/linux/sys.c, and the loop of
-- lab2/lab2.1/test_syscall.c.
-- Threads models lab3/EXP3.1/thread.c as interleaved steps on the counters, TaskInfo models
-- lab3/EXP3.1/sec2.c, Kmscan lab3/EXP3.2/sec3.c, and ForceRmmod the two modules forcermmod.c and
-- forcermmod_replace_exit.c, where `find_module`, the writes through `per_cpu_ptr` and the names read
-- from `source_list` are parameters.
-- Common holds what they share: tests on numbers, lists with native lengths, `strtok`, and the type
-- Outcome of a run of C code, which ends with a value, by `exit`, in undefined behaviour, or not
-- within its fuel. Tests holds a small volume, and the theorems applied to concrete data.
--
-- Bounds and fuel. The loop of `FindEmptyCluster` has 2 ^ 16 rounds, after which its WORD counter is
-- where it began. The loop over `b` in `write_path` has as many, for the same reason. The loop of
-- `fat16_unlink` needs one round for each cluster of the chain. The loops over directories and over
-- the chain of a file in `write_path` take their fuel as an argument, since a chain on the image
-- may be a cycle; on a cycle they do not end in the source either.
--
-- Not modelled: what is printed for debugging; FUSE itself, whose `fuse_main` is a parameter of
-- `main`; `fat16_destroy`, which frees memory; the rest of the Linux files under
-- lab2/lab2.1/linux; the script of lab1; build files and binaries. `mktime`, `getuid`, `getgid`,
-- `chdir`, `execvp`, `kstrtoul`, `follow_page` and the walk through the page tables are
-- parameters, and so is what `malloc` leaves in memory. A copy of a path that is written behind
-- the memory allocated for it is modelled as if the memory sufficed.
pub mod Common
pub mod Fat16
pub mod Shell
pub mod PsCalls
pub mod Threads
pub mod TaskInfo
pub mod Kmscan
pub mod ForceRmmod
pub mod Tests
