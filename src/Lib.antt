-- ===== src/Lib.antt =====
-- ioapps records the file operations of a program with strace and replays or analyses them. This
-- library is about the parts of it that hold data:
--
--   * Trace models the operations: the structures `*_op` of common.h and the list items of
--     in_common.h. A program keeps a trace as a list of items, each with a type character.
--   * Binary models in_binary.c, the trace file. Stream is `FILE *` and the macros that read and
--     write a field, Read and Save are the functions `bin_read_*` and `bin_save_*`, and Items is the
--     switch and the loop of `bin_get_items` and `bin_save_items`. Format is the wire format written
--     down independently of the code; Parses and Written compare the code with it one record at a
--     time, RoundTrip and Damage whole files; Reads and Total are about files of any bytes.
--   * HashTable models adt/hash_table.c, generic in keys and items; `Ops` is
--     `hash_table_operations_t`. Chain and Laws say what lookups answer after each operation, for any
--     lawful hash and compare function, IntKeys and NatKeys fill that interface for the tables of
--     fdmap.c, Index compares a table with the list of the items added to it, Maps with a function from
--     keys, and Walk is about `hash_table_apply`.
--   * Fdmap models parts of fdmap.c: Parents is the array of the descriptors that share one
--     `fd_map_t`; Usage is the table of how many processes use a descriptor and Processes the table
--     of processes, both clients of HashTable, and Clone is `duplicate_process_ht`, over a store of maps:
--     a pointer is a place in it.
--   * Namemap models namemap.c, another client of HashTable: Load is one line of the mapping file,
--     Files and Mapping are whole files, Names the table's keys, and Laws what `namemap_get_name`
--     answers after `namemap_init`. `fnmatch` is a parameter.
--   * Replicate models replicate.c, the replay of a trace. World is its state: the globals, a store
--     of `fd_map_t` and one of tables behind its pointers, the calls that were made and the state of
--     the simulator. The calls are those of replicate.c: what simulate.c and simfs.c call (access, stat,
--     getcwd) is not among them. An operation is a step from a world to a world that may stop the program. Tables
--     has the processes and `replicate_clone`; Files opens and closes; Transfer reads, writes and
--     seeks; Names has the operations on names; Special pipes, sockets and `dup`; Loop is
--     `replicate_init` and the loop of `replicate`. What the kernel answers to a call after the calls
--     before it, `fnmatch`, and the functions of simulate.c (the record Simulator, which Simulate
--     fills) are parameters.
--     Quiet is about replays without ACT_REPLICATE. Views reads the tables as functions and says what
--     opening, reading, closing, cloning and `dup` do to them, and what a replay starts with.
--   * ItemList models adt/list.c over a heap: what is behind each pointer to an item or a list.
--     Segments and Links are chains of items and the assignments that tie them, Laws and Inserting
--     compare each operation with the list of the pointers that a list holds.
--   * Trie models adt/fs_trie.c, the tree of paths that the simulated file system stands on, generic in
--     the data that encloses a node; a pointer to a node is the list of the places on the way to it.
--     Insert has `trie_longest_prefix` and `trie_insert2`. Paths is the text of a path, Children one
--     list of children, and Lookup and Having read a trie as a map from paths to data. Reading and
--     Longest are about the search for the longest prefix, Appending, Inserting and Pointers about insertions,
--     Deleting about deletions, and Distinct is the invariant that siblings have different keys.
--   * SimFs models simfs.c, which keeps the files that a replay would find as a trie of paths over what
--     is on the disk; the disk, and the current directory, are a parameter (Disk). The parent has
--     `simfs_absolute_name` and `simfs_populate`, Calls the operations of a trace. Names and Clean are
--     about names, Scan, Seek, Existing and Known about what is found in the tree and on the disk, and Checking,
--     Outcomes and Making say what stat, access and unlink answer, and what each operation leaves.
--   * Simulate models simulate.c, the two tables of the files that were read and written, on top of
--     SimFs; `simulator` is the Simulator that a replay calls. Offsets is about the size that a file has
--     to have.
--   * Parsing models functions of in_common.c that read the text of a trace: Numbers is `read_integer`,
--     Flags, Bits and Named the flags of `open`, `clone` and `access`, and Times `read_time` and `read_duration`.
--     `strtok` and `atoi` are written out as the C library has them.
--
-- Base holds what they share. `Run` is a call that may stop the program: `abort` is a failed
-- assertion, which the Makefile leaves active, undefined behaviour, or a call of `exit`.
--
-- State is passed explicitly. A trace file that is read is the list of the bytes ahead, and one that
-- is written is a stream: the bytes that it accepted, and how many more it accepts before a write is
-- short. The buffer of stdio is not modelled, nor is `fclose`, whose result `bin_save_items` ignores:
-- the accepted bytes are the file where the device takes them all at the last flush.
-- An integer of a fixed width in a trace is its bit pattern; a descriptor or a usage in fdmap.c is an
-- integer without a bound. A C string is the list of its bytes without the NUL. Where a buffer
-- overruns or an item is cast to a structure that it is not, the model answers `fault`. The loop of
-- `bin_get_items` runs on fuel, the length of the file: every round takes a byte. The loops over
-- the lines of the files of namemap.c have the same fuel, for the same reason, and the two loops of
-- `simfs_absolute_name` have the length of the name: every round makes it shorter.
--
-- Not modelled: messages and their text, `malloc` and most of `free`, `hash_table_destroy` and
-- `remove_callback` (hash_table.c), the waiting for the time of a call and the binding to a
-- processor (replicate.c), the reports of simulate.c, the parser of strace output (in_strace.c),
-- the removal of a trace (in_common.c), counting and printing (count.c, print.c, stats.c), the
-- command line (ioreplay.c) and the Python front end (ioprofiler/). The other parts see adt/list.c
-- as lists.
pub mod Base
pub mod Binary
pub mod Fdmap
pub mod HashTable
pub mod ItemList
pub mod Namemap
pub mod Parsing
pub mod Replicate
pub mod SimFs
pub mod Simulate
pub mod Trace
pub mod Trie
