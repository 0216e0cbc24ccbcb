-- ===== src/Lib.antt =====
-- Verification of wtools, a collection of C libraries: the binary key-value documents of bkv, the
-- dictionaries of names and the JSON converters beside them, the printer and the log.
--
-- A bkv document is a block of bytes. bkv/src/bkv.c writes it: a handle holds the block, a write
-- offset, a state and a stack of open maps and arrays, and each operation checks the key and the
-- state, makes room with `bkv_prepare` and stores a header and a value. bkv/src/bkv_byteorder.c
-- stores and loads the numbers. bkv/src/bkv_val.c reads a block with the loop `val_foreach`,
-- which hands what it meets to callbacks; `bkv_val_get2` is that loop with callbacks that look
-- for a path of keys. bkv/dico/src keeps a dictionary of names in such a document: the direct plug
-- writes each name at once, the cached plug keeps the names in a key tree of kt/src/keytree.c and
-- writes them when the dictionary is destroyed. A key tree has a level of keys for each character;
-- a key has four lists of children, for lower-case letters, upper-case letters, digits and others.
-- bkv/json/src/bkv_json.c converts documents from JSON and to JSON: the names of the keys come from
-- a dictionary that the document holds. bkv/json/src/bkv_json_yajl.c is the parser behind it: the
-- callbacks of the yajl library that write a document and its dictionary, and the generator of the
-- text. bkv/src/bkv_print.c prints a document, and lg/src/lg.c prints the lines of the log.
--
-- The files:
--   Prelude, Prelude/*: shared names, lists over native numbers, the C `int`, chains of steps
--     that may fault, laws of the bit operations.
--   Buffer, Buffer/Laws: a block of memory with bounds-checked loads and stores.
--   Libc: malloc and realloc, the parameters of the model.
--   ByteOrder (bkv/src/bkv_byteorder.c); ByteOrder/Exact and ByteOrder/Floats: what comes back.
--   Bkv: the state and `bkv_check_state`. Bkv/Create: `bkv_init` to `bkv_get_head`. Bkv/Prepare:
--     `bkv_prepare`, `set_key` and bkv/src/bkv_mem.c. Bkv/Scalars: `bkv_kv_*_add`. Bkv/Nesting:
--     `bkv_kv_map_*` and `bkv_kv_array_open`, `_close`. Bkv/Arrays: `bkv_kv_array_*_add`.
--     Bkv/Insertion: `bkv_append`, `bkv_write_offset_set`, `bkv_finalize` (all bkv/src/bkv.c);
--     Bkv/Insertion/Untouched: entered and left.
--   Bkv/Spec: an independent description of a document's bytes. Bkv/Append and Bkv/Adds: one
--     operation against it. Bkv/Growth: `bkv_prepare`. Bkv/Overrun: too little room.
--     Bkv/Documents: whole maps. Bkv/Invariant, with Steps, Levels, Operations and Reach: what
--     all operations keep of a handle.
--   Val: `val_foreach`. Val/Total, Val/Entries, Val/Maps, Val/Holding: its properties. Val/Found
--     and Val/Get: `bkv_val_get2`, `bkv_val_init`. Val/Get/Search: a search in a map
--     (Val/Get/Search/Inner: of a map); Val/Get/Heads: a value that points to a header; Val/Walks:
--     callbacks that go on from entry to entry (all bkv/src/bkv_val.c and bkv/inc/bkv_val.h).
--   RoundTrip: a document written and read; RoundTrip/Appended: put behind another one;
--     RoundTrip/Outside: values added where no map is open.
--   Keytree: the structures of kt/inc/keytree.h. Keytree/Chars: `word_type`, `word_weak_type`.
--     Keytree/Insert: `kt_key_add`, `parse_file_create_key`, `wg_keytree_add`,
--     `wg_keytree_create`. Keytree/Lookup: `wg_keytree_keyget`, `_strcmp`, `_weakcmp`,
--     `_strcmp_isalnum`. Keytree/Walk: `wg_keytree_foreach`. Keytree/Release:
--     `wg_keytree_release`, `keytree_key_init`, `_uninit` (all kt/src/keytree.c).
--   Keytree/Nodes: a tree as a map from paths to keys, and well-formed trees. Keytree/Adding,
--     Parsing, Growing, Rounds and Vocabulary: a word added. Keytree/Creation: a list of words.
--     Keytree/Names: words of letters and digits. Keytree/Searching and Fetching: the searches;
--     Keytree/Learning: the searches behind an addition. Keytree/Folding: `_weakcmp`.
--     Keytree/Visits, Walking, Shallow, Listing and Words: the keys that the walk visits;
--     Keytree/Agreeing: the walk and the search.
--     Keytree/Releasing: the blocks that are freed.
--   Dico (bkv/dico/src/bkv_dico.c), Dico/Direct (bkv/dico/src/bkv_dico_direct.c) and Dico/Spec.
--     Dico/Cached (bkv/dico/src/bkv_dico_cached.c, and the table of plugs of bkv_dico.c);
--     Dico/Names and Filling: names added; Dico/Listing and Known: the document that is left.
--   Json (bkv/json/src/bkv_json.c): the callbacks of `bkv_to_json`, over the parser of
--     bkv/json/src/json_plugs.h. Json/Convert: `bkv_to_json`, `bkv_from_json`. Json/Naming,
--     Json/Texts and Json/Whole: the names of the keys, a map of strings, a document with its
--     dictionary inside; Json/Joined: what `close_document` makes of the two.
--   Json/Yajl: the callbacks of `bkv_from_json_yajl_parse`. Json/Yajl/Numbers: `get_number`.
--     Json/Yajl/Writer: the functions of `s_bkv_to_json_yajl_plug` (all
--     bkv/json/src/bkv_json_yajl.c). Json/Yajl/Digits: `get_number` on characters.
--     Json/Yajl/Members, Reading, Strings and Objects: a document made of an object.
--     Json/Yajl/Writing: an object made of a document.
--   Json/Tools (bkv/json/tools/src/bkv_json_tools.c): two texts compared. Json/Tools/Alike: when
--     they compare as equal; Json/Tools/Blind: what is not seen.
--   File (bkv/src/bkv_file.c); File/Descriptors: the descriptors that it leaves open.
--   Print (bkv/src/bkv_print.c); Print/Lines: what a map prints.
--   Lg (lg/src/lg.c and lg/inc/lg.h); Lg/FileNames: the file name of a line; Lg/Libraries: the
--     table of libraries.
--   Runs, Runs/Memory, Runs/Handles, Runs/Numbers, Runs/Words, Runs/Objects, Runs/Output,
--     Runs/Trees, Runs/Files: the theorems at concrete inputs.
--
-- Memory is a list of bytes and a pointer into it is its distance from the start. An access
-- outside the block or an array, a NULL dereference or a division by zero is undefined in C and
-- is `none` in the model, so that a theorem with a `some` excludes it. Integers of 8 to 64 bits
-- wrap around as written; an `int` that can be -1 is a ℤ, and sizes are taken to be below 2 ^ 31.
-- Floats and doubles are bit patterns on a machine with little-endian memory and 64-bit pointers.
--
-- `val_foreach` runs on fuel, one more than the bytes of the block: a round moves the pointer on
-- or ends the loop, and a round outside the block faults. The loops of keytree.c are structural in
-- the string or the tree. The walk writes the word at hand into an array of 128 bytes, and faults
-- behind it.
--
-- The parsers behind bkv_json.c are parameters: records of functions over their own data, as
-- json_plugs.h has them. A document's strings are handed to them as a place and a length.
-- The yajl library is a parameter as well: a parser that is given the callbacks, and a generator
-- with a function for each call of it. Where a theorem needs it, yajl calls back for each event of
-- the text in order, until one answers 0, as it documents. The arithmetic of doubles is a
-- parameter. The trees that its parser makes are data with the fields that bkv_json_tools.c reads.
-- In `get_number` an l_multi that leaves the range of an `int` faults.
--
-- The system calls of bkv_file.c are a parameter over the state of the system; `ftruncate` stands
-- there, as the file is compiled with _GNU_SOURCE.
--
-- The output of the printer and of the log is a list of the lines with the arguments of `printf`.
--
-- A key tree owns its keys: no two pointers to a key are kept, so that a list of children holds
-- them by value, and a store in a key rebuilds the keys above it. A tree that was released is gone,
-- and a pointer that was never set or points to what is freed faults when it is used. The
-- functions of <ctype.h> are those of the C locale. The callback `cb` of a head is left out, as
-- what it answers is ignored.
--
-- The model is the default build: the branches under BKV_USE_POSIX_FILE_ACCESS and DEBUG are left
-- out of the other files. Not modelled: rbt (another project's library).
pub mod Prelude
pub mod Print
pub mod Lg
pub mod File
pub mod Buffer
pub mod ByteOrder
pub mod Libc
pub mod Bkv
pub mod Val
pub mod RoundTrip
pub mod Keytree
pub mod Dico
pub mod Json
pub mod Runs
