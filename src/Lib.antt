-- ===== src/Lib.antt =====
-- libnc, a common C library: the models of its parts, and what they are proved to do.
--
-- The parts, and the file that models each:
--
--   Memory        What the parts share: bytes at 64-bit addresses, the live heap blocks with their
--                 sizes, and commands, which have no result where C leaves the behaviour undefined.
--                 Memory/Libc states malloc, posix_memalign, realloc and free as a record of
--                 operations with their documented behaviour as laws: a parameter of all that
--                 allocates. Tests/Bump is a concrete one that meets the laws.
--   Macros        src/nc_macros.h and src/nc_macros.c: status codes, NC_ALIGN_PTR, and _nc_alloc,
--                 _nc_zalloc, _nc_calloc, _nc_realloc, _nc_free and nc_memalign.
--   Array         src/nc_array.h and src/nc_array.c: nc_array_init is `init`, nc_array_create
--                 `create`, nc_array_destroy `destroy`, nc_array_push `push` and nc_array_push_n
--                 `push_n`. The struct is a record, and its elements are bytes of the memory.
--   Palloc        src/nc_palloc.h and src/nc_palloc.c: nc_pool_create is `pool_create`, and so for
--                 pool_destroy, pool_reset, palloc, pnalloc, pcalloc, pfree and cleanup_add.
--                 Palloc/Chain has the chunks of a pool and the walks along them, Palloc/Blocks the
--                 list of large blocks, Palloc/Handlers the cleanups, Palloc/Records where
--                 the records stand, and Palloc/Lifetime the order in which a client may call the
--                 operations. Arrays and pools call the wrappers of Macros, and the pool's own
--                 operations call one another as in the code.
--   Hashtable     src/nc_hashtable.h and src/nc_hashtable.c: nc_hashtable_set is `set_key`, and so for
--                 get_key and del_key; create, init, deinit, destroy, clear and the iter_ operations
--                 keep their names. Hashtable/Store has the table and its list nodes at addresses,
--                 Hashtable/Links the static functions on the circular list and on the buckets,
--                 Hashtable/Removal and Hashtable/Growth hashtable_do_del, hashtable_do_clear and
--                 hashtable_do_rehash. The functions that the client gives are a record. Whether an
--                 allocation succeeds, and at which address, is an argument of the operations.
--   Rbtree        src/nc_rbtree.h and src/nc_rbtree.c: nc_rbtree_init, min, insert and delete keep
--                 their names. Rbtree/Store has the tree and its nodes at addresses, Rbtree/Links the
--                 rotations and what insertion and deletion share, Rbtree/Removal the parts of
--                 nc_rbtree_delete. Code that the source writes twice, mirrored, takes a side.
--                 Rbtree/Shape has the trees that the nodes stand for, Rbtree/Stands and Rbtree/Focus
--                 how they stand in the store, Rbtree/Colors and Rbtree/Order the rules on colors and
--                 keys, Rbtree/Invariant both; the modules below Rbtree/Insertion, Rbtree/Fixup and
--                 Rbtree/Deletion follow the steps of nc_rbtree_insert and nc_rbtree_delete.
--   Tests         runs at concrete inputs.
--
-- Machine integers: addresses, size_t and the size of a hash table have 64 bits and wrap where the
-- code computes with them; an int that overflows is undefined. The hashes that the client's
-- function gives are numbers without a bound, and its functions that free keys and values only
-- leave a log of what they were given. A pool's headers and records are kept as lists outside the
-- bytes of the memory; a well-formed pool keeps the bytes of its headers and of the records of its
-- large blocks in use, and one that a client uses as Palloc/Lifetime says also those of the records
-- of its cleanups. Struct sizes are those of a 64-bit machine. Negative counts of elements are left out. The heap blocks of two
-- allocations never overlap, by the laws of Libc.
--
-- The loops of arrays and pools run over lists, so they need no fuel. Those of the hash table follow
-- pointers, with one more than the table's size as fuel: the list has one node for each pair that the
-- size counts, and the table's own. Those of the red-black tree take their fuel as an argument; a
-- result that needs it says how much is enough.
--
-- Not modelled: src/nc_sds.h and src/nc_sds.c, a copy of another project's string library;
-- src/nc_sys_queue.h, a copy of BSD's queue macros; the tests and their vendored framework; logging
-- and assertions, which the builds compile to nothing.
pub mod Prelude
pub mod Memory
pub mod Macros
pub mod Array
pub mod Palloc
pub mod Hashtable
pub mod Rbtree
pub mod Tests
