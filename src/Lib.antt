-- ===== src/Lib.antt =====
-- The DeviceAtlas Cloud client in C: a program collects the headers of a request, asks the cloud
-- service (or a cache) what is known of the device, and reads the answer as a list of properties.
--
-- The parts and the files that model them:
--   dacloud_mem.c, dacloud_mem.h: blocks of memory (Mem.antt) and pools that grow by further blocks
--     (Membuf.antt). Headers, properties and cache entries live in pools.
--   dacloud_header_property.c, dacloud.h: the list of headers with its cache key (Header.antt), and
--     the list of properties with its searches and its printing (Property.antt).
--   dacloud_cache.c, dacloud_cache.h, cache_providers.h: the interface of a cache provider, the mock
--     provider, and the choice of a provider by name (Cache.antt), and da_cloud_crypt_key
--     (Cache/CryptKey.antt). What the detection relies on of a provider is Cache/Remembering.antt and
--     Cache/Blocks.antt.
--   memory_cache_provider.c: the provider that keeps entries in memory, as a tail queue in a pool
--     (MemoryCache.antt) or, where the build has GLib, as a hash table (GlibCache.antt).
--   file_cache_provider.c: the provider that keeps each answer in a file (FileCache.antt), and its
--     get and set over mapped files, for builds with FILE_CACHE_MMAP (FileCache/Mapped.antt).
--   memcached_cache_provider.c: the provider over libmemcached (Memcached.antt).
--   dacloud_cache.h: the mutex of the file cache and of the GLib version (Mutex.antt).
--   dacloud.c: the configuration file and the servers that it names (Config.antt), and da_cloud_init,
--     da_cloud_fini and da_cloud_cache_id (Client.antt).
--   dacloud.c: the detection (Detect.antt), with the reader of a response (Detect/Reader.antt), what
--     is sent (Detect/Request.antt) and how an answer becomes properties (Detect/Answer.antt).
--   dacloud.c, dacloud.h: the servers (Server.antt) and their ranking by the time they take
--     (Ranking.antt).
--   py3wrapper/dacloud.c: the Python object (PyWrapper.antt) and its detection
--     (PyWrapper/Detecting.antt).
--   cppwrapper/dacloud.cpp, cppwrapper/dacloud.hpp: the C++ classes (CppWrapper.antt), with
--     DaCloudDetect in CppWrapper/Detecting.antt.
--   dacloud.c: da_cloud_log (Log.antt). dacloud_util.c: the printing of the servers (Server.antt).
--   examples: dacloud_batch.c (Examples/Batch.antt), dacloud_simplebench.c (Examples/Bench.antt), the
--     thread function of dacloud_mt.c (Examples/Threads.antt), the loop of dacloud_fcgi.c
--     (Examples/Gateway.antt) and dacloud_cppclient.cpp (Examples/CppClient.antt).
--   Prelude.antt has what the parts share.
--
-- How the state and the operations correspond. Each C function is the function of the same name
-- without the prefix da_cloud_: `mem_alloc` is da_cloud_mem_alloc, `header_add` is
-- da_cloud_header_add, `detect` is da_cloud_detect. A function that is long in the source is cut at
-- its tests of a result: `header_add`, `fill_header` and `link_new` are the three parts of
-- da_cloud_header_add, and `detect`, `use_cached`, `ask_servers`, `fetch`, `accept`, `keep_answer`,
-- `after_fetch`, `read_answer`, `load_answer`, `list_properties` and `keep_list` those of
-- da_cloud_detect; in Client.antt `init`, `read_settings`, `init_cache`, `open_provider`,
-- `after_init`, `init_servers`, `finish_servers` and `rank_servers` are da_cloud_init. The functions
-- of a provider have the name of their file: `glib_cache_get` is memory_cache_get under HAVE_GLIB,
-- and `mapped_get` is file_cache_get under FILE_CACHE_MMAP. The Python module's functions are
-- `load_config`, `py_detect`, `get_cache_id` and `dealloc`; of a C++ class `make_` is the constructor
-- and `destroy_` the destructor. A struct is a record with the fields of the source. A pool is the list of its
-- nodes, of which the last one is the cursor `dcm`. Texts in a pool are read as their bytes; blocks
-- of the allocator are addresses. An output parameter is its old content, or `none` for a null
-- pointer. The state of the allocator, of a provider and of the network is passed along.
--
-- A call comes to an `Outcome`: it returns a value, it runs into undefined behaviour (`crashes`), or
-- it goes on for ever (`hangs`). Failing calls return `failed`, the -1 of the source.
--
-- Parameters. `Allocator` is the replaceable allocator `g_allocator`, with what is relied on in
-- `AllocatorLaws`; every source file has a copy of that variable, and the copies are taken as one.
-- XXH64 of the vendored import/xxhash.h is a function on bytes. libcurl and jansson are `Services`
-- and, for the ranking, `Probes`; libconfig is in `Platform`; qsort of the C library is a function on
-- lists. The file system and the clock are `Files`, or `MappedFiles`, GLib's table is `HashTable`,
-- libmemcached is `Memcached`, and Python's dictionaries and texts are `Python`. What a theorem relies
-- on of one of these is a record of laws beside it (`KeepsFiles`, `KeepsMapped`, `KeepsEntries`,
-- `CountsClients`, `KeepsItems`; of an allocator `CopyLaws` and `RefusalLaws`, and `NeverFails` where
-- it has enough memory), and Tests has an instance of each. The default functions of the allocator
-- stand over `Libc` (Mem/Default.antt). A cache provider is a `CacheOps`, which the mock provider and
-- the four others fill; a client takes one `Plugin` for each name. `Remembers`, `KeepsBlocks` and
-- `PluginBlocks` are the laws of a provider that a detection and a client rely on, and the memory
-- cache fills them. SHA256 is a function on bytes, and printf of a double one on a response time.
--
-- An example program that reads lines or requests takes them as a list. What the programs and the log
-- print is modelled, except for the error texts of the library, which are left out of its functions.
--
-- The unlock of MTX_UNLOCK is that of a local variable that was never initialised. POSIX leaves
-- undefined what that does, so what it makes of the configuration's mutex is a parameter,
-- `stray_unlock` in `Files`, `MappedFiles` and `HashTable`; a theorem names it where it relies on it.
--
-- A block of a pool can be past its end, and then hands out regions behind it (Mem/Overrun.antt). Where
-- da_cloud_header_add and da_cloud_detect fill such a region the call crashes (`written`, `membuf_fill`
-- and `membuf_copy` in Membuf.antt). The memory cache and the provider's own structs keep to the
-- contents of a pool, without its bounds: what they write behind a block is not looked for.
-- Membuf/Fitting.antt is about requests that never lead there.
--
-- The field `cnt` of the memory cache is not initialised by the source; what stands there is an
-- argument of `memory_cache`.
--
-- Response times are numbers of microseconds, which libcurl counts in.
--
-- Bounds. Sizes are those of an LP64 platform, and size_t arithmetic wraps at 2 ^ 64. Requests to a
-- pool are assumed below 2 ^ 62 bytes, which no memory reaches. da_cloud_membuf_alloc calls itself on
-- the new block, which is made with room for the request: it has fuel for one such call
-- (`pool_fuel`). Printing an unsigned long has fuel for its twenty digits.
--
-- The loop of da_cloud_init over the servers has a round for each element and one for the end of the
-- list (`load_servers`); an element without a host uses up any number of rounds.
--
-- A file is opened at most ten times, which is the fuel of `file_cache_attempt`. A path is built in an
-- array of PATH_MAX bytes, 4096 on Linux.
--
-- Not modelled: the calls of the log in the other functions, and what a failing start prints; the
-- masks and modes of new files; the Go wrapper, the tests and the fuzzing; of the examples the threads
-- of dacloud_mt.c side by side, the functions of dacloud_talloc.c and the start of dacloud_fcgi.c; the
-- tables that register the Python module.
pub mod Prelude
pub mod Mem
pub mod Membuf
pub mod Header
pub mod Property
pub mod Cache
pub mod MemoryCache
pub mod Mutex
pub mod FileCache
pub mod GlibCache
pub mod Memcached
pub mod Server
pub mod Log
pub mod Ranking
pub mod Config
pub mod Client
pub mod Detect
pub mod PyWrapper
pub mod CppWrapper
pub mod Examples
pub mod Tests
