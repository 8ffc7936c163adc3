-- ===== src/Tests/Worlds.antt =====
-- A file system, a hash table, a pool of clients and an allocator that keep what the theorems rely
-- on.
use mathlib.Core.Option.{some-injective}
use deviceatlas_cloud_c.Prelude.{
  ℕ, zero, suc, ◌≡◌, refl, ap, subst, Option, none, some, List, [], ◌∷◌, Bool, true, false,
  Bool-cases, inl, inr, if◌then◌else◌, length, Bytes, same_text, same_text_refl,
}
use deviceatlas_cloud_c.Mem.{Allocator, NeverFails}
use deviceatlas_cloud_c.MemoryCache.{Entry, find_entry}
use deviceatlas_cloud_c.FileCache.{Files, made}
use deviceatlas_cloud_c.FileCache.Reads.{KeepsFiles}
use deviceatlas_cloud_c.FileCache.Mapped.{MappedFiles}
use deviceatlas_cloud_c.FileCache.Pages.{KeepsMapped}
use deviceatlas_cloud_c.GlibCache.{HashTable}
use deviceatlas_cloud_c.GlibCache.Equivalence.{KeepsEntries}
use deviceatlas_cloud_c.Memcached.{Memcached}
use deviceatlas_cloud_c.Memcached.Clients.{CountsClients}

-- The time, and each file's text with the time of its last change.
abbrev pub Disk : Type 0
Disk = ℕ × (Bytes → Option (Bytes × ℕ))

abbrev pub store : Disk → Bytes → Bytes → Disk
store (now, file) path text = (now, λ p. if same_text p path then some (text, now) else file p)

abbrev pub reach : Bytes → Option (Bytes × ℕ) → Option Bytes
reach path none = none
reach path (some c) = some path

abbrev pub open_for : Disk → Bool → Bytes → Option Bytes × Disk
open_for disk true path = (some path, store disk path [])
open_for disk false path = (reach path (disk.1 path), disk)

abbrev pub text_of : Option (Bytes × ℕ) → Bytes
text_of none = []
text_of (some (text, t)) = text

abbrev pub mtime_of : Option (Bytes × ℕ) → Option ℕ
mtime_of none = none
mtime_of (some (text, t)) = some t

-- Every directory is there, and a file is known by its path.
abbrev pub disk : Files
disk = record {
  Fs = Disk;
  Handle = Bytes;
  time = λ d. d.0;
  stat = λ d path. some (record { is_dir = true; w_usr = true; w_grp = false; w_oth = false });
  mkdir = λ d path. (made, d);
  fopen = open_for;
  fstat = λ d f. mtime_of (d.1 f);
  flock = λ d f. (true, d);
  contents = λ d f. text_of (d.1 f);
  fwrite = store;
  funlock = λ d f. d;
  fclose = λ d f. d;
  unlink = λ d path. (true, (d.0, λ p. if same_text p path then none else d.1 p));
  stray_unlock = λ m. m;
}

pub store-same : (d : Disk) (path text : Bytes) → (store d path text).1 path ≡ some (text, d.0)
store-same (now, file) path text = rw (same_text_refl path) refl

pub reach-some :
    (c : Option (Bytes × ℕ)) (path text : Bytes) (t : ℕ) (f : Bytes)
    → c ≡ some (text, t)
    → reach path c ≡ some f
    → path ≡ f
reach-some none path text t f there opened = absurd (cc)
reach-some (some c) path text t f there opened = some-injective path f opened

abbrev pub disk_keeps : KeepsFiles disk
disk_keeps = record {
  file = λ d. d.1;
  written = λ d path value f opened.
      let same = some-injective path f opened in
      subst (λ p. (store (store d path []) p value).1 path ≡ some (value, d.0)) same
        (store-same (store d path []) path value);
  read = λ d path text t f there opened.
      let same = reach-some (d.1 path) path text t f there opened in
      subst (λ p. (mtime_of (d.1 p) ≡ some t) × (d.0 ≡ d.0) × (text_of (d.1 p) ≡ text)) same
        (ap mtime_of there, refl, ap text_of there);
}

-- The text of each file, which a mapping of its length covers.
abbrev pub Pages : Type 0
Pages = Bytes → Option Bytes

abbrev pub put_page : Pages → Bytes → Bytes → Pages
put_page file path text = λ p. if same_text p path then some text else file p

abbrev pub page_of : Option Bytes → Bytes
page_of none = []
page_of (some text) = text

abbrev pub mapped_disk : MappedFiles
mapped_disk = record {
  Fs = Pages;
  Handle = Bytes;
  page = 4096;
  mkdir = λ d path. (made, d);
  open_rdonly = λ d path. (some path, d);
  open_creat = λ d path. (some path, d);
  flock = λ d f. (true, d);
  contents = λ d f. page_of (d f);
  mmap = λ d f size. true;
  ftruncate = λ d f size. d;
  write_at_start = put_page;
  close = λ d f. d;
  stray_unlock = λ m. m;
}

pub put_page-same : (d : Pages) (path text : Bytes) → put_page d path text path ≡ some text
put_page-same d path text = rw (same_text_refl path) refl

abbrev pub mapped_disk_keeps : KeepsMapped mapped_disk
mapped_disk_keeps = record {
  file = λ d. d;
  written = λ d path value f opened mapped.
      subst (λ p. put_page d p value path ≡ some value) (some-injective path f opened)
        (put_page-same d path value);
  read = λ d path text f there opened.
      subst (λ p. page_of (d p) ≡ text) (some-injective path f opened) (ap page_of there);
}

-- A table is the list of its entries.
abbrev pub value_in : Option Entry → Option Bytes
value_in none = none
value_in (some e) = some e.value

abbrev pub is_some : Option Bytes → Bool
is_some none = false
is_some (some v) = true

abbrev pub listed : List Entry → Bytes → Option Bytes
listed t key = value_in (find_entry key t)

abbrev pub table : HashTable
table = record {
  Table = List Entry;
  new_full = some [];
  size = length;
  remove_all = λ t. [];
  lookup = listed;
  contains = λ t key. is_some (listed t key);
  insert = λ t key value. record { key = key; value = value } ∷ t;
  stray_unlock = λ m. m;
}

pub listed-insert :
    (t : List Entry) (key value other : Bytes)
    → listed (record { key = key; value = value } ∷ t) other
      ≡ (if same_text other key then some value else listed t other)
unfolding find_entry
listed-insert t key value other = elim (Bool-cases (same_text other key)) [
  | inl same ↦ rw (same) refl
  | inr other_key ↦ rw (other_key) refl
]

pub is_some-false : (o : Option Bytes) → is_some o ≡ false → o ≡ none
is_some-false none h = refl
is_some-false (some v) h = absurd (cc)

pub is_some-true : (o : Option Bytes) → is_some o ≡ true → (v : Bytes) × (o ≡ some v)
is_some-true none h = absurd (cc)
is_some-true (some v) h = (v, refl)

abbrev pub table_keeps : KeepsEntries table
table_keeps = record {
  lookup_insert = λ t key value other new. listed-insert t key value other;
  contains_none = λ t key new. is_some-false (listed t key) new;
  contains_some = λ t key old. is_some-true (listed t key) old;
}

-- The clients that are free; the servers hold nothing.
abbrev pub pop_client : ℕ → Option (Unit {0}) × Bool × ℕ
pop_client zero = (none, false, 0)
pop_client (suc n) = (some tt, true, n)

abbrev pub push_client : ℕ → Option (Unit {0}) → ℕ
push_client n none = n
push_client n (some c) = suc n

abbrev pub empty_servers : Memcached
empty_servers = record {
  World = ℕ;
  Handle = Unit {0};
  ServerList = Unit {0};
  Clients = Unit {0};
  Client = Unit {0};
  create = λ n. (some tt, n);
  servers_parse = λ n text. (some tt, n);
  server_push = λ n handle servers. n;
  pool_create = λ n handle initial max. (some tt, max);
  server_free = λ n servers. n;
  pool_pop = λ n pool. pop_client n;
  pool_push = λ n pool client. push_client n client;
  get = λ n client key. (none, false, n);
  set = λ n client key value expiry. (true, n);
  mc_free = λ n handle. n;
  pool_destroy = λ n pool. 0;
  time = λ n. 0;
  num_cores = λ n. 4;
}

pub pop_client-true :
    (n : ℕ)
    → (pop_client n).1 ≡ true
    → (c : Unit {0}) × ((pop_client n).0 ≡ some c) × (suc (pop_client n).2 ≡ n)
pop_client-true zero h = absurd (cc)
pop_client-true (suc n) h = (tt, refl, refl)

pub pop_client-false :
    (n : ℕ) → (pop_client n).1 ≡ false → ((pop_client n).0 ≡ none) × ((pop_client n).2 ≡ n)
pop_client-false zero h = (refl, refl)
pop_client-false (suc n) h = absurd (cc)

abbrev pub clients_count : CountsClients empty_servers
clients_count = record {
  free_clients = λ n pool. n;
  pop_some = λ n pool h. pop_client-true n h;
  pop_none = λ n pool h. pop_client-false n h;
  push_some = λ n pool c. refl;
  push_none = λ n pool. refl;
  get_keeps = λ n pool c key. refl;
  set_keeps = λ n pool c key value expiry. refl;
}

-- An allocator without a limit; its state is the last address that it gave.
abbrev pub endless : Allocator
endless = record {
  State = ℕ;
  alloc = λ s size. (some (suc s), suc s);
  realloc = λ s p size. (some (suc s), suc s);
  strdup = λ s strlen. (some (suc s), suc s);
  free = λ s p. s;
}

abbrev pub endless_never_fails : NeverFails endless
endless_never_fails = record {
  allocates = λ s size. (suc s, refl);
  moves = λ s p size. (suc s, refl);
  copies = λ s strlen. (suc s, refl);
}
