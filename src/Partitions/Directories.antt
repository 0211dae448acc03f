-- ===== src/Partitions/Directories.antt =====
-- DirectoryListing (directoryio.hpp), and the searches of HardwareContext (hardware.hpp, hardware.cpp)
-- in the directory of a function.
use Prim.Native.String.{String}
use libdyplo.Prelude.{ℕ, suc, ◌-◌, ◌≡◌, ◌↔◌, refl, List, ◌∷◌, ◌++◌, All, arith}
use libdyplo.Effects.{Result, ok, throw, waiting, fault, io_error, M, released}
use libdyplo.Partitions.{Name, Entry, get_available_partitions_in, find_partition_in}
use libdyplo.Partitions.Masks.{Any, IsFor, IsReadable, get_available_partitions_lem}
use libdyplo.Partitions.Find.{IsParsable, BestFile, find_partition_lem}
use libdyplo.Words.{bit}

-- What `opendir` and `readdir` answer: the entries in their order, or -1 with `errno`.
pub data Directory : Type 0 where
  lists : List Entry → Directory
  refuses : ℕ → Directory

-- The members that the searches use.
pub record Context : Type 0 where
  pub prefix : String
  pub bitstream_basepath : Name

-- The constructors, with the values of the macros DYPLO_DRIVER_PREFIX and BITSTREAM_DATA_PATH.
unfoldable pub new_context : String → Name → Context
new_context prefix data_path = record { prefix = prefix; bitstream_basepath = data_path }

unfoldable pub set_bitstream_basepath : Name → Context → Context
set_bitstream_basepath value context = record context { bitstream_basepath = value }

-- `path += '/'; path += function;`
abbrev pub directory_of : Context → Name → Name
directory_of context function = context.bitstream_basepath ++ (b'/' ∷ function)

-- The state is the number of directories that are open; `text` is a path as a string.
module _ (opendir : Name → Directory) (text : Name → String) where
  abbrev pub opened : Directory → Name → M ℕ (List Entry)
  opened (lists entries) path count = (ok entries, suc count)
  opened (refuses e) path count = (throw (io_error e (text path)), count)

  -- The constructor of DirectoryListing.
  unfoldable pub open_listing : Name → M ℕ (List Entry)
  open_listing path = opened (opendir path) path

  -- The destructor.
  abbrev pub close_listing : ℕ → ℕ
  close_listing count = count - 1

  -- The scope of a DirectoryListing, which is left by a return or an exception.
  abbrev pub with_entries :
      {B : Type 0} → (List Entry → Result B) → Result (List Entry) × ℕ → Result B × ℕ
  with_entries f (ok entries, count) = released close_listing (f entries, count)
  with_entries f (throw e, count) = (throw e, count)
  with_entries f (waiting, count) = (waiting, count)
  with_entries f (fault, count) = (fault, count)

  unfoldable pub get_available_partitions : Context → Name → M ℕ ℕ
  unfolding open_listing
  get_available_partitions context function count =
      with_entries get_available_partitions_in (open_listing (directory_of context function) count)

  unfoldable pub find_partition : Context → Name → ℕ → M ℕ Name
  unfolding open_listing
  find_partition context function partition count =
      with_entries (find_partition_in (directory_of context function) partition)
        (open_listing (directory_of context function) count)

  -- How a search in a directory ends: it cannot be opened, and that is thrown with the path; or what
  -- was to be found in its entries is returned. None is open that was not.
  abbrev pub Searched :
      {B : Type 0} → Directory → Name → (List Entry → B → Type 0) → ℕ → Result B × ℕ → Type 0
  Searched {B} (refuses e) path P count (r, count') =
      (count' ≡ count) × (r ≡ throw (io_error e (text path)))
  Searched {B} (lists entries) path P count (r, count') =
      (count' ≡ count) × ((b : B) × (r ≡ ok b) × P entries b)

  -- The entries of a directory, if it has any, have the property.
  abbrev pub AllListed : (Entry → Type 0) → Directory → Type 0
  AllListed P (refuses e) = Unit {0}
  AllListed P (lists entries) = All P entries

  with_entries_lem :
      {B : Type 0} (f : List Entry → Result B) (Q : Entry → Type 0) (P : List Entry → B → Type 0)
      → ((entries : List Entry) → All Q entries → (b : B) × (f entries ≡ ok b) × P entries b)
      → (path : Name) (count : ℕ) (d : Directory) → AllListed Q d
      → Searched d path P count (with_entries f (opened d path count))
  with_entries_lem f Q P finds path count (refuses e) h = (refl, refl)
  with_entries_lem f Q P finds path count (lists entries) h =
      let (b, found, holds) = finds entries h in
      (ground (arith, found), (b, ground (arith, found), holds))

  -- `findPartition` looks in the directory of the function below the base path. If that cannot be
  -- opened, an IOException with the path is thrown; otherwise, if `int` can hold the numbers of its
  -- names, "" is returned and no file is for the partition, or the path of one that is, which ends in
  -- ".partial" if that of some such file does. Either way no directory is left open.
  pub find_partition_in_context :
      (context : Context) (function : Name) (partition count : ℕ)
      → AllListed IsParsable (opendir (directory_of context function))
      → Searched
          (opendir (directory_of context function))
          (directory_of context function)
          (BestFile (directory_of context function) partition)
          count
          (find_partition context function partition count)
  unfolding find_partition open_listing
  find_partition_in_context context function partition count h =
      with_entries_lem (find_partition_in (directory_of context function) partition) IsParsable
        (BestFile (directory_of context function) partition)
        (find_partition_lem (directory_of context function) partition)
        (directory_of context function) count (opendir (directory_of context function)) h

  -- The mask has a bit for each partition that has a file, and no other.
  abbrev pub IsMask : List Entry → ℕ → Type 0
  IsMask entries m = (i : ℕ) → (bit i m ≡ 1) ↔ Any (IsFor i) entries

  -- `getAvailablePartitions` looks in the directory of the function below the base path. If that
  -- cannot be opened, an IOException with the path is thrown; otherwise, if its files have no number
  -- or one below 32, a mask is returned whose bit `i` is set exactly when some file is for partition
  -- `i`. Either way no directory is left open.
  pub get_available_partitions_in_context :
      (context : Context) (function : Name) (count : ℕ)
      → AllListed IsReadable (opendir (directory_of context function))
      → Searched
          (opendir (directory_of context function))
          (directory_of context function)
          IsMask
          count
          (get_available_partitions context function count)
  unfolding get_available_partitions open_listing
  get_available_partitions_in_context context function count h =
      with_entries_lem get_available_partitions_in IsReadable IsMask get_available_partitions_lem
        (directory_of context function) count (opendir (directory_of context function)) h
