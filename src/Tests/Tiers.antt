-- ===== src/Tests/Tiers.antt =====
-- The theorems on the tiered, filesystem and Redis caches and on the choice of main.go.
use uplink_relay.Common.{
  String, ◌≡◌, ◌≢◌, refl, true, false, none, some, List, [], ◌∷◌, pos, negsuc, arith, ok, lookup,
  starts_with, strip_prefix, without, Time, eq_iff,
}
use uplink_relay.Cache.{Cache}
use uplink_relay.Cache.Keeping.{Keeps}
use uplink_relay.Cache.Memory
use uplink_relay.Cache.Memory.{MemoryCache, new_memory_cache, memory_cache, new_item}
use uplink_relay.Config.{Config}
use uplink_relay.FilesystemCache as FilesystemCache
use uplink_relay.FilesystemCache.{path_of, filesystem_cache, delete_with_prefix}
use uplink_relay.FilesystemCache.Deletion.{
  IsSpared, targets, has_short_name, get-delete_with_prefix_files,
}
use uplink_relay.FilesystemCache.Reading.{get-set_written}
use uplink_relay.Redis as Redis
use uplink_relay.Redis.{redis_cache}
use uplink_relay.Redis.Expiration.{redis_cache-Follows}
use uplink_relay.Startup.{Stores, make_cache, uplink_caches}
use uplink_relay.Startup.Caches.{make_cache-Keeps}
use uplink_relay.TieredCache.{search, tiered_cache}
use uplink_relay.TieredCache.Parts.{
  on_left, on_right, on_left-Follows, on_right-Follows, memory_cache-Follows,
}
use uplink_relay.TieredCache.Reading.{Reads, tiered_cache-Reads}
use uplink_relay.TieredCache.Writing.{Agrees, updated, Independent, tiered_cache-Agrees}
use uplink_relay.Tests.Disks.{
  Disk, disk, disk-IsDocumented, files_of, Keys, server, server-IsDocumented, server_succeeds,
}
use uplink_relay.Tests.World.{config, memory, empty}

-- Two in-memory caches, one on each part.
abbrev both : List (Cache (MemoryCache × MemoryCache))
both = on_left memory ∷ on_right memory ∷ []

abbrev second_only : MemoryCache × MemoryCache
second_only = (empty, Memory.set [] 10 "k" "v" (negsuc 0) empty)

tiered_cache-Reads_example :
    Reads 20 "k" second_only both ((tiered_cache both).get 20 "k" second_only)
    × ((search both 0 [] "" 20 "k" second_only).backfill ≡ [])
tiered_cache-Reads_example = tiered_cache-Reads 20 "k" second_only both

unheld : (later : Time) (j content : String) → memory.get later j empty ≢ some content
unfolding Memory.get lookup new_memory_cache
unheld later j content h = cc

nothing_held : Agrees memory (λ j. none) empty
nothing_held later j content h = absurd (unheld later j content h)

written : ((filesystem_cache disk "c").set 10 "k" "v" (pos 1) []).0 ≡ ok tt
unfolding FilesystemCache.set lookup
written = refl

different : disk-IsDocumented.Different (path_of "c" "k") (path_of "c" "j")
unfolding disk-IsDocumented
different h = ground (arith, eq_iff "c/k" "c/j")

get-set_written_example :
    let after = (filesystem_cache disk "c").set 10 "k" "v" (pos 1) [] in
    ((filesystem_cache disk "c").get 99 "k" after.1 ≡ some "v")
    × ((filesystem_cache disk "c").get 99 "j" after.1 ≡ (filesystem_cache disk "c").get 99 "j" [])
get-set_written_example =
    get-set_written disk disk-IsDocumented "c" 10 99 (pos 1) "k" "j" "v" [] written different

abbrev two_files : Disk
two_files = ("c/g:v:x", "a") ∷ ("c/h:w:y", "b") ∷ []

deleted : (delete_with_prefix disk "c" "g:v" two_files).0 ≡ ok tt
unfolding delete_with_prefix starts_with strip_prefix without FilesystemCache.delete_entries
deleted = refl

targeted : targets "g:v" "g:v:x" (files_of "c" two_files) ≡ true
unfolding targets strip_prefix starts_with
targeted = refl

spared : IsSpared disk disk-IsDocumented "c" "g:v" "h:w:y" (files_of "c" two_files)
unfolding strip_prefix starts_with disk-IsDocumented
spared = (λ target h. ground (arith, eq_iff "c/g:v:x" "c/h:w:y"), (λ target. cc, tt))

get-delete_with_prefix_files_example :
    let after = (delete_with_prefix disk "c" "g:v" two_files).1 in
    (FilesystemCache.get disk "c" "g:v:x" after ≡ none)
    × (FilesystemCache.get disk "c" "h:w:y" after ≡ FilesystemCache.get disk "c" "h:w:y" two_files)
    × (has_short_name "g:v" (files_of "c" two_files) ≡ false)
get-delete_with_prefix_files_example =
    get-delete_with_prefix_files disk disk-IsDocumented "c" "g:v" (files_of "c" two_files) "g:v:x"
      "h:w:y" two_files refl deleted targeted spared

-- Redis behind the in-memory cache.
abbrev two_tiers : Config
two_tiers = record config { redis = record config.redis { enabled = true } }

-- The caches that main gives to the tiered cache, in memory and in Redis.
abbrev tiers : List (Cache (Stores Disk Keys))
tiers = uplink_caches (λ items. items) disk server two_tiers

tiers-Independent : Independent tiers
unfolding uplink_caches
tiers-Independent = ((λ _ _ _ _ _ _ _. refl, tt), (λ _ _ _ _ _ _ _. refl, tt), (tt, tt, tt))

abbrev nothing : Stores Disk Keys
nothing = (empty, ([], []))

unheld_in_redis : (later : Time) (j content : String) → Redis.get server later j [] ≢ some content
unfolding Redis.get lookup
unheld_in_redis later j content h = cc

tiered_cache-Agrees_example :
    Agrees
      (tiered_cache tiers)
      (updated (λ j. none) "k" "v")
      ((tiered_cache tiers).set 10 "k" "v" (negsuc 0) nothing).1
unfolding Redis.set uplink_caches
tiered_cache-Agrees_example =
    tiered_cache-Agrees tiers (λ j. none) 10 "k" "v" (negsuc 0) nothing tiers-Independent
      (
        on_left-Follows memory (memory_cache-Follows (λ items. items)),
        (
          on_right-Follows (on_right (redis_cache server)) (
              on_right-Follows (redis_cache server)
                (redis_cache-Follows server server-IsDocumented)),
          tt,
        ),
      )
      (refl, (refl, tt))
      (nothing_held, (λ later j content h. absurd (unheld_in_redis later j content h), tt))

abbrev chosen : Cache (Stores Disk Keys)
chosen = tiered_cache (uplink_caches (λ items. items) disk server two_tiers)

made : (make_cache (λ items. items) disk server two_tiers (empty, ([], []))).0 ≡ ok chosen
unfolding make_cache FilesystemCache.new_filesystem_cache
made = refl

make_cache-Keeps_example : Keeps chosen 1000 2000 (pos 60)
make_cache-Keeps_example =
    make_cache-Keeps (λ items. items) disk server two_tiers (empty, ([], [])) chosen 1000 2000 60
      made (omega arith) (omega arith) (omega arith) refl
      (λ on. (server-IsDocumented, server_succeeds 1000))
