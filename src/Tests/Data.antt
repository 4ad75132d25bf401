-- ===== src/Tests/Data.antt =====
-- A system, lists and allocators for the runs.
use alloc_test.Base.{[], Memory, replicate}
use alloc_test.Buckets.{bucket_count}
use alloc_test.Os.{Os}
use alloc_test.BlockList.{Items, MemoryBlockList}
use alloc_test.PageAllocator.Stats.{no_stats}
use alloc_test.PageAllocator.Caching.{PageAllocatorWithCaching}
use alloc_test.Collection.{Collection}
use alloc_test.Sounding.State.{Sounding}
use alloc_test.Bulk.{Headers, Bulk}
use alloc_test.Alloc.{Allocator}

-- Every call of the system answers 8192.
abbrev pub system : Os
system = record { kernel = λ history c. 8192; history = [] }

abbrev pub zeros : Memory
zeros = λ a. 0

abbrev pub no_items : Items
no_items = record { next = zeros; prev = zeros; size = λ a. 4096; size_index = zeros }

abbrev pub list_at_100 : MemoryBlockList
list_at_100 = record { count = 0; lst = 100 }

abbrev pub cache : PageAllocatorWithCaching
cache = record { free_blocks = replicate 21 list_at_100; stats = no_stats; block_size_exp = 12 }

abbrev pub collection : Collection
collection = record {
  item_size = 16;
  next = zeros;
  head = 0;
  free_list = 0;
  page_cnt = 0;
  base = cache;
}

abbrev pub headers : Headers
headers = record { prev = zeros; next = zeros; prev_free = zeros; next_free = zeros }

abbrev pub bulk : Bulk
bulk = record {
  headers = headers;
  free_list_begin = replicate 33 0;
  blocks = collection;
  item = zeros;
  base = cache;
}

abbrev pub pages : Sounding
pages = record {
  descriptors = [];
  collection = collection;
  current = 0;
  index_head = [];
  base = cache;
  bytes = zeros;
}

abbrev pub allocator : Allocator
allocator = record { buckets = replicate bucket_count 0; link = zeros; pages = pages; bulk = bulk }
