-- ===== src/Scheduler/Batcher.antt =====
-- scheduler/internal/db/db.go: the buffer between the result consumers and MongoDB.
-- `json.Unmarshal` and `InsertMany` are parameters: what the body decodes to, and whether the write works.
pub mod Order
pub mod Sizes
pub mod Stored
pub mod Tests
use distributed_web_crawler.Base.{
  ℕ, suc, ◌++◌, String, Bool, true, false, Option, none, some, List, [], ◌∷◌, map, length, leb, ltb,
  if◌then◌else◌,
}
use distributed_web_crawler.Common.Models.{UrlData}

abbrev pub batch_size : ℕ
batch_size = 100

pub record Batcher : Type 0 where
  pub items : List UrlData

unfoldable pub new_batcher : Batcher
new_batcher = record { items = [] }

-- A call of `InsertMany` with its documents; `written` is false when it returned an error.
pub record Batch : Type 0 where
  pub written : Bool
  pub documents : List UrlData

-- The calls so far, in order. `Insert` logs an error and goes on.
pub record Collection : Type 0 where
  pub batches : List Batch

unfoldable pub insert_many : Bool → Collection → List UrlData → Collection
insert_many works c documents = record {
  batches = c.batches ++ record { written = works; documents = documents } ∷ [];
}

-- The loop `val.NextUrls = nil; documents = append(documents, val)`.
unfoldable pub strip : UrlData → UrlData
strip val = record val { next_urls = [] }

unfoldable pub documents_of : List UrlData → List UrlData
unfolding strip
documents_of = map strip

-- One turn of the `select`: a tick of the timer, or a body from the channel (`none`: it does not decode).
-- The Boolean says whether the `InsertMany` of this turn, if it makes one, works.
pub data Turn : Type 0 where
  ticks : Bool → Turn
  receives : Option UrlData → Bool → Turn

unfoldable pub on_tick : Bool → Batcher → Collection → Batcher × Collection
unfolding documents_of insert_many
on_tick works b c =
    let documents = documents_of b.items in
    (record { items = [] }, if ltb 0 (length b.items) then insert_many works c documents else c)

unfoldable pub on_document : UrlData → Bool → Batcher → Collection → Batcher × Collection
unfolding documents_of insert_many
on_document doc works b c =
    let items = b.items ++ doc ∷ [] in
    if leb batch_size (length items)
    then (record { items = [] }, insert_many works c (documents_of items))
    else (record { items = items }, c)

unfoldable pub turn : Turn → Batcher → Collection → Batcher × Collection
unfolding on_tick on_document
turn (ticks works) b c = on_tick works b c
turn (receives none works) b c = (b, c)
turn (receives (some doc) works) b c = on_document doc works b c

-- `BatchInsert`: turns without end; a run is any finite part of it.
unfoldable pub batch_insert : List Turn → Batcher → Collection → Batcher × Collection
unfolding turn
batch_insert [] b c = (b, c)
batch_insert (t ∷ ts) b c = let (b', c') = turn t b c in batch_insert ts b' c'
