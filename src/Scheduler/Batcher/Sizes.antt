-- ===== src/Scheduler/Batcher/Sizes.antt =====
-- scheduler/internal/db/db.go: how much is buffered, and how large the batches are.
use distributed_web_crawler.Base.{
  ◌≤◌, ◌<◌, ◌++◌, ◌≡◌, refl, Bool, none, some, List, [], ◌∷◌, map, arith, length, length-append,
  length-map, All, All-append, ltb, leb, Bool-cases, inl, inr, ltb→lt, leb→le,
}
use distributed_web_crawler.Common.Models.{UrlData}
use distributed_web_crawler.Scheduler.Batcher.{
  Batcher, Batch, Collection, Turn, ticks, receives, insert_many, strip, on_tick, on_document, turn,
  batch_insert, batch_size,
}

-- No document of the batch has links, and there are between one and a hundred of them.
pub record IsBatch (b : Batch) : Type 0 where
  pub nonempty : 0 < length b.documents
  pub small : length b.documents ≤ batch_size
  pub bare : All (λ d. d.next_urls ≡ []) b.documents

pub record Inv (b : Batcher) (c : Collection) : Type 0 where
  pub room : length b.items < batch_size
  pub batches : All IsBatch c.batches

bare_documents : (items : List UrlData) → All (λ d. d.next_urls ≡ []) (map strip items)
unfolding strip
bare_documents [] = tt
bare_documents (x ∷ xs) = (refl, bare_documents xs)

insert-IsBatch :
    (works : Bool) (c : Collection) (items : List UrlData)
    → 0 < length items
    → length items ≤ batch_size
    → All IsBatch c.batches
    → All IsBatch (insert_many works c (map strip items)).batches
unfolding insert_many
insert-IsBatch works c items some_ fits h = All-append IsBatch c.batches _ h (
  record {
    nonempty = omega (arith, length-map strip items);
    small = omega (arith, length-map strip items);
    bare = bare_documents items;
  },
  tt,
)

turn-Inv : (t : Turn) (b : Batcher) (c : Collection) → Inv b c → Inv (turn t b c).0 (turn t b c).1
unfolding turn on_tick
turn-Inv (ticks works) b c h = elim (Bool-cases (ltb 0 (length b.items))) [
  | inl pending ↦ record {
    room = omega arith;
    batches =
        rw pending
          (insert-IsBatch works c b.items (ltb→lt _ _ pending) (omega (arith, h.room)) h.batches);
  }
  | inr empty ↦ record { room = omega arith; batches = rw empty h.batches }
]
turn-Inv (receives none works) b c h = h
turn-Inv (receives (some doc) works) b c h =
    elim (Bool-cases (leb batch_size (length (b.items ++ doc ∷ [])))) [
      | inl full ↦
          rw (full, on_document)
            (record {
              room = omega arith;
              batches =
                  insert-IsBatch works c (b.items ++ doc ∷ []) (omega (arith, leb→le _ _ full))
                    (omega (arith, h.room, length-append b.items (doc ∷ []))) h.batches;
            })
      | inr space ↦ rw (space, on_document) (record { room = ground arith; batches = h.batches })
    ]

-- From a buffer with room, any run keeps the buffer below a hundred documents, and every batch that it
-- hands to InsertMany holds between one and a hundred documents, none with links.
pub batch_insert-Inv :
    (ts : List Turn) (b : Batcher) (c : Collection)
    → Inv b c
    → Inv (batch_insert ts b c).0 (batch_insert ts b c).1
unfolding batch_insert
batch_insert-Inv [] b c h = h
batch_insert-Inv (t ∷ ts) b c h =
    let (b', c') = turn t b c in batch_insert-Inv ts b' c' (turn-Inv t b c h)
