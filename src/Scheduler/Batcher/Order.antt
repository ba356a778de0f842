-- ===== src/Scheduler/Batcher/Order.antt =====
-- scheduler/internal/db/db.go: the documents that `BatchInsert` hands to `InsertMany`, and their order.
use distributed_web_crawler.Base.{
  false, if◌then◌else◌, suc, ◌+◌, lt→ltb, le→leb, length-append, ◌++◌, ◌≡◌, refl, ◌∙◌, sym, ap,
  Bool, none, some, List, [], ◌∷◌, map, append-nil, append_assoc, map-append, arith, length, leb,
  Bool-cases, inl, inr,
}
use distributed_web_crawler.Common.Models.{UrlData}
use distributed_web_crawler.Scheduler.Batcher.{
  turn, Batcher, Batch, Collection, Turn, ticks, receives, insert_many, strip, on_tick, on_document,
  batch_insert, batch_size,
}

-- The documents of all calls, in order.
abbrev pub inserted : List Batch → List UrlData
inserted [] = []
inserted (b ∷ bs) = b.documents ++ inserted bs

inserted-append : (xs ys : List Batch) → inserted (xs ++ ys) ≡ inserted xs ++ inserted ys
inserted-append [] ys = refl
inserted-append (x ∷ xs) ys =
    rw (inserted-append xs ys) (sym (append_assoc x.documents (inserted xs) (inserted ys)))

-- The bodies of a run that decode, in order.
abbrev pub received : List Turn → List UrlData
received [] = []
received (ticks works ∷ ts) = received ts
received (receives none works ∷ ts) = received ts
received (receives (some doc) works ∷ ts) = doc ∷ received ts

-- What has been handed to `InsertMany`, and what would be if the buffer were flushed now.
abbrev pub accounted : Batcher × Collection → List UrlData
accounted (b, c) = inserted c.batches ++ map strip b.items

insert_accounted :
    (works : Bool) (c : Collection) (documents : List UrlData)
    → accounted (record { items = [] }, insert_many works c documents)
      ≡ inserted c.batches ++ documents
unfolding insert_many
insert_accounted works c documents =
    append-nil _
    ∙ inserted-append c.batches _
    ∙ ap (◌++◌ (inserted c.batches)) (append-nil documents)

tick_accounted :
    (works : Bool) (items : List UrlData) (c : Collection)
    → accounted (on_tick works (record { items = items }) c) ≡ inserted c.batches ++ map strip items
unfolding on_tick
tick_accounted works [] c = refl
tick_accounted works (x ∷ xs) c =
    rw (lt→ltb 0 (suc (length xs)) (omega arith)) (insert_accounted works c (map strip (x ∷ xs)))

strip-snoc :
    (c : Collection) (items : List UrlData) (doc : UrlData)
    → inserted c.batches ++ map strip (items ++ doc ∷ [])
      ≡ inserted c.batches ++ map strip items ++ strip doc ∷ []
strip-snoc c items doc =
    ap (◌++◌ (inserted c.batches)) (map-append strip items (doc ∷ []))
    ∙ sym (append_assoc (inserted c.batches) (map strip items) (strip doc ∷ []))

document_accounted :
    (doc : UrlData) (works : Bool) (b : Batcher) (c : Collection)
    → accounted (on_document doc works b c)
      ≡ inserted c.batches ++ map strip b.items ++ strip doc ∷ []
unfolding on_document
document_accounted doc works b c =
    elim (Bool-cases (leb batch_size (length (b.items ++ doc ∷ [])))) [
      | inl full ↦
          rw (full, on_document)
            (insert_accounted works c (map strip (b.items ++ doc ∷ [])) ∙ strip-snoc c b.items doc)
      | inr room ↦ rw (room, on_document) (strip-snoc c b.items doc)
    ]

-- Each body that decodes is handed to InsertMany exactly once and in the order of arrival, with its
-- links removed, or still waits in the buffer, whatever ticks, broken bodies and failed inserts there
-- are.
pub accounted-batch_insert :
    (ts : List Turn) (b : Batcher) (c : Collection)
    → accounted (batch_insert ts b c) ≡ accounted (b, c) ++ map strip (received ts)
unfolding batch_insert
accounted-batch_insert [] b c = sym (append-nil _)
accounted-batch_insert (ticks works ∷ ts) b c =
    let (b', c') = on_tick works b c in
    accounted-batch_insert ts b' c'
    ∙ ap (λ (l : List UrlData). l ++ map strip (received ts)) (tick_accounted works b.items c)
accounted-batch_insert (receives none works ∷ ts) b c = accounted-batch_insert ts b c
accounted-batch_insert (receives (some doc) works ∷ ts) b c =
    let (b', c') = on_document doc works b c in
    accounted-batch_insert ts b' c'
    ∙ ap (λ (l : List UrlData). l ++ map strip (received ts)) (document_accounted doc works b c)
    ∙ append_assoc (accounted (b, c)) (strip doc ∷ []) (map strip (received ts))

batch_insert-append :
    (ts us : List Turn) (b : Batcher) (c : Collection)
    → batch_insert (ts ++ us) b c ≡ batch_insert us (batch_insert ts b c).0 (batch_insert ts b c).1
unfolding batch_insert
batch_insert-append [] us b c = refl
batch_insert-append (t ∷ ts) us b c = let (b', c') = turn t b c in batch_insert-append ts us b' c'

received-append : (ts us : List Turn) → received (ts ++ us) ≡ received ts ++ received us
received-append [] us = refl
received-append (ticks works ∷ ts) us = received-append ts us
received-append (receives none works ∷ ts) us = received-append ts us
received-append (receives (some doc) works ∷ ts) us = ap (◌∷◌ doc) (received-append ts us)

tick_empties :
    (ts : List Turn) (works : Bool) (b : Batcher) (c : Collection)
    → (batch_insert (ts ++ ticks works ∷ []) b c).0.items ≡ []
unfolding batch_insert turn on_tick
tick_empties ts works b c = rw (batch_insert-append ts (ticks works ∷ []) b c)

-- A tick leaves nothing waiting: after it every document that was buffered or received before has been
-- handed to InsertMany, in order and once.
pub tick_flushes :
    (ts : List Turn) (works : Bool) (b : Batcher) (c : Collection)
    → let (b', c') = batch_insert (ts ++ ticks works ∷ []) b c in
      (b'.items ≡ [])
      × (inserted c'.batches ≡ inserted c.batches ++ map strip b.items ++ map strip (received ts))
tick_flushes ts works b c = (tick_empties ts works b c, all)
  where
    same : received (ts ++ ticks works ∷ []) ≡ received ts
    same = received-append ts (ticks works ∷ []) ∙ append-nil (received ts)

    all :
        inserted (batch_insert (ts ++ ticks works ∷ []) b c).1.batches
        ≡ inserted c.batches ++ map strip b.items ++ map strip (received ts)
    all =
        sym (append-nil _)
        ∙ ap
            (λ (l : List UrlData).
              inserted (batch_insert (ts ++ ticks works ∷ []) b c).1.batches ++ map strip l)
            (sym (tick_empties ts works b c))
        ∙ accounted-batch_insert (ts ++ ticks works ∷ []) b c
        ∙ ap (λ (l : List UrlData). accounted (b, c) ++ map strip l) same

-- The documents that reached the collection.
abbrev pub stored : List Batch → List UrlData
stored [] = []
stored (b ∷ bs) = if b.written then b.documents ++ stored bs else stored bs

stored-failed :
    (bs : List Batch) (documents : List UrlData)
    → stored (bs ++ record { written = false; documents = documents } ∷ []) ≡ stored bs
stored-failed [] documents = refl
stored-failed (b ∷ bs) documents = ground (arith, stored-failed bs documents)

-- The hundredth document together with a failing insert: all hundred leave the buffer and none is
-- stored.
pub failed_batch_lost :
    (doc : UrlData) (b : Batcher) (c : Collection)
    → length b.items + 1 ≡ batch_size
    → let (b', c') = on_document doc false b c in
      (b'.items ≡ []) × (stored c'.batches ≡ stored c.batches)
unfolding on_document insert_many
failed_batch_lost doc b c h =
    rw
      (
        le→leb batch_size (length (b.items ++ doc ∷ []))
            (omega (arith, h, length-append b.items (doc ∷ []))),
        on_document,
      )
      (refl, stored-failed c.batches _)
