-- ===== src/Scheduler/Batcher/Stored.antt =====
-- scheduler/internal/db/db.go: what reaches the collection while `InsertMany` works.
use distributed_web_crawler.Base.{
  true, suc, lt→ltb, ◌++◌, ◌≡◌, refl, ◌∙◌, sym, ap, none, some, Option, List, [], ◌∷◌, map,
  append-nil, append_assoc, map-append, arith, length, leb, Bool-cases, inl, inr,
}
use distributed_web_crawler.Common.Models.{UrlData}
use distributed_web_crawler.Scheduler.Batcher.{
  turn, Batcher, Batch, Collection, ticks, receives, insert_many, strip, on_tick, on_document,
  batch_size,
}
use distributed_web_crawler.Scheduler.Batcher.Order.{stored}

stored-append : (xs ys : List Batch) → stored (xs ++ ys) ≡ stored xs ++ stored ys
stored-append [] ys = refl
stored-append (x ∷ xs) ys = elim (Bool-cases x.written) [
  | inl written ↦
      rw (written, stored-append xs ys) (sym (append_assoc x.documents (stored xs) (stored ys)))
  | inr lost ↦ rw (lost, stored-append xs ys) refl
]

-- What is in the collection, and what would be if the buffer were flushed now.
abbrev pub kept : Batcher × Collection → List UrlData
kept (b, c) = stored c.batches ++ map strip b.items

insert_kept :
    (c : Collection) (documents : List UrlData)
    → stored (insert_many true c documents).batches ≡ stored c.batches ++ documents
unfolding insert_many
insert_kept c documents =
    stored-append c.batches _ ∙ ap (◌++◌ (stored c.batches)) (append-nil documents)

pub tick_kept :
    (b : Batcher) (c : Collection)
    → let (b', c') = turn (ticks true) b c in (b'.items ≡ []) × (stored c'.batches ≡ kept (b, c))
unfolding turn on_tick
tick_kept b c = tick b.items c
  where
    tick :
        (items : List UrlData) (c : Collection)
        → let (b', c') = turn (ticks true) (record { items = items }) c in
          (b'.items ≡ []) × (stored c'.batches ≡ stored c.batches ++ map strip items)
    tick [] c = (refl, sym (append-nil (stored c.batches)))
    tick (x ∷ xs) c =
        rw (lt→ltb 0 (suc (length xs)) (omega arith)) (refl, insert_kept c (map strip (x ∷ xs)))

document_kept :
    (doc : UrlData) (b : Batcher) (c : Collection)
    → kept (on_document doc true b c) ≡ kept (b, c) ++ strip doc ∷ []
unfolding on_document
document_kept doc b c =
    let snoc : stored c.batches ++ map strip (b.items ++ doc ∷ []) ≡ kept (b, c) ++ strip doc ∷ [] =
      ap (◌++◌ (stored c.batches)) (map-append strip b.items (doc ∷ []))
      ∙ sym (append_assoc (stored c.batches) (map strip b.items) (strip doc ∷ [])) in
    elim (Bool-cases (leb batch_size (length (b.items ++ doc ∷ [])))) [
      | inl full ↦
          rw (full, on_document)
            (append-nil _ ∙ insert_kept c (map strip (b.items ++ doc ∷ [])) ∙ snoc)
      | inr room ↦ rw (room, on_document) snoc
    ]

-- A body that decodes is kept behind what was, one that does not changes nothing.
pub receive_kept :
    (page : Option UrlData) (b : Batcher) (c : Collection)
    → kept (turn (receives page true) b c)
      ≡ kept (b, c) ++ map strip (elim page [ none ↦ [] | some doc ↦ doc ∷ [] ])
unfolding turn
receive_kept none b c = sym (append-nil (kept (b, c)))
receive_kept (some doc) b c = document_kept doc b c
