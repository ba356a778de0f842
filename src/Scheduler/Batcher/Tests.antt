-- ===== src/Scheduler/Batcher/Tests.antt =====
-- Runs of the batcher, and its theorems at concrete inputs.
use distributed_web_crawler.Base.{
  ◌≡◌, refl, arith, true, false, none, some, List, [], ◌∷◌, ◌++◌, length, replicate, pos, ◌<◌,
}
use distributed_web_crawler.Common.Models.{UrlData}
use distributed_web_crawler.Scheduler.Batcher.{
  Batcher, Collection, Turn, ticks, receives, strip, on_document, batch_insert, batch_size,
}
use distributed_web_crawler.Scheduler.Batcher.Order.{
  accounted, accounted-batch_insert, tick_flushes, failed_batch_lost,
}
use distributed_web_crawler.Scheduler.Batcher.Sizes.{batch_insert-Inv}

abbrev page : UrlData
page = record {
  url = "http://a.org/";
  raw_html = "<html></html>";
  next_urls = "http://a.org/b" ∷ [];
  has_robots = false;
  depth = pos 0;
}

abbrev empty : Collection
empty = record { batches = [] }

abbrev idle : Batcher
idle = record { items = [] }

-- Ninety-nine pages wait.
abbrev nearly_full : Batcher
nearly_full = record { items = replicate 99 page }

abbrev turns : List Turn
turns = receives (some page) true ∷ receives none true ∷ receives (some page) true ∷ ticks true ∷ []

one_batch :
    (batch_insert turns idle empty).1.batches
    ≡ record { written = true; documents = strip page ∷ strip page ∷ [] } ∷ []
unfolding batch_insert
one_batch = refl

accounted-batch_insert_example :
    accounted (batch_insert turns idle empty) ≡ strip page ∷ strip page ∷ []
accounted-batch_insert_example = accounted-batch_insert turns idle empty

flushed : (batch_insert (turns ++ ticks false ∷ []) idle empty).0.items ≡ []
flushed = (tick_flushes turns false idle empty).0

batch_lost : (on_document page false nearly_full empty).0.items ≡ []
batch_lost = (failed_batch_lost page nearly_full empty (omega arith)).0

batch_insert-Inv_example : length (batch_insert turns nearly_full empty).0.items < batch_size
batch_insert-Inv_example =
    (batch_insert-Inv turns nearly_full empty (record { room = omega arith; batches = tt })).room
