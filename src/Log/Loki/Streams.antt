-- ===== src/Log/Loki/Streams.antt =====
-- src/log/sink/loki.rs: the streams of a request.
use ferrometer.Prelude.{◌≡◌, refl, ◌∙◌, List, [], ◌++◌, map, keep, length, arith, Bool}
use ferrometer.Prelude.Text.{Text}
use ferrometer.Prelude.Maps.{Map, text_ord, labels_ord, get}
use ferrometer.Prelude.Maps.Sorted.{IsSorted, total}
use ferrometer.Prelude.Maps.Groups.{
  entries_of, has_key, group_by-IsSorted, group_by-get, group_by-total,
}
use ferrometer.Log.Source.{LogEntry}
use ferrometer.Log.Loki.{EntryAdapter, adapter, by_stream, stream_of, streams}

abbrev pub labelled : Map Text Text → LogEntry → Bool
labelled labels e = has_key (λ e. e.labels) adapter labels e

pub record IsStreams (entries : List LogEntry) (by : Map (Map Text Text) (List EntryAdapter))
    : Type 0 where
  pub sorted : IsSorted by
  pub exact :
      (labels : Map Text Text)
      → entries_of (get labels by) ≡ map adapter (keep (labelled labels) entries)
  pub counted : total length by ≡ length entries

-- The streams of a request are one for each set of labels, in the order of the sets. In a stream
-- stand exactly the entries with its labels, in their order, and together the streams hold as many
-- entries as are sent: none is lost, sent twice or put into another stream.
pub streams-IsStreams :
    (entries : List LogEntry)
    → (by : Map (Map Text Text) (List EntryAdapter)) × (streams entries ≡ map stream_of by)
      × IsStreams entries by
unfolding streams by_stream
streams-IsStreams entries = (
  by_stream entries,
  refl,
  record {
    sorted = group_by-IsSorted (λ e. e.labels) adapter entries [] tt;
    exact = λ labels. group_by-get (λ e. e.labels) adapter labels entries [] ∙ nothing labels;
    counted = group_by-total (λ e. e.labels) adapter entries [] tt ∙ omega arith;
  },
)
  where
    nothing :
        (labels : Map Text Text)
        → entries_of (get {V = List EntryAdapter} labels [])
            ++ map adapter (keep (labelled labels) entries)
          ≡ map adapter (keep (labelled labels) entries)
    nothing labels = unfold get in refl
