-- ===== src/Log/Loki.antt =====
-- src/log/sink/loki.rs: the sink that pushes entries to Loki. The encoding of the message, its
-- compression and the exchange over HTTP are other crates', and parameters.
pub mod Streams
pub mod Labels
pub mod Summary
mod Tests
use ferrometer.Prelude.{
  ℕ, ◌+◌, ◌/◌, ◌%◌, List, [], ◌∷◌, ◌++◌, map, Option, none, some, Bool, true, false, ◌&&◌, any,
  is_empty, length, take, leb, ltb, ◌==◌, if◌then◌else◌,
}
use ferrometer.Prelude.Text.{Text, codes, contains, ends_with, trim_end_by, to_ascii_lowercase}
use ferrometer.Prelude.Text.Split.{words, join}
use ferrometer.Prelude.Text.Decimal.{decimal}
use ferrometer.Prelude.Maps.{Map, text_ord, labels_ord}
use ferrometer.Prelude.Maps.Groups.{group_by}
use ferrometer.Error.{
  Error, sink, sink_payload_too_large, sink_rejected, Result, ok, err, Foreign, done, failed,
  map_err, ◌>>=◌,
}
use ferrometer.Log.Source.{LogEntry}

pub record LabelPairAdapter : Type 0 where
  pub name : Text
  pub value : Text

pub record EntryAdapter : Type 0 where
  pub seconds : ℕ
  pub nanos : ℕ
  pub line : Text
  pub structured_metadata : List LabelPairAdapter

pub record StreamAdapter : Type 0 where
  pub labels : Text
  pub entries : List EntryAdapter
  pub hash : ℕ

abbrev label_pair : Text × Text → LabelPairAdapter
label_pair (name, value) = record { name = name; value = value }

-- A timestamp is in nanoseconds since the epoch; one before it counts as zero.
unfoldable pub adapter : LogEntry → EntryAdapter
adapter e = record {
  seconds = e.timestamp / 1_000_000_000;
  nanos = e.timestamp % 1_000_000_000;
  line = e.message;
  structured_metadata = map label_pair e.metadata;
}

abbrev pub escape_char : ℕ → Text
escape_char c =
    if c == b'\\'
    then b'\\' ∷ b'\\' ∷ []
    else if c == b'"'
    then b'\\' ∷ b'"' ∷ []
    else if c == b'\n'
    then b'\\' ∷ b'n' ∷ []
    else c ∷ []

unfoldable pub escape : Text → Text
escape [] = []
escape (c ∷ v) = escape_char c ++ escape v

abbrev pub label_text : Text × Text → Text
label_text (k, v) = k ++ b'=' ∷ b'"' ∷ (escape v ++ b'"' ∷ [])

-- The labels, with a comma before each but the first.
unfoldable pub label_texts : Map Text Text → Text
unfolding escape
label_texts [] = []
label_texts (l ∷ []) = label_text l
label_texts (l ∷ m ∷ ls) = label_text l ++ b',' ∷ label_texts (m ∷ ls)

unfoldable pub format_label_string : Map Text Text → Text
unfolding label_texts
format_label_string labels = b'{' ∷ (label_texts labels ++ b'}' ∷ [])

abbrev pub stream_of : Map Text Text × List EntryAdapter → StreamAdapter
stream_of (labels, entries) = record {
  labels = format_label_string labels;
  entries = entries;
  hash = 0;
}

-- `by_stream` of `build_body`.
unfoldable pub by_stream : List LogEntry → Map (Map Text Text) (List EntryAdapter)
unfolding group_by adapter
by_stream entries = group_by (λ e. e.labels) adapter entries []

-- The request of `build_body`.
unfoldable pub streams : List LogEntry → List StreamAdapter
unfolding by_stream format_label_string
streams entries = map stream_of (by_stream entries)

-- The error pages of servers, on one line of at most 300 characters and an ellipsis.
unfoldable pub summarize_body : Text → Text
unfolding words join
summarize_body body =
    let collapsed = join (b' ' ∷ []) (words body []) in
    if ltb 300 (length collapsed) then take 300 collapsed ++ 0x2026 ∷ [] else collapsed

unfoldable pub is_payload_too_large : ℕ → Text → Bool
unfolding to_ascii_lowercase contains codes
is_payload_too_large status body =
    if status == 413
    then true
    else any (contains (to_ascii_lowercase body)) (
        codes "larger than max"
        ∷ codes "too large"
        ∷ codes "too big"
        ∷ codes "exceeds the maximum"
        ∷ [])

unfoldable pub normalize_endpoint : Text → Text
unfolding trim_end_by ends_with codes
normalize_endpoint raw =
    let trimmed = trim_end_by (λ c. c == b'/') raw in
    if ends_with trimmed (codes "/loki/api/v1/push")
    then trimmed
    else trimmed ++ codes "/loki/api/v1/push"

-- `status.is_success()`
abbrev pub is_success : ℕ → Bool
is_success status = leb 200 status && ltb status 300

-- What comes back: a status, with how it is printed, and the body, which is empty if it cannot be read.
pub record Response : Type 0 where
  pub status : ℕ
  pub status_text : Text
  pub body : Text

abbrev classify : ℕ → Text → Text → Result (Unit {0})
classify status msg text =
    if is_payload_too_large status text
    then err (sink_payload_too_large msg)
    else if status == 400
    then err (sink_rejected msg)
    else err (sink msg)

unfoldable pub outcome : Response → Result (Unit {0})
unfolding summarize_body is_payload_too_large codes
outcome r =
    let text = summarize_body r.body in
    if is_success r.status
    then ok tt
    else classify r.status (codes "HTTP " ++ r.status_text ++ codes ": " ++ text) text

-- Encoding, snappy, and the POST of the body.
pub record Wire : Type 0 where
  pub encode : List StreamAdapter → Text
  pub compress : Text → Foreign Text
  pub post : Text → Foreign Response

unfoldable pub send : Wire → List LogEntry → Result (Unit {0})
unfolding streams outcome
send wire [] = ok tt
send wire (e ∷ es) =
    map_err (λ why. sink (codes "snappy compress: " ++ why))
      (wire.compress (wire.encode (streams (e ∷ es))))
    >>= λ body. map_err sink (wire.post body) >>= outcome
