-- ===== src/Log/Loki/Tests.antt =====
-- src/log/sink/loki.rs: the tests of the source, and instances of the theorems.
use ferrometer.Prelude.{◌≡◌, refl, List, [], ◌∷◌, map, some, true, false}
use ferrometer.Prelude.Text.{Text, codes}
use ferrometer.Prelude.Text.Split.{split_once}
use ferrometer.Prelude.Maps.{Map}
use ferrometer.Log.Source.{LogEntry}
use ferrometer.Log.Loki.{
  EntryAdapter, is_payload_too_large, normalize_endpoint, summarize_body, format_label_string,
  streams, stream_of,
}
use ferrometer.Log.Loki.Streams.{IsStreams, streams-IsStreams}
use ferrometer.Log.Loki.Labels.{read_label_string, read_label_string-format_label_string}

too_large : is_payload_too_large 502 (codes "<html>413 Request Entity Too Large</html>") ≡ true
unfolding codes is_payload_too_large
too_large = refl

too_far_behind : is_payload_too_large 400 (codes "entry too far behind") ≡ false
unfolding codes is_payload_too_large
too_far_behind = refl

adds_path :
    normalize_endpoint (codes "http://loki:3100//") ≡ codes "http://loki:3100/loki/api/v1/push"
unfolding codes normalize_endpoint
adds_path = refl

one_line : summarize_body (codes "rpc error:\n code\n") ≡ codes "rpc error: code"
unfolding codes summarize_body
one_line = refl

abbrev quoted : Map Text Text
quoted = (codes "unit", codes "a\"b\\") ∷ (codes "x", []) ∷ []

prints : format_label_string quoted ≡ codes "{unit=\"a\\\"b\\\\\",x=\"\"}"
unfolding codes format_label_string
prints = refl

abbrev at : Text → Map Text Text → LogEntry
at message labels = record { timestamp = 1; message = message; labels = labels; metadata = [] }

abbrev three : List LogEntry
three = at (codes "a") quoted ∷ at (codes "b") [] ∷ at (codes "c") quoted ∷ []

streams-IsStreams_example :
    (by : Map (Map Text Text) (List EntryAdapter)) × (streams three ≡ map stream_of by)
    × IsStreams three by
streams-IsStreams_example = streams-IsStreams three

read_label_string-format_label_string_example :
    read_label_string 2 (format_label_string quoted) ≡ some quoted
unfolding codes split_once
read_label_string-format_label_string_example =
    read_label_string-format_label_string quoted (refl, (refl, tt))
