-- ===== src/Log/Loki/Labels.antt =====
-- src/log/sink/loki.rs: the text of a set of labels can be read back.
use ferrometer.Prelude.{
  ℕ, zero, suc, ◌≤◌, ◌<◌, ◌≡◌, refl, ap, ◌∙◌, [], ◌∷◌, ◌++◌, append_assoc, Option, none, some,
  length, length-append, All, ◌==◌, if◌then◌else◌, arith,
}
use ferrometer.Prelude.Text.{Text}
use ferrometer.Prelude.Text.Split.{split_once}
use ferrometer.Prelude.Maps.{Map}
use ferrometer.Log.Loki.{escape_char, escape, label_text, label_texts, format_label_string}

abbrev before_rest : ℕ → Option (Text × Text) → Option (Text × Text)
before_rest c none = none
before_rest c (some (v, r)) = some (c ∷ v, r)

abbrev unescaped : ℕ → ℕ
unescaped d = if d == b'n' then b'\n' else d

-- A value up to its closing quote, and what is behind it.
unfoldable pub read_value : Text → Option (Text × Text)
read_value [] = none
read_value (c ∷ []) = if c == b'"' then some ([], []) else none
read_value (c ∷ d ∷ s) =
    let plain = read_value (d ∷ s) in
    let escaped = read_value s in
    if c == b'"'
    then some ([], d ∷ s)
    else if c == b'\\'
    then before_rest (unescaped d) escaped
    else before_rest c plain

read_value-char :
    (c : ℕ) (s v r : Text)
    → read_value s ≡ some (v, r)
    → read_value (escape_char c ++ s) ≡ some (c ∷ v, r)
unfolding read_value
read_value-char c [] v r h = ground arith
read_value-char c (d ∷ s) v r h = ground arith

read_value-escape : (v r : Text) → read_value (escape v ++ b'"' ∷ r) ≡ some (v, r)
unfolding escape read_value
read_value-escape [] [] = refl
read_value-escape [] (c ∷ r) = refl
read_value-escape (c ∷ v) r =
    ap read_value (append_assoc (escape_char c) (escape v) (b'"' ∷ r))
    ∙ read_value-char c (escape v ++ b'"' ∷ r) v r (read_value-escape v r)

abbrev at_value : Text → Option (Text × Text) → Option ((Text × Text) × Text)
at_value k none = none
at_value k (some (v, r)) = some ((k, v), r)

abbrev at_quote : Option (Text × Text) → Option ((Text × Text) × Text)
at_quote none = none
at_quote (some (k, [])) = none
at_quote (some (k, q ∷ s)) = at_value k (read_value s)

-- A label and what is behind it.
unfoldable pub read_label : Text → Option ((Text × Text) × Text)
unfolding read_value
read_label s = at_quote (split_once s b'=')

abbrev pub IsName : Text → Type 0
IsName k = split_once k b'=' ≡ none

split_once-name : (k r : Text) → IsName k → split_once (k ++ b'=' ∷ r) b'=' ≡ some (k, r)
unfolding split_once
split_once-name [] r h = refl
split_once-name (c ∷ k) r h = ground (arith, split_once-name k r)

read_label-label_text :
    (k v r : Text) → IsName k → read_label (label_text (k, v) ++ r) ≡ some ((k, v), r)
unfolding read_label
read_label-label_text k v r h =
    ap (λ s. at_quote (split_once s b'='))
      (append_assoc k (b'=' ∷ b'"' ∷ (escape v ++ b'"' ∷ [])) r
        ∙ ap (λ s. k ++ b'=' ∷ b'"' ∷ s) (append_assoc (escape v) (b'"' ∷ []) r))
    ∙ ap at_quote (split_once-name k (b'"' ∷ (escape v ++ b'"' ∷ r)) h)
    ∙ ap (at_value k) (read_value-escape v r)

abbrev pub before_labels : Text × Text → Option (Map Text Text) → Option (Map Text Text)
before_labels l none = none
before_labels l (some ls) = some (l ∷ ls)

-- The labels up to the closing brace, with fuel.
unfoldable pub read_labels : ℕ → Text → Option (Map Text Text)
read_labels zero s = none
read_labels (suc fuel) s = elim (read_label s) [
  | none ↦ none
  | some (l, []) ↦ none
  | some (l, c ∷ r) ↦ (if c == b',' then before_labels l (read_labels fuel r) else some (l ∷ []))
]

unfoldable pub read_label_string : ℕ → Text → Option (Map Text Text)
unfolding read_labels
read_label_string fuel [] = none
read_label_string fuel (c ∷ []) = none
read_label_string fuel (c ∷ d ∷ []) = some []
read_label_string fuel (c ∷ d ∷ e ∷ s) = read_labels fuel (d ∷ e ∷ s)

abbrev pub AllNames : Map Text Text → Type 0
AllNames ls = All (λ l. IsName l.0) ls

read_labels-step :
    (fuel : ℕ) (s : Text) {l : Text × Text} {c : ℕ} {r : Text}
    → read_label s ≡ some (l, c ∷ r)
    → read_labels (suc fuel) s
      ≡ (if c == b',' then before_labels l (read_labels fuel r) else some (l ∷ []))
unfolding read_labels
read_labels-step fuel s e = rw (read_labels, e) refl

read_labels-label_texts :
    (fuel : ℕ) (l : Text × Text) (ls : Map Text Text)
    → AllNames (l ∷ ls)
    → length ls < fuel
    → read_labels fuel (label_texts (l ∷ ls) ++ b'}' ∷ []) ≡ some (l ∷ ls)
unfolding label_texts
read_labels-label_texts zero l ls h f = absurd (omega arith)
read_labels-label_texts (suc fuel) l [] h f =
    read_labels-step fuel (label_text l ++ b'}' ∷ [])
      (read_label-label_text l.0 l.1 (b'}' ∷ []) h.0)
read_labels-label_texts (suc fuel) l (m ∷ ls) h f =
    ap (read_labels (suc fuel))
      (append_assoc (label_text l) (b',' ∷ label_texts (m ∷ ls)) (b'}' ∷ []))
    ∙ read_labels-step fuel (label_text l ++ b',' ∷ (label_texts (m ∷ ls) ++ b'}' ∷ []))
        (read_label-label_text l.0 l.1 (b',' ∷ (label_texts (m ∷ ls) ++ b'}' ∷ [])) h.0)
    ∙ ap (before_labels l) (read_labels-label_texts fuel m ls h.1 (omega arith))

read_label_string-long :
    (fuel c : ℕ) (t : Text) → 2 ≤ length t → read_label_string fuel (c ∷ t) ≡ read_labels fuel t
unfolding read_label_string
read_label_string-long fuel c [] h = absurd (omega arith)
read_label_string-long fuel c (d ∷ []) h = absurd (omega arith)
read_label_string-long fuel c (d ∷ e ∷ t) h = refl

label_texts-long : (l : Text × Text) (ls : Map Text Text) → 2 ≤ length (label_texts (l ∷ ls))
unfolding label_texts
label_texts-long l [] = omega (
  arith,
  length-append l.0 (b'=' ∷ b'"' ∷ (escape l.1 ++ b'"' ∷ [])),
  length-append (escape l.1) (b'"' ∷ []),
)
label_texts-long l (m ∷ ls) =
    omega (arith, length-append (label_text l) (b',' ∷ label_texts (m ∷ ls)), label_texts-long m ls)

-- The text of a set of labels, whatever its values are, is read back as this set if no name has the
-- sign `=` in it. So values cannot break out of their quotes.
pub read_label_string-format_label_string :
    (ls : Map Text Text)
    → AllNames ls
    → read_label_string (length ls) (format_label_string ls) ≡ some ls
unfolding format_label_string
read_label_string-format_label_string [] h = unfold read_label_string in refl
read_label_string-format_label_string (l ∷ ls) h =
    read_label_string-long (suc (length ls)) b'{' (label_texts (l ∷ ls) ++ b'}' ∷ [])
      (omega (arith, length-append (label_texts (l ∷ ls)) (b'}' ∷ []), label_texts-long l ls))
    ∙ read_labels-label_texts (suc (length ls)) l ls h (omega arith)
