-- ===== src/Config/Placeholders/Templates.antt =====
-- src/config.rs: what the expansion of placeholders does to any text.
use ferrometer.Prelude.{
  ℕ, zero, suc, ◌<◌, ◌≡◌, refl, sym, ap, subst, ◌∙◌, [], ◌∷◌, ◌++◌, append_assoc, none, some,
  length, length-append, arith, ◌==◌, ◌⊎◌, inl, inr, Bool-cases, Option-cases,
}
use ferrometer.Prelude.Text.{Text, strip_prefix}
use ferrometer.Prelude.Text.Split.{split_at, split_once}
use ferrometer.Error.{Result, ok, err, ◌>>=◌}
use ferrometer.Config.Placeholders.{
  Environment, Round, finished, again, with_value, at_end, at_start, expand_round, value_of,
  unterminated, expand_loop, expand_fuelled, expand_placeholders, or_cut,
}

-- A text as its pieces: a literal at the end; a literal, a placeholder `${inner}` and the rest; or a
-- literal and a `${` that is never closed.
pub data Template : Type 0 where
  literal : Text → Template
  hole : Text → Text → Template → Template
  open_hole : Text → Text → Template

abbrev pub opening : Text
opening = b'$' ∷ b'{' ∷ []

pub render : Template → Text
render (literal t) = t
render (hole t inner rest) = t ++ b'$' ∷ b'{' ∷ (inner ++ b'}' ∷ render rest)
render (open_hole t inner) = t ++ b'$' ∷ b'{' ∷ inner

abbrev pub IsLiteral : Text → Type 0
IsLiteral t = split_at t opening ≡ none

abbrev pub IsInner : Text → Type 0
IsInner t = split_once t b'}' ≡ none

-- No literal contains `${`, and nothing inside a placeholder is a `}`.
pub IsProper : Template → Type 0
IsProper (literal t) = IsLiteral t
IsProper (hole t inner rest) = IsLiteral t × IsInner inner × IsProper rest
IsProper (open_hole t inner) = IsLiteral t × IsInner inner

-- Every placeholder replaced by its value, once; the first one without a value is the error.
pub fill : Environment → Text → Text → Template → Result Text
fill env instance_name s (literal t) = ok t
fill env instance_name s (hole t inner rest) = value_of env instance_name s inner >>= λ value.
    fill env instance_name s rest >>= λ more. ok (t ++ (value ++ more))
fill env instance_name s (open_hole t inner) = err (unterminated s)

split_at-opening :
    (t r : Text) → IsLiteral t → split_at (t ++ b'$' ∷ b'{' ∷ r) opening ≡ some (t, r)
unfolding split_at strip_prefix
split_at-opening [] r h = refl
split_at-opening (c ∷ []) r h = ground (arith, split_at-opening [] r)
split_at-opening (c ∷ d ∷ t) r h = ground (arith, split_at-opening (d ∷ t) r)

split_once-closing : (t r : Text) → IsInner t → split_once (t ++ b'}' ∷ r) b'}' ≡ some (t, r)
unfolding split_once
split_once-closing [] r h = refl
split_once-closing (c ∷ t) r h = ground (arith, split_once-closing t r)

-- The text before a result.
abbrev pub behind : Text → Result Text → Result Text
behind out r = r >>= λ t. ok (out ++ t)

behind-append :
    (out t value : Text) (r : Result Text)
    → behind ((out ++ t) ++ value) r ≡ behind out (r >>= λ more. ok (t ++ (value ++ more)))
behind-append out t value (err e) = refl
behind-append out t value (ok more) =
    ap ok (append_assoc (out ++ t) value more ∙ append_assoc out t (value ++ more))

round-literal :
    (env : Environment) (instance_name s out t : Text)
    → IsLiteral t
    → expand_round env instance_name s out t ≡ finished (ok (out ++ t))
unfolding expand_round
round-literal env instance_name s out t h = rw h refl

round-hole :
    (env : Environment) (instance_name s out t inner rest : Text)
    → IsLiteral t
    → IsInner inner
    → expand_round env instance_name s out (t ++ b'$' ∷ b'{' ∷ (inner ++ b'}' ∷ rest))
      ≡ with_value (out ++ t) rest (value_of env instance_name s inner)
unfolding expand_round
round-hole env instance_name s out t inner rest h k =
    ap (at_start env instance_name s out _) (split_at-opening t (inner ++ b'}' ∷ rest) h)
    ∙ ap (at_end env instance_name s (out ++ t)) (split_once-closing inner rest k)

round-open_hole :
    (env : Environment) (instance_name s out t inner : Text)
    → IsLiteral t
    → IsInner inner
    → expand_round env instance_name s out (t ++ b'$' ∷ b'{' ∷ inner)
      ≡ finished (err (unterminated s))
unfolding expand_round
round-open_hole env instance_name s out t inner h k =
    ap (at_start env instance_name s out _) (split_at-opening t inner h)
    ∙ ap (at_end env instance_name s (out ++ t)) k

expand_loop-again :
    (fuel : ℕ) (env : Environment) (instance_name s out rest : Text) {r : Round}
    → expand_round env instance_name s out rest ≡ r
    → expand_loop (suc fuel) env instance_name s out rest ≡ elim r [
      | finished r ↦ some r
      | again out' rest' ↦ expand_loop fuel env instance_name s out' rest'
    ]
unfolding expand_loop
expand_loop-again fuel env instance_name s out rest {r} e = rw (expand_loop, e) refl

expand_loop-fill :
    (fuel : ℕ) (env : Environment) (instance_name s out : Text) (t : Template)
    → IsProper t
    → length (render t) < fuel
    → expand_loop fuel env instance_name s out (render t)
      ≡ some (behind out (fill env instance_name s t))
unfolding render IsProper fill
expand_loop-fill zero env instance_name s out t h f = absurd (omega arith)
expand_loop-fill (suc fuel) env instance_name s out (literal t) h f =
    expand_loop-again fuel env instance_name s out t (round-literal env instance_name s out t h)
expand_loop-fill (suc fuel) env instance_name s out (open_hole t inner) h f =
    expand_loop-again fuel env instance_name s out _
      (round-open_hole env instance_name s out t inner h.0 h.1)
expand_loop-fill (suc fuel) env instance_name s out (hole t inner rest) h f =
    expand_loop-again fuel env instance_name s out _
      (round-hole env instance_name s out t inner (render rest) h.0 h.1)
    ∙ go (value_of env instance_name s inner)
        (λ value. expand_loop-fill fuel env instance_name s ((out ++ t) ++ value) rest h.2 shorter)
  where
    shorter : length (render rest) < fuel
    shorter = omega (
      arith,
      length-append t (b'$' ∷ b'{' ∷ (inner ++ b'}' ∷ render rest)),
      length-append inner (b'}' ∷ render rest),
    )

    go :
        (v : Result Text)
        → ((value : Text)
            → expand_loop fuel env instance_name s ((out ++ t) ++ value) (render rest)
              ≡ some (behind ((out ++ t) ++ value) (fill env instance_name s rest)))
        → elim (with_value (out ++ t) (render rest) v) [
          | finished r ↦ some r
          | again out' rest' ↦ expand_loop fuel env instance_name s out' rest'
        ]
          ≡ some (
              behind out (
                v >>= λ value. fill env instance_name s rest >>= λ more. ok (t ++ (value ++ more))))
    go (err e) ih = refl
    go (ok value) ih =
        ih value ∙ ap some (behind-append out t value (fill env instance_name s rest))

strip_prefix-before :
    (c : ℕ) (a r : Text)
    → strip_prefix (c ∷ (a ++ b'$' ∷ r)) opening ≡ none
    → strip_prefix (c ∷ a) opening ≡ none
unfolding strip_prefix
strip_prefix-before c [] r h = ground arith
strip_prefix-before c (d ∷ a) r h = ground arith

strip_prefix-opening : (s r : Text) → strip_prefix s opening ≡ some r → b'$' ∷ b'{' ∷ r ≡ s
unfolding strip_prefix
strip_prefix-opening [] r h = cc
strip_prefix-opening (c ∷ []) r h = ground arith
strip_prefix-opening (c ∷ d ∷ s) r h = ground arith

split_at-step :
    (c : ℕ) (s : Text)
    → strip_prefix (c ∷ s) opening ≡ none
    → split_at (c ∷ s) opening
      ≡ elim (split_at s opening) [ none ↦ none | some (a, b) ↦ some (c ∷ a, b) ]
unfolding split_at
split_at-step c s h = rw (split_at, h) refl

split_at-parts :
    (s : Text)
    → (split_at s opening ≡ none)
      ⊎ ((a b : Text) × (split_at s opening ≡ some (a, b))
          × IsLiteral a
          × (a ++ b'$' ∷ b'{' ∷ b ≡ s))
unfolding split_at strip_prefix
split_at-parts [] = inl refl
split_at-parts (c ∷ s) = elim (Option-cases (strip_prefix (c ∷ s) opening)) [
  | inr (r, e) ↦ inr ([], r, rw (split_at, e) refl, refl, strip_prefix-opening (c ∷ s) r e)
  | inl rest ↦ elim (split_at-parts s) [
    | inl none_left ↦ inl (split_at-step c s rest ∙ rw none_left refl)
    | inr (a, b, e, i, j) ↦ inr (
      c ∷ a,
      b,
      split_at-step c s rest ∙ rw e refl,
      split_at-step c a (
            strip_prefix-before c a (b'{' ∷ b)
              (subst (λ t. strip_prefix (c ∷ t) opening ≡ none) (sym j) rest))
          ∙ rw i refl,
      ap (λ t. c ∷ t) j,
    )
  ]
]

split_once-parts :
    (s : Text)
    → (split_once s b'}' ≡ none)
      ⊎ ((a b : Text) × (split_once s b'}' ≡ some (a, b)) × IsInner a × (a ++ b'}' ∷ b ≡ s))
unfolding split_once
split_once-parts [] = inl refl
split_once-parts (c ∷ s) = elim (Bool-cases (c == b'}')) [
  | inl closes ↦ inr ([], s, rw closes refl, refl, ground arith)
  | inr goes_on ↦ elim (split_once-parts s) [
    | inl none_left ↦ inl (rw (goes_on, none_left) refl)
    | inr (a, b, e, i, j) ↦
        inr (c ∷ a, b, rw (goes_on, e) refl, rw (goes_on, i) refl, ap (λ t. c ∷ t) j)
  ]
]

-- Every text is made of such pieces.
pub template_of :
    (fuel : ℕ) (s : Text) → length s < fuel → (t : Template) × IsProper t × (render t ≡ s)
unfolding IsProper render
template_of zero s f = absurd (omega arith)
template_of (suc fuel) s f = elim (split_at-parts s) [
  | inl none_left ↦ (literal s, none_left, refl)
  | inr (a, b, e, i, j) ↦ elim (split_once-parts b) [
    | inl none_left ↦ (open_hole a b, (i, none_left), j)
    | inr (inner, rest, e', i', j') ↦
        let shorter : length rest < fuel = omega (
          arith,
          ap length j,
          ap length j',
          length-append a (b'$' ∷ b'{' ∷ b),
          length-append inner (b'}' ∷ rest),
        ) in
        let (t, proper, r) = template_of fuel rest shorter in
        (
          hole a inner t,
          (i, i', proper),
          ap (λ u. a ++ b'$' ∷ b'{' ∷ (inner ++ b'}' ∷ u)) r
              ∙ ap (λ u. a ++ b'$' ∷ b'{' ∷ u) j'
              ∙ j,
        )
  ]
]

-- Every text is a template, and its expansion follows it: the literals stand as they are,
-- each placeholder is replaced by its value once, and what a value brings in is not expanded again.
-- The first placeholder without a value, or one that is never closed, makes the expansion fail with
-- the error about it. The expansion always ends.
pub expand_placeholders-fill :
    (env : Environment) (instance_name s : Text)
    → (t : Template) × IsProper t
      × (render t ≡ s)
      × (expand_placeholders env instance_name s ≡ fill env instance_name s t)
unfolding expand_placeholders expand_fuelled
expand_placeholders-fill env instance_name s =
    let (t, proper, r) = template_of (suc (length s)) s (omega arith) in
    (
      t,
      proper,
      r,
      ap (λ u. or_cut s (expand_loop (suc (length s)) env instance_name s [] u)) (sym r)
          ∙ ap (or_cut s) (
              expand_loop-fill (suc (length s)) env instance_name s [] t proper
                (omega (arith, ap length r)))
          ∙ behind-nil (fill env instance_name s t),
    )
  where
    behind-nil : (r : Result Text) → behind [] r ≡ r
    behind-nil (ok t) = refl
    behind-nil (err e) = refl
