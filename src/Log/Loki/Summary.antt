-- ===== src/Log/Loki/Summary.antt =====
-- src/log/sink/loki.rs: the summary of an error page.
use ferrometer.Prelude.{
  ℕ, zero, suc, ◌≤◌, ◌≡◌, ◌≢◌, List, [], ◌∷◌, ◌++◌, false, length, length-append, take, All, ltb,
  if_split, arith,
}
use ferrometer.Prelude.Text.{Text, is_whitespace}
use ferrometer.Prelude.Text.Split.{words, join}
use ferrometer.Log.Loki.{summarize_body}

-- No line ends.
abbrev pub IsLine : Text → Type 0
IsLine s = All (λ c. c ≢ b'\n') s

append-IsLine : (s t : Text) → IsLine s → IsLine t → IsLine (s ++ t)
append-IsLine [] t h k = k
append-IsLine (c ∷ s) t h k = (h.0, append-IsLine s t h.1 k)

take-IsLine : (n : ℕ) (s : Text) → IsLine s → IsLine (take n s)
take-IsLine zero s h = tt
take-IsLine (suc n) [] h = tt
take-IsLine (suc n) (c ∷ s) h = (h.0, take-IsLine n s h.1)

length-take_lem : (n : ℕ) (s : Text) → length (take n s) ≤ n
length-take_lem zero s = omega arith
length-take_lem (suc n) [] = omega arith
length-take_lem (suc n) (c ∷ s) = omega (arith, length-take_lem n s)

no_space : (c : ℕ) → is_whitespace c ≡ false → c ≢ b'\n'
unfolding is_whitespace
no_space c h e = ground arith

words-IsLine : (s cur : Text) → IsLine cur → All IsLine (words s cur)
unfolding words
words-IsLine [] [] h = tt
words-IsLine [] (c ∷ cur) h = (h, tt)
words-IsLine (c ∷ s) [] h =
    if_split (λ cur. All IsLine (words s cur)) (is_whitespace c) (λ _. words-IsLine s [] tt)
      (λ e. words-IsLine s (c ∷ []) (no_space c e, tt))
words-IsLine (c ∷ s) (d ∷ cur) h =
    if_split (All IsLine) (is_whitespace c) (λ _. (h, words-IsLine s [] tt))
      (λ e.
        words-IsLine s ((d ∷ cur) ++ c ∷ [])
          (append-IsLine (d ∷ cur) (c ∷ []) h (no_space c e, tt)))

join-IsLine : (ps : List Text) → All IsLine ps → IsLine (join (b' ' ∷ []) ps)
unfolding join
join-IsLine [] h = tt
join-IsLine (p ∷ []) h = h.0
join-IsLine (p ∷ q ∷ ps) h =
    append-IsLine p _ h.0 ((λ e. absurd (omega (arith, e))), join-IsLine (q ∷ ps) h.1)

-- A summary is one line of at most 301 characters, whatever the server sent.
pub summarize_body-IsLine :
    (body : Text) → IsLine (summarize_body body) × (length (summarize_body body) ≤ 301)
unfolding summarize_body
summarize_body-IsLine body =
    let collapsed = join (b' ' ∷ []) (words body []) in
    let line : IsLine collapsed = join-IsLine (words body []) (words-IsLine body [] tt) in
    if_split (λ s. IsLine s × (length s ≤ 301)) (ltb 300 (length collapsed))
      (λ _. (
        append-IsLine (take 300 collapsed) (0x2026 ∷ []) (take-IsLine 300 collapsed line)
            ((λ e. absurd (omega (arith, e))), tt),
        omega (
          arith,
          length-append (take 300 collapsed) (0x2026 ∷ []),
          length-take_lem 300 collapsed,
        ),
      ))
      (λ short. (line, ground arith))
