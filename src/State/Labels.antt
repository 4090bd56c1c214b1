-- ===== src/State/Labels.antt =====
-- `escape_prometheus_label` of src/http/http_server.cpp, on the bytes of the text.
use scada_guard.Prelude.{
  ℕ, Bool, true, false, List, [], ◌∷◌, ◌++◌, ◌≡◌, refl, ◌==◌, if◌then◌else◌, Bool-cases, inl, inr,
  ==→eq,
}

-- `"`, `\`, `n` and the line feed.
abbrev quote : ℕ
quote = 34

abbrev backslash : ℕ
backslash = 92

abbrev letter_n : ℕ
letter_n = 110

abbrev line_feed : ℕ
line_feed = 10

unfoldable pub escape_prometheus_label : List ℕ → List ℕ
escape_prometheus_label [] = []
escape_prometheus_label (c ∷ cs) =
    let rest = escape_prometheus_label cs in
    if c == backslash
    then backslash ∷ backslash ∷ rest
    else if c == quote
    then backslash ∷ quote ∷ rest
    else if c == line_feed
    then backslash ∷ letter_n ∷ rest
    else c ∷ rest

-- A reader of a quoted label, by the exposition format: what stands before the closing quote, and
-- what follows it.
pub read_label : (escaped : Bool) → List ℕ → List ℕ × List ℕ
read_label escaped [] = ([], [])
read_label true (c ∷ cs) =
    let rest = read_label false cs in ((if c == letter_n then line_feed else c) ∷ rest.0, rest.1)
read_label false (c ∷ cs) =
    let rest = read_label false cs in
    let pair = read_label true cs in
    if c == quote then ([], cs) else if c == backslash then pair else (c ∷ rest.0, rest.1)

-- Whatever bytes a label has, a reader of the metrics that undoes the escapes gets them back from
-- the escaped label and a closing quote, and goes on behind the quote.
pub read_label-escape_prometheus_label :
    (cs rest : List ℕ) → read_label false (escape_prometheus_label cs ++ quote ∷ rest) ≡ (cs, rest)
unfolding read_label escape_prometheus_label
read_label-escape_prometheus_label [] rest = refl
read_label-escape_prometheus_label (c ∷ cs) rest =
    let later = read_label-escape_prometheus_label cs rest in
    elim (Bool-cases (c == backslash)) [
      | inl e ↦ rw (e, escape_prometheus_label) (rw (later, ==→eq c backslash e) refl)
      | inr a ↦ elim (Bool-cases (c == quote)) [
        | inl e ↦ rw (a, e, escape_prometheus_label) (rw (later, ==→eq c quote e) refl)
        | inr b ↦ elim (Bool-cases (c == line_feed)) [
          | inl e ↦ rw (a, b, e, escape_prometheus_label) (rw (later, ==→eq c line_feed e) refl)
          | inr d ↦ rw (a, b, d, escape_prometheus_label) (rw (a, b, later, read_label) refl)
        ]
      ]
    ]
