-- ===== src/Examples/Libs.antt =====
-- Instances of the interfaces: documents as trees, times as unary texts, numbers for `double`.
use Prim.Native.Char.{nul, code}
use scada_guard.Prelude.{
  ℤ, ℕ, zero, suc, ◌+◌, ◌-◌, ◌*◌, ◌/◌, max, String, Bool, true, false, Option, none, some, List, [],
  ◌∷◌, ◌≡◌, refl, ap, str_eq, ltb, leb, ◌==◌, if◌then◌else◌, pos, pos_part, ltb_ℤ,
}
use scada_guard.Model.{JsonLib, UtcLib, ticks_per_second}
use scada_guard.Checks.{TextLib}
use scada_guard.Storage.Signals.{RealJson}
use scada_guard.Quality.Real.{RealLib}

-- An object is a chain of fields, an array a chain of cells.
pub data Doc : Type 0 where
  nil obj no_cell : Doc
  txt : String → Doc
  num : ℕ → Doc
  flag : Bool → Doc
  field : Doc → String → Doc → Doc
  cell : Doc → Doc → Doc

abbrev pub cells : List Doc → Doc
cells [] = no_cell
cells (d ∷ ds) = cell d (cells ds)

abbrev pub at_doc : Doc → String → Option Doc
at_doc (field j k v) i = if str_eq k i then some v else at_doc j i
at_doc _ i = none

abbrev is_nil : Doc → Bool
is_nil nil = true
is_nil _ = false

abbrev pub txt_of : Doc → Option String
txt_of (txt s) = some s
txt_of _ = none

abbrev pub num_of : Doc → Option ℕ
num_of (num n) = some n
num_of _ = none

abbrev flag_of : Doc → Option Bool
flag_of (flag b) = some b
flag_of _ = none

abbrev value_or {ℓ} : {A : Type ℓ} → (Doc → Option A) → A → Option Doc → Option A
value_or f d none = some d
value_or f d (some v) = f v

abbrev pub docs : JsonLib Doc
docs = record {
  object = obj;
  null = nil;
  text = txt;
  number = num;
  bool = flag;
  array = cells;
  put = λ j k v. field j k v;
  at? = at_doc;
  is_null = is_nil;
  get_text = txt_of;
  get_number = num_of;
  get_bool = flag_of;
  value_text = λ j k d. value_or txt_of d (at_doc j k);
  value_number = λ j k d. value_or num_of d (at_doc j k);
  at?-object = λ k. refl;
  at?-put = λ j v k i. refl;
  is_null-null = refl;
  is_null-text = λ s. refl;
  get_text-text = λ s. refl;
  get_number-number = λ n. refl;
  get_bool-bool = λ b. refl;
  value_text-none = λ j k d e. ap (value_or txt_of d) e;
  value_text-some = λ j v k d e. ap (value_or txt_of d) e;
  value_number-none = λ j k d e. ap (value_or num_of d) e;
  value_number-some = λ j v k d e. ap (value_or num_of d) e;
}

abbrev tally : ℕ → String
tally zero = ""
tally (suc n) = String.◌∷◌ nul (tally n)

abbrev pub tally_length : String → ℕ
tally_length String.[] = 0
tally_length (String.◌∷◌ c s) = suc (tally_length s)

abbrev pub tally_length-tally : (n : ℕ) → tally_length (tally n) ≡ n
tally_length-tally zero = refl
tally_length-tally (suc n) = ap (λ m. suc m) (tally_length-tally n)

abbrev pub clock_texts : UtcLib
clock_texts = record {
  format_utc = λ t. tally (t / ticks_per_second);
  parse_utc = λ s. some (tally_length s * ticks_per_second);
  parse_utc-format_utc =
      λ t. ap (λ n. some (n * ticks_per_second)) (tally_length-tally (t / ticks_per_second));
}

-- Whole numbers, with the subtraction that stops at zero made symmetric by `abs` of the greater.
abbrev pub whole : RealLib Doc ℕ
whole = record {
  zero_real = 0;
  sub = λ a b. (a - b) + (b - a);
  mul = λ a b. a * b;
  div = λ a b. a / b;
  max_real = λ a b. max a b;
  abs = λ a. a;
  lt = ltb;
  le = leb;
  eq = λ a b. a == b;
  of_int = pos_part;
  seconds_of = λ d. pos_part d / ticks_per_second;
  exceeds = λ d x. ltb_ℤ (pos (x * ticks_per_second)) d;
  of_real = num;
}

-- A text is its code points, and names are compared as they are.
abbrev pub codes : String → List ℕ
codes String.[] = []
codes (String.◌∷◌ c s) = code c ∷ codes s

abbrev pub texts : TextLib
texts = record {
  decimal = λ n. tally n;
  tolower = λ c. c;
  bytes_of = λ s. codes s;
  same_name = λ s t. str_eq s t;
  error_text = λ n. tally n;
}

abbrev pub number_of : ℤ → Doc
number_of z = num (pos_part z)

abbrev pub number_docs : RealJson Doc ℕ
number_docs = record { of_real = num; get_real = num_of; get_real-of_real = λ x. refl }
