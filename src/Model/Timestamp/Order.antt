-- ===== src/Model/Timestamp/Order.antt =====
-- The texts of FormatTimestamp compare as the instants do.
use mathlib.Core.List.{append_assoc}
use tenpm_uptime_monitor.Prelude.{
  ℕ, zero, suc, ◌+◌, ◌/◌, ◌%◌, ◌^◌, ◌<◌, ◌≡◌, ap, ◌∙◌, Bool, true, ◌||◌, ◌&&◌, [], ◌∷◌, ◌++◌, arith,
  ltb, ◌==◌,
}
use tenpm_uptime_monitor.Prelude.Text.{text_before, Text}
use tenpm_uptime_monitor.Model.Timestamp.{Civil, last_digits, padded, format_civil}

-- The first numbers decide, and where they are equal the rest does.
abbrev pub lex : ℕ → ℕ → Bool → Bool
lex m n rest = ltb m n || (m == n && rest)

lex_digits :
    (m n : ℕ) (rest : Bool)
    → lex (m / 10) (n / 10) (lex (48 + m % 10) (48 + n % 10) rest) ≡ lex m n rest
lex_digits m n rest = ground arith

tenth : (w n : ℕ) → n < 10 ^ suc w → n / 10 < 10 ^ w
tenth w n h = omega arith

before-last_digits :
    (w m n : ℕ) (x y : Text)
    → m < 10 ^ w
    → n < 10 ^ w
    → text_before (last_digits w m ++ x) (last_digits w n ++ y) ≡ lex m n (text_before x y)
unfolding last_digits text_before
before-last_digits zero m n x y h k = ground arith
before-last_digits (suc w) m n x y h k =
    ap (λ p. text_before p (last_digits (suc w) n ++ y)) (append_assoc (last_digits w (m / 10)) _ x)
    ∙ ap (text_before _) (append_assoc (last_digits w (n / 10)) _ y)
    ∙ before-last_digits w (m / 10) (n / 10) ((48 + m % 10) ∷ x) ((48 + n % 10) ∷ y) (tenth w m h)
        (tenth w n k)
    ∙ lex_digits m n (text_before x y)

-- The fields fit the layout: a year of four digits, and the others of two and nine.
pub record InLayout (c : Civil) : Type 0 where
  pub year : c.year < 10 ^ 4
  pub month : c.month < 10 ^ 2
  pub day : c.day < 10 ^ 2
  pub hour : c.hour < 10 ^ 2
  pub minute : c.minute < 10 ^ 2
  pub second : c.second < 10 ^ 2
  pub nanosecond : c.nanosecond < 10 ^ 9

-- The order of the instants: year first, nanosecond last.
abbrev pub not_after : Civil → Civil → Bool
not_after a b = lex a.year b.year (
    lex a.month b.month (
      lex a.day b.day (
        lex a.hour b.hour
          (lex a.minute b.minute (lex a.second b.second (lex a.nanosecond b.nanosecond true))))))

padded-last_digits : (w n : ℕ) → n < 10 ^ w → padded w n ≡ last_digits w n
unfolding padded
padded-last_digits w n h = ground (arith, h)

-- A separator stands in both texts.
before-padded :
    (w m n c : ℕ) (x y : Text)
    → m < 10 ^ w
    → n < 10 ^ w
    → text_before (padded w m ++ c ∷ x) (padded w n ++ c ∷ y) ≡ lex m n (text_before x y)
before-padded w m n c x y h k =
    ap (λ p. text_before (p ++ c ∷ x) (padded w n ++ c ∷ y)) (padded-last_digits w m h)
    ∙ ap (λ p. text_before (last_digits w m ++ c ∷ x) (p ++ c ∷ y)) (padded-last_digits w n k)
    ∙ before-last_digits w m n (c ∷ x) (c ∷ y) h k
    ∙ ap (lex m n) (unfold text_before in ground arith)

-- From the seconds on, from the minutes on, and so on.
abbrev seconds : Civil → Text
seconds c = padded 2 c.second ++ b'.' ∷ (padded 9 c.nanosecond ++ b'Z' ∷ [])

abbrev minutes : Civil → Text
minutes c = padded 2 c.minute ++ b':' ∷ seconds c

abbrev hours : Civil → Text
hours c = padded 2 c.hour ++ b':' ∷ minutes c

abbrev days : Civil → Text
days c = padded 2 c.day ++ b'T' ∷ hours c

abbrev months : Civil → Text
months c = padded 2 c.month ++ b'-' ∷ days c

format_civil-months : (c : Civil) → format_civil c ≡ padded 4 c.year ++ b'-' ∷ months c
unfolding format_civil
format_civil-months c = simp append_assoc

module _ (a b : Civil) (h : InLayout a) (k : InLayout b) where
  before-seconds :
      text_before (seconds a) (seconds b)
      ≡ lex a.second b.second (lex a.nanosecond b.nanosecond true)
  unfolding text_before
  before-seconds =
      before-padded 2 a.second b.second b'.' _ _ h.second k.second
      ∙ ap (lex a.second b.second)
          (before-padded 9 a.nanosecond b.nanosecond b'Z' [] [] h.nanosecond k.nanosecond)

  before-months :
      text_before (months a) (months b)
      ≡ lex a.month b.month (
          lex a.day b.day (
            lex a.hour b.hour
              (lex a.minute b.minute (lex a.second b.second (lex a.nanosecond b.nanosecond true)))))
  before-months =
      before-padded 2 a.month b.month b'-' (days a) (days b) h.month k.month
      ∙ ap (lex a.month b.month) (
          before-padded 2 a.day b.day b'T' (hours a) (hours b) h.day k.day
          ∙ ap (lex a.day b.day) (
              before-padded 2 a.hour b.hour b':' (minutes a) (minutes b) h.hour k.hour
              ∙ ap (lex a.hour b.hour) (
                  before-padded 2 a.minute b.minute b':' (seconds a) (seconds b) h.minute k.minute
                  ∙ ap (lex a.minute b.minute) before-seconds)))

-- The texts of two instants whose fields fit the layout compare, byte by byte, as the instants do:
-- year, month, day, hour, minute, second and nanosecond, the first that differs deciding.
pub format_civil-Chronological :
    (a b : Civil)
    → InLayout a
    → InLayout b
    → text_before (format_civil a) (format_civil b) ≡ not_after a b
format_civil-Chronological a b h k =
    ap (λ x. text_before x (format_civil b)) (format_civil-months a)
    ∙ ap (text_before (padded 4 a.year ++ b'-' ∷ months a)) (format_civil-months b)
    ∙ before-padded 4 a.year b.year b'-' (months a) (months b) h.year k.year
    ∙ ap (lex a.year b.year) (before-months a b h k)
